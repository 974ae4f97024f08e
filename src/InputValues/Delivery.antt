-- ===== src/InputValues/Delivery.antt =====
-- runtime/src/flow_job/node_input_values.rs: what `take` delivers at each handle, and what it leaves.
use oocana_rust.Base.{
  String, Option, none, some, List, [], ◌∷◌, ◌≡◌, refl, ◌∙◌, arith, ◌==◌, eq_iff, if◌then◌else◌,
  unwrap_or, ◌>>=◌, is_some_and, or_else, map_option,
}
use oocana_rust.Base.Map
use oocana_rust.Base.Map.{Map, IsDistinct, get-insert, get-modify}
use oocana_rust.Output.{OutputValue}
use oocana_rust.Node.{Node, NodeInput, node_id, inputs}
use oocana_rust.InputValues.{
  InputMap, InputValues, NodeInputValues, NodeInputStore, waiting, queue, is_static,
  update_serializable_cache_value,
}
use oocana_rust.InputValues.Take.{
  visit, static_only, static_value, left_queues, taken_values, add_static, remember_all,
  remember_taken, cache_all, take, put,
}

module _ {N : Type 0} where
  pub get-left_queues :
      (memory : NodeInputStore N) (node : Node N) (k : String) (m : InputMap N)
      → Map.get k (left_queues memory node m)
        ≡ map_option (λ q. (visit memory node k q).left) (Map.get k m)
  unfolding left_queues Map.get
  get-left_queues memory node k [] = refl
  get-left_queues memory node k ((h, q) ∷ m) =
      ground (arith, eq_iff h k, get-left_queues memory node k m)

  get-put :
      (h k : String) (o : Option (OutputValue N)) (values : InputValues N)
      → Map.get k (put h o values)
        ≡ (if h == k then or_else o (Map.get k values) else Map.get k values)
  unfolding put
  get-put h k none values = ground arith
  get-put h k (some v) values = get-insert h k v values

  pub get-taken_values :
      (memory : NodeInputStore N) (node : Node N) (k : String) (m : InputMap N)
      (values : InputValues N)
      → IsDistinct m
      → Map.get k (taken_values memory node m values)
        ≡ or_else (Map.get k m >>= λ q. (visit memory node k q).value) (Map.get k values)
  unfolding taken_values Map.get
  get-taken_values memory node k [] values d = refl
  get-taken_values memory node k ((h, q) ∷ m) values d =
      let p = visit memory node h q in
      ground (
        arith,
        eq_iff h k,
        get-taken_values memory node k m (put h p.value values) d.1,
        get-put h k p.value values,
      )

  pub get-add_static :
      (k : String) (is : Map (NodeInput N)) (values : InputValues N)
      → IsDistinct is
      → Map.get k (add_static is values)
        ≡ or_else
            (Map.get k is >>= λ i. if is_static i then some (static_value i) else none)
            (Map.get k values)
  unfolding add_static Map.get
  get-add_static k [] values d = refl
  get-add_static k ((h, i) ∷ is) values d = ground (
    arith,
    eq_iff h k,
    get-add_static k is (if is_static i then Map.insert h (static_value i) values else values) d.1,
    get-insert h k (static_value i) values,
  )

  -- Remembering and caching leave the queues alone.
  store-remember_all :
      (memory : NodeInputStore N) (node : Node N) (m : InputMap N) (niv : NodeInputValues N)
      → (remember_all memory node m niv).store ≡ niv.store
  unfolding remember_all
  store-remember_all memory node [] niv = refl
  store-remember_all memory node ((h, q) ∷ m) niv =
      store-remember_all memory node m (remember_taken node h (visit memory node h q) niv)
      ∙ ground arith

  store-cache_all :
      (n : String) (values : InputValues N) (niv : NodeInputValues N)
      → (cache_all n values niv).store ≡ niv.store
  unfolding cache_all
  store-cache_all n [] niv = refl
  store-cache_all n ((h, v) ∷ values) niv =
      store-cache_all n values (update_serializable_cache_value n h v niv) ∙ ground arith

  pub memory-cache_all :
      (n : String) (values : InputValues N) (niv : NodeInputValues N)
      → (cache_all n values niv).memory_store ≡ niv.memory_store
  unfolding cache_all
  memory-cache_all n [] niv = refl
  memory-cache_all n ((h, v) ∷ values) niv =
      memory-cache_all n values (update_serializable_cache_value n h v niv) ∙ ground arith

  pub store-take :
      (node : Node N) (niv : NodeInputValues N)
      → (take node niv).1.store
        ≡ Map.modify (node_id node) (left_queues niv.memory_store node) niv.store
  unfolding take
  store-take node niv = simp (store-cache_all, store-remember_all)

  -- The queue of a handle after `take`: only the queues of the node lose their front.
  pub queue-take :
      (node : Node N) (niv : NodeInputValues N) (n h : String)
      → queue (take node niv).1.store n h ≡ (
          if node_id node == n
          then map_option (λ q. (visit niv.memory_store node h q).left) (queue niv.store n h)
          else queue niv.store n h)
  queue-take node niv n h = rw (store-take node niv) (
      ground (
        arith,
        eq_iff (node_id node) n,
        get-modify (node_id node) n (left_queues niv.memory_store node) niv.store,
        get-left_queues niv.memory_store node h (unwrap_or (Map.get n niv.store) []),
      ))

  -- What a handle of a job gets: its static value if it has one and no connection, else the oldest
  -- waiting value, else the remembered one.
  unfoldable pub oldest :
      NodeInputStore N → String → String → List (OutputValue N) → Option (OutputValue N)
  oldest memory n h (v ∷ q) = some v
  oldest memory n h [] = elim (waiting memory n h) [ [] ↦ none | v ∷ q ↦ some v ]

  unfoldable pub delivered : Node N → NodeInputValues N → String → Option (OutputValue N)
  unfolding oldest static_value
  delivered node niv h =
      or_else (Map.get h (inputs node) >>= λ i. if is_static i then some (static_value i) else none)
        (queue niv.store (node_id node) h >>= oldest niv.memory_store (node_id node) h)

  pub static_only-is_static :
      (node : Node N) (h : String)
      → static_only node h ≡ is_some_and (Map.get h (inputs node)) is_static
  unfolding static_only
  static_only-is_static node h = ground arith
