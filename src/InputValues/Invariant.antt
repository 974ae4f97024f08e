-- ===== src/InputValues/Invariant.antt =====
-- runtime/src/flow_job/node_input_values.rs: what the operations keep, and the order of delivery.
use oocana_rust.Base.{
  String, Bool, true, false, some, List, [], ◌∷◌, ◌≡◌, refl, arith, ◌==◌, unwrap_or, ==_refl,
  Bool-cases, Option-cases, inl, inr,
}
use oocana_rust.Base.Map
use oocana_rust.Base.Map.{Map, IsDistinct, get-entry, get-modify, entry-IsDistinct}
use oocana_rust.Output.{OutputValue}
use oocana_rust.Node.{Node, NodeInput, node_id, inputs}
use oocana_rust.InputValues.{
  InputMap, InputValues, NodeInputValues, NodeInputStore, is_node_fulfill, queue, insert,
  change_queue, push_back, new, update_serializable_cache_value,
}
use oocana_rust.InputValues.Queues.{queue-change_queue}
use oocana_rust.InputValues.Take.{visit, static_only, left_queues, value_map, take}
use oocana_rust.InputValues.Delivery.{
  get-left_queues, store-take, queue-take, delivered, static_only-is_static,
}
use oocana_rust.InputValues.Jobs.{HasMaps, IsCovered, get-value_map, fulfilled_has_values}
use oocana_rust.InputValues.Memory.{memory-take, memorised}

module _ {N : Type 0} where
  abbrev queues_of : NodeInputStore N → String → InputMap N
  queues_of s n = unwrap_or (Map.get n s) []

  pub record IsValid (niv : NodeInputValues N) : Type 0 where
    pub covered : IsCovered niv
    pub distinct : (n : String) → IsDistinct (unwrap_or (Map.get n niv.store) [])

  pub IsValid-HasMaps :
      (node : Node N) (niv : NodeInputValues N)
      → IsDistinct (inputs node)
      → IsValid niv
      → HasMaps node niv
  IsValid-HasMaps node niv d v = (d, v.distinct (node_id node))

  pub new-IsValid : (b : Bool) → IsValid (new b)
  unfolding new Map.get
  new-IsValid b = record { covered = λ n h c. absurd (c refl); distinct = λ n. tt }

  change_queue-IsDistinct :
      (n h : String) (f : List (OutputValue N) → List (OutputValue N)) (s : NodeInputStore N)
      → ((m : String) → IsDistinct (queues_of s m))
      → (m : String) → IsDistinct (queues_of (change_queue n h f s) m)
  unfolding change_queue
  change_queue-IsDistinct n h f s d m = elim (Bool-cases (n == m)) [
    | inl e ↦
        rw (get-entry n m [] (Map.entry h [] f) s, e)
          (entry-IsDistinct h [] f (queues_of s n) (d n))
    | inr e ↦ rw (get-entry n m [] (Map.entry h [] f) s, e) (d m)
  ]

  pub insert-IsValid :
      (n h : String) (v : OutputValue N) (niv : NodeInputValues N)
      → IsValid niv
      → IsValid (insert n h v niv)
  unfolding insert
  insert-IsValid n h v niv i = record {
    covered = λ m k c.
        ground (arith, queue-change_queue n m h k (push_back v) niv.store, i.covered m k c);
    distinct = change_queue-IsDistinct n h (push_back v) niv.store i.distinct;
  }

  pub update-IsValid :
      (n h : String) (v : OutputValue N) (niv : NodeInputValues N)
      → IsValid niv
      → IsValid (update_serializable_cache_value n h v niv)
  unfolding update_serializable_cache_value
  update-IsValid n h v niv i = ground (arith, i)

  left_queues-IsDistinct :
      (memory : NodeInputStore N) (node : Node N) (m : InputMap N)
      → IsDistinct m
      → IsDistinct (left_queues memory node m)
  unfolding left_queues
  left_queues-IsDistinct memory node [] d = tt
  left_queues-IsDistinct memory node ((h, q) ∷ m) d =
      (ground (arith, get-left_queues memory node h m), left_queues-IsDistinct memory node m d.1)

  IsDistinct-take :
      (node : Node N) (niv : NodeInputValues N)
      → IsValid niv
      → (n : String) → IsDistinct (queues_of (take node niv).1.store n)
  IsDistinct-take node niv i n =
      let f = left_queues niv.memory_store node in
      let e = get-modify (node_id node) n f niv.store in
      elim (Bool-cases (node_id node == n)) [
        | inl same ↦ elim (Option-cases (Map.get (node_id node) niv.store)) [
          | inl a ↦ rw (store-take node niv, e, same, a) tt
          | inr (m, a) ↦
              rw (store-take node niv, e, same, a)
                (left_queues-IsDistinct niv.memory_store node m
                  (rw a at (i.distinct (node_id node))))
        ]
        | inr other ↦ rw (store-take node niv, e, other) (i.distinct n)
      ]

  -- Taking the values for a job of a node with no input twice keeps the waiting values well-formed.
  pub take-IsValid :
      (node : Node N) (niv : NodeInputValues N)
      → IsDistinct (inputs node)
      → IsValid niv
      → IsValid (take node niv).1
  unfolding memorised
  take-IsValid node niv d i = record {
    covered = λ n h c. ground (
      arith,
      memory-take node niv n h (IsValid-HasMaps node niv d i),
      queue-take node niv n h,
      i.covered n h,
    );
    distinct = IsDistinct-take node niv i;
  }

  -- Let the waiting values be well-formed and the node have no input twice. First in, first out:
  -- where a value waits at a handle with no static value, a job gets the oldest one, and the others
  -- stay in their order; all queues of every other node stay as they are.
  pub take_fifo :
      (node : Node N) (niv : NodeInputValues N) (h : String) (v : OutputValue N)
      (q : List (OutputValue N))
      → IsDistinct (inputs node)
      → IsValid niv
      → static_only node h ≡ false
      → queue niv.store (node_id node) h ≡ some (v ∷ q)
      → (Map.get h (value_map node niv) ≡ some v)
        × (queue (take node niv).1.store (node_id node) h ≡ some q)
        × ((n k : String)
            → (node_id node == n) ≡ false
            → queue (take node niv).1.store n k ≡ queue niv.store n k)
  unfolding delivered visit
  take_fifo node niv h v q d i s e = (
    rw (get-value_map node niv h (IsValid-HasMaps node niv d i))
        (ground (arith, static_only-is_static node h)),
    rw (queue-take node niv (node_id node) h, ==_refl (node_id node)) (ground arith),
    λ n k o. rw (queue-take node niv n k, o),
  )

  -- Let the waiting values be well-formed and the node have no input twice. A job that is started
  -- for the node when its inputs are fulfilled is given values, with one at every input of the
  -- node.
  pub fulfilled_job_has_values :
      (node : Node N) (niv : NodeInputValues N) (h : String) (i : NodeInput N)
      → IsDistinct (inputs node)
      → IsValid niv
      → is_node_fulfill niv node ≡ true
      → Map.get h (inputs node) ≡ some i
      → (values : InputValues N) × (v : OutputValue N) × ((take node niv).0 ≡ some values)
        × (Map.get h values ≡ some v)
  unfolding take Map.get
  fulfilled_job_has_values node niv h i d valid ready here =
      elim (Option-cases (Map.get h (value_map node niv))) [
        | inl gone ↦ absurd (
            fulfilled_has_values node niv h i (IsValid-HasMaps node niv d valid) valid.covered ready
              here gone)
        | inr (v, found) ↦ (value_map node niv, v, ground (arith, found), found)
      ]
