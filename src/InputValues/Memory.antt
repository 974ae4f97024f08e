-- ===== src/InputValues/Memory.antt =====
-- runtime/src/flow_job/node_input_values.rs: the values that a node remembers between its jobs.
use oocana_rust.Base.{
  String, true, false, ◌&&◌, Option, none, some, List, [], ◌∷◌, ◌≡◌, arith, ◌==◌, eq_iff,
  if◌then◌else◌, unwrap_or, ◌>>=◌, or_else, ==_refl, Option-cases, inl, inr,
}
use oocana_rust.Base.Map
use oocana_rust.Base.Map.{Map, IsDistinct, get-insert, get-modify}
use oocana_rust.Output.{OutputValue}
use oocana_rust.Node.{Node, node_id}
use oocana_rust.InputValues.{
  InputMap, NodeInputValues, NodeInputStore, queue, remember_value, need_remember_value, only,
}
use oocana_rust.InputValues.Queues.{queue-change_queue}
use oocana_rust.InputValues.Take.{
  Popped, visit, static_only, left_queues, remember_all, remember_taken, value_map, take,
}
use oocana_rust.InputValues.Delivery.{
  memory-cache_all, queue-take, delivered, static_only-is_static,
}
use oocana_rust.InputValues.Jobs.{HasMaps, get-value_map}

module _ {N : Type 0} where
  -- The queue that is remembered after a visit, if it remembers one.
  unfoldable pub memorised : Popped N → Option (List (OutputValue N))
  memorised p = if p.remembered then (p.value >>= λ v. some (v ∷ [])) else none

  queue-remember_taken :
      (node : Node N) (h : String) (p : Popped N) (niv : NodeInputValues N) (n k : String)
      → queue (remember_taken node h p niv).memory_store n k
        ≡ or_else
            (if node_id node == n && h == k then memorised p else none)
            (queue niv.memory_store n k)
  unfolding remember_taken remember_value memorised
  queue-remember_taken node h p niv n k = elim (Option-cases p.value) [
    | inl e ↦ ground arith
    | inr (v, e) ↦ ground (
      arith,
      eq_iff (node_id node) n,
      eq_iff h k,
      queue-change_queue (node_id node) n h k (only v) niv.memory_store,
    )
  ]

  pub queue-remember_all :
      (memory : NodeInputStore N) (node : Node N) (m : InputMap N) (niv : NodeInputValues N)
      (n k : String)
      → IsDistinct m
      → queue (remember_all memory node m niv).memory_store n k
        ≡ or_else
            (if node_id node == n
              then (Map.get k m >>= λ q. memorised (visit memory node k q))
              else none)
            (queue niv.memory_store n k)
  unfolding remember_all Map.get
  queue-remember_all memory node [] niv n k d = ground arith
  queue-remember_all memory node ((h, q) ∷ m) niv n k d =
      let p = visit memory node h q in
      ground (
        arith,
        eq_iff (node_id node) n,
        eq_iff h k,
        queue-remember_all memory node m (remember_taken node h p niv) n k d.1,
        queue-remember_taken node h p niv n k,
      )

  -- The memory after `take`: what the visits remember, and else what was there.
  pub memory-take :
      (node : Node N) (niv : NodeInputValues N) (n k : String)
      → HasMaps node niv
      → queue (take node niv).1.memory_store n k
        ≡ or_else
            (if node_id node == n
              then (queue niv.store n k >>= λ q. memorised (visit niv.memory_store node k q))
              else none)
            (queue niv.memory_store n k)
  unfolding take Map.get
  memory-take node niv n k d =
      let m = unwrap_or (Map.get (node_id node) niv.store) [] in
      let popped : NodeInputValues N = record niv {
        store = Map.modify (node_id node) (left_queues niv.memory_store node) niv.store;
      } in
      ground (
        arith,
        eq_iff (node_id node) n,
        memory-cache_all (node_id node) (value_map node niv)
            (remember_all niv.memory_store node m popped),
        queue-remember_all niv.memory_store node m popped n k d.1,
      )

  -- At a handle that remembers, with no static value, where one value waits: when a job has taken
  -- it, the next job gets the same value again. Neither the inputs nor the queues of the node have
  -- a handle twice, before or after.
  pub remembered_again :
      (node : Node N) (niv : NodeInputValues N) (h : String) (v : OutputValue N)
      → HasMaps node niv
      → HasMaps node (take node niv).1
      → need_remember_value node h ≡ true
      → static_only node h ≡ false
      → queue niv.store (node_id node) h ≡ some (v ∷ [])
      → Map.get h (value_map node (take node niv).1) ≡ some v
  unfolding delivered memorised visit
  remembered_again node niv h v d d' r s q = rw (get-value_map node (take node niv).1 h d') (
      ground (
        arith,
        memory-take node niv (node_id node) h d,
        queue-take node niv (node_id node) h,
        static_only-is_static node h,
        ==_refl (node_id node),
      ))
