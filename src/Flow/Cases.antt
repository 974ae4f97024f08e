-- ===== src/Flow/Cases.antt =====
-- runtime/src/flow_job/flow.rs: the ways in which a value is delivered and a pending job is run.
use oocana_rust.Base.{
  ℕ, suc, String, true, false, some, ◌≡◌, unwrap_or, ltb, length, Bool-cases, Option-cases, inl,
  inr,
}
use oocana_rust.Base.Map
use oocana_rust.Base.Map.{Map}
use oocana_rust.Output.{OutputValue}
use oocana_rust.Node.{Node, concurrency, as_usize}
use oocana_rust.InputValues
use oocana_rust.InputValues.{node_pending_fulfill, is_node_fulfill}
use oocana_rust.Subflow.{SubflowBlock}
use oocana_rust.Flow.{Env, Context, NodeQueue, empty_queue}
use oocana_rust.Flow.Run.{run_node, run_next, release_job, run_pending_node}
use oocana_rust.Flow.Produce.{run_or_wait, add_pending, same_queue, deliver, pending_before}

-- The queue of a node, empty where the pool has none.
abbrev pub queue_at : Map NodeQueue → String → NodeQueue
queue_at pool n = unwrap_or (Map.get n pool) empty_queue

module _ {N F : Type 0} (env : Env N F) (flow : SubflowBlock N) (P : Context N F → Type 0) where
  -- The state that `run_or_wait` goes on from: the node has a queue.
  abbrev pub with_queue : String → Context N F → Context N F
  with_queue n ctx = record ctx {
    node_queue_pool = Map.entry n empty_queue (same_queue env flow) ctx.node_queue_pool;
  }

  pub run_or_wait_cases :
      (node : Node N) (n : String) (last : ℕ) (ctx : Context N F)
      → (ltb
              (length (queue_at (with_queue n ctx).node_queue_pool n).jobs)
              (as_usize (concurrency node))
            ≡ true
          → P (run_node env node (with_queue n ctx)))
      → (ltb
              (length (queue_at (with_queue n ctx).node_queue_pool n).jobs)
              (as_usize (concurrency node))
            ≡ false
          → ltb last (node_pending_fulfill ctx.node_input_values node) ≡ true
          → P (record (with_queue n ctx) {
            node_queue_pool =
                Map.insert n
                  (add_pending env flow
                    (env.random ctx.drawn)
                    (queue_at (with_queue n ctx).node_queue_pool n))
                  (with_queue n ctx).node_queue_pool;
            drawn = suc ctx.drawn;
          }))
      → P (with_queue n ctx)
      → P (run_or_wait env flow node n last ctx)
  unfolding run_or_wait
  run_or_wait_cases node n last ctx runs waits stays =
      elim (Bool-cases (
        ltb (length (queue_at (with_queue n ctx).node_queue_pool n).jobs)
          (as_usize (concurrency node)))) [
            | inl free ↦ rw (free, run_or_wait) (runs free)
            | inr full ↦
                elim (Bool-cases (ltb last (node_pending_fulfill ctx.node_input_values node))) [
                  | inl more ↦ rw (full, more, run_or_wait) (waits full more)
                  | inr same ↦ rw (full, same, run_or_wait) stays
                ]
          ]

  pub deliver_cases :
      (v : OutputValue N) (n h : String) (ctx : Context N F)
      → P (record ctx { node_input_values = InputValues.insert n h v ctx.node_input_values })
      → ((node : Node N) (last : ℕ)
          → Map.get n flow.nodes ≡ some node
          → is_node_fulfill (InputValues.insert n h v ctx.node_input_values) node ≡ true
          → P (
              run_or_wait env flow node n last (record ctx {
                node_input_values = InputValues.insert n h v ctx.node_input_values;
              })))
      → P (deliver env flow v true n h ctx)
  unfolding deliver
  deliver_cases v n h ctx keeps runs = elim (Option-cases (Map.get n flow.nodes)) [
    | inl gone ↦ rw (gone, deliver) keeps
    | inr (node, here) ↦
        elim (Bool-cases (is_node_fulfill (InputValues.insert n h v ctx.node_input_values) node)) [
          | inl ready ↦
              rw (here, deliver, ready)
                (runs node (pending_before env flow ctx.node_input_values (Map.get n flow.nodes))
                  here ready)
          | inr waits ↦ rw (here, deliver, waits) keeps
        ]
  ]

  pub run_pending_cases :
      (j : String) (ctx : Context N F)
      → P ctx
      → ((n : String) → Map.get j ctx.jobs ≡ some n → P (release_job env n j ctx))
      → ((n : String) (node : Node N)
          → Map.get j ctx.jobs ≡ some n
          → Map.get n flow.nodes ≡ some node
          → P (
              run_next env node n
                (queue_at (release_job env n j ctx).node_queue_pool n)
                (release_job env n j ctx)))
      → P (run_pending_node env flow j ctx)
  unfolding run_pending_node
  run_pending_cases j ctx same left next = elim (Option-cases (Map.get j ctx.jobs)) [
    | inl gone ↦ rw (gone, run_pending_node) same
    | inr (n, here) ↦ elim (Option-cases (Map.get n flow.nodes)) [
      | inl lost ↦ rw (here, run_pending_node, lost) (left n here)
      | inr (node, known) ↦ rw (here, run_pending_node, known) (next n node here known)
    ]
  ]
