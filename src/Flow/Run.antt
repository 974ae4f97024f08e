-- ===== src/Flow/Run.antt =====
-- runtime/src/flow_job/flow.rs: run_node, run_pending_node and is_finish.
use oocana_rust.Base.{
  suc, String, Bool, none, some, [], ◌∷◌, if◌then◌else◌, unwrap_or, ltb, is_empty, length,
}
use oocana_rust.Base.Map
use oocana_rust.Base.Map.{Map}
use oocana_rust.Base.StringSet
use oocana_rust.Node.{Node, node_id, concurrency, as_usize}
use oocana_rust.InputValues.Take.{take}
use oocana_rust.Subflow.{SubflowBlock}
use oocana_rust.Flow.{Env, Context, NodeQueue, empty_queue, start_job, send}

module _ {N F : Type 0} (env : Env N F) where
  unfoldable pub add_job : String → NodeQueue → NodeQueue
  add_job job_id q = record q { jobs = StringSet.insert job_id q.jobs }

  -- The scope and the parameters of the job, which run_node computes from the node, are left to
  -- `run_job`.
  unfoldable pub run_node : Node N → Context N F → Context N F
  unfolding add_job send
  run_node node ctx =
      let job_id = env.random ctx.drawn in
      let (inputs, values) = take node ctx.node_input_values in
      let started = send (start_job (node_id node) job_id inputs) (record ctx {
        node_input_values = values;
        node_queue_pool = Map.entry (node_id node) empty_queue (add_job job_id) ctx.node_queue_pool;
        drawn = suc ctx.drawn;
      }) in
      if env.run_job node job_id inputs
      then record started { jobs = Map.insert job_id (node_id node) started.jobs }
      else started

  unfoldable pub remove_job : String → NodeQueue → NodeQueue
  remove_job job_id q = record q { jobs = StringSet.remove job_id q.jobs }

  unfoldable pub remove_pending : String → NodeQueue → NodeQueue
  remove_pending job_id q = record q { pending = StringSet.remove job_id q.pending }

  -- The place that a job of the node left goes to the first of its pending jobs.
  unfoldable pub run_next : Node N → String → NodeQueue → Context N F → Context N F
  unfolding run_node remove_pending
  run_next node n q ctx = elim q.pending [
    | [] ↦ ctx
    | p ∷ rest ↦
        if ltb (length q.jobs) (as_usize (concurrency node))
        then run_node node
            (record ctx { node_queue_pool = Map.insert n (remove_pending p q) ctx.node_queue_pool })
        else ctx
  ]

  unfoldable pub release_job : String → String → Context N F → Context N F
  unfolding remove_job
  release_job n job_id ctx = record ctx {
    node_queue_pool = Map.entry n empty_queue (remove_job job_id) ctx.node_queue_pool;
  }

  unfoldable pub run_pending_node : SubflowBlock N → String → Context N F → Context N F
  unfolding run_next release_job
  run_pending_node flow job_id ctx = elim (Map.get job_id ctx.jobs) [
    | none ↦ ctx
    | some n ↦
        let released = release_job n job_id ctx in
        elim (Map.get n flow.nodes) [
          | none ↦ released
          | some node ↦
              run_next node n (unwrap_or (Map.get n released.node_queue_pool) empty_queue) released
        ]
  ]

abbrev pub is_finish : {N F : Type 0} → Context N F → Bool
is_finish ctx = is_empty ctx.jobs
