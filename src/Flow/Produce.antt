-- ===== src/Flow/Produce.antt =====
-- runtime/src/flow_job/flow.rs: produce_new_value, which hands a value on to its targets.
use oocana_rust.Base.{
  ℕ, suc, String, Bool, not, ◌&&◌, Option, none, some, List, if◌then◌else◌, unwrap_or, ltb, any,
  length, is_some_and, is_none_or, ◌==◌, for_each,
}
use oocana_rust.Base.Map
use oocana_rust.Base.StringSet
use oocana_rust.Base.StringSet.{StringSet}
use oocana_rust.Output.{OutputValue}
use oocana_rust.Node.{Node, HandleTo, to_flow_output, to_node_input, concurrency, as_usize}
use oocana_rust.InputValues
use oocana_rust.InputValues.{
  NodeInputValues, is_node_fulfill, node_pending_fulfill, update_serializable_cache_value,
}
use oocana_rust.Subflow.{SubflowBlock}
use oocana_rust.Flow.{
  Env, Context, NodeQueue, empty_queue, OutputOptions, report_output, parent_output, send,
}
use oocana_rust.Flow.Run.{run_node}

-- The options name a target, and this input of a node is not among its inputs.
unfoldable pub skips_node : Option OutputOptions → String → String → Bool
skips_node options n h = is_some_and options (λ op. is_some_and op.target (λ t.
    is_none_or t.to_node
      (λ to_nodes. not (any (λ x. x.node_id == n && x.input_handle == h) to_nodes))))

unfoldable pub skips_flow : Option OutputOptions → String → Bool
skips_flow options h = is_some_and options (λ op.
    is_some_and op.target
      (λ t. is_none_or t.to_flow (λ to_outputs. not (any (λ x. x.output_handle == h) to_outputs))))

module _ {N F : Type 0} (env : Env N F) (flow : SubflowBlock N) where
  unfoldable pub add_pending : String → NodeQueue → NodeQueue
  add_pending job_id q = record q { pending = StringSet.insert job_id q.pending }

  unfoldable pub same_queue : NodeQueue → NodeQueue
  same_queue q = q

  -- A fulfilled node runs if it has a place; else a pending job is noted if the value completes one.
  unfoldable pub run_or_wait : Node N → String → ℕ → Context N F → Context N F
  unfolding run_node add_pending same_queue
  run_or_wait node n last_fulfill_count ctx =
      let pool = Map.entry n empty_queue same_queue ctx.node_queue_pool in
      let queue = unwrap_or (Map.get n pool) empty_queue in
      let waiting = record ctx { node_queue_pool = pool } in
      if ltb (length queue.jobs) (as_usize (concurrency node))
      then run_node env node waiting
      else if ltb last_fulfill_count (node_pending_fulfill ctx.node_input_values node)
      then record waiting {
        node_queue_pool = Map.insert n (add_pending (env.random ctx.drawn) queue) pool;
        drawn = suc ctx.drawn;
      }
      else waiting

  unfoldable pub pending_before : NodeInputValues N → Option (Node N) → ℕ
  pending_before values none = 0
  pending_before values (some node) = node_pending_fulfill values node

  -- The value goes into the queue of the input, and the node may run.
  unfoldable pub deliver : OutputValue N → Bool → String → String → Context N F → Context N F
  unfolding run_or_wait pending_before
  deliver value run_next_node n h ctx =
      let node = Map.get n flow.nodes in
      let last_fulfill_count = pending_before ctx.node_input_values node in
      let inserted = record ctx {
        node_input_values = InputValues.insert n h value ctx.node_input_values;
      } in
      elim node [
        | none ↦ inserted
        | some d ↦
            if run_next_node && is_node_fulfill inserted.node_input_values d
            then run_or_wait d n last_fulfill_count inserted
            else inserted
      ]

  -- One target; `limit_nodes` are the nodes that may run.
  unfoldable pub produce_to :
      OutputValue N
      → Bool
      → Option StringSet
      → Option OutputOptions
      → HandleTo
      → Context N F
      → Context N F
  unfolding deliver skips_node skips_flow send
  produce_to value run_next_node limit_nodes options (to_node_input n h) ctx =
      if skips_node options n h
      then ctx
      else if is_some_and limit_nodes (λ nodes. not (StringSet.contains n nodes))
      then record ctx {
        node_input_values = update_serializable_cache_value n h value ctx.node_input_values;
      }
      else deliver value run_next_node n h ctx
  produce_to value run_next_node limit_nodes options (to_flow_output h) ctx =
      if skips_flow options h
      then ctx
      else send (parent_output value h) (send (report_output value h) ctx)

  unfoldable pub produce_new_value :
      OutputValue N
      → List HandleTo
      → Bool
      → Option StringSet
      → Option OutputOptions
      → Context N F
      → Context N F
  unfolding produce_to
  produce_new_value value handle_tos run_next_node limit_nodes options ctx =
      for_each (produce_to value run_next_node limit_nodes options) handle_tos ctx
