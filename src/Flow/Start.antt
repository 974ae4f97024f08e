-- ===== src/Flow/Start.antt =====
-- runtime/src/flow_job/flow.rs: execute_flow_job, from its parameters to the loop.
use oocana_rust.Base.{
  String, true, Option, none, some, List, [], ◌∷◌, if◌then◌else◌, ◌>>=◌, for_each,
}
use oocana_rust.Base.Map
use oocana_rust.Base.Map.{Map}
use oocana_rust.Base.StringSet
use oocana_rust.Base.StringSet.{StringSet}
use oocana_rust.Output.{OutputValue}
use oocana_rust.Node.{Node, node_id}
use oocana_rust.InputValues.{NodeInputValues, is_node_fulfill}
use oocana_rust.Subflow.{SubflowBlock}
use oocana_rust.Upstream.{find_upstream_nodes}
use oocana_rust.Progress.{FlowProgress}
use oocana_rust.Flow.{Env, Context}
use oocana_rust.Flow.Run.{run_node, is_finish}
use oocana_rust.Flow.Produce.{produce_new_value}
use oocana_rust.Flow.Events.{Loop, running, stopped, flow_success}

module _ {N F : Type 0} (env : Env N F) (flow : SubflowBlock N) where
  unfoldable pub init_progress : Map (Node N) → FlowProgress F → FlowProgress F
  init_progress [] p = p
  init_progress ((n, node) ∷ nodes) p = init_progress nodes (record p {
    nodes =
        Map.insert n (record { progress = env.floats.zero_f; weight = env.weight node }) p.nodes;
    total_weight = env.floats.add p.total_weight (env.weight node);
  })

  unfoldable pub init : NodeInputValues N → Context N F
  unfolding init_progress
  init values = record {
    node_input_values = values;
    jobs = [];
    node_queue_pool = [];
    drawn = 0;
    progress =
        init_progress flow.nodes
          (record { nodes = []; sum = env.floats.zero_f; total_weight = env.floats.zero_f });
    sent = [];
  }

  -- A name of the list, if it stands in the flow.
  unfoldable pub run_named : String → Context N F → Context N F
  unfolding run_node
  run_named n ctx = elim (Map.get n flow.nodes) [ none ↦ ctx | some node ↦ run_node env node ctx ]

  unfoldable pub fulfilled_names : NodeInputValues N → Map (Node N) → List String
  fulfilled_names values [] = []
  fulfilled_names values ((n, node) ∷ nodes) =
      let rest = fulfilled_names values nodes in
      if is_node_fulfill values node then node_id node ∷ rest else rest

  unfoldable pub add_all : List String → StringSet → StringSet
  add_all [] s = s
  add_all (n ∷ ns) s = add_all ns (StringSet.insert n s)

  -- The nodes that run first, with the limit for the others. With `nodes` the flow runs up to these
  -- and from the nodes before them. `none` would be a search that ran out of fuel.
  unfoldable pub run_first :
      Option StringSet → NodeInputValues N → Option (Context N F × Option StringSet)
  unfolding init run_named fulfilled_names add_all
  run_first none values =
      some (for_each run_named (fulfilled_names values flow.nodes) (init values), none)
  run_first (some nodes) values = find_upstream_nodes nodes flow values >>= λ (u, left).
      some (for_each run_named u.will_run (init left), some (add_all u.upstream nodes))

  -- The inputs of the flow go to their targets.
  unfoldable pub feed : Option StringSet → String × OutputValue N → Context N F → Context N F
  unfolding produce_new_value
  feed limit (h, v) ctx = elim (Map.get h flow.flow_inputs_tos) [
    | none ↦ ctx
    | some targets ↦ produce_new_value env flow v targets true limit none ctx
  ]

  unfoldable pub enter : Context N F → Loop N F
  unfolding flow_success
  enter ctx = if is_finish ctx then stopped (flow_success env flow ctx) else running ctx

  unfoldable pub execute_flow_job :
      Option StringSet
      → NodeInputValues N
      → List (String × OutputValue N)
      → Option (Loop N F × Option StringSet)
  unfolding run_first feed enter
  execute_flow_job nodes values inputs = run_first nodes values >>= λ (ctx, limit).
      some (enter (for_each (feed limit) inputs ctx), limit)
