-- ===== src/Flow/Whole.antt =====
-- runtime/src/flow_job/flow.rs: execute_flow_job, from the parameters to the last status.
use oocana_rust.Base.{
  String, Option, none, some, List, ◌≡◌, refl, for_each, for_each_inv, Bool-cases, Option-cases,
  inl, inr,
}
use oocana_rust.Base.Map
use oocana_rust.Base.StringSet.{StringSet}
use oocana_rust.Output.{OutputValue}
use oocana_rust.InputValues.{NodeInputValues}
use oocana_rust.Subflow.{SubflowBlock, IsKeyed}
use oocana_rust.Upstream.Total.{find_upstream_nodes_total}
use oocana_rust.Flow.{Env, Context, Status}
use oocana_rust.Flow.Run.{is_finish}
use oocana_rust.Flow.Events.{Loop}
use oocana_rust.Flow.Rules.{keeps-produce_new_value}
use oocana_rust.Flow.Rounds.{OnLoop, All-Anything, run, keeps-run}
use oocana_rust.Flow.Start.{
  init, run_named, fulfilled_names, add_all, run_first, feed, enter, execute_flow_job,
}
use oocana_rust.Flow.Sent.{count}
use oocana_rust.Flow.Ending.{HasEnded, run_node-HasEnded, rounds-HasEnded}

module _ {N F : Type 0} (env : Env N F) (flow : SubflowBlock N) (keyed : IsKeyed flow.nodes) where
  -- The nodes that run first are found.
  run_first_total :
      (nodes : Option StringSet) (values : NodeInputValues N)
      → (ctx : Context N F) × (limit : Option StringSet) × (start : NodeInputValues N)
        × (names : List String) × (run_first env flow nodes values ≡ some (ctx, limit))
        × (ctx ≡ for_each (run_named env flow) names (init env flow start))
  unfolding run_first
  run_first_total none values =
      let names = fulfilled_names env flow values flow.nodes in
      (for_each (run_named env flow) names (init env flow values), none, values, names, refl, refl)
  run_first_total (some nodes) values =
      let ((u, left), e) = find_upstream_nodes_total nodes flow keyed values in
      (
        for_each (run_named env flow) u.will_run (init env flow left),
        some (add_all env flow u.upstream nodes),
        left,
        u.will_run,
        rw (e, run_first),
        refl,
      )

  init-HasEnded : (start : NodeInputValues N) → HasEnded 0 (init env flow start)
  unfolding init count
  init-HasEnded start = refl

  run_named-HasEnded :
      (n : String) (ctx : Context N F) → HasEnded 0 ctx → HasEnded 0 (run_named env flow n ctx)
  unfolding run_named
  run_named-HasEnded n ctx h = elim (Option-cases (Map.get n flow.nodes)) [
    | inl gone ↦ rw (gone, run_named) h
    | inr (node, here) ↦ rw (here, run_named) (run_node-HasEnded env flow node ctx h)
  ]

  feed-HasEnded :
      (limit : Option StringSet) (i : String × OutputValue N) (ctx : Context N F)
      → HasEnded 0 ctx
      → HasEnded 0 (feed env flow limit i ctx)
  unfolding feed
  feed-HasEnded limit (h, v) ctx e = elim (Option-cases (Map.get h flow.flow_inputs_tos)) [
    | inl gone ↦ rw (gone, feed) e
    | inr (targets, here) ↦
        rw (here, feed)
          (keeps-produce_new_value env flow limit (rounds-HasEnded env flow limit).base v targets
            none ctx e)
  ]

  enter-HasEnded :
      (limit : Option StringSet) (ctx : Context N F)
      → HasEnded 0 ctx
      → OnLoop (HasEnded 0) (HasEnded 1) (enter env flow ctx)
  unfolding enter
  enter-HasEnded limit ctx h = elim (Bool-cases (is_finish ctx)) [
    | inl last ↦ rw (last, enter) ((rounds-HasEnded env flow limit).succeeded ctx last h)
    | inr more ↦ rw (more, enter) h
  ]

  -- The run of a flow whose nodes stand under their own ids always gets, from its parameters on,
  -- into its loop or past it; and whatever the jobs then tell it, it has told its parent of its end
  -- exactly once when the loop has ended, and not at all before.
  pub flow_ends_once :
      (nodes : Option StringSet) (values : NodeInputValues N) (is : List (String × OutputValue N))
      (ss : List (Status N F))
      → (l : Loop N F) × (limit : Option StringSet) × (execute_flow_job env flow nodes values is
          ≡ some (l, limit))
        × OnLoop (HasEnded 0) (HasEnded 1) (run env flow limit ss l)
  unfolding execute_flow_job
  flow_ends_once nodes values is ss =
      let (ctx, limit, start, names, e, same) = run_first_total nodes values in
      let first : HasEnded 0 ctx = rw same (
        for_each_inv (HasEnded 0) (run_named env flow) run_named-HasEnded names
          (init env flow start) (init-HasEnded start)) in
      let fed =
        for_each_inv (HasEnded 0) (feed env flow limit) (feed-HasEnded limit) is ctx first in
      let l = enter env flow (for_each (feed env flow limit) is ctx) in
      (
        l,
        limit,
        rw (e, execute_flow_job),
        keeps-run env flow limit (rounds-HasEnded env flow limit) ss l (All-Anything ss)
            (enter-HasEnded limit _ fed),
      )
