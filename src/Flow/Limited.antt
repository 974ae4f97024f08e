-- ===== src/Flow/Limited.antt =====
-- runtime/src/flow_job/flow.rs: the whole run of a flow that is limited to some of its nodes.
use oocana_rust.Base.{
  String, true, false, ◌||◌, Option, none, some, List, [], ◌∷◌, ◌≡◌, ◌≢◌, refl, sym, ◌∙◌, arith,
  for_each, for_each_inv, All, All-imp, Bool-cases, Option-cases, inl, inr,
}
use oocana_rust.Base.Map
use oocana_rust.Base.StringSet
use oocana_rust.Base.StringSet.{StringSet, contains-insert}
use oocana_rust.Output.{OutputValue}
use oocana_rust.Node.{Node}
use oocana_rust.InputValues.{NodeInputValues}
use oocana_rust.Subflow.{SubflowBlock, IsKeyed}
use oocana_rust.Upstream.{Upstream, find_upstream_nodes}
use oocana_rust.Upstream.Total.{find_upstream_nodes_total}
use oocana_rust.Upstream.Within.{find_upstream_nodes-IsAllowed}
use oocana_rust.Flow.{Env, Context, Status}
use oocana_rust.Flow.Run.{is_finish}
use oocana_rust.Flow.Events.{Loop}
use oocana_rust.Flow.Rules.{keeps-produce_new_value}
use oocana_rust.Flow.Rounds.{OnLoop, All-Anything, run, keeps-run}
use oocana_rust.Flow.Start.{init, run_named, add_all, run_first, feed, enter, execute_flow_job}
use oocana_rust.Flow.Sent.{count}
use oocana_rust.Flow.Limits.{NotStarted, run_node-NotStarted, rounds-NotStarted}

module _ {N F : Type 0} (env : Env N F) (flow : SubflowBlock N) (keyed : IsKeyed flow.nodes) where
  contains-add_all :
      (n : String) (ns : List String) (s : StringSet)
      → StringSet.contains n (add_all env flow ns s)
        ≡ (StringSet.contains n s || StringSet.contains n ns)
  unfolding add_all StringSet.contains
  contains-add_all n [] s = ground arith
  contains-add_all n (k ∷ ns) s =
      ground (arith, contains-add_all n ns (StringSet.insert k s), contains-insert k n s)

  init-NotStarted : (n : String) (start : NodeInputValues N) → NotStarted n (init env flow start)
  unfolding init count Map.get
  init-NotStarted n start = record { no_pending = refl; no_start = refl }

  run_names-NotStarted :
      (n : String) (names : List String) (ctx : Context N F)
      → All (λ k. k ≢ n) names
      → NotStarted n ctx
      → NotStarted n (for_each (run_named env flow) names ctx)
  unfolding for_each run_named
  run_names-NotStarted n [] ctx other h = h
  run_names-NotStarted n (k ∷ names) ctx other h =
      run_names-NotStarted n names (run_named env flow k ctx) other.1
        (first (Map.get k flow.nodes) refl)
    where
      first :
          (o : Option (Node N)) → Map.get k flow.nodes ≡ o → NotStarted n (run_named env flow k ctx)
      first none e = rw (e, run_named) h
      first (some node) e =
          rw (e, run_named)
            (run_node-NotStarted env flow n node ctx (λ same. other.0 (sym (keyed k node e) ∙ same))
              h)

  module _ (n : String) (limit : StringSet) (outside : StringSet.contains n limit ≡ false) where
    feed-NotStarted :
        (i : String × OutputValue N) (ctx : Context N F)
        → NotStarted n ctx
        → NotStarted n (feed env flow (some limit) i ctx)
    unfolding feed
    feed-NotStarted (h, v) ctx e = elim (Option-cases (Map.get h flow.flow_inputs_tos)) [
      | inl gone ↦ rw (gone, feed) e
      | inr (targets, here) ↦
          rw (here, feed)
            (keeps-produce_new_value env flow (some limit)
              (rounds-NotStarted env flow n keyed limit outside).base v targets none ctx e)
    ]

    enter-NotStarted :
        (ctx : Context N F)
        → NotStarted n ctx
        → OnLoop (NotStarted n) (NotStarted n) (enter env flow ctx)
    unfolding enter
    enter-NotStarted ctx h = elim (Bool-cases (is_finish ctx)) [
      | inl last ↦
          rw (last, enter) ((rounds-NotStarted env flow n keyed limit outside).succeeded ctx last h)
      | inr more ↦ rw (more, enter) h
    ]

  -- A flow whose nodes stand under their own ids, run up to some nodes: it is limited to these and
  -- the upstream nodes that are found, and from its parameters to its last status no other node
  -- starts a job or has one waiting, whatever its inputs and the statuses are.
  pub limited_run :
      (nodes : StringSet) (values : NodeInputValues N) (is : List (String × OutputValue N))
      (ss : List (Status N F))
      → (u : Upstream) × (left : NodeInputValues N) × (l : Loop N F) × (limit : StringSet)
        × (find_upstream_nodes nodes flow values ≡ some (u, left))
        × (execute_flow_job env flow (some nodes) values is ≡ some (l, some limit))
        × ((n : String)
            → StringSet.contains n limit
              ≡ (StringSet.contains n nodes || StringSet.contains n u.upstream))
        × ((n : String)
            → StringSet.contains n limit ≡ false
            → OnLoop (NotStarted n) (NotStarted n) (run env flow (some limit) ss l))
  unfolding execute_flow_job run_first
  limited_run nodes values is ss =
      let ((u, left), e) = find_upstream_nodes_total nodes flow keyed values in
      let limit = add_all env flow u.upstream nodes in
      let first = for_each (run_named env flow) u.will_run (init env flow left) in
      let l = enter env flow (for_each (feed env flow (some limit)) is first) in
      let member = λ (n : String). contains-add_all n u.upstream nodes in
      (
        u,
        left,
        l,
        limit,
        e,
        rw (e, execute_flow_job, run_first),
        member,
        λ n outside.
            let others : All (λ k. k ≢ n) u.will_run =
              All-imp (λ k. (StringSet.contains k nodes || StringSet.contains k u.upstream) ≡ true)
                (λ k. k ≢ n) u.will_run (λ k p same. ground (arith, p, same, member n, outside))
                (find_upstream_nodes-IsAllowed nodes flow keyed values left u e) in
            let started =
              run_names-NotStarted n u.will_run (init env flow left) others
                (init-NotStarted n left) in
            let fed =
              for_each_inv (NotStarted n) (feed env flow (some limit))
                (feed-NotStarted n limit outside) is first started in
            keeps-run env flow (some limit) (rounds-NotStarted env flow n keyed limit outside) ss l
              (All-Anything ss) (enter-NotStarted n limit outside _ fed),
      )
