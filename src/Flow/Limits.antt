-- ===== src/Flow/Limits.antt =====
-- runtime/src/flow_job/flow.rs: when a flow runs up to some of its nodes, the others start no job.
use oocana_rust.Base.{
  ℕ, String, true, false, none, some, List, [], ◌∷◌, ◌≡◌, ◌≢◌, refl, sym, ◌∙◌, arith, eq_iff, ltb,
  length, Bool-cases, inl, inr,
}
use oocana_rust.Base.Map
use oocana_rust.Base.Map.{get-entry, get-insert}
use oocana_rust.Base.StringSet
use oocana_rust.Base.StringSet.{StringSet}
use oocana_rust.Output.{OutputValue}
use oocana_rust.Node.{Node, node_id, as_usize, concurrency}
use oocana_rust.Subflow.{SubflowBlock, IsKeyed}
use oocana_rust.InputValues.Take.{take}
use oocana_rust.Flow.{
  Env, Context, empty_queue, Message, start_job, save_cache, report_done, parent_finish,
  parent_error, Status, send,
}
use oocana_rust.Flow.Run.{
  run_node, add_job, run_next, remove_job, remove_pending, release_job, run_pending_node,
}
use oocana_rust.Flow.Produce.{run_or_wait, add_pending, same_queue, deliver}
use oocana_rust.Flow.Events.{running, flow_success, fail, on_error}
use oocana_rust.Flow.Cases.{
  queue_at, with_queue, run_or_wait_cases, deliver_cases, run_pending_cases,
}
use oocana_rust.Flow.Rounds.{KeepsRounds, OnLoop, Anything, All-Anything, run, keeps-run}
use oocana_rust.Flow.Sent.{count, count-send, starts, starts_plain}

module _ {N F : Type 0} where
  -- The node has started no job, and none of its jobs waits.
  pub record NotStarted (n : String) (ctx : Context N F) : Type 0 where
    pub no_pending : (queue_at ctx.node_queue_pool n).pending ≡ []
    pub no_start : count (starts n) ctx.sent ≡ 0

module _ {N F : Type 0} (n : String) where
  send-NotStarted :
      (m : Message N F) (ctx : Context N F)
      → starts n m ≡ false
      → NotStarted n ctx
      → NotStarted n (send m ctx)
  unfolding send
  send-NotStarted m ctx other h = record {
    no_pending = h.no_pending;
    no_start = ground (arith, count-send (starts n) m ctx, h.no_start);
  }

module _ {N F : Type 0} (env : Env N F) (flow : SubflowBlock N) (n : String) where
  pub run_node-NotStarted :
      (node : Node N) (ctx : Context N F)
      → node_id node ≢ n
      → NotStarted n ctx
      → NotStarted n (run_node env node ctx)
  unfolding run_node send
  run_node-NotStarted node ctx other h =
      let job_id = env.random ctx.drawn in
      let (is, values) = take node ctx.node_input_values in
      let k = node_id node in
      let pool = Map.entry k empty_queue (add_job env job_id) ctx.node_queue_pool in
      let pending : (queue_at pool n).pending ≡ [] = ground (
        arith,
        get-entry k n empty_queue (add_job env job_id) ctx.node_queue_pool,
        eq_iff k n,
        h.no_pending,
      ) in
      let start : count (starts n) (send (start_job k job_id is) ctx).sent ≡ 0 =
        ground (arith, count-send (starts n) (start_job k job_id is) ctx, eq_iff k n, h.no_start) in
      elim (Bool-cases (env.run_job node job_id is)) [
        | inl runs ↦ rw (runs, run_node) (record { no_pending = pending; no_start = start })
        | inr ends ↦ rw (ends, run_node) (record { no_pending = pending; no_start = start })
      ]

  module _ (keyed : IsKeyed flow.nodes) where
    run_next-NotStarted :
        (k : String) (node : Node N) (ctx : Context N F)
        → Map.get k flow.nodes ≡ some node
        → NotStarted n ctx
        → NotStarted n (run_next env node k (queue_at ctx.node_queue_pool k) ctx)
    unfolding run_next
    run_next-NotStarted k node ctx here h = go (queue_at ctx.node_queue_pool k).pending refl
      where
        go :
            (ps : StringSet)
            → (queue_at ctx.node_queue_pool k).pending ≡ ps
            → NotStarted n (run_next env node k (queue_at ctx.node_queue_pool k) ctx)
        go [] e = rw (e, run_next) h
        go (p ∷ ps) e =
            let q = queue_at ctx.node_queue_pool k in
            let q' = remove_pending env p q in
            let pool = Map.insert k q' ctx.node_queue_pool in
            let other : k ≢ n = λ same. ground (arith, h.no_pending) in
            let pending : (queue_at pool n).pending ≡ [] =
              ground (arith, get-insert k n q' ctx.node_queue_pool, eq_iff k n, h.no_pending) in
            elim (Bool-cases (ltb (length q.jobs) (as_usize (concurrency node)))) [
              | inl free ↦
                  rw (e, run_next, free)
                    (run_node-NotStarted node (record ctx { node_queue_pool = pool })
                      (λ same. other (sym (keyed k node here) ∙ same))
                      (record { no_pending = pending; no_start = h.no_start }))
              | inr full ↦ rw (e, run_next, full) h
            ]

    release_job-NotStarted :
        (k j : String) (ctx : Context N F)
        → NotStarted n ctx
        → NotStarted n (release_job env k j ctx)
    unfolding release_job remove_job
    release_job-NotStarted k j ctx h = record {
      no_pending = ground (
        arith,
        get-entry k n empty_queue (remove_job env j) ctx.node_queue_pool,
        eq_iff k n,
        h.no_pending,
      );
      no_start = h.no_start;
    }

    run_pending_node-NotStarted :
        (j : String) (ctx : Context N F)
        → NotStarted n ctx
        → NotStarted n (run_pending_node env flow j ctx)
    run_pending_node-NotStarted j ctx h =
        run_pending_cases env flow (NotStarted n) j ctx h
          (λ k here. release_job-NotStarted k j ctx h)
          (λ k node here known.
            run_next-NotStarted k node (release_job env k j ctx) known
              (release_job-NotStarted k j ctx h))

    run_or_wait-NotStarted :
        (k : String) (node : Node N) (last : ℕ) (ctx : Context N F)
        → k ≢ n
        → Map.get k flow.nodes ≡ some node
        → NotStarted n ctx
        → NotStarted n (run_or_wait env flow node k last ctx)
    unfolding same_queue add_pending
    run_or_wait-NotStarted k node last ctx other here h =
        let pool = Map.entry k empty_queue (same_queue env flow) ctx.node_queue_pool in
        let waiting : NotStarted n (with_queue env flow (NotStarted n) k ctx) = record {
          no_pending = ground (
            arith,
            get-entry k n empty_queue (same_queue env flow) ctx.node_queue_pool,
            eq_iff k n,
            h.no_pending,
          );
          no_start = h.no_start;
        } in
        run_or_wait_cases env flow (NotStarted n) node k last ctx
          (λ free.
            run_node-NotStarted node (record ctx { node_queue_pool = pool })
              (λ same. other (sym (keyed k node here) ∙ same)) waiting)
          (λ full more. record {
            no_pending = ground (
              arith,
              get-insert k n (add_pending env flow (env.random ctx.drawn) (queue_at pool k)) pool,
              eq_iff k n,
              waiting.no_pending,
            );
            no_start = h.no_start;
          })
          waiting

    deliver-NotStarted :
        (v : OutputValue N) (k h : String) (ctx : Context N F)
        → k ≢ n
        → NotStarted n ctx
        → NotStarted n (deliver env flow v true k h ctx)
    deliver-NotStarted v k h ctx other w =
        deliver_cases env flow (NotStarted n) v k h ctx
          (record { no_pending = w.no_pending; no_start = w.no_start })
          (λ node last here ready.
            run_or_wait-NotStarted k node last _ other here
              (record { no_pending = w.no_pending; no_start = w.no_start }))

    module _ (limit : StringSet) (outside : StringSet.contains n limit ≡ false) where
      pub rounds-NotStarted :
          KeepsRounds env flow (some limit) Anything (NotStarted n) (NotStarted n)
      unfolding flow_success fail on_error
      rounds-NotStarted = record {
        base = record {
          plain = λ m ctx p h. send-NotStarted n m ctx (starts_plain n m p) h;
          moved = λ p ctx h. record { no_pending = h.no_pending; no_start = h.no_start };
          cached = λ k i v ctx h. record { no_pending = h.no_pending; no_start = h.no_start };
          delivered =
              λ v k i ctx a h. deliver-NotStarted v k i ctx (λ same. ground (arith, a, outside)) h;
        };
        pending = run_pending_node-NotStarted;
        requested = λ b p r ctx e h. record { no_pending = h.no_pending; no_start = h.no_start };
        removed = λ j r ctx a h. record { no_pending = h.no_pending; no_start = h.no_start };
        succeeded = λ ctx e h. send-NotStarted n save_cache _ refl (
            send-NotStarted n (parent_finish none) _ refl
              (send-NotStarted n (report_done none) ctx refl h));
        failed = λ j e r ctx a h. send-NotStarted n (parent_finish (some _)) _ refl (
            send-NotStarted n (report_done (some _)) (record ctx { jobs = [] }) refl
              (record { no_pending = h.no_pending; no_start = h.no_start }));
        errored = λ e ctx a h.
            let saved = send-NotStarted n save_cache ctx refl h in
            send-NotStarted n (parent_error e) (record (send save_cache ctx) { jobs = [] }) refl
              (record { no_pending = saved.no_pending; no_start = saved.no_start });
      }

      -- Let the nodes of a flow stand under their own ids, and let its run be limited to a list of
      -- nodes. A node outside the list that has started no job and has none waiting when the loop
      -- begins has started none and has none waiting after any statuses.
      pub run-NotStarted :
          (ss : List (Status N F)) (ctx : Context N F)
          → NotStarted n ctx
          → OnLoop (NotStarted n) (NotStarted n) (run env flow (some limit) ss (running ctx))
      run-NotStarted ss ctx h =
          keeps-run env flow (some limit) rounds-NotStarted ss (running ctx) (All-Anything ss) h
