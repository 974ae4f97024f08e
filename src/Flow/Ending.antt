-- ===== src/Flow/Ending.antt =====
-- runtime/src/flow_job/flow.rs: a flow tells its parent once that it has ended.
use oocana_rust.Base.{
  ℕ, String, true, false, Option, none, some, List, [], ◌∷◌, ◌≡◌, refl, arith, ltb, length,
  Bool-cases, inl, inr,
}
use oocana_rust.Base.Map
use oocana_rust.Base.StringSet.{StringSet}
use oocana_rust.Node.{Node, node_id, as_usize, concurrency}
use oocana_rust.InputValues.Take.{take}
use oocana_rust.Subflow.{SubflowBlock}
use oocana_rust.Flow.{
  Env, Context, Message, start_job, save_cache, report_done, parent_finish, parent_error, Status,
  send,
}
use oocana_rust.Flow.Run.{run_node, run_next, remove_pending, release_job}
use oocana_rust.Flow.Events.{running, flow_success, fail, on_error, node_message}
use oocana_rust.Flow.Cases.{queue_at, run_or_wait_cases, deliver_cases, run_pending_cases}
use oocana_rust.Flow.Rounds.{KeepsRounds, OnLoop, Anything, All-Anything, run, keeps-run}
use oocana_rust.Flow.Sent.{count, count-send, ends, ends_plain}

module _ {N F : Type 0} where
  -- The parent has been told so often that the flow has ended.
  abbrev pub HasEnded : ℕ → Context N F → Type 0
  HasEnded k ctx = count ends ctx.sent ≡ k

  send-HasEnded :
      (k : ℕ) (m : Message N F) (ctx : Context N F)
      → ends m ≡ false
      → HasEnded k ctx
      → HasEnded k (send m ctx)
  send-HasEnded k m ctx other h = ground (arith, count-send ends m ctx)

  end-HasEnded :
      (m : Message N F) (ctx : Context N F)
      → ends m ≡ true
      → HasEnded 0 ctx
      → HasEnded 1 (send m ctx)
  end-HasEnded m ctx last h = ground (arith, count-send ends m ctx)

module _ {N F : Type 0} (env : Env N F) (flow : SubflowBlock N) where
  pub run_node-HasEnded :
      (node : Node N) (ctx : Context N F) → HasEnded 0 ctx → HasEnded 0 (run_node env node ctx)
  unfolding run_node
  run_node-HasEnded node ctx h =
      let job_id = env.random ctx.drawn in
      let (is, values) = take node ctx.node_input_values in
      let sent = send-HasEnded 0 (start_job (node_id node) job_id is) ctx refl h in
      elim (Bool-cases (env.run_job node job_id is)) [
        | inl runs ↦ rw (runs, run_node) sent
        | inr done ↦ rw (done, run_node) sent
      ]

  run_next-HasEnded :
      (n : String) (node : Node N) (ctx : Context N F)
      → HasEnded 0 ctx
      → HasEnded 0 (run_next env node n (queue_at ctx.node_queue_pool n) ctx)
  unfolding run_next
  run_next-HasEnded n node ctx h = go (queue_at ctx.node_queue_pool n).pending refl
    where
      go :
          (ps : StringSet)
          → (queue_at ctx.node_queue_pool n).pending ≡ ps
          → HasEnded 0 (run_next env node n (queue_at ctx.node_queue_pool n) ctx)
      go [] e = rw (e, run_next) h
      go (p ∷ ps) e =
          let q = queue_at ctx.node_queue_pool n in
          let pool = Map.insert n (remove_pending env p q) ctx.node_queue_pool in
          elim (Bool-cases (ltb (length q.jobs) (as_usize (concurrency node)))) [
            | inl free ↦
                rw (e, run_next, free)
                  (run_node-HasEnded node (record ctx { node_queue_pool = pool }) h)
            | inr full ↦ rw (e, run_next, full) h
          ]

  pub rounds-HasEnded :
      (limit : Option StringSet) → KeepsRounds env flow limit Anything (HasEnded 0) (HasEnded 1)
  unfolding flow_success fail on_error release_job
  rounds-HasEnded limit = record {
    base = record {
      plain = λ m ctx p h. send-HasEnded 0 m ctx (ends_plain m p) h;
      moved = λ p ctx h. h;
      cached = λ n i v ctx h. h;
      delivered = λ v n i ctx a h.
          deliver_cases env flow (HasEnded 0) v n i ctx h (λ node last here ready.
            run_or_wait_cases env flow (HasEnded 0) node n last _
              (λ free. run_node-HasEnded node _ h) (λ full more. h) h);
    };
    pending = λ j ctx h.
        run_pending_cases env flow (HasEnded 0) j ctx h (λ n here. h)
          (λ n node here known. run_next-HasEnded n node (release_job env n j ctx) h);
    requested = λ b p r ctx e h. h;
    removed = λ j r ctx a h. h;
    succeeded = λ ctx e h.
        send-HasEnded 1 save_cache (send (parent_finish none) (send (report_done none) ctx)) refl (
          end-HasEnded (parent_finish none) (send (report_done none) ctx) refl
            (send-HasEnded 0 (report_done none) ctx refl h));
    failed = λ j e r ctx a h.
        end-HasEnded (parent_finish (some _))
          (send (report_done (some (node_message env flow limit j ctx))) (record ctx { jobs = [] }))
          refl
          (send-HasEnded 0 (report_done (some (node_message env flow limit j ctx)))
            (record ctx { jobs = [] }) refl h);
    errored = λ e ctx a h.
        end-HasEnded (parent_error e) (record (send save_cache ctx) { jobs = [] }) refl
          (send-HasEnded 0 save_cache ctx refl h);
  }

  -- A flow that has not told its parent of its end has not done so as long as its loop goes on, and
  -- has done so exactly once when the loop has ended, whatever the statuses were.
  pub ends_once :
      (limit : Option StringSet) (ss : List (Status N F)) (ctx : Context N F)
      → HasEnded 0 ctx
      → OnLoop (HasEnded 0) (HasEnded 1) (run env flow limit ss (running ctx))
  ends_once limit ss ctx h =
      keeps-run env flow limit (rounds-HasEnded limit) ss (running ctx) (All-Anything ss) h
