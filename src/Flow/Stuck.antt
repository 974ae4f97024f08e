-- ===== src/Flow/Stuck.antt =====
-- runtime/src/flow_job/flow.rs: what becomes of a node whose only place is kept by a job for which
-- `run_job` gave no handle, as for a condition block that no case matches.
use oocana_rust.Base.{
  ℕ, suc, ◌≤◌, String, true, false, Option, none, some, List, [], ◌≡◌, ◌≢◌, refl, sym, ◌∙◌, arith,
  ==_refl, eq_iff,
}
use oocana_rust.Base.Map
use oocana_rust.Base.Map.{get-entry, get-insert, get-remove}
use oocana_rust.Base.StringSet
use oocana_rust.Base.StringSet.{StringSet, contains-insert}
use oocana_rust.Json.{Json}
use oocana_rust.Node.{Node, node_id, as_usize, concurrency}
use oocana_rust.InputValues
use oocana_rust.InputValues.Take.{take}
use oocana_rust.Subflow.{SubflowBlock, IsKeyed}
use oocana_rust.Flow.{
  Env, Context, empty_queue, start_job, save_cache, report_done, parent_finish, parent_error,
  answered, Requested, Status, send,
}
use oocana_rust.Flow.Run.{run_node, add_job}
use oocana_rust.Flow.Produce.{run_or_wait, add_pending, same_queue}
use oocana_rust.Flow.Events.{running, flow_success, fail, on_error, node_message}
use oocana_rust.Flow.Cases.{queue_at, run_or_wait_cases, deliver_cases}
use oocana_rust.Flow.Rounds.{
  KeepsRounds, OnLoop, OnLoop-imp, Anything, All-Anything, run, keeps-run,
}
use oocana_rust.Flow.Sent.{count, count-send, starts, starts_plain}
use oocana_rust.Flow.LostPlace.{
  HasLost, HasStarted, contains-length, send-HasLost, run_node-HasLost, run_pending_node-HasLost,
}

module _ {N F : Type 0} (env : Env N F) (flow : SubflowBlock N) (n j : String) (c d : ℕ)
    (fresh : (k : ℕ) → d ≤ k → env.random k ≢ j) (node : Node N)
    (here : Map.get n flow.nodes ≡ some node) (single : as_usize (concurrency node) ≡ 1)
    (keyed : IsKeyed flow.nodes) where
  run_or_wait-HasLost :
      (k : String) (other : Node N) (last : ℕ) (ctx : Context N F)
      → Map.get k flow.nodes ≡ some other
      → HasLost n j c d ctx
      → HasLost n j c d (run_or_wait env flow other k last ctx)
  unfolding same_queue add_pending
  run_or_wait-HasLost k other last ctx known h =
      let pool = Map.entry k empty_queue (same_queue env flow) ctx.node_queue_pool in
      let taken : StringSet.contains j (queue_at pool n).jobs ≡ true = ground (
        arith,
        get-entry k n empty_queue (same_queue env flow) ctx.node_queue_pool,
        eq_iff k n,
        h.taken,
      ) in
      let waiting : HasLost n j c d (record ctx { node_queue_pool = pool }) = record {
        taken = taken;
        unknown = h.unknown;
        starts = h.starts;
        drawn = h.drawn;
      } in
      let q' = add_pending env flow (env.random ctx.drawn) (queue_at pool k) in
      run_or_wait_cases env flow (HasLost n j c d) other k last ctx
        (λ free.
          run_node-HasLost env flow n j c d fresh other (record ctx { node_queue_pool = pool })
            (λ same. ground (
              arith,
              contains-length j (queue_at pool n).jobs taken,
              sym (keyed k other known) ∙ same,
              here,
              known,
              single,
            ))
            waiting)
        (λ full more. record {
          taken = ground (arith, get-insert k n q' pool, eq_iff k n, taken);
          unknown = h.unknown;
          starts = h.starts;
          drawn = omega (arith, h.drawn);
        })
        waiting

  rounds-HasLost :
      (limit : Option StringSet)
      → ((block : String) (payload : Json N) (r : Requested)
          → env.run_request block payload ≡ answered r
          → r.job_id ≢ j)
      → KeepsRounds env flow limit Anything (HasLost n j c d) (HasStarted n c)
  unfolding flow_success fail on_error Map.get
  rounds-HasLost limit others = record {
    base = record {
      plain = λ m ctx p h. send-HasLost env flow n j c d m ctx (starts_plain n m p) h;
      moved = λ p ctx h. record {
        taken = h.taken;
        unknown = h.unknown;
        starts = h.starts;
        drawn = h.drawn;
      };
      cached = λ k i v ctx h. record {
        taken = h.taken;
        unknown = h.unknown;
        starts = h.starts;
        drawn = h.drawn;
      };
      delivered = λ v k i ctx a h.
          let inserted : HasLost n j c d
              (record ctx { node_input_values = InputValues.insert k i v ctx.node_input_values }) =
            record { taken = h.taken; unknown = h.unknown; starts = h.starts; drawn = h.drawn } in
          deliver_cases env flow (HasLost n j c d) v k i ctx inserted
            (λ other last known ready. run_or_wait-HasLost k other last _ known inserted);
    };
    pending = run_pending_node-HasLost env flow n j c d fresh node here single keyed;
    requested = λ b p r ctx e h. record {
      taken = h.taken;
      unknown = ground (
        arith,
        get-insert r.job_id j r.node_id ctx.jobs,
        eq_iff r.job_id j,
        others b p r e,
        h.unknown,
      );
      starts = h.starts;
      drawn = h.drawn;
    };
    removed = λ i r ctx a h. record {
      taken = h.taken;
      unknown = ground (arith, get-remove i j ctx.jobs, h.unknown);
      starts = h.starts;
      drawn = h.drawn;
    };
    succeeded = λ ctx e h.
        (send-HasLost env flow n j c d save_cache
          (send (parent_finish none) (send (report_done none) ctx)) refl
          (send-HasLost env flow n j c d (parent_finish none) (send (report_done none) ctx) refl
            (send-HasLost env flow n j c d (report_done none) ctx refl h))).starts;
    failed = λ i e r ctx a h.
        let cleared = record ctx { jobs = [] } in
        let told = send (report_done (some (node_message env flow limit i ctx))) cleared in
        (send-HasLost env flow n j c d (parent_finish (some _)) told refl (
          send-HasLost env flow n j c d (report_done (some _)) cleared refl (record {
            taken = h.taken;
            unknown = refl;
            starts = h.starts;
            drawn = h.drawn;
          }))).starts;
    errored = λ e ctx a h.
        let saved = send-HasLost env flow n j c d save_cache ctx refl h in
        (send-HasLost env flow n j c d (parent_error e) (record (send save_cache ctx) { jobs = [] })
          refl
          (record {
            taken = saved.taken;
            unknown = refl;
            starts = saved.starts;
            drawn = saved.drawn;
          })).starts;
  }

module _ {N F : Type 0} (env : Env N F) (flow : SubflowBlock N) (keyed : IsKeyed flow.nodes) where
  -- The state right after the job has been started without a handle.
  lost_start :
      (n : String) (node : Node N) (ctx : Context N F)
      → Map.get n flow.nodes ≡ some node
      → Map.get (env.random ctx.drawn) ctx.jobs ≡ none
      → env.run_job node (env.random ctx.drawn) (take node ctx.node_input_values).0 ≡ false
      → HasLost n
          (env.random ctx.drawn)
          (suc (count (starts n) ctx.sent))
          (suc ctx.drawn)
          (run_node env node ctx)
  unfolding run_node
  lost_start n node ctx here unknown ends =
      let job_id = env.random ctx.drawn in
      let (is, values) = take node ctx.node_input_values in
      let k = node_id node in
      let taken : StringSet.contains job_id
            (queue_at (Map.entry k empty_queue (add_job env job_id) ctx.node_queue_pool) n).jobs
          ≡ true =
        ground (
          arith,
          get-entry k n empty_queue (add_job env job_id) ctx.node_queue_pool,
          eq_iff k n,
          keyed n node here,
          contains-insert job_id job_id (queue_at ctx.node_queue_pool k).jobs,
          ==_refl job_id,
        ) in
      let start : count (starts n) (send (start_job k job_id is) ctx).sent
          ≡ suc (count (starts n) ctx.sent) =
        ground (
          arith,
          count-send (starts n) (start_job k job_id is) ctx,
          eq_iff k n,
          keyed n node here,
        ) in
      rw (ends, run_node)
        (record { taken = taken; unknown = unknown; starts = start; drawn = omega arith })

  -- Let the nodes of a flow stand under their own ids. When `run_job` gives no handle for a job of
  -- a node with concurrency 1, that node never starts another job, whatever the statuses from then
  -- on. The id of the job is not in use, later random ids differ from it, and so do those of
  -- requested jobs.
  pub lost_place_blocks :
      (limit : Option StringSet) (n : String) (node : Node N) (ss : List (Status N F))
      (ctx : Context N F)
      → Map.get n flow.nodes ≡ some node
      → as_usize (concurrency node) ≡ 1
      → Map.get (env.random ctx.drawn) ctx.jobs ≡ none
      → env.run_job node (env.random ctx.drawn) (take node ctx.node_input_values).0 ≡ false
      → ((k : ℕ) → suc ctx.drawn ≤ k → env.random k ≢ env.random ctx.drawn)
      → ((block : String) (payload : Json N) (r : Requested)
          → env.run_request block payload ≡ answered r
          → r.job_id ≢ env.random ctx.drawn)
      → OnLoop
          (HasStarted n (suc (count (starts n) ctx.sent)))
          (HasStarted n (suc (count (starts n) ctx.sent)))
          (run env flow limit ss (running (run_node env node ctx)))
  lost_place_blocks limit n node ss ctx here single unknown ends fresh others =
      let c = suc (count (starts n) ctx.sent) in
      let j = env.random ctx.drawn in
      let k =
        rounds-HasLost env flow n j c (suc ctx.drawn) fresh node here single keyed limit others in
      let start = running (run_node env node ctx) in
      OnLoop-imp (HasLost n j c (suc ctx.drawn)) (HasStarted n c) (HasStarted n c)
        (run env flow limit ss start) (λ s h. h.starts)
        (keeps-run env flow limit k ss start (All-Anything ss)
          (lost_start n node ctx here unknown ends))
