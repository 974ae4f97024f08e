-- ===== src/Flow/Leftover.antt =====
-- runtime/src/flow_job/flow.rs: a job that a block asked for and that fails stays among the jobs.
use oocana_rust.Base.{
  ℕ, String, true, Option, none, some, List, [], ◌∷◌, ◌≡◌, ◌≢◌, refl, arith, eq_iff, All, ltb,
  length, is_empty, for_each, Bool-cases, inl, inr,
}
use text.Mathlib.Text.{starts_with}
use oocana_rust.Base.Map
use oocana_rust.Base.Map.{contains_key, get-insert, get-remove}
use oocana_rust.Base.StringSet.{StringSet}
use oocana_rust.Node.{Node, node_id, as_usize, concurrency}
use oocana_rust.InputValues.{InputValues}
use oocana_rust.InputValues.Take.{take}
use oocana_rust.Subflow.{SubflowBlock}
use oocana_rust.Flow.{
  Env, Context, Status, save_cache, output, outputs, progress, request, done, error, send,
}
use oocana_rust.Flow.Run.{run_node, run_next, remove_pending, release_job, run_pending_node}
use oocana_rust.Flow.Events.{running, step, on_status, on_done, after_done, is_context_run_block}
use oocana_rust.Flow.Cases.{queue_at, run_or_wait_cases, deliver_cases, run_pending_cases}
use oocana_rust.Flow.Rules.{Keeps, keeps-finish_node}
use oocana_rust.Flow.Rounds.{KeepsRounds, OnLoop, run, keeps-run}

module _ {N F : Type 0} (j : String) where
  abbrev pub IsLeft : Context N F → Type 0
  IsLeft ctx = contains_key j ctx.jobs ≡ true

  -- The status neither ends the flow with an error nor tells that job `j` succeeded.
  abbrev pub LeavesJob : Status N F → Type 0
  LeavesJob (output i v h o) = Unit
  LeavesJob (outputs i v) = Unit
  LeavesJob (progress i p) = Unit
  LeavesJob (request r) = Unit
  LeavesJob (done i r none) = i ≢ j
  LeavesJob (done i r (some e)) = ⊥
  LeavesJob (error e) = ⊥

-- A property of the jobs that starting a job keeps.
module _ {N F : Type 0} (env : Env N F) (flow : SubflowBlock N) (limit : Option StringSet)
    (R : Map.Map String → Type 0)
    (grows : (k : ℕ) (n : String) (jobs : Map.Map String)
      → R jobs
      → R (Map.insert (env.random k) n jobs)) where
  run_node-jobs : (node : Node N) (ctx : Context N F) → R ctx.jobs → R (run_node env node ctx).jobs
  unfolding run_node
  run_node-jobs node ctx h =
      let job_id = env.random ctx.drawn in
      let (is, values) = take node ctx.node_input_values in
      elim (Bool-cases (env.run_job node job_id is)) [
        | inl runs ↦ rw (runs, run_node) (grows ctx.drawn (node_id node) ctx.jobs h)
        | inr ends ↦ rw (ends, run_node) h
      ]

  run_next-jobs :
      (n : String) (node : Node N) (ctx : Context N F)
      → R ctx.jobs
      → R (run_next env node n (queue_at ctx.node_queue_pool n) ctx).jobs
  unfolding run_next
  run_next-jobs n node ctx h = go (queue_at ctx.node_queue_pool n).pending refl
    where
      go :
          (ps : StringSet)
          → (queue_at ctx.node_queue_pool n).pending ≡ ps
          → R (run_next env node n (queue_at ctx.node_queue_pool n) ctx).jobs
      go [] e = rw (e, run_next) h
      go (p ∷ ps) e =
          let q = queue_at ctx.node_queue_pool n in
          let pool = Map.insert n (remove_pending env p q) ctx.node_queue_pool in
          elim (Bool-cases (ltb (length q.jobs) (as_usize (concurrency node)))) [
            | inl free ↦
                rw (e, run_next, free)
                  (run_node-jobs node (record ctx { node_queue_pool = pool }) h)
            | inr full ↦ rw (e, run_next, full) h
          ]

  keeps-jobs : Keeps env flow limit (λ ctx. R ctx.jobs)
  unfolding send
  keeps-jobs = record {
    plain = λ m ctx p h. h;
    moved = λ p ctx h. h;
    cached = λ n i v ctx h. h;
    delivered = λ v n i ctx a h.
        deliver_cases env flow (λ c. R c.jobs) v n i ctx h
          (λ node last here ready.
            run_or_wait_cases env flow (λ c. R c.jobs) node n last _
              (λ free. run_node-jobs node _ h) (λ full more. h) h);
  }

  run_pending_node-jobs :
      (j : String) (ctx : Context N F) → R ctx.jobs → R (run_pending_node env flow j ctx).jobs
  unfolding release_job
  run_pending_node-jobs j ctx h =
      run_pending_cases env flow (λ c. R c.jobs) j ctx h (λ n here. h)
        (λ n node here known. run_next-jobs n node (release_job env n j ctx) h)

module _ {N F : Type 0} (env : Env N F) (flow : SubflowBlock N) (limit : Option StringSet)
    (j : String) where
  insert-IsLeft :
      (k n : String) (jobs : Map.Map String)
      → contains_key j jobs ≡ true
      → contains_key j (Map.insert k n jobs) ≡ true
  insert-IsLeft k n jobs h = ground (arith, get-insert k j n jobs)

  grows-IsLeft :
      (k : ℕ) (n : String) (jobs : Map.Map String)
      → contains_key j jobs ≡ true
      → contains_key j (Map.insert (env.random k) n jobs) ≡ true
  grows-IsLeft k n jobs h = insert-IsLeft (env.random k) n jobs h

  nonempty_jobs : (jobs : Map.Map String) → is_empty jobs ≡ true → contains_key j jobs ≡ true → ⊥
  unfolding Map.get
  nonempty_jobs [] e h = cc
  nonempty_jobs (x ∷ jobs) e h = cc

  rounds-IsLeft : KeepsRounds env flow limit (LeavesJob j) (IsLeft j) (λ ctx. ⊥)
  rounds-IsLeft = record {
    base = keeps-jobs env flow limit (λ jobs. contains_key j jobs ≡ true) grows-IsLeft;
    pending = λ i ctx h.
        run_pending_node-jobs env flow limit (λ jobs. contains_key j jobs ≡ true) grows-IsLeft i ctx
          h;
    requested = λ b p r ctx e h. insert-IsLeft r.job_id r.node_id ctx.jobs h;
    removed = λ i r ctx a h. ground (arith, get-remove i j ctx.jobs, eq_iff i j);
    succeeded = λ ctx e h. nonempty_jobs ctx.jobs e h;
    failed = λ i e r ctx a h. a;
    errored = λ e ctx a h. a;
  }

  mild_error :
      (n e : String) (ctx : Context N F)
      → Map.get j ctx.jobs ≡ some n
      → starts_with n "run_block::" ≡ true
      → OnLoop (IsLeft j) (λ c. ⊥) (after_done env flow limit j (some e) ctx)
  unfolding after_done is_context_run_block send
  mild_error n e ctx here asked =
      let mild : is_context_run_block env flow limit j (send save_cache ctx) ≡ true =
        ground (arith, here, asked) in
      let kept : contains_key j ctx.jobs ≡ true = ground (arith, here) in rw (mild, after_done) kept

  -- The round in which the job fails.
  failed_round :
      (n e : String) (result : Option (InputValues N)) (ctx : Context N F)
      → ((k : ℕ) → env.random k ≢ j)
      → Map.get j ctx.jobs ≡ some n
      → starts_with n "run_block::" ≡ true
      → OnLoop (IsLeft j) (λ c. ⊥) (step env flow limit (done j result (some e)) (running ctx))
  unfolding step on_status on_done
  failed_round n e result ctx fresh here asked =
      let R : Map.Map String → Type 0 = λ jobs. Map.get j jobs ≡ some n in
      let grows : (k : ℕ) (m : String) (jobs : Map.Map String)
          → R jobs
          → R (Map.insert (env.random k) m jobs) =
        λ k m jobs h.
          ground (arith, get-insert (env.random k) j m jobs, eq_iff (env.random k) j, fresh k) in
      let pended = run_pending_node-jobs env flow limit R grows j ctx here in
      let finished =
        keeps-finish_node env flow limit (keeps-jobs env flow limit R grows) j result (some e)
          (run_pending_node env flow j ctx) pended in
      mild_error n e _ finished asked

  -- A job that a block asked for and that ends with an error stays among the jobs of the flow, and
  -- the loop goes on, as long as the later statuses are no error of any job or of the flow and none
  -- says that this job succeeded. New random ids differ from that of the job.
  pub failed_request_stays :
      (n e : String) (result : Option (InputValues N)) (ss : List (Status N F)) (ctx : Context N F)
      → ((k : ℕ) → env.random k ≢ j)
      → Map.get j ctx.jobs ≡ some n
      → starts_with n "run_block::" ≡ true
      → All (LeavesJob j) ss
      → OnLoop (IsLeft j) (λ c. ⊥) (run env flow limit (done j result (some e) ∷ ss) (running ctx))
  unfolding run for_each
  failed_request_stays n e result ss ctx fresh here asked leaves =
      keeps-run env flow limit rounds-IsLeft ss
        (step env flow limit (done j result (some e)) (running ctx)) leaves
        (failed_round n e result ctx fresh here asked)
