-- ===== src/Scheduler/Ends.antt =====
-- mainframe/src/scheduler.rs: the end of an executor ends the blocks that it runs.
use oocana_rust.Base.{
  ltb, ℕ, ◌+◌, String, Bool, false, ◌&&◌, Option, none, some, List, [], ◌∷◌, ◌++◌, ◌≡◌, refl, arith,
  eq_iff, if◌then◌else◌, ◌==◌, ==_refl, Bool-cases, Option-cases, inl, inr, is_some_and, unwrap_or,
  for_each, count_if, count_if-snoc,
}
use oocana_rust.Base.Map
use oocana_rust.Base.Map.{Map, get-remove}
use oocana_rust.Node.{Int32}
use oocana_rust.Message.{ReceiveMessage, block_finished}
use oocana_rust.Scheduler.{
  RunningBlock, Outside, Session, State, Sent, to_broker, to_subscriber, send,
}
use oocana_rust.Scheduler.Events.{
  tell, failure, finish_job, finish_jobs, runs_on, jobs_on, on_executor_exit,
}

occurs : String → List String → ℕ
unfolding count_if
occurs j = count_if (λ k. k == j)

-- The job runs on the executor, and its listener is there.
abbrev pub is_running_on : String → Option String → Map RunningBlock → String → Bool
is_running_on executor identifier m j = is_some_and (Map.get j m) (runs_on executor identifier)

abbrev pub is_listening : Outside → Map ℕ → String → Bool
is_listening out m j = is_some_and (Map.get j m) out.has_receiver

occurs-jobs_on :
    (executor : String) (identifier : Option String) (m : Map RunningBlock)
    → Map.IsDistinct m
    → (j : String)
    → occurs j (jobs_on executor identifier m)
      ≡ (if is_running_on executor identifier m j then 1 else 0)
unfolding occurs jobs_on Map.get
occurs-jobs_on executor identifier [] d j = refl
occurs-jobs_on executor identifier ((k, b) ∷ m) d j =
    ground (arith, eq_iff k j, occurs-jobs_on executor identifier m d.1 j)

module _ {N F : Type 0} (session : Session) (out : Outside) (e : String) where
  -- The broker is told that the job has failed for this reason, and the listener of the job is.
  abbrev pub tells_broker : String → Sent N F → Bool
  tells_broker j (to_broker (block_finished i k none (some x))) =
      i == session.id && k == j && x == e
  tells_broker j _ = false

  abbrev pub tells_listener : String → Sent N F → Bool
  tells_listener j (to_subscriber y (block_finished i k none (some x))) =
      i == session.id && k == j && x == e
  tells_listener j _ = false

  -- Of one job.
  ends_one :
      (k j : String) (s : State N F)
      → let t = finish_job session out e k s in
        (t.subscribers ≡ s.subscribers)
        × (t.executor_map ≡ s.executor_map)
        × (Map.get j t.running_blocks ≡ (if k == j then none else Map.get j s.running_blocks))
        × (count_if (tells_broker j) t.sent
            ≡ count_if (tells_broker j) s.sent + (if k == j then 1 else 0))
        × (count_if (tells_listener j) t.sent
            ≡ count_if (tells_listener j) s.sent
              + (if k == j && is_listening out s.subscribers j then 1 else 0))
  unfolding finish_job tell send
  ends_one k j s =
      let f : ReceiveMessage N F = failure session out e k in
      elim (Option-cases (Map.get k s.subscribers)) [
        | inl p ↦ rw p (
            ground (
              arith,
              eq_iff k j,
              ==_refl session.id,
              ==_refl e,
              get-remove k j s.running_blocks,
              count_if-snoc (tells_broker j) s.sent (to_broker f),
              count_if-snoc (tells_listener j) s.sent (to_broker f),
            ))
        | inr (x, p) ↦ rw p (
            ground (
              arith,
              eq_iff k j,
              ==_refl session.id,
              ==_refl e,
              get-remove k j s.running_blocks,
              count_if-snoc (tells_broker j) s.sent (to_broker f),
              count_if-snoc (tells_listener j) s.sent (to_broker f),
              count_if-snoc (tells_broker j) (s.sent ++ to_broker f ∷ []) (to_subscriber x f),
              count_if-snoc (tells_listener j) (s.sent ++ to_broker f ∷ []) (to_subscriber x f),
            ))
      ]

  -- Of a list of jobs.
  ends_each :
      (ks : List String) (j : String) (s : State N F)
      → let t = for_each (finish_job session out e) ks s in
        (t.subscribers ≡ s.subscribers)
        × (t.executor_map ≡ s.executor_map)
        × (Map.get j t.running_blocks
            ≡ (if ltb 0 (occurs j ks) then none else Map.get j s.running_blocks))
        × (count_if (tells_broker j) t.sent ≡ count_if (tells_broker j) s.sent + occurs j ks)
        × (count_if (tells_listener j) t.sent
            ≡ count_if (tells_listener j) s.sent
              + (if is_listening out s.subscribers j then occurs j ks else 0))
  unfolding occurs for_each count_if
  ends_each [] j s = ground arith
  ends_each (k ∷ ks) j s =
      ground (arith, ends_one k j s, ends_each ks j (finish_job session out e k s))

  -- The job is ended: it does not run any more, the broker has been told so once, and so has its
  -- listener, if it has one.
  abbrev pub EndsJob : String → State N F → State N F → Type 0
  EndsJob j s t =
      (Map.get j t.running_blocks ≡ none)
      × (count_if (tells_broker j) t.sent ≡ count_if (tells_broker j) s.sent + 1)
      × (count_if (tells_listener j) t.sent
          ≡ count_if (tells_listener j) s.sent
            + (if is_listening out s.subscribers j then 1 else 0))

  abbrev pub SparesJob : String → State N F → State N F → Type 0
  SparesJob j s t =
      (Map.get j t.running_blocks ≡ Map.get j s.running_blocks)
      × (count_if (tells_broker j) t.sent ≡ count_if (tells_broker j) s.sent)
      × (count_if (tells_listener j) t.sent ≡ count_if (tells_listener j) s.sent)

  finish_jobs_lem :
      (executor : String) (identifier : Option String) (s : State N F)
      → Map.IsDistinct s.running_blocks
      → (j : String)
      → let t = finish_jobs session out e executor identifier s in
        (t.subscribers ≡ s.subscribers)
        × (t.executor_map ≡ s.executor_map)
        × (if is_running_on executor identifier s.running_blocks j
            then EndsJob j s t
            else SparesJob j s t)
  unfolding finish_jobs
  finish_jobs_lem executor identifier s d j =
      let n = occurs-jobs_on executor identifier s.running_blocks d j in
      let each = ends_each (jobs_on executor identifier s.running_blocks) j s in
      elim (Bool-cases (is_running_on executor identifier s.running_blocks j)) [
        | inl r ↦ rw r (ground arith)
        | inr r ↦ rw r (ground arith)
      ]

module _ {N F : Type 0} (session : Session) (out : Outside) where
  -- The end of an executor, in a state whose running blocks have distinct jobs: every job that runs
  -- on it is ended with the reason that is given, or the code. All other jobs run on and nothing is
  -- said of them; the listeners and the map of executors stay as they are.
  pub exit_ends_jobs :
      (executor : String) (identifier : Option String) (code : Int32) (reason : Option String)
      → (s : State N F) → Map.IsDistinct s.running_blocks
      → (j : String)
      → let t = on_executor_exit session out executor identifier code reason s in
        let e = unwrap_or reason (session.exit_text executor code) in
        (t.subscribers ≡ s.subscribers)
        × (t.executor_map ≡ s.executor_map)
        × (if is_running_on executor identifier s.running_blocks j
            then EndsJob session out e j s t
            else SparesJob session out e j s t)
  unfolding on_executor_exit
  exit_ends_jobs executor identifier code reason s d j =
      finish_jobs_lem session out (unwrap_or reason (session.exit_text executor code)) executor
        identifier s d j
