-- ===== src/Scheduler/Processes.antt =====
-- mainframe/src/scheduler.rs: the processes of the executors in every reachable world.
use oocana_rust.Base.{
  String, true, false, List, [], ◌∷◌, ◌++◌, ◌≡◌, ◌≢◌, arith, eq_iff, ◌==◌, All, All-append,
  All-split, All-imp, ==_sym, ==_refl,
}
use mathlib.Core.List.{append-nil, append_assoc}
use oocana_rust.Base.Map
use oocana_rust.Base.Map.{Map}
use oocana_rust.Scheduler.{
  ExecutorSpawnState, not_spawned, spawned, timed_out, finished, ExecutorState, Session,
  SchedulerCommand,
}
use oocana_rust.Scheduler.Executor.{state_at}
use oocana_rust.Scheduler.Events.{mark_ready}
use oocana_rust.Scheduler.Loop.{Loop, running, stopped, handle}
use oocana_rust.Scheduler.Kept.{handle-On}
use oocana_rust.Scheduler.Rules.{Anyone, command_of_Anyone, IsKept, IsFresh, expire}
use oocana_rust.Scheduler.Quiet.{OnLoop}
use oocana_rust.Scheduler.World.{
  Process, World, Step, post, take, exit, spawn_timeout, listener_wait, Reach, here, next, start,
  after_handle, cleared, processes_of, forget_process,
}
use oocana_rust.Scheduler.Entries.{
  state_at-insert, state_at-expire, state_at-mark_ready, state_at-forget_process, contains-insert,
  contains-modify, contains-mark_ready, contains-forget_process,
}

-- The process has an entry in the map.
abbrev pub IsNoted : Map ExecutorState → Process → Type 0
IsNoted m p = Map.contains_key p.map_name m ≡ true

-- The process is another executor's than that of the name.
abbrev pub IsOther : String → Process → Type 0
IsOther name p = (name == p.map_name) ≡ false

-- No two processes have one name.
abbrev pub IsDistinct : List Process → Type 0
IsDistinct [] = Unit
IsDistinct (p ∷ ps) = All (IsOther p.map_name) ps × IsDistinct ps

pub record IsConsistent (m : Map ExecutorState) (ps : List Process) : Type 0 where
  pub noted : All (IsNoted m) ps
  pub distinct : IsDistinct ps
  pub unfinished : (n : String) → state_at n m ≢ finished

IsDistinct-snoc :
    (ps : List Process) (p : Process)
    → All (IsOther p.map_name) ps
    → IsDistinct ps
    → IsDistinct (ps ++ p ∷ [])
IsDistinct-snoc [] p new h = (tt, tt)
IsDistinct-snoc (q ∷ ps) p new h = (
  All-append (IsOther q.map_name) ps (p ∷ []) h.0 (rw (==_sym q.map_name p.map_name) new.0, tt),
  IsDistinct-snoc ps p new.1 h.1,
)

-- What has an entry is another than what has none.
others :
    (name : String) (m : Map ExecutorState) (ps : List Process)
    → Map.contains_key name m ≡ false
    → All (IsNoted m) ps
    → All (IsOther name) ps
others name m ps absent h =
    All-imp (IsNoted m) (IsOther name) ps
      (λ p k. ground (arith, eq_iff name p.map_name, subst_key p k)) h
  where
    subst_key : (p : Process) → IsNoted m p → name ≡ p.map_name → ⊥
    subst_key p k e = ground arith

fresh_unfinished : (st : ExecutorSpawnState) → IsFresh st → st ≢ finished
fresh_unfinished not_spawned h e = cc
fresh_unfinished spawned h e = cc
fresh_unfinished timed_out h e = absurd h
fresh_unfinished finished h e = absurd h
fresh_unfinished _ h e = absurd h

insert_unfinished :
    (name : String) (e : ExecutorState) (m : Map ExecutorState)
    → IsFresh e.spawn_state
    → ((n : String) → state_at n m ≢ finished)
    → (n : String) → state_at n (Map.insert name e m) ≢ finished
insert_unfinished name e m fresh h n f =
    ground (arith, state_at-insert name m n e, h n, fresh_unfinished e.spawn_state fresh)

insert-IsNoted :
    (name : String) (e : ExecutorState) (m : Map ExecutorState) (ps : List Process)
    → All (IsNoted m) ps
    → All (IsNoted (Map.insert name e m)) ps
insert-IsNoted name e m ps h =
    All-imp (IsNoted m) (IsNoted (Map.insert name e m)) ps
      (λ p k. contains-insert name m p.map_name e k) h

pub IsConsistent-IsKept : (ps : List Process) → IsKept Anyone (λ m qs. IsConsistent m (ps ++ qs))
IsConsistent-IsKept ps = record {
  drop = λ name m qs e h. absurd (h.unfinished name e);
  put = λ name e m qs absent fresh h. record {
    noted = insert-IsNoted name e m (ps ++ qs) h.noted;
    distinct = h.distinct;
    unfinished = insert_unfinished name e m fresh h.unfinished;
  };
  start = λ p e m qs absent fresh h. rw (← append_assoc ps qs (p ∷ [])) (record {
    noted =
        All-append (IsNoted (Map.insert p.map_name e m)) (ps ++ qs) (p ∷ [])
          (insert-IsNoted p.map_name e m (ps ++ qs) h.noted)
          (ground (arith, Map.get-insert p.map_name p.map_name e m, ==_refl p.map_name), tt);
    distinct =
        IsDistinct-snoc (ps ++ qs) p (others p.map_name m (ps ++ qs) absent h.noted) h.distinct;
    unfinished = insert_unfinished p.map_name e m fresh h.unfinished;
  });
  time_out = λ name m qs e h. record {
    noted =
        All-imp (IsNoted m) (IsNoted (Map.modify name expire m)) (ps ++ qs)
          (λ p k. contains-modify name m p.map_name expire k) h.noted;
    distinct = h.distinct;
    unfinished = λ n f. ground (arith, state_at-expire name m n e, h.unfinished n);
  };
  wake = λ name m qs w e h. record {
    noted =
        All-imp (IsNoted m) (IsNoted (mark_ready name m)) (ps ++ qs)
          (λ p k. contains-mark_ready name m p.map_name k) h.noted;
    distinct = h.distinct;
    unfinished = λ n f. ground (arith, state_at-mark_ready name m n, h.unfinished n);
  };
}

take_out :
    (before : List Process) (p : Process) (after : List Process)
    → IsDistinct (before ++ p ∷ after)
    → All (IsOther p.map_name) (before ++ after) × IsDistinct (before ++ after)
take_out [] p after h = (h.0, h.1)
take_out (q ∷ before) p after h =
    let (new, rest) = take_out before p after h.1 in
    let (first, others_after) = All-split (IsOther q.map_name) before (p ∷ after) h.0 in
    (
      (rw (==_sym p.map_name q.map_name) others_after.0, new),
      (All-append (IsOther q.map_name) before after first others_after.1, rest),
    )

forget-IsNoted :
    (name : String) (m : Map ExecutorState) (ps : List Process)
    → All (IsOther name) ps
    → All (IsNoted m) ps
    → All (IsNoted (forget_process name m)) ps
forget-IsNoted name m [] other h = tt
forget-IsNoted name m (p ∷ ps) other h =
    (contains-forget_process name m p.map_name other.0 h.0, forget-IsNoted name m ps other.1 h.1)

exit-IsConsistent :
    (m : Map ExecutorState) (before : List Process) (p : Process) (after : List Process)
    → IsConsistent m (before ++ p ∷ after)
    → IsConsistent (forget_process p.map_name m) (before ++ after)
exit-IsConsistent m before p after h =
    let (other, distinct) = take_out before p after h.distinct in
    let (first, rest) = All-split (IsNoted m) before (p ∷ after) h.noted in
    record {
      noted =
          forget-IsNoted p.map_name m (before ++ after) other
            (All-append (IsNoted m) before after first rest.1);
      distinct = distinct;
      unfinished = λ n f. ground (arith, state_at-forget_process p.map_name m n, h.unfinished n);
    }

abbrev pub WorldIsConsistent : {N F : Type 0} → World N F → Type 0
WorldIsConsistent w = IsConsistent w.state.executor_map w.processes

after_handle-IsConsistent :
    {N F : Type 0} (w : World N F) (rest : List (SchedulerCommand N F)) (l : Loop N F)
    → OnLoop (λ m qs. IsConsistent m (w.processes ++ qs)) l
    → WorldIsConsistent (after_handle w rest l)
unfolding after_handle
after_handle-IsConsistent w rest (running s) h = h
after_handle-IsConsistent w rest (stopped s) h = h

module _ {N F : Type 0} (session : Session) where
  Step-IsConsistent :
      {w v : World N F} → Step session w v → WorldIsConsistent w → WorldIsConsistent v
  unfolding processes_of
  Step-IsConsistent (post c outside) h = h
  Step-IsConsistent {w} (take out c rest goes_on e) h =
      after_handle-IsConsistent w rest (handle session out c (cleared w.state)) (
        handle-On Anyone (λ m qs. IsConsistent m (w.processes ++ qs))
          (IsConsistent-IsKept w.processes) session out c (cleared w.state) (command_of_Anyone c)
          (rw (append-nil w.processes) h))
  Step-IsConsistent {w} (exit before p after status e) h =
      exit-IsConsistent w.state.executor_map before p after (rw (← e) h)
  Step-IsConsistent (spawn_timeout before t after e) h = h
  Step-IsConsistent (listener_wait before j after e) h = h

  -- In every world that can be reached from the start, whatever the jobs, the executors and the
  -- timers do and in whatever order: no two processes run for the same executor, every process that
  -- runs is known in the map of executors, and no executor is marked as finished.
  pub one_process_each : {w : World N F} → Reach session start w → WorldIsConsistent w
  unfolding state_at Map.get
  one_process_each here = record { noted = tt; distinct = tt; unfinished = λ n e. cc }
  one_process_each (next r st) = Step-IsConsistent st (one_process_each r)
