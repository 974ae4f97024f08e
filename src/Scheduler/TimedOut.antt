-- ===== src/Scheduler/TimedOut.antt =====
-- mainframe/src/scheduler.rs: an executor that was not ready in time.
use oocana_rust.Base.{String, true, false, List, ◌≡◌, refl, arith, eq_iff}
use oocana_rust.Base.Map
use oocana_rust.Base.Map.{Map}
use oocana_rust.Scope.{RuntimeScope}
use oocana_rust.Scheduler.{
  timed_out, ExecutorState, Outside, Session, State, SchedulerCommand, execute_block,
  execute_service_block, queue, failed,
}
use oocana_rust.Scheduler.Executor.{
  state_at, map_name, query_executor_state, after_finish, check_state,
}
use oocana_rust.Scheduler.Blocks.{
  lost_executor, note_running, after_query, on_execute_block, on_execute_service_block,
}
use oocana_rust.Scheduler.Events.{is_spawned, is_late}
use oocana_rust.Scheduler.Loop.{Loop, running, stopped, handle}
use oocana_rust.Scheduler.Kept.{handle-On}
use oocana_rust.Scheduler.Rules.{Anyone, command_of_Anyone, IsKept}
use oocana_rust.Scheduler.Quiet.{OnLoop}
use oocana_rust.Scheduler.World.{
  World, Step, post, take, exit, spawn_timeout, listener_wait, Reach, here, next, after_handle,
  cleared,
}
use oocana_rust.Scheduler.Entries.{
  state_at-insert, state_at-remove, state_at-expire, state_at-mark_ready, state_at-forget_process,
}

abbrev pub HasTimedOut : String → Map ExecutorState → Type 0
HasTimedOut n m = state_at n m ≡ timed_out

late_of_timed_out :
    (n : String) (m : Map ExecutorState) → HasTimedOut n m → is_late (Map.get n m) ≡ true
unfolding state_at
late_of_timed_out n m h = ground arith

present : (n : String) (m : Map ExecutorState) → HasTimedOut n m → Map.contains_key n m ≡ true
unfolding state_at
present n m h = ground arith

unspawned :
    (n : String) (m : Map ExecutorState) → HasTimedOut n m → is_spawned (Map.get n m) ≡ false
unfolding state_at
unspawned n m h = ground arith

-- A change under the name of another executor, or one that needs a state which `n` is not in.
HasTimedOut-IsKept : (n : String) → IsKept Anyone (λ m ps. HasTimedOut n m)
HasTimedOut-IsKept n = record {
  drop = λ name m ps e h. ground (arith, eq_iff name n, state_at-remove name m n);
  put = λ name e m ps absent fresh h.
      ground (arith, eq_iff name n, present n m h, state_at-insert name m n e);
  start = λ p e m ps absent fresh h.
      ground (arith, eq_iff p.map_name n, present n m h, state_at-insert p.map_name m n e);
  time_out = λ name m ps e h. ground (arith, state_at-expire name m n e);
  wake = λ name m ps w e h.
      ground (arith, eq_iff name n, late_of_timed_out n m h, state_at-mark_ready name m n);
}

module _ {N F : Type 0} (session : Session) where
  after_handle-HasTimedOut :
      (n : String) (w : World N F) (rest : List (SchedulerCommand N F)) (l : Loop N F)
      → OnLoop (λ m ps. HasTimedOut n m) l
      → HasTimedOut n (after_handle w rest l).state.executor_map
  unfolding after_handle
  after_handle-HasTimedOut n w rest (running s) h = h
  after_handle-HasTimedOut n w rest (stopped s) h = h

  Step-HasTimedOut :
      (n : String) {w v : World N F}
      → Step session w v
      → HasTimedOut n w.state.executor_map
      → HasTimedOut n v.state.executor_map
  Step-HasTimedOut n (post c outside) h = h
  Step-HasTimedOut n {w} (take out c rest goes_on e) h =
      after_handle-HasTimedOut n w rest (handle session out c (cleared w.state)) (
        handle-On Anyone (λ m ps. HasTimedOut n m) (HasTimedOut-IsKept n) session out c
          (cleared w.state) (command_of_Anyone c) h)
  Step-HasTimedOut n {w} (exit before p after status e) h =
      ground (arith, state_at-forget_process p.map_name w.state.executor_map n)
  Step-HasTimedOut n (spawn_timeout before t after e) h = h
  Step-HasTimedOut n (listener_wait before j after e) h = h

  pub Reach-HasTimedOut :
      (n : String) {w v : World N F}
      → Reach session w v
      → HasTimedOut n w.state.executor_map
      → HasTimedOut n v.state.executor_map
  Reach-HasTimedOut n here h = h
  Reach-HasTimedOut n (next r st) h = Step-HasTimedOut n st (Reach-HasTimedOut n r h)

  module _ (out : Outside) (job executor : String) (scope : RuntimeScope) where
    -- The command that a block on an executor which does not start leads to.
    abbrev pub refused_block : String → State N F → State N F
    refused_block e s =
        queue (lost_executor session out executor scope e)
          (note_running session out job executor scope s)

    query_timed_out :
        (s : State N F)
        → HasTimedOut (map_name session executor scope) s.executor_map
        → query_executor_state session out executor scope s
          ≡ (s, failed (session.start_text executor (session.identifier scope)))
    unfolding query_executor_state after_finish check_state
    query_timed_out s h = rw h refl

    pub refused :
        (s : State N F)
        → HasTimedOut (map_name session executor scope) s.executor_map
        → (handle session out (execute_block job executor scope) s
            ≡ running (refused_block (session.start_text executor (session.identifier scope)) s))
          × (handle session out (execute_service_block job executor scope) s
              ≡ running (refused_block (session.start_text executor (session.identifier scope)) s))
    unfolding handle on_execute_block on_execute_service_block after_query
    refused s h =
        let e =
          query_timed_out (note_running session out job executor scope s)
            (unfold note_running in h) in
        (rw e refl, rw e refl)
