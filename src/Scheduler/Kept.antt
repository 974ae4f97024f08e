-- ===== src/Scheduler/Kept.antt =====
-- The rule of Scheduler.Rules for the commands that run a block, and for every command.
use oocana_rust.Base.{
  String, false, Option, none, some, List, ◌≡◌, refl, arith, Bool-cases, inl, inr, for_each,
  for_each_inv, unwrap_or,
}
use mathlib.Core.List.{append-nil}
use oocana_rust.Base.Map
use oocana_rust.Base.Map.{Map}
use oocana_rust.Scope.{RuntimeScope}
use oocana_rust.Message.{ReceiveMessage}
use oocana_rust.Message.{parse_worker_message}
use oocana_rust.Scheduler
use oocana_rust.Scheduler.Names.{executor_bin}
use oocana_rust.Scheduler.{
  ExecutorSpawnState, not_spawned, spawned, ready, timed_out, finished, ExecutorState,
  default_state, Outside, Session, State, Sent, send, queue, start_process, to_broker,
  to_subscriber, kill, disconnect, Attempt, worked, failed, SchedulerCommand, register_subscriber,
  unregister_subscriber, block_event, send_inputs, block_request_response, execute_block,
  execute_service_block, spawn_executor_timeout, receive, abort, to_executor_inputs, response,
  run_block, run_service_block, listener_timer, Attempt-cases,
}
use oocana_rust.Scheduler.Executor.{
  set_executor, state_at, map_name, check_state, after_finish, query_executor_state, spawn_executor,
  start_executor, ExecutorCheckResult,
}
use oocana_rust.Scheduler.Blocks.{
  after_spawn, with_state, after_query, note_running, on_execute_block, on_execute_service_block,
}
use oocana_rust.Scheduler.Events.{kill_executor}
use oocana_rust.Scheduler.Loop.{is_block_event, handle, received}
use oocana_rust.Scheduler.World.{Process, processes_of}
use oocana_rust.Scheduler.Rules.{processes_of-append, IsKept, WakesAny, CommandWakes, parsed}
use oocana_rust.Scheduler.Quiet.{
  On, OnLoop, send_quiet, quiet_step, finish_jobs-On, kill-On, on_spawn_executor_timeout-On,
  on_receive-On,
}

module _ {N F : Type 0} (W : String → Type 0) (P : Map ExecutorState → List Process → Type 0)
    (kept : IsKept W P) (session : Session) (out : Outside) where
  check_state-On :
      (executor : String) (scope : RuntimeScope) (st : ExecutorSpawnState) (s : State N F)
      → On P s
      → On P (check_state session out executor scope st s).0
  unfolding check_state
  check_state-On executor scope timed_out s h = h
  check_state-On executor scope not_spawned s h = ground arith
  check_state-On executor scope st s h = h

  after_finish-On :
      (name executor : String) (scope : RuntimeScope) (st : ExecutorSpawnState) (s : State N F)
      → state_at name s.executor_map ≡ st
      → On P s
      → On P (after_finish session out name executor scope st s).0
  unfolding after_finish
  after_finish-On name executor scope finished s e h =
      check_state-On executor scope not_spawned
        (record s { executor_map = Map.remove name s.executor_map })
        (kept.drop name s.executor_map (processes_of s.sent) e h)
  after_finish-On name executor scope st s e h = check_state-On executor scope st s h

  start_executor-On :
      (name executor : String) (layer : Option String) (scope : RuntimeScope) (s : State N F)
      → Map.contains_key name s.executor_map ≡ false
      → On P s
      → On P
          (start_executor session out name executor layer scope
            (set_executor name (record { spawn_state = spawned; pid = none }) s)).0
  unfolding start_executor set_executor send processes_of
  start_executor-On name executor layer scope s absent h =
      let p : Process = record {
        map_name = name;
        executor_bin = executor_bin executor;
        identifier = session.identifier scope;
      } in
      elim (Attempt-cases out.process) [
        | inl (pid, e) ↦
            rw (e, Map.insert-insert, processes_of-append, processes_of-append, append-nil)
              (kept.start p (record { spawn_state = spawned; pid = pid }) s.executor_map
                (processes_of s.sent) absent tt h)
        | inr (err, e) ↦
            rw (e, Map.insert-insert, processes_of-append, append-nil)
              (kept.put name default_state s.executor_map (processes_of s.sent) absent tt h)
      ]

  spawn_executor-On :
      (executor : String) (layer : Option String) (scope : RuntimeScope) (s : State N F)
      → On P s
      → On P (spawn_executor session out executor layer scope s).0
  unfolding spawn_executor
  spawn_executor-On executor layer scope s h =
      let name = map_name session executor scope in
      let started : ExecutorState = record { spawn_state = spawned; pid = none } in
      elim (Bool-cases (Map.contains_key name s.executor_map)) [
        | inl e ↦ rw e h
        | inr e ↦ rw e (elim (Attempt-cases out.debug_port) [
          | inl (port, w) ↦ rw w (start_executor-On name executor layer scope s e h)
          | inr (err, w) ↦ rw w (kept.put name started s.executor_map (processes_of s.sent) e tt h)
        ])
      ]

  after_spawn-On :
      (executor : String) (scope : RuntimeScope) (r : State N F × Attempt (Unit {0}))
      → On P r.0
      → On P (after_spawn session out executor scope r)
  unfolding after_spawn queue
  after_spawn-On executor scope (s, failed e) h = h
  after_spawn-On executor scope (s, worked u) h = h

  with_state-On :
      (executor : String) (scope : RuntimeScope) (deliver : State N F → State N F)
      → ((s : State N F) → On P s → On P (deliver s))
      → (layer : Option String) (st : ExecutorSpawnState) (s : State N F) → On P s
      → On P (with_state session out executor scope deliver layer st s)
  unfolding with_state
  with_state-On executor scope deliver keeps layer not_spawned s h =
      after_spawn-On executor scope (spawn_executor session out executor layer scope s)
        (spawn_executor-On executor layer scope s h)
  with_state-On executor scope deliver keeps layer st s h = keeps s h

  after_query-On :
      (executor : String) (scope : RuntimeScope) (deliver : State N F → State N F)
      → ((s : State N F) → On P s → On P (deliver s))
      → (r : State N F × Attempt ExecutorCheckResult) → On P r.0
      → On P (after_query session out executor scope deliver r)
  unfolding after_query
  after_query-On executor scope deliver keeps (s, failed e) h = h
  after_query-On executor scope deliver keeps (s, worked r) h =
      with_state-On executor scope deliver keeps r.layer r.executor_state s h

  query-On :
      (executor : String) (scope : RuntimeScope) (s : State N F)
      → On P s
      → On P (query_executor_state session out executor scope s).0
  unfolding query_executor_state
  query-On executor scope s h =
      let name = map_name session executor scope in
      after_finish-On name executor scope (state_at name s.executor_map) s refl h

  on_execute_block-On :
      (job executor : String) (scope : RuntimeScope) (s : State N F)
      → On P s
      → On P (on_execute_block session out job executor scope s)
  unfolding on_execute_block processes_of
  on_execute_block-On job executor scope s h =
      let i = session.identifier scope in
      let noted = note_running session out job executor scope s in
      after_query-On executor scope _
        (λ t k.
          send_quiet P (listener_timer job) (send (run_block executor job i) t) refl
            (send_quiet P (run_block executor job i) t refl k))
        (query_executor_state session out executor scope noted)
        (query-On executor scope noted (unfold note_running in h))

  on_execute_service_block-On :
      (job executor : String) (scope : RuntimeScope) (s : State N F)
      → On P s
      → On P (on_execute_service_block session out job executor scope s)
  unfolding on_execute_service_block processes_of
  on_execute_service_block-On job executor scope s h =
      let i = session.identifier scope in
      let noted = note_running session out job executor scope s in
      after_query-On executor scope _
        (λ t k. send_quiet P (run_service_block executor job i) t refl k)
        (query_executor_state session out executor scope noted)
        (query-On executor scope noted (unfold note_running in h))

  received-On :
      (msg : Option (ReceiveMessage N F)) (s : State N F)
      → WakesAny W msg
      → On P s
      → On P (received session out msg s)
  unfolding received
  received-On none s w h = h
  received-On (some msg) s w h = on_receive-On W P kept session out msg s w h

  -- Every command keeps what the five changes keep.
  pub handle-On :
      (c : SchedulerCommand N F) (s : State N F)
      → CommandWakes W c
      → On P s
      → OnLoop P (handle session out c s)
  unfolding handle processes_of
  handle-On (register_subscriber job x) s w h = h
  handle-On (unregister_subscriber job) s w h = h
  handle-On (block_event event) s w h =
      quiet_step P (is_block_event session event) (to_broker event) s s refl h h
  handle-On (send_inputs job inputs) s w h = send_quiet P (to_executor_inputs job inputs) s refl h
  handle-On (block_request_response i j e r q) s w h = send_quiet P (response i j e r q) s refl h
  handle-On (execute_block job executor scope) s w h = on_execute_block-On job executor scope s h
  handle-On (execute_service_block job executor scope) s w h =
      on_execute_service_block-On job executor scope s h
  handle-On (Scheduler.executor_exit executor i code reason) s w h =
      finish_jobs-On P session out (unwrap_or reason (session.exit_text executor code)) executor i s
        h
  handle-On (spawn_executor_timeout executor p i) s w h =
      on_spawn_executor_timeout-On W P kept session out executor p i s h
  handle-On (receive msg) s w h =
      received-On (parse_worker_message msg session.id) s (parsed W msg session.id w) h
  handle-On abort s w h =
      send_quiet P disconnect (for_each (kill_executor session out) s.executor_map s) refl
        (for_each_inv (On P) (kill_executor session out) (kill-On P session out) s.executor_map s h)
