-- ===== src/Scheduler/Routed.antt =====
-- mainframe/src/scheduler.rs: every command reaches only the listeners that it is for.
use oocana_rust.Base.{
  ℕ, String, Option, [], ◌≡◌, refl, inl, inr, arith, Bool-cases, for_each_inv, unwrap_or, for_each,
}
use oocana_rust.Base.Map
use oocana_rust.Base.Map.{Map}
use oocana_rust.Scope.{RuntimeScope}
use oocana_rust.Scheduler
use oocana_rust.Scheduler.{
  ExecutorSpawnState, not_spawned, timed_out, finished, ExecutorState, Outside, Session, State,
  Sent, to_broker, to_subscriber, send, queue, start_process, spawn_timer, run_block,
  run_service_block, listener_timer, kill, disconnect, to_executor_inputs, response,
  SchedulerCommand, register_subscriber, unregister_subscriber, block_event, send_inputs,
  block_request_response, execute_block, execute_service_block, spawn_executor_timeout, receive,
  abort, Attempt, worked, failed, Attempt-cases,
}
use oocana_rust.Scheduler.Names.{executor_bin}
use oocana_rust.Scheduler.Executor.{
  state_at, map_name, ExecutorCheckResult, check_state, after_finish, query_executor_state,
  spawn_executor, start_executor, set_executor,
}
use oocana_rust.Scheduler.Blocks.{
  after_spawn, with_state, after_query, note_running, on_execute_block, on_execute_service_block,
}
use oocana_rust.Scheduler.Events.{kill_executor}
use oocana_rust.Scheduler.Loop.{is_block_event, handle}
use oocana_rust.Scheduler.Routing.{
  AllRouted, LoopRouted, send_routed, either_routed, finish_jobs-Steady, timeout_routed,
  received_routed, kill_routed,
}

module _ {N F : Type 0} (session : Session) (out : Outside) where
  query_routed :
      (executor : String) (scope : RuntimeScope) (s : State N F)
      → (query_executor_state session out executor scope s).0.sent ≡ s.sent
  unfolding query_executor_state
  query_routed executor scope s =
      finish_sent (map_name session executor scope) executor scope
        (state_at (map_name session executor scope) s.executor_map) s
    where
      check_sent :
          (x : String) (scope : RuntimeScope) (st : ExecutorSpawnState) (s : State N F)
          → (check_state session out x scope st s).0.sent ≡ s.sent
      check_sent x scope st s = unfold check_state in ground arith

      finish_sent :
          (n x : String) (scope : RuntimeScope) (st : ExecutorSpawnState) (s : State N F)
          → (after_finish session out n x scope st s).0.sent ≡ s.sent
      finish_sent n x scope finished s = check_sent x scope not_spawned _
      finish_sent n x scope st s = check_sent x scope st s

module _ {N F : Type 0} (session : Session) (subscribers : Map ℕ) (out : Outside) where
  abbrev Routed : State N F → Type 0
  Routed = AllRouted session subscribers

  start-Routed :
      (name executor : String) (layer : Option String) (scope : RuntimeScope) (s : State N F)
      → Routed s
      → Routed (start_executor session out name executor layer scope s).0
  unfolding start_executor set_executor send
  start-Routed name executor layer scope s h =
      let i = session.identifier scope in
      let timed =
        send_routed session subscribers (spawn_timer name (executor_bin executor) layer i) s tt h in
      elim (Attempt-cases out.process) [
        | inl (pid, e) ↦ rw e (
            send_routed session subscribers (start_process name (executor_bin executor) i)
              (send (spawn_timer name (executor_bin executor) layer i) s) tt timed)
        | inr (x, e) ↦ rw e timed
      ]

  spawn-Routed :
      (executor : String) (layer : Option String) (scope : RuntimeScope) (s : State N F)
      → Routed s
      → Routed (spawn_executor session out executor layer scope s).0
  unfolding spawn_executor set_executor
  spawn-Routed executor layer scope s h =
      let name = map_name session executor scope in
      elim (Bool-cases (Map.contains_key name s.executor_map)) [
        | inl e ↦ rw e h
        | inr e ↦ rw e (elim (Attempt-cases out.debug_port) [
          | inl (port, w) ↦ rw w (start-Routed name executor layer scope _ h)
          | inr (x, w) ↦ rw w h
        ])
      ]

  spawned-Routed :
      (executor : String) (scope : RuntimeScope) (r : State N F × Attempt (Unit {0}))
      → Routed r.0
      → Routed (after_spawn session out executor scope r)
  unfolding after_spawn queue
  spawned-Routed executor scope (s, failed e) h = h
  spawned-Routed executor scope (s, worked u) h = h

  state-Routed :
      (executor : String) (scope : RuntimeScope) (deliver : State N F → State N F)
      → ((s : State N F) → Routed s → Routed (deliver s))
      → (layer : Option String) (st : ExecutorSpawnState) (s : State N F) → Routed s
      → Routed (with_state session out executor scope deliver layer st s)
  unfolding with_state
  state-Routed executor scope deliver keeps layer not_spawned s h =
      spawned-Routed executor scope (spawn_executor session out executor layer scope s)
        (spawn-Routed executor layer scope s h)
  state-Routed executor scope deliver keeps layer st s h = keeps s h

  execute-Routed :
      (executor : String) (scope : RuntimeScope) (deliver : State N F → State N F)
      → ((s : State N F) → Routed s → Routed (deliver s))
      → (r : State N F × Attempt ExecutorCheckResult) → Routed r.0
      → Routed (after_query session out executor scope deliver r)
  unfolding after_query queue
  execute-Routed executor scope deliver keeps (s, failed e) h = h
  execute-Routed executor scope deliver keeps (s, worked r) h =
      state-Routed executor scope deliver keeps r.layer r.executor_state s h

  block-Routed :
      (job executor : String) (scope : RuntimeScope) (s : State N F)
      → Routed s
      → Routed (on_execute_block session out job executor scope s)
        × Routed (on_execute_service_block session out job executor scope s)
  unfolding on_execute_block on_execute_service_block
  block-Routed job executor scope s h =
      let i = session.identifier scope in
      let noted = note_running session out job executor scope s in
      let queried : Routed (query_executor_state session out executor scope noted).0 =
        rw (query_routed session out executor scope noted) (unfold note_running in h) in
      (
        execute-Routed executor scope _
            (λ t k.
              send_routed session subscribers (listener_timer job)
                (send (run_block executor job i) t) tt
                (send_routed session subscribers (run_block executor job i) t tt k))
            (query_executor_state session out executor scope noted) queried,
        execute-Routed executor scope _
            (λ t k. send_routed session subscribers (run_service_block executor job i) t tt k)
            (query_executor_state session out executor scope noted) queried,
      )

module _ {N F : Type 0} (session : Session) where
  -- Whatever the command and the state, once the messages sent before are forgotten: every message
  -- that a listener gets belongs to the session, and it either tells of an executor or belongs to
  -- the job under which that listener was registered.
  pub handle-IsRouted :
      (out : Outside) (c : SchedulerCommand N F) (s : State N F)
      → LoopRouted session s.subscribers (handle session out c (record s { sent = [] }))
  unfolding handle
  handle-IsRouted out (register_subscriber job x) s = tt
  handle-IsRouted out (unregister_subscriber job) s = tt
  handle-IsRouted out (block_event event) s =
      either_routed session s.subscribers (is_block_event session event) (to_broker event)
        (record s { sent = [] }) (record s { sent = [] }) tt tt tt
  handle-IsRouted out (send_inputs job inputs) s =
      send_routed session s.subscribers (to_executor_inputs job inputs) (record s { sent = [] }) tt
        tt
  handle-IsRouted out (block_request_response i j e r q) s =
      send_routed session s.subscribers (response i j e r q) (record s { sent = [] }) tt tt
  handle-IsRouted out (execute_block job executor scope) s =
      (block-Routed session s.subscribers out job executor scope (record s { sent = [] }) tt).0
  handle-IsRouted out (execute_service_block job executor scope) s =
      (block-Routed session s.subscribers out job executor scope (record s { sent = [] }) tt).1
  handle-IsRouted out (Scheduler.executor_exit executor i code reason) s =
      (finish_jobs-Steady session s.subscribers out
        (unwrap_or reason (session.exit_text executor code)) executor i (record s { sent = [] })
        (refl, tt)).1
  handle-IsRouted out (spawn_executor_timeout executor p i) s =
      timeout_routed session s.subscribers out executor p i (record s { sent = [] }) (refl, tt)
  handle-IsRouted out (receive msg) s =
      received_routed session s.subscribers out msg (record s { sent = [] }) (refl, tt)
  handle-IsRouted out abort s =
      send_routed session s.subscribers disconnect
        (for_each (kill_executor session out) s.executor_map (record s { sent = [] })) tt
        (for_each_inv (AllRouted session s.subscribers) (kill_executor session out)
          (kill_routed session s.subscribers out) s.executor_map (record s { sent = [] }) tt)
