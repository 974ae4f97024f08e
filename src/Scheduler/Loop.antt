-- ===== src/Scheduler/Loop.antt =====
-- mainframe/src/scheduler.rs: SchedulerRx::event_loop.
use oocana_rust.Base.{Bool, true, false, Option, none, some, List, [], ◌∷◌, if◌then◌else◌}
use oocana_rust.Base.Map
use oocana_rust.Message.{
  ReceiveMessage, block_ready, block_finished, block_output, block_outputs, block_error,
  parse_worker_message,
}
use oocana_rust.Scheduler
use oocana_rust.Scheduler.{
  Outside, Session, State, SchedulerCommand, register_subscriber, unregister_subscriber,
  block_event, send_inputs, block_request_response, execute_block, execute_service_block,
  spawn_executor_timeout, receive, abort, to_broker, to_executor_inputs, response, send,
}
use oocana_rust.Scheduler.Blocks.{on_execute_block, on_execute_service_block}
use oocana_rust.Scheduler.Events.{on_executor_exit, on_spawn_executor_timeout, on_receive, on_abort}

-- The loop goes on, or it has ended by `break`.
pub data Loop (N F : Type 0) : Type 0 where
  running : State N F → Loop N F
  stopped : State N F → Loop N F

module _ {N F : Type 0} (session : Session) where
  -- The events of the blocks that the runtime runs by itself.
  unfoldable pub is_block_event : ReceiveMessage N F → Bool
  is_block_event (block_ready s j) = true
  is_block_event (block_finished s j r e) = true
  is_block_event (block_output s j h v o) = true
  is_block_event (block_outputs s j vs) = true
  is_block_event (block_error s j e) = true
  is_block_event _ = false

  unfoldable pub received : Outside → Option (ReceiveMessage N F) → State N F → State N F
  unfolding on_receive
  received out none s = s
  received out (some msg) s = on_receive session out msg s

  unfoldable pub handle : Outside → SchedulerCommand N F → State N F → Loop N F
  unfolding is_block_event received parse_worker_message send on_execute_block
      on_execute_service_block on_executor_exit on_spawn_executor_timeout on_abort
  handle out (register_subscriber job sender) s =
      running (record s { subscribers = Map.insert job sender s.subscribers })
  handle out (unregister_subscriber job) s =
      running (record s { subscribers = Map.remove job s.subscribers })
  handle out (block_event event) s =
      running (if is_block_event event then send (to_broker event) s else s)
  handle out (send_inputs job inputs) s = running (send (to_executor_inputs job inputs) s)
  handle out (block_request_response sid job error result request) s =
      running (send (response sid job error result request) s)
  handle out (execute_block job executor scope) s =
      running (on_execute_block session out job executor scope s)
  handle out (execute_service_block job executor scope) s =
      running (on_execute_service_block session out job executor scope s)
  handle out (Scheduler.executor_exit executor identifier code reason) s =
      running (on_executor_exit session out executor identifier code reason s)
  handle out (spawn_executor_timeout executor pkg_path identifier) s =
      running (on_spawn_executor_timeout session out executor pkg_path identifier s)
  handle out (receive msg) s = running (received out (parse_worker_message msg session.id) s)
  handle out abort s = stopped (on_abort session out s)

  -- The commands of the channel, each with what is outside then.
  unfoldable pub run : List (Outside × SchedulerCommand N F) → Loop N F → Loop N F
  unfolding handle
  run [] l = l
  run (c ∷ cs) (stopped s) = stopped s
  run ((out, c) ∷ cs) (running s) = run cs (handle out c s)
