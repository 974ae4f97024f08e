-- ===== src/Scheduler/Blocks.antt =====
-- mainframe/src/scheduler.rs: the commands that run a block.
use oocana_rust.Base.{String, Option, some}
use oocana_rust.Base.Map
use oocana_rust.Node.{neg}
use oocana_rust.Scope.{RuntimeScope}
use oocana_rust.Scheduler.{
  ExecutorSpawnState, not_spawned, Attempt, worked, failed, Outside, Session, State,
  SchedulerCommand, executor_exit, run_block, run_service_block, listener_timer, send, queue,
}
use oocana_rust.Scheduler.Executor.{ExecutorCheckResult, query_executor_state, spawn_executor}

module _ {N F : Type 0} (session : Session) (out : Outside) where
  -- An executor that does not start is told of as one that has ended with the code -1. The
  -- text of its error is not told apart by how it is formatted.
  abbrev pub lost_executor : String → RuntimeScope → String → SchedulerCommand N F
  lost_executor executor scope e =
      executor_exit executor (some (session.identifier scope)) (neg 0) (some e)

  unfoldable pub after_spawn : String → RuntimeScope → State N F × Attempt (Unit {0}) → State N F
  unfolding queue
  after_spawn executor scope (s, failed e) = queue (lost_executor executor scope e) s
  after_spawn executor scope (s, worked u) = s

  -- `deliver` sends the block to an executor that has been started before.
  unfoldable pub with_state :
      String
      → RuntimeScope
      → (State N F → State N F)
      → Option String
      → ExecutorSpawnState
      → State N F
      → State N F
  unfolding after_spawn spawn_executor
  with_state executor scope deliver layer not_spawned s =
      after_spawn executor scope (spawn_executor session out executor layer scope s)
  with_state executor scope deliver layer state s = deliver s

  unfoldable pub after_query :
      String
      → RuntimeScope
      → (State N F → State N F)
      → State N F × Attempt ExecutorCheckResult
      → State N F
  unfolding with_state queue
  after_query executor scope deliver (s, failed e) = queue (lost_executor executor scope e) s
  after_query executor scope deliver (s, worked r) =
      with_state executor scope deliver r.layer r.executor_state s

  unfoldable pub note_running : String → String → RuntimeScope → State N F → State N F
  note_running job executor scope s = record s {
    running_blocks =
        Map.insert job (record { executor_name = executor; identifier = session.identifier scope })
          s.running_blocks;
  }

  unfoldable pub on_execute_block : String → String → RuntimeScope → State N F → State N F
  unfolding after_query query_executor_state note_running send
  on_execute_block job executor scope s =
      after_query executor scope
        (λ t.
          send (listener_timer job) (send (run_block executor job (session.identifier scope)) t))
        (query_executor_state session out executor scope (note_running job executor scope s))

  unfoldable pub on_execute_service_block : String → String → RuntimeScope → State N F → State N F
  unfolding after_query query_executor_state note_running send
  on_execute_service_block job executor scope s =
      after_query executor scope
        (λ t. send (run_service_block executor job (session.identifier scope)) t)
        (query_executor_state session out executor scope (note_running job executor scope s))
