-- ===== src/Scheduler/Executor.antt =====
-- mainframe/src/scheduler.rs: query_executor_state and spawn_executor.
use oocana_rust.Base.{String, Option, none, some, if◌then◌else◌, unwrap_or}
use oocana_rust.Base.Map
use oocana_rust.Base.Map.{Map}
use oocana_rust.Scope.{RuntimeScope}
use oocana_rust.Scheduler.{
  ExecutorSpawnState, not_spawned, spawned, timed_out, finished, ExecutorState, default_state,
  Attempt, after, worked, failed, Outside, Session, State, start_process, spawn_timer, send,
}
use oocana_rust.Scheduler.Names.{generate_executor_map_name, executor_bin}

-- ExecutorCheckResult, where a layer is the path of its package.
pub record ExecutorCheckResult : Type 0 where
  pub executor_state : ExecutorSpawnState
  pub layer : Option String

abbrev pub map_name : Session → String → RuntimeScope → String
map_name session executor_name scope =
    generate_executor_map_name executor_name (session.identifier scope)

unfoldable pub state_at : String → Map ExecutorState → ExecutorSpawnState
state_at name m = (unwrap_or (Map.get name m) default_state).spawn_state

module _ {N F : Type 0} where
  unfoldable pub set_executor : String → ExecutorState → State N F → State N F
  set_executor name e s = record s { executor_map = Map.insert name e s.executor_map }

module _ {N F : Type 0} (session : Session) (out : Outside) where
  -- The result for the state of the executor; an executor that has finished has been taken out.
  unfoldable pub check_state :
      String
      → RuntimeScope
      → ExecutorSpawnState
      → State N F
      → State N F × Attempt ExecutorCheckResult
  check_state executor_name scope timed_out s =
      (s, failed (session.start_text executor_name (session.identifier scope)))
  check_state executor_name scope not_spawned s =
      if scope.enable_layer
      then after out.layer (λ e. (s, failed e))
          (λ path. (s, worked (record { executor_state = not_spawned; layer = some path })))
      else (s, worked (record { executor_state = not_spawned; layer = none }))
  check_state executor_name scope state s =
      (s, worked (record { executor_state = state; layer = none }))

  unfoldable pub after_finish :
      String
      → String
      → RuntimeScope
      → ExecutorSpawnState
      → State N F
      → State N F × Attempt ExecutorCheckResult
  unfolding check_state
  after_finish name executor_name scope finished s =
      check_state executor_name scope not_spawned
        (record s { executor_map = Map.remove name s.executor_map })
  after_finish name executor_name scope state s = check_state executor_name scope state s

  unfoldable pub query_executor_state :
      String → RuntimeScope → State N F → State N F × Attempt ExecutorCheckResult
  unfolding after_finish state_at
  query_executor_state executor_name scope s =
      let name = map_name session executor_name scope in
      after_finish name executor_name scope (state_at name s.executor_map) s

  -- The process is started, and the timer of five seconds with it, whether or not it could be.
  unfoldable pub start_executor :
      String → String → Option String → RuntimeScope → State N F → State N F × Attempt (Unit {0})
  unfolding send set_executor executor_bin
  start_executor name executor layer scope s =
      let bin = executor_bin executor in
      let identifier = session.identifier scope in
      let timed = send (spawn_timer name bin layer identifier) s in
      after out.process (λ e. (set_executor name default_state timed, failed e))
        (λ pid. (
          send (start_process name bin identifier)
              (set_executor name (record { spawn_state = spawned; pid = pid }) timed),
          worked tt,
        ))

  -- An executor that is in the map is not started. It is put there before anything can fail.
  unfoldable pub spawn_executor :
      String → Option String → RuntimeScope → State N F → State N F × Attempt (Unit {0})
  unfolding start_executor set_executor
  spawn_executor executor layer scope s =
      let name = map_name session executor scope in
      let noted = set_executor name (record { spawn_state = spawned; pid = none }) s in
      if Map.contains_key name s.executor_map
      then (s, worked tt)
      else after out.debug_port (λ e. (noted, failed e))
          (λ port. start_executor name executor layer scope noted)
