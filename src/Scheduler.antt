-- ===== src/Scheduler.antt =====
-- mainframe/src/scheduler.rs: the scheduler stands between the jobs of a session and the executors
-- that run them. This file has its state, its commands and what it sends; the children have the
-- handlers of its loop.
pub mod Names
pub mod Executor
pub mod Blocks
pub mod Events
pub mod Loop
pub mod World
pub mod Rules
pub mod Quiet
pub mod Kept
pub mod Entries
pub mod Processes
pub mod TimedOut
pub mod Ends
pub mod Refused
pub mod Unstarted
pub mod Routing
pub mod Routed
pub mod Client
pub mod Broadcast
use oocana_rust.Base.{
  ℕ, String, Bool, true, false, Option, none, some, List, [], ◌∷◌, ◌++◌, ◌≡◌, refl, ◌⊎◌, inl, inr,
}
use oocana_rust.Base.Map.{Map}
use oocana_rust.Json.{Json}
use oocana_rust.Node.{Int32}
use oocana_rust.InputValues.{InputValues}
use oocana_rust.Scope.{RuntimeScope}
use oocana_rust.Message.{ReceiveMessage}

pub data ExecutorSpawnState : Type 0 where
  not_spawned spawned ready timed_out finished : ExecutorSpawnState

pub record ExecutorState : Type 0 where
  pub spawn_state : ExecutorSpawnState
  pub pid : Option ℕ

abbrev pub default_state : ExecutorState
default_state = record { spawn_state = not_spawned; pid = none }

pub record RunningBlock : Type 0 where
  pub executor_name : String
  pub identifier : String

-- Of what a command only passes on to the executor (stacks, handles, the executor's options, paths)
-- the inputs are kept. A subscriber is the number of its channel. `receive` has what the bytes of a
-- message are read as.
pub data SchedulerCommand (N F : Type 0) : Type 0 where
  register_subscriber : (job_id : String) → (sender : ℕ) → SchedulerCommand N F
  unregister_subscriber : (job_id : String) → SchedulerCommand N F
  block_event : ReceiveMessage N F → SchedulerCommand N F
  send_inputs : (job_id : String) → Option (InputValues N) → SchedulerCommand N F
  block_request_response :
      (session_id job_id : String)
      → (error : Option String) → (result : Option (Json N)) → (request_id : String)
      → SchedulerCommand N F
  execute_block : (job_id executor_name : String) → RuntimeScope → SchedulerCommand N F
  execute_service_block : (job_id executor_name : String) → RuntimeScope → SchedulerCommand N F
  executor_exit :
      (executor : String)
      → (identifier : Option String) → (code : Int32) → (reason : Option String)
      → SchedulerCommand N F
  spawn_executor_timeout :
      (executor : String) → (pkg_path identifier : Option String) → SchedulerCommand N F
  receive : Option (ReceiveMessage N F) → SchedulerCommand N F
  abort : SchedulerCommand N F

-- What the scheduler does to the world: `to_broker` sends an event of a block to the broker of the
-- session, `start_process` starts an executor under its name in the map, `spawn_timer` and
-- `listener_timer` sleep in a task of their own and then send a command, `to_subscriber` reaches a
-- listener.
pub data Sent (N F : Type 0) : Type 0 where
  to_broker : ReceiveMessage N F → Sent N F
  to_executor_inputs : (job_id : String) → Option (InputValues N) → Sent N F
  response :
      (session_id job_id : String)
      → (error : Option String) → (result : Option (Json N)) → (request_id : String) → Sent N F
  run_block : (executor_name job_id identifier : String) → Sent N F
  run_service_block : (executor_name job_id identifier : String) → Sent N F
  start_process : (map_name executor_bin identifier : String) → Sent N F
  spawn_timer :
      (map_name executor_bin : String)
      → (pkg_path : Option String) → (identifier : String) → Sent N F
  listener_timer : (job_id : String) → Sent N F
  to_subscriber : (sender : ℕ) → ReceiveMessage N F → Sent N F
  kill : (pid : ℕ) → Sent N F
  disconnect : Sent N F

-- What may be different at each command: how `create_runtime_layer` and its injection end for a
-- scope that needs a layer (with the path of the package, or an error), whether a free port is found
-- where an executor is to be debugged, whether the process of an executor starts (with its pid, if it
-- has one, or an error), and which channels have a receiver.
pub data Attempt (A : Type 0) : Type 0 where
  worked : A → Attempt A
  failed : String → Attempt A

abbrev pub after {ℓ} : {A : Type 0} {B : Type ℓ} → Attempt A → (String → B) → (A → B) → B
after (worked a) bad good = good a
after (failed e) bad good = bad e

pub Attempt-cases :
    {A : Type 0} (r : Attempt A) → ((a : A) × (r ≡ worked a)) ⊎ ((e : String) × (r ≡ failed e))
Attempt-cases (worked a) = inl (a, refl)
Attempt-cases (failed e) = inr (e, refl)

pub record Outside : Type 0 where
  pub layer : Attempt String
  pub debug_port : Attempt (Unit {0})
  pub process : Attempt (Option ℕ)
  pub has_receiver : ℕ → Bool

-- The session, the identifier of a scope (job/src/scope.rs hashes its path), and the texts of
-- errors.
pub record Session : Type 0 where
  pub id : String
  pub identifier : RuntimeScope → String
  pub exit_text : (executor : String) → (code : Int32) → String
  pub timeout_text : (executor : String) → (pkg_path identifier : Option String) → String
  pub start_text : (executor identifier : String) → String

-- The local variables of event_loop and the map of executors. `queued` is what the scheduler has
-- put into its own channel, and `sent` what it has sent elsewhere, in order.
pub record State (N F : Type 0) : Type 0 where
  pub subscribers : Map ℕ
  pub running_blocks : Map RunningBlock
  pub executor_map : Map ExecutorState
  pub queued : List (SchedulerCommand N F)
  pub sent : List (Sent N F)

module _ {N F : Type 0} where
  unfoldable pub send : Sent N F → State N F → State N F
  send m s = record s { sent = s.sent ++ m ∷ [] }

  unfoldable pub queue : SchedulerCommand N F → State N F → State N F
  queue c s = record s { queued = s.queued ++ c ∷ [] }
