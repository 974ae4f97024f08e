-- ===== src/Scheduler/Rules.antt =====
-- The rule for what holds of the map of executors and of the processes that the scheduler starts:
-- five changes of the map keep it, so every command does.
use oocana_rust.Base.{
  String, true, false, Option, none, some, List, [], ◌∷◌, ◌++◌, ◌≡◌, refl, arith, Bool-cases, inl,
  inr, ◌==◌,
}
use oocana_rust.Base.Map
use oocana_rust.Base.Map.{Map}
use oocana_rust.Message.{ReceiveMessage, executor_ready}
use oocana_rust.Message.{parse_worker_message, session_id}
use oocana_rust.Scheduler.Names.{executor_map_name_from_parts}
use oocana_rust.Scheduler.{
  ExecutorSpawnState, not_spawned, spawned, timed_out, finished, ExecutorState, Sent, start_process,
  SchedulerCommand, receive,
}
use oocana_rust.Scheduler.Executor.{state_at}
use oocana_rust.Scheduler.Events.{is_spawned, is_late, mark_ready}
use oocana_rust.Scheduler.World.{Process, processes_of}

-- An entry that spawn_executor makes.
abbrev pub IsFresh : ExecutorSpawnState → Type 0
IsFresh not_spawned = Unit
IsFresh spawned = Unit
IsFresh _ = ⊥

pub processes_of-append :
    {N F : Type 0} (xs ys : List (Sent N F))
    → processes_of (xs ++ ys) ≡ processes_of xs ++ processes_of ys
unfolding processes_of
processes_of-append [] ys = refl
processes_of-append (start_process n b i ∷ xs) ys = ground (arith, processes_of-append xs ys)
processes_of-append (x ∷ xs) ys = processes_of-append xs ys

abbrev pub expire : ExecutorState → ExecutorState
expire e = record e { spawn_state = timed_out }

-- The changes of the map and of the processes, where only executors of which `W` holds get ready.
pub record IsKept (W : String → Type 0) (P : Map ExecutorState → List Process → Type 0)
    : Type 0 where
  pub drop :
      (name : String) (m : Map ExecutorState) (ps : List Process)
      → state_at name m ≡ finished
      → P m ps
      → P (Map.remove name m) ps
  pub put :
      (name : String) (e : ExecutorState) (m : Map ExecutorState) (ps : List Process)
      → Map.contains_key name m ≡ false
      → IsFresh e.spawn_state
      → P m ps
      → P (Map.insert name e m) ps
  pub start :
      (p : Process) (e : ExecutorState) (m : Map ExecutorState) (ps : List Process)
      → Map.contains_key p.map_name m ≡ false
      → IsFresh e.spawn_state
      → P m ps
      → P (Map.insert p.map_name e m) (ps ++ p ∷ [])
  pub time_out :
      (name : String) (m : Map ExecutorState) (ps : List Process)
      → is_spawned (Map.get name m) ≡ true
      → P m ps
      → P (Map.modify name expire m) ps
  pub wake :
      (name : String) (m : Map ExecutorState) (ps : List Process)
      → W name
      → is_late (Map.get name m) ≡ false
      → P m ps
      → P (mark_ready name m) ps

-- The message tells that an executor is ready, and `W` holds of it.
abbrev pub Wakes : {N F : Type 0} → (W : String → Type 0) → ReceiveMessage N F → Type 0
Wakes W (executor_ready sid executor pkg_path identifier) =
    W (executor_map_name_from_parts executor identifier)
Wakes W _ = Unit

abbrev pub WakesAny : {N F : Type 0} → (W : String → Type 0) → Option (ReceiveMessage N F) → Type 0
WakesAny W none = Unit
WakesAny W (some msg) = Wakes W msg

abbrev pub CommandWakes : {N F : Type 0} → (W : String → Type 0) → SchedulerCommand N F → Type 0
CommandWakes W (receive msg) = WakesAny W msg
CommandWakes W _ = Unit

abbrev pub Anyone : String → Type 0
Anyone n = Unit

message_of_Anyone : {N F : Type 0} (msg : Option (ReceiveMessage N F)) → WakesAny Anyone msg
message_of_Anyone none = tt
message_of_Anyone (some (executor_ready s x p i)) = tt
message_of_Anyone (some msg) = tt

pub command_of_Anyone : {N F : Type 0} (c : SchedulerCommand N F) → CommandWakes Anyone c
command_of_Anyone (receive msg) = message_of_Anyone msg
command_of_Anyone c = tt

pub parsed :
    {N F : Type 0} (W : String → Type 0) (msg : Option (ReceiveMessage N F)) (sid : String)
    → WakesAny W msg
    → WakesAny W (parse_worker_message msg sid)
unfolding parse_worker_message
parsed W none sid h = tt
parsed W (some msg) sid h = elim (Bool-cases (session_id msg == sid)) [
  | inl e ↦ rw e h
  | inr e ↦ rw e tt
]
