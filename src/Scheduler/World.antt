-- ===== src/Scheduler/World.antt =====
-- mainframe/src/scheduler.rs: the scheduler with what runs beside it: its channel, the processes of
-- the executors with the tasks that wait for their end, and the timers. The steps of these may come
-- in any order.
use oocana_rust.Base.{
  String, Bool, true, false, Option, none, some, List, [], ◌∷◌, ◌++◌, ◌≡◌, if◌then◌else◌,
}
use oocana_rust.Base.Map
use oocana_rust.Base.Map.{Map}
use oocana_rust.Node.{Int32, neg}
use oocana_rust.Message.{listener_timeout}
use oocana_rust.Scheduler.{
  ExecutorSpawnState, ExecutorState, timed_out, State, SchedulerCommand, executor_exit,
  spawn_executor_timeout, receive, Sent, start_process, spawn_timer, listener_timer, Outside,
  Session,
}
use oocana_rust.Scheduler.Executor.{state_at}
use oocana_rust.Scheduler.Events.{is_spawned}
use oocana_rust.Scheduler.Loop.{Loop, running, stopped, handle}

pub record Process : Type 0 where
  pub map_name : String
  pub executor_bin : String
  pub identifier : String

pub record SpawnTimer : Type 0 where
  pub map_name : String
  pub executor_bin : String
  pub pkg_path : Option String
  pub identifier : String

module _ {N F : Type 0} where
  unfoldable pub processes_of : List (Sent N F) → List Process
  processes_of [] = []
  processes_of (start_process n b i ∷ ms) =
      record { map_name = n; executor_bin = b; identifier = i } ∷ processes_of ms
  processes_of (_ ∷ ms) = processes_of ms

  unfoldable pub timers_of : List (Sent N F) → List SpawnTimer
  timers_of [] = []
  timers_of (spawn_timer n b p i ∷ ms) =
      record { map_name = n; executor_bin = b; pkg_path = p; identifier = i } ∷ timers_of ms
  timers_of (_ ∷ ms) = timers_of ms

  unfoldable pub waits_of : List (Sent N F) → List String
  waits_of [] = []
  waits_of (listener_timer j ∷ ms) = j ∷ waits_of ms
  waits_of (_ ∷ ms) = waits_of ms

-- `state` has in `queued` and `sent` what the last command made of them.
pub record World (N F : Type 0) : Type 0 where
  pub state : State N F
  pub channel : List (SchedulerCommand N F)
  pub processes : List Process
  pub timers : List SpawnTimer
  pub waits : List String
  pub is_running : Bool

-- `status`: the process has ended well, with another code, or could not be waited for.
pub data ExitStatus : Type 0 where
  succeeded : ExitStatus
  exited : (code : Int32) → ExitStatus
  unknown : (error : String) → ExitStatus

abbrev pub is_timed_out : ExecutorSpawnState → Bool
is_timed_out timed_out = true
is_timed_out _ = false

-- The task that waits for the end of a process.
unfoldable pub forget_process : String → Map ExecutorState → Map ExecutorState
forget_process name m =
    if is_timed_out (state_at name m)
    then Map.modify name (λ e. record e { pid = none }) m
    else Map.remove name m

module _ {N F : Type 0} where
  unfoldable pub exit_commands : Process → ExitStatus → List (SchedulerCommand N F)
  exit_commands p succeeded = []
  exit_commands p (exited code) = executor_exit p.executor_bin (some p.identifier) code none ∷ []
  exit_commands p (unknown e) =
      executor_exit p.executor_bin (some p.identifier) (neg 0) (some e) ∷ []

  -- The task that looks after five seconds whether the executor is ready.
  unfoldable pub timer_commands : SpawnTimer → Map ExecutorState → List (SchedulerCommand N F)
  timer_commands t m =
      if is_spawned (Map.get t.map_name m)
      then spawn_executor_timeout t.executor_bin t.pkg_path (some t.identifier) ∷ []
      else []

  -- Only the scheduler tells itself of executors.
  abbrev pub IsFromOutside : SchedulerCommand N F → Type 0
  IsFromOutside (executor_exit x i c r) = ⊥
  IsFromOutside (spawn_executor_timeout x p i) = ⊥
  IsFromOutside _ = Unit

  abbrev pub cleared : State N F → State N F
  cleared s = record s { queued = []; sent = [] }

  unfoldable pub absorb : World N F → List (SchedulerCommand N F) → Bool → State N F → World N F
  unfolding processes_of timers_of waits_of
  absorb w rest goes_on s = record {
    state = s;
    channel = rest ++ s.queued;
    processes = w.processes ++ processes_of s.sent;
    timers = w.timers ++ timers_of s.sent;
    waits = w.waits ++ waits_of s.sent;
    is_running = goes_on;
  }

  unfoldable pub after_handle : World N F → List (SchedulerCommand N F) → Loop N F → World N F
  unfolding absorb
  after_handle w rest (running s) = absorb w rest true s
  after_handle w rest (stopped s) = absorb w rest false s

  module _ (session : Session) where
    pub data Step (w : World N F) : World N F → Type 0 where
      post :
          (c : SchedulerCommand N F)
          → IsFromOutside c
          → Step w (record w { channel = w.channel ++ c ∷ [] })
      take :
          (out : Outside) (c : SchedulerCommand N F) (rest : List (SchedulerCommand N F))
          → w.is_running ≡ true
          → w.channel ≡ c ∷ rest
          → Step w (after_handle w rest (handle session out c (cleared w.state)))
      exit :
          (before : List Process) (p : Process) (after : List Process) (status : ExitStatus)
          → w.processes ≡ before ++ p ∷ after
          → Step w (record w {
            state = record w.state {
              executor_map = forget_process p.map_name w.state.executor_map;
            };
            processes = before ++ after;
            channel = w.channel ++ exit_commands p status;
          })
      spawn_timeout :
          (before : List SpawnTimer) (t : SpawnTimer) (after : List SpawnTimer)
          → w.timers ≡ before ++ t ∷ after
          → Step w (record w {
            timers = before ++ after;
            channel = w.channel ++ timer_commands t w.state.executor_map;
          })
      listener_wait :
          (before : List String) (job : String) (after : List String)
          → w.waits ≡ before ++ job ∷ after
          → Step w (record w {
            waits = before ++ after;
            channel = w.channel ++ receive (some (listener_timeout session.id job)) ∷ [];
          })

    pub data Reach (w : World N F) : World N F → Type 0 where
      here : Reach w w
      next : {u v : World N F} → Reach w u → Step u v → Reach w v

  -- `create`
  abbrev pub start : World N F
  start = record {
    state = record {
      subscribers = [];
      running_blocks = [];
      executor_map = [];
      queued = [];
      sent = [];
    };
    channel = [];
    processes = [];
    timers = [];
    waits = [];
    is_running = true;
  }
