-- ===== src/Samples/Executors.antt =====
-- A session whose executor `python` is started, is late, ends or cannot be started.
use oocana_rust.Base.{ℕ, true, false, none, some, List, [], ◌∷◌, ◌≡◌, refl, inl, if◌then◌else◌}
use oocana_rust.Base.Map
use oocana_rust.Base.Map.{Map}
use oocana_rust.Node.{neg}
use oocana_rust.Samples.Scopes.{workspace}
use oocana_rust.Message.{block_ready}
use oocana_rust.Scheduler.{
  timed_out, SchedulerCommand, execute_block, execute_service_block, default_state, spawn_timer,
  receive, Outside, Session, State, worked, failed,
}
use oocana_rust.Scheduler.Names.{
  executor_bin, trim_executor_suffix, executor_map_name_from_parts, generate_executor_map_name,
  executor_bin_roundtrip,
}
use oocana_rust.Scheduler.Executor.{map_name, state_at}
use oocana_rust.Scheduler.Loop.{handle, running, run}
use oocana_rust.Scheduler.Events.{on_executor_exit}
use oocana_rust.Scheduler.World.{World, Reach, here, next, post, take, start, after_handle, cleared}
use oocana_rust.Scheduler.TimedOut.{HasTimedOut, refused_block}
use oocana_rust.Scheduler.Refused.{timed_out_block_fails}
use oocana_rust.Scheduler.Blocks.{lost_executor, note_running}
use oocana_rust.Scheduler.Unstarted.{failed_start_blocks}
use oocana_rust.Scheduler.Processes.{WorldIsConsistent, one_process_each}
use oocana_rust.Scheduler.Ends.{EndsJob, SparesJob, is_running_on, exit_ends_jobs}
use oocana_rust.Scheduler.Routing.{LoopRouted}
use oocana_rust.Scheduler.Routed.{handle-IsRouted}

abbrev pub sample : Session
sample = record {
  id = "s";
  identifier = λ scope. scope.path;
  exit_text = λ executor code. "exit";
  timeout_text = λ executor pkg_path identifier. "timeout";
  start_text = λ executor identifier. "late";
}

abbrev pub all_works : Outside
all_works = record {
  layer = worked "/layer";
  debug_port = worked tt;
  process = worked (some 7);
  has_receiver = λ x. true;
}

abbrev no_process : Outside
no_process = record all_works { process = failed "not found" }

abbrev run_it : SchedulerCommand ℕ ℕ
run_it = execute_block "job" "python" workspace

-- The job has a listener and runs.
abbrev pub working : State ℕ ℕ
working = record {
  subscribers = ("job", 1) ∷ [];
  running_blocks = ("job", record { executor_name = "python"; identifier = "/workspace" }) ∷ [];
  executor_map = [];
  queued = [];
  sent = [];
}

abbrev posted : World ℕ ℕ
posted = record start { channel = run_it ∷ [] }

abbrev taken : World ℕ ℕ
taken = after_handle posted [] (handle sample all_works run_it (cleared posted.state))

taken-Reach : Reach sample start taken
taken-Reach = next (next here (post run_it tt)) (take all_works run_it [] refl refl)

one_process_each_example : WorldIsConsistent taken
one_process_each_example = one_process_each sample taken-Reach

working-IsDistinct : Map.IsDistinct working.running_blocks
unfolding Map.get
working-IsDistinct = (refl, tt)

exit_ends_jobs_example :
    let t =
      on_executor_exit sample all_works "python"
        (some "/workspace")
        (neg 0)
        (some "gone")
        working in
    (t.subscribers ≡ working.subscribers)
    × (t.executor_map ≡ working.executor_map)
    × (if is_running_on "python" (some "/workspace") working.running_blocks "job"
        then EndsJob sample all_works "gone" "job" working t
        else SparesJob sample all_works "gone" "job" working t)
exit_ends_jobs_example =
    exit_ends_jobs sample all_works "python" (some "/workspace") (neg 0) (some "gone") working
      working-IsDistinct "job"

handle-IsRouted_example : LoopRouted sample working.subscribers (
    handle sample all_works (receive (some (block_ready "s" "job"))) (record working { sent = [] }))
handle-IsRouted_example =
    handle-IsRouted sample all_works (receive (some (block_ready "s" "job"))) working

abbrev late : World ℕ ℕ
late = record start {
  state = record start.state {
    executor_map = ("python-/workspace", record { spawn_state = timed_out; pid = none }) ∷ [];
  };
}

late-HasTimedOut : HasTimedOut (map_name sample "python" workspace) late.state.executor_map
unfolding state_at Map.get generate_executor_map_name
late-HasTimedOut = refl

job_runs :
    Map.get "job" working.running_blocks
    ≡ some (record { executor_name = "python"; identifier = sample.identifier workspace })
unfolding Map.get
job_runs = refl

timed_out_block_fails_example :
    (handle sample all_works (execute_block "job" "python" workspace) (cleared late.state)
      ≡ running
          (refused_block sample all_works "job" "python" workspace "late" (cleared late.state)))
    × (handle sample all_works (execute_service_block "job" "python" workspace) (cleared late.state)
        ≡ running
            (refused_block sample all_works "job" "python" workspace "late" (cleared late.state)))
    × ((u : State ℕ ℕ) × (handle sample all_works
            (lost_executor sample all_works "python" workspace "late")
            working
          ≡ running u)
        × EndsJob sample all_works "late" "job" working u)
timed_out_block_fails_example =
    timed_out_block_fails sample {w = late} {v = late} "job" "python" workspace all_works all_works
      working late-HasTimedOut here working-IsDistinct job_runs

pub not_started : Map.contains_key (map_name sample "python" workspace) working.executor_map ≡ false
unfolding Map.get
not_started = refl

-- The loop after the failed start, and after the end of the job.
abbrev waiting : State ℕ ℕ
waiting = record working {
  executor_map = ("python-/workspace", default_state) ∷ [];
  queued = lost_executor sample no_process "python" workspace "not found" ∷ [];
  sent = spawn_timer "python-/workspace" "python-executor" none "/workspace" ∷ [];
}

abbrev over : State ℕ ℕ
over =
    on_executor_exit sample all_works "python" (some "/workspace") (neg 0) (some "not found")
      waiting

abbrev end_of_job : List (Outside × SchedulerCommand ℕ ℕ)
end_of_job = (all_works, lost_executor sample no_process "python" workspace "not found") ∷ []

start_failed : run sample end_of_job (handle sample no_process run_it working) ≡ running over
unfolding run handle Map.get Map.insert generate_executor_map_name
start_failed = refl

failed_start_blocks_example :
    (t : State ℕ ℕ) × (handle sample no_process run_it working ≡ running t)
    × (t.queued ≡ lost_executor sample no_process "python" workspace "not found" ∷ [])
    × (handle sample all_works (execute_block "next" "python" workspace) over
        ≡ running (note_running sample all_works "next" "python" workspace over))
failed_start_blocks_example =
    failed_start_blocks sample no_process "job" "python" workspace "not found" working end_of_job
      over all_works "next" (inl refl) refl refl not_started (tt, tt) start_failed (inl refl)

executor_bin_roundtrip_example :
    (trim_executor_suffix (executor_bin "python") ≡ "python")
    × (executor_map_name_from_parts (executor_bin "python") (some "/workspace")
        ≡ generate_executor_map_name "python" "/workspace")
executor_bin_roundtrip_example = executor_bin_roundtrip "python" "/workspace"
