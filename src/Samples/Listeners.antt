-- ===== src/Samples/Listeners.antt =====
-- The listener of a job of executor `python`, and what executors tell it.
use oocana_rust.Base.{ℕ, ◌+◌, false, none, some, List, [], ◌∷◌, ◌++◌, ◌≡◌, refl, inl, count_if}
use oocana_rust.Base.Map
use oocana_rust.Base.Map.{Map}
use oocana_rust.Json.{Json, number, str, object, member, end}
use oocana_rust.Output.{maybe_serializable}
use oocana_rust.Message.{ReceiveMessage, block_ready, block_finished, executor_ready}
use oocana_rust.Scheduler.{SchedulerCommand, receive, State, run_block, listener_timer}
use oocana_rust.Scheduler.Names.{strip_suffix, executor_suffix}
use oocana_rust.Scheduler.Loop.{handle, running}
use oocana_rust.Scheduler.Client.{SchedulerTx, calculate_scope, send_to_executor}
use oocana_rust.Listener.{
  OutputHandles, ListenerParameters, ListenerState, command, tell, output_value, on_message, listen,
}
use oocana_rust.Listener.Values.{schema_without_effect}
use oocana_rust.Listener.Statuses.{is_done, is_finish, done_as_finished}
use oocana_rust.Listener.Inputs.{handed_out, once, is_ready, inputs_once}
use oocana_rust.Scheduler.Broadcast.{Gets}
use oocana_rust.Handshake.{Starts, first_block_runs}
use oocana_rust.Samples.Scopes.{workspace}
use oocana_rust.Samples.Executors.{sample, all_works, working, not_started}

-- A value, and an output whose schema says that it is a secret.
abbrev plain : Json ℕ
plain = str "x"

abbrev secret_schema : Json ℕ
secret_schema = object (member "contentMediaType" (str "oomol/secret") end)

abbrev secret_def : OutputHandles ℕ
secret_def =
    (
      "out",
      record {
        handle = "out";
        description = none;
        json_schema = some secret_schema;
        kind = none;
        nullable = none;
        is_additional = false;
        serialize_for_cache = false;
      },
    )
    ∷ []

schema_without_effect_example :
    maybe_serializable (output_value (some secret_def) "out" plain)
    ≡ maybe_serializable (output_value none "out" plain)
schema_without_effect_example = schema_without_effect "out" plain (some secret_def)

abbrev channel : SchedulerTx
channel = record { default_package = none; exclude_packages = none; data_dir = "/data" }

abbrev params : ListenerParameters ℕ
params = record {
  job_id = "job";
  scheduler_tx = channel;
  outputs_def = some secret_def;
  executor = some "python";
  service = none;
  scope = workspace;
  block_scope = workspace;
}

abbrev waits : ListenerState ℕ ℕ
waits = record { inputs = some []; has_executor_response = false; told = [] }

abbrev two_runs : List (ReceiveMessage ℕ ℕ)
two_runs =
    block_ready "s" "job"
    ∷ block_ready "s" "job"
    ∷ block_finished "s" "job" (some (("out", number 3) ∷ [])) none
    ∷ []

done_as_finished_example :
    count_if (is_done "job" false) (listen sample.identifier params two_runs waits).told
    ≡ count_if (is_done "job" false) waits.told + count_if (is_finish "job" false) two_runs
done_as_finished_example = done_as_finished sample.identifier params two_runs waits "job" false

inputs_once_example :
    handed_out (listen sample.identifier params two_runs waits).told
    ≡ handed_out waits.told ++ once (count_if is_ready two_runs) waits.inputs
inputs_once_example = inputs_once sample.identifier params two_runs waits

plain_name : strip_suffix "python" executor_suffix ≡ none
unfolding strip_suffix
plain_name = refl

own_scope : calculate_scope channel workspace ≡ workspace
unfolding calculate_scope
own_scope = refl

job_listens : Map.get "job" working.subscribers ≡ some 1
unfolding Map.get
job_listens = refl

abbrev awake : ReceiveMessage ℕ ℕ
awake = executor_ready "s" "python" none (some "/workspace")

abbrev asks : SchedulerCommand ℕ ℕ
asks = send_to_executor channel "python" "job" workspace

first_block_runs_example :
    (t : State ℕ ℕ) × (u : State ℕ ℕ) × (v : State ℕ ℕ) × (handle sample all_works asks working
      ≡ running t)
    × Starts sample "python" workspace working.sent t.sent
    × (handle sample all_works (receive (some awake)) t ≡ running u)
    × Gets 1 awake u.sent
    × (on_message sample.identifier params awake waits ≡ tell (command asks ∷ []) waits)
    × (handle sample all_works asks u ≡ running v)
    × (v.sent ≡ u.sent ++ run_block "python" "job" "/workspace" ∷ listener_timer "job" ∷ [])
first_block_runs_example =
    first_block_runs sample params all_works all_works all_works "python" none (some 7) 1 working
      waits refl plain_name own_scope (inl refl) refl refl not_started job_listens refl
