-- ===== src/Listener.antt =====
-- runtime/src/block_job/listener.rs: the listener of a job, which turns the messages that the
-- scheduler passes to it into statuses for the flow, reports, and commands to the scheduler.
pub mod Values
pub mod Statuses
pub mod Inputs
use oocana_rust.Base.{
  String, Bool, true, false, not, ◌&&◌, ◌||◌, Option, none, some, List, [], ◌∷◌, ◌++◌, map,
  if◌then◌else◌, ◌==◌, ◌>>=◌, is_none_or, is_some_and, unwrap_or, map_option, map_or, for_each,
}
use oocana_rust.Base.Map
use oocana_rust.Base.Map.{Map}
use oocana_rust.Json
use oocana_rust.Json.{Json, Members, str, boolean, number, object, as_object}
use oocana_rust.Output.{OutputValue, oomol_type_key}
use oocana_rust.Manifest.{OutputHandle}
use oocana_rust.InputValues.{InputValues}
use oocana_rust.Scope.{RuntimeScope}
use oocana_rust.Flow.{Status, output, outputs, progress, request, done, BlockRequest, preview}
use oocana_rust.Message.{
  ReceiveMessage, block_ready, block_output, block_outputs, block_error, block_progress,
  block_finished, executor_ready, block_request, listener_timeout,
}
use oocana_rust.Scheduler.{SchedulerCommand, send_inputs}
use oocana_rust.Scheduler.Client.{SchedulerTx, send_to_executor, send_to_service}

abbrev pub OutputHandles : Type 0 → Type 0
OutputHandles N = Map (OutputHandle N)

module _ {N : Type 0} where
  unfoldable pub is_basic : Json N → Bool
  is_basic (boolean b) = true
  is_basic (number n) = true
  is_basic (str s) = true
  is_basic _ = false

  unfoldable pub is_media_serializable : Json N → Json N → Bool
  unfolding is_basic
  is_media_serializable value (str t) =
      if t == "oomol/var"
      then is_basic value
      else if t == "oomol/bin" || t == "oomol/secret"
      then false
      else true
  is_media_serializable value media_type = true

  unfoldable pub is_schema_serializable : Json N → Json N → Option Bool
  unfolding is_media_serializable Json.get
  is_schema_serializable value (object obj) =
      map_option (is_media_serializable value) (Json.get "contentMediaType" obj)
  is_schema_serializable value schema = some true

  abbrev pub has_type_key : Json N → Bool
  has_type_key value =
      is_some_and (as_object value) (λ obj. is_some_and (Json.get oomol_type_key obj) (λ _. true))

  unfoldable pub is_json_serializable : String → Json N → Option (OutputHandles N) → Bool
  unfolding is_schema_serializable as_object Json.get
  is_json_serializable handle value outputs_def =
      if has_type_key value
      then false
      else unwrap_or
          (outputs_def >>= λ defs.
            Map.get handle defs >>= λ d. d.json_schema >>= is_schema_serializable value)
          true

  unfoldable pub output_value : Option (OutputHandles N) → String → Json N → OutputValue N
  output_value outputs_def handle value = record {
    value = value;
    is_json_serializable = is_json_serializable handle value outputs_def;
  }

  -- The values of several outputs, put into a new map one after the other.
  unfoldable pub output_map : Option (OutputHandles N) → Map (Json N) → InputValues N
  unfolding output_value for_each
  output_map outputs_def vs =
      for_each (λ p m. Map.insert p.0 (output_value outputs_def p.0 p.1) m) vs []

abbrev pub is_own_executor : String → Option String → Bool
is_own_executor executor_name own = is_some_and own (λ x. x == executor_name)

-- Of ListenerParameters, with the scope that listen_to_worker calculates. What is only passed on to
-- the executor or names the reporter is left out.
pub record ListenerParameters (N : Type 0) : Type 0 where
  pub job_id : String
  pub scheduler_tx : SchedulerTx
  pub outputs_def : Option (OutputHandles N)
  pub executor : Option String
  pub service : Option String
  pub scope : RuntimeScope
  pub block_scope : RuntimeScope

-- What the listener tells: commands to the scheduler, statuses to the flow, and reports.
pub data Told (N F : Type 0) : Type 0 where
  command : SchedulerCommand N F → Told N F
  status : Status N F → Told N F
  report_outputs : Map (Json N) → Told N F
  report_output : Json N → (handle : String) → Told N F
  report_finished : Option (Map (Json N)) → (error : Option String) → Told N F
  report_error : String → Told N F
  report_preview : Json N → Told N F

-- The variables of the loop, with what it has told so far.
pub record ListenerState (N F : Type 0) : Type 0 where
  pub inputs : Option (InputValues N)
  pub has_executor_response : Bool
  pub told : List (Told N F)

module _ {N F : Type 0} where
  unfoldable pub tell : List (Told N F) → ListenerState N F → ListenerState N F
  tell ts s = record s { told = s.told ++ ts }

  module _ (identifier : RuntimeScope → String) (params : ListenerParameters N) where
    unfoldable pub run_block : Option String → Option String → List (Told N F)
    unfolding send_to_executor send_to_service
    run_block (some executor) service =
        command (send_to_executor params.scheduler_tx executor params.job_id params.scope) ∷ []
    run_block none (some service) =
        command (send_to_service params.scheduler_tx service params.job_id params.scope) ∷ []
    run_block none none = []

    unfoldable pub on_executor_ready : String → Option String → List (Told N F)
    unfolding run_block
    on_executor_ready executor_name id =
        if is_none_or id (λ i. not (i == identifier params.block_scope))
        then []
        else map_or params.executor
            (if is_own_executor executor_name params.service
              then run_block none params.service
              else [])
            (λ executor. if executor == executor_name then run_block (some executor) none else [])

    unfoldable pub on_block_finished :
        String → Option (Map (Json N)) → Option String → List (Told N F)
    unfolding output_map
    on_block_finished job_id result (some e) =
        status (done job_id none (some e)) ∷ report_finished none (some e) ∷ []
    on_block_finished job_id (some result) none =
        report_finished (some result) none
        ∷ status (done job_id (some (output_map params.outputs_def result)) none)
        ∷ []
    on_block_finished job_id none none =
        report_finished none none ∷ status (done job_id none none) ∷ []

    unfoldable pub on_block_request : BlockRequest N F → List (Told N F)
    on_block_request (preview job_id request_id payload) =
        report_preview payload ∷ status (request (preview job_id request_id payload)) ∷ []
    on_block_request r = status (request r) ∷ []

    unfoldable pub on_message : ReceiveMessage N F → ListenerState N F → ListenerState N F
    unfolding tell run_block on_executor_ready on_block_finished on_block_request output_map
        output_value
    on_message (executor_ready sid executor_name pkg_path id) s =
        tell (on_executor_ready executor_name id) s
    on_message (block_progress sid job p) s = tell (status (progress job p) ∷ []) s
    on_message (block_ready sid job) s = record s {
      inputs = none;
      has_executor_response = true;
      told = s.told ++ command (send_inputs job s.inputs) ∷ [];
    }
    on_message (listener_timeout sid job) s =
        if s.has_executor_response || not (params.job_id == job)
        then s
        else tell (run_block params.executor params.service) s
    on_message (block_outputs sid job vs) s =
        tell (status (outputs job (output_map params.outputs_def vs)) ∷ report_outputs vs ∷ []) s
    on_message (block_output sid job handle value options) s =
        tell
          (report_output value handle
            ∷ status (output job (output_value params.outputs_def handle value) handle options)
            ∷ [])
          s
    on_message (block_finished sid job result error) s = tell (on_block_finished job result error) s
    on_message (block_error sid job error) s = tell (report_error error ∷ []) s
    on_message (block_request sid r) s = tell (on_block_request r) s
    on_message msg s = s

    unfoldable pub listen : List (ReceiveMessage N F) → ListenerState N F → ListenerState N F
    unfolding on_message for_each
    listen msgs s = for_each on_message msgs s
