-- ===== src/Message.antt =====
-- mainframe/src/scheduler.rs: the messages that executors send to the scheduler, and those that the
-- scheduler sends to the listeners of jobs.
use oocana_rust.Base.{String, Option, none, some, ◌==◌, if◌then◌else◌}
use oocana_rust.Base.Map.{Map}
use oocana_rust.Json.{Json}
use oocana_rust.Node.{Int32}
use oocana_rust.Flow.{
  OutputOptions, BlockRequest, run_block, query_block, query_downstream, preview, query_auth,
  update_node_weight,
}

-- A request of a block stands beside its session.
pub data ReceiveMessage (N F : Type 0) : Type 0 where
  block_ready : (session_id job_id : String) → ReceiveMessage N F
  block_output :
      (session_id job_id handle : String)
      → (output : Json N) → Option OutputOptions
      → ReceiveMessage N F
  block_outputs : (session_id job_id : String) → (outputs : Map (Json N)) → ReceiveMessage N F
  block_error : (session_id job_id error : String) → ReceiveMessage N F
  block_progress : (session_id job_id : String) → (progress : F) → ReceiveMessage N F
  block_finished :
      (session_id job_id : String)
      → (result : Option (Map (Json N))) → (error : Option String) → ReceiveMessage N F
  executor_ready :
      (session_id executor_name : String)
      → (pkg_path identifier : Option String) → ReceiveMessage N F
  block_request : (session_id : String) → BlockRequest N F → ReceiveMessage N F
  executor_timeout :
      (session_id executor_name : String)
      → (pkg_path identifier : Option String) → ReceiveMessage N F
  executor_exit :
      (session_id executor_name : String)
      → (code : Int32) → (reason : Option String) → ReceiveMessage N F
  listener_timeout : (session_id job_id : String) → ReceiveMessage N F

module _ {N F : Type 0} where
  unfoldable pub request_job_id : BlockRequest N F → String
  request_job_id (run_block j r b p) = j
  request_job_id (query_block j r b) = j
  request_job_id (query_downstream j r outputs) = j
  request_job_id (preview j r p) = j
  request_job_id (query_auth j r p) = j
  request_job_id (update_node_weight j r n w) = j

  unfoldable pub session_id : ReceiveMessage N F → String
  session_id (block_ready s j) = s
  session_id (block_output s j h v o) = s
  session_id (block_outputs s j vs) = s
  session_id (block_error s j e) = s
  session_id (block_progress s j p) = s
  session_id (block_finished s j r e) = s
  session_id (executor_ready s x p i) = s
  session_id (block_request s r) = s
  session_id (executor_timeout s x p i) = s
  session_id (executor_exit s x c r) = s
  session_id (listener_timeout s j) = s

  unfoldable pub job_id : ReceiveMessage N F → Option String
  unfolding request_job_id
  job_id (block_ready s j) = some j
  job_id (block_output s j h v o) = some j
  job_id (block_outputs s j vs) = some j
  job_id (block_error s j e) = some j
  job_id (block_progress s j p) = some j
  job_id (block_finished s j r e) = some j
  job_id (block_request s r) = some (request_job_id r)
  job_id (executor_ready s x p i) = none
  job_id (executor_timeout s x p i) = none
  job_id (executor_exit s x c r) = none
  job_id (listener_timeout s j) = some j

  -- `data` is what serde_json::from_slice makes of the bytes.
  unfoldable pub parse_worker_message :
      (received : Option (ReceiveMessage N F)) → String → Option (ReceiveMessage N F)
  unfolding session_id
  parse_worker_message none s = none
  parse_worker_message (some msg) s = if session_id msg == s then some msg else none
