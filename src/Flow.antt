-- ===== src/Flow.antt =====
-- runtime/src/flow_job/flow.rs: the run of a flow. This file has its state, what it sends, and what
-- it asks of the rest of the runtime; the children have its steps.
pub mod Run
pub mod Produce
pub mod Events
pub mod Start
pub mod Cases
pub mod Rules
pub mod Rounds
pub mod Concurrency
pub mod Sent
pub mod Limits
pub mod Ending
pub mod Leftover
pub mod LostPlace
pub mod Stuck
pub mod Waiting
pub mod Whole
pub mod Limited
use oocana_rust.Base.{ℕ, String, Bool, true, false, Option, none, some, List, [], ◌∷◌, ◌++◌}
use oocana_rust.Base.Map.{Map}
use oocana_rust.Base.StringSet.{StringSet}
use oocana_rust.Json.{Json}
use oocana_rust.Output.{OutputValue}
use oocana_rust.Node.{Node}
use oocana_rust.InputValues.{NodeInputValues, InputValues}
use oocana_rust.Progress.{Floats, FlowProgress}

-- mainframe/src/scheduler.rs: where an output is to go, if it is not to go everywhere.
pub record ToNodeInput : Type 0 where
  pub node_id : String
  pub input_handle : String

pub record ToFlowOutput : Type 0 where
  pub output_handle : String

pub record OutputTarget : Type 0 where
  pub to_node : Option (List ToNodeInput)
  pub to_flow : Option (List ToFlowOutput)

pub record OutputOptions : Type 0 where
  pub target : Option OutputTarget

-- The jobs of a node that run, and as many random ids as jobs wait for a place.
pub record NodeQueue : Type 0 where
  pub jobs : StringSet
  pub pending : StringSet

abbrev pub empty_queue : NodeQueue
empty_queue = record { jobs = []; pending = [] }

-- mainframe/src/scheduler.rs: the requests of a block. `payload` and `outputs` are kept, of a
-- RunBlockRequest what identifies it.
pub data BlockRequest (N F : Type 0) : Type 0 where
  run_block : (job_id request_id block : String) → Json N → BlockRequest N F
  query_block : (job_id request_id block : String) → BlockRequest N F
  query_downstream : (job_id request_id : String) → Option (List String) → BlockRequest N F
  preview : (job_id request_id : String) → Json N → BlockRequest N F
  query_auth : (job_id request_id : String) → Json N → BlockRequest N F
  update_node_weight : (job_id request_id node_id : String) → F → BlockRequest N F

-- runtime/src/block_status.rs: what the jobs of a flow tell it.
pub data Status (N F : Type 0) : Type 0 where
  output : (job_id : String) → OutputValue N → (handle : String) → Option OutputOptions → Status N F
  outputs : (job_id : String) → InputValues N → Status N F
  progress : (job_id : String) → F → Status N F
  request : BlockRequest N F → Status N F
  done : (job_id : String) → Option (InputValues N) → (error : Option String) → Status N F
  error : String → Status N F

-- What the run of a flow sends: it starts jobs, writes its cache, tells its reporter and its parent.
pub data Message (N F : Type 0) : Type 0 where
  start_job : (node_id job_id : String) → Option (InputValues N) → Message N F
  save_cache : Message N F
  report_output : OutputValue N → (handle : String) → Message N F
  parent_output : OutputValue N → (handle : String) → Message N F
  report_progress : F → Message N F
  parent_progress : F → Message N F
  report_previews : (node_id : String) → Json N → Message N F
  parent_request : BlockRequest N F → Message N F
  respond :
      (job_id request_id : String)
      → (result : Option (Json N)) → (error : Option String) → Message N F
  report_done : (error : Option String) → Message N F
  parent_finish : (error : Option String) → Message N F
  parent_error : String → Message N F

-- The answer to a request: a value, or a message.
pub data Answer (A : Type 0) : Type 0 where
  answered : A → Answer A
  refused : String → Answer A

-- What became of a job that a block asked for: its id and the id of its node, and whether
-- `execute_task_job` or `execute_flow_job` gave a handle for it.
pub record Requested : Type 0 where
  pub job_id : String
  pub node_id : String
  pub has_handle : Bool

-- The rest of the runtime: the ids that JobId::random gives, whether `run_job` gives a handle, how
-- requests are answered, the weight of a node, whether no flow
-- runs this one, and the arithmetic of f32.
pub record Env (N F : Type 0) : Type 0 where
  pub random : ℕ → String
  pub run_job : Node N → String → Option (InputValues N) → Bool
  pub run_request : String → Json N → Answer Requested
  pub query_request : String → Answer (Json N)
  pub downstream : Option (Node N) → Option (List String) → Answer (Json N)
  pub vault : Option (Json N → Answer (Json N))
  pub weight : Node N → F
  pub is_root : Bool
  pub floats : Floats F

-- RunFlowContext, with the count of random ids drawn, the progress, and what has been sent so far.
pub record Context (N F : Type 0) : Type 0 where
  pub node_input_values : NodeInputValues N
  pub jobs : Map String
  pub node_queue_pool : Map NodeQueue
  pub drawn : ℕ
  pub progress : FlowProgress F
  pub sent : List (Message N F)

module _ {N F : Type 0} where
  -- The messages stand in the order in which they are sent.
  unfoldable pub send : Message N F → Context N F → Context N F
  send m ctx = record ctx { sent = ctx.sent ++ m ∷ [] }
