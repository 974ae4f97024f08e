-- ===== src/Lib.antt =====
-- oocana runs flows: graphs of nodes whose blocks are tasks, services, subflows or conditions. A
-- manifest says which output of a node feeds which input. The library manifest_reader reads it,
-- manifest_meta turns it into a flow with its connections, and runtime runs the flow: it delivers
-- the values that blocks produce to the inputs of other nodes, starts a job for a node whose inputs
-- have values, and tells its parent when the flow has ended.
--
-- The parts, and the files that model them (paths are those of the repository):
--
-- - Json: serde_json::Value. Its numbers and its equality are parameters.
-- - Output: utils/src/output.rs, OutputValue, and which values may be cached.
-- - Condition, Condition/Operator: manifest_reader/src/manifest/block/condition.rs
--   (compare_values, is_match) and manifest_meta/src/condition.rs (evaluate).
-- - Manifest: manifest_reader/src/manifest/block/handle.rs, node/input_from.rs and node/value.rs.
-- - Node: manifest_meta/src/node/common.rs and definition.rs. Of the five kinds of nodes the
--   common fields are kept, and of a condition its block.
-- - Connections: manifest_meta/src/connections.rs. Connections/Parse has parse_node_inputs_from,
--   parse_slot_inputs_from and parse_flow_outputs_from; Connections/Origins has the calls of them
--   in SubflowBlock::from_manifest (manifest_meta/src/flow.rs).
-- - Subflow: SubflowBlock of manifest_meta/src/flow.rs. Generate: generate_node_inputs with its
--   helpers, merge_input_values and update_flow_inputs_tos of the same file; Generate/Rules says where
--   the value of an input comes from.
-- - InputValues: runtime/src/flow_job/node_input_values.rs, NodeInputValues with `insert`,
--   `is_node_fulfill`, `node_pending_fulfill` and the others; InputValues/Take has `take`.
-- - RunToNode: runtime/src/flow_job/run_to_node.rs. Upstream: runtime/src/flow_job/upstream.rs.
-- - Request: runtime/src/block_job/input.rs and parse_run_block_request of
--   runtime/src/flow_job/block_request.rs, as far as the inputs of the job go. jsonschema and the
--   reading of a handle by serde are parameters.
-- - Scope: manifest_meta/src/scope.rs, the scope of task nodes in manifest_meta/src/flow.rs, and the
--   scope of a job in run_node of runtime/src/flow_job/flow.rs. Scope/Rules says where a task belongs.
-- - Progress: the estimate of the progress in runtime/src/flow_job/flow.rs.
-- - Flow: runtime/src/flow_job/flow.rs. The state is RunFlowContext with what the task of the flow
--   keeps beside it; what the flow sends to jobs, reporter, scheduler and parent is a list of
--   messages in the order of sending. Flow/Run has run_node and run_pending_node, Flow/Produce
--   produce_new_value, Flow/Events the loop over the statuses of the jobs, Flow/Start
--   execute_flow_job. Flow/Rules and Flow/Rounds have the rule that carries an invariant through
--   every round of the loop; the invariants stand in the files named for them.
-- - Message, Scheduler: mainframe/src/scheduler.rs. Between the jobs and the executors, which are
--   processes of their own, stands the scheduler: a loop over the commands of one channel
--   (SchedulerRx::event_loop). Message has ReceiveMessage; Scheduler/Names the names of executors,
--   Scheduler/Executor query_executor_state and spawn_executor, Scheduler/Blocks the commands that
--   run a block, Scheduler/Events those for the ends of executors and their messages, Scheduler/Loop
--   the loop, Scheduler/Client SchedulerTx. Scheduler/World adds what runs beside the loop: the
--   processes, the tasks that wait for them, and the timers, as a step relation whose steps may come
--   in any order. Scheduler/Rules, Scheduler/Quiet and Scheduler/Kept have the rule by which every
--   command keeps what holds of the map of executors; the theorems stand in the other files.
-- - Listener: runtime/src/block_job/listener.rs, the listener of a job: is_json_serializable and
--   listen_to_worker_messages.
-- - Handshake: the scheduler and a listener together, from the start of an executor to its block.
-- - Layer: layer/src. Layer has the disk, the errors and PackageLayer (package_layer.rs), Layer/Stores
--   the two stores of packages (package_store.rs, external_layer_store.rs), Layer/Migrate the move of
--   a package from one to the other (package_layer.rs), Layer/Delete delete_external_layer,
--   Layer/Status the status of a package. Each access to the world outside may fail;
--   Layer/Endings and Layer/Loading have rules for what the accesses leave behind.
-- - Base: std's Option, Vec, HashMap (an association list: any order of iteration) and HashSet.
-- - Samples: concrete flows on which the theorems are applied.
--
-- The statuses that jobs send are a list, so that a theorem about every list is one about every
-- interleaving of the jobs. A `usize` has 64 bits; `i32 as usize` wraps. Values are shared by `Arc`
-- and never changed, so that aliasing does not matter. Strings are compared by `==`.
--
-- The search of calc_node_deps has fuel: one more than the number of nodes. It is enough since each
-- call adds a node of the flow to the set of those seen. The reads of the external store are tried
-- five times, as in the code. The loops over lists are structural. Between two commands of the
-- scheduler its own tasks may change the map of executors, as steps of Scheduler/World; while it
-- handles a command none of them does.
--
-- Parameters: the random ids of jobs, whether `run_job` gives a handle, the answers to requests for
-- blocks and for authorisation, the weight of a node, f32 and f64, the existence of files, whether
-- the process of an executor starts and its scope gets a layer, which channels have a receiver, the
-- hash that identifies a scope, the texts of errors, and how the accesses to files and to ovmlayer
-- end.
--
-- Not modelled: caches on disk, MQTT, HTTP, the command lines and environments of processes, the
-- creation of layers, delete_package_layer, injections, search paths, and of run_node the
-- parameters of a job. Error stacks and log messages are left out. The writer of the external
-- store is alone, as its file says it must be; the rename of a store under its old name,
-- package_store.json, is left out.
pub mod Base
pub mod Json
pub mod Output
pub mod Condition
pub mod Manifest
pub mod Node
pub mod InputValues
pub mod Connections
pub mod Subflow
pub mod Generate
pub mod Request
pub mod Scope
pub mod RunToNode
pub mod Upstream
pub mod Progress
pub mod Flow
pub mod Samples
pub mod Message
pub mod Scheduler
pub mod Listener
pub mod Handshake
pub mod Layer
