-- ===== src/Flow/Events.antt =====
-- runtime/src/flow_job/flow.rs: the loop that receives the statuses of the jobs of a flow.
use oocana_rust.Base.{
  String, Bool, true, false, Option, none, some, List, [], if◌then◌else◌, ◌>>=◌, unwrap_or, any,
  is_some_and, ◌==◌, for_each,
}
use Prim.Native.String.{◌++◌ as text_append}
use text.Mathlib.Text.{starts_with}
use oocana_rust.Base.Map
use oocana_rust.Base.Map.{Map}
use oocana_rust.Base.StringSet.{StringSet}
use oocana_rust.Json.{Json}
use oocana_rust.Output.{OutputValue}
use oocana_rust.Node.{Node, HandleTo, tos}
use oocana_rust.InputValues.{InputValues}
use oocana_rust.Subflow.{SubflowBlock}
use oocana_rust.Progress.{advance, change_weight}
use oocana_rust.Flow.{
  Env, Context, OutputOptions, Status, output, outputs, progress, request, done, error,
  BlockRequest, run_block, query_block, query_downstream, preview, query_auth, update_node_weight,
  save_cache, report_progress, parent_progress, report_previews, parent_request, respond,
  report_done, parent_finish, parent_error, Answer, answered, refused, Requested, send,
}
use oocana_rust.Flow.Run.{run_pending_node, is_finish}
use oocana_rust.Flow.Produce.{produce_new_value}

-- The loop goes on, or it has ended by `break`.
pub data Loop (N F : Type 0) : Type 0 where
  running : Context N F → Loop N F
  stopped : Context N F → Loop N F

module _ {N F : Type 0} (env : Env N F) (flow : SubflowBlock N) where
  unfoldable pub flow_success : Context N F → Context N F
  unfolding send
  flow_success ctx = send save_cache (send (parent_finish none) (send (report_done none) ctx))

  -- The node of a job that runs.
  unfoldable pub job_node : String → Context N F → Option (Node N)
  job_node job_id ctx = Map.get job_id ctx.jobs >>= λ n. Map.get n flow.nodes

  unfoldable pub report : Option F → Context N F → Context N F
  unfolding send
  report none ctx = ctx
  report (some p) ctx = send (report_progress p) (send (parent_progress p) ctx)

  unfoldable pub on_progress : String → F → Context N F → Context N F
  unfolding job_node report
  on_progress job_id p ctx = elim (Map.get job_id ctx.jobs) [
    | none ↦ ctx
    | some n ↦
        let (moved, reported) = advance env.floats n p false ctx.progress in
        if Map.contains_key n flow.nodes
        then report reported (record ctx { progress = moved })
        else ctx
  ]

  module _ (limit_nodes : Option StringSet) where
    unfoldable pub produce_handle :
        Map (List HandleTo)
        → Option OutputOptions
        → String
        → OutputValue N
        → Context N F
        → Context N F
    unfolding produce_new_value
    produce_handle handle_tos options h v ctx = elim (Map.get h handle_tos) [
      | none ↦ ctx
      | some targets ↦ produce_new_value env flow v targets true limit_nodes options ctx
    ]

    unfoldable pub produce_pair :
        Map (List HandleTo) → String × OutputValue N → Context N F → Context N F
    unfolding produce_handle
    produce_pair handle_tos (h, v) ctx = produce_handle handle_tos none h v ctx

    unfoldable pub produce_values : Node N → InputValues N → Context N F → Context N F
    unfolding produce_pair
    produce_values node values ctx = elim (tos node) [
      | none ↦ ctx
      | some handle_tos ↦ for_each (produce_pair handle_tos) values ctx
    ]

    unfoldable pub on_output :
        String → OutputValue N → String → Option OutputOptions → Context N F → Context N F
    unfolding job_node produce_handle
    on_output job_id v h options ctx = elim (job_node job_id ctx >>= tos) [
      | none ↦ ctx
      | some handle_tos ↦ produce_handle handle_tos options h v ctx
    ]

    unfoldable pub on_outputs : String → InputValues N → Context N F → Context N F
    unfolding job_node produce_values
    on_outputs job_id values ctx = elim (job_node job_id ctx) [
      | none ↦ ctx
      | some node ↦ produce_values node values ctx
    ]

    unfoldable pub answer : String → String → Answer (Json N) → Context N F → Context N F
    unfolding send
    answer job_id request_id (answered v) ctx = send (respond job_id request_id (some v) none) ctx
    answer job_id request_id (refused e) ctx = send (respond job_id request_id none (some e)) ctx

    unfoldable pub add_requested : String → String → Answer Requested → Context N F → Context N F
    unfolding send
    add_requested job_id request_id (refused e) ctx =
        send (respond job_id request_id none (some e)) ctx
    add_requested job_id request_id (answered r) ctx =
        if r.has_handle then record ctx { jobs = Map.insert r.job_id r.node_id ctx.jobs } else ctx

    unfoldable pub forward_preview : String → String → Json N → Context N F → Context N F
    unfolding send
    forward_preview job_id request_id payload ctx = elim (Map.get job_id ctx.jobs) [
      | none ↦ ctx
      | some n ↦
          if is_some_and flow.forward_previews (λ p. any (λ x. x == n) p)
          then send (parent_request (preview job_id request_id payload))
              (send (report_previews n payload) ctx)
          else ctx
    ]

    unfoldable pub on_request : BlockRequest N F → Context N F → Context N F
    unfolding add_requested answer job_node forward_preview report send
    on_request (run_block job_id request_id block payload) ctx =
        add_requested job_id request_id (env.run_request block payload) ctx
    on_request (query_block job_id request_id block) ctx =
        answer job_id request_id (env.query_request block) ctx
    on_request (query_downstream job_id request_id handles) ctx =
        answer job_id request_id (env.downstream (job_node job_id ctx) handles) ctx
    on_request (preview job_id request_id payload) ctx =
        forward_preview job_id request_id payload ctx
    on_request (query_auth job_id request_id payload) ctx = elim env.vault [
      | none ↦ answer job_id request_id (refused "Vault client is not available.") ctx
      | some ask ↦ answer job_id request_id (ask payload) ctx
    ]
    on_request (update_node_weight job_id request_id n weight) ctx =
        let (moved, reported) = change_weight env.floats n weight ctx.progress in
        send (respond job_id request_id none none)
          (report reported (record ctx { progress = moved }))

    -- The progress and the values of a job that is done, before its error is looked at.
    unfoldable pub finish_node :
        String → Option (InputValues N) → Option String → Context N F → Context N F
    unfolding report produce_values
    finish_node job_id result err ctx = elim (Map.get job_id ctx.jobs) [
      | none ↦ ctx
      | some n ↦ elim (Map.get n flow.nodes) [
        | none ↦ ctx
        | some node ↦
            let (moved, reported) = advance env.floats n env.floats.hundred false ctx.progress in
            let advanced = elim err as (λ e. Context N F) [
              | none ↦ report reported (record ctx { progress = moved })
              | some e ↦ ctx
            ] in
            produce_values node (unwrap_or result []) advanced
      ]
    ]

    -- The job was asked for by a block, or is not known.
    unfoldable pub is_context_run_block : String → Context N F → Bool
    is_context_run_block job_id ctx = elim (Map.get job_id ctx.jobs) [
      | none ↦ true
      | some n ↦ starts_with n "run_block::"
    ]

    unfoldable pub node_message : String → Context N F → String
    node_message job_id ctx = elim (Map.get job_id ctx.jobs) [
      | none ↦ text_append (text_append "job_id: " job_id) " failed"
      | some n ↦ text_append (text_append "[node id: " n) "] failed"
    ]

    -- The flow fails with the error of a job. The stack of the error is left out.
    unfoldable pub fail : String → String → Context N F → Context N F
    unfolding node_message send
    fail job_id e ctx =
        let cleared = record ctx { jobs = [] } in
        let told = send (report_done (some (node_message job_id ctx))) cleared in
        let message =
          if env.is_root then text_append (text_append "flow " flow.path_str) " failed." else e in
        send (parent_finish (some message)) told

    unfoldable pub after_done : String → Option String → Context N F → Loop N F
    unfolding is_context_run_block fail flow_success send
    after_done job_id none ctx =
        let removed = record ctx { jobs = Map.remove job_id ctx.jobs } in
        if is_finish removed then stopped (flow_success removed) else running removed
    after_done job_id (some e) ctx =
        let saved = send save_cache ctx in
        if is_context_run_block job_id saved then running saved else stopped (fail job_id e saved)

    unfoldable pub on_done :
        String → Option (InputValues N) → Option String → Context N F → Loop N F
    unfolding run_pending_node finish_node after_done
    on_done job_id result err ctx =
        after_done job_id err (finish_node job_id result err (run_pending_node env flow job_id ctx))

    unfoldable pub on_error : String → Context N F → Context N F
    unfolding send
    on_error e ctx = send (parent_error e) (record (send save_cache ctx) { jobs = [] })

    -- One round of the loop.
    unfoldable pub on_status : Status N F → Context N F → Loop N F
    unfolding on_output on_outputs on_progress on_request on_done on_error
    on_status (output job_id v h options) ctx = running (on_output job_id v h options ctx)
    on_status (outputs job_id values) ctx = running (on_outputs job_id values ctx)
    on_status (progress job_id p) ctx = running (on_progress job_id p ctx)
    on_status (request r) ctx = running (on_request r ctx)
    on_status (done job_id result err) ctx = on_done job_id result err ctx
    on_status (error e) ctx = stopped (on_error e ctx)

    unfoldable pub step : Status N F → Loop N F → Loop N F
    unfolding on_status
    step s (running ctx) = on_status s ctx
    step s (stopped ctx) = stopped ctx
