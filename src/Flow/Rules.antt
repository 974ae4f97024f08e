-- ===== src/Flow/Rules.antt =====
-- runtime/src/flow_job/flow.rs: a rule for what every round of the loop keeps, from what its parts
-- keep.
use oocana_rust.Base.{
  String, Bool, true, false, not, Option, none, some, List, [], ◌≡◌, refl, unwrap_or, is_some_and,
  ◌>>=◌, for_each_inv, Bool-cases, Option-cases, inl, inr,
}
use oocana_rust.Base.Map
use oocana_rust.Base.Map.{Map}
use oocana_rust.Base.StringSet
use oocana_rust.Base.StringSet.{StringSet}
use oocana_rust.Output.{OutputValue}
use oocana_rust.Node.{Node, HandleTo, to_flow_output, to_node_input, tos}
use oocana_rust.InputValues.{InputValues, update_serializable_cache_value}
use oocana_rust.Subflow.{SubflowBlock}
use oocana_rust.Progress.{FlowProgress, advance}
use oocana_rust.Flow.{
  Env, Context, OutputOptions, Message, start_job, report_output, parent_output, report_progress,
  parent_progress, report_done, parent_finish, parent_error, send,
}
use oocana_rust.Flow.Produce.{deliver, produce_to, produce_new_value, skips_node, skips_flow}
use oocana_rust.Flow.Events

-- A message that neither starts a job nor ends the flow.
abbrev pub is_plain : {N F : Type 0} → Message N F → Bool
is_plain (start_job n j i) = false
is_plain (report_done e) = false
is_plain (parent_finish e) = false
is_plain (parent_error e) = false
is_plain _ = true

-- The node may run.
abbrev pub Allows : Option StringSet → String → Type 0
Allows limit n = is_some_and limit (λ nodes. not (StringSet.contains n nodes)) ≡ false

module _ {N F : Type 0} (env : Env N F) (flow : SubflowBlock N) (limit : Option StringSet) where
  pub record Keeps (P : Context N F → Type 0) : Type 0 where
    pub plain : (m : Message N F) (ctx : Context N F) → is_plain m ≡ true → P ctx → P (send m ctx)
    pub moved : (p : FlowProgress F) (ctx : Context N F) → P ctx → P (record ctx { progress = p })
    pub cached :
        (n h : String) (v : OutputValue N) (ctx : Context N F)
        → P ctx
        → P (record ctx {
          node_input_values = update_serializable_cache_value n h v ctx.node_input_values;
        })
    pub delivered :
        (v : OutputValue N) (n h : String) (ctx : Context N F)
        → Allows limit n
        → P ctx
        → P (deliver env flow v true n h ctx)

  module _ {P : Context N F → Type 0} (k : Keeps P) where
    pub keeps-produce_to :
        (v : OutputValue N) (options : Option OutputOptions) (to : HandleTo) (ctx : Context N F)
        → P ctx
        → P (produce_to env flow v true limit options to ctx)
    unfolding produce_to
    keeps-produce_to v options (to_node_input n h) ctx p =
        elim (Bool-cases (skips_node options n h)) [
          | inl skip ↦ rw skip p
          | inr keep ↦
              elim (Bool-cases (is_some_and limit (λ nodes. not (StringSet.contains n nodes)))) [
                | inl out ↦ rw (keep, out) (k.cached n h v ctx p)
                | inr within ↦ rw (keep, within) (k.delivered v n h ctx within p)
              ]
        ]
    keeps-produce_to v options (to_flow_output h) ctx p = elim (Bool-cases (skips_flow options h)) [
      | inl skip ↦ rw skip p
      | inr keep ↦ rw keep (
          k.plain (parent_output v h) (send (report_output v h) ctx) refl
            (k.plain (report_output v h) ctx refl p))
    ]

    pub keeps-produce_new_value :
        (v : OutputValue N) (tos : List HandleTo) (options : Option OutputOptions)
        (ctx : Context N F)
        → P ctx
        → P (produce_new_value env flow v tos true limit options ctx)
    unfolding produce_new_value
    keeps-produce_new_value v tos options =
        for_each_inv P (produce_to env flow v true limit options) (keeps-produce_to v options) tos

    pub keeps-report : (r : Option F) (ctx : Context N F) → P ctx → P (Events.report env flow r ctx)
    unfolding Events.report
    keeps-report none ctx p = p
    keeps-report (some f) ctx p =
        k.plain (report_progress f) (send (parent_progress f) ctx) refl
          (k.plain (parent_progress f) ctx refl p)

    pub keeps-on_progress :
        (j : String) (f : F) (ctx : Context N F) → P ctx → P (Events.on_progress env flow j f ctx)
    unfolding Events.on_progress
    keeps-on_progress j f ctx p = elim (Option-cases (Map.get j ctx.jobs)) [
      | inl gone ↦ rw (gone, Events.on_progress) p
      | inr (n, here) ↦
          let (m, r) = advance env.floats n f false ctx.progress in
          elim (Bool-cases (Map.contains_key n flow.nodes)) [
            | inl known ↦
                rw (here, Events.on_progress, known)
                  (keeps-report r (record ctx { progress = m }) (k.moved m ctx p))
            | inr other ↦ rw (here, Events.on_progress, other) p
          ]
    ]

    pub keeps-produce_handle :
        (tos : Map (List HandleTo)) (options : Option OutputOptions) (h : String)
        (v : OutputValue N) (ctx : Context N F)
        → P ctx
        → P (Events.produce_handle env flow limit tos options h v ctx)
    unfolding Events.produce_handle
    keeps-produce_handle tos options h v ctx p = elim (Option-cases (Map.get h tos)) [
      | inl gone ↦ rw (gone, Events.produce_handle) p
      | inr (ts, here) ↦
          rw (here, Events.produce_handle) (keeps-produce_new_value v ts options ctx p)
    ]

    pub keeps-produce_values :
        (node : Node N) (values : InputValues N) (ctx : Context N F)
        → P ctx
        → P (Events.produce_values env flow limit node values ctx)
    unfolding Events.produce_values Events.produce_pair
    keeps-produce_values node values ctx p = elim (Option-cases (tos node)) [
      | inl none_ ↦ rw (none_, Events.produce_values) p
      | inr (ts, here) ↦
          rw (here, Events.produce_values)
            (for_each_inv P (Events.produce_pair env flow limit ts)
              (λ (h, v) c q. keeps-produce_handle ts none h v c q) values ctx p)
    ]

    pub keeps-on_output :
        (j : String) (v : OutputValue N) (h : String) (options : Option OutputOptions)
        (ctx : Context N F)
        → P ctx
        → P (Events.on_output env flow limit j v h options ctx)
    unfolding Events.on_output
    keeps-on_output j v h options ctx p =
        elim (Option-cases (Events.job_node env flow j ctx >>= tos)) [
          | inl gone ↦ rw (gone, Events.on_output) p
          | inr (ts, here) ↦ rw (here, Events.on_output) (keeps-produce_handle ts options h v ctx p)
        ]

    pub keeps-on_outputs :
        (j : String) (values : InputValues N) (ctx : Context N F)
        → P ctx
        → P (Events.on_outputs env flow limit j values ctx)
    unfolding Events.on_outputs
    keeps-on_outputs j values ctx p = elim (Option-cases (Events.job_node env flow j ctx)) [
      | inl gone ↦ rw (gone, Events.on_outputs) p
      | inr (node, here) ↦ rw (here, Events.on_outputs) (keeps-produce_values node values ctx p)
    ]

    pub keeps-finish_node :
        (j : String) (result : Option (InputValues N)) (err : Option String) (ctx : Context N F)
        → P ctx
        → P (Events.finish_node env flow limit j result err ctx)
    unfolding Events.finish_node
    keeps-finish_node j result err ctx p = elim (Option-cases (Map.get j ctx.jobs)) [
      | inl gone ↦ rw (gone, Events.finish_node) p
      | inr (n, here) ↦ elim (Option-cases (Map.get n flow.nodes)) [
        | inl lost ↦ rw (here, Events.finish_node, lost) p
        | inr (node, known) ↦ rw (here, Events.finish_node, known) (go n node err)
      ]
    ]
      where
        go :
            (n : String) (node : Node N) (err : Option String)
            → P (
                Events.produce_values env flow limit node
                  (unwrap_or result [])
                  (elim err as (λ e. Context N F) [
                    | none ↦
                        Events.report env flow
                          (advance env.floats n env.floats.hundred false ctx.progress).1
                          (record ctx {
                            progress =
                                (advance env.floats n env.floats.hundred false ctx.progress).0;
                          })
                    | some e ↦ ctx
                  ]))
        go n node none =
            let (m, r) = advance env.floats n env.floats.hundred false ctx.progress in
            keeps-produce_values node (unwrap_or result []) _
              (keeps-report r (record ctx { progress = m }) (k.moved m ctx p))
        go n node (some e) = keeps-produce_values node (unwrap_or result []) ctx p
