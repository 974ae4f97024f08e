-- ===== src/Flow/Rounds.antt =====
-- runtime/src/flow_job/flow.rs: the rule for the rounds of the loop, requests and ends included.
use oocana_rust.Base.{
  String, true, Option, none, some, List, [], ◌∷◌, ◌≡◌, refl, is_some_and, for_each, Bool-cases,
  Option-cases, inl, inr, any, All, ◌==◌,
}
use oocana_rust.Base.Map
use oocana_rust.Base.StringSet.{StringSet}
use oocana_rust.Json.{Json}
use oocana_rust.InputValues.{InputValues}
use oocana_rust.Subflow.{SubflowBlock}
use oocana_rust.Progress.{change_weight}
use oocana_rust.Flow.{
  Env, Context, Status, output, outputs, progress, request, done, error, BlockRequest, run_block,
  query_block, query_downstream, preview, query_auth, update_node_weight, save_cache,
  report_previews, parent_request, respond, Answer, answered, refused, Requested, send,
}
use oocana_rust.Flow.Run.{run_pending_node, is_finish}
use oocana_rust.Flow.Events
use oocana_rust.Flow.Events.{
  Loop, running, stopped, flow_success, fail, after_done, on_status, step,
}
use oocana_rust.Flow.Rules.{
  Keeps, keeps-report, keeps-on_progress, keeps-on_output, keeps-on_outputs, keeps-finish_node,
}

-- The loop over a list of statuses.
unfoldable pub run :
    {N F : Type 0}
    → Env N F
    → SubflowBlock N
    → Option StringSet
    → List (Status N F)
    → Loop N F
    → Loop N F
unfolding for_each
run env flow limit ss l = for_each (step env flow limit) ss l

module _ {N F : Type 0} where
  abbrev pub OnLoop : (Context N F → Type 0) → (Context N F → Type 0) → Loop N F → Type 0
  OnLoop P Q (running ctx) = P ctx
  OnLoop P Q (stopped ctx) = Q ctx

  pub OnLoop-imp :
      (P P' Q : Context N F → Type 0) (l : Loop N F)
      → ((ctx : Context N F) → P ctx → P' ctx)
      → OnLoop P Q l
      → OnLoop P' Q l
  OnLoop-imp P P' Q (running ctx) f h = f ctx h
  OnLoop-imp P P' Q (stopped ctx) f h = h

  abbrev pub Anything : Status N F → Type 0
  Anything s = Unit

  pub All-Anything : (ss : List (Status N F)) → All Anything ss
  All-Anything [] = tt
  All-Anything (s ∷ ss) = (tt, All-Anything ss)

module _ {N F : Type 0} (env : Env N F) (flow : SubflowBlock N) (limit : Option StringSet) where
  -- `P` holds while the loop goes on and `Q` when it has ended, for the statuses in `A`.
  pub record KeepsRounds (A : Status N F → Type 0) (P Q : Context N F → Type 0) : Type 0 where
    pub base : Keeps env flow limit P
    pub pending : (j : String) (ctx : Context N F) → P ctx → P (run_pending_node env flow j ctx)
    pub requested :
        (block : String) (payload : Json N) (r : Requested) (ctx : Context N F)
        → env.run_request block payload ≡ answered r
        → P ctx
        → P (record ctx { jobs = Map.insert r.job_id r.node_id ctx.jobs })
    pub removed :
        (j : String) (result : Option (InputValues N)) (ctx : Context N F)
        → A (done j result none)
        → P ctx
        → P (record ctx { jobs = Map.remove j ctx.jobs })
    pub succeeded :
        (ctx : Context N F) → is_finish ctx ≡ true → P ctx → Q (flow_success env flow ctx)
    pub failed :
        (j e : String) (result : Option (InputValues N)) (ctx : Context N F)
        → A (done j result (some e))
        → P ctx
        → Q (fail env flow limit j e ctx)
    pub errored :
        (e : String) (ctx : Context N F)
        → A (error e)
        → P ctx
        → Q (Events.on_error env flow limit e ctx)

  module _ {A : Status N F → Type 0} {P Q : Context N F → Type 0} (k : KeepsRounds A P Q) where
    keeps-answer :
        (j r : String) (a : Answer (Json N)) (ctx : Context N F)
        → P ctx
        → P (Events.answer env flow limit j r a ctx)
    unfolding Events.answer
    keeps-answer j r (answered v) ctx p = k.base.plain (respond j r (some v) none) ctx refl p
    keeps-answer j r (refused e) ctx p = k.base.plain (respond j r none (some e)) ctx refl p

    keeps-forward_preview :
        (j r : String) (payload : Json N) (ctx : Context N F)
        → P ctx
        → P (Events.forward_preview env flow limit j r payload ctx)
    unfolding Events.forward_preview
    keeps-forward_preview j r payload ctx p = elim (Option-cases (Map.get j ctx.jobs)) [
      | inl gone ↦ rw (gone, Events.forward_preview) p
      | inr (n, here) ↦
          elim (Bool-cases (is_some_and flow.forward_previews (λ p. any (λ x. x == n) p))) [
            | inl forward ↦
                rw (here, Events.forward_preview, forward)
                  (k.base.plain (parent_request (preview j r payload))
                    (send (report_previews n payload) ctx) refl
                    (k.base.plain (report_previews n payload) ctx refl p))
            | inr keep ↦ rw (here, Events.forward_preview, keep) p
          ]
    ]

    keeps-add_requested :
        (j r block : String) (payload : Json N) (ctx : Context N F)
        → P ctx
        → (a : Answer Requested) → env.run_request block payload ≡ a
        → P (Events.add_requested env flow limit j r a ctx)
    unfolding Events.add_requested
    keeps-add_requested j r block payload ctx p (refused e) same =
        k.base.plain (respond j r none (some e)) ctx refl p
    keeps-add_requested j r block payload ctx p (answered q) same = elim (Bool-cases q.has_handle) [
      | inl h ↦ rw h (k.requested block payload q ctx same p)
      | inr h ↦ rw h p
    ]

    keeps-on_request :
        (q : BlockRequest N F) (ctx : Context N F)
        → P ctx
        → P (Events.on_request env flow limit q ctx)
    unfolding Events.on_request
    keeps-on_request (run_block j r block payload) ctx p =
        keeps-add_requested j r block payload ctx p (env.run_request block payload) refl
    keeps-on_request (query_block j r block) ctx p =
        keeps-answer j r (env.query_request block) ctx p
    keeps-on_request (query_downstream j r handles) ctx p =
        keeps-answer j r (env.downstream (Events.job_node env flow j ctx) handles) ctx p
    keeps-on_request (preview j r payload) ctx p = keeps-forward_preview j r payload ctx p
    keeps-on_request (query_auth j r payload) ctx p = elim (Option-cases env.vault) [
      | inl none_ ↦ rw none_ (keeps-answer j r (refused "Vault client is not available.") ctx p)
      | inr (ask, here) ↦ rw here (keeps-answer j r (ask payload) ctx p)
    ]
    keeps-on_request (update_node_weight j r n w) ctx p =
        let (m, reported) = change_weight env.floats n w ctx.progress in
        k.base.plain (respond j r none none) _ refl (
          keeps-report env flow limit k.base reported (record ctx { progress = m })
            (k.base.moved m ctx p))

    keeps-after_done :
        (j : String) (result : Option (InputValues N)) (err : Option String) (ctx : Context N F)
        → A (done j result err)
        → P ctx
        → OnLoop P Q (after_done env flow limit j err ctx)
    unfolding after_done
    keeps-after_done j result none ctx a p =
        let removed = record ctx { jobs = Map.remove j ctx.jobs } in
        let q = k.removed j result ctx a p in
        elim (Bool-cases (is_finish removed)) [
          | inl last ↦ rw last (k.succeeded removed last q)
          | inr more ↦ rw more q
        ]
    keeps-after_done j result (some e) ctx a p =
        let saved = send save_cache ctx in
        let q = k.base.plain save_cache ctx refl p in
        elim (Bool-cases (Events.is_context_run_block env flow limit j saved)) [
          | inl mild ↦ rw mild q
          | inr hard ↦ rw hard (k.failed j e result saved a q)
        ]

    pub keeps-on_status :
        (s : Status N F) (ctx : Context N F)
        → A s
        → P ctx
        → OnLoop P Q (on_status env flow limit s ctx)
    unfolding on_status Events.on_done
    keeps-on_status (output j v h options) ctx a p =
        keeps-on_output env flow limit k.base j v h options ctx p
    keeps-on_status (outputs j values) ctx a p =
        keeps-on_outputs env flow limit k.base j values ctx p
    keeps-on_status (progress j f) ctx a p = keeps-on_progress env flow limit k.base j f ctx p
    keeps-on_status (request q) ctx a p = keeps-on_request q ctx p
    keeps-on_status (done j result err) ctx a p =
        keeps-after_done j result err _ a
          (keeps-finish_node env flow limit k.base j result err _ (k.pending j ctx p))
    keeps-on_status (error e) ctx a p = k.errored e ctx a p

    keeps-step :
        (s : Status N F) (l : Loop N F) → A s → OnLoop P Q l → OnLoop P Q (step env flow limit s l)
    unfolding step
    keeps-step s (running ctx) a p = keeps-on_status s ctx a p
    keeps-step s (stopped ctx) a q = q

    pub keeps-run :
        (ss : List (Status N F)) (l : Loop N F)
        → All A ss
        → OnLoop P Q l
        → OnLoop P Q (run env flow limit ss l)
    unfolding run for_each
    keeps-run [] l a p = p
    keeps-run (s ∷ ss) l a p = keeps-run ss (step env flow limit s l) a.1 (keeps-step s l a.0 p)
