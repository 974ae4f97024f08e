-- ===== src/Flow/Sent.antt =====
-- runtime/src/flow_job/flow.rs: counting what a flow has sent.
use oocana_rust.Base.{
  ℕ, ◌+◌, String, Bool, true, false, List, [], ◌∷◌, ◌++◌, ◌≡◌, refl, arith, if◌then◌else◌, ◌==◌,
}
use oocana_rust.Flow.{
  Message, start_job, save_cache, report_output, parent_output, report_progress, parent_progress,
  report_previews, parent_request, respond, report_done, parent_finish, parent_error, Context, send,
}
use oocana_rust.Flow.Rules.{is_plain}

module _ {N F : Type 0} where
  unfoldable pub count : (Message N F → Bool) → List (Message N F) → ℕ
  count p [] = 0
  count p (m ∷ ms) = (if p m then 1 else 0) + count p ms

  count-append :
      (p : Message N F → Bool) (ms : List (Message N F)) (m : Message N F)
      → count p (ms ++ m ∷ []) ≡ count p ms + (if p m then 1 else 0)
  unfolding count
  count-append p [] m = omega arith
  count-append p (x ∷ ms) m = omega (arith, count-append p ms m)

  pub count-send :
      (p : Message N F → Bool) (m : Message N F) (ctx : Context N F)
      → count p (send m ctx).sent ≡ count p ctx.sent + (if p m then 1 else 0)
  unfolding send
  count-send p m ctx = count-append p ctx.sent m

  -- The message starts a job of the node.
  abbrev pub starts : String → Message N F → Bool
  starts n (start_job k j i) = k == n
  starts n _ = false

  -- The message tells the parent that the flow has ended.
  abbrev pub ends : Message N F → Bool
  ends (parent_finish e) = true
  ends (parent_error e) = true
  ends _ = false

  pub starts_plain : (n : String) (m : Message N F) → is_plain m ≡ true → starts n m ≡ false
  starts_plain n (start_job k j i) h = cc
  starts_plain n save_cache h = refl
  starts_plain n (report_output v h') h = refl
  starts_plain n (parent_output v h') h = refl
  starts_plain n (report_progress p) h = refl
  starts_plain n (parent_progress p) h = refl
  starts_plain n (report_previews k p) h = refl
  starts_plain n (parent_request r) h = refl
  starts_plain n (respond j r v e) h = refl
  starts_plain n (report_done e) h = refl
  starts_plain n (parent_finish e) h = refl
  starts_plain n (parent_error e) h = refl

  pub ends_plain : (m : Message N F) → is_plain m ≡ true → ends m ≡ false
  ends_plain (start_job k j i) h = refl
  ends_plain save_cache h = refl
  ends_plain (report_output v i) h = refl
  ends_plain (parent_output v i) h = refl
  ends_plain (report_progress p) h = refl
  ends_plain (parent_progress p) h = refl
  ends_plain (report_previews k p) h = refl
  ends_plain (parent_request r) h = refl
  ends_plain (respond j r v e) h = refl
  ends_plain (report_done e) h = refl
  ends_plain (parent_finish e) h = cc
  ends_plain (parent_error e) h = cc
