-- ===== src/Listener/Inputs.antt =====
-- runtime/src/block_job/listener.rs: the inputs of the job, which the listener hands out once.
use oocana_rust.Base.{
  ℕ, zero, suc, ◌+◌, String, Bool, true, false, not, ◌||◌, Option, none, some, List, [], ◌∷◌, ◌++◌,
  ◌≡◌, refl, sym, ◌∙◌, arith, ◌==◌, count_if, Bool-cases, inl, inr, for_each, ap,
}
use mathlib.Core.List.{append_assoc, append-nil}
use oocana_rust.Base.Map.{Map}
use oocana_rust.Json.{Json}
use oocana_rust.InputValues.{InputValues}
use oocana_rust.Scope.{RuntimeScope}
use oocana_rust.Message.{
  ReceiveMessage, block_ready, block_output, block_outputs, block_error, block_progress,
  block_finished, executor_ready, block_request, listener_timeout,
}
use oocana_rust.Flow.{BlockRequest, preview}
use oocana_rust.Scheduler.{send_inputs}
use oocana_rust.Listener.{
  ListenerParameters, ListenerState, Told, command, tell, run_block, on_executor_ready,
  on_block_finished, on_block_request, on_message, listen,
}

module _ {N F : Type 0} where
  -- The inputs that are sent to the executor, in order.
  unfoldable pub handed_out : List (Told N F) → List (Option (InputValues N))
  handed_out [] = []
  handed_out (command (send_inputs job inputs) ∷ ts) = inputs ∷ handed_out ts
  handed_out (_ ∷ ts) = handed_out ts

  handed_out-append :
      (xs ys : List (Told N F)) → handed_out (xs ++ ys) ≡ handed_out xs ++ handed_out ys
  unfolding handed_out
  handed_out-append [] ys = refl
  handed_out-append (command (send_inputs job inputs) ∷ ts) ys =
      ap (◌∷◌ inputs) (handed_out-append ts ys)
  handed_out-append (command c ∷ ts) ys = handed_out-append ts ys
  handed_out-append (t ∷ ts) ys = handed_out-append ts ys

  abbrev pub is_ready : ReceiveMessage N F → Bool
  is_ready (block_ready sid job) = true
  is_ready _ = false

-- The first gets the inputs, the others get none.
unfoldable pub once : {N : Type 0} → ℕ → Option (InputValues N) → List (Option (InputValues N))
once zero inputs = []
once (suc n) inputs = inputs ∷ once n none

no_more : (n : ℕ) → n ≡ 0 + n
no_more n = omega arith

one_more : (n : ℕ) → suc n ≡ 1 + n
one_more n = omega arith

module _ (N F : Type 0) (identifier : RuntimeScope → String) (params : ListenerParameters N) where
  run_hands_out : (x y : Option String) → handed_out {F = F} (run_block identifier params x y) ≡ []
  unfolding handed_out run_block
  run_hands_out (some x) y = refl
  run_hands_out none (some y) = refl
  run_hands_out none none = refl

  ready_hands_out :
      (x : String) (id : Option String)
      → handed_out {F = F} (on_executor_ready identifier params x id) ≡ []
  unfolding on_executor_ready handed_out
  ready_hands_out x id =
      ground (arith, run_hands_out params.executor none, run_hands_out none params.service)

  finish_hands_out :
      (k : String) (r : Option (Map (Json N))) (e : Option String)
      → handed_out {F = F} (on_block_finished identifier params k r e) ≡ []
  unfolding on_block_finished handed_out
  finish_hands_out k r (some e) = refl
  finish_hands_out k (some r) none = refl
  finish_hands_out k none none = refl

  request_hands_out :
      (r : BlockRequest N F) → handed_out (on_block_request identifier params r) ≡ []
  unfolding on_block_request handed_out
  request_hands_out (preview k q p) = refl
  request_hands_out r = refl

  handed_more :
      (s : ListenerState N F) (ts : List (Told N F))
      → handed_out ts ≡ []
      → handed_out (s.told ++ ts) ≡ handed_out s.told
  handed_more s ts h = rw (handed_out-append s.told ts, h) (append-nil (handed_out s.told))

  message_hands_out :
      (m : ReceiveMessage N F) (s : ListenerState N F)
      → is_ready m ≡ false
      → (handed_out (on_message identifier params m s).told ≡ handed_out s.told)
        × ((on_message identifier params m s).inputs ≡ s.inputs)
  unfolding on_message tell handed_out
  message_hands_out (executor_ready sid x p id) s h =
      (handed_more s (on_executor_ready identifier params x id) (ready_hands_out x id), refl)
  message_hands_out (listener_timeout sid k) s h =
      elim (Bool-cases (s.has_executor_response || not (params.job_id == k))) [
        | inl e ↦ rw e (refl, refl)
        | inr e ↦ rw e (
          handed_more s (run_block identifier params params.executor params.service)
              (run_hands_out params.executor params.service),
          refl,
        )
      ]
  message_hands_out (block_finished sid k r e) s h =
      (handed_more s (on_block_finished identifier params k r e) (finish_hands_out k r e), refl)
  message_hands_out (block_request sid r) s h =
      (handed_more s (on_block_request identifier params r) (request_hands_out r), refl)
  message_hands_out (block_ready sid k) s h = cc
  message_hands_out (block_progress sid k p) s h = (handed_more s _ refl, refl)
  message_hands_out (block_outputs sid k vs) s h = (handed_more s _ refl, refl)
  message_hands_out (block_output sid k x v o) s h = (handed_more s _ refl, refl)
  message_hands_out (block_error sid k e) s h = (handed_more s _ refl, refl)
  message_hands_out m s h = (refl, refl)

  ready_message :
      (m : ReceiveMessage N F) (s : ListenerState N F)
      → is_ready m ≡ true
      → (handed_out (on_message identifier params m s).told ≡ handed_out s.told ++ s.inputs ∷ [])
        × ((on_message identifier params m s).inputs ≡ none)
  unfolding on_message handed_out
  ready_message (block_ready sid k) s h =
      (handed_out-append s.told (command (send_inputs k s.inputs) ∷ []), refl)
  ready_message m s h = cc

  all_hand_out :
      (ms : List (ReceiveMessage N F)) (s : ListenerState N F)
      → handed_out (listen identifier params ms s).told
        ≡ handed_out s.told ++ once (count_if is_ready ms) s.inputs
  unfolding listen for_each count_if once
  all_hand_out [] s = sym (append-nil (handed_out s.told))
  all_hand_out (m ∷ ms) s =
      let next = on_message identifier params m s in
      elim (Bool-cases (is_ready m)) [
        | inl e ↦
            let (sent, gone) = ready_message m s e in
            rw e (
              all_hand_out ms next
              ∙ rw (sent, gone)
                  (append_assoc (handed_out s.told) (s.inputs ∷ [])
                      (once (count_if is_ready ms) none)
                    ∙ ap (λ k. handed_out s.told ++ once k s.inputs)
                        (one_more (count_if is_ready ms))))
        | inr e ↦
            let (sent, kept) = message_hands_out m s e in
            rw e (
              all_hand_out ms next
              ∙ rw (sent, kept)
                  (ap (λ k. handed_out s.told ++ once k s.inputs) (no_more (count_if is_ready ms))))
      ]

-- Over any messages of a listener: it answers every block_ready with inputs, and these are the
-- job's inputs for the first and none for all others, however often the block gets ready.
pub inputs_once :
    {N F : Type 0} (identifier : RuntimeScope → String) (params : ListenerParameters N)
    → (ms : List (ReceiveMessage N F)) (s : ListenerState N F)
    → handed_out (listen identifier params ms s).told
      ≡ handed_out s.told ++ once (count_if is_ready ms) s.inputs
inputs_once {N} {F} identifier params ms s = all_hand_out N F identifier params ms s
