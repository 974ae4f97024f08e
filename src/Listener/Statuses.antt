-- ===== src/Listener/Statuses.antt =====
-- runtime/src/block_job/listener.rs: when the listener tells the flow that a job is done.
use oocana_rust.Base.{
  ℕ, ◌+◌, String, Bool, true, false, ◌&&◌, Option, none, some, List, [], ◌∷◌, ◌++◌, ◌≡◌, refl,
  arith, if◌then◌else◌, ◌==◌, is_some_and, not, ◌||◌, count_if, count_if-append, Bool-cases, inl,
  inr, for_each,
}
use oocana_rust.Base.Map.{Map}
use oocana_rust.Json.{Json}
use oocana_rust.Scope.{RuntimeScope}
use oocana_rust.Flow.{done, BlockRequest, preview}
use oocana_rust.Message.{
  ReceiveMessage, block_ready, block_output, block_outputs, block_error, block_progress,
  block_finished, executor_ready, block_request, listener_timeout,
}
use oocana_rust.Listener.{
  ListenerParameters, ListenerState, Told, command, status, tell, run_block, on_executor_ready,
  on_block_finished, on_block_request, on_message, listen,
}

abbrev pub has_failed : Option String → Bool
has_failed error = is_some_and error (λ _. true)

abbrev same_outcome : Bool → Option String → Bool
same_outcome failed error = if failed then has_failed error else not (has_failed error)

module _ {N F : Type 0} where
  -- The flow is told that the job is done, with an error or without.
  abbrev pub is_done : String → Bool → Told N F → Bool
  is_done j failed (status (done k r e)) = k == j && same_outcome failed e
  is_done j failed _ = false

  -- The executor tells that the job is finished, with an error or without.
  abbrev pub is_finish : String → Bool → ReceiveMessage N F → Bool
  is_finish j failed (block_finished s k r e) = k == j && same_outcome failed e
  is_finish j failed _ = false

module _ (N F : Type 0) (identifier : RuntimeScope → String) (params : ListenerParameters N)
    (j : String) (failed : Bool) where
  dones : List (Told N F) → ℕ
  dones = count_if (is_done j failed)

  run_counts : (x y : Option String) → dones (run_block identifier params x y) ≡ 0
  unfolding dones run_block count_if
  run_counts (some x) y = refl
  run_counts none (some y) = refl
  run_counts none none = refl

  ready_counts :
      (x : String) (id : Option String) → dones (on_executor_ready identifier params x id) ≡ 0
  unfolding on_executor_ready dones count_if
  ready_counts x id =
      ground (arith, run_counts params.executor none, run_counts none params.service)

  finish_counts :
      (sid k : String) (r : Option (Map (Json N))) (e : Option String)
      → dones (on_block_finished identifier params k r e)
        ≡ (if is_finish {F = F} j failed (block_finished sid k r e) then 1 else 0)
  unfolding on_block_finished dones count_if
  finish_counts sid k r (some e) = ground arith
  finish_counts sid k (some r) none = ground arith
  finish_counts sid k none none = ground arith

  request_counts : (r : BlockRequest N F) → dones (on_block_request identifier params r) ≡ 0
  unfolding on_block_request dones count_if
  request_counts (preview k q p) = refl
  request_counts r = refl

  told_counts :
      (s : ListenerState N F) (ts : List (Told N F)) (n : ℕ)
      → dones ts ≡ n
      → dones (s.told ++ ts) ≡ dones s.told + n
  unfolding dones
  told_counts s ts n h = omega (arith, count_if-append (is_done j failed) s.told ts)

  one_quiet : (t : Told N F) → is_done j failed t ≡ false → dones (t ∷ []) ≡ 0
  unfolding dones count_if
  one_quiet t h = rw h refl

  two_quiet :
      (t u : Told N F)
      → is_done j failed t ≡ false
      → is_done j failed u ≡ false
      → dones (t ∷ u ∷ []) ≡ 0
  unfolding dones count_if
  two_quiet t u h k = rw (h, k) refl

  one_message :
      (m : ReceiveMessage N F) (s : ListenerState N F)
      → dones (on_message identifier params m s).told
        ≡ dones s.told + (if is_finish j failed m then 1 else 0)
  unfolding on_message tell
  one_message (executor_ready sid x p id) s =
      told_counts s (on_executor_ready identifier params x id) 0 (ready_counts x id)
  one_message (listener_timeout sid k) s =
      elim (Bool-cases (s.has_executor_response || not (params.job_id == k))) [
        | inl e ↦ rw e (omega arith)
        | inr e ↦ rw e (
            told_counts s (run_block identifier params params.executor params.service) 0
              (run_counts params.executor params.service))
      ]
  one_message (block_finished sid k r e) s =
      told_counts s (on_block_finished identifier params k r e) _ (finish_counts sid k r e)
  one_message (block_request sid r) s =
      told_counts s (on_block_request identifier params r) 0 (request_counts r)
  one_message (block_ready sid k) s = told_counts s (command _ ∷ []) 0 (one_quiet (command _) refl)
  one_message (block_progress sid k p) s =
      told_counts s (status _ ∷ []) 0 (one_quiet (status _) refl)
  one_message (block_outputs sid k vs) s = told_counts s (_ ∷ _ ∷ []) 0 (two_quiet _ _ refl refl)
  one_message (block_output sid k h v o) s = told_counts s (_ ∷ _ ∷ []) 0 (two_quiet _ _ refl refl)
  one_message (block_error sid k e) s = told_counts s (_ ∷ []) 0 (one_quiet _ refl)
  one_message m s = omega arith

  all_messages :
      (ms : List (ReceiveMessage N F)) (s : ListenerState N F)
      → dones (listen identifier params ms s).told ≡ dones s.told + count_if (is_finish j failed) ms
  unfolding listen for_each count_if
  all_messages [] s = omega arith
  all_messages (m ∷ ms) s =
      omega (arith, one_message m s, all_messages ms (on_message identifier params m s))

-- Over any messages of a listener, for each job: it tells the flow as often that the job is done
-- without an error as the executor or the scheduler tells so, and as often that the job has failed
-- as a message tells so. No other message makes the listener say that a job is done.
pub done_as_finished :
    {N F : Type 0} (identifier : RuntimeScope → String) (params : ListenerParameters N)
    → (ms : List (ReceiveMessage N F)) (s : ListenerState N F) (j : String) (failed : Bool)
    → count_if (is_done j failed) (listen identifier params ms s).told
      ≡ count_if (is_done j failed) s.told + count_if (is_finish j failed) ms
done_as_finished {N} {F} identifier params ms s j failed =
    unfold dones in all_messages N F identifier params j failed ms s
