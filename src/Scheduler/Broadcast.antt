-- ===== src/Scheduler/Broadcast.antt =====
-- mainframe/src/scheduler.rs: a message to all listeners reaches each that is there.
use oocana_rust.Base.{
  ℕ, String, true, some, List, [], ◌∷◌, ◌++◌, ◌≡◌, refl, ◌⊎◌, inl, inr, arith, ◌==◌, Bool-cases,
}
use oocana_rust.Base.Map
use oocana_rust.Base.Map.{Map, get-insert, insert-insert, get-modify}
use oocana_rust.Message.{ReceiveMessage}
use oocana_rust.Scheduler.{Outside, Session, State, Sent, to_subscriber, send}
use oocana_rust.Scheduler.Events.{tell_all}

module _ {N F : Type 0} (x : ℕ) (msg : ReceiveMessage N F) where
  -- The listener gets the message.
  abbrev pub Gets : List (Sent N F) → Type 0
  Gets [] = ⊥
  Gets (m ∷ ms) = (m ≡ to_subscriber x msg) ⊎ Gets ms

  Gets-left : (ms ns : List (Sent N F)) → Gets ms → Gets (ms ++ ns)
  Gets-left [] ns h = absurd h
  Gets-left (m ∷ ms) ns (inl e) = inl e
  Gets-left (m ∷ ms) ns (inr h) = inr (Gets-left ms ns h)

  Gets-last : (ms : List (Sent N F)) → Gets (ms ++ to_subscriber x msg ∷ [])
  Gets-last [] = inl refl
  Gets-last (m ∷ ms) = inr (Gets-last ms)

  module _ (session : Session) (out : Outside) where
    tell_all_keeps :
        (kept to : Map ℕ) (s : State N F)
        → Gets s.sent
        → Gets (tell_all session out msg kept to s).sent
    unfolding tell_all send
    tell_all_keeps kept [] s h = h
    tell_all_keeps kept ((j, y) ∷ m) s h = elim (Bool-cases (out.has_receiver y)) [
      | inl e ↦ rw e (
          tell_all_keeps kept m (send (to_subscriber y msg) s)
            (Gets-left s.sent (to_subscriber y msg ∷ []) h))
      | inr e ↦ rw e (tell_all_keeps kept m s h)
    ]

    pub tell_all_reaches :
        (job : String) (kept to : Map ℕ) (s : State N F)
        → Map.get job to ≡ some x
        → out.has_receiver x ≡ true
        → Gets (tell_all session out msg kept to s).sent
    unfolding tell_all send Map.get
    tell_all_reaches job kept [] s found alive = cc
    tell_all_reaches job kept ((j, y) ∷ m) s found alive = elim (Bool-cases (j == job)) [
      | inl e ↦
          let same : y ≡ x = ground (arith, e) in
          rw (same, alive) (tell_all_keeps kept m (send (to_subscriber x msg) s) (Gets-last s.sent))
      | inr e ↦
          let rest : Map.get job m ≡ some x = ground (arith, e) in
          elim (Bool-cases (out.has_receiver y)) [
            | inl b ↦ rw b (tell_all_reaches job kept m (send (to_subscriber y msg) s) rest alive)
            | inr b ↦ rw b (tell_all_reaches job kept m s rest alive)
          ]
    ]

    pub tell_all_map :
        (kept to : Map ℕ) (s : State N F)
        → (tell_all session out msg kept to s).executor_map ≡ s.executor_map
    unfolding tell_all send
    tell_all_map kept [] s = refl
    tell_all_map kept ((j, y) ∷ m) s =
        ground (arith, tell_all_map kept m s, tell_all_map kept m (send (to_subscriber y msg) s))
