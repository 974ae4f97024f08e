-- ===== src/Scheduler/Routing.antt =====
-- mainframe/src/scheduler.rs: which messages reach which listener.
use oocana_rust.Base.{
  ℕ, String, Bool, true, false, Option, none, some, [], ◌∷◌, ◌≡◌, refl, ◌⊎◌, inl, inr,
  if◌then◌else◌, ◌==◌, eq_of_==, Bool-cases, Option-cases, All, All-append, for_each_inv, ap, sym,
  ◌∙◌,
}
use oocana_rust.Base.Map
use oocana_rust.Base.Map.{Map}
use oocana_rust.Message
use oocana_rust.Message.{
  ReceiveMessage, block_finished, executor_ready, block_request, request_job_id, session_id, job_id,
  parse_worker_message,
}
use oocana_rust.Scheduler.{
  ExecutorState, Outside, Session, State, Sent, to_broker, to_subscriber, send, kill,
}
use oocana_rust.Scheduler.Names.{executor_map_name_from_parts}
use oocana_rust.Scheduler.Events.{
  tell, tell_all, failure, finish_job, finish_jobs, broadcast, forward, forward_any, jobs_on,
  is_spawned, is_late, has_process, kill_executor, on_spawn_executor_timeout, on_executor_ready,
  on_receive,
}
use oocana_rust.Scheduler.Loop.{Loop, running, stopped, received}

module _ {N F : Type 0} (session : Session) (subscribers : Map ℕ) where
  -- The message tells of an executor, or the listener is that of its job.
  abbrev pub IsAddressed : ℕ → ReceiveMessage N F → Type 0
  IsAddressed x msg =
      (job_id msg ≡ none)
      ⊎ ((j : String) × (job_id msg ≡ some j) × (Map.get j subscribers ≡ some x))

  abbrev pub IsRouted : Sent N F → Type 0
  IsRouted (to_subscriber x msg) = (session_id msg ≡ session.id) × IsAddressed x msg
  IsRouted _ = Unit

  abbrev pub AllRouted : State N F → Type 0
  AllRouted s = All IsRouted s.sent

  abbrev pub LoopRouted : Loop N F → Type 0
  LoopRouted (running s) = AllRouted s
  LoopRouted (stopped s) = AllRouted s

  pub send_routed : (m : Sent N F) (s : State N F) → IsRouted m → AllRouted s → AllRouted (send m s)
  unfolding send
  send_routed m s r h = All-append IsRouted s.sent (m ∷ []) h (r, tt)

  pub either_routed :
      (b : Bool) (m : Sent N F) (s t : State N F)
      → IsRouted m
      → AllRouted s
      → AllRouted t
      → AllRouted (if b then send m s else t)
  either_routed true m s t r h k = send_routed m s r h
  either_routed false m s t r h k = k

  -- While blocks are ended the listeners stay.
  abbrev pub Steady : State N F → Type 0
  Steady s = (s.subscribers ≡ subscribers) × AllRouted s

  module _ (out : Outside) where
    forward_routed :
        (job : String) (msg : ReceiveMessage N F) (s : State N F)
        → session_id msg ≡ session.id
        → job_id msg ≡ some job
        → Steady s
        → AllRouted (forward session out job msg s)
    unfolding forward
    forward_routed job msg s own addressed h = elim (Option-cases (Map.get job s.subscribers)) [
      | inl e ↦ rw e h.1
      | inr (x, e) ↦ rw e (
          either_routed (out.has_receiver x) (to_subscriber x msg) s
            (record s { subscribers = Map.remove job s.subscribers })
            (own, inr (job, addressed, ap (Map.get job) (sym h.0) ∙ e)) h.1 h.1)
    ]

    tell-Steady :
        (job : String) (msg : ReceiveMessage N F) (s : State N F)
        → session_id msg ≡ session.id
        → job_id msg ≡ some job
        → Steady s
        → Steady (tell session out job msg s)
    unfolding tell send
    tell-Steady job msg s own addressed h = elim (Option-cases (Map.get job s.subscribers)) [
      | inl e ↦ rw e h
      | inr (x, e) ↦ rw e (elim (Bool-cases (out.has_receiver x)) [
        | inl b ↦ rw b (
          h.0,
          send_routed (to_subscriber x msg) s
              (own, inr (job, addressed, ap (Map.get job) (sym h.0) ∙ e)) h.1,
        )
        | inr b ↦ rw b h
      ])
    ]

    finish_job-Steady :
        (e job : String) (s : State N F) → Steady s → Steady (finish_job session out e job s)
    unfolding finish_job send session_id job_id
    finish_job-Steady e job s h =
        let f : ReceiveMessage N F = failure session out e job in
        tell-Steady job f
          (send (to_broker f) (record s { running_blocks = Map.remove job s.running_blocks })) refl
          refl (h.0, All-append IsRouted s.sent (to_broker f ∷ []) h.1 (tt, tt))

    pub finish_jobs-Steady :
        (e executor : String) (identifier : Option String) (s : State N F)
        → Steady s
        → Steady (finish_jobs session out e executor identifier s)
    unfolding finish_jobs
    finish_jobs-Steady e executor identifier s h =
        for_each_inv Steady (finish_job session out e) (finish_job-Steady e)
          (jobs_on executor identifier s.running_blocks) s h

    tell_all_routed :
        (msg : ReceiveMessage N F) (kept to : Map ℕ) (s : State N F)
        → session_id msg ≡ session.id
        → job_id msg ≡ none
        → AllRouted s
        → AllRouted (tell_all session out msg kept to s)
    unfolding tell_all
    tell_all_routed msg kept [] s own lifecycle h = h
    tell_all_routed msg kept ((j, x) ∷ m) s own lifecycle h =
        elim (Bool-cases (out.has_receiver x)) [
          | inl e ↦ rw e (
              tell_all_routed msg kept m (send (to_subscriber x msg) s) own lifecycle
                (send_routed (to_subscriber x msg) s (own, inl lifecycle) h))
          | inr e ↦ rw e (tell_all_routed msg kept m s own lifecycle h)
        ]

    broadcast_routed :
        (msg : ReceiveMessage N F) (s : State N F)
        → session_id msg ≡ session.id
        → job_id msg ≡ none
        → AllRouted s
        → AllRouted (broadcast session out msg s)
    unfolding broadcast
    broadcast_routed msg s own lifecycle h = tell_all_routed msg _ s.subscribers s own lifecycle h

    pub timeout_routed :
        (executor : String) (pkg_path identifier : Option String) (s : State N F)
        → Steady s
        → AllRouted (on_spawn_executor_timeout session out executor pkg_path identifier s)
    unfolding on_spawn_executor_timeout session_id job_id
    timeout_routed executor pkg_path identifier s h =
        let name = executor_map_name_from_parts executor identifier in
        elim (Bool-cases (is_spawned (Map.get name s.executor_map))) [
          | inl e ↦ rw e (
              broadcast_routed (Message.executor_timeout session.id executor pkg_path identifier) _
                refl refl
                (finish_jobs-Steady (session.timeout_text executor pkg_path identifier) executor
                  identifier _ h).1)
          | inr e ↦ rw e h.1
        ]

    ready_routed :
        (executor : String) (pkg_path identifier : Option String) (sid : String) (s : State N F)
        → sid ≡ session.id
        → Steady s
        → AllRouted (on_executor_ready session out sid executor pkg_path identifier s)
    unfolding on_executor_ready session_id job_id
    ready_routed executor pkg_path identifier sid s own h =
        let name = executor_map_name_from_parts executor identifier in
        elim (Bool-cases (is_late (Map.get name s.executor_map))) [
          | inl e ↦ rw e h.1
          | inr e ↦
              rw e
                (broadcast_routed (executor_ready sid executor pkg_path identifier) _ own refl h.1)
        ]

    forward_any_routed :
        (msg : ReceiveMessage N F) (s : State N F)
        → session_id msg ≡ session.id
        → Steady s
        → AllRouted (forward_any session out msg s)
    unfolding forward_any
    forward_any_routed msg s own h = elim (Option-cases (job_id msg)) [
      | inl e ↦ rw e h.1
      | inr (j, e) ↦ rw e (forward_routed j msg s own e h)
    ]

    receive_routed :
        (msg : ReceiveMessage N F) (s : State N F)
        → session_id msg ≡ session.id
        → Steady s
        → AllRouted (on_receive session out msg s)
    unfolding on_receive session_id job_id
    receive_routed (executor_ready sid x p i) s own h = ready_routed x p i sid s own h
    receive_routed (block_request sid r) s own h =
        forward_routed (request_job_id r) (block_request sid r) s own refl h
    receive_routed (block_finished sid j r e) s own h =
        forward_any_routed (block_finished sid j r e)
          (record s { running_blocks = Map.remove j s.running_blocks }) own h
    receive_routed msg s own h = forward_any_routed msg s own h

    pub received_routed :
        (msg : Option (ReceiveMessage N F)) (s : State N F)
        → Steady s
        → AllRouted (received session out (parse_worker_message msg session.id) s)
    unfolding received parse_worker_message
    received_routed none s h = h.1
    received_routed (some msg) s h = elim (Bool-cases (session_id msg == session.id)) [
      | inl e ↦ rw e (receive_routed msg s (eq_of_== (session_id msg) session.id e) h)
      | inr e ↦ rw e h.1
    ]

    pub kill_routed :
        (x : String × ExecutorState) (s : State N F)
        → AllRouted s
        → AllRouted (kill_executor session out x s)
    unfolding kill_executor
    kill_routed (name, e) s h = elim (Option-cases e.pid) [
      | inl p ↦ rw p h
      | inr (pid, p) ↦ rw p (either_routed (has_process e.spawn_state) (kill pid) s s tt h h)
    ]
