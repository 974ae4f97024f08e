-- ===== src/Scheduler/Quiet.antt =====
-- mainframe/src/scheduler.rs: what the handlers of ends and messages keep of the map of executors
-- and of the processes.
use oocana_rust.Base.{
  String, Bool, true, false, Option, List, [], ◌∷◌, ◌≡◌, refl, subst, Bool-cases, inl, inr,
  Option-cases, ℕ, if◌then◌else◌, for_each_inv,
}
use mathlib.Core.List.{append-nil}
use oocana_rust.Base.Map
use oocana_rust.Base.Map.{Map}
use oocana_rust.Message.{
  ReceiveMessage, executor_ready, block_request, block_finished, job_id, request_job_id,
}
use oocana_rust.Message
use oocana_rust.Message.{parse_worker_message, session_id}
use oocana_rust.Scheduler.Names.{executor_map_name_from_parts}
use oocana_rust.Scheduler.{
  ExecutorState, Outside, Session, State, Sent, send, to_broker, to_subscriber, kill,
}
use oocana_rust.Scheduler.Events.{
  tell, tell_all, kill_executor, has_process, failure, is_spawned, is_late, mark_ready, finish_job,
  finish_jobs, broadcast, forward, forward_any, on_spawn_executor_timeout, on_executor_ready,
  on_receive,
}
use oocana_rust.Scheduler.Loop.{Loop, running, stopped}
use oocana_rust.Scheduler.World.{Process, processes_of}
use oocana_rust.Scheduler.Rules.{processes_of-append, expire, IsKept, Wakes}

module _ {N F : Type 0} (P : Map ExecutorState → List Process → Type 0) where
  abbrev pub On : State N F → Type 0
  On s = P s.executor_map (processes_of s.sent)

  abbrev pub OnLoop : Loop N F → Type 0
  OnLoop (running s) = On s
  OnLoop (stopped s) = On s

  pub send_quiet :
      (m : Sent N F) (s : State N F) → processes_of (m ∷ []) ≡ [] → On s → On (send m s)
  unfolding send
  send_quiet m s quiet h =
      subst (P s.executor_map) (rw (processes_of-append s.sent (m ∷ []), quiet, append-nil) refl) h

  pub quiet_step :
      (b : Bool) (m : Sent N F) (s t : State N F)
      → processes_of (m ∷ []) ≡ []
      → On s
      → On t
      → On (if b then send m s else t)
  quiet_step true m s t quiet h k = send_quiet m s quiet h
  quiet_step false m s t quiet h k = k

  module _ (session : Session) (out : Outside) where
    tell-On :
        (job : String) (msg : ReceiveMessage N F) (s : State N F)
        → On s
        → On (tell session out job msg s)
    unfolding tell processes_of
    tell-On job msg s h = elim (Option-cases (Map.get job s.subscribers)) [
      | inl e ↦ rw e h
      | inr (x, e) ↦ rw e (quiet_step (out.has_receiver x) (to_subscriber x msg) s s refl h h)
    ]

    pub forward-On :
        (job : String) (msg : ReceiveMessage N F) (s : State N F)
        → On s
        → On (forward session out job msg s)
    unfolding forward processes_of
    forward-On job msg s h = elim (Option-cases (Map.get job s.subscribers)) [
      | inl e ↦ rw e h
      | inr (x, e) ↦ rw e (
          quiet_step (out.has_receiver x) (to_subscriber x msg) s
            (record s { subscribers = Map.remove job s.subscribers }) refl h h)
    ]

    finish_job-On : (e job : String) (s : State N F) → On s → On (finish_job session out e job s)
    unfolding finish_job processes_of
    finish_job-On e job s h =
        let failed_job = failure session out e job in
        let dropped = record s { running_blocks = Map.remove job s.running_blocks } in
        tell-On job failed_job (send (to_broker failed_job) dropped)
          (send_quiet (to_broker failed_job) dropped refl h)

    pub finish_jobs-On :
        (e executor : String) (identifier : Option String) (s : State N F)
        → On s
        → On (finish_jobs session out e executor identifier s)
    unfolding finish_jobs
    finish_jobs-On e executor identifier s h =
        for_each_inv On (finish_job session out e) (finish_job-On e) _ s h

    tell_all-On :
        (msg : ReceiveMessage N F) (kept to : Map ℕ) (s : State N F)
        → On s
        → On (tell_all session out msg kept to s)
    unfolding tell_all processes_of
    tell_all-On msg kept [] s h = h
    tell_all-On msg kept ((j, x) ∷ m) s h = elim (Bool-cases (out.has_receiver x)) [
      | inl e ↦ rw e (
          tell_all-On msg kept m (send (to_subscriber x msg) s)
            (send_quiet (to_subscriber x msg) s refl h))
      | inr e ↦ rw e (tell_all-On msg kept m s h)
    ]

    pub broadcast-On :
        (msg : ReceiveMessage N F) (s : State N F) → On s → On (broadcast session out msg s)
    unfolding broadcast
    broadcast-On msg s h = tell_all-On msg _ s.subscribers s h

    pub forward_any-On :
        (msg : ReceiveMessage N F) (s : State N F) → On s → On (forward_any session out msg s)
    unfolding forward_any
    forward_any-On msg s h = elim (Option-cases (job_id msg)) [
      | inl e ↦ rw e h
      | inr (j, e) ↦ rw e (forward-On j msg s h)
    ]

    pub kill-On :
        (x : String × ExecutorState) (s : State N F) → On s → On (kill_executor session out x s)
    unfolding kill_executor processes_of
    kill-On (name, e) s h = elim (Option-cases e.pid) [
      | inl p ↦ rw p h
      | inr (pid, p) ↦ rw p (quiet_step (has_process e.spawn_state) (kill pid) s s refl h h)
    ]

module _ {N F : Type 0} (W : String → Type 0) (P : Map ExecutorState → List Process → Type 0)
    (kept : IsKept W P) (session : Session) (out : Outside) where
  pub on_spawn_executor_timeout-On :
      (executor : String) (pkg_path identifier : Option String) (s : State N F)
      → On P s
      → On P (on_spawn_executor_timeout session out executor pkg_path identifier s)
  unfolding on_spawn_executor_timeout
  on_spawn_executor_timeout-On executor pkg_path identifier s h =
      let name = executor_map_name_from_parts executor identifier in
      elim (Bool-cases (is_spawned (Map.get name s.executor_map))) [
        | inl e ↦
            let aged = record s { executor_map = Map.modify name expire s.executor_map } in
            let reason = session.timeout_text executor pkg_path identifier in
            rw e (
              broadcast-On P session out
                (Message.executor_timeout session.id executor pkg_path identifier)
                (finish_jobs session out reason executor identifier aged)
                (finish_jobs-On P session out reason executor identifier aged
                  (kept.time_out name s.executor_map (processes_of s.sent) e h)))
        | inr e ↦ rw e h
      ]

  on_executor_ready-On :
      (sid executor : String) (pkg_path identifier : Option String) (s : State N F)
      → W (executor_map_name_from_parts executor identifier)
      → On P s
      → On P (on_executor_ready session out sid executor pkg_path identifier s)
  unfolding on_executor_ready
  on_executor_ready-On sid executor pkg_path identifier s w h =
      let name = executor_map_name_from_parts executor identifier in
      elim (Bool-cases (is_late (Map.get name s.executor_map))) [
        | inl e ↦ rw e h
        | inr e ↦ rw e (
            broadcast-On P session out (executor_ready sid executor pkg_path identifier)
              (record s { executor_map = mark_ready name s.executor_map })
              (kept.wake name s.executor_map (processes_of s.sent) w e h))
      ]

  pub on_receive-On :
      (msg : ReceiveMessage N F) (s : State N F)
      → Wakes W msg
      → On P s
      → On P (on_receive session out msg s)
  unfolding on_receive
  on_receive-On (executor_ready sid x p i) s w h = on_executor_ready-On sid x p i s w h
  on_receive-On (block_request sid r) s w h =
      forward-On P session out (request_job_id r) (block_request sid r) s h
  on_receive-On (block_finished sid j r e) s w h =
      forward_any-On P session out (block_finished sid j r e)
        (record s { running_blocks = Map.remove j s.running_blocks }) h
  on_receive-On msg s w h = forward_any-On P session out msg s h
