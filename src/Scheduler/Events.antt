-- ===== src/Scheduler/Events.antt =====
-- mainframe/src/scheduler.rs: how the loop treats the end of executors and the messages of executors.
use oocana_rust.Base.{
  ℕ, String, Bool, true, false, ◌&&◌, Option, none, some, List, [], ◌∷◌, if◌then◌else◌, unwrap_or,
  map_or, keep_if, for_each,
}
use oocana_rust.Base.Map
use oocana_rust.Base.Map.{Map}
use oocana_rust.Node.{Int32}
use oocana_rust.Message
use oocana_rust.Message.{
  ReceiveMessage, block_finished, executor_ready, block_request, request_job_id, job_id,
}
use oocana_rust.Scheduler.{
  ExecutorSpawnState, not_spawned, spawned, ready, timed_out, finished, ExecutorState, RunningBlock,
  Outside, Session, State, to_broker, to_subscriber, kill, disconnect, send,
}
use oocana_rust.Scheduler.Names.{
  executor_name_matches, lifecycle_identifier_matches, executor_map_name_from_parts,
}

unfoldable pub runs_on : String → Option String → RunningBlock → Bool
unfolding executor_name_matches lifecycle_identifier_matches
runs_on executor identifier block =
    executor_name_matches block.executor_name executor
    && lifecycle_identifier_matches identifier block.identifier

unfoldable pub jobs_on : String → Option String → Map RunningBlock → List String
unfolding runs_on
jobs_on executor identifier [] = []
jobs_on executor identifier ((job, block) ∷ m) =
    let rest = jobs_on executor identifier m in
    if runs_on executor identifier block then job ∷ rest else rest

abbrev pub is_spawned : Option ExecutorState → Bool
is_spawned none = false
is_spawned (some e) = elim e.spawn_state [ spawned ↦ true | _ ↦ false ]

abbrev pub is_late : Option ExecutorState → Bool
is_late none = false
is_late (some e) = elim e.spawn_state [ timed_out ↦ true | finished ↦ true | _ ↦ false ]

unfoldable pub mark_ready : String → Map ExecutorState → Map ExecutorState
mark_ready name m =
    map_or (Map.get name m) (Map.insert name (record { spawn_state = ready; pid = none }) m)
      (λ _. Map.modify name (λ e. record e { spawn_state = ready }) m)

abbrev pub has_process : ExecutorSpawnState → Bool
has_process not_spawned = false
has_process _ = true

module _ {N F : Type 0} (session : Session) (out : Outside) where
  -- `if let Some(sender) = subscribers.get(job)`, where a failing send only leaves a warning.
  unfoldable pub tell : String → ReceiveMessage N F → State N F → State N F
  unfolding send
  tell job msg s =
      map_or (Map.get job s.subscribers) s
        (λ sender. if out.has_receiver sender then send (to_subscriber sender msg) s else s)

  abbrev pub failure : String → String → ReceiveMessage N F
  failure e job = block_finished session.id job none (some e)

  unfoldable pub finish_job : String → String → State N F → State N F
  unfolding tell send
  finish_job e job s = tell job (failure e job) (
      send (to_broker (failure e job))
        (record s { running_blocks = Map.remove job s.running_blocks }))

  unfoldable pub finish_jobs : String → String → Option String → State N F → State N F
  unfolding finish_job jobs_on
  finish_jobs e executor identifier s =
      for_each (finish_job e) (jobs_on executor identifier s.running_blocks) s

  unfoldable pub on_executor_exit :
      String → Option String → Int32 → Option String → State N F → State N F
  unfolding finish_jobs
  on_executor_exit executor identifier code reason s =
      finish_jobs (unwrap_or reason (session.exit_text executor code)) executor identifier s

  -- `subscribers.retain`: a listener that is gone is taken out.
  unfoldable pub tell_all : ReceiveMessage N F → Map ℕ → List (String × ℕ) → State N F → State N F
  unfolding send
  tell_all msg kept [] s = record s { subscribers = kept }
  tell_all msg kept ((job, sender) ∷ m) s =
      let told = tell_all msg kept m (send (to_subscriber sender msg) s) in
      let skipped = tell_all msg kept m s in if out.has_receiver sender then told else skipped

  unfoldable pub broadcast : ReceiveMessage N F → State N F → State N F
  unfolding tell_all
  broadcast msg s = tell_all msg (keep_if (λ p. out.has_receiver p.1) s.subscribers) s.subscribers s

  unfoldable pub on_spawn_executor_timeout :
      String → Option String → Option String → State N F → State N F
  unfolding finish_jobs broadcast executor_map_name_from_parts
  on_spawn_executor_timeout executor pkg_path identifier s =
      let name = executor_map_name_from_parts executor identifier in
      if is_spawned (Map.get name s.executor_map)
      then broadcast (Message.executor_timeout session.id executor pkg_path identifier) (
          finish_jobs (session.timeout_text executor pkg_path identifier) executor identifier
            (record s {
              executor_map =
                  Map.modify name (λ e. record e { spawn_state = timed_out }) s.executor_map;
            }))
      else s

  unfoldable pub on_executor_ready :
      String → String → Option String → Option String → State N F → State N F
  unfolding mark_ready broadcast executor_map_name_from_parts
  on_executor_ready sid executor pkg_path identifier s =
      let name = executor_map_name_from_parts executor identifier in
      if is_late (Map.get name s.executor_map)
      then s
      else broadcast (executor_ready sid executor pkg_path identifier)
          (record s { executor_map = mark_ready name s.executor_map })

  -- The listener of a job, which is taken out when it is gone.
  unfoldable pub forward : String → ReceiveMessage N F → State N F → State N F
  unfolding send
  forward job msg s = map_or (Map.get job s.subscribers) s (λ sender.
      if out.has_receiver sender
      then send (to_subscriber sender msg) s
      else record s { subscribers = Map.remove job s.subscribers })

  unfoldable pub forward_any : ReceiveMessage N F → State N F → State N F
  unfolding forward job_id
  forward_any msg s = map_or (job_id msg) s (λ job. forward job msg s)

  unfoldable pub on_receive : ReceiveMessage N F → State N F → State N F
  unfolding on_executor_ready forward forward_any request_job_id
  on_receive (executor_ready sid executor pkg_path identifier) s =
      on_executor_ready sid executor pkg_path identifier s
  on_receive (block_request sid request) s =
      forward (request_job_id request) (block_request sid request) s
  on_receive (block_finished sid job result error) s =
      forward_any (block_finished sid job result error)
        (record s { running_blocks = Map.remove job s.running_blocks })
  on_receive msg s = forward_any msg s

  unfoldable pub kill_executor : String × ExecutorState → State N F → State N F
  unfolding send
  kill_executor (name, e) s =
      map_or e.pid s (λ pid. if has_process e.spawn_state then send (kill pid) s else s)

  unfoldable pub on_abort : State N F → State N F
  unfolding kill_executor send
  on_abort s = send disconnect (for_each kill_executor s.executor_map s)
