-- ===== src/Handshake.antt =====
-- mainframe/src/scheduler.rs with runtime/src/block_job/listener.rs: how the first block on an
-- executor gets to it. The scheduler starts the executor, tells the listeners when it is ready, and
-- the listener of the block asks the scheduler once more to run it.
use oocana_rust.Base.{
  ℕ, String, true, false, Option, none, some, List, [], ◌∷◌, ◌++◌, ◌≡◌, refl, ap, arith, ==_refl,
  keep_if,
}
use mathlib.Core.List.{append_assoc}
use oocana_rust.Base.Map
use oocana_rust.Base.Map.{Map, get-insert, insert-insert, get-modify}
use oocana_rust.Scope.{RuntimeScope}
use oocana_rust.Message.{ReceiveMessage, executor_ready, session_id, parse_worker_message}
use oocana_rust.Scheduler.{
  ExecutorState, ready, spawned, Outside, Session, State, send, run_block, listener_timer,
  start_process, spawn_timer, SchedulerCommand, Sent, execute_block, receive, worked,
}
use oocana_rust.Scheduler.Names.{
  strip_suffix, executor_suffix, executor_map_name_from_parts, generate_executor_map_name,
  trim_executor_suffix, executor_bin,
}
use oocana_rust.Scheduler.Executor.{
  state_at, map_name, query_executor_state, after_finish, check_state, spawn_executor,
  start_executor, set_executor,
}
use oocana_rust.Scheduler.Blocks.{
  note_running, after_query, with_state, after_spawn, on_execute_block,
}
use oocana_rust.Scheduler.Events.{
  mark_ready, is_late, tell_all, broadcast, on_executor_ready, on_receive,
}
use oocana_rust.Scheduler.Entries.{absent_state, state_at-mark_ready}
use oocana_rust.Scheduler.Loop.{running, received, handle}
use oocana_rust.Scheduler.Client.{calculate_scope, send_to_executor}
use oocana_rust.Listener.{
  ListenerParameters, ListenerState, command, tell, run_block as ask, on_executor_ready as on_ready,
  on_message,
}
use oocana_rust.Scheduler.Unstarted.{HasLayer, query_unstarted}
use oocana_rust.Scheduler.Broadcast.{Gets, tell_all_reaches, tell_all_map}

-- The name that the executor gives itself is the one in the map.
own_name :
    (session : Session) (executor : String) (scope : RuntimeScope)
    → strip_suffix executor executor_suffix ≡ none
    → executor_map_name_from_parts executor (some (session.identifier scope))
      ≡ map_name session executor scope
unfolding executor_map_name_from_parts trim_executor_suffix generate_executor_map_name
own_name session executor scope plain = rw plain refl

module _ {N F : Type 0} (session : Session) where
  -- Two things are done more: the timer for the executor is set, and its process is started, under
  -- the name that stands for the executor and the scope.
  abbrev pub Starts : String → RuntimeScope → List (Sent N F) → List (Sent N F) → Type 0
  Starts executor scope before after =
      let name = map_name session executor scope in
      let i = session.identifier scope in
      (layer : Option String) × (after
        ≡ before
          ++ spawn_timer name (executor_bin executor) layer i
            ∷ start_process name (executor_bin executor) i
            ∷ [])

  -- The process of the first block is started.
  start_works :
      (out : Outside) (job executor : String) (scope : RuntimeScope) (pid : Option ℕ)
      (s : State N F)
      → HasLayer out scope
      → out.debug_port ≡ worked tt
      → out.process ≡ worked pid
      → Map.contains_key (map_name session executor scope) s.executor_map ≡ false
      → (t : State N F) × (handle session out (execute_block job executor scope) s ≡ running t)
        × (Map.get (map_name session executor scope) t.executor_map
            ≡ some (record { spawn_state = spawned; pid = pid }))
        × (t.subscribers ≡ s.subscribers)
        × Starts executor scope s.sent t.sent
  unfolding handle on_execute_block after_query with_state after_spawn spawn_executor start_executor
      set_executor send note_running
  start_works out job executor scope pid s layered port works absent =
      let name = map_name session executor scope in
      let i = session.identifier scope in
      let noted = note_running session out job executor scope s in
      let e : ExecutorState = record { spawn_state = spawned; pid = pid } in
      let early : ExecutorState = record { spawn_state = spawned; pid = none } in
      let (layer, q) =
        query_unstarted session out executor scope noted layered
          (absent_state name s.executor_map name absent) in
      let t : State N F = send (start_process name (executor_bin executor) i) (
        set_executor name e (
          send (spawn_timer name (executor_bin executor) layer i)
            (set_executor name early noted))) in
      (
        t,
        rw q (rw (absent, port, works) refl),
        ground (arith, get-insert name name e (Map.insert name early s.executor_map), ==_refl name),
        refl,
        (
          layer,
          append_assoc s.sent (spawn_timer name (executor_bin executor) layer i ∷ [])
              (start_process name (executor_bin executor) i ∷ []),
        ),
      )

  ready_works :
      (out : Outside) (job executor : String) (scope : RuntimeScope) (pkg_path : Option String)
      → (x : ℕ) (e : ExecutorState) (t : State N F) → strip_suffix executor executor_suffix ≡ none
      → Map.get (map_name session executor scope) t.executor_map ≡ some e
      → is_late (some e) ≡ false
      → Map.get job t.subscribers ≡ some x
      → out.has_receiver x ≡ true
      → let msg : ReceiveMessage N F =
          executor_ready session.id executor pkg_path (some (session.identifier scope)) in
        (u : State N F) × (handle session out (receive (some msg)) t ≡ running u)
        × Gets x msg u.sent
        × (state_at (map_name session executor scope) u.executor_map ≡ ready)
  unfolding handle received parse_worker_message session_id on_receive on_executor_ready broadcast
  ready_works out job executor scope pkg_path x e t plain here early listens alive =
      let name = map_name session executor scope in
      let msg : ReceiveMessage N F =
        executor_ready session.id executor pkg_path (some (session.identifier scope)) in
      let woken : State N F = record t { executor_map = mark_ready name t.executor_map } in
      let left = keep_if (λ p. out.has_receiver p.1) t.subscribers in
      let u : State N F = tell_all session out msg left t.subscribers woken in
      (
        u,
        rw (==_refl session.id)
            (rw (own_name session executor scope plain) (rw (here, early) refl)),
        tell_all_reaches x msg session out job left t.subscribers woken listens alive,
        rw (tell_all_map x msg session out left t.subscribers woken)
            (ground (arith, state_at-mark_ready name t.executor_map name, ==_refl name)),
      )

  run_works :
      (out : Outside) (job executor : String) (scope : RuntimeScope) (u : State N F)
      → state_at (map_name session executor scope) u.executor_map ≡ ready
      → (v : State N F) × (handle session out (execute_block job executor scope) u ≡ running v)
        × (v.sent
            ≡ u.sent ++ run_block executor job (session.identifier scope) ∷ listener_timer job ∷ [])
  unfolding handle on_execute_block after_query with_state query_executor_state after_finish
      check_state send note_running
  run_works out job executor scope u awake =
      let noted = note_running session out job executor scope u in
      (
        send (listener_timer job) (send (run_block executor job (session.identifier scope)) noted),
        rw awake refl,
        append_assoc u.sent (run_block executor job (session.identifier scope) ∷ [])
            (listener_timer job ∷ []),
      )

ready_answer :
    {N F : Type 0} (session : Session) (params : ListenerParameters N) (executor : String)
    → params.executor ≡ some executor
    → on_ready {F = F} session.identifier params executor
        (some (session.identifier params.block_scope))
      ≡ command (send_to_executor params.scheduler_tx executor params.job_id params.scope) ∷ []
unfolding on_ready ask
ready_answer session params executor own =
    rw (==_refl (session.identifier params.block_scope), own, ==_refl executor) refl

-- The first block on an executor, whose name has no suffix. Its scope needs no layer or gets one,
-- the process starts, the listener of its job is registered and there, and it knows the scope that
-- the scheduler calculates. Then, with no other command between: the command of the block starts
-- the process of the executor, under the name that stands for the executor and the scope, and sets
-- its timer, and sends nothing else; when the executor tells that it is ready, the listener gets to
-- know; it answers with the command of the block and with nothing else; and this command sends the
-- block to the executor, and sets the timer for the answer.
pub first_block_runs :
    {N F : Type 0} (session : Session) (params : ListenerParameters N)
    → (first second later : Outside) (executor : String) (pkg_path : Option String) (pid : Option ℕ)
    → (x : ℕ) (s : State N F) (l : ListenerState N F) → params.executor ≡ some executor
    → strip_suffix executor executor_suffix ≡ none
    → calculate_scope params.scheduler_tx params.scope ≡ params.block_scope
    → HasLayer first params.block_scope
    → first.debug_port ≡ worked tt
    → first.process ≡ worked pid
    → Map.contains_key (map_name session executor params.block_scope) s.executor_map ≡ false
    → Map.get params.job_id s.subscribers ≡ some x
    → second.has_receiver x ≡ true
    → let i = session.identifier params.block_scope in
      let c : SchedulerCommand N F =
        send_to_executor params.scheduler_tx executor params.job_id params.scope in
      let msg : ReceiveMessage N F = executor_ready session.id executor pkg_path (some i) in
      (t : State N F) × (u : State N F) × (v : State N F) × (handle session first c s ≡ running t)
      × Starts session executor params.block_scope s.sent t.sent
      × (handle session second (receive (some msg)) t ≡ running u)
      × Gets x msg u.sent
      × (on_message session.identifier params msg l ≡ tell (command c ∷ []) l)
      × (handle session later c u ≡ running v)
      × (v.sent ≡ u.sent ++ run_block executor params.job_id i ∷ listener_timer params.job_id ∷ [])
unfolding send_to_executor on_message
first_block_runs session params first second later executor pkg_path pid x s l own plain scoped
      layered port works absent listens alive =
    let job = params.job_id in
    let scope = params.block_scope in
    let (t, started, entry, same, starts) =
      start_works session first job executor scope pid s layered port works absent in
    let (u, woke, told, awake) =
      ready_works session second job executor scope pkg_path x
        (record { spawn_state = spawned; pid = pid }) t plain entry refl (rw same listens) alive in
    let (v, ran, sent) = run_works session later job executor scope u awake in
    (
      t,
      u,
      v,
      rw scoped started,
      starts,
      woke,
      told,
      ap (λ ts. tell ts l) (ready_answer session params executor own),
      rw scoped ran,
      sent,
    )
