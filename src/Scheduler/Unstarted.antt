-- ===== src/Scheduler/Unstarted.antt =====
-- mainframe/src/scheduler.rs: an executor whose process could not be started.
use oocana_rust.Base.{
  String, false, Option, none, some, List, [], ◌∷◌, ◌≡◌, refl, arith, eq_iff, ◌==◌, ==_refl, All,
  ap, sym, subst, ◌∙◌, ◌⊎◌, inl, inr, Bool-cases, ◌++◌,
}
use oocana_rust.Base.Map
use oocana_rust.Base.Map.{Map, get-insert, get-remove, get-modify, insert-insert}
use oocana_rust.Scope.{RuntimeScope}
use oocana_rust.Scheduler.{
  not_spawned, ready, ExecutorState, default_state, Outside, Session, State, SchedulerCommand,
  execute_block, worked, failed, spawned, spawn_timer, queue, send,
}
use oocana_rust.Scheduler.Executor.{
  state_at, map_name, query_executor_state, after_finish, check_state, spawn_executor,
  start_executor, set_executor,
}
use oocana_rust.Scheduler.Names.{executor_bin}
use oocana_rust.Scheduler.Blocks.{
  lost_executor, note_running, after_query, with_state, after_spawn, on_execute_block,
}
use oocana_rust.Scheduler.Events.{mark_ready}
use oocana_rust.Scheduler.Loop.{Loop, running, stopped, handle, run}
use oocana_rust.Scheduler.Kept.{handle-On}
use oocana_rust.Scheduler.Entries.{absent_state}
use oocana_rust.Scheduler.Rules.{IsKept, CommandWakes, expire}
use oocana_rust.Scheduler.Quiet.{OnLoop}

-- What a failed start leaves in the map.
abbrev pub IsUnstarted : String → Map ExecutorState → Type 0
IsUnstarted n m = Map.get n m ≡ some default_state

abbrev pub IsAnother : String → String → Type 0
IsAnother n name = (name == n) ≡ false

-- No message tells that the executor is ready.
abbrev pub IsQuiet : {N F : Type 0} → String → Outside × SchedulerCommand N F → Type 0
IsQuiet n c = CommandWakes (IsAnother n) c.1

IsUnstarted-IsKept : (n : String) → IsKept (IsAnother n) (λ m ps. IsUnstarted n m)
unfolding state_at mark_ready
IsUnstarted-IsKept n = record {
  drop = λ name m ps e h. ground (arith, eq_iff name n, get-remove name n m);
  put = λ name e m ps absent fresh h. ground (arith, eq_iff name n, get-insert name n e m);
  start =
      λ p e m ps absent fresh h. ground (arith, eq_iff p.map_name n, get-insert p.map_name n e m);
  time_out = λ name m ps e h. ground (arith, eq_iff name n, get-modify name n expire m);
  wake = λ name m ps w late h. ground (
    arith,
    get-modify name n (λ (e : ExecutorState). record e { spawn_state = ready }) m,
    get-insert name n (record { spawn_state = ready; pid = none }) m,
  );
}

module _ {N F : Type 0} (session : Session) where
  run-IsUnstarted :
      (n : String) (cs : List (Outside × SchedulerCommand N F)) (l : Loop N F)
      → All (IsQuiet n) cs
      → OnLoop (λ m ps. IsUnstarted n m) l
      → OnLoop (λ m ps. IsUnstarted n m) (run session cs l)
  unfolding run
  run-IsUnstarted n [] l q h = h
  run-IsUnstarted n (c ∷ cs) (stopped s) q h = h
  run-IsUnstarted n ((out, c) ∷ cs) (running s) q h =
      run-IsUnstarted n cs (handle session out c s) q.1 (
        handle-On (IsAnother n) (λ m ps. IsUnstarted n m) (IsUnstarted-IsKept n) session out c s q.0
          h)

unstarted_state :
    (n : String) (m : Map ExecutorState) → IsUnstarted n m → state_at n m ≡ not_spawned
unfolding state_at
unstarted_state n m h = ground arith

-- Nothing but the process is in the way: the scope needs no layer or gets one, and a port is found
-- where the executor is to be debugged.
abbrev pub HasLayer : Outside → RuntimeScope → Type 0
HasLayer out scope = (scope.enable_layer ≡ false) ⊎ ((path : String) × (out.layer ≡ worked path))

module _ {N F : Type 0} (session : Session) where
  pub query_unstarted :
      (out : Outside) (executor : String) (scope : RuntimeScope) (s : State N F)
      → HasLayer out scope
      → state_at (map_name session executor scope) s.executor_map ≡ not_spawned
      → (layer : Option String) × (query_executor_state session out executor scope s
          ≡ (s, worked (record { executor_state = not_spawned; layer = layer })))
  unfolding query_executor_state after_finish check_state
  query_unstarted out executor scope s (inl off) e = (none, rw e (rw off refl))
  query_unstarted out executor scope s (inr (path, given)) e =
      elim (Bool-cases scope.enable_layer) [
        | inl on ↦ (some path, rw e (rw (on, given) refl))
        | inr off ↦ (none, rw e (rw off refl))
      ]

  -- The start fails, and leaves the entry.
  spawn_fails :
      (out : Outside) (executor : String) (layer : Option String) (scope : RuntimeScope)
      (e : String) (s : State N F)
      → out.debug_port ≡ worked tt
      → out.process ≡ failed e
      → Map.contains_key (map_name session executor scope) s.executor_map ≡ false
      → (t : State N F) × (spawn_executor session out executor layer scope s ≡ (t, failed e))
        × IsUnstarted (map_name session executor scope) t.executor_map
        × (t.queued ≡ s.queued)
  unfolding spawn_executor start_executor set_executor send
  spawn_fails out executor layer scope e s port broken absent =
      let name = map_name session executor scope in
      let made =
        get-insert name name default_state
          (Map.insert name (record { spawn_state = spawned; pid = none }) s.executor_map) in
      let started : State N F = set_executor name default_state (
        send (spawn_timer name (executor_bin executor) layer (session.identifier scope))
          (set_executor name (record { spawn_state = spawned; pid = none }) s)) in
      (started, rw (absent, port, broken) refl, ground (arith, made, ==_refl name), refl)

  start_fails :
      (out : Outside) (job executor : String) (scope : RuntimeScope) (e : String) (s : State N F)
      → HasLayer out scope
      → out.debug_port ≡ worked tt
      → out.process ≡ failed e
      → Map.contains_key (map_name session executor scope) s.executor_map ≡ false
      → (t : State N F) × (handle session out (execute_block job executor scope) s ≡ running t)
        × IsUnstarted (map_name session executor scope) t.executor_map
        × (t.queued ≡ s.queued ++ lost_executor session out executor scope e ∷ [])
  unfolding handle on_execute_block after_query with_state after_spawn queue
  start_fails out job executor scope e s layered port broken absent =
      let name = map_name session executor scope in
      let noted = note_running session out job executor scope s in
      let (layer, q) =
        query_unstarted out executor scope noted layered
          (unfold note_running in absent_state name s.executor_map name absent) in
      let (t, failing, unstarted, same) =
        spawn_fails out executor layer scope e noted port broken (unfold note_running in absent) in
      (
        queue (lost_executor session out executor scope e) t,
        rw q (rw failing refl),
        unstarted,
        rw same (unfold note_running in refl),
      )

  -- Another block on it is only noted.
  unstarted_block_waits :
      (out : Outside) (job executor : String) (scope : RuntimeScope) (s : State N F)
      → HasLayer out scope
      → IsUnstarted (map_name session executor scope) s.executor_map
      → handle session out (execute_block job executor scope) s
        ≡ running (note_running session out job executor scope s)
  unfolding handle on_execute_block after_query with_state after_spawn state_at spawn_executor
  unstarted_block_waits out job executor scope s layered h =
      let name = map_name session executor scope in
      let noted = note_running session out job executor scope s in
      let (layer, q) =
        query_unstarted out executor scope noted layered
          (unfold note_running in unstarted_state name s.executor_map h) in
      rw q (unfold note_running in rw h refl)

  -- When the process of an executor cannot be started (the scope needs no layer or gets one, and a
  -- port is found where the executor is to be debugged), the block is ended by a command that is
  -- queued. But the executor stays in the map: after any other commands, as long as the loop runs
  -- and no message says that the executor is ready, a further block on it is only noted as running.
  -- No process is started for it, nothing is sent and no command is queued, whether or not the
  -- process could be started now.
  pub failed_start_blocks :
      (out : Outside) (job executor : String) (scope : RuntimeScope) (e : String) (s : State N F)
      → (cs : List (Outside × SchedulerCommand N F)) (u : State N F)
      → (later : Outside) (next_job : String) → HasLayer out scope
      → out.debug_port ≡ worked tt
      → out.process ≡ failed e
      → Map.contains_key (map_name session executor scope) s.executor_map ≡ false
      → All (IsQuiet (map_name session executor scope)) cs
      → run session cs (handle session out (execute_block job executor scope) s) ≡ running u
      → HasLayer later scope
      → (t : State N F) × (handle session out (execute_block job executor scope) s ≡ running t)
        × (t.queued ≡ s.queued ++ lost_executor session out executor scope e ∷ [])
        × (handle session later (execute_block next_job executor scope) u
            ≡ running (note_running session later next_job executor scope u))
  failed_start_blocks out job executor scope e s cs u later next_job layered port broken absent
        quiet ran ready_layer =
      let n = map_name session executor scope in
      let (t, started, unstarted, queued) =
        start_fails out job executor scope e s layered port broken absent in
      let kept : OnLoop (λ m ps. IsUnstarted n m) (run session cs (running t)) =
        run-IsUnstarted session n cs (running t) quiet unstarted in
      let after : OnLoop (λ m ps. IsUnstarted n m) (running u) =
        subst (OnLoop (λ m ps. IsUnstarted n m)) (ap (run session cs) (sym started) ∙ ran) kept in
      (t, started, queued, unstarted_block_waits later next_job executor scope u ready_layer after)
