-- ===== src/Scheduler/Entries.antt =====
-- mainframe/src/scheduler.rs: what each change of the map of executors does to the states in it.
use oocana_rust.Base.{String, true, false, none, ◌≡◌, arith, eq_iff, if◌then◌else◌, ◌==◌}
use oocana_rust.Base.Map
use oocana_rust.Base.Map.{Map, get-insert, get-remove, get-modify}
use oocana_rust.Scheduler.{not_spawned, ready, timed_out, ExecutorState}
use oocana_rust.Scheduler.Executor.{state_at}
use oocana_rust.Scheduler.Events.{is_spawned, mark_ready}
use oocana_rust.Scheduler.Rules.{expire}
use oocana_rust.Scheduler.World.{forget_process}

module _ (name : String) (m : Map ExecutorState) (n : String) where
  pub state_at-insert :
      (e : ExecutorState)
      → state_at n (Map.insert name e m) ≡ (if name == n then e.spawn_state else state_at n m)
  unfolding state_at
  state_at-insert e = ground (arith, get-insert name n e m)

  pub state_at-remove :
      state_at n (Map.remove name m) ≡ (if name == n then not_spawned else state_at n m)
  unfolding state_at
  state_at-remove = ground (arith, get-remove name n m)

  pub state_at-expire :
      is_spawned (Map.get name m) ≡ true
      → state_at n (Map.modify name expire m) ≡ (if name == n then timed_out else state_at n m)
  unfolding state_at
  state_at-expire h = ground (arith, get-modify name n expire m)

  pub state_at-mark_ready :
      state_at n (mark_ready name m) ≡ (if name == n then ready else state_at n m)
  unfolding state_at mark_ready
  state_at-mark_ready = ground (
    arith,
    get-modify name n (λ (e : ExecutorState). record e { spawn_state = ready }) m,
    get-insert name n (record { spawn_state = ready; pid = none }) m,
  )

  pub state_at-forget_process : state_at n (forget_process name m) ≡ (
      if name == n
      then elim (state_at n m) [ timed_out ↦ timed_out | _ ↦ not_spawned ]
      else state_at n m)
  unfolding state_at forget_process
  state_at-forget_process = ground (
    arith,
    eq_iff name n,
    get-modify name n (λ (e : ExecutorState). record e { pid = none }) m,
    get-remove name n m,
  )

  -- An entry stays an entry.
  pub contains-insert :
      (e : ExecutorState)
      → Map.contains_key n m ≡ true
      → Map.contains_key n (Map.insert name e m) ≡ true
  contains-insert e h = ground (arith, get-insert name n e m)

  pub contains-modify :
      (f : ExecutorState → ExecutorState)
      → Map.contains_key n m ≡ true
      → Map.contains_key n (Map.modify name f m) ≡ true
  contains-modify f h = ground (arith, eq_iff name n, get-modify name n f m)

  pub contains-mark_ready :
      Map.contains_key n m ≡ true → Map.contains_key n (mark_ready name m) ≡ true
  unfolding mark_ready
  contains-mark_ready h = ground (
    arith,
    contains-modify (λ (e : ExecutorState). record e { spawn_state = ready }) h,
    contains-insert (record { spawn_state = ready; pid = none }) h,
  )

  pub contains-forget_process :
      (name == n) ≡ false
      → Map.contains_key n m ≡ true
      → Map.contains_key n (forget_process name m) ≡ true
  unfolding forget_process
  contains-forget_process other h = ground (
    arith,
    contains-modify (λ (e : ExecutorState). record e { pid = none }) h,
    get-remove name n m,
  )

  -- Only an executor that is in the map has a state.
  pub absent_state : Map.contains_key n m ≡ false → state_at n m ≡ not_spawned
  unfolding state_at
  absent_state h = ground arith
