-- ===== src/Scheduler/Refused.antt =====
-- mainframe/src/scheduler.rs: what becomes of a block whose executor was not ready in time.
use oocana_rust.Base.{String, true, some, ◌≡◌, refl, arith, ==_refl}
use oocana_rust.Base.Map
use oocana_rust.Node.{neg}
use oocana_rust.Scope.{RuntimeScope}
use oocana_rust.Scheduler.{Outside, Session, State, execute_block, execute_service_block}
use oocana_rust.Scheduler.Executor.{map_name}
use oocana_rust.Scheduler.Names.{executor_name_matches, lifecycle_identifier_matches}
use oocana_rust.Scheduler.Blocks.{lost_executor}
use oocana_rust.Scheduler.Events.{runs_on, on_executor_exit}
use oocana_rust.Scheduler.Loop.{running, handle}
use oocana_rust.Scheduler.World.{World, Reach, cleared}
use oocana_rust.Scheduler.TimedOut.{HasTimedOut, Reach-HasTimedOut, refused_block, refused}
use oocana_rust.Scheduler.Ends.{EndsJob, exit_ends_jobs}

runs_on_self :
    (executor i : String)
    → runs_on executor (some i) (record { executor_name = executor; identifier = i }) ≡ true
unfolding runs_on executor_name_matches lifecycle_identifier_matches
runs_on_self executor i = rw (==_refl i) (rw ==_refl refl)

module _ {N F : Type 0} (session : Session) where
  -- Once an executor has not been ready in time, it is not tried again: after whatever steps, a
  -- command that runs a block or a service block on it only notes the block and queues one command,
  -- the end of the executor. And whenever that command is handled, in a state whose running blocks
  -- have distinct jobs and where the block still runs, the block is ended: the broker is told so
  -- once, and so is the listener of its job, if it has one.
  pub timed_out_block_fails :
      {w v : World N F} (job executor : String) (scope : RuntimeScope) (out later : Outside)
      → (t : State N F) → HasTimedOut (map_name session executor scope) w.state.executor_map
      → Reach session w v
      → Map.IsDistinct t.running_blocks
      → Map.get job t.running_blocks
        ≡ some (record { executor_name = executor; identifier = session.identifier scope })
      → let e = session.start_text executor (session.identifier scope) in
        (handle session out (execute_block job executor scope) (cleared v.state)
          ≡ running (refused_block session out job executor scope e (cleared v.state)))
        × (handle session out (execute_service_block job executor scope) (cleared v.state)
            ≡ running (refused_block session out job executor scope e (cleared v.state)))
        × ((u : State N F) × (handle session later (lost_executor session out executor scope e) t
              ≡ running u)
            × EndsJob session later e job t u)
  unfolding handle
  timed_out_block_fails {v} job executor scope out later t timed reach d runs =
      let e = session.start_text executor (session.identifier scope) in
      let i = session.identifier scope in
      let both =
        refused session out job executor scope (cleared v.state)
          (Reach-HasTimedOut session (map_name session executor scope) reach timed) in
      let ended = exit_ends_jobs session later executor (some i) (neg 0) (some e) t d job in
      (
        both.0,
        both.1,
        (
          on_executor_exit session later executor (some i) (neg 0) (some e) t,
          refl,
          ground (arith, runs_on_self executor i),
        ),
      )
