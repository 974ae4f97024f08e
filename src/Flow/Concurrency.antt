-- ===== src/Flow/Concurrency.antt =====
-- runtime/src/flow_job/flow.rs: a node never has more jobs than its concurrency Allows.
use oocana_rust.Base.{
  ℕ, ◌≤◌, ◌<◌, String, true, Option, some, List, [], ◌∷◌, ◌≡◌, refl, arith, eq_iff, ==_refl, ltb,
  length, Bool-cases, inl, inr,
}
use oocana_rust.Base.Map
use oocana_rust.Base.Map.{Map, get-entry, get-insert}
use oocana_rust.Base.StringSet.{StringSet, length-insert-le, length-remove-le}
use oocana_rust.Output.{OutputValue}
use oocana_rust.Node.{Node, node_id, concurrency, as_usize}
use oocana_rust.Subflow.{SubflowBlock, IsKeyed}
use oocana_rust.Flow.{Env, Context, NodeQueue, empty_queue, Status, send}
use oocana_rust.Flow.Run.{
  run_node, add_job, run_next, remove_job, remove_pending, release_job, run_pending_node,
}
use oocana_rust.Flow.Produce.{run_or_wait, add_pending, same_queue, deliver}
use oocana_rust.Flow.Events.{running, flow_success, fail, on_error}
use oocana_rust.Flow.Cases.{queue_at, run_or_wait_cases, deliver_cases, run_pending_cases}
use oocana_rust.Flow.Rounds.{KeepsRounds, OnLoop, Anything, All-Anything, run, keeps-run}

module _ {N F : Type 0} (env : Env N F) (flow : SubflowBlock N) where
  -- Each node with a place has at most as many jobs as places.
  abbrev pub WithinPool : Map NodeQueue → Type 0
  WithinPool pool =
      (n : String) (node : Node N)
      → Map.get n flow.nodes ≡ some node
      → 0 < as_usize (concurrency node)
      → length (queue_at pool n).jobs ≤ as_usize (concurrency node)

  abbrev pub IsWithin : Context N F → Type 0
  IsWithin ctx = WithinPool ctx.node_queue_pool

  -- Writing a queue with no more jobs than there are places.
  WithinPool-insert :
      (k : String) (q : NodeQueue) (pool : Map NodeQueue)
      → WithinPool pool
      → ((node : Node N)
          → Map.get k flow.nodes ≡ some node
          → 0 < as_usize (concurrency node)
          → length q.jobs ≤ as_usize (concurrency node))
      → WithinPool (Map.insert k q pool)
  WithinPool-insert k q pool w h n node here pos =
      ground (arith, get-insert k n q pool, eq_iff k n, w n node here, h node)

  WithinPool-entry :
      (k : String) (f : NodeQueue → NodeQueue) (pool : Map NodeQueue)
      → WithinPool pool
      → ((node : Node N)
          → Map.get k flow.nodes ≡ some node
          → 0 < as_usize (concurrency node)
          → length (f (queue_at pool k)).jobs ≤ as_usize (concurrency node))
      → WithinPool (Map.entry k empty_queue f pool)
  WithinPool-entry k f pool w h n node here pos =
      ground (arith, get-entry k n empty_queue f pool, eq_iff k n, w n node here, h node)

  module _ (keyed : IsKeyed flow.nodes) where
    run_node-IsWithin :
        (n : String) (node : Node N) (ctx : Context N F)
        → Map.get n flow.nodes ≡ some node
        → length (queue_at ctx.node_queue_pool n).jobs < as_usize (concurrency node)
        → IsWithin ctx
        → IsWithin (run_node env node ctx)
    unfolding run_node
    run_node-IsWithin n node ctx here free w =
        let same : node_id node ≡ n = keyed n node here in
        let job_id = env.random ctx.drawn in
        let pool =
          WithinPool-entry (node_id node) (add_job env job_id) ctx.node_queue_pool w (λ d g pos.
            ground (arith, length-insert-le job_id (queue_at ctx.node_queue_pool n).jobs)) in
        ground (arith, pool)

    run_next-IsWithin :
        (n : String) (node : Node N) (ctx : Context N F)
        → Map.get n flow.nodes ≡ some node
        → IsWithin ctx
        → IsWithin (run_next env node n (queue_at ctx.node_queue_pool n) ctx)
    unfolding run_next remove_pending
    run_next-IsWithin n node ctx here w = go (queue_at ctx.node_queue_pool n).pending refl
      where
        go :
            (ps : StringSet)
            → (queue_at ctx.node_queue_pool n).pending ≡ ps
            → IsWithin (run_next env node n (queue_at ctx.node_queue_pool n) ctx)
        go [] e = rw (e, run_next) w
        go (p ∷ ps) e =
            let q = queue_at ctx.node_queue_pool n in
            let c = as_usize (concurrency node) in
            let q' = remove_pending env p q in
            let pool = Map.insert n q' ctx.node_queue_pool in
            let ready = record ctx { node_queue_pool = pool } in
            elim (Bool-cases (ltb (length q.jobs) c)) [
              | inl free ↦
                  let small : length (queue_at pool n).jobs < c =
                    ground (arith, get-insert n n q' ctx.node_queue_pool, ==_refl n) in
                  let within : WithinPool pool =
                    WithinPool-insert n q' ctx.node_queue_pool w
                      (λ d g pos. ground (arith, w n d g pos)) in
                  rw (e, run_next, free) (run_node-IsWithin n node ready here small within)
              | inr full ↦ rw (e, run_next, full) w
            ]

    release_job-IsWithin :
        (n j : String) (ctx : Context N F) → IsWithin ctx → IsWithin (release_job env n j ctx)
    unfolding release_job
    release_job-IsWithin n j ctx w =
        WithinPool-entry n (remove_job env j) ctx.node_queue_pool w (λ d g pos.
          ground (arith, length-remove-le j (queue_at ctx.node_queue_pool n).jobs, w n d g pos))

    run_pending_node-IsWithin :
        (j : String) (ctx : Context N F) → IsWithin ctx → IsWithin (run_pending_node env flow j ctx)
    run_pending_node-IsWithin j ctx w =
        run_pending_cases env flow IsWithin j ctx w (λ n here. release_job-IsWithin n j ctx w)
          (λ n node here known.
            run_next-IsWithin n node (release_job env n j ctx) known
              (release_job-IsWithin n j ctx w))

    run_or_wait-IsWithin :
        (n : String) (node : Node N) (last : ℕ) (ctx : Context N F)
        → Map.get n flow.nodes ≡ some node
        → IsWithin ctx
        → IsWithin (run_or_wait env flow node n last ctx)
    unfolding same_queue add_pending
    run_or_wait-IsWithin n node last ctx here w =
        let pool = Map.entry n empty_queue (same_queue env flow) ctx.node_queue_pool in
        let within : WithinPool pool =
          WithinPool-entry n (same_queue env flow) ctx.node_queue_pool w (λ d g pos. w n d g pos) in
        run_or_wait_cases env flow IsWithin node n last ctx
          (λ free.
            run_node-IsWithin n node (record ctx { node_queue_pool = pool }) here (ground arith)
              within)
          (λ full more.
            WithinPool-insert n (add_pending env flow (env.random ctx.drawn) (queue_at pool n)) pool
              within (λ d g pos. within n d g pos))
          within

    deliver-IsWithin :
        (v : OutputValue N) (n h : String) (ctx : Context N F)
        → IsWithin ctx
        → IsWithin (deliver env flow v true n h ctx)
    deliver-IsWithin v n h ctx w =
        deliver_cases env flow IsWithin v n h ctx w
          (λ node last here ready. run_or_wait-IsWithin n node last _ here w)

    rounds-IsWithin :
        (limit : Option StringSet) → KeepsRounds env flow limit Anything IsWithin IsWithin
    unfolding flow_success fail on_error send
    rounds-IsWithin limit = record {
      base = record {
        plain = λ m ctx p w. w;
        moved = λ p ctx w. w;
        cached = λ n h v ctx w. w;
        delivered = λ v n h ctx a w. deliver-IsWithin v n h ctx w;
      };
      pending = run_pending_node-IsWithin;
      requested = λ b p r ctx e w. w;
      removed = λ j r ctx a w. w;
      succeeded = λ ctx e w. w;
      failed = λ j e r ctx a w. w;
      errored = λ e ctx a w. w;
    }

    -- Take a flow whose nodes stand under their own ids, and a state in which each of its nodes
    -- with a concurrency other than 0 has at most so many jobs in its queue. The same holds after
    -- any statuses of its jobs, in whatever order.
    pub run-IsWithin :
        (limit : Option StringSet) (ss : List (Status N F)) (ctx : Context N F)
        → IsWithin ctx
        → OnLoop IsWithin IsWithin (run env flow limit ss (running ctx))
    run-IsWithin limit ss ctx w =
        keeps-run env flow limit (rounds-IsWithin limit) ss (running ctx) (All-Anything ss) w
