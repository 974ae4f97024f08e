-- ===== src/Flow/LostPlace.antt =====
-- runtime/src/flow_job/flow.rs: a job for which `run_job` gave no handle keeps its place.
use oocana_rust.Base.{
  ℕ, suc, ◌≤◌, String, true, false, none, some, [], ◌∷◌, ◌≡◌, ◌≢◌, refl, sym, ◌∙◌, arith, eq_iff,
  ltb, length, Bool-cases, inl, inr,
}
use oocana_rust.Base.Map
use oocana_rust.Base.Map.{get-entry, get-insert, get-remove}
use oocana_rust.Base.StringSet
use oocana_rust.Base.StringSet.{StringSet, contains-insert, contains-remove}
use oocana_rust.Node.{Node, node_id, as_usize, concurrency}
use oocana_rust.InputValues.Take.{take}
use oocana_rust.Subflow.{SubflowBlock, IsKeyed}
use oocana_rust.Flow.{Env, Context, empty_queue, Message, start_job, send}
use oocana_rust.Flow.Run.{
  run_node, add_job, run_next, remove_job, remove_pending, release_job, run_pending_node,
}
use oocana_rust.Flow.Cases.{queue_at, run_pending_cases}
use oocana_rust.Flow.Sent.{count, count-send, starts}

module _ {N F : Type 0} where
  -- Job `j` has a place of node `n` but is none of the jobs. Of the node, `c` jobs have been started,
  -- and at least `d` random ids have been drawn.
  pub record HasLost (n j : String) (c d : ℕ) (ctx : Context N F) : Type 0 where
    pub taken : StringSet.contains j (queue_at ctx.node_queue_pool n).jobs ≡ true
    pub unknown : Map.get j ctx.jobs ≡ none
    pub starts : count (starts n) ctx.sent ≡ c
    pub drawn : d ≤ ctx.drawn

  -- The node has started so many jobs.
  abbrev pub HasStarted : String → ℕ → Context N F → Type 0
  HasStarted n c ctx = count (starts n) ctx.sent ≡ c

pub contains-length : (j : String) (s : StringSet) → StringSet.contains j s ≡ true → 1 ≤ length s
unfolding StringSet.contains
contains-length j [] h = cc
contains-length j (x ∷ s) h = omega arith

module _ {N F : Type 0} (env : Env N F) (flow : SubflowBlock N) (n j : String) (c d : ℕ) where
  pub send-HasLost :
      (m : Message N F) (ctx : Context N F)
      → starts n m ≡ false
      → HasLost n j c d ctx
      → HasLost n j c d (send m ctx)
  unfolding send
  send-HasLost m ctx other h = record {
    taken = h.taken;
    unknown = h.unknown;
    starts = ground (arith, count-send (starts n) m ctx, h.starts);
    drawn = h.drawn;
  }

  module _ (fresh : (k : ℕ) → d ≤ k → env.random k ≢ j) where
    pub run_node-HasLost :
        (node : Node N) (ctx : Context N F)
        → node_id node ≢ n
        → HasLost n j c d ctx
        → HasLost n j c d (run_node env node ctx)
    unfolding run_node send
    run_node-HasLost node ctx other h =
        let job_id = env.random ctx.drawn in
        let (is, values) = take node ctx.node_input_values in
        let k = node_id node in
        let pool = Map.entry k empty_queue (add_job env job_id) ctx.node_queue_pool in
        let taken : StringSet.contains j (queue_at pool n).jobs ≡ true = ground (
          arith,
          get-entry k n empty_queue (add_job env job_id) ctx.node_queue_pool,
          eq_iff k n,
          h.taken,
        ) in
        let start : count (starts n) (send (start_job k job_id is) ctx).sent ≡ c =
          ground (arith, count-send (starts n) (start_job k job_id is) ctx, eq_iff k n, h.starts) in
        let new = fresh ctx.drawn h.drawn in
        let unknown : Map.get j (Map.insert job_id k ctx.jobs) ≡ none =
          ground (arith, get-insert job_id j k ctx.jobs, eq_iff job_id j, h.unknown) in
        let drawn : d ≤ suc ctx.drawn = omega (arith, h.drawn) in
        elim (Bool-cases (env.run_job node job_id is)) [
          | inl runs ↦
              rw (runs, run_node)
                (record { taken = taken; unknown = unknown; starts = start; drawn = drawn })
          | inr ends ↦
              rw (ends, run_node)
                (record { taken = taken; unknown = h.unknown; starts = start; drawn = drawn })
        ]

    module _ (node : Node N) (here : Map.get n flow.nodes ≡ some node)
        (single : as_usize (concurrency node) ≡ 1) (keyed : IsKeyed flow.nodes) where
      run_next-HasLost :
          (k : String) (other : Node N) (ctx : Context N F)
          → Map.get k flow.nodes ≡ some other
          → HasLost n j c d ctx
          → HasLost n j c d (run_next env other k (queue_at ctx.node_queue_pool k) ctx)
      unfolding run_next remove_pending
      run_next-HasLost k other ctx known h = go (queue_at ctx.node_queue_pool k).pending refl
        where
          go :
              (ps : StringSet)
              → (queue_at ctx.node_queue_pool k).pending ≡ ps
              → HasLost n j c d (run_next env other k (queue_at ctx.node_queue_pool k) ctx)
          go [] e = rw (e, run_next) h
          go (p ∷ ps) e =
              let q = queue_at ctx.node_queue_pool k in
              let q' = remove_pending env p q in
              let pool = Map.insert k q' ctx.node_queue_pool in
              let taken : StringSet.contains j (queue_at pool n).jobs ≡ true =
                ground (arith, get-insert k n q' ctx.node_queue_pool, eq_iff k n, h.taken) in
              elim (Bool-cases (ltb (length q.jobs) (as_usize (concurrency other)))) [
                | inl free ↦
                    rw (e, run_next, free)
                      (run_node-HasLost other (record ctx { node_queue_pool = pool })
                        (λ same. ground (
                          arith,
                          contains-length j (queue_at ctx.node_queue_pool n).jobs h.taken,
                          sym (keyed k other known) ∙ same,
                          here,
                          known,
                          single,
                        ))
                        (record {
                          taken = taken;
                          unknown = h.unknown;
                          starts = h.starts;
                          drawn = h.drawn;
                        }))
                | inr full ↦ rw (e, run_next, full) h
              ]

      release_job-HasLost :
          (k i : String) (ctx : Context N F)
          → Map.get i ctx.jobs ≡ some k
          → HasLost n j c d ctx
          → HasLost n j c d (release_job env k i ctx)
      unfolding release_job remove_job
      release_job-HasLost k i ctx found h = record {
        taken = ground (
          arith,
          get-entry k n empty_queue (remove_job env i) ctx.node_queue_pool,
          eq_iff k n,
          eq_iff i j,
          contains-remove i j (queue_at ctx.node_queue_pool n).jobs,
          h.taken,
          h.unknown,
          found,
        );
        unknown = h.unknown;
        starts = h.starts;
        drawn = h.drawn;
      }

      pub run_pending_node-HasLost :
          (i : String) (ctx : Context N F)
          → HasLost n j c d ctx
          → HasLost n j c d (run_pending_node env flow i ctx)
      run_pending_node-HasLost i ctx h =
          run_pending_cases env flow (HasLost n j c d) i ctx h
            (λ k found. release_job-HasLost k i ctx found h)
            (λ k other found known.
              run_next-HasLost k other (release_job env k i ctx) known
                (release_job-HasLost k i ctx found h))
