-- ===== src/Flow/Waiting.antt =====
-- runtime/src/flow_job/flow.rs with node_input_values.rs: the values that wait in a flow that runs.
use oocana_rust.Base.{
  String, Option, some, List, [], ◌∷◌, ◌≡◌, refl, ltb, length, Bool-cases, inl, inr,
}
use oocana_rust.Base.Map
use oocana_rust.Base.Map.{IsDistinct}
use oocana_rust.Base.StringSet.{StringSet}
use oocana_rust.Node.{Node, as_usize, concurrency, inputs}
use oocana_rust.InputValues
use oocana_rust.InputValues.Take.{take}
use oocana_rust.InputValues.Invariant.{IsValid, insert-IsValid, update-IsValid, take-IsValid}
use oocana_rust.Subflow.{SubflowBlock}
use oocana_rust.Flow.{Env, Context, Status, send}
use oocana_rust.Flow.Run.{run_node, run_next, remove_pending, release_job}
use oocana_rust.Flow.Events.{running, flow_success, fail, on_error}
use oocana_rust.Flow.Cases.{queue_at, run_or_wait_cases, deliver_cases, run_pending_cases}
use oocana_rust.Flow.Rounds.{KeepsRounds, OnLoop, Anything, All-Anything, run, keeps-run}

module _ {N F : Type 0} where
  abbrev pub HasValidValues : Context N F → Type 0
  HasValidValues ctx = IsValid ctx.node_input_values

module _ {N F : Type 0} (env : Env N F) (flow : SubflowBlock N) where
  run_node-HasValidValues :
      (node : Node N) (ctx : Context N F)
      → IsDistinct (inputs node)
      → HasValidValues ctx
      → HasValidValues (run_node env node ctx)
  unfolding run_node
  run_node-HasValidValues node ctx d h =
      let kept = take-IsValid node ctx.node_input_values d h in
      elim (Bool-cases
        (env.run_job node (env.random ctx.drawn) (take node ctx.node_input_values).0)) [
          | inl runs ↦ rw (runs, run_node) kept
          | inr ends ↦ rw (ends, run_node) kept
        ]

  run_next-HasValidValues :
      (n : String) (node : Node N) (ctx : Context N F)
      → IsDistinct (inputs node)
      → HasValidValues ctx
      → HasValidValues (run_next env node n (queue_at ctx.node_queue_pool n) ctx)
  unfolding run_next
  run_next-HasValidValues n node ctx d h = go (queue_at ctx.node_queue_pool n).pending refl
    where
      go :
          (ps : StringSet)
          → (queue_at ctx.node_queue_pool n).pending ≡ ps
          → HasValidValues (run_next env node n (queue_at ctx.node_queue_pool n) ctx)
      go [] e = rw (e, run_next) h
      go (p ∷ ps) e =
          let q = queue_at ctx.node_queue_pool n in
          let pool = Map.insert n (remove_pending env p q) ctx.node_queue_pool in
          elim (Bool-cases (ltb (length q.jobs) (as_usize (concurrency node)))) [
            | inl free ↦
                rw (e, run_next, free)
                  (run_node-HasValidValues node (record ctx { node_queue_pool = pool }) d h)
            | inr full ↦ rw (e, run_next, full) h
          ]

  module _
      (maps : (n : String) (node : Node N)
        → Map.get n flow.nodes ≡ some node
        → IsDistinct (inputs node)) where
    rounds-HasValidValues :
        (limit : Option StringSet)
        → KeepsRounds env flow limit Anything HasValidValues HasValidValues
    unfolding flow_success fail on_error release_job send
    rounds-HasValidValues limit = record {
      base = record {
        plain = λ m ctx p h. h;
        moved = λ p ctx h. h;
        cached = λ n i v ctx h. update-IsValid n i v ctx.node_input_values h;
        delivered = λ v n i ctx a h.
            let inserted = insert-IsValid n i v ctx.node_input_values h in
            deliver_cases env flow HasValidValues v n i ctx inserted (λ node last here ready.
              run_or_wait_cases env flow HasValidValues node n last
                (record ctx { node_input_values = InputValues.insert n i v ctx.node_input_values })
                (λ free. run_node-HasValidValues node _ (maps n node here) inserted)
                (λ full more. inserted) inserted);
      };
      pending = λ j ctx h.
          run_pending_cases env flow HasValidValues j ctx h (λ n here. h)
            (λ n node here known.
              run_next-HasValidValues n node (release_job env n j ctx) (maps n node known) h);
      requested = λ b p r ctx e h. h;
      removed = λ j r ctx a h. h;
      succeeded = λ ctx e h. h;
      failed = λ j e r ctx a h. h;
      errored = λ e ctx a h. h;
    }

    -- In a flow whose nodes have no input twice, the values at the inputs stay well-formed,
    -- whatever the jobs of the flow tell it: each remembered value has its queue, and no queue of a
    -- node stands twice.
    pub run-HasValidValues :
        (limit : Option StringSet) (ss : List (Status N F)) (ctx : Context N F)
        → HasValidValues ctx
        → OnLoop HasValidValues HasValidValues (run env flow limit ss (running ctx))
    run-HasValidValues limit ss ctx h =
        keeps-run env flow limit (rounds-HasValidValues limit) ss (running ctx) (All-Anything ss) h
