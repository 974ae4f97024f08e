-- ===== src/Samples/Runs.antt =====
-- Runs of the flow of two nodes.
use oocana_rust.Base.{
  ◌||◌, ℕ, zero, suc, ◌≤◌, String, true, false, Option, none, some, List, [], ◌∷◌, ◌≡◌, ◌≢◌, refl,
  arith, eq_iff, ne_of_==, All,
}
use text.Mathlib.Text.{starts_with}
use oocana_rust.Base.Map
use oocana_rust.Base.Map.{IsDistinct}
use oocana_rust.Base.StringSet
use oocana_rust.Base.StringSet.{StringSet}
use oocana_rust.Json.{Json}
use oocana_rust.Node.{Node, inputs}
use oocana_rust.Flow.{Status, output, done, Requested, answered}
use oocana_rust.Flow.Run.{run_node}
use oocana_rust.Flow.Events.{Loop, running}
use oocana_rust.Flow.Rounds.{OnLoop, run}
use oocana_rust.Flow.Sent.{count}
use oocana_rust.Flow.Start.{execute_flow_job}
use oocana_rust.Flow.Concurrency.{IsWithin, run-IsWithin}
use oocana_rust.Flow.Limits.{NotStarted}
use oocana_rust.Flow.Limited.{limited_run}
use oocana_rust.InputValues.{NodeInputValues}
use oocana_rust.Upstream.{Upstream, find_upstream_nodes}
use oocana_rust.Flow.Ending.{HasEnded}
use oocana_rust.Flow.Whole.{flow_ends_once}
use oocana_rust.Flow.Leftover.{IsLeft, LeavesJob, failed_request_stays}
use oocana_rust.Flow.LostPlace.{HasStarted}
use oocana_rust.Flow.Stuck.{lost_place_blocks}
use oocana_rust.Flow.Waiting.{HasValidValues, run-HasValidValues}
use oocana_rust.Samples.Flows.{
  two_nodes, two_nodes-IsKeyed, node_b, around, one_job, text_value, no_values,
}

-- Node `a` gives a value to `b`, which then starts, and both succeed.
abbrev both_run : List (Status ℕ ℕ)
both_run =
    output "job" (text_value "v") "out" none ∷ done "job" none none ∷ done "first" none none ∷ []

one_job-IsWithin : IsWithin (around true) two_nodes one_job
unfolding Map.get
one_job-IsWithin n node here pos = ground (arith, eq_iff "a" n, eq_iff "b" n)

run-IsWithin_example :
    OnLoop
      (IsWithin (around true) two_nodes)
      (IsWithin (around true) two_nodes)
      (run (around true) two_nodes none both_run (running one_job))
run-IsWithin_example =
    run-IsWithin (around true) two_nodes two_nodes-IsKeyed none both_run one_job one_job-IsWithin

-- Up to node "a": node "b" is outside.
limited_run_example :
    (u : Upstream) × (left : NodeInputValues ℕ) × (l : Loop ℕ ℕ) × (limit : StringSet)
    × (find_upstream_nodes ("a" ∷ []) two_nodes no_values ≡ some (u, left))
    × (execute_flow_job (around true) two_nodes (some ("a" ∷ [])) no_values []
        ≡ some (l, some limit))
    × ((n : String)
        → StringSet.contains n limit
          ≡ (StringSet.contains n ("a" ∷ []) || StringSet.contains n u.upstream))
    × ((n : String)
        → StringSet.contains n limit ≡ false
        → OnLoop
            (NotStarted n)
            (NotStarted n)
            (run (around true) two_nodes (some limit) both_run l))
limited_run_example =
    limited_run (around true) two_nodes two_nodes-IsKeyed ("a" ∷ []) no_values [] both_run

flow_ends_once_example :
    (l : Loop ℕ ℕ) × (limit : Option StringSet) × (execute_flow_job
        (around true)
        two_nodes
        none
        no_values
        []
      ≡ some (l, limit))
    × OnLoop (HasEnded 0) (HasEnded 1) (run (around true) two_nodes limit both_run l)
flow_ends_once_example =
    flow_ends_once (around true) two_nodes two_nodes-IsKeyed none no_values [] both_run

-- The ids of new jobs are none of a job that a block asked for.
new_ids : (k : ℕ) → (around true).random k ≢ "asked"
new_ids zero = ne_of_== "first" "asked" refl
new_ids (suc k) = ne_of_== "later" "asked" refl

-- The requested job fails; then `a` succeeds.
abbrev request_failed : List (Status ℕ ℕ)
request_failed = done "job" none none ∷ []

request_failed-LeavesJob : All (LeavesJob "asked") request_failed
request_failed-LeavesJob = (ne_of_== "job" "asked" refl, tt)

asked_here : Map.get "asked" one_job.jobs ≡ some "run_block::x"
unfolding Map.get
asked_here = refl

asked_by_block : starts_with "run_block::x" "run_block::" ≡ true
asked_by_block = refl

failed_request_stays_example :
    OnLoop
      (IsLeft "asked")
      (λ c. ⊥)
      (run
        (around true)
        two_nodes
        none
        (done "asked" none (some "boom") ∷ request_failed)
        (running one_job))
failed_request_stays_example =
    failed_request_stays (around true) two_nodes none "asked" "run_block::x" "boom" none
      request_failed one_job new_ids asked_here asked_by_block request_failed-LeavesJob

b_here : Map.get "b" two_nodes.nodes ≡ some node_b
unfolding Map.get
b_here = refl

first_unknown : Map.get "first" one_job.jobs ≡ none
unfolding Map.get
first_unknown = refl

later_ids : (k : ℕ) → suc 0 ≤ k → (around false).random k ≢ "first"
later_ids zero h = λ e. absurd (omega (arith, h))
later_ids (suc k) h = ne_of_== "later" "first" refl

other_requests :
    (block : String) (payload : Json ℕ) (r : Requested)
    → (around false).run_request block payload ≡ answered r
    → r.job_id ≢ "first"
other_requests block payload r e = λ same. ground (arith, eq_iff "asked" "first")

lost_place_blocks_example :
    OnLoop (HasStarted "b" 1) (HasStarted "b" 1) (
      run (around false) two_nodes none both_run (running (run_node (around false) node_b one_job)))
unfolding count
lost_place_blocks_example =
    lost_place_blocks (around false) two_nodes two_nodes-IsKeyed none "b" node_b both_run one_job
      b_here refl first_unknown refl later_ids other_requests

two_nodes-maps :
    (n : String) (node : Node ℕ) → Map.get n two_nodes.nodes ≡ some node → IsDistinct (inputs node)
unfolding Map.get
two_nodes-maps n node here = ground (arith, eq_iff "a" n, eq_iff "b" n)

one_job-HasValidValues : HasValidValues one_job
unfolding Map.get
one_job-HasValidValues = record { covered = λ n h c. absurd (c refl); distinct = λ n. tt }

run-HasValidValues_example :
    OnLoop HasValidValues HasValidValues
      (run (around true) two_nodes none both_run (running one_job))
run-HasValidValues_example =
    run-HasValidValues (around true) two_nodes two_nodes-maps none both_run one_job
      one_job-HasValidValues
