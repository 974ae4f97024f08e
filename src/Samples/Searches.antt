-- ===== src/Samples/Searches.antt =====
-- The searches for the nodes before node `b`, and what its progress is.
use oocana_rust.Base.{ℕ, String, true, false, some, [], ◌∷◌, ltb, for_each, ◌≡◌, refl}
use oocana_rust.Base.Map
use oocana_rust.Base.StringSet
use oocana_rust.Base.StringSet.{StringSet}
use oocana_rust.InputValues.{NodeInputValues, is_node_fulfill, node_has_input}
use oocana_rust.Node.{is_provided}
use oocana_rust.RunToNode
use oocana_rust.RunToNode.{RunToNode}
use oocana_rust.RunToNode.Needed.{IsNeeded, new-IsNeeded}
use oocana_rust.Upstream.{Upstream, find_upstream_nodes}
use oocana_rust.Upstream.Total.{find_upstream_nodes_total}
use oocana_rust.Upstream.Runnable.{IsSorted, find_upstream_nodes-IsSorted}
use oocana_rust.Progress.{NodeProgress, update_node_progress}
use oocana_rust.Progress.Estimate.{HasBounds, reported_within}
use oocana_rust.Samples.Flows.{two_nodes, two_nodes-IsKeyed, node_b, naturals, no_values}

b_in_flow : Map.get "b" two_nodes.nodes ≡ some node_b
unfolding Map.get
b_in_flow = refl

new-IsNeeded_example :
    (r : StringSet) × (RunToNode.new two_nodes (some "b") (some no_values)
      ≡ some (record { should_run_nodes = some r }))
    × ((m : String)
        → (StringSet.contains m r ≡ true → IsNeeded (some no_values) two_nodes.nodes "b" m)
          × (IsNeeded (some no_values) two_nodes.nodes "b" m → StringSet.contains m r ≡ true))
new-IsNeeded_example =
    new-IsNeeded two_nodes (some no_values) two_nodes-IsKeyed "b" node_b b_in_flow

find_upstream_nodes_total_example :
    (r : Upstream × NodeInputValues ℕ) × (find_upstream_nodes ("b" ∷ []) two_nodes no_values
      ≡ some r)
find_upstream_nodes_total_example =
    find_upstream_nodes_total ("b" ∷ []) two_nodes two_nodes-IsKeyed no_values

abbrev a_first : Upstream
a_first = record { will_run = "a" ∷ []; waiting = []; upstream = "a" ∷ [] }

upstream_of_b : find_upstream_nodes ("b" ∷ []) two_nodes no_values ≡ some (a_first, no_values)
unfolding find_upstream_nodes Map.get RunToNode.new is_node_fulfill node_has_input
    StringSet.contains StringSet.insert is_provided for_each RunToNode.has_deps_in
    StringSet.is_disjoint
upstream_of_b = refl

b_alone-IsDistinct : StringSet.IsDistinct ("b" ∷ [])
unfolding StringSet.contains
b_alone-IsDistinct = (refl, tt)

find_upstream_nodes-IsSorted_example : IsSorted two_nodes ("b" ∷ []) no_values a_first
find_upstream_nodes-IsSorted_example =
    find_upstream_nodes-IsSorted two_nodes two_nodes-IsKeyed ("b" ∷ []) no_values no_values a_first
      b_alone-IsDistinct upstream_of_b

naturals-HasBounds : HasBounds naturals
naturals-HasBounds = record { zero_self = refl; top_self = refl; ordered = refl }

abbrev half : NodeProgress ℕ
half = record { progress = 50; weight = 1 }

reported_now : (update_node_progress naturals 99 half false 50 1).reported ≡ some 95
unfolding update_node_progress
reported_now = refl

reported_within_example : (ltb 95 0 ≡ false) × (ltb 95 95 ≡ false)
reported_within_example =
    reported_within naturals naturals-HasBounds 99 half false 50 1 95 reported_now
