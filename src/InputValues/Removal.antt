-- ===== src/InputValues/Removal.antt =====
-- runtime/src/flow_job/node_input_values.rs: `remove_input_values` changes one node only.
use oocana_rust.Base.{String, false, [], ◌∷◌, ◌≡◌, refl, arith, ◌==◌}
use oocana_rust.Base.Map.{Map, get-modify}
use oocana_rust.Base.StringSet.{StringSet}
use oocana_rust.Node.{Node, NodeInput, node_id, inputs}
use oocana_rust.InputValues.{
  NodeInputValues, queue, all_ready, is_node_fulfill, remove_input_values, drop_inputs,
}

module _ {N : Type 0} where
  -- Two states that hold the same queues for a node agree on whether it is fulfilled.
  abbrev pub SameQueues : String → NodeInputValues N → NodeInputValues N → Type 0
  SameQueues n a b =
      (h : String)
      → (queue a.store n h ≡ queue b.store n h)
        × (queue a.memory_store n h ≡ queue b.memory_store n h)

  all_ready-same :
      (n : String) (a b : NodeInputValues N) (is : Map (NodeInput N))
      → SameQueues n a b
      → all_ready a n is ≡ all_ready b n is
  unfolding all_ready
  all_ready-same n a b [] s = refl
  all_ready-same n a b ((h, i) ∷ is) s = ground (arith, s h, all_ready-same n a b is s)

  pub is_node_fulfill-same :
      (node : Node N) (a b : NodeInputValues N)
      → SameQueues (node_id node) a b
      → is_node_fulfill a node ≡ is_node_fulfill b node
  unfolding is_node_fulfill
  is_node_fulfill-same node a b s = all_ready-same (node_id node) a b (inputs node) s

  pub remove_input_values-same :
      (node : Node N) (from_nodes : StringSet) (niv : NodeInputValues N) (n : String)
      → (node_id node == n) ≡ false
      → SameQueues n (remove_input_values node from_nodes niv) niv
  unfolding remove_input_values
  remove_input_values-same node from_nodes niv n o h = (
    ground (arith, get-modify (node_id node) n (drop_inputs from_nodes (inputs node)) niv.store),
    refl,
  )
