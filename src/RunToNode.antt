-- ===== src/RunToNode.antt =====
-- runtime/src/flow_job/run_to_node.rs: the nodes on which a node waits.
pub mod Search
pub mod Needed
use oocana_rust.Base.{
  ℕ, zero, suc, String, Bool, true, false, not, Option, none, some, List, [], ◌∷◌, ◌++◌,
  if◌then◌else◌, ◌>>=◌, is_some_and, map_option, length,
}
use oocana_rust.Base.Map
use oocana_rust.Base.Map.{Map}
use oocana_rust.Base.StringSet
use oocana_rust.Base.StringSet.{StringSet}
use oocana_rust.Node.{Node, NodeInput, HandleSource, flow_input, node_output, node_id, inputs}
use oocana_rust.InputValues.{NodeInputValues, is_node_fulfill, node_has_input}
use oocana_rust.Subflow.{SubflowBlock}

pub record RunToNode : Type 0 where
  pub should_run_nodes : Option StringSet

unfoldable pub source_nodes : Option (List HandleSource) → List String
source_nodes none = []
source_nodes (some []) = []
source_nodes (some (flow_input h ∷ rest)) = source_nodes (some rest)
source_nodes (some (node_output n o ∷ rest)) = n ∷ source_nodes (some rest)

module _ {N : Type 0} (values : Option (NodeInputValues N)) (nodes : Map (Node N)) where
  -- The sources of the inputs that have no value yet, in the order of the two loops.
  open_inputs : Node N → Map (NodeInput N) → List String
  unfolding source_nodes
  open_inputs node [] = []
  open_inputs node ((h, i) ∷ rest) =
      if is_some_and values (λ v. node_has_input v node h)
      then open_inputs node rest
      else source_nodes i.sources ++ open_inputs node rest

  unfoldable pub open_sources : Node N → List String
  unfolding open_inputs
  open_sources node = open_inputs node (inputs node)

  abbrev pub is_fulfilled : Node N → Bool
  is_fulfilled node = is_some_and values (λ v. is_node_fulfill v node)

  -- The loops over the sources; `rec` is the recursive call, `none` that its fuel ran out.
  unfoldable pub visit_sources :
      (Node N → StringSet → Option StringSet) → List String → StringSet → Option StringSet
  visit_sources rec [] seen = some seen
  visit_sources rec (n ∷ ns) seen = elim (StringSet.contains n seen) [
    | true ↦ visit_sources rec ns seen
    | false ↦ elim (Map.get n nodes) [
      | none ↦ visit_sources rec ns seen
      | some d ↦ rec d seen >>= visit_sources rec ns
    ]
  ]

  unfoldable pub calc_node_deps : ℕ → Node N → StringSet → Option StringSet
  calc_node_deps zero node seen = none
  calc_node_deps (suc fuel) node seen =
      let seen' = StringSet.insert (node_id node) seen in
      elim (is_fulfilled node) [
        | true ↦ some seen'
        | false ↦ visit_sources (calc_node_deps fuel) (open_sources node) seen'
      ]

-- RunToNode::new; the outer `none` would be a search that ran out of fuel.
unfoldable pub new :
    {N : Type 0} → SubflowBlock N → Option String → Option (NodeInputValues N) → Option RunToNode
unfolding calc_node_deps visit_sources open_sources
new flow to_node input = elim (to_node >>= λ t. Map.get t flow.nodes) [
  | none ↦ some (record { should_run_nodes = none })
  | some node ↦
      map_option (λ s. record { should_run_nodes = some s })
        (calc_node_deps input flow.nodes (suc (length flow.nodes)) node [])
]

unfoldable pub has_deps_in : RunToNode → StringSet → Bool
has_deps_in r nodes = is_some_and r.should_run_nodes (λ s. not (StringSet.is_disjoint s nodes))

unfoldable pub find_intersection_nodes : RunToNode → StringSet → StringSet
find_intersection_nodes r nodes = elim r.should_run_nodes [
  | none ↦ []
  | some s ↦ StringSet.intersection s nodes
]
