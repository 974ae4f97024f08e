-- ===== src/Subflow.antt =====
-- manifest_meta/src/flow.rs: the flow that is run, SubflowBlock, as far as the runtime reads it.
use oocana_rust.Base.{String, Bool, Option, some, List, [], ◌∷◌, ◌++◌, ◌≡◌, if◌then◌else◌}
use oocana_rust.Base.Map
use oocana_rust.Base.Map.{Map}
use oocana_rust.Manifest.{InputHandle, OutputHandle}
use oocana_rust.Node.{
  Node, NodeInput, HandleTo, HandleFrom, node_id, inputs, no_sources, into_double_option,
}

-- `path`, `package_path`, `injection_store` and `remote_timeout` are left out.
pub record SubflowBlock (N : Type 0) : Type 0 where
  pub description : Option String
  pub nodes : Map (Node N)
  pub inputs_def : Option (Map (InputHandle N))
  pub outputs_def : Option (Map (OutputHandle N))
  pub path_str : String
  pub flow_inputs_tos : Map (List HandleTo)
  pub flow_outputs_froms : Map (List (HandleFrom N))
  pub forward_previews : Option (List String)
  pub hide_source : Bool

module _ {N : Type 0} where
  -- Each node stands under its own id.
  abbrev pub IsKeyed : Map (Node N) → Type 0
  IsKeyed nodes = (n : String) (node : Node N) → Map.get n nodes ≡ some node → node_id node ≡ n

  push_input : InputHandle N → List (InputHandle N) → List (InputHandle N)
  push_input i is = is ++ i ∷ []

  query_inputs :
      String → Map (NodeInput N) → Map (List (InputHandle N)) → Map (List (InputHandle N))
  unfolding push_input into_double_option
  query_inputs n [] found = found
  query_inputs n ((h, i) ∷ rest) found = query_inputs n rest (
      if no_sources i
      then Map.entry n [] (push_input (record i.def { value = into_double_option i.value })) found
      else found)

  query_nodes : Map (Node N) → Map (List (InputHandle N)) → Map (List (InputHandle N))
  unfolding query_inputs
  query_nodes [] found = found
  query_nodes ((n, node) ∷ rest) found = query_nodes rest (query_inputs n (inputs node) found)

  unfoldable pub query_nodes_inputs : SubflowBlock N → Map (List (InputHandle N))
  unfolding query_nodes
  query_nodes_inputs flow = query_nodes flow.nodes []

  unfoldable pub update_node : String → Node N → SubflowBlock N → SubflowBlock N
  update_node n node flow = record flow { nodes = Map.insert n node flow.nodes }
