-- ===== src/Connections.antt =====
-- manifest_meta/src/connections.rs: the connections of a flow, kept at both of their ends.
pub mod Parse
pub mod Counting
pub mod Kept
pub mod Duality
pub mod Origins
use oocana_rust.Base.{String, List, [], ◌∷◌, ◌++◌}
use oocana_rust.Base.Map
use oocana_rust.Base.Map.{Map}
use oocana_rust.Base.StringSet.{StringSet}
use oocana_rust.Node.{
  HandleFrom, from_flow_input, from_node_output, from_value, HandleTo, to_flow_output,
  to_node_input, ValueState,
}

pub record Connections (N : Type 0) : Type 0 where
  pub nodes : StringSet
  pub node_inputs_froms : Map (Map (List (HandleFrom N)))
  pub node_outputs_tos : Map (Map (List HandleTo))
  pub flow_inputs_tos : Map (List HandleTo)
  pub flow_outputs_froms : Map (List (HandleFrom N))

module _ {A : Type 0} where
  unfoldable pub push : A → List A → List A
  push x xs = xs ++ x ∷ []

  -- ConnNodeTos::add, ConnNodeFroms::add
  unfoldable pub add_handle : String → A → Map (List A) → Map (List A)
  unfolding push
  add_handle handle x m = Map.entry handle [] (push x) m

  -- ConnNodesTos::add, ConnNodesFroms::add
  unfoldable pub add_node : String → String → A → Map (Map (List A)) → Map (Map (List A))
  unfolding add_handle
  add_node node_id handle x m = Map.entry node_id [] (add_handle handle x) m

module _ {N : Type 0} where
  unfoldable pub new : StringSet → Connections N
  new nodes = record {
    nodes = nodes;
    node_inputs_froms = [];
    node_outputs_tos = [];
    flow_inputs_tos = [];
    flow_outputs_froms = [];
  }

  -- A value of a value node, or of the manifest: it has one end only.
  unfoldable pub add_value : String → String → ValueState N → Connections N → Connections N
  unfolding add_node
  add_value node_id handle v c = record c {
    node_inputs_froms = add_node node_id handle (from_value v) c.node_inputs_froms;
  }

  -- Output `o` of node `n` to input `handle` of node `node_id`.
  unfoldable pub node_to_node : String → String → String → String → Connections N → Connections N
  unfolding add_node
  node_to_node node_id handle n o c = record c {
    node_inputs_froms = add_node node_id handle (from_node_output n o) c.node_inputs_froms;
    node_outputs_tos = add_node n o (to_node_input node_id handle) c.node_outputs_tos;
  }

  -- Input `f` of the flow to input `handle` of node `node_id`.
  unfoldable pub flow_to_node : String → String → String → Connections N → Connections N
  unfolding add_node add_handle
  flow_to_node node_id handle f c = record c {
    node_inputs_froms = add_node node_id handle (from_flow_input f) c.node_inputs_froms;
    flow_inputs_tos = add_handle f (to_node_input node_id handle) c.flow_inputs_tos;
  }

  -- Output `o` of node `n` to output `handle` of the flow.
  unfoldable pub node_to_flow : String → String → String → Connections N → Connections N
  unfolding add_node add_handle
  node_to_flow handle n o c = record c {
    flow_outputs_froms = add_handle handle (from_node_output n o) c.flow_outputs_froms;
    node_outputs_tos = add_node n o (to_flow_output handle) c.node_outputs_tos;
  }

  -- Input `f` of the flow to output `handle` of the flow.
  unfoldable pub flow_to_flow : String → String → Connections N → Connections N
  unfolding add_handle
  flow_to_flow handle f c = record c {
    flow_outputs_froms = add_handle handle (from_flow_input f) c.flow_outputs_froms;
    flow_inputs_tos = add_handle f (to_flow_output handle) c.flow_inputs_tos;
  }
