-- ===== src/Connections/Parse.antt =====
-- manifest_meta/src/connections.rs: the three functions that read the connections of a manifest.
use Prim.Native.String.{◌++◌ as text_append}
use oocana_rust.Base.{
  String, Option, none, some, List, [], if◌then◌else◌, is_some_and, unwrap_or, for_each,
}
use oocana_rust.Base.Map
use oocana_rust.Base.Map.{Map}
use oocana_rust.Base.StringSet
use oocana_rust.Manifest.{
  InputHandle, NodeInputFrom, FlowHandleFrom, NodeHandleFrom, ValueNode, get_handle,
}
use oocana_rust.Node.{from_double_option}
use oocana_rust.Connections.{
  Connections, add_value, node_to_node, flow_to_node, node_to_flow, flow_to_flow,
}

-- manifest_meta/src/flow.rs: the handle of a subflow node that feeds a slot inside it.
unfoldable pub generate_runtime_handle_name : String → String → String
generate_runtime_handle_name node_id handle =
    text_append (text_append (text_append "runtime::" node_id) "-") handle

module _ {N : Type 0} (find_value_node : String → Option (ValueNode N)) where
  unfoldable pub from_value_node :
      String → String → Option (InputHandle N) → Connections N → Connections N
  from_value_node node_id handle none c = c
  from_value_node node_id handle (some input) c =
      add_value node_id handle (from_double_option input.value) c

  -- One entry of `from_node`, for input `handle` of node `node_id`.
  unfoldable pub connect_node : String → String → NodeHandleFrom → Connections N → Connections N
  unfolding from_value_node
  connect_node node_id handle from_node c = elim (find_value_node from_node.node_id) [
    | some v ↦ from_value_node node_id handle (get_handle v from_node.output_handle) c
    | none ↦
        if StringSet.contains from_node.node_id c.nodes
        then node_to_node node_id handle from_node.node_id from_node.output_handle c
        else c
  ]

  unfoldable pub connect_slot_flow :
      String → String → FlowHandleFrom → Connections N → Connections N
  connect_slot_flow node_id handle from_flow c =
      flow_to_node node_id handle from_flow.input_handle c

  unfoldable pub slot_value : String → String → NodeInputFrom N → Connections N → Connections N
  slot_value node_id handle i c = elim i.value [
    | none ↦ c
    | some v ↦ add_value node_id handle (from_double_option (some v)) c
  ]

  unfoldable pub connect_slot_input :
      String → String → NodeInputFrom N → Connections N → Connections N
  unfolding connect_node connect_slot_flow slot_value
  connect_slot_input subflow_node_id slot_node_id i c =
      let handle = generate_runtime_handle_name slot_node_id i.handle in
      slot_value subflow_node_id handle i (
        for_each (connect_slot_flow subflow_node_id handle) (unwrap_or i.from_flow [])
          (for_each (connect_node subflow_node_id handle) (unwrap_or i.from_node []) c))

  unfoldable pub parse_slot_inputs_from :
      String → String → List (NodeInputFrom N) → Connections N → Connections N
  unfolding connect_slot_input
  parse_slot_inputs_from subflow_node_id slot_node_id inputs_from c =
      for_each (connect_slot_input subflow_node_id slot_node_id) inputs_from c

  module _ (flow_inputs_def : Option (Map (InputHandle N))) where
    unfoldable pub connect_flow : String → String → FlowHandleFrom → Connections N → Connections N
    connect_flow node_id handle from_flow c =
        if is_some_and flow_inputs_def (Map.contains_key from_flow.input_handle)
        then flow_to_node node_id handle from_flow.input_handle c
        else c

    unfoldable pub connect_input : String → NodeInputFrom N → Connections N → Connections N
    unfolding connect_node connect_flow
    connect_input node_id i c =
        for_each (connect_flow node_id i.handle) (unwrap_or i.from_flow [])
          (for_each (connect_node node_id i.handle) (unwrap_or i.from_node []) c)

    unfoldable pub parse_node_inputs_from :
        String → Option (List (NodeInputFrom N)) → Connections N → Connections N
    unfolding connect_input
    parse_node_inputs_from node_id inputs_from c =
        for_each (connect_input node_id) (unwrap_or inputs_from []) c

module _ {N : Type 0} where
  unfoldable pub output_node : String → NodeHandleFrom → Connections N → Connections N
  output_node handle from_node c =
      if StringSet.contains from_node.node_id c.nodes
      then node_to_flow handle from_node.node_id from_node.output_handle c
      else c

  unfoldable pub output_flow : String → FlowHandleFrom → Connections N → Connections N
  output_flow handle from_flow c = flow_to_flow handle from_flow.input_handle c

  unfoldable pub connect_output : NodeInputFrom N → Connections N → Connections N
  unfolding output_node output_flow
  connect_output o c =
      for_each (output_flow o.handle) (unwrap_or o.from_flow [])
        (for_each (output_node o.handle) (unwrap_or o.from_node []) c)

  unfoldable pub parse_flow_outputs_from :
      Option (List (NodeInputFrom N)) → Connections N → Connections N
  unfolding connect_output
  parse_flow_outputs_from outputs_from c = for_each connect_output (unwrap_or outputs_from []) c
