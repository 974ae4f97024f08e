-- ===== src/Connections/Kept.antt =====
-- manifest_meta/src/connections.rs: a rule for what the three parsing functions keep. It is enough
-- that each way of adding a connection keeps it, the source being a node of the flow.
use oocana_rust.Base.{
  String, true, Option, none, some, List, [], ◌≡◌, unwrap_or, is_some_and, for_each_inv, Bool-cases,
  Option-cases, inl, inr,
}
use oocana_rust.Base.Map
use oocana_rust.Base.Map.{Map}
use oocana_rust.Base.StringSet
use oocana_rust.Manifest.{
  InputHandle, NodeInputFrom, FlowHandleFrom, NodeHandleFrom, ValueNode, get_handle,
}
use oocana_rust.Node.{ValueState, from_double_option}
use oocana_rust.Connections.{
  Connections, add_value, node_to_node, flow_to_node, node_to_flow, flow_to_flow,
}
use oocana_rust.Connections.Parse.{
  from_value_node, connect_node, connect_slot_flow, slot_value, connect_slot_input,
  generate_runtime_handle_name, parse_slot_inputs_from, connect_flow, connect_input,
  parse_node_inputs_from, output_node, output_flow, connect_output, parse_flow_outputs_from,
}

pub record Keeps {N : Type 0} (P : Connections N → Type 0) : Type 0 where
  pub value : (a b : String) (v : ValueState N) (c : Connections N) → P c → P (add_value a b v c)
  pub node_node :
      (a b x y : String) (c : Connections N)
      → StringSet.contains x c.nodes ≡ true
      → P c
      → P (node_to_node a b x y c)
  pub flow_node : (a b x : String) (c : Connections N) → P c → P (flow_to_node a b x c)
  pub node_flow :
      (g x y : String) (c : Connections N)
      → StringSet.contains x c.nodes ≡ true
      → P c
      → P (node_to_flow g x y c)
  pub flow_flow : (g x : String) (c : Connections N) → P c → P (flow_to_flow g x c)

module _ {N : Type 0} {P : Connections N → Type 0} (k : Keeps P)
    (find_value_node : String → Option (ValueNode N)) where
  keeps-from_value_node :
      (a b : String) (i : Option (InputHandle N)) (c : Connections N)
      → P c
      → P (from_value_node find_value_node a b i c)
  unfolding from_value_node
  keeps-from_value_node a b none c p = p
  keeps-from_value_node a b (some i) c p = k.value a b (from_double_option i.value) c p

  keeps-connect_node :
      (a b : String) (f : NodeHandleFrom) (c : Connections N)
      → P c
      → P (connect_node find_value_node a b f c)
  unfolding connect_node
  keeps-connect_node a b f c p = elim (Option-cases (find_value_node f.node_id)) [
    | inl e ↦ elim (Bool-cases (StringSet.contains f.node_id c.nodes)) [
      | inl known ↦
          rw (e, connect_node, known) (k.node_node a b f.node_id f.output_handle c known p)
      | inr new ↦ rw (e, connect_node, new) p
    ]
    | inr (v, e) ↦
        rw (e, connect_node) (keeps-from_value_node a b (get_handle v f.output_handle) c p)
  ]

  keeps-slot_value :
      (a b : String) (i : NodeInputFrom N) (c : Connections N)
      → P c
      → P (slot_value find_value_node a b i c)
  unfolding slot_value
  keeps-slot_value a b i c p = elim (Option-cases i.value) [
    | inl e ↦ rw (e, slot_value) p
    | inr (v, e) ↦ rw (e, slot_value) (k.value a b (from_double_option (some v)) c p)
  ]

  keeps-connect_slot_input :
      (a s : String) (i : NodeInputFrom N) (c : Connections N)
      → P c
      → P (connect_slot_input find_value_node a s i c)
  unfolding connect_slot_input connect_slot_flow
  keeps-connect_slot_input a s i c p =
      let b = generate_runtime_handle_name s i.handle in
      keeps-slot_value a b i _ (
        for_each_inv P _ (λ f d q. k.flow_node a b f.input_handle d q) (unwrap_or i.from_flow []) _
          (for_each_inv P _ (keeps-connect_node a b) (unwrap_or i.from_node []) c p))

  pub keeps-parse_slot_inputs_from :
      (a s : String) (is : List (NodeInputFrom N)) (c : Connections N)
      → P c
      → P (parse_slot_inputs_from find_value_node a s is c)
  unfolding parse_slot_inputs_from
  keeps-parse_slot_inputs_from a s = for_each_inv P _ (keeps-connect_slot_input a s)

  module _ (def : Option (Map (InputHandle N))) where
    keeps-connect_flow :
        (a b : String) (f : FlowHandleFrom) (c : Connections N)
        → P c
        → P (connect_flow find_value_node def a b f c)
    unfolding connect_flow
    keeps-connect_flow a b f c p =
        elim (Bool-cases (is_some_and def (Map.contains_key f.input_handle))) [
          | inl e ↦ rw e (k.flow_node a b f.input_handle c p)
          | inr e ↦ rw e p
        ]

    keeps-connect_input :
        (a : String) (i : NodeInputFrom N) (c : Connections N)
        → P c
        → P (connect_input find_value_node def a i c)
    unfolding connect_input
    keeps-connect_input a i c p =
        for_each_inv P _ (keeps-connect_flow a i.handle) (unwrap_or i.from_flow []) _
          (for_each_inv P _ (keeps-connect_node a i.handle) (unwrap_or i.from_node []) c p)

    pub keeps-parse_node_inputs_from :
        (a : String) (is : Option (List (NodeInputFrom N))) (c : Connections N)
        → P c
        → P (parse_node_inputs_from find_value_node def a is c)
    unfolding parse_node_inputs_from
    keeps-parse_node_inputs_from a is = for_each_inv P _ (keeps-connect_input a) (unwrap_or is [])

module _ {N : Type 0} {P : Connections N → Type 0} (k : Keeps P) where
  keeps-output_node :
      (g : String) (f : NodeHandleFrom) (c : Connections N) → P c → P (output_node g f c)
  unfolding output_node
  keeps-output_node g f c p = elim (Bool-cases (StringSet.contains f.node_id c.nodes)) [
    | inl known ↦ rw known (k.node_flow g f.node_id f.output_handle c known p)
    | inr new ↦ rw new p
  ]

  keeps-connect_output : (o : NodeInputFrom N) (c : Connections N) → P c → P (connect_output o c)
  unfolding connect_output output_flow
  keeps-connect_output o c p =
      for_each_inv P _ (λ f d q. k.flow_flow o.handle f.input_handle d q) (unwrap_or o.from_flow [])
        _ (for_each_inv P _ (keeps-output_node o.handle) (unwrap_or o.from_node []) c p)

  pub keeps-parse_flow_outputs_from :
      (os : Option (List (NodeInputFrom N))) (c : Connections N)
      → P c
      → P (parse_flow_outputs_from os c)
  unfolding parse_flow_outputs_from
  keeps-parse_flow_outputs_from os = for_each_inv P _ keeps-connect_output (unwrap_or os [])
