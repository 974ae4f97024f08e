-- ===== src/Connections/Origins.antt =====
-- manifest_meta/src/connections.rs: where connections come from; and the whole construction of
-- manifest_meta/src/flow.rs, SubflowBlock::from_manifest, from the outputs of the flow to its nodes.
use oocana_rust.Base.{
  String, false, Option, List, [], ◌∷◌, ◌≡◌, refl, arith, eq_iff, unwrap_or, for_each, for_each_inv,
}
use oocana_rust.Base.Map
use oocana_rust.Base.Map.{Map}
use oocana_rust.Base.StringSet
use oocana_rust.Base.StringSet.{StringSet}
use oocana_rust.Manifest.{InputHandle, NodeInputFrom, ValueNode}
use oocana_rust.Node.{from_flow_input, from_node_output, from_value}
use oocana_rust.Connections.{
  Connections, new, add_value, node_to_node, flow_to_node, node_to_flow, flow_to_flow,
}
use oocana_rust.Connections.Parse.{
  parse_slot_inputs_from, parse_node_inputs_from, parse_flow_outputs_from,
}
use oocana_rust.Connections.Counting.{
  is_node_output, count_if, at_handle, at_node, count-add_handle, count-add_node,
}
use oocana_rust.Connections.Kept.{
  Keeps, keeps-parse_slot_inputs_from, keeps-parse_node_inputs_from, keeps-parse_flow_outputs_from,
}
use oocana_rust.Connections.Duality.{
  IsDual, new-IsDual, add_value-IsDual, node_to_node-IsDual, flow_to_node-IsDual,
  node_to_flow-IsDual, flow_to_flow-IsDual,
}

-- manifest_reader/src/manifest/node/subflow.rs: what fills a slot.
pub data SlotProvider (N : Type 0) : Type 0 where
  task subflow : (slot_node_id : String) → (block : String) → SlotProvider N
  slot_flow :
      (slot_node_id : String)
      → (slotflow : String) → (inputs_def : Option (List (InputHandle N)))
      → Option (List (NodeInputFrom N))
      → SlotProvider N

module _ {N : Type 0} where
  slot_node_id : SlotProvider N → String
  slot_node_id (task n b) = n
  slot_node_id (subflow n b) = n
  slot_node_id (slot_flow n b d is) = n

  slot_inputs_from : SlotProvider N → List (NodeInputFrom N)
  slot_inputs_from (task n b) = []
  slot_inputs_from (subflow n b) = []
  slot_inputs_from (slot_flow n b d is) = unwrap_or is []

-- What from_manifest reads of a node that runs.
pub record FlowNode (N : Type 0) : Type 0 where
  pub node_id : String
  pub inputs_from : Option (List (NodeInputFrom N))
  pub slots : Option (List (SlotProvider N))

module _ {N : Type 0} (find_value_node : String → Option (ValueNode N))
    (flow_inputs_def : Option (Map (InputHandle N))) where
  provide_slot : String → SlotProvider N → Connections N → Connections N
  unfolding slot_node_id slot_inputs_from
  provide_slot node_id s c =
      parse_slot_inputs_from find_value_node node_id (slot_node_id s) (slot_inputs_from s) c

  add_flow_node : FlowNode N → Connections N → Connections N
  unfolding provide_slot
  add_flow_node n c =
      for_each (provide_slot n.node_id) (unwrap_or n.slots [])
        (parse_node_inputs_from find_value_node flow_inputs_def n.node_id n.inputs_from c)

  node_ids : List (FlowNode N) → StringSet
  node_ids [] = []
  node_ids (n ∷ ns) = StringSet.insert n.node_id (node_ids ns)

  unfoldable pub connect_all : Option (List (NodeInputFrom N)) → List (FlowNode N) → Connections N
  unfolding add_flow_node node_ids
  connect_all outputs_from nodes_in_flow =
      for_each add_flow_node nodes_in_flow
        (parse_flow_outputs_from outputs_from (new (node_ids nodes_in_flow)))

  connect_all-keeps :
      (P : Connections N → Type 0)
      → Keeps P
      → ((s : StringSet) → P (new s))
      → (os : Option (List (NodeInputFrom N))) (ns : List (FlowNode N)) → P (connect_all os ns)
  unfolding connect_all
  connect_all-keeps P k start os ns =
      for_each_inv P _
        (λ n c p.
          for_each_inv P _
            (λ s d q.
              keeps-parse_slot_inputs_from k find_value_node n.node_id (slot_node_id s)
                (slot_inputs_from s) d q)
            (unwrap_or n.slots []) _
            (keeps-parse_node_inputs_from k find_value_node flow_inputs_def n.node_id n.inputs_from
              c p))
        ns _ (keeps-parse_flow_outputs_from k os _ (start (node_ids ns)))

  keeps-IsDual : Keeps {N = N} IsDual
  keeps-IsDual = record {
    value = add_value-IsDual;
    node_node = λ a b x y c known. node_to_node-IsDual a b x y c;
    flow_node = flow_to_node-IsDual;
    node_flow = λ g x y c known. node_to_flow-IsDual g x y c;
    flow_flow = flow_to_flow-IsDual;
  }

  -- In the connections of a flow each connection stands at its target as often as at its source.
  pub connect_all-IsDual :
      (os : Option (List (NodeInputFrom N))) (ns : List (FlowNode N)) → IsDual (connect_all os ns)
  connect_all-IsDual = connect_all-keeps IsDual keeps-IsDual new-IsDual

  -- An input or an output of the flow is fed by no node that is not in the flow.
  pub record HasOrigins (c : Connections N) : Type 0 where
    pub inputs :
        (m h n o : String)
        → StringSet.contains n c.nodes ≡ false
        → count_if (is_node_output n o) (at_node m h c.node_inputs_froms) ≡ 0
    pub outputs :
        (g n o : String)
        → StringSet.contains n c.nodes ≡ false
        → count_if (is_node_output n o) (at_handle g c.flow_outputs_froms) ≡ 0

  origins_kept : Keeps HasOrigins
  unfolding add_value node_to_node flow_to_node node_to_flow flow_to_flow
  origins_kept = record {
    value = λ a b v c p. record {
      inputs = λ m h n o out. ground (
        arith,
        p.inputs m h n o out,
        count-add_node (is_node_output n o) a m b h (from_value v) c.node_inputs_froms,
      );
      outputs = p.outputs;
    };
    node_node = λ a b x y c known p. record {
      inputs = λ m h n o out. ground (
        arith,
        p.inputs m h n o out,
        eq_iff x n,
        count-add_node (is_node_output n o) a m b h (from_node_output x y) c.node_inputs_froms,
      );
      outputs = p.outputs;
    };
    flow_node = λ a b x c p. record {
      inputs = λ m h n o out. ground (
        arith,
        p.inputs m h n o out,
        count-add_node (is_node_output n o) a m b h (from_flow_input x) c.node_inputs_froms,
      );
      outputs = p.outputs;
    };
    node_flow = λ b x y c known p. record {
      inputs = p.inputs;
      outputs = λ g n o out. ground (
        arith,
        p.outputs g n o out,
        eq_iff x n,
        count-add_handle (is_node_output n o) b g (from_node_output x y) c.flow_outputs_froms,
      );
    };
    flow_flow = λ b x c p. record {
      inputs = p.inputs;
      outputs = λ g n o out. ground (
        arith,
        p.outputs g n o out,
        count-add_handle (is_node_output n o) b g (from_flow_input x) c.flow_outputs_froms,
      );
    };
  }

  new-HasOrigins : (s : StringSet) → HasOrigins (new s)
  unfolding new Map.get count_if
  new-HasOrigins s = record { inputs = λ m h n o e. refl; outputs = λ g n o e. refl }

  -- No input of a node and no output of the flow is connected to the output of a node that is not
  -- in the flow, be it an ignored node or a value node.
  pub connect_all-HasOrigins :
      (os : Option (List (NodeInputFrom N))) (ns : List (FlowNode N))
      → HasOrigins (connect_all os ns)
  connect_all-HasOrigins = connect_all-keeps HasOrigins origins_kept new-HasOrigins
