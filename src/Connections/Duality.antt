-- ===== src/Connections/Duality.antt =====
-- manifest_meta/src/connections.rs: the two ends of the connections agree.
use oocana_rust.Base.{String, ◌≡◌, refl, arith}
use oocana_rust.Base.Map
use oocana_rust.Base.Map.{Map}
use oocana_rust.Base.StringSet.{StringSet}
use oocana_rust.Node.{
  ValueState, HandleFrom, from_flow_input, from_node_output, from_value, to_flow_output,
  to_node_input,
}
use oocana_rust.Connections.{
  Connections, new, add_value, node_to_node, flow_to_node, node_to_flow, flow_to_flow,
}
use oocana_rust.Connections.Counting.{
  is_node_output, is_flow_input, is_node_input, is_flow_output, count_if, at_handle, at_node,
  count-add_handle, count-add_node,
}

module _ {N : Type 0} where
  -- Each of the four kinds of connections stands at its source as often as at its target.
  pub record IsDual (c : Connections N) : Type 0 where
    pub node_node :
        (m h n o : String)
        → count_if (is_node_output n o) (at_node m h c.node_inputs_froms)
          ≡ count_if (is_node_input m h) (at_node n o c.node_outputs_tos)
    pub flow_node :
        (m h f : String)
        → count_if (is_flow_input f) (at_node m h c.node_inputs_froms)
          ≡ count_if (is_node_input m h) (at_handle f c.flow_inputs_tos)
    pub node_flow :
        (g n o : String)
        → count_if (is_node_output n o) (at_handle g c.flow_outputs_froms)
          ≡ count_if (is_flow_output g) (at_node n o c.node_outputs_tos)
    pub flow_flow :
        (g f : String)
        → count_if (is_flow_input f) (at_handle g c.flow_outputs_froms)
          ≡ count_if (is_flow_output g) (at_handle f c.flow_inputs_tos)

  pub new-IsDual : (nodes : StringSet) → IsDual (new nodes)
  unfolding new Map.get count_if
  new-IsDual nodes = record {
    node_node = λ m h n o. refl;
    flow_node = λ m h f. refl;
    node_flow = λ g n o. refl;
    flow_flow = λ g f. refl;
  }

  pub add_value-IsDual :
      (a b : String) (v : ValueState N) (c : Connections N) → IsDual c → IsDual (add_value a b v c)
  unfolding add_value
  add_value-IsDual a b v c d = record {
    node_node = λ m h n o. ground (
      arith,
      d.node_node m h n o,
      count-add_node (is_node_output n o) a m b h (from_value v) c.node_inputs_froms,
    );
    flow_node = λ m h f. ground (
      arith,
      d.flow_node m h f,
      count-add_node (is_flow_input f) a m b h (from_value v) c.node_inputs_froms,
    );
    node_flow = d.node_flow;
    flow_flow = d.flow_flow;
  }

  pub node_to_node-IsDual :
      (a b x y : String) (c : Connections N) → IsDual c → IsDual (node_to_node a b x y c)
  unfolding node_to_node
  node_to_node-IsDual a b x y c d =
      let from : HandleFrom N = from_node_output x y in
      let to = to_node_input a b in
      record {
        node_node = λ m h n o. ground (
          arith,
          d.node_node m h n o,
          count-add_node (is_node_output n o) a m b h from c.node_inputs_froms,
          count-add_node (is_node_input m h) x n y o to c.node_outputs_tos,
        );
        flow_node = λ m h f. ground (
          arith,
          d.flow_node m h f,
          count-add_node (is_flow_input f) a m b h from c.node_inputs_froms,
        );
        node_flow = λ g n o. ground (
          arith,
          d.node_flow g n o,
          count-add_node (is_flow_output g) x n y o to c.node_outputs_tos,
        );
        flow_flow = d.flow_flow;
      }

  pub flow_to_node-IsDual :
      (a b x : String) (c : Connections N) → IsDual c → IsDual (flow_to_node a b x c)
  unfolding flow_to_node
  flow_to_node-IsDual a b x c d =
      let from : HandleFrom N = from_flow_input x in
      let to = to_node_input a b in
      record {
        node_node = λ m h n o. ground (
          arith,
          d.node_node m h n o,
          count-add_node (is_node_output n o) a m b h from c.node_inputs_froms,
        );
        flow_node = λ m h f. ground (
          arith,
          d.flow_node m h f,
          count-add_node (is_flow_input f) a m b h from c.node_inputs_froms,
          count-add_handle (is_node_input m h) x f to c.flow_inputs_tos,
        );
        node_flow = d.node_flow;
        flow_flow = λ g f.
            ground (
              arith,
              d.flow_flow g f,
              count-add_handle (is_flow_output g) x f to c.flow_inputs_tos,
            );
      }

  pub node_to_flow-IsDual :
      (g x y : String) (c : Connections N) → IsDual c → IsDual (node_to_flow g x y c)
  unfolding node_to_flow
  node_to_flow-IsDual b x y c d =
      let from : HandleFrom N = from_node_output x y in
      let to = to_flow_output b in
      record {
        node_node = λ m h n o. ground (
          arith,
          d.node_node m h n o,
          count-add_node (is_node_input m h) x n y o to c.node_outputs_tos,
        );
        flow_node = d.flow_node;
        node_flow = λ g n o. ground (
          arith,
          d.node_flow g n o,
          count-add_handle (is_node_output n o) b g from c.flow_outputs_froms,
          count-add_node (is_flow_output g) x n y o to c.node_outputs_tos,
        );
        flow_flow = λ g f. ground (
          arith,
          d.flow_flow g f,
          count-add_handle (is_flow_input f) b g from c.flow_outputs_froms,
        );
      }

  pub flow_to_flow-IsDual :
      (g x : String) (c : Connections N) → IsDual c → IsDual (flow_to_flow g x c)
  unfolding flow_to_flow
  flow_to_flow-IsDual b x c d =
      let from : HandleFrom N = from_flow_input x in
      let to = to_flow_output b in
      record {
        node_node = d.node_node;
        flow_node = λ m h f. ground (
          arith,
          d.flow_node m h f,
          count-add_handle (is_node_input m h) x f to c.flow_inputs_tos,
        );
        node_flow = λ g n o. ground (
          arith,
          d.node_flow g n o,
          count-add_handle (is_node_output n o) b g from c.flow_outputs_froms,
        );
        flow_flow = λ g f. ground (
          arith,
          d.flow_flow g f,
          count-add_handle (is_flow_input f) b g from c.flow_outputs_froms,
          count-add_handle (is_flow_output g) x f to c.flow_inputs_tos,
        );
      }
