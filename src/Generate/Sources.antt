-- ===== src/Generate/Sources.antt =====
-- manifest_meta/src/flow.rs: the sources of a node's inputs, against the ends of the connections.
use oocana_rust.Base.{
  String, Bool, false, ◌&&◌, Option, none, some, List, [], ◌∷◌, ◌≡◌, refl, arith, ◌==◌, ◌∙◌,
  unwrap_or, Option-cases, inl, inr,
}
use oocana_rust.Base.Map
use oocana_rust.Base.Map.{Map}
use oocana_rust.Manifest.{InputHandle, InputDefPatch, NodeInputFrom, ValueNode}
use oocana_rust.Node.{
  HandleFrom, from_flow_input, from_node_output, from_value, HandleSource, flow_input, node_output,
}
use oocana_rust.Connections.Counting.{
  is_node_output, is_flow_input, is_node_input, count_if, at_handle, at_node,
}
use oocana_rust.Connections.Origins.{FlowNode, connect_all, connect_all-IsDual}
use oocana_rust.Generate.{sources_of, convert_to_sources, generate_input}

abbrev pub is_source_node : String → String → HandleSource → Bool
is_source_node n o (node_output m p) = m == n && p == o
is_source_node n o (flow_input f) = false

abbrev pub is_source_flow : String → HandleSource → Bool
is_source_flow f (node_output m p) = false
is_source_flow f (flow_input g) = g == f

module _ {N : Type 0} where
  count-sources_of-node :
      (n o : String) (fs : List (HandleFrom N))
      → count_if (is_source_node n o) (sources_of fs) ≡ count_if (is_node_output n o) fs
  unfolding sources_of count_if
  count-sources_of-node n o [] = refl
  count-sources_of-node n o (from_flow_input f ∷ fs) = omega (arith, count-sources_of-node n o fs)
  count-sources_of-node n o (from_node_output m p ∷ fs) =
      omega (arith, count-sources_of-node n o fs)
  count-sources_of-node n o (from_value v ∷ fs) = omega (arith, count-sources_of-node n o fs)

  count-sources_of-flow :
      (f : String) (fs : List (HandleFrom N))
      → count_if (is_source_flow f) (sources_of fs) ≡ count_if (is_flow_input f) fs
  unfolding sources_of count_if
  count-sources_of-flow f [] = refl
  count-sources_of-flow f (from_flow_input g ∷ fs) = omega (arith, count-sources_of-flow f fs)
  count-sources_of-flow f (from_node_output m p ∷ fs) = omega (arith, count-sources_of-flow f fs)
  count-sources_of-flow f (from_value v ∷ fs) = omega (arith, count-sources_of-flow f fs)

  module _ (is : Option (List (NodeInputFrom N))) (patches : Option (Map (List InputDefPatch)))
      (h : String) (d : InputHandle N) where
    -- The sources of a generated input, empty where it has no list of them.
    abbrev pub generated_sources : Option (Map (List (HandleFrom N))) → List HandleSource
    generated_sources froms = unwrap_or (generate_input froms is patches h d).sources []

    generated-at_handle :
        (froms : Option (Map (List (HandleFrom N))))
        → generated_sources froms ≡ sources_of (at_handle h (unwrap_or froms []))
    unfolding generate_input convert_to_sources sources_of Map.get
    generated-at_handle none = refl
    generated-at_handle (some m) = elim (Option-cases (Map.get h m)) [
      | inl gone ↦ rw gone refl
      | inr (fs, here) ↦ rw here refl
    ]

    -- The inputs of a node and the outputs that feed them agree: an input that is generated from the
    -- connections of a manifest has an output of a node, or an input of the flow, among its sources
    -- as often as this one has it among its targets.
    pub sources_match :
        (find_value_node : String → Option (ValueNode N)) (def : Option (Map (InputHandle N)))
        (os : Option (List (NodeInputFrom N))) (ns : List (FlowNode N)) (m n o f : String)
        → (count_if (is_source_node n o) (
              generated_sources
                (Map.get m (connect_all find_value_node def os ns).node_inputs_froms))
            ≡ count_if
                (is_node_input m h)
                (at_node n o (connect_all find_value_node def os ns).node_outputs_tos))
          × (count_if (is_source_flow f) (
                generated_sources
                  (Map.get m (connect_all find_value_node def os ns).node_inputs_froms))
              ≡ count_if
                  (is_node_input m h)
                  (at_handle f (connect_all find_value_node def os ns).flow_inputs_tos))
    sources_match find_value_node def os ns m n o f =
        let c = connect_all find_value_node def os ns in
        let dual = connect_all-IsDual find_value_node def os ns in
        let froms = Map.get m c.node_inputs_froms in
        let fs = at_handle h (unwrap_or froms []) in
        (
          rw (generated-at_handle froms) (count-sources_of-node n o fs ∙ dual.node_node m h n o),
          rw (generated-at_handle froms) (count-sources_of-flow f fs ∙ dual.flow_node m h f),
        )
