-- ===== src/Generate.antt =====
-- manifest_meta/src/flow.rs: the inputs of a node, made from its definition and its connections; and
-- the changes of a flow after it is made.
pub mod Sources
pub mod Inputs
pub mod Rules
pub mod Supply
use oocana_rust.Base.{
  String, Bool, true, false, Option, none, some, List, [], ◌∷◌, ◌++◌, ◌==◌, ◌&&◌, if◌then◌else◌,
  ◌>>=◌, is_some_and, is_empty, any, or_else, unwrap_or, map_option,
}
use oocana_rust.Base.Map
use oocana_rust.Base.Map.{Map}
use oocana_rust.Json.{Json, null}
use oocana_rust.Manifest.{InputHandle, InputDefPatch, NodeInputFrom}
use oocana_rust.Node.{
  ValueState, not_provided, explicit_null, value, from_double_option, HandleFrom, from_flow_input,
  from_node_output, from_value, HandleSource, flow_input, node_output, HandleTo, NodeInput,
  NodeCommon, Node, task, flow, slot, service, condition, inputs,
}
use oocana_rust.Subflow.{SubflowBlock}

-- Vec::extend
extend : List HandleTo → List HandleTo → List HandleTo
extend more tos = tos ++ more

module _ {N : Type 0} where
  -- The value of a connection that is the only one and comes from a value.
  only_value : List (HandleFrom N) → Option (ValueState N)
  only_value (from_value v ∷ []) = some v
  only_value _ = none

  unfoldable pub extract_value_from_connection :
      Option (List (HandleFrom N)) → Option (ValueState N)
  unfolding only_value
  extract_value_from_connection from = from >>= only_value

  find_value : String → List (NodeInputFrom N) → Option (ValueState N)
  unfolding from_double_option
  find_value handle [] = none
  find_value handle (i ∷ is) =
      if i.handle == handle then some (from_double_option i.value) else find_value handle is

  unfoldable pub extract_value_from_inputs :
      Option (List (NodeInputFrom N)) → String → Option (ValueState N)
  unfolding find_value
  extract_value_from_inputs node_inputs_from handle = node_inputs_from >>= find_value handle

  sources_of : List (HandleFrom N) → List HandleSource
  sources_of [] = []
  sources_of (from_flow_input h ∷ fs) = flow_input h ∷ sources_of fs
  sources_of (from_node_output n o ∷ fs) = node_output n o ∷ sources_of fs
  sources_of (from_value v ∷ fs) = sources_of fs

  unfoldable pub convert_to_sources : Option (List (HandleFrom N)) → Option (List HandleSource)
  unfolding sources_of
  convert_to_sources from = map_option sources_of from

  -- get_inputs_def_patch
  collect_patches : Map (List InputDefPatch) → List (NodeInputFrom N) → Map (List InputDefPatch)
  collect_patches found [] = found
  collect_patches found (i ∷ is) =
      collect_patches
        (elim i.schema_overrides [ none ↦ found | some ps ↦ Map.insert i.handle ps found ]) is

  unfoldable pub get_inputs_def_patch :
      Option (List (NodeInputFrom N)) → Option (Map (List InputDefPatch))
  unfolding collect_patches
  get_inputs_def_patch node_inputs_from = node_inputs_from >>= λ is.
      let found = collect_patches [] is in if is_empty found then none else some found

  module _ (froms : Option (Map (List (HandleFrom N))))
      (node_inputs_from : Option (List (NodeInputFrom N)))
      (patches : Option (Map (List InputDefPatch))) where
    -- The input of one handle.
    unfoldable pub generate_input : String → InputHandle N → NodeInput N
    unfolding extract_value_from_connection extract_value_from_inputs convert_to_sources
    generate_input handle input_def =
        let from = froms >>= Map.get handle in
        let for_cache =
          is_some_and node_inputs_from (any (λ i. i.handle == handle && i.serialize_for_cache)) in
        record {
          def = record input_def { deserialize_from_cache = for_cache };
          patch = patches >>= Map.get handle;
          value =
              unwrap_or
                (or_else (extract_value_from_connection from)
                  (extract_value_from_inputs node_inputs_from handle))
                not_provided;
          sources = convert_to_sources from;
          serialize_for_cache = for_cache;
        }

    generate_all : Map (NodeInput N) → Map (InputHandle N) → Map (NodeInput N)
    unfolding generate_input
    generate_all made [] = made
    generate_all made ((handle, input_def) ∷ def) =
        generate_all (Map.insert handle (generate_input handle input_def) made) def

    unfoldable pub generate_node_inputs : Option (Map (InputHandle N)) → Map (NodeInput N)
    unfolding generate_all
    generate_node_inputs none = []
    generate_node_inputs (some def) = generate_all [] def

  -- ValueState::from_json
  from_json : Json N → ValueState N
  from_json v = value v

  set_inputs : Map (NodeInput N) → NodeCommon N → NodeCommon N
  set_inputs is c = record c { inputs = is }

  unfoldable pub update_inputs : Map (NodeInput N) → Node N → Node N
  unfolding set_inputs
  update_inputs is (task c) = task (set_inputs is c)
  update_inputs is (flow c) = flow (set_inputs is c)
  update_inputs is (slot c) = slot (set_inputs is c)
  update_inputs is (service c) = service (set_inputs is c)
  update_inputs is (condition b o c) = condition b o (set_inputs is c)

  unfoldable pub set_value : Json N → NodeInput N → NodeInput N
  unfolding from_json
  set_value v i = record i { value = from_json v }

  unfoldable pub merge_inputs : Map (Json N) → Map (NodeInput N) → Map (NodeInput N)
  unfolding set_value
  merge_inputs [] is = is
  merge_inputs ((handle, v) ∷ merged) is = merge_inputs merged (Map.modify handle (set_value v) is)

  unfoldable pub merge_node : Map (Json N) → Node N → Node N
  unfolding update_inputs merge_inputs
  merge_node merged node = update_inputs (merge_inputs merged (inputs node)) node

  unfoldable pub merge_nodes : Map (Map (Json N)) → Map (Node N) → Map (Node N)
  unfolding merge_node
  merge_nodes [] nodes = nodes
  merge_nodes ((n, merged) ∷ rest) nodes = merge_nodes rest (Map.modify n (merge_node merged) nodes)

  unfoldable pub merge_input_values : Map (Map (Json N)) → SubflowBlock N → SubflowBlock N
  unfolding merge_nodes
  merge_input_values inputs_value f = record f { nodes = merge_nodes inputs_value f.nodes }

  unfoldable pub update_flow_inputs_tos : String → List HandleTo → SubflowBlock N → SubflowBlock N
  unfolding extend
  update_flow_inputs_tos handle tos f = record f {
    flow_inputs_tos = Map.entry handle [] (extend tos) f.flow_inputs_tos;
  }

  is_slot : Node N → Bool
  is_slot (slot c) = true
  is_slot _ = false

  any_slot : Map (Node N) → Bool
  unfolding is_slot
  any_slot [] = false
  any_slot ((n, node) ∷ nodes) = if is_slot node then true else any_slot nodes

  unfoldable pub has_slot : SubflowBlock N → Bool
  unfolding any_slot
  has_slot f = any_slot f.nodes
