-- ===== src/Samples/Generated.antt =====
-- The inputs of node "b" as they are made from its manifest, and a value merged into them.
use oocana_rust.Base.{ℕ, false, Option, none, some, List, [], ◌∷◌, ◌≡◌, refl}
use oocana_rust.Base.Map
use oocana_rust.Base.Map.{Map, IsDistinct}
use oocana_rust.Json.{Json, number}
use oocana_rust.Manifest.{InputHandle}
use oocana_rust.Node.{HandleFrom, from_flow_input, from_node_output}
use oocana_rust.Connections.Counting.{is_node_input, count_if, at_handle, at_node}
use oocana_rust.Connections.Origins.{connect_all}
use oocana_rust.Generate.{generate_node_inputs}
use oocana_rust.Generate.Sources.{is_source_node, is_source_flow, generated_sources, sources_match}
use oocana_rust.Generate.Supply.{IsMade, generate_node_inputs_lem}
use oocana_rust.Samples.Flows.{handle_def}
use oocana_rust.Samples.Manifests.{three_sources, result, value_nodes, start_defs, flow_nodes}

sources_match_example :
    (count_if (is_source_node "a" "out") (
        generated_sources (some (three_sources ∷ [])) none "in" (handle_def "in" false) (
          Map.get "b"
            (connect_all value_nodes start_defs (some (result ∷ [])) flow_nodes).node_inputs_froms))
      ≡ count_if (is_node_input "b" "in") (
          at_node "a" "out"
            (connect_all value_nodes start_defs (some (result ∷ [])) flow_nodes).node_outputs_tos))
    × (count_if (is_source_flow "start") (
          generated_sources (some (three_sources ∷ [])) none "in" (handle_def "in" false) (
            Map.get "b"
              (connect_all value_nodes start_defs
                (some (result ∷ []))
                flow_nodes).node_inputs_froms))
        ≡ count_if (is_node_input "b" "in") (
            at_handle "start"
              (connect_all value_nodes start_defs (some (result ∷ [])) flow_nodes).flow_inputs_tos))
sources_match_example =
    sources_match (some (three_sources ∷ [])) none "in" (handle_def "in" false) value_nodes
      start_defs (some (result ∷ [])) flow_nodes "b" "a" "out" "start"

abbrev b_froms : Option (Map (List (HandleFrom ℕ)))
b_froms = some (("in", from_node_output "a" "out" ∷ from_flow_input "start" ∷ []) ∷ [])

abbrev b_defs : Map (InputHandle ℕ)
b_defs = ("in", handle_def "in" false) ∷ ("k", handle_def "k" false) ∷ []

b_defs-IsDistinct : IsDistinct b_defs
unfolding Map.get
b_defs-IsDistinct = (refl, (refl, tt))

generate_node_inputs_lem_example :
    IsMade b_froms
      (some (three_sources ∷ []))
      none
      "in"
      (Map.get "in" b_defs)
      (Map.get "in" (generate_node_inputs b_froms (some (three_sources ∷ [])) none (some b_defs)))
generate_node_inputs_lem_example =
    generate_node_inputs_lem b_froms (some (three_sources ∷ [])) none "in" b_defs b_defs-IsDistinct

-- A new value for the static input "k" of node "b".
abbrev new_k : Map (Json ℕ)
new_k = ("k", number 7) ∷ []

abbrev new_values : Map (Map (Json ℕ))
new_values = ("b", new_k) ∷ []
