-- ===== src/Samples/Manifests.antt =====
-- The manifest of a flow, and a condition block of one.
use oocana_rust.Base.{
  ℕ, String, Bool, true, false, not, ◌&&◌, Option, none, some, List, [], ◌∷◌, ltb, if◌then◌else◌,
  ◌==◌, ==_sym, ◌≡◌, arith, ◌↔◌,
}
use oocana_rust.Base.Map.{Map}
use oocana_rust.Json.{Json, null, boolean, number, str, array, nil, cons}
use oocana_rust.Manifest.{InputHandle, NodeInputFrom, ValueNode}
use oocana_rust.Connections.Duality.{IsDual}
use oocana_rust.Connections.Origins.{
  FlowNode, HasOrigins, connect_all, connect_all-IsDual, connect_all-HasOrigins,
}
use oocana_rust.Condition.{ConditionBlock, evaluate, and_}
use oocana_rust.Condition.Operator.{Numbers, equal, contains, not_contains, compare_values}
use oocana_rust.Condition.Evaluate.{Answers, evaluate_iff}
use oocana_rust.Condition.Negation.{containments, applies, negation-Decides}
use oocana_rust.Samples.Flows.{handle_def}

-- Input "in" of node "b" comes from node "a", from value node "v" and from the flow.
abbrev pub three_sources : NodeInputFrom ℕ
three_sources = record {
  handle = "in";
  value = none;
  schema_overrides = none;
  from_flow = some (record { input_handle = "start" } ∷ []);
  from_node = some (
      record { node_id = "a"; output_handle = "out" }
      ∷ record { node_id = "v"; output_handle = "x" }
      ∷ []);
  serialize_for_cache = false;
}

abbrev pub result : NodeInputFrom ℕ
result = record {
  handle = "result";
  value = none;
  schema_overrides = none;
  from_flow = none;
  from_node = some (record { node_id = "b"; output_handle = "out" } ∷ []);
  serialize_for_cache = false;
}

abbrev pub value_nodes : String → Option (ValueNode ℕ)
value_nodes n =
    if n == "v"
    then some (record { node_id = "v"; values = handle_def "x" false ∷ []; ignore = false })
    else none

abbrev pub start_defs : Option (Map (InputHandle ℕ))
start_defs = some (("start", handle_def "start" false) ∷ [])

abbrev pub flow_nodes : List (FlowNode ℕ)
flow_nodes =
    record { node_id = "a"; inputs_from = none; slots = none }
    ∷ record { node_id = "b"; inputs_from = some (three_sources ∷ []); slots = none }
    ∷ []

connect_all-IsDual_example :
    IsDual (connect_all value_nodes start_defs (some (result ∷ [])) flow_nodes)
connect_all-IsDual_example =
    connect_all-IsDual value_nodes start_defs (some (result ∷ [])) flow_nodes

connect_all-HasOrigins_example :
    HasOrigins value_nodes start_defs
      (connect_all value_nodes start_defs (some (result ∷ [])) flow_nodes)
connect_all-HasOrigins_example =
    connect_all-HasOrigins value_nodes start_defs (some (result ∷ [])) flow_nodes

-- Equality of the kinds of values, and of the numbers themselves.
abbrev same : Json ℕ → Json ℕ → Bool
same null null = true
same (boolean true) (boolean b) = b
same (boolean false) (boolean b) = not b
same (number m) (number n) = not (ltb m n) && not (ltb n m)
same (str s) (str t) = s == t
same _ _ = false

same_sym : (a b : Json ℕ) → same a b ≡ same b a
same_sym (str s) (str t) = ==_sym s t
same_sym a b = ground arith

abbrev numbers : Numbers ℕ
numbers = record {
  value_eq = same;
  value_eq_sym = same_sym;
  F = ℕ;
  as_f64 = λ n. some n;
  lt = ltb;
  le = λ a b. not (ltb b a);
}

-- "big" if the input is 5, else "other".
abbrev is_five : ConditionBlock ℕ
is_five = record {
  description = none;
  cases =
      record {
        handle = "big";
        description = none;
        logical = some and_;
        expressions =
            record {
              input_handle = "n";
              operator = equal;
              value = some (number 5);
              description = none;
            }
            ∷ [];
      }
      ∷ [];
  default = some (record { handle = "other"; description = none });
}

evaluate_iff_example :
    (evaluate numbers is_five (("n", number 5) ∷ []) ≡ some "big")
    ↔ Answers numbers (("n", number 5) ∷ []) is_five.cases is_five.default (some "big")
evaluate_iff_example = evaluate_iff numbers (("n", number 5) ∷ []) is_five (some "big")

negation-Decides_example :
    (compare_values numbers contains (array (cons null nil)) (some null) ≡ (
      applies {N = ℕ} contains (array (cons null nil)) (some null)
      && compare_values numbers contains (array (cons null nil)) (some null)))
    × (compare_values numbers not_contains (array (cons null nil)) (some null) ≡ (
        applies {N = ℕ} contains (array (cons null nil)) (some null)
        && not (compare_values numbers contains (array (cons null nil)) (some null))))
negation-Decides_example =
    negation-Decides numbers contains not_contains containments (array (cons null nil)) (some null)
