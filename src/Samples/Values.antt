-- ===== src/Samples/Values.antt =====
-- The values that wait at the two inputs of node `b`, and the nodes that it waits for.
use oocana_rust.Base.{ℕ, String, true, false, none, some, [], ◌∷◌, ◌≡◌, refl, arith, ◌==◌, eq_iff}
use oocana_rust.Base.Map
use oocana_rust.Base.Map.{IsDistinct}
use oocana_rust.Output.{OutputValue, maybe_serializable}
use oocana_rust.Node.{node_id, inputs, is_provided}
use oocana_rust.InputValues.{
  InputValues, NodeInputValues, queue, is_node_fulfill, need_remember_value,
}
use oocana_rust.InputValues.Take.{value_map, take, static_only}
use oocana_rust.InputValues.Delivery.{delivered}
use oocana_rust.InputValues.Jobs.{HasMaps, get-value_map}
use oocana_rust.InputValues.Memory.{remembered_again}
use oocana_rust.InputValues.Invariant.{IsValid, take-IsValid, take_fifo, fulfilled_job_has_values}
use oocana_rust.Samples.Flows.{node_b, text_value, fed}

-- Two values wait at input "in".
abbrev two_wait : NodeInputValues ℕ
two_wait = record {
  store = ("b", ("in", text_value "old" ∷ text_value "new" ∷ []) ∷ []) ∷ [];
  memory_store = [];
  cache_value_store = some [];
}

abbrev one_waits : NodeInputValues ℕ
one_waits = record {
  store = ("b", ("in", text_value "old" ∷ []) ∷ []) ∷ [];
  memory_store = [];
  cache_value_store = none;
}

b-IsDistinct : IsDistinct (inputs node_b)
unfolding Map.get
b-IsDistinct = (refl, (refl, tt))

two_wait-IsValid : IsValid two_wait
unfolding Map.get
two_wait-IsValid = record {
  covered = λ n h c. absurd (c refl);
  distinct = λ n. ground (arith, eq_iff "b" n);
}

b_fulfilled : is_node_fulfill two_wait node_b ≡ true
unfolding is_node_fulfill Map.get is_provided
b_fulfilled = refl

b_input : Map.get "in" (inputs node_b) ≡ some (fed "in" true)
unfolding Map.get
b_input = refl

fulfilled_job_has_values_example :
    (values : InputValues ℕ) × (v : OutputValue ℕ) × ((take node_b two_wait).0 ≡ some values)
    × (Map.get "in" values ≡ some v)
fulfilled_job_has_values_example =
    fulfilled_job_has_values node_b two_wait "in" (fed "in" true) b-IsDistinct two_wait-IsValid
      b_fulfilled b_input

no_static : static_only node_b "in" ≡ false
unfolding static_only Map.get
no_static = refl

in_queue :
    queue two_wait.store (node_id node_b) "in" ≡ some (text_value "old" ∷ text_value "new" ∷ [])
unfolding Map.get
in_queue = refl

take_fifo_example :
    (Map.get "in" (value_map node_b two_wait) ≡ some (text_value "old"))
    × (queue (take node_b two_wait).1.store "b" "in" ≡ some (text_value "new" ∷ []))
    × ((n k : String)
        → ("b" == n) ≡ false
        → queue (take node_b two_wait).1.store n k ≡ queue two_wait.store n k)
take_fifo_example =
    take_fifo node_b two_wait "in" (text_value "old") (text_value "new" ∷ []) b-IsDistinct
      two_wait-IsValid no_static in_queue

two_wait-HasMaps : HasMaps node_b two_wait
unfolding Map.get
two_wait-HasMaps = ((refl, (refl, tt)), (refl, tt))

get-value_map_example : Map.get "k" (value_map node_b two_wait) ≡ delivered node_b two_wait "k"
get-value_map_example = get-value_map node_b two_wait "k" two_wait-HasMaps

one_waits-HasMaps : HasMaps node_b one_waits
unfolding Map.get
one_waits-HasMaps = ((refl, (refl, tt)), (refl, tt))

one_taken-HasMaps : HasMaps node_b (take node_b one_waits).1
unfolding Map.get take Map.modify is_provided Map.insert maybe_serializable
one_taken-HasMaps = ((refl, (refl, tt)), (refl, tt))

b_remembers : need_remember_value node_b "in" ≡ true
unfolding need_remember_value Map.get Map.insert
b_remembers = refl

one_queue : queue one_waits.store (node_id node_b) "in" ≡ some (text_value "old" ∷ [])
unfolding Map.get
one_queue = refl

remembered_again_example :
    Map.get "in" (value_map node_b (take node_b one_waits).1) ≡ some (text_value "old")
remembered_again_example =
    remembered_again node_b one_waits "in" (text_value "old") one_waits-HasMaps one_taken-HasMaps
      b_remembers no_static one_queue

take-IsValid_example : IsValid (take node_b two_wait).1
take-IsValid_example = take-IsValid node_b two_wait b-IsDistinct two_wait-IsValid
