-- ===== src/InputValues/Take.antt =====
-- runtime/src/flow_job/node_input_values.rs: `take`, which removes the values for one job of a node.
-- The loop over the queues of the node fills a map of values and a list of values to remember, and
-- shortens the queues: it is a function for each of the three, over the same `visit`.
use oocana_rust.Base.{
  String, Bool, true, false, not, ◌&&◌, Option, none, some, List, [], ◌∷◌, if◌then◌else◌, ◌>>=◌,
  is_some_and, is_empty, unwrap_or,
}
use oocana_rust.Base.Map
use oocana_rust.Base.Map.{Map}
use oocana_rust.Output.{OutputValue}
use oocana_rust.Node.{
  Node, NodeInput, node_id, inputs, has_connection, is_provided, into_json_or_null,
}
use oocana_rust.InputValues.{
  InputMap, InputValues, NodeInputStore, NodeInputValues, queue, is_static, need_remember_value,
  remember_value, update_serializable_cache_value,
}

-- What becomes of one queue: what is left, the value taken, and whether it is to be remembered.
pub record Popped (N : Type 0) : Type 0 where
  pub left : List (OutputValue N)
  pub value : Option (OutputValue N)
  pub remembered : Bool

module _ {N : Type 0} where
  unfoldable pub front : List (OutputValue N) → Option (OutputValue N)
  front [] = none
  front (v ∷ q) = some v

  unfoldable pub pop : Bool → Option (OutputValue N) → List (OutputValue N) → Popped N
  pop remember memory [] = record { left = []; value = memory; remembered = false }
  pop remember memory (v ∷ q) = record {
    left = q;
    value = some v;
    remembered = is_empty q && remember;
  }

  unfoldable pub skip : List (OutputValue N) → Popped N
  skip q = record { left = q; value = none; remembered = false }

  -- The handle has no connection and a static value is set for it.
  unfoldable pub static_only : Node N → String → Bool
  unfolding has_connection
  static_only node h =
      not (has_connection node h)
      && is_some_and (Map.get h (inputs node)) (λ i. is_provided i.value)

  unfoldable pub visit : NodeInputStore N → Node N → String → List (OutputValue N) → Popped N
  unfolding front pop skip static_only need_remember_value
  visit memory node h q =
      if static_only node h
      then skip q
      else pop (need_remember_value node h) (queue memory (node_id node) h >>= front) q

  unfoldable pub left_queues : NodeInputStore N → Node N → InputMap N → InputMap N
  unfolding visit
  left_queues memory node [] = []
  left_queues memory node ((h, q) ∷ m) =
      (h, (visit memory node h q).left) ∷ left_queues memory node m

  unfoldable pub put : String → Option (OutputValue N) → InputValues N → InputValues N
  put h none values = values
  put h (some v) values = Map.insert h v values

  unfoldable pub taken_values :
      NodeInputStore N → Node N → InputMap N → InputValues N → InputValues N
  unfolding visit put
  taken_values memory node [] values = values
  taken_values memory node ((h, q) ∷ m) values =
      taken_values memory node m (put h (visit memory node h q).value values)

  unfoldable pub remember_taken : Node N → String → Popped N → NodeInputValues N → NodeInputValues N
  remember_taken node h p niv =
      if p.remembered
      then elim p.value [ none ↦ niv | some v ↦ remember_value (node_id node) h v niv ]
      else niv

  unfoldable pub remember_all :
      NodeInputStore N → Node N → InputMap N → NodeInputValues N → NodeInputValues N
  unfolding visit remember_taken remember_value
  remember_all memory node [] niv = niv
  remember_all memory node ((h, q) ∷ m) niv =
      remember_all memory node m (remember_taken node h (visit memory node h q) niv)

  unfoldable pub static_value : NodeInput N → OutputValue N
  unfolding into_json_or_null
  static_value i = record { value = into_json_or_null i.value; is_json_serializable = true }

  unfoldable pub add_static : Map (NodeInput N) → InputValues N → InputValues N
  unfolding static_value
  add_static [] values = values
  add_static ((h, i) ∷ rest) values =
      add_static rest (if is_static i then Map.insert h (static_value i) values else values)

  unfoldable pub cache_all : String → InputValues N → NodeInputValues N → NodeInputValues N
  unfolding update_serializable_cache_value
  cache_all n [] niv = niv
  cache_all n ((h, v) ∷ values) niv = cache_all n values (update_serializable_cache_value n h v niv)

  -- The values of the map that `take` builds, before it is wrapped in an `Option`.
  unfoldable pub value_map : Node N → NodeInputValues N → InputValues N
  unfolding taken_values add_static
  value_map node niv =
      add_static (inputs node)
        (taken_values niv.memory_store node (unwrap_or (Map.get (node_id node) niv.store) []) [])

  unfoldable pub take : Node N → NodeInputValues N → Option (InputValues N) × NodeInputValues N
  unfolding left_queues remember_all cache_all value_map
  take node niv =
      let n = node_id node in
      let queues = unwrap_or (Map.get n niv.store) [] in
      let popped : NodeInputValues N = record niv {
        store = Map.modify n (left_queues niv.memory_store node) niv.store;
      } in
      let remembered = remember_all niv.memory_store node queues popped in
      let values = value_map node niv in
      (if is_empty values then none else some values, cache_all n values remembered)
