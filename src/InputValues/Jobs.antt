-- ===== src/InputValues/Jobs.antt =====
-- runtime/src/flow_job/node_input_values.rs: the inputs of a job that is started for a node.
use oocana_rust.Base.{String, true, none, some, [], ◌∷◌, ◌≡◌, ◌≢◌, arith, eq_iff, unwrap_or}
use oocana_rust.Base.Map
use oocana_rust.Base.Map.{Map, IsDistinct}
use oocana_rust.Node.{Node, NodeInput, node_id, inputs}
use oocana_rust.InputValues.{
  NodeInputValues, waiting, queue, is_node_fulfill, all_ready, input_ready,
}
use oocana_rust.InputValues.Take.{visit, value_map, taken_values}
use oocana_rust.InputValues.Delivery.{
  delivered, get-taken_values, get-add_static, static_only-is_static,
}

module _ {N : Type 0} where
  -- The queues of the node and its inputs are maps: no handle stands twice in one.
  abbrev pub HasMaps : Node N → NodeInputValues N → Type 0
  HasMaps node niv =
      IsDistinct (inputs node) × IsDistinct (unwrap_or (Map.get (node_id node) niv.store) [])

  -- A handle with a remembered value has a queue, be it an empty one.
  abbrev pub IsCovered : NodeInputValues N → Type 0
  IsCovered niv = (n h : String) → waiting niv.memory_store n h ≢ [] → queue niv.store n h ≢ none

  -- Where neither the inputs nor the queues of the node have a handle twice, each handle gets what
  -- `delivered` says: a handle with a static value and no connection this value, any other the
  -- oldest waiting value, or the remembered one if none waits.
  pub get-value_map :
      (node : Node N) (niv : NodeInputValues N) (h : String)
      → HasMaps node niv
      → Map.get h (value_map node niv) ≡ delivered node niv h
  unfolding value_map delivered visit Map.get
  get-value_map node niv h d = ground (
    arith,
    get-add_static h (inputs node)
        (taken_values niv.memory_store node (unwrap_or (Map.get (node_id node) niv.store) []) [])
        d.0,
    get-taken_values niv.memory_store node h (unwrap_or (Map.get (node_id node) niv.store) []) []
        d.1,
    static_only-is_static node h,
  )

  all_ready-input_ready :
      (niv : NodeInputValues N) (n h : String) (is : Map (NodeInput N)) (i : NodeInput N)
      → all_ready niv n is ≡ true
      → Map.get h is ≡ some i
      → input_ready niv n (h, i) ≡ true
  unfolding all_ready Map.get
  all_ready-input_ready niv n h [] i r g = cc
  all_ready-input_ready niv n h ((k, j) ∷ is) i r g =
      ground (arith, eq_iff k h, all_ready-input_ready niv n h is i)

  ready_delivered :
      (node : Node N) (niv : NodeInputValues N) (h : String) (i : NodeInput N)
      → IsCovered niv
      → Map.get h (inputs node) ≡ some i
      → input_ready niv (node_id node) (h, i) ≡ true
      → delivered node niv h ≢ none
  unfolding input_ready delivered
  ready_delivered node niv h i c g r = ground (arith, c (node_id node) h)

  -- A job that is started for a node whose inputs are fulfilled gets a value at every input of it.
  pub fulfilled_has_values :
      (node : Node N) (niv : NodeInputValues N) (h : String) (i : NodeInput N)
      → HasMaps node niv
      → IsCovered niv
      → is_node_fulfill niv node ≡ true
      → Map.get h (inputs node) ≡ some i
      → Map.get h (value_map node niv) ≢ none
  unfolding is_node_fulfill
  fulfilled_has_values node niv h i d c f g = rw (get-value_map node niv h d) (
      ready_delivered node niv h i c g
        (all_ready-input_ready niv (node_id node) h (inputs node) i f g))
