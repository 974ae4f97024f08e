-- ===== src/Upstream.antt =====
-- runtime/src/flow_job/upstream.rs: which nodes run at once, which wait and which run before them,
-- when a flow is run up to some nodes.
pub mod Total
pub mod Runnable
pub mod Within
use oocana_rust.Base.{
  String, Bool, true, false, not, ◌&&◌, Option, none, some, List, [], ◌∷◌, ◌++◌, if◌then◌else◌,
  ◌>>=◌, is_some_and, map_option, map, keep_if, unwrap_or, for_each, ◌==◌,
}
use oocana_rust.Base.Map
use oocana_rust.Base.StringSet
use oocana_rust.Base.StringSet.{StringSet}
use oocana_rust.Node.{Node, node_id}
use oocana_rust.InputValues.{NodeInputValues, is_node_fulfill, remove_input_values}
use oocana_rust.Subflow.{SubflowBlock}
use oocana_rust.RunToNode
use oocana_rust.RunToNode.{RunToNode, has_deps_in, find_intersection_nodes}

-- The local variables of `calc_nodes`, with the input values that it changes.
pub record Calc (N : Type 0) : Type 0 where
  pub values : NodeInputValues N
  pub not_found : StringSet
  pub outside : StringSet
  pub will_run : List (Node N)

module _ {N : Type 0} (nodes : StringSet) (flow : SubflowBlock N) where
  abbrev pub without : String → StringSet
  without id = keep_if (λ j. not (j == id)) nodes

  -- Values that nodes of the list will produce again are removed.
  unfoldable pub drop_dependent :
      String → Node N → RunToNode → NodeInputValues N → NodeInputValues N
  drop_dependent id node n values =
      if has_deps_in n (without id)
      then remove_input_values node (find_intersection_nodes n (without id)) values
      else values

  insert_outside : String → StringSet → StringSet
  insert_outside id outside =
      if StringSet.contains id nodes then outside else StringSet.insert id outside

  -- The node has its entry in the flow, and `n` is what it waits for.
  unfoldable pub calc_found : String → Node N → RunToNode → Calc N → Calc N
  unfolding drop_dependent insert_outside
  calc_found id node n c =
      let values = drop_dependent id node n c.values in
      if is_node_fulfill values node
      then record c { values = values; will_run = c.will_run ++ node ∷ [] }
      else if not (is_node_fulfill c.values node)
      then record c {
        values = values;
        outside = for_each insert_outside (unwrap_or n.should_run_nodes []) c.outside;
      }
      else record c { values = values }

  unfoldable pub calc_node : String → Calc N → Option (Calc N)
  unfolding calc_found
  calc_node id c = elim (Map.get id flow.nodes) [
    | none ↦ some (record c { not_found = StringSet.insert id c.not_found })
    | some node ↦
        RunToNode.new flow (some id) (some c.values) >>= λ n. some (calc_found id node n c)
  ]

  -- `none` would be a search that ran out of fuel.
  unfoldable pub calc_loop : List String → Calc N → Option (Calc N)
  unfolding calc_node
  calc_loop [] c = some c
  calc_loop (id ∷ ids) c = calc_node id c >>= calc_loop ids

  unfoldable pub calc_nodes : NodeInputValues N → Option (Calc N)
  unfolding calc_loop
  calc_nodes values =
      calc_loop nodes (record { values = values; not_found = []; outside = []; will_run = [] })

-- The three lists of `find_upstream_nodes`.
pub record Upstream : Type 0 where
  pub will_run : List String
  pub waiting : List String
  pub upstream : List String

module _ {N : Type 0} (flow : SubflowBlock N) (values : NodeInputValues N) where
  unfoldable pub sort_outside : String → Upstream → Upstream
  sort_outside id u = elim (Map.get id flow.nodes) [
    | none ↦ u
    | some node ↦
        if is_node_fulfill values node
        then record u {
          will_run = u.will_run ++ node_id node ∷ [];
          upstream = u.upstream ++ node_id node ∷ [];
        }
        else record u {
          waiting = u.waiting ++ node_id node ∷ [];
          upstream = u.upstream ++ node_id node ∷ [];
        }
  ]

unfoldable pub find_upstream_nodes :
    {N : Type 0}
    → StringSet
    → SubflowBlock N
    → NodeInputValues N
    → Option (Upstream × NodeInputValues N)
unfolding calc_nodes sort_outside
find_upstream_nodes origin_nodes flow values = calc_nodes origin_nodes flow values >>= λ c. some (
  for_each (sort_outside flow c.values) c.outside
      (record { will_run = map node_id c.will_run; waiting = []; upstream = [] }),
  c.values,
)
