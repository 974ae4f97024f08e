-- ===== src/Upstream/Total.antt =====
-- runtime/src/flow_job/upstream.rs: the search for upstream nodes ends.
use oocana_rust.Base.{String, some, List, [], ◌∷◌, ◌≡◌, refl, Option-cases, inl, inr, map, for_each}
use oocana_rust.Base.Map
use oocana_rust.Base.StringSet
use oocana_rust.Base.StringSet.{StringSet}
use oocana_rust.Node.{node_id}
use oocana_rust.InputValues.{NodeInputValues}
use oocana_rust.Subflow.{SubflowBlock, IsKeyed}
use oocana_rust.RunToNode.Needed.{new_total}
use oocana_rust.Upstream.{
  Calc, Upstream, calc_found, calc_node, calc_loop, find_upstream_nodes, sort_outside,
}

module _ {N : Type 0} (nodes : StringSet) (flow : SubflowBlock N) (keyed : IsKeyed flow.nodes) where
  calc_node_total : (id : String) (c : Calc N) → (d : Calc N) × (calc_node nodes flow id c ≡ some d)
  unfolding calc_node
  calc_node_total id c = elim (Option-cases (Map.get id flow.nodes)) [
    | inl e ↦ (record c { not_found = StringSet.insert id c.not_found }, rw (e, calc_node))
    | inr (node, e) ↦
        let (n, f) = new_total flow (some c.values) keyed (some id) in
        (calc_found nodes flow id node n c, rw (e, calc_node, f))
  ]

  calc_loop_total :
      (ids : List String) (c : Calc N) → (d : Calc N) × (calc_loop nodes flow ids c ≡ some d)
  unfolding calc_loop
  calc_loop_total [] c = (c, refl)
  calc_loop_total (id ∷ ids) c =
      let (d, e) = calc_node_total id c in
      let (r, f) = calc_loop_total ids d in (r, rw (e, calc_loop) f)

  -- In a flow whose nodes stand under their own ids, the upstream nodes are found for every set of
  -- nodes, whatever the values and the cycles.
  pub find_upstream_nodes_total :
      (values : NodeInputValues N)
      → (r : Upstream × NodeInputValues N) × (find_upstream_nodes nodes flow values ≡ some r)
  unfolding find_upstream_nodes
  find_upstream_nodes_total values =
      let (c, e) =
        calc_loop_total nodes
          (record { values = values; not_found = []; outside = []; will_run = [] }) in
      (
        (
          for_each (sort_outside flow c.values) c.outside
              (record { will_run = map node_id c.will_run; waiting = []; upstream = [] }),
          c.values,
        ),
        rw (e, find_upstream_nodes),
      )
