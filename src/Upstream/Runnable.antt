-- ===== src/Upstream/Runnable.antt =====
-- runtime/src/flow_job/upstream.rs: the nodes that are reported as runnable, waiting and upstream.
use oocana_rust.Base.{
  String, true, false, some, List, [], ◌∷◌, ◌≡◌, arith, ◌==◌, eq_iff, Option-cases, Bool-cases, inl,
  inr, map, for_each, for_each_inv, All, All-append, All-imp, All-map, unwrap_or, subst,
}
use oocana_rust.Base.Map
use oocana_rust.Base.StringSet
use oocana_rust.Base.StringSet.{StringSet, IsDistinct}
use oocana_rust.Node.{Node, node_id}
use oocana_rust.InputValues.{NodeInputValues, is_node_fulfill, remove_input_values}
use oocana_rust.InputValues.Removal.{is_node_fulfill-same, remove_input_values-same}
use oocana_rust.Subflow.{SubflowBlock, IsKeyed}
use oocana_rust.RunToNode
use oocana_rust.RunToNode.{RunToNode, find_intersection_nodes}
use oocana_rust.Upstream.{
  Calc, Upstream, drop_dependent, insert_outside, without, calc_found, calc_node, calc_loop,
  calc_nodes, find_upstream_nodes, sort_outside,
}

module _ {N : Type 0} (flow : SubflowBlock N) where
  -- A node of the flow that has all its inputs, and one that has not.
  abbrev pub RunsNow : NodeInputValues N → String → Type 0
  RunsNow values n =
      (node : Node N) × (Map.get n flow.nodes ≡ some node) × (is_node_fulfill values node ≡ true)

  abbrev pub Waits : NodeInputValues N → String → Type 0
  Waits values n =
      (node : Node N) × (Map.get n flow.nodes ≡ some node) × (is_node_fulfill values node ≡ false)

  pub record IsSorted (origin : StringSet) (values : NodeInputValues N) (u : Upstream)
      : Type 0 where
    pub runnable : All (RunsNow values) u.will_run
    pub waiting : All (Waits values) u.waiting
    pub outside : All (λ n. StringSet.contains n origin ≡ false) u.upstream

  module _ (keyed : IsKeyed flow.nodes) (origin : StringSet) where
    abbrev Runs : NodeInputValues N → List String → Node N → Type 0
    Runs values ids node =
        (Map.get (node_id node) flow.nodes ≡ some node)
        × (is_node_fulfill values node ≡ true)
        × (StringSet.contains (node_id node) ids ≡ false)

    -- What holds in the loop of `calc_nodes` before the nodes `ids`.
    record Holds (ids : List String) (c : Calc N) : Type 0 where
      running : All (Runs c.values ids) c.will_run
      outside : All (λ n. StringSet.contains n origin ≡ false) c.outside

    Runs-tail :
        (values : NodeInputValues N) (id : String) (ids : List String) (n : Node N)
        → Runs values (id ∷ ids) n
        → Runs values ids n
    unfolding StringSet.contains
    Runs-tail values id ids n h = ground arith

    Runs-drop :
        (values : NodeInputValues N) (id : String) (ids : List String) (node : Node N)
        (r : RunToNode) (n : Node N)
        → node_id node ≡ id
        → Runs values (id ∷ ids) n
        → Runs (drop_dependent origin flow id node r values) ids n
    unfolding StringSet.contains drop_dependent
    Runs-drop values id ids node r n e h =
        let fed = find_intersection_nodes r (without origin flow id) in
        let other : (node_id node == node_id n) ≡ false =
          ground (arith, eq_iff id (node_id n), eq_iff (node_id node) (node_id n)) in
        let removed = remove_input_values node fed values in
        ground (
          arith,
          is_node_fulfill-same n removed values
              (remove_input_values-same node fed values (node_id n) other),
        )

    insert_outside-keeps :
        (id : String) (s : StringSet)
        → All (λ n. StringSet.contains n origin ≡ false) s
        → All (λ n. StringSet.contains n origin ≡ false) (insert_outside origin flow id s)
    unfolding insert_outside StringSet.insert
    insert_outside-keeps id s h = ground arith

    calc_found-Holds :
        (id : String) (ids : List String) (node : Node N) (r : RunToNode) (c : Calc N)
        → Map.get id flow.nodes ≡ some node
        → StringSet.contains id ids ≡ false
        → Holds (id ∷ ids) c
        → Holds ids (calc_found origin flow id node r c)
    unfolding calc_found
    calc_found-Holds id ids node r c here new h =
        let same : node_id node ≡ id = keyed id node here in
        let values = drop_dependent origin flow id node r c.values in
        let kept : All (Runs values ids) c.will_run =
          All-imp (Runs c.values (id ∷ ids)) (Runs values ids) c.will_run
            (λ n p. Runs-drop c.values id ids node r n same p) h.running in
        elim (Bool-cases (is_node_fulfill values node)) [
          | inl ready ↦
              rw (ready, calc_found)
                (record {
                  running =
                      All-append (Runs values ids) c.will_run (node ∷ []) kept
                        ((rw same here, ready, rw same new), tt);
                  outside = h.outside;
                })
          | inr waits ↦ elim (Bool-cases (is_node_fulfill c.values node)) [
            | inl was ↦ rw (waits, was, calc_found) (record { running = kept; outside = h.outside })
            | inr was ↦
                rw (waits, was, calc_found)
                  (record {
                    running = kept;
                    outside =
                        for_each_inv (All (λ n. StringSet.contains n origin ≡ false))
                          (insert_outside origin flow) insert_outside-keeps
                          (unwrap_or r.should_run_nodes []) c.outside h.outside;
                  })
          ]
        ]

    calc_node-Holds :
        (id : String) (ids : List String) (c d : Calc N)
        → StringSet.contains id ids ≡ false
        → Holds (id ∷ ids) c
        → calc_node origin flow id c ≡ some d
        → Holds ids d
    unfolding calc_node
    calc_node-Holds id ids c d new h e = elim (Option-cases (Map.get id flow.nodes)) [
      | inl gone ↦
          let c' : Calc N = record c { not_found = StringSet.insert id c.not_found } in
          let e' : c' ≡ d = ground arith in
          subst (Holds ids) e' (record {
            running =
                All-imp (Runs c.values (id ∷ ids)) (Runs c.values ids) c.will_run
                  (Runs-tail c.values id ids) h.running;
            outside = h.outside;
          })
      | inr (node, here) ↦ elim (Option-cases (RunToNode.new flow (some id) (some c.values))) [
        | inl stuck ↦ absurd (ground arith)
        | inr (r, found) ↦
            subst (Holds ids) (ground arith) (calc_found-Holds id ids node r c here new h)
      ]
    ]

    calc_loop-Holds :
        (ids : List String) (c d : Calc N)
        → IsDistinct ids
        → Holds ids c
        → calc_loop origin flow ids c ≡ some d
        → Holds [] d
    unfolding calc_loop
    calc_loop-Holds [] c d u h e = subst (Holds []) (ground arith) h
    calc_loop-Holds (id ∷ ids) c d u h e = elim (Option-cases (calc_node origin flow id c)) [
      | inl stuck ↦ absurd (ground arith)
      | inr (c', found) ↦
          calc_loop-Holds ids c' d u.1 (calc_node-Holds id ids c c' u.0 h found) (ground arith)
    ]

    sort_outside-IsSorted :
        (values : NodeInputValues N) (id : String) (u : Upstream)
        → StringSet.contains id origin ≡ false
        → IsSorted origin values u
        → IsSorted origin values (sort_outside flow values id u)
    unfolding sort_outside
    sort_outside-IsSorted values id u out h = elim (Option-cases (Map.get id flow.nodes)) [
      | inl gone ↦ rw (gone, sort_outside) h
      | inr (node, here) ↦
          let same : node_id node ≡ id = keyed id node here in
          let up =
            All-append (λ n. StringSet.contains n origin ≡ false) u.upstream (node_id node ∷ [])
              h.outside (rw same out, tt) in
          elim (Bool-cases (is_node_fulfill values node)) [
            | inl ready ↦
                rw (here, sort_outside, ready)
                  (record {
                    runnable =
                        All-append (RunsNow values) u.will_run (node_id node ∷ []) h.runnable
                          ((node, rw same here, ready), tt);
                    waiting = h.waiting;
                    outside = up;
                  })
            | inr waits ↦
                rw (here, sort_outside, waits)
                  (record {
                    runnable = h.runnable;
                    waiting =
                        All-append (Waits values) u.waiting (node_id node ∷ []) h.waiting
                          ((node, rw same here, waits), tt);
                    outside = up;
                  })
          ]
    ]

    sort_all :
        (values : NodeInputValues N) (ids : List String) (u : Upstream)
        → All (λ n. StringSet.contains n origin ≡ false) ids
        → IsSorted origin values u
        → IsSorted origin values (for_each (sort_outside flow values) ids u)
    unfolding for_each
    sort_all values [] u out h = h
    sort_all values (id ∷ ids) u out h =
        sort_all values ids (sort_outside flow values id u) out.1
          (sort_outside-IsSorted values id u out.0 h)

    -- For a list of nodes without repetitions in a flow whose nodes stand under their own ids: of
    -- the nodes that `find_upstream_nodes` reports, those that will run have all their inputs in
    -- the values that it leaves, those that wait have not, and the upstream nodes are none of the
    -- given ones.
    pub find_upstream_nodes-IsSorted :
        (values left : NodeInputValues N) (u : Upstream)
        → IsDistinct origin
        → find_upstream_nodes origin flow values ≡ some (u, left)
        → IsSorted origin left u
    unfolding find_upstream_nodes
    find_upstream_nodes-IsSorted values left u distinct e =
        elim (Option-cases (calc_nodes origin flow values)) [
          | inl stuck ↦ absurd (ground arith)
          | inr (c, found) ↦
              let h =
                calc_loop-Holds origin _ c distinct (record { running = tt; outside = tt }) found in
              let start : Upstream = record {
                will_run = map node_id c.will_run;
                waiting = [];
                upstream = [];
              } in
              let u' = for_each (sort_outside flow c.values) c.outside start in
              let sorted = sort_all c.values c.outside start h.outside (record {
                runnable = All-map (RunsNow c.values) node_id c.will_run (
                    All-imp (Runs c.values []) (λ n. RunsNow c.values (node_id n)) c.will_run
                      (λ n r. (n, r.0, r.1)) h.running);
                waiting = tt;
                outside = tt;
              }) in
              let same_u : u' ≡ u = ground arith in
              let same_values : c.values ≡ left = ground arith in
              subst (λ v. IsSorted origin v u) same_values
                (subst (IsSorted origin c.values) same_u sorted)
        ]
