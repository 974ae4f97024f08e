-- ===== src/Upstream/Within.antt =====
-- runtime/src/flow_job/upstream.rs: the nodes that run first are given ones or upstream nodes.
use oocana_rust.Base.{
  String, true, ◌||◌, subst, some, List, [], ◌∷◌, ◌++◌, ◌≡◌, refl, arith, ==_refl, for_each,
  for_each_inv, map, All, All-append, All-imp, All-map, Option-cases, Bool-cases, inl, inr,
}
use oocana_rust.Base.Map
use oocana_rust.Base.StringSet
use oocana_rust.Base.StringSet.{StringSet}
use oocana_rust.Node.{Node, node_id}
use oocana_rust.InputValues.{NodeInputValues, is_node_fulfill}
use oocana_rust.Subflow.{SubflowBlock, IsKeyed}
use oocana_rust.RunToNode
use oocana_rust.RunToNode.{RunToNode}
use oocana_rust.Upstream.{
  Calc, Upstream, calc_found, calc_node, calc_loop, calc_nodes, sort_outside, drop_dependent,
  find_upstream_nodes,
}

contains-append :
    (n : String) (xs ys : StringSet)
    → StringSet.contains n (xs ++ ys) ≡ (StringSet.contains n xs || StringSet.contains n ys)
unfolding StringSet.contains
contains-append n [] ys = refl
contains-append n (x ∷ xs) ys = ground (arith, contains-append n xs ys)

module _ {N : Type 0} (origin : StringSet) (flow : SubflowBlock N)
    (keyed : IsKeyed flow.nodes) where
  abbrev FromOrigin : Calc N → Type 0
  FromOrigin c = All (λ node. StringSet.contains (node_id node) origin ≡ true) c.will_run

  calc_found-FromOrigin :
      (id : String) (node : Node N) (n : RunToNode) (c : Calc N)
      → StringSet.contains (node_id node) origin ≡ true
      → FromOrigin c
      → FromOrigin (calc_found origin flow id node n c)
  unfolding calc_found
  calc_found-FromOrigin id node n c mem h =
      let values = drop_dependent origin flow id node n c.values in
      elim (Bool-cases (is_node_fulfill values node)) [
        | inl ready ↦
            rw (ready, calc_found)
              (All-append (λ d. StringSet.contains (node_id d) origin ≡ true) c.will_run (node ∷ [])
                h (mem, tt))
        | inr waits ↦ elim (Bool-cases (is_node_fulfill c.values node)) [
          | inl was ↦ rw (waits, was, calc_found) h
          | inr never ↦ rw (waits, never, calc_found) h
        ]
      ]

  calc_node-FromOrigin :
      (id : String) (c d : Calc N)
      → StringSet.contains id origin ≡ true
      → FromOrigin c
      → calc_node origin flow id c ≡ some d
      → FromOrigin d
  unfolding calc_node
  calc_node-FromOrigin id c d mem h e = elim (Option-cases (Map.get id flow.nodes)) [
    | inl gone ↦
        let c' : Calc N = record c { not_found = StringSet.insert id c.not_found } in
        let e' : c' ≡ d = ground arith in subst FromOrigin e' h
    | inr (node, here) ↦ elim (Option-cases (RunToNode.new flow (some id) (some c.values))) [
      | inl stuck ↦ absurd (ground arith)
      | inr (r, found) ↦
          let e' : calc_found origin flow id node r c ≡ d = ground arith in
          subst FromOrigin e' (calc_found-FromOrigin id node r c (rw (keyed id node here) mem) h)
    ]
  ]

  calc_loop-FromOrigin :
      (ids : List String) (c d : Calc N)
      → All (λ id. StringSet.contains id origin ≡ true) ids
      → FromOrigin c
      → calc_loop origin flow ids c ≡ some d
      → FromOrigin d
  unfolding calc_loop
  calc_loop-FromOrigin [] c d mem h e = let e' : c ≡ d = ground arith in subst FromOrigin e' h
  calc_loop-FromOrigin (id ∷ ids) c d mem h e = elim (Option-cases (calc_node origin flow id c)) [
    | inl stuck ↦ absurd (ground arith)
    | inr (c', found) ↦
        calc_loop-FromOrigin ids c' d mem.1 (calc_node-FromOrigin id c c' mem.0 h found)
          (rw found at e)
  ]

  abbrev IsAllowed : Upstream → Type 0
  IsAllowed u =
      All (λ n. (StringSet.contains n origin || StringSet.contains n u.upstream) ≡ true) u.will_run

  sort_outside-IsAllowed :
      (values : NodeInputValues N) (id : String) (u : Upstream)
      → IsAllowed u
      → IsAllowed (sort_outside flow values id u)
  unfolding sort_outside StringSet.contains
  sort_outside-IsAllowed values id u h = elim (Option-cases (Map.get id flow.nodes)) [
    | inl gone ↦ rw (gone, sort_outside) h
    | inr (node, here) ↦
        let more = u.upstream ++ node_id node ∷ [] in
        let P : String → Type 0 =
          λ n. (StringSet.contains n origin || StringSet.contains n u.upstream) ≡ true in
        let Q : String → Type 0 =
          λ n. (StringSet.contains n origin || StringSet.contains n more) ≡ true in
        let kept =
          All-imp P Q u.will_run
            (λ n p. ground (arith, contains-append n u.upstream (node_id node ∷ []))) h in
        let last : Q (node_id node) = ground (
          arith,
          contains-append (node_id node) u.upstream (node_id node ∷ []),
          ==_refl (node_id node),
        ) in
        elim (Bool-cases (is_node_fulfill values node)) [
          | inl ready ↦
              rw (here, ready, sort_outside)
                (All-append Q u.will_run (node_id node ∷ []) kept (last, tt))
          | inr waits ↦ rw (here, waits, sort_outside) kept
        ]
  ]

  contains_self : (xs ys : StringSet) → All (λ x. StringSet.contains x (ys ++ xs) ≡ true) xs
  unfolding StringSet.contains
  contains_self [] ys = tt
  contains_self (x ∷ xs) ys = (
    ground (arith, contains-append x ys (x ∷ xs), ==_refl x),
    All-imp (λ y. StringSet.contains y (ys ++ xs) ≡ true)
        (λ y. StringSet.contains y (ys ++ x ∷ xs) ≡ true) xs
        (λ y p. ground (arith, contains-append y ys (x ∷ xs), contains-append y ys xs, p))
        (contains_self xs ys),
  )

  sort_all-IsAllowed :
      (values : NodeInputValues N) (ids : List String) (u : Upstream)
      → IsAllowed u
      → IsAllowed (for_each (sort_outside flow values) ids u)
  sort_all-IsAllowed values ids u h =
      for_each_inv IsAllowed (sort_outside flow values) (sort_outside-IsAllowed values) ids u h

  -- Each node that is to run first is one of the given nodes or one of the upstream nodes.
  pub find_upstream_nodes-IsAllowed :
      (values left : NodeInputValues N) (u : Upstream)
      → find_upstream_nodes origin flow values ≡ some (u, left)
      → IsAllowed u
  unfolding find_upstream_nodes calc_nodes
  find_upstream_nodes-IsAllowed values left u e =
      elim (Option-cases (calc_nodes origin flow values)) [
        | inl stuck ↦ absurd (ground arith)
        | inr (c, found) ↦
            let from =
              calc_loop-FromOrigin origin
                (record { values = values; not_found = []; outside = []; will_run = [] }) c
                (contains_self origin []) tt found in
            let start : Upstream = record {
              will_run = map node_id c.will_run;
              waiting = [];
              upstream = [];
            } in
            let u' = for_each (sort_outside flow c.values) c.outside start in
            let same : u' ≡ u = ground arith in
            let first : IsAllowed start =
              All-map (λ n. (StringSet.contains n origin || StringSet.contains n []) ≡ true) node_id
                c.will_run
                (All-imp (λ d. StringSet.contains (node_id d) origin ≡ true)
                  (λ d.
                    (StringSet.contains (node_id d) origin || StringSet.contains (node_id d) [])
                    ≡ true)
                  c.will_run (λ d p. ground (arith, p)) from) in
            subst IsAllowed same (sort_all-IsAllowed c.values c.outside start first)
      ]
