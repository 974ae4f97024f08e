-- ===== src/RunToNode/Needed.antt =====
-- runtime/src/flow_job/run_to_node.rs: the nodes that RunToNode finds are those that are needed.
use oocana_rust.Base.{
  suc, String, true, false, Option, none, some, List, [], ◌∷◌, ◌≡◌, refl, inl, inr, arith, length,
  All, Option-cases,
}
use oocana_rust.Base.Map
use oocana_rust.Base.Map.{Map}
use oocana_rust.Base.StringSet
use oocana_rust.Base.StringSet.{StringSet}
use oocana_rust.Node.{Node, node_id}
use oocana_rust.InputValues.{NodeInputValues}
use oocana_rust.Subflow.{SubflowBlock, IsKeyed}
use oocana_rust.RunToNode.{RunToNode, open_sources, is_fulfilled, calc_node_deps, new}
use oocana_rust.RunToNode.Search.{
  unseen-le-length, Explored, HasSources, Known, calc_node_deps-Finds,
}

-- A name stands among names.
pub data Among (n : String) : List String → Type 0 where
  first : (ns : List String) → Among n (n ∷ ns)
  later : (k : String) (ns : List String) → Among n ns → Among n (k ∷ ns)

All-among {ℓ} :
    {P : String → Type ℓ} (ns : List String) → ((n : String) → Among n ns → P n) → All P ns
All-among [] h = tt
All-among (n ∷ ns) h = (h n (first ns), All-among ns (λ k m. h k (later n ns m)))

among-All {ℓ} : (P : String → Type ℓ) (n : String) (ns : List String) → Among n ns → All P ns → P n
among-All P n ms (first ns) h = h.0
among-All P n ms (later k ns m) h = among-All P n ns m h.1

module _ {N : Type 0} (values : Option (NodeInputValues N)) (nodes : Map (Node N)) where
  -- The node itself is needed; and the source of an input with no value of a node that is needed
  -- and not fulfilled, if it stands in the flow.
  pub data IsNeeded (t : String) : String → Type 0 where
    itself : IsNeeded t t
    source :
        (m n : String) (node d : Node N)
        → IsNeeded t m
        → Map.get m nodes ≡ some node
        → is_fulfilled values nodes node ≡ false
        → Among n (open_sources values nodes node)
        → Map.get n nodes ≡ some d
        → IsNeeded t n

  search_result :
      (t : String) (node : Node N)
      → IsKeyed nodes
      → Map.get t nodes ≡ some node
      → (r : StringSet) × (calc_node_deps values nodes (suc (length nodes)) node [] ≡ some r)
        × Explored values nodes (IsNeeded t) [] r
        × (StringSet.contains t r ≡ true)
  unfolding StringSet.contains
  search_result t node keyed here =
      let same : node_id node ≡ t = keyed t node here in
      let (r, e, x, h) =
        calc_node_deps-Finds values nodes {P = IsNeeded t} keyed step (suc (length nodes)) node []
          (rw same here) (rw same itself) refl (omega (arith, unseen-le-length nodes [])) in
      (r, e, x, rw same at h)
    where
      step :
          (a : Node N)
          → Map.get (node_id a) nodes ≡ some a
          → IsNeeded t (node_id a)
          → is_fulfilled values nodes a ≡ false
          → Known values nodes (IsNeeded t) (open_sources values nodes a)
      step a g p w =
          All-among (open_sources values nodes a) (λ n m d e. source (node_id a) n a d p g w m e)

  contains-IsNeeded :
      (t : String) (r : StringSet)
      → Explored values nodes (IsNeeded t) [] r
      → StringSet.contains t r ≡ true
      → (m : String) → IsNeeded t m
      → StringSet.contains m r ≡ true
  unfolding StringSet.contains HasSources
  contains-IsNeeded t r x h m itself = h
  contains-IsNeeded t r x h n (source m k node d p g w a e) =
      among-All _ n (open_sources values nodes node) a
        (x.closed m (contains-IsNeeded t r x h m p) refl node g w) d e

  IsNeeded-contains :
      (t : String) (r : StringSet)
      → Explored values nodes (IsNeeded t) [] r
      → (m : String) → StringSet.contains m r ≡ true
      → IsNeeded t m
  unfolding StringSet.contains
  IsNeeded-contains t r x m h = elim (x.sound m h) [ inl e ↦ absurd (cc) | inr p ↦ p ]

module _ {N : Type 0} (flow : SubflowBlock N) (input : Option (NodeInputValues N))
    (keyed : IsKeyed flow.nodes) where
  -- In a flow whose nodes stand under their own ids, the search for the nodes that a node of the
  -- flow waits for always ends, also where the flow has cycles; and it finds those that are needed,
  -- and no others.
  pub new-IsNeeded :
      (t : String) (node : Node N)
      → Map.get t flow.nodes ≡ some node
      → (r : StringSet) × (new flow (some t) input ≡ some (record { should_run_nodes = some r }))
        × ((m : String)
            → (StringSet.contains m r ≡ true → IsNeeded input flow.nodes t m)
              × (IsNeeded input flow.nodes t m → StringSet.contains m r ≡ true))
  unfolding new
  new-IsNeeded t node here =
      let (r, e, x, h) = search_result input flow.nodes t node keyed here in
      (
        r,
        rw (here, new, e),
        λ m. (
          IsNeeded-contains input flow.nodes t r x m,
          contains-IsNeeded input flow.nodes t r x h m,
        ),
      )

  -- RunToNode::new ends for every node to run to, also for none and for one that is not in the flow.
  pub new_total : (to_node : Option String) → (r : RunToNode) × (new flow to_node input ≡ some r)
  unfolding new
  new_total none = (record { should_run_nodes = none }, refl)
  new_total (some t) = elim (Option-cases (Map.get t flow.nodes)) [
    | inl e ↦ (record { should_run_nodes = none }, rw (e, new))
    | inr (node, e) ↦
        let (r, f, _) = new-IsNeeded t node e in (record { should_run_nodes = some r }, f)
  ]
