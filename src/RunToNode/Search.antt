-- ===== src/RunToNode/Search.antt =====
-- runtime/src/flow_job/run_to_node.rs: the search ends, and what it has found is closed.
use oocana_rust.Base.{
  ℕ, zero, suc, ◌+◌, ◌≤◌, ◌<◌, String, true, false, Option, some, List, [], ◌∷◌, ◌≡◌, refl, ◌⊎◌,
  inl, inr, arith, ◌==◌, eq_iff, ==_refl, if◌then◌else◌, subst, length, All, Bool-cases,
  Option-cases,
}
use oocana_rust.Base.Map
use oocana_rust.Base.Map.{Map}
use oocana_rust.Base.StringSet
use oocana_rust.Base.StringSet.{StringSet, contains-insert}
use oocana_rust.Node.{Node, node_id}
use oocana_rust.InputValues.{NodeInputValues}
use oocana_rust.Subflow.{IsKeyed}
use oocana_rust.RunToNode.{open_sources, is_fulfilled, visit_sources, calc_node_deps}

-- How many entries of the flow have a name that is not in the set.
pub unseen : {V : Type 0} → Map V → StringSet → ℕ
unseen [] s = 0
unseen ((k, v) ∷ m) s = (if StringSet.contains k s then 0 else 1) + unseen m s

pub unseen-le-length : {V : Type 0} (m : Map V) (s : StringSet) → unseen m s ≤ length m
unfolding unseen
unseen-le-length [] s = omega arith
unseen-le-length ((k, v) ∷ m) s = ground (arith, unseen-le-length m s)

abbrev pub Grows : StringSet → StringSet → Type 0
Grows s r = (m : String) → StringSet.contains m s ≡ true → StringSet.contains m r ≡ true

unseen_mono : {V : Type 0} (m : Map V) (s r : StringSet) → Grows s r → unseen m r ≤ unseen m s
unfolding unseen
unseen_mono [] s r g = omega arith
unseen_mono ((k, v) ∷ m) s r g = ground (arith, g k, unseen_mono m s r g)

Grows-insert : (k : String) (s : StringSet) → Grows s (StringSet.insert k s)
Grows-insert k s m h = ground (arith, contains-insert k m s)

unseen-insert :
    {V : Type 0} (k : String) (v : V) (m : Map V) (s : StringSet)
    → Map.get k m ≡ some v
    → StringSet.contains k s ≡ false
    → unseen m (StringSet.insert k s) < unseen m s
unfolding unseen Map.get
unseen-insert k v [] s g f = cc
unseen-insert k v ((j, w) ∷ m) s g f = ground (
  arith,
  eq_iff j k,
  contains-insert k j s,
  ==_refl k,
  unseen-insert k v m s,
  unseen_mono m s (StringSet.insert k s) (Grows-insert k s),
)

module _ {N : Type 0} (values : Option (NodeInputValues N)) (nodes : Map (Node N)) where
  -- The sources of the node that stand in the flow are all in the set.
  unfoldable pub HasSources : StringSet → List String → Type 0
  HasSources r ns =
      All (λ n. (d : Node N) → Map.get n nodes ≡ some d → StringSet.contains n r ≡ true) ns

  -- A node of the set that waits for inputs has all its sources in the set.
  abbrev pub IsClosedAt : StringSet → String → Type 0
  IsClosedAt r m =
      (d : Node N)
      → Map.get m nodes ≡ some d
      → is_fulfilled values nodes d ≡ false
      → HasSources r (open_sources values nodes d)

  module _ (P : String → Type 0) where
    -- A search that started with `s` and ended with `r`.
    pub record Explored (s r : StringSet) : Type 0 where
      pub grows : Grows s r
      pub closed :
          (m : String)
          → StringSet.contains m r ≡ true
          → StringSet.contains m s ≡ false
          → IsClosedAt r m
      pub sound :
          (m : String) → StringSet.contains m r ≡ true → (StringSet.contains m s ≡ true) ⊎ P m

    -- What a call of the search, with the node not seen and fuel enough, returns.
    abbrev pub Finds : (Node N → StringSet → Option StringSet) → ℕ → Type 0
    Finds rec fuel =
        (node : Node N) (s : StringSet)
        → Map.get (node_id node) nodes ≡ some node
        → P (node_id node)
        → StringSet.contains (node_id node) s ≡ false
        → unseen nodes s < fuel
        → (r : StringSet) × (rec node s ≡ some r)
          × Explored s r
          × (StringSet.contains (node_id node) r ≡ true)

    abbrev pub Known : List String → Type 0
    Known ns = All (λ n. (d : Node N) → Map.get n nodes ≡ some d → P n) ns

  HasSources-mono :
      (s r : StringSet) (ns : List String) → Grows s r → HasSources s ns → HasSources r ns
  unfolding HasSources
  HasSources-mono s r [] g h = tt
  HasSources-mono s r (n ∷ ns) g h = (λ d e. g n (h.0 d e), HasSources-mono s r ns g h.1)

  module _ {P : String → Type 0} where
    Explored-refl : (s : StringSet) → Explored P s s
    Explored-refl s = record { grows = λ m h. h; closed = λ m h f. cc; sound = λ m h. inl h }

    Explored-trans : {s t r : StringSet} → Explored P s t → Explored P t r → Explored P s r
    Explored-trans {s} {t} {r} a b = record {
      grows = λ m h. b.grows m (a.grows m h);
      closed = λ m h f. elim (Bool-cases (StringSet.contains m t)) [
        | inl old ↦ λ d e w. HasSources-mono t r _ b.grows (a.closed m old f d e w)
        | inr new ↦ b.closed m h new
      ];
      sound = λ m h. elim (b.sound m h) [ inl old ↦ a.sound m old | inr p ↦ inr p ];
    }

    -- The step of the search from a node whose own sources are explored.
    Explored-node :
        (node : Node N) (s r : StringSet)
        → Map.get (node_id node) nodes ≡ some node
        → P (node_id node)
        → HasSources r (open_sources values nodes node) ⊎ (is_fulfilled values nodes node ≡ true)
        → Explored P (StringSet.insert (node_id node) s) r
        → Explored P s r
    Explored-node node s r here p sources e = record {
      grows = λ m h. e.grows m (Grows-insert (node_id node) s m h);
      closed = closed_at;
      sound = λ m h. elim (e.sound m h) [
        | inl old ↦ elim (Bool-cases (node_id node == m)) [
          | inl same ↦ inr (subst P ((eq_iff (node_id node) m).0 same) p)
          | inr other ↦ inl (ground (arith, contains-insert (node_id node) m s))
        ]
        | inr q ↦ inr q
      ];
    }
      where
        closed_self :
            (d : Node N)
            → node ≡ d
            → is_fulfilled values nodes d ≡ false
            → HasSources r (open_sources values nodes d)
        closed_self d e w = elim sources [
          | inl h ↦ subst (λ x. HasSources r (open_sources values nodes x)) e h
          | inr f ↦ absurd (cc)
        ]

        closed_at :
            (m : String)
            → StringSet.contains m r ≡ true
            → StringSet.contains m s ≡ false
            → IsClosedAt r m
        closed_at m h f = elim (Bool-cases (node_id node == m)) [
          | inl same ↦ λ d g w. closed_self d (ground (arith, eq_iff (node_id node) m)) w
          | inr other ↦ e.closed m h (ground (arith, contains-insert (node_id node) m s))
        ]

    visit_sources-Finds :
        (keyed : IsKeyed nodes) (rec : Node N → StringSet → Option StringSet) (fuel : ℕ)
        → Finds P rec fuel
        → (ns : List String) (s : StringSet) → Known P ns
        → unseen nodes s < fuel
        → (r : StringSet) × (visit_sources values nodes rec ns s ≡ some r)
          × Explored P s r
          × HasSources r ns
    unfolding visit_sources HasSources
    visit_sources-Finds keyed rec fuel find [] s known u = (s, refl, Explored-refl s, tt)
    visit_sources-Finds keyed rec fuel find (n ∷ ns) s known u =
        elim (Bool-cases (StringSet.contains n s)) [
          | inl old ↦
              let (r, e, x, h) = visit_sources-Finds keyed rec fuel find ns s known.1 u in
              (r, rw (old, visit_sources) e, x, (λ d g. x.grows n old, h))
          | inr new ↦ elim (Option-cases (Map.get n nodes)) [
            | inl gone ↦
                let (r, e, x, h) = visit_sources-Finds keyed rec fuel find ns s known.1 u in
                (r, rw (new, gone, visit_sources) e, x, (λ d g. cc, h))
            | inr (d, here) ↦
                let same : node_id d ≡ n = keyed n d here in
                let (t, e, x, h) =
                  find d s (rw same here) (rw same (known.0 d here)) (rw same new) u in
                let (r, e', x', h') =
                  visit_sources-Finds keyed rec fuel find ns t known.1
                    (omega (arith, unseen_mono nodes s t x.grows)) in
                (
                  r,
                  rw (new, here, visit_sources, e) e',
                  Explored-trans x x',
                  (λ d' g. x'.grows n (rw same at h), h'),
                )
          ]
        ]

    -- With fuel above the number of entries not seen, the search returns.
    pub calc_node_deps-Finds :
        (keyed : IsKeyed nodes)
        (step : (node : Node N)
          → Map.get (node_id node) nodes ≡ some node
          → P (node_id node)
          → is_fulfilled values nodes node ≡ false
          → Known P (open_sources values nodes node))
        (fuel : ℕ)
        → Finds P (calc_node_deps values nodes fuel) fuel
    unfolding calc_node_deps
    calc_node_deps-Finds keyed step zero node s here p new u = absurd (omega arith)
    calc_node_deps-Finds keyed step (suc fuel) node s here p new u =
        let s' = StringSet.insert (node_id node) s in
        let in_s' : StringSet.contains (node_id node) s' ≡ true =
          ground (arith, contains-insert (node_id node) (node_id node) s, ==_refl (node_id node)) in
        elim (Bool-cases (is_fulfilled values nodes node)) [
          | inl done ↦ (
            s',
            rw (done, calc_node_deps),
            Explored-node node s s' here p (inr done) (Explored-refl s'),
            in_s',
          )
          | inr more ↦
              let (r, e, x, h) =
                visit_sources-Finds keyed (calc_node_deps values nodes fuel) fuel
                  (calc_node_deps-Finds keyed step fuel) (open_sources values nodes node) s'
                  (step node here p more)
                  (omega (arith, unseen-insert (node_id node) node nodes s here new)) in
              (
                r,
                rw (more, calc_node_deps) e,
                Explored-node node s r here p (inl h) x,
                x.grows (node_id node) in_s',
              )
        ]
