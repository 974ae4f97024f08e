-- ===== src/Connections/Counting.antt =====
-- manifest_meta/src/connections.rs: how often a connection stands at an end.
use oocana_rust.Base.{
  ℕ, ◌+◌, String, Bool, false, ◌&&◌, List, [], ◌∷◌, ◌++◌, ◌≡◌, arith, ◌==◌, eq_iff, if◌then◌else◌,
  unwrap_or,
}
use oocana_rust.Base.Map
use oocana_rust.Base.Map.{Map, get-entry}
use oocana_rust.Node.{
  HandleFrom, from_flow_input, from_node_output, HandleTo, to_flow_output, to_node_input,
}
use oocana_rust.Connections.{add_handle, add_node, push}

module _ {N : Type 0} where
  abbrev pub is_node_output : String → String → HandleFrom N → Bool
  is_node_output n o (from_node_output a b) = a == n && b == o
  is_node_output n o _ = false

  abbrev pub is_flow_input : String → HandleFrom N → Bool
  is_flow_input f (from_flow_input a) = a == f
  is_flow_input f _ = false

abbrev pub is_node_input : String → String → HandleTo → Bool
is_node_input n h (to_node_input a b) = a == n && b == h
is_node_input n h (to_flow_output b) = false

abbrev pub is_flow_output : String → HandleTo → Bool
is_flow_output g (to_node_input a b) = false
is_flow_output g (to_flow_output b) = b == g

module _ {A : Type 0} where
  unfoldable pub count_if : (A → Bool) → List A → ℕ
  count_if p [] = 0
  count_if p (x ∷ xs) = (if p x then 1 else 0) + count_if p xs

  -- The list at a handle, and at a handle of a node; empty where the map has none.
  abbrev pub at_handle : String → Map (List A) → List A
  at_handle h m = unwrap_or (Map.get h m) []

  abbrev pub at_node : String → String → Map (Map (List A)) → List A
  at_node n h m = at_handle h (unwrap_or (Map.get n m) [])

  count_if-push :
      (p : A → Bool) (x : A) (xs : List A)
      → count_if p (xs ++ x ∷ []) ≡ count_if p xs + (if p x then 1 else 0)
  unfolding count_if
  count_if-push p x [] = omega arith
  count_if-push p x (y ∷ ys) = omega (arith, count_if-push p x ys)

  pub count-add_handle :
      (p : A → Bool) (h k : String) (x : A) (m : Map (List A))
      → count_if p (at_handle k (add_handle h x m))
        ≡ count_if p (at_handle k m) + (if h == k && p x then 1 else 0)
  unfolding add_handle
  count-add_handle p h k x m =
      ground (arith, eq_iff h k, get-entry h k [] (push x) m, count_if-push p x (at_handle k m))

  pub count-add_node :
      (p : A → Bool) (n m h k : String) (x : A) (s : Map (Map (List A)))
      → count_if p (at_node m k (add_node n h x s))
        ≡ count_if p (at_node m k s) + (if n == m && h == k && p x then 1 else 0)
  unfolding add_node
  count-add_node p n m h k x s = ground (
    arith,
    eq_iff n m,
    get-entry n m [] (add_handle h x) s,
    count-add_handle p h k x (unwrap_or (Map.get m s) []),
  )
