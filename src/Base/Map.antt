-- ===== src/Base/Map.antt =====
-- std::collections::HashMap with text keys, as an association list. The order of the list is the
-- order in which the map is iterated; theorems speak of every list.
use Prim.Native.String.{String}
use mathlib.Core.Path.{◌≡◌, refl}
use mathlib.Core.Bool.{Bool, true, false}
use mathlib.Core.Option.{Option, none, some}
use mathlib.Core.List.{List, [], ◌∷◌}
use native.Mathlib.Omega.{arith}
use text.Mathlib.Text.{◌==◌}
use text.Mathlib.TextEquality.{eq_iff}
use oocana_rust.Base.Tests.{if◌then◌else◌, unwrap_or, is_some_and, map_option}

abbrev pub Map {ℓ} : Type ℓ → Type ℓ
Map V = List (String × V)

module _ {ℓ} {V : Type ℓ} where
  unfoldable pub get : String → Map V → Option V
  get k [] = none
  get k ((j, v) ∷ m) = if j == k then some v else get k m

  abbrev pub contains_key : String → Map V → Bool
  contains_key k m = is_some_and (get k m) (λ _. true)

  unfoldable pub insert : String → V → Map V → Map V
  insert k v [] = (k, v) ∷ []
  insert k v ((j, w) ∷ m) = if j == k then (j, v) ∷ m else (j, w) ∷ insert k v m

  unfoldable pub remove : String → Map V → Map V
  remove k [] = []
  remove k ((j, w) ∷ m) = let rest = remove k m in if j == k then rest else (j, w) ∷ rest

  -- entry(k).or_insert(d), changed in place by f.
  unfoldable pub entry : String → V → (V → V) → Map V → Map V
  entry k d f [] = (k, f d) ∷ []
  entry k d f ((j, w) ∷ m) = if j == k then (j, f w) ∷ m else (j, w) ∷ entry k d f m

  -- get_mut(k), changed in place by f.
  unfoldable pub modify : String → (V → V) → Map V → Map V
  modify k f [] = []
  modify k f ((j, w) ∷ m) = if j == k then (j, f w) ∷ m else (j, w) ∷ modify k f m

  -- No key twice.
  abbrev pub IsDistinct : Map V → Type 0
  IsDistinct [] = Unit
  IsDistinct ((j, w) ∷ m) = (contains_key j m ≡ false) × IsDistinct m

  pub get-insert :
      (k j : String) (v : V) (m : Map V)
      → get j (insert k v m) ≡ (if k == j then some v else get j m)
  unfolding get insert
  get-insert k j v [] = refl
  get-insert k j v ((i, w) ∷ m) =
      ground (arith, eq_iff k j, eq_iff i k, eq_iff i j, get-insert k j v m)

  pub get-remove :
      (k j : String) (m : Map V) → get j (remove k m) ≡ (if k == j then none else get j m)
  unfolding get remove
  get-remove k j [] = ground arith
  get-remove k j ((i, w) ∷ m) = ground (arith, eq_iff k j, eq_iff i k, eq_iff i j, get-remove k j m)

  pub get-entry :
      (k j : String) (d : V) (f : V → V) (m : Map V)
      → get j (entry k d f m) ≡ (if k == j then some (f (unwrap_or (get k m) d)) else get j m)
  unfolding get entry
  get-entry k j d f [] = refl
  get-entry k j d f ((i, w) ∷ m) =
      ground (arith, eq_iff k j, eq_iff i k, eq_iff i j, get-entry k j d f m)

  pub get-modify :
      (k j : String) (f : V → V) (m : Map V)
      → get j (modify k f m) ≡ (if k == j then map_option f (get k m) else get j m)
  unfolding get modify
  get-modify k j f [] = ground arith
  get-modify k j f ((i, w) ∷ m) =
      ground (arith, eq_iff k j, eq_iff i k, eq_iff i j, get-modify k j f m)

  pub insert-insert : (k : String) (v w : V) (m : Map V) → insert k v (insert k w m) ≡ insert k v m
  unfolding insert
  insert-insert k v w [] = ground (arith, eq_iff k k)
  insert-insert k v w ((i, x) ∷ m) = ground (arith, eq_iff i k, insert-insert k v w m)

  pub insert-IsDistinct :
      (k : String) (v : V) (m : Map V) → IsDistinct m → IsDistinct (insert k v m)
  unfolding get insert
  insert-IsDistinct k v [] h = ground arith
  insert-IsDistinct k v ((i, w) ∷ m) h =
      ground (arith, eq_iff i k, eq_iff k i, get-insert k i v m, insert-IsDistinct k v m h.1)

  pub entry-IsDistinct :
      (k : String) (d : V) (f : V → V) (m : Map V) → IsDistinct m → IsDistinct (entry k d f m)
  unfolding get entry
  entry-IsDistinct k d f [] h = ground arith
  entry-IsDistinct k d f ((i, w) ∷ m) h =
      ground (arith, eq_iff i k, eq_iff k i, get-entry k i d f m, entry-IsDistinct k d f m h.1)

  pub remove-IsDistinct : (k : String) (m : Map V) → IsDistinct m → IsDistinct (remove k m)
  unfolding get remove
  remove-IsDistinct k [] h = h
  remove-IsDistinct k ((i, w) ∷ m) h =
      ground (arith, eq_iff i k, eq_iff k i, get-remove k i m, remove-IsDistinct k m h.1)
