-- ===== src/Base/StringSet.antt =====
-- std::collections::HashSet of texts, as the list of its members.
use Prim.Native.Nat.{◌+◌, ◌≤◌, ◌<◌}
use Prim.Native.String.{String}
use mathlib.Core.Path.{◌≡◌}
use mathlib.Core.Bool.{Bool, true, false, not, ◌&&◌, ◌||◌}
use mathlib.Core.List.{List, [], ◌∷◌}
use native.Mathlib.Omega.{arith}
use text.Mathlib.Text.{◌==◌}
use text.Mathlib.TextEquality.{eq_iff}
use oocana_rust.Base.Tests.{if◌then◌else◌}
use oocana_rust.Base.Lists.{length, any, keep_if}

abbrev pub StringSet : Type 0
StringSet = List String

unfoldable pub contains : String → StringSet → Bool
contains k [] = false
contains k (x ∷ s) = x == k || contains k s

unfoldable pub insert : String → StringSet → StringSet
unfolding contains
insert k s = if contains k s then s else k ∷ s

unfoldable pub remove : String → StringSet → StringSet
remove k [] = []
remove k (x ∷ s) = let rest = remove k s in if x == k then rest else x ∷ rest

-- HashSet::intersection, HashSet::is_disjoint
unfoldable pub intersection : StringSet → StringSet → StringSet
unfolding contains
intersection s t = keep_if (λ x. contains x t) s

unfoldable pub is_disjoint : StringSet → StringSet → Bool
unfolding contains
is_disjoint s t = not (any (λ x. contains x t) s)

pub contains-insert :
    (k j : String) (s : StringSet) → contains j (insert k s) ≡ (k == j || contains j s)
unfolding contains insert
contains-insert k j s = ground (arith, eq_iff k j, same)
  where
    same : k ≡ j → contains k s ≡ contains j s
    same e = ground arith

pub contains-remove :
    (k j : String) (s : StringSet) → contains j (remove k s) ≡ (not (k == j) && contains j s)
unfolding contains remove
contains-remove k j [] = ground arith
contains-remove k j (x ∷ s) =
    ground (arith, eq_iff k j, eq_iff x k, eq_iff x j, contains-remove k j s)

pub length-insert-le : (k : String) (s : StringSet) → length (insert k s) ≤ length s + 1
unfolding insert
length-insert-le k s = ground arith

pub length-remove-le : (k : String) (s : StringSet) → length (remove k s) ≤ length s
unfolding remove
length-remove-le k [] = omega arith
length-remove-le k (x ∷ s) = ground (arith, length-remove-le k s)

pub length-remove-lt :
    (k : String) (s : StringSet) → contains k s ≡ true → length (remove k s) < length s
unfolding contains remove
length-remove-lt k [] h = cc
length-remove-lt k (x ∷ s) h = ground (arith, length-remove-le k s, length-remove-lt k s)

pub contains-keep_if :
    (j : String) (p : String → Bool) (s : StringSet)
    → contains j (keep_if p s) ≡ (p j && contains j s)
unfolding contains
contains-keep_if j p [] = ground arith
contains-keep_if j p (x ∷ s) = ground (arith, eq_iff x j, contains-keep_if j p s)

pub contains-intersection :
    (j : String) (s t : StringSet) → contains j (intersection s t) ≡ (contains j t && contains j s)
unfolding intersection
contains-intersection j s t = contains-keep_if j (λ x. contains x t) s

-- What a HashSet is: no member twice.
abbrev pub IsDistinct : StringSet → Type 0
IsDistinct [] = Unit
IsDistinct (x ∷ s) = (contains x s ≡ false) × IsDistinct s
