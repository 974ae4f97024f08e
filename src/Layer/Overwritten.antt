-- ===== src/Layer/Overwritten.antt =====
-- layer/src/package_layer.rs: what delete_overwritten_layers leaves.
use oocana_rust.Base.{String, true, false, List, [], ◌∷◌, ◌≡◌, refl, arith, eq_iff, All, for_each}
use oocana_rust.Base.StringSet
use oocana_rust.Base.StringSet.{contains-remove}
use oocana_rust.Layer.{PackageLayer, Result, ok, err, Disk, access, unharmed, layers_of, diff}
use oocana_rust.Layer.Migrate.{delete_layer, ignore_errors, delete_overwritten_layers}
use oocana_rust.Layer.Endings.{Ends, access_rule}

-- The external store is as it was, and a layer of the package is there if it was.
abbrev pub KeepsLayers : PackageLayer → Disk → Disk → Type 0
KeepsLayers p d e =
    (l : String)
    → StringSet.contains l (layers_of p) ≡ true
    → StringSet.contains l e.layers ≡ StringSet.contains l d.layers

abbrev pub IsSpared : PackageLayer → Disk → Disk → Type 0
IsSpared p d e = (e.external_store ≡ d.external_store) × KeepsLayers p d e

diff_outside : (a b : List String) → All (λ l. StringSet.contains l b ≡ false) (diff a b)
unfolding diff
diff_outside [] b = tt
diff_outside (l ∷ a) b = ground (arith, diff_outside a b)

delete_one :
    (p : PackageLayer) (l : String) (d e : Disk)
    → StringSet.contains l (layers_of p) ≡ false
    → IsSpared p d e
    → IsSpared p d (ignore_errors (delete_layer l) e)
unfolding ignore_errors delete_layer
delete_one p l d e out h =
    after_access (access (λ d. record d { layers = StringSet.remove l d.layers }) unharmed e) (
      access_rule (IsSpared p d) (λ x. IsSpared p d)
        (λ d. record d { layers = StringSet.remove l d.layers }) unharmed e
        (λ rest.
          (h.0, λ j own. ground (arith, contains-remove l j e.layers, h.1 j own, eq_iff l j)))
        (λ x rest. h) (λ x rest. h))
  where
    after_access :
        (r : Result (Unit {0}) × Disk)
        → Ends (λ u. IsSpared p d) (λ x. IsSpared p d) r
        → IsSpared p d r.1
    after_access (ok u, f) k = k
    after_access (err x, f) k = k

delete_all :
    (p : PackageLayer) (ls : List String) (d e : Disk)
    → All (λ l. StringSet.contains l (layers_of p) ≡ false) ls
    → IsSpared p d e
    → IsSpared p d (for_each (λ l. ignore_errors (delete_layer l)) ls e)
unfolding for_each
delete_all p [] d e out h = h
delete_all p (l ∷ ls) d e out h =
    delete_all p ls d (ignore_errors (delete_layer l) e) out.1 (delete_one p l d e out.0 h)

pub overwritten-IsSpared :
    (old new : PackageLayer) (d : Disk) → IsSpared new d (delete_overwritten_layers old new d)
unfolding delete_overwritten_layers
overwritten-IsSpared old new d =
    delete_all new (diff (layers_of old) (layers_of new)) d d
      (diff_outside (layers_of old) (layers_of new)) (refl, λ l own. refl)
