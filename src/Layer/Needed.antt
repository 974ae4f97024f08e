-- ===== src/Layer/Needed.antt =====
-- layer/src/external_layer_store.rs: delete_external_layer leaves every layer that is needed.
use oocana_rust.Base.{
  String, Bool, true, false, not, ◌||◌, none, some, List, [], ◌∷◌, ◌++◌, ◌≡◌, refl, ap, ◌∙◌, arith,
  if◌then◌else◌, ◌==◌, unwrap_or, map_or, keep_if, Bool-cases, inl, inr,
}
use oocana_rust.Base.Map
use oocana_rust.Base.Map.{Map, get-remove}
use oocana_rust.Base.StringSet
use oocana_rust.Base.StringSet.{contains-keep_if}
use oocana_rust.Layer.{PackageLayer, Disk, layers_of}
use oocana_rust.Layer.Stores.{external_key}
use oocana_rust.Layer.Delete.{collected, stored_layers, is_spared, delete_external_layer}
use oocana_rust.Layer.Endings.{Ends, weaken}
use oocana_rust.Layer.Loading.{external_of}
use oocana_rust.Layer.Rollback.{external_get}
use oocana_rust.Layer.Deleted.{
  others, KeepsNeeded, IsDeleted, IsPartlyDeleted, delete_external_layer-IsDeleted,
}

contains-append :
    (j : String) (a b : List String)
    → StringSet.contains j (a ++ b) ≡ (StringSet.contains j a || StringSet.contains j b)
unfolding StringSet.contains
contains-append j [] b = refl
contains-append j (l ∷ a) b = ground (arith, contains-append j a b)

reordered :
    (j l : String) (base boot : List String) (f : String → Bool)
    → StringSet.contains j (keep_if f (base ++ l ∷ boot)) ≡ true
    → StringSet.contains j (base ++ boot ++ l ∷ []) ≡ true
unfolding StringSet.contains
reordered j l base boot f h =
    let kept : StringSet.contains j (base ++ l ∷ boot) ≡ true =
      ground (arith, h, contains-keep_if j f (base ++ l ∷ boot)) in
    rw (contains-append j (base ++ boot) (l ∷ []), contains-append j base boot)
      (ground (arith, kept, contains-append j base (l ∷ boot)))

-- The layers of a package are those that are collected, but for an empty name.
layers-collected :
    (j : String) (p : PackageLayer)
    → StringSet.contains j (layers_of p) ≡ true
    → StringSet.contains j (collected p) ≡ true
unfolding layers_of collected
layers-collected j p h =
    reordered j p.source_layer (unwrap_or p.base_layers [])
      (map_or p.bootstrap_layer [] (λ l. l ∷ [])) (λ l. not (l == "")) h

in_stored :
    (m : Map PackageLayer) (k j : String) (p : PackageLayer)
    → Map.get k m ≡ some p
    → StringSet.contains j (collected p) ≡ true
    → StringSet.contains j (stored_layers m) ≡ true
unfolding Map.get stored_layers
in_stored [] k j p found own = cc
in_stored ((i, q) ∷ m) k j p found own =
    rw (contains-append j (collected q) (stored_layers m)) (elim (Bool-cases (i == k)) [
      | inl e ↦
          let same : some q ≡ some p = ground (arith, e, found) in
          let here : StringSet.contains j (collected q) ≡ true =
            ap (λ o. StringSet.contains j (map_or o [] collected)) same ∙ own in
          rw here refl
      | inr e ↦
          let there : Map.get k m ≡ some p = ground (arith, e, found) in
          let rest = in_stored m k j p there own in ground (arith, rest)
    ])

module _ (current : String) (used_layers : List String) (name version : String) (d : Disk) where
  -- A layer that is in use stays, and so does a layer of another package of the external store.
  abbrev pub IsCareful : Disk → Type 0
  IsCareful e =
      ((j : String)
        → StringSet.contains j used_layers ≡ true
        → StringSet.contains j e.layers ≡ StringSet.contains j d.layers)
      × ((k : String) (p : PackageLayer) (j : String)
          → external_get current k d ≡ some p
          → (external_key name version == k) ≡ false
          → StringSet.contains j (layers_of p) ≡ true
          → StringSet.contains j e.layers ≡ StringSet.contains j d.layers)

  -- The package is gone from the external store, and so is each of its layers that no other package
  -- has and that is not in use. The other packages stay.
  abbrev pub IsComplete : Disk → Type 0
  IsComplete e =
      ((k : String)
        → external_get current k e
          ≡ (if external_key name version == k then none else external_get current k d))
      × ((p : PackageLayer) (j : String)
          → external_get current (external_key name version) d ≡ some p
          → StringSet.contains j (layers_of p) ≡ true
          → (StringSet.contains j (
                stored_layers
                  (Map.remove (external_key name version) (external_of current d).packages))
              || StringSet.contains j used_layers
              || not (StringSet.contains j e.layers))
            ≡ true)

  abbrev pub KeepsOthers : Disk → Type 0
  KeepsOthers e =
      (k : String)
      → (external_key name version == k) ≡ false
      → external_get current k e ≡ external_get current k d

  careful : (e : Disk) → KeepsNeeded current used_layers name version d e → IsCareful e
  unfolding is_spared
  careful e h = (
    λ j u. h j (ground (arith, u)),
    λ k p j found other own.
        let there : Map.get k (others current used_layers name version d).packages ≡ some p =
          get-remove (external_key name version) k (external_of current d).packages
          ∙ rw other found in
        let stored =
          in_stored (others current used_layers name version d).packages k j p there
            (layers-collected j p own) in
        h j (ground (arith, stored)),
  )

  complete : (e : Disk) → IsDeleted current used_layers name version d e → IsComplete e
  unfolding is_spared
  complete e (entries, kept, gone) = (
    entries,
    λ p j found own. ground (
      arith,
      gone j
          (ap (λ o. StringSet.contains j (map_or o [] collected)) found ∙ layers-collected j p own),
    ),
  )

  -- The deletion of a package from the external store, whichever accesses fail. A layer that is in
  -- use, or that another package of the store has, is never deleted, and the other packages stay in
  -- the store. Where the deletion succeeds, the package is gone from the store, and so is each of
  -- its layers that is not needed.
  pub delete_external_layer-IsCareful :
      Ends
        (λ u e. IsCareful e × IsComplete e)
        (λ x e. IsCareful e × KeepsOthers e)
        (delete_external_layer current used_layers name version d)
  delete_external_layer-IsCareful =
      weaken (λ u. IsDeleted current used_layers name version d) (λ u e. IsCareful e × IsComplete e)
        (λ x. IsPartlyDeleted current used_layers name version d)
        (λ x e. IsCareful e × KeepsOthers e)
        (delete_external_layer current used_layers name version d)
        (delete_external_layer-IsDeleted current used_layers name version d)
        (λ u e h. (careful e h.1, complete e h)) (λ x e h. (careful e h.1, h.0))
