-- ===== src/Layer/Deleted.antt =====
-- layer/src/external_layer_store.rs: what delete_external_layer deletes and what it leaves.
use oocana_rust.Base.{
  String, Bool, true, false, not, ◌||◌, none, some, List, [], ◌∷◌, ◌≡◌, refl, sym, ap, subst, ◌∙◌,
  if◌then◌else◌, ◌==◌, unwrap_or, map_or,
}
use oocana_rust.Base.Map
use oocana_rust.Base.Map.{Map, get-remove}
use oocana_rust.Base.StringSet
use oocana_rust.Base.StringSet.{contains-remove}
use oocana_rust.Layer.{
  LayerStore, LayerError, Disk, ◌>>=◌, pure, access, unharmed, list_used_layers,
}
use oocana_rust.Layer.Stores.{
  empty_store, load_external_store, save_external_store_atomic, external_key,
}
use oocana_rust.Layer.Delete.{
  collected, stored_layers, is_spared, delete_unused, check_deleted, save_rest,
  delete_external_layer,
}
use oocana_rust.Layer.Endings.{Ends, bind, weaken}
use oocana_rust.Layer.Loading.{
  Same, Saved, external_of, load_external_rule, save_external_rule, look, Same-trans,
}
use oocana_rust.Layer.Rollback.{external_get}
use oocana_rust.Layer.Unused.{Spares, Spares-trans, IsGone, all_deleted}

module _ (current : String) (used_layers : List String) (name version : String) (d : Disk) where
  -- The other packages of the external store.
  abbrev pub others : LayerStore
  others = record (external_of current d) {
    packages = Map.remove (external_key name version) (external_of current d).packages;
  }

  -- The layer belongs to another package of the external store, or is in use.
  abbrev pub is_needed : String → Bool
  is_needed = is_spared (stored_layers others.packages) used_layers

  -- The layers of the package.
  abbrev pub own_layers : List String
  own_layers = map_or (external_get current (external_key name version) d) [] collected

  abbrev pub KeepsNeeded : Disk → Type 0
  KeepsNeeded e =
      (j : String)
      → is_needed j ≡ true
      → StringSet.contains j e.layers ≡ StringSet.contains j d.layers

  -- The entry of the package and its layers are gone, the other packages and what is needed stay.
  abbrev pub IsDeleted : Disk → Type 0
  IsDeleted e =
      ((k : String)
        → external_get current k e
          ≡ (if external_key name version == k then none else external_get current k d))
      × KeepsNeeded e
      × ((j : String) → StringSet.contains j own_layers ≡ true → IsGone is_needed j e)

  -- The other packages and what is needed stay.
  abbrev pub IsPartlyDeleted : Disk → Type 0
  IsPartlyDeleted e =
      ((k : String)
        → (external_key name version == k) ≡ false
        → external_get current k e ≡ external_get current k d)
      × KeepsNeeded e

  rest_get :
      (e : Disk)
      → e.external_store ≡ some others
      → (k : String)
      → external_get current k e
        ≡ (if external_key name version == k then none else external_get current k d)
  rest_get e h k = rw h (get-remove (external_key name version) k (external_of current d).packages)

  same_get :
      (e : Disk)
      → e.external_store ≡ d.external_store
      → (k : String) → external_get current k e ≡ external_get current k d
  same_get e h k = ap (λ s. Map.get k (unwrap_or s (empty_store current)).packages) h

  untouched : (e : Disk) → Same d e → IsPartlyDeleted e
  untouched e h = (λ k other. same_get e h.0 k, λ j n. ap (StringSet.contains j) h.2)

  Same-Spares : (e : Disk) → Same d e → Spares is_needed d e
  Same-Spares e h =
      (λ j n. ap (StringSet.contains j) h.2, λ j gone. ap (StringSet.contains j) h.2 ∙ gone, h.0)

  saved :
      (r : List String × Disk)
      → Spares is_needed d r.1
      → (r.0 ≡ [] → (j : String) → StringSet.contains j own_layers ≡ true → IsGone is_needed j r.1)
      → Ends (λ u. IsDeleted) (λ x. IsPartlyDeleted) (save_rest others r)
  unfolding save_rest
  saved (errors, f) kept gone =
      bind (λ u. IsDeleted) (λ x. IsPartlyDeleted) (λ u. Saved others f)
        (save_external_store_atomic others) (λ u. check_deleted errors) f
        (weaken (λ u. Saved others f) (λ u. Saved others f) (λ x. Same f) (λ x. IsPartlyDeleted)
          (save_external_store_atomic others f) (save_external_rule current others f) (λ u g k. k)
          (λ x g k. (
            λ i other. same_get g (k.0 ∙ kept.2) i,
            λ j n. ap (StringSet.contains j) k.2 ∙ kept.0 j n,
          )))
        (λ u g k. checked errors g k gone)
    where
      checked :
          (errors : List String) (g : Disk)
          → Saved others f g
          → (errors ≡ []
              → (j : String) → StringSet.contains j own_layers ≡ true
              → IsGone is_needed j f)
          → Ends (λ u. IsDeleted) (λ x. IsPartlyDeleted) (check_deleted errors g)
      checked [] g k gone =
          unfold check_deleted in
          (
            rest_get g k.0,
            λ j n. ap (StringSet.contains j) k.2 ∙ kept.0 j n,
            λ j own.
                subst (λ w. (is_needed j || not (StringSet.contains j w)) ≡ true) (sym k.2)
                  (gone refl j own),
          )
      checked (l ∷ es) g k gone =
          unfold check_deleted in
          (
            λ i other. rest_get g k.0 i ∙ rw other refl,
            λ j n. ap (StringSet.contains j) k.2 ∙ kept.0 j n,
          )

  -- The deletion of a package from the external store, whichever accesses fail. A layer that
  -- another package of the store has, or that is in use, is never deleted, and the other packages
  -- stay in the store. Where the deletion succeeds, the package is gone from the store, and so are
  -- its other layers.
  pub delete_external_layer-IsDeleted :
      Ends
        (λ u. IsDeleted)
        (λ x. IsPartlyDeleted)
        (delete_external_layer current used_layers name version d)
  unfolding delete_external_layer list_used_layers
  delete_external_layer-IsDeleted =
      let good = λ (u : Unit {0}). IsDeleted in
      let bad = λ (x : LayerError). IsPartlyDeleted in
      let last = λ (s : LayerStore) (used : List String) (e : Disk).
        save_rest (record s { packages = Map.remove (external_key name version) s.packages })
          (delete_unused (stored_layers (Map.remove (external_key name version) s.packages)) used
            (map_or (Map.get (external_key name version) s.packages) [] collected) e) in
      bind good bad (λ s e. (s ≡ external_of current d) × Same d e) (load_external_store current)
        (λ s. list_used_layers used_layers >>= last s) d
        (weaken _ _ (λ x. Same d) bad (load_external_store current d) (load_external_rule current d)
          (λ s e h. h) (λ x e h. untouched e h))
        (λ s e h.
          bind good bad (λ used f. (used ≡ used_layers) × Same e f) (list_used_layers used_layers)
            (last s) e
            (bind _ bad (λ u. Same e) (access unharmed unharmed) (λ u. pure used_layers) e
              (weaken _ _ (λ x. Same e) bad (access unharmed unharmed e) (look e) (λ u f k. k)
                (λ x f k. untouched f (Same-trans d e f h.1 k)))
              (λ u f k. (refl, k)))
            (λ used f k.
              subst (λ t. Ends good bad (last t used f)) (sym h.0)
                (subst (λ v. Ends good bad (last (external_of current d) v f)) (sym k.0)
                  (let r = delete_unused (stored_layers others.packages) used_layers own_layers f in
                    let (kept, gone) =
                      all_deleted (stored_layers others.packages) used_layers own_layers f in
                    saved r
                      (Spares-trans is_needed d f r.1 (Same-Spares f (Same-trans d e f h.1 k.1))
                        kept)
                      gone))))
