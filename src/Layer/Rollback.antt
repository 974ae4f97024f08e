-- ===== src/Layer/Rollback.antt =====
-- layer/src/package_layer.rs: a package is moved to the external store, or that store is as before.
use oocana_rust.Base.{
  String, Option, none, some, ◌≡◌, refl, sym, subst, ap, ◌∙◌, eq_iff, if◌then◌else◌, ◌==◌, map_or,
  unwrap_or, Option-cases, Bool-cases, inl, inr,
}
use oocana_rust.Base.Map
use oocana_rust.Base.Map.{Map, get-insert, get-remove}
use oocana_rust.Base.StringSet
use oocana_rust.Base.StringSet.{contains-remove}
use oocana_rust.Layer.{
  PackageLayer, LayerStore, LayerError, Result, ok, err, missing_name, missing_version,
  rollback_failed, failed, unreadable, not_in_store, layer_not_exist, not_moved, not_deleted, Disk,
  ◌>>=◌, ◌>>◌, pure, ok_or,
}
use oocana_rust.Layer.Stores.{
  empty_store, load_external_store, external_key, add_import_external_package,
  remove_import_external_package, remove_package_from_store,
}
use oocana_rust.Layer.Migrate.{
  delete_overwritten_layers, undo, rolled_back, after_removal, migrate_package_store_to_external,
}
use oocana_rust.Layer.Endings.{Ends, bind, weaken, ok_or-some}
use oocana_rust.Layer.Loading.{
  Same, Elsewhere, external_of, Saved, inserted, removed, load_external_rule, add_external_rule,
  remove_external_rule, remove_package_rule,
}
use oocana_rust.Layer.Overwritten.{KeepsLayers, overwritten-IsSpared}

module _ (current : String) where
  abbrev pub external_get : String → Disk → Option PackageLayer
  external_get k d = Map.get k (external_of current d).packages

  -- Each package stands under the key of its name and version.
  abbrev pub IsKeyed : Disk → Type 0
  IsKeyed d =
      (k : String) (p : PackageLayer)
      → external_get k d ≡ some p
      → (name : String) × (version : String) × (p.name ≡ some name)
        × (p.version ≡ some version)
        × (external_key name version ≡ k)

  -- The package is in the external store, whose other packages stay, and so do its layers.
  abbrev pub IsMoved : String → PackageLayer → Disk → Disk → Type 0
  IsMoved key p d e =
      ((k : String) → external_get k e ≡ (if key == k then some p else external_get k d))
      × KeepsLayers p d e

  -- Unless the rollback has failed too, every package of the external store and every layer is
  -- what it was.
  abbrev pub IsUndone : LayerError → Disk → Disk → Type 0
  IsUndone (rollback_failed x y) d e = Unit
  IsUndone _ d e = ((k : String) → external_get k e ≡ external_get k d) × (e.layers ≡ d.layers)

  undone :
      (x : LayerError) (d e : Disk)
      → ((k : String) → external_get k e ≡ external_get k d)
      → e.layers ≡ d.layers
      → IsUndone x d e
  undone missing_name d e h k = (h, k)
  undone missing_version d e h k = (h, k)
  undone unreadable d e h k = (h, k)
  undone (not_in_store p) d e h k = (h, k)
  undone (layer_not_exist ls) d e h k = (h, k)
  undone (not_moved ls) d e h k = (h, k)
  undone (failed m) d e h k = (h, k)
  undone (not_deleted ls) d e h k = (h, k)
  undone (rollback_failed a b) d e h k = tt

  moved_get :
      (key : String) (p : PackageLayer) (d e : Disk)
      → e.external_store ≡ some (inserted current key p d)
      → (k : String) → external_get k e ≡ (if key == k then some p else external_get k d)
  moved_get key p d e h k = rw h (get-insert key k p (external_of current d).packages)

  -- The entry that was put under the key is taken out again.
  taken_out :
      (key : String) (p : PackageLayer) (d e f : Disk)
      → external_get key d ≡ none
      → e.external_store ≡ some (inserted current key p d)
      → f.external_store ≡ some (removed current key e)
      → (j : String) → external_get j f ≡ external_get j d
  taken_out key p d e f absent put out j = rw out (
      get-remove key j (external_of current e).packages ∙ elim (Bool-cases (key == j)) [
        | inl same ↦
            rw same (sym (subst (λ i. external_get i d ≡ none) ((eq_iff key j).0 same) absent))
        | inr other ↦ rw other (moved_get key p d e put j ∙ rw other refl)
      ])

  -- The entry that was there before is put back.
  put_back :
      (key : String) (p old : PackageLayer) (d e f : Disk)
      → external_get key d ≡ some old
      → e.external_store ≡ some (inserted current key p d)
      → f.external_store ≡ some (inserted current key old e)
      → (j : String) → external_get j f ≡ external_get j d
  put_back key p old d e f found put back j =
      moved_get key old e f back j ∙ elim (Bool-cases (key == j)) [
        | inl same ↦
            rw same (sym (subst (λ i. external_get i d ≡ some old) ((eq_iff key j).0 same) found))
        | inr other ↦ rw other (moved_get key p d e put j ∙ rw other refl)
      ]

  -- The rollback, after the package was put under the key.
  undo_rule :
      (name version : String) (p : PackageLayer) (d e : Disk)
      → let key = external_key name version in
        IsKeyed d
        → e.external_store ≡ some (inserted current key p d)
        → e.layers ≡ d.layers
        → Ends
            (λ u f. ((k : String) → external_get k f ≡ external_get k d) × (f.layers ≡ d.layers))
            (λ x f. Unit)
            (undo current name version (external_get key d) e)
  unfolding undo
  undo_rule name version p d e keyed put same =
      let key = external_key name version in
      let good = λ (u : Unit {0}) (f : Disk).
        (((k : String) → external_get k f ≡ external_get k d) × (f.layers ≡ d.layers)) in
      elim (Option-cases (external_get key d)) [
        | inl absent ↦ rw absent (
            bind good (λ x f. Unit) (λ r f. good tt f)
              (remove_import_external_package current name version) (λ r. pure tt) e
              (weaken (λ r. Saved (removed current key e) e) (λ r. good tt) (λ x. Same e)
                (λ x f. Unit) (remove_import_external_package current name version e)
                (remove_external_rule current name version e)
                (λ r f k. (taken_out key p d e f absent put k.0, k.2 ∙ same)) (λ x f k. tt))
              (λ r f k. k))
        | inr (old, found) ↦
            let (n, v, named, versioned, same_key) = keyed key old found in
            rw found (
              weaken (λ u. Saved (inserted current (external_key n v) old e) e) good (λ x. Same e)
                (λ x f. Unit) (add_import_external_package current old e)
                (add_external_rule current old n v e named versioned)
                (λ u f k. (
                  put_back key p old d e f found put
                      (k.0 ∙ ap (λ i. some (inserted current i old e)) same_key),
                  k.2 ∙ same,
                ))
                (λ x f k. tt))
      ]

  -- What the removal from the package store leaves, or its rollback.
  removal_rule :
      (name version : String) (p : PackageLayer) (d e : Disk)
      → IsKeyed d
      → e.external_store ≡ some (inserted current (external_key name version) p d)
      → e.layers ≡ d.layers
      → (r : Result (Option PackageLayer) × Disk) → Ends (λ u. Elsewhere e) (λ x. Elsewhere e) r
      → Ends
          (λ u. IsMoved (external_key name version) p d)
          (λ x. IsUndone x d)
          (after_removal current name version (external_get (external_key name version) d) p r)
  unfolding after_removal
  removal_rule name version p d e keyed put same (ok _, f) h =
      let key = external_key name version in spared (external_get key d) (h.0 ∙ put) (h.1 ∙ same)
    where
      spared :
          (previous : Option PackageLayer)
          → f.external_store ≡ some (inserted current (external_key name version) p d)
          → f.layers ≡ d.layers
          → IsMoved
              (external_key name version)
              p
              d
              (map_or previous f (λ old. delete_overwritten_layers old p f))
      spared none put' same' = (
        moved_get (external_key name version) p d f put',
        λ l own. ap (StringSet.contains l) same',
      )
      spared (some old) put' same' =
          let k = overwritten-IsSpared old p f in
          (
            moved_get (external_key name version) p d (delete_overwritten_layers old p f)
                (k.0 ∙ put'),
            λ l own. k.1 l own ∙ ap (StringSet.contains l) same',
          )
  removal_rule name version p d e keyed put same (err x, f) h =
      after_undo (undo current name version (external_get (external_key name version) d) f)
        (undo_rule name version p d f keyed (h.0 ∙ put) (h.1 ∙ same))
    where
      after_undo :
          (r : Result (Unit {0}) × Disk)
          → Ends
              (λ u g. ((k : String) → external_get k g ≡ external_get k d) × (g.layers ≡ d.layers))
              (λ x g. Unit)
              r
          → Ends
              (λ u. IsMoved (external_key name version) p d)
              (λ x. IsUndone x d)
              (rolled_back x r)
      after_undo (ok u, g) k = unfold rolled_back in undone x d g k.0 k.1
      after_undo (err y, g) k = unfold rolled_back in tt

  -- The move of a package with a name and a version, whichever accesses fail. Where it succeeds,
  -- the external store has the package under the key of its name and version, whose other
  -- packages are unchanged, and no layer of the package is deleted. Where it fails, every package
  -- of the external store and every layer is what it was before, unless the rollback has failed
  -- too. The packages of the external store stand under their own keys.
  pub migrate_package_store_to_external-rolls_back :
      (p : PackageLayer) (name version : String) (d : Disk)
      → p.name ≡ some name
      → p.version ≡ some version
      → IsKeyed d
      → Ends
          (λ u. IsMoved (external_key name version) p d)
          (λ x. IsUndone x d)
          (migrate_package_store_to_external current p d)
  unfolding migrate_package_store_to_external
  migrate_package_store_to_external-rolls_back p name version d named versioned keyed =
      let key = external_key name version in
      let good = λ (u : Unit {0}). IsMoved key p d in
      let bad = λ (x : LayerError). IsUndone x d in
      let unchanged = λ (x : LayerError) (e : Disk) (h : Same d e).
        undone x d e (λ k. ap (λ s. Map.get k (unwrap_or s (empty_store current)).packages) h.0)
          h.2 in
      let last = λ (n v : String) (s : LayerStore) (e : Disk).
        after_removal current n v (Map.get (external_key n v) s.packages) p
          (remove_package_from_store current p.package_path e) in
      let rest = λ (n v : String).
        load_external_store current >>= λ s. add_import_external_package current p >> last n v s in
      subst (Ends good bad)
        (sym (
          ok_or-some p.name name missing_name
            (λ n. ok_or p.version missing_version >>= λ v. rest n v) d named
          ∙ ok_or-some p.version version missing_version (λ v. rest name v) d versioned))
        (bind good bad (λ s e. (s ≡ external_of current d) × Same d e) (load_external_store current)
          (λ s. add_import_external_package current p >> last name version s) d
          (weaken _ _ (λ x. Same d) bad (load_external_store current d)
            (load_external_rule current d) (λ s e h. h) unchanged)
          (λ s e h.
            bind good bad (λ u. Saved (inserted current key p e) e)
              (add_import_external_package current p) (λ u. last name version s) e
              (weaken _ _ (λ x. Same e) bad (add_import_external_package current p e)
                (add_external_rule current p name version e named versioned) (λ u f k. k)
                (λ x f k. unchanged x f (k.0 ∙ h.1.0, k.1 ∙ h.1.1, k.2 ∙ h.1.2)))
              (λ u f k.
                subst (λ t. Ends good bad (last name version t f)) (sym h.0)
                  (removal_rule name version p d f keyed
                    (k.0
                      ∙ ap
                          (λ o. some (record (unwrap_or o (empty_store current)) {
                            packages =
                                Map.insert key p (unwrap_or o (empty_store current)).packages;
                          }))
                          h.1.0)
                    (k.2 ∙ h.1.2) (remove_package_from_store current p.package_path f)
                    (remove_package_rule current p.package_path f)))))
