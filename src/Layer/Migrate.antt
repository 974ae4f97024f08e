-- ===== src/Layer/Migrate.antt =====
-- layer/src/package_layer.rs: the move of a package to the external store.
use oocana_rust.Base.{String, Option, none, some, List, [], ◌∷◌, map_or, for_each}
use oocana_rust.Base.Map
use oocana_rust.Base.StringSet
use oocana_rust.Layer.{
  PackageLayer, LayerError, Result, ok, err, missing_name, missing_version, not_in_store, not_moved,
  rollback_failed, Disk, M, ◌>>=◌, ◌>>◌, pure, ok_or, access, unharmed, layers_of, diff,
}
use oocana_rust.Layer.Stores.{
  load_external_store, external_key, add_import_external_package, remove_import_external_package,
  remove_package_from_store, get_package_layer,
}

unfoldable pub delete_layer : String → M (Unit {0})
unfolding access
delete_layer l = access (λ d. record d { layers = StringSet.remove l d.layers }) unharmed

-- An error is only logged.
unfoldable pub ignore_errors : M (Unit {0}) → Disk → Disk
ignore_errors m d = (m d).1

unfoldable pub delete_overwritten_layers : PackageLayer → PackageLayer → Disk → Disk
unfolding ignore_errors delete_layer diff layers_of for_each
delete_overwritten_layers old new d =
    for_each (λ l. ignore_errors (delete_layer l)) (diff (layers_of old) (layers_of new)) d

unfoldable pub rolled_back : LayerError → Result (Unit {0}) × Disk → Result (Unit {0}) × Disk
rolled_back e (ok u, d) = (err e, d)
rolled_back e (err x, d) = (err (rollback_failed e x), d)

module _ (current : String) where
  -- The package that was in the external store is put back, or the new one is taken out.
  unfoldable pub undo : String → String → Option PackageLayer → M (Unit {0})
  undo name version none = remove_import_external_package current name version >> pure tt
  undo name version (some previous) = add_import_external_package current previous

  unfoldable pub after_removal :
      String
      → String
      → Option PackageLayer
      → PackageLayer
      → Result (Option PackageLayer) × Disk
      → Result (Unit {0}) × Disk
  unfolding undo rolled_back delete_overwritten_layers
  after_removal name version previous pkg (err e, d) = rolled_back e (undo name version previous d)
  after_removal name version previous pkg (ok removed, d) =
      (ok tt, map_or previous d (λ old. delete_overwritten_layers old pkg d))

  unfoldable pub migrate_package_store_to_external : PackageLayer → M (Unit {0})
  unfolding after_removal
  migrate_package_store_to_external pkg = ok_or pkg.name missing_name >>= λ name.
      ok_or pkg.version missing_version >>= λ version. load_external_store current >>= λ external.
      add_import_external_package current pkg >> (λ d.
        after_removal name version (Map.get (external_key name version) external.packages) pkg
          (remove_package_from_store current pkg.package_path d))

  -- The layers that could not be moved. What `ovmlayer` moves stays in its list.
  unfoldable pub move_layers : List String → Disk → List String × Disk
  unfolding access
  move_layers [] d = ([], d)
  move_layers (l ∷ ls) d =
      let (r, e) = access unharmed unharmed d in
      let (failures, f) = move_layers ls e in
      elim r [ ok u ↦ (failures, f) | err x ↦ (l ∷ failures, f) ]

  unfoldable pub after_moves : PackageLayer → List String × Disk → Result (Unit {0}) × Disk
  unfolding migrate_package_store_to_external
  after_moves pkg ([], d) = migrate_package_store_to_external pkg d
  after_moves pkg (l ∷ ls, d) = (err (not_moved (l ∷ ls)), d)

  unfoldable pub move_package_layer : String → M (Unit {0})
  unfolding after_moves move_layers layers_of
  move_package_layer path = get_package_layer current path >>= λ found.
      ok_or found (not_in_store path) >>= λ pkg. ok_or pkg.name missing_name >>= λ name.
      ok_or pkg.version missing_version >>= λ version d.
      after_moves pkg (move_layers (layers_of pkg) d)
