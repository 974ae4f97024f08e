-- ===== src/Layer/Delete.antt =====
-- layer/src/external_layer_store.rs: delete_external_layer.
use oocana_rust.Base.{String, Bool, ◌||◌, List, [], ◌∷◌, ◌++◌, if◌then◌else◌, unwrap_or, map_or}
use oocana_rust.Base.Map
use oocana_rust.Base.Map.{Map}
use oocana_rust.Base.StringSet
use oocana_rust.Layer.{
  PackageLayer, LayerStore, Result, ok, err, not_deleted, Disk, M, ◌>>=◌, ◌>>◌, pure, raise,
  list_used_layers,
}
use oocana_rust.Layer.Stores.{load_external_store, save_external_store_atomic, external_key}
use oocana_rust.Layer.Migrate.{delete_layer}

-- The layers of a package, in the order in which they are collected.
unfoldable pub collected : PackageLayer → List String
collected p =
    unwrap_or p.base_layers [] ++ map_or p.bootstrap_layer [] (λ l. l ∷ []) ++ p.source_layer ∷ []

unfoldable pub stored_layers : Map PackageLayer → List String
unfolding collected
stored_layers [] = []
stored_layers ((k, p) ∷ m) = collected p ++ stored_layers m

-- A layer that is shared or in use stays.
unfoldable pub is_spared : List String → List String → String → Bool
unfolding StringSet.contains
is_spared stored used l = StringSet.contains l stored || StringSet.contains l used

unfoldable pub delete_unless : Bool → String → M (Unit {0})
unfolding delete_layer
delete_unless spared l = if spared then pure tt else delete_layer l

-- The layers that could not be deleted.
unfoldable pub delete_unused : List String → List String → List String → Disk → List String × Disk
unfolding delete_unless is_spared
delete_unused stored used [] d = ([], d)
delete_unused stored used (l ∷ ls) d =
    let (r, e) = delete_unless (is_spared stored used l) l d in
    let (errors, f) = delete_unused stored used ls e in
    elim r [ ok u ↦ (errors, f) | err x ↦ (l ∷ errors, f) ]

unfoldable pub check_deleted : List String → M (Unit {0})
check_deleted [] = pure tt
check_deleted (l ∷ ls) = raise (not_deleted (l ∷ ls))

unfoldable pub save_rest : LayerStore → List String × Disk → Result (Unit {0}) × Disk
unfolding save_external_store_atomic check_deleted
save_rest rest (errors, d) = (save_external_store_atomic rest >> check_deleted errors) d

module _ (current : String) (used_layers : List String) where
  unfoldable pub delete_external_layer : String → String → M (Unit {0})
  unfolding load_external_store external_key list_used_layers delete_unused stored_layers collected
      save_rest
  delete_external_layer name version =
      let key = external_key name version in
      load_external_store current >>= λ store. list_used_layers used_layers >>= λ used d.
      save_rest (record store { packages = Map.remove key store.packages })
        (delete_unused (stored_layers (Map.remove key store.packages)) used
          (map_or (Map.get key store.packages) [] collected) d)
