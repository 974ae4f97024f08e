-- ===== src/Samples/Layers.antt =====
-- A disk with an older version of a package in the external store, where the last write fails.
use oocana_rust.Base.{
  String, List, false, none, some, [], ◌∷◌, ◌≡◌, refl, sym, ap, ◌∙◌, ◌==◌, eq_iff, map_or,
  Bool-cases, inl, inr,
}
use oocana_rust.Base.Map
use oocana_rust.Layer.{PackageLayer, LayerStore, works, fails, Disk}
use oocana_rust.Layer.Stores.{external_key}
use oocana_rust.Layer.Endings.{Ends}
use oocana_rust.Layer.Migrate.{migrate_package_store_to_external}
use oocana_rust.Layer.Delete.{delete_external_layer}
use oocana_rust.Layer.Needed.{IsCareful, IsComplete, KeepsOthers, delete_external_layer-IsCareful}
use oocana_rust.Layer.Rollback.{
  IsKeyed, IsMoved, IsUndone, migrate_package_store_to_external-rolls_back,
}

abbrev old : PackageLayer
old = record {
  name = some "p";
  version = some "1";
  base_layers = some [];
  source_layer = "source-a";
  bootstrap = none;
  bootstrap_layer = none;
  package_path = "/a";
}

abbrev new : PackageLayer
new = record old { source_layer = "source-b"; package_path = "/b" }

abbrev external : LayerStore
external = record { version = "1.0"; packages = ("p@1", old) ∷ [] }

-- The store is read, the file is written and renamed; then the package store cannot be read.
abbrev disk : Disk
disk = record {
  package_store = some (record { version = "1.0"; packages = ("/b", new) ∷ [] });
  external_store = some external;
  layers = "source-a" ∷ "source-b" ∷ [];
  accesses = works ∷ works ∷ works ∷ works ∷ fails "no access" false ∷ [];
}

none_is_some : (p : PackageLayer) → none ≡ some p → ⊥
none_is_some p e = cc

disk-IsKeyed : IsKeyed "1.0" disk
unfolding Map.get external_key
disk-IsKeyed k p found = elim (Bool-cases ("p@1" == k)) [
  | inl same ↦
      let is_old : some old ≡ some p = sym (rw same refl) ∙ found in
      (
        "p",
        "1",
        ap (λ o. map_or o none (λ q. q.name)) (sym is_old),
        ap (λ o. map_or o none (λ q. q.version)) (sym is_old),
        (eq_iff "p@1" k).0 same,
      )
  | inr other ↦ absurd (none_is_some p (sym (rw other refl) ∙ found))
]

migrate_package_store_to_external-rolls_back_example :
    Ends
      (λ u. IsMoved "1.0" (external_key "p" "1") new disk)
      (λ x. IsUndone "1.0" x disk)
      (migrate_package_store_to_external "1.0" new disk)
migrate_package_store_to_external-rolls_back_example =
    migrate_package_store_to_external-rolls_back "1.0" new "p" "1" disk refl refl disk-IsKeyed

-- A store of two packages.
abbrev shared : Disk
shared = record disk {
  external_store = some (record { version = "1.0"; packages = ("p@1", old) ∷ ("q@1", new) ∷ [] });
}

-- The layer `source-b` is in use.
abbrev in_use : List String
in_use = "source-b" ∷ []

delete_external_layer-IsCareful_example :
    Ends
      (λ u e. IsCareful "1.0" in_use "p" "1" shared e × IsComplete "1.0" in_use "p" "1" shared e)
      (λ x e. IsCareful "1.0" in_use "p" "1" shared e × KeepsOthers "1.0" in_use "p" "1" shared e)
      (delete_external_layer "1.0" in_use "p" "1" shared)
delete_external_layer-IsCareful_example =
    delete_external_layer-IsCareful "1.0" in_use "p" "1" shared
