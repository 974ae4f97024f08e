-- ===== src/Layer/Stores.antt =====
-- layer/src/package_store.rs and layer/src/external_layer_store.rs: the files of the two stores.
use oocana_rust.Base.{
  ℕ, zero, suc, String, Bool, true, false, ◌||◌, Option, none, some, [], if◌then◌else◌, ◌==◌,
  unwrap_or,
}
use Prim.Native.String.{◌++◌ as text_append}
use oocana_rust.Base.Map
use oocana_rust.Base.Map.{Map}
use oocana_rust.Layer.{
  PackageLayer, LayerStore, Result, ok, err, unreadable, missing_name, missing_version, Disk, M,
  ◌>>=◌, ◌>>◌, pure, ok_or, access, unharmed,
}

unfoldable pub external_key : String → String → String
external_key package_name version = text_append package_name (text_append "@" version)

-- The file is truncated before it is written.
unfoldable pub save_package_store : LayerStore → M (Unit {0})
unfolding access
save_package_store store =
    access (λ d. record d { package_store = some store }) (λ d. record d { package_store = none })

-- The new file is written beside the old one and renamed, so that a failure does no damage.
unfoldable pub save_external_store_atomic : LayerStore → M (Unit {0})
unfolding access
save_external_store_atomic store =
    access unharmed unharmed >> access (λ d. record d { external_store = some store }) unharmed

-- `current` is the version of the crate.
module _ (current : String) where
  abbrev pub empty_store : LayerStore
  empty_store = record { version = current; packages = [] }

  -- The stores of two old versions are removed. The second load that follows finds no file, and
  -- package_store_file creates it with an empty store of this version.
  unfoldable pub upgrade : LayerStore → M LayerStore
  unfolding access
  upgrade store =
      if store.version == current
      then pure store
      else if store.version == "0.2.0" || store.version == "0.1.0"
      then access (λ d. record d { package_store = some empty_store }) unharmed
        >> access unharmed unharmed
        >> pure empty_store
      else pure store

  unfoldable pub load_package_store : M LayerStore
  unfolding access upgrade
  load_package_store =
      access unharmed unharmed >>= λ _ d. (ok_or d.package_store unreadable >>= upgrade) d

  unfoldable pub add_import_package : PackageLayer → M (Unit {0})
  unfolding load_package_store save_package_store
  add_import_package pkg = load_package_store >>= λ store.
      save_package_store
        (record store { packages = Map.insert pkg.package_path pkg store.packages })

  unfoldable pub remove_package_from_store : String → M (Option PackageLayer)
  unfolding load_package_store save_package_store
  remove_package_from_store path = load_package_store >>= λ store.
      save_package_store (record store { packages = Map.remove path store.packages })
      >> pure (Map.get path store.packages)

  unfoldable pub get_package_layer : String → M (Option PackageLayer)
  unfolding load_package_store
  get_package_layer path = load_package_store >>= λ store. pure (Map.get path store.packages)

  -- load_external_store_with_retry: a file that is absent is an empty store. The rename of a store
  -- under its old name, package_store.json, is left out.
  unfoldable pub after_attempt :
      M LayerStore → Bool → Result (Unit {0}) × Disk → Result LayerStore × Disk
  after_attempt again is_last (ok u, d) = (ok (unwrap_or d.external_store empty_store), d)
  after_attempt again true (err e, d) = (err e, d)
  after_attempt again false (err e, d) = again d

  unfoldable pub load_attempts : ℕ → M LayerStore
  unfolding access after_attempt
  load_attempts zero d = (err unreadable, d)
  load_attempts (suc n) d =
      after_attempt (load_attempts n) (elim n [ zero ↦ true | suc k ↦ false ])
        (access unharmed unharmed d)

  abbrev pub max_read_retries : ℕ
  max_read_retries = 5

  unfoldable pub load_external_store : M LayerStore
  unfolding load_attempts access
  load_external_store = load_attempts max_read_retries

  unfoldable pub add_import_external_package : PackageLayer → M (Unit {0})
  unfolding load_external_store save_external_store_atomic external_key
  add_import_external_package pkg = ok_or pkg.name missing_name >>= λ name.
      ok_or pkg.version missing_version >>= λ version. load_external_store >>= λ store.
      save_external_store_atomic
        (record store { packages = Map.insert (external_key name version) pkg store.packages })

  unfoldable pub remove_import_external_package : String → String → M (Option PackageLayer)
  unfolding load_external_store save_external_store_atomic external_key
  remove_import_external_package name version = load_external_store >>= λ store.
      save_external_store_atomic
        (record store { packages = Map.remove (external_key name version) store.packages })
      >> pure (Map.get (external_key name version) store.packages)
