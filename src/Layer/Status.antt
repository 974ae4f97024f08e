-- ===== src/Layer/Status.antt =====
-- layer/src/external_layer_store.rs and package_store.rs: whether a package has its layers.
use oocana_rust.Base.{String, Bool, true, false, Option, none, some, ◌==◌, if◌then◌else◌}
use oocana_rust.Base.Map
use oocana_rust.Layer.{PackageLayer, Result, ok, err, Disk, M, ◌>>=◌, pure, validate}
use oocana_rust.Layer.Stores.{load_external_store, load_package_store, external_key}

-- PackageLayerStatus and ExternalLayerStatus
pub data LayerStatus : Type 0 where
  not_in_store exist : LayerStatus

abbrev pub is_version : Option String → Option String → Bool
is_version none none = true
is_version (some v) (some w) = v == w
is_version _ _ = false

-- What is said of a layer that is valid, and of one that is not.
unfoldable pub after_validate : {A : Type 0} → A → A → Result (Unit {0}) × Disk → Result A × Disk
after_validate valid invalid (ok u, d) = (ok valid, d)
after_validate valid invalid (err e, d) = (ok invalid, d)

unfoldable pub status_of : Option String → Option PackageLayer → M LayerStatus
unfolding after_validate validate
status_of version none = pure not_in_store
status_of version (some p) =
    if is_version p.version version
    then (λ d. after_validate exist not_in_store (validate p d))
    else pure not_in_store

unfoldable pub valid_layer : Option PackageLayer → M (Option PackageLayer)
unfolding after_validate validate
valid_layer none = pure none
valid_layer (some p) = λ d. after_validate (some p) none (validate p d)

module _ (current : String) where
  unfoldable pub external_layer_status : String → String → M LayerStatus
  unfolding status_of load_external_store external_key
  external_layer_status name version = load_external_store current >>= λ store.
      status_of (some version) (Map.get (external_key name version) store.packages)

  unfoldable pub get_external_layer : String → String → M (Option PackageLayer)
  unfolding valid_layer load_external_store external_key
  get_external_layer name version = load_external_store current >>= λ store.
      valid_layer (Map.get (external_key name version) store.packages)

  -- `meta` reads the version in the package file. Where the log has debug messages, a layer that is
  -- not valid is validated once more for the message.
  unfoldable pub package_layer_status : M (Option String) → String → M LayerStatus
  unfolding status_of load_package_store
  package_layer_status meta path = meta >>= λ version.
      load_package_store current >>= λ store. status_of version (Map.get path store.packages)
