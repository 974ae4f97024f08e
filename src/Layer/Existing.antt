-- ===== src/Layer/Existing.antt =====
-- layer/src/external_layer_store.rs: external_layer_status and get_external_layer agree.
use oocana_rust.Base.{String, Bool, true, false, Option, none, some, ◌≡◌, refl, ap, if◌then◌else◌}
use oocana_rust.Base.Map
use oocana_rust.Layer.{PackageLayer, LayerStore, Result, ok, err, Disk, M, pure, validate}
use oocana_rust.Layer.Stores.{load_external_store, external_key}
use oocana_rust.Layer.Status.{
  LayerStatus, not_in_store, exist, is_version, after_validate, status_of, valid_layer,
  external_layer_status, get_external_layer,
}

valid_after :
    (p : PackageLayer) (r : Result (Unit {0}) × Disk) (e : Disk)
    → after_validate exist not_in_store r ≡ (ok exist, e)
    → after_validate (some p) none r ≡ (ok (some p), e)
unfolding after_validate
valid_after p (ok u, d) e h = ap (λ x. (ok (some p), x.1)) h
valid_after p (err x, d) e h = absurd (cc)

at_version :
    (b : Bool) (m : M LayerStatus) (d e : Disk)
    → (if b then m else pure not_in_store) d ≡ (ok exist, e)
    → (b ≡ true) × (m d ≡ (ok exist, e))
at_version true m d e h = (refl, h)
at_version false m d e h = absurd (cc)

-- The store has a package with this version, which is valid.
abbrev pub Has : String → Option PackageLayer → PackageLayer → Type 0
Has version o p = (o ≡ some p) × (is_version p.version (some version) ≡ true)

found :
    (version : String) (o : Option PackageLayer) (d e : Disk)
    → status_of (some version) o d ≡ (ok exist, e)
    → (p : PackageLayer) × Has version o p × (valid_layer o d ≡ (ok (some p), e))
unfolding status_of valid_layer
found version none d e h = absurd (cc)
found version (some p) d e h =
    let (same, valid) =
      at_version (is_version p.version (some version))
        (λ d. after_validate exist not_in_store (validate p d)) d e h in
    (p, (refl, same), valid_after p (validate p d) e valid)

module _ (current name version : String) where
  -- Where external_layer_status says that a package is there, get_external_layer gives a layer of
  -- it with this version, whatever accesses have to be tried again, and leaves the same behind.
  external_layer_status-get_external_layer :
      (d e : Disk)
      → external_layer_status current name version d ≡ (ok exist, e)
      → (p : PackageLayer) × (is_version p.version (some version) ≡ true)
        × (get_external_layer current name version d ≡ (ok (some p), e))
  unfolding external_layer_status get_external_layer
  external_layer_status-get_external_layer d e h = after_load (load_external_store current d) h
    where
      after_load :
          (r : Result LayerStore × Disk)
          → elim r.0 [
            | ok s ↦ status_of (some version) (Map.get (external_key name version) s.packages) r.1
            | err x ↦ (err x, r.1)
          ]
            ≡ (ok exist, e)
          → (p : PackageLayer) × (is_version p.version (some version) ≡ true)
            × (elim r.0 [
              | ok s ↦ valid_layer (Map.get (external_key name version) s.packages) r.1
              | err x ↦ (err x, r.1)
            ]
                ≡ (ok (some p), e))
      after_load (ok s, f) k =
          let (p, has, valid) =
            found version (Map.get (external_key name version) s.packages) f e k in
          (p, has.1, valid)
      after_load (err x, f) k = absurd (cc)
