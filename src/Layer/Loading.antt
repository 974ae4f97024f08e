-- ===== src/Layer/Loading.antt =====
-- What the accesses of the stores leave behind.
use oocana_rust.Base.{
  ℕ, zero, suc, String, Bool, true, false, Option, some, ◌≡◌, refl, sym, subst, ap, ◌∙◌, ◌==◌,
  unwrap_or, Bool-cases, inl, inr, ◌||◌,
}
use oocana_rust.Base.Map
use oocana_rust.Base.Map.{Map}
use oocana_rust.Layer.{
  PackageLayer, LayerStore, Result, ok, err, unreadable, missing_name, missing_version, Disk, ◌>>=◌,
  ◌>>◌, pure, ok_or, access, unharmed,
}
use oocana_rust.Layer.Stores.{
  after_attempt, empty_store, upgrade, load_package_store, save_package_store, load_attempts,
  load_external_store, save_external_store_atomic, external_key, add_import_external_package,
  remove_import_external_package, remove_package_from_store,
}
use oocana_rust.Layer.Endings.{Ends, bind, weaken, ok_or-some, access_rule, ok_or_rule}

-- Nothing but the accesses to come is changed.
abbrev pub Same : Disk → Disk → Type 0
Same d e =
    (e.external_store ≡ d.external_store)
    × (e.package_store ≡ d.package_store)
    × (e.layers ≡ d.layers)

pub look : (d : Disk) → Ends (λ u. Same d) (λ x. Same d) (access unharmed unharmed d)
look d =
    access_rule (Same d) (λ x. Same d) unharmed unharmed d (λ rest. (refl, refl, refl))
      (λ x rest. (refl, refl, refl)) (λ x rest. (refl, refl, refl))

pub Same-trans : (d e f : Disk) → Same d e → Same e f → Same d f
Same-trans d e f h k = (k.0 ∙ h.0, k.1 ∙ h.1, k.2 ∙ h.2)

-- The package store may be changed or damaged; the rest stays.
abbrev pub Elsewhere : Disk → Disk → Type 0
Elsewhere d e = (e.external_store ≡ d.external_store) × (e.layers ≡ d.layers)

stays :
    (d e : Disk) (work damage : Disk → Disk)
    → ((f : Disk) → Elsewhere f (work f))
    → ((f : Disk) → Elsewhere f (damage f))
    → Elsewhere d e
    → Ends (λ u. Elsewhere d) (λ x. Elsewhere d) (access work damage e)
stays d e work damage w g h =
    access_rule (Elsewhere d) (λ x. Elsewhere d) work damage e
      (λ rest. let k = w (record e { accesses = rest }) in (k.0 ∙ h.0, k.1 ∙ h.1))
      (λ x rest. let k = g (record e { accesses = rest }) in (k.0 ∙ h.0, k.1 ∙ h.1)) (λ x rest. h)

-- The external store has been replaced, and nothing else.
abbrev pub Saved : LayerStore → Disk → Disk → Type 0
Saved s d e =
    (e.external_store ≡ some s) × (e.package_store ≡ d.package_store) × (e.layers ≡ d.layers)

module _ (current : String) where
  -- The external store as it is read.
  abbrev pub external_of : Disk → LayerStore
  external_of d = unwrap_or d.external_store (empty_store current)

  -- The read gives the store, and changes nothing.
  abbrev pub Reads : Disk → Result LayerStore × Disk → Type 0
  Reads d = Ends (λ s e. (s ≡ external_of d) × Same d e) (λ x e. Same d e)

  attempts_read : (n : ℕ) (d : Disk) → Reads d (load_attempts current n d)
  unfolding load_attempts
  attempts_read zero d = (refl, refl, refl)
  attempts_read (suc n) d =
      after_read (elim n [ zero ↦ true | suc k ↦ false ]) (access unharmed unharmed d) (look d)
        (attempts_read n)
    where
      retry : (e : Disk) (r : Result LayerStore × Disk) → Same d e → Reads e r → Reads d r
      retry e (ok s, f) h k =
          (k.0 ∙ ap (λ x. unwrap_or x (empty_store current)) h.0, Same-trans d e f h k.1)
      retry e (err x, f) h k = Same-trans d e f h k

      after_read :
          (b : Bool) (r : Result (Unit {0}) × Disk)
          → Ends (λ u. Same d) (λ x. Same d) r
          → ((e : Disk) → Reads e (load_attempts current n e))
          → Reads d (after_attempt current (load_attempts current n) b r)
      after_read b (ok u, e) h rec =
          unfold after_attempt in (ap (λ x. unwrap_or x (empty_store current)) h.0, h)
      after_read true (err x, e) h rec = unfold after_attempt in h
      after_read false (err x, e) h rec =
          unfold after_attempt in retry e (load_attempts current n e) h (rec e)

  pub load_external_rule : (d : Disk) → Reads d (load_external_store current d)
  unfolding load_external_store
  load_external_rule d = attempts_read 5 d

  pub save_external_rule :
      (s : LayerStore) (d : Disk)
      → Ends (λ u. Saved s d) (λ x. Same d) (save_external_store_atomic s d)
  unfolding save_external_store_atomic
  save_external_rule s d =
      bind (λ u. Saved s d) (λ x. Same d) (λ u. Same d) (access unharmed unharmed)
        (λ u. access (λ d. record d { external_store = some s }) unharmed) d (look d)
        (λ u e h.
          access_rule (Saved s d) (λ x. Same d) (λ d. record d { external_store = some s }) unharmed
            e (λ rest. (refl, h.1, h.2)) (λ x rest. h) (λ x rest. h))

  abbrev pub inserted : String → PackageLayer → Disk → LayerStore
  inserted key p d = record (external_of d) { packages = Map.insert key p (external_of d).packages }

  abbrev pub removed : String → Disk → LayerStore
  removed key d = record (external_of d) { packages = Map.remove key (external_of d).packages }

  -- A package with a name and a version is put under their key, or nothing is changed.
  pub add_external_rule :
      (p : PackageLayer) (name version : String) (d : Disk)
      → p.name ≡ some name
      → p.version ≡ some version
      → Ends
          (λ u. Saved (inserted (external_key name version) p d) d)
          (λ x. Same d)
          (add_import_external_package current p d)
  unfolding add_import_external_package
  add_external_rule p name version d named versioned =
      let key = external_key name version in
      let good = λ (u : Unit {0}). Saved (inserted key p d) d in
      let saving = λ (n v : String).
        (load_external_store current >>= λ store.
        save_external_store_atomic
          (record store { packages = Map.insert (external_key n v) p store.packages })) in
      let save = λ (store : LayerStore).
        save_external_store_atomic (record store { packages = Map.insert key p store.packages }) in
      subst (Ends good (λ x. Same d))
        (sym (
          ok_or-some p.name name missing_name
            (λ n. ok_or p.version missing_version >>= λ v. saving n v) d named
          ∙ ok_or-some p.version version missing_version (λ v. saving name v) d versioned))
        (bind good (λ x. Same d) (λ s e. (s ≡ external_of d) × Same d e)
          (load_external_store current) save d (load_external_rule d)
          (λ s e h.
            weaken (λ u. Saved (record s { packages = Map.insert key p s.packages }) e) good
              (λ x. Same e) (λ x. Same d) (save s e)
              (save_external_rule (record s { packages = Map.insert key p s.packages }) e)
              (λ u f k. (
                k.0
                    ∙ ap
                        (λ (t : LayerStore).
                          some (record t { packages = Map.insert key p t.packages }))
                        h.0,
                k.1 ∙ h.1.1,
                k.2 ∙ h.1.2,
              ))
              (λ x f k. Same-trans d e f h.1 k)))

  -- The entry of the key is taken out, or nothing is changed.
  pub remove_external_rule :
      (name version : String) (d : Disk)
      → Ends
          (λ r. Saved (removed (external_key name version) d) d)
          (λ x. Same d)
          (remove_import_external_package current name version d)
  unfolding remove_import_external_package
  remove_external_rule name version d =
      let key = external_key name version in
      let good = λ (r : Option PackageLayer). Saved (removed key d) d in
      let less = λ (s : LayerStore). record s { packages = Map.remove key s.packages } in
      bind good (λ x. Same d) (λ s e. (s ≡ external_of d) × Same d e) (load_external_store current)
        (λ s. save_external_store_atomic (less s) >> pure (Map.get key s.packages)) d
        (load_external_rule d)
        (λ s e h.
          bind good (λ x. Same d) (λ u. Saved (removed key d) d)
            (save_external_store_atomic (less s)) (λ u. pure (Map.get key s.packages)) e
            (weaken (λ u. Saved (less s) e) (λ u. Saved (removed key d) d) (λ x. Same e)
              (λ x. Same d) (save_external_store_atomic (less s) e) (save_external_rule (less s) e)
              (λ u f k. (k.0 ∙ ap (λ t. some (less t)) h.0, k.1 ∙ h.1.1, k.2 ∙ h.1.2))
              (λ x f k. Same-trans d e f h.1 k))
            (λ u f k. k))

  upgrade_stays :
      (s : LayerStore) (d e : Disk)
      → Elsewhere d e
      → Ends (λ t. Elsewhere d) (λ x. Elsewhere d) (upgrade current s e)
  unfolding upgrade
  upgrade_stays s d e h = elim (Bool-cases (s.version == current)) [
    | inl a ↦ rw a h
    | inr a ↦ rw a (elim (Bool-cases (s.version == "0.2.0" || s.version == "0.1.0")) [
      | inl b ↦ rw b (
          bind (λ t. Elsewhere d) (λ x. Elsewhere d) (λ u. Elsewhere d)
            (access (λ d. record d { package_store = some (empty_store current) }) unharmed
              >> access unharmed unharmed)
            (λ u. pure (empty_store current)) e
            (bind (λ t. Elsewhere d) (λ x. Elsewhere d) (λ u. Elsewhere d)
              (access (λ d. record d { package_store = some (empty_store current) }) unharmed)
              (λ u. access unharmed unharmed) e
              (stays d e _ unharmed (λ f. (refl, refl)) (λ f. (refl, refl)) h)
              (λ u f k. stays d f unharmed unharmed (λ f. (refl, refl)) (λ f. (refl, refl)) k))
            (λ u f k. k))
      | inr b ↦ rw b h
    ])
  ]

  load_package_rule :
      (d : Disk) → Ends (λ s. Elsewhere d) (λ x. Elsewhere d) (load_package_store current d)
  unfolding load_package_store
  load_package_rule d =
      bind (λ s. Elsewhere d) (λ x. Elsewhere d) (λ u. Elsewhere d) (access unharmed unharmed)
        (λ u e. (ok_or e.package_store unreadable >>= upgrade current) e) d
        (stays d d unharmed unharmed (λ f. (refl, refl)) (λ f. (refl, refl)) (refl, refl))
        (λ u e h.
          bind (λ s. Elsewhere d) (λ x. Elsewhere d) (λ s. Elsewhere d)
            (ok_or e.package_store unreadable) (upgrade current) e
            (ok_or_rule (λ s. Elsewhere d) (λ x. Elsewhere d) e.package_store unreadable e
              (λ s p. h) h)
            (λ s f k. upgrade_stays s d f k))

  pub remove_package_rule :
      (path : String) (d : Disk)
      → Ends (λ r. Elsewhere d) (λ x. Elsewhere d) (remove_package_from_store current path d)
  unfolding remove_package_from_store save_package_store
  remove_package_rule path d =
      bind (λ r. Elsewhere d) (λ x. Elsewhere d) (λ s. Elsewhere d) (load_package_store current)
        (λ s.
          save_package_store (record s { packages = Map.remove path s.packages })
          >> pure (Map.get path s.packages))
        d (load_package_rule d)
        (λ s e h.
          bind (λ r. Elsewhere d) (λ x. Elsewhere d) (λ u. Elsewhere d)
            (save_package_store (record s { packages = Map.remove path s.packages }))
            (λ u. pure (Map.get path s.packages)) e
            (stays d e _ _ (λ f. (refl, refl)) (λ f. (refl, refl)) h) (λ u f k. k))
