-- ===== src/Layer/Unused.antt =====
-- layer/src/external_layer_store.rs: the loop that deletes the layers of a package.
use oocana_rust.Base.{
  String, Bool, true, false, not, ◌||◌, List, [], ◌∷◌, ◌≡◌, refl, subst, ◌∙◌, arith, eq_iff, ◌==◌,
  Bool-cases, inl, inr,
}
use oocana_rust.Base.StringSet
use oocana_rust.Base.StringSet.{contains-remove}
use oocana_rust.Layer.{Result, ok, err, Disk, unharmed}
use oocana_rust.Layer.Migrate.{delete_layer}
use oocana_rust.Layer.Delete.{is_spared, delete_unless, delete_unused}
use oocana_rust.Layer.Endings.{Ends, access_rule}

-- The spared layers are there if they were, no layer is new, and the external store is the same.
abbrev pub Spares : (String → Bool) → Disk → Disk → Type 0
Spares spared d e =
    ((j : String) → spared j ≡ true → StringSet.contains j e.layers ≡ StringSet.contains j d.layers)
    × ((j : String) → StringSet.contains j d.layers ≡ false → StringSet.contains j e.layers ≡ false)
    × (e.external_store ≡ d.external_store)

-- The layer is not there unless it is spared.
abbrev pub IsGone : (String → Bool) → String → Disk → Type 0
IsGone spared j e = (spared j || not (StringSet.contains j e.layers)) ≡ true

pub Spares-trans :
    (spared : String → Bool) (d e f : Disk)
    → Spares spared d e
    → Spares spared e f
    → Spares spared d f
Spares-trans spared d e f h k = (λ j s. k.0 j s ∙ h.0 j s, λ j s. k.1 j (h.1 j s), k.2 ∙ h.2)

IsGone-later :
    (spared : String → Bool) (j : String) (d e : Disk)
    → Spares spared d e
    → IsGone spared j d
    → IsGone spared j e
IsGone-later spared j d e h gone = elim (Bool-cases (spared j)) [
  | inl s ↦ rw s refl
  | inr s ↦ rw (s, h.1 j (ground (arith, s, gone))) refl
]

one_deleted :
    (spared : String → Bool) (l : String) (d : Disk) (b : Bool)
    → spared l ≡ b
    → Ends
        (λ u e. Spares spared d e × IsGone spared l e)
        (λ x. Spares spared d)
        (delete_unless b l d)
unfolding delete_unless delete_layer
one_deleted spared l d true s = ((λ j h. refl, λ j h. h, refl), rw s refl)
one_deleted spared l d false s =
    access_rule (λ e. Spares spared d e × IsGone spared l e) (λ x. Spares spared d)
      (λ d. record d { layers = StringSet.remove l d.layers }) unharmed d
      (λ rest. (
        (
          λ j h. ground (arith, contains-remove l j d.layers, h, s, eq_iff l j),
          λ j h. ground (arith, contains-remove l j d.layers, h),
          refl,
        ),
        ground (arith, contains-remove l l d.layers, eq_iff l l, s),
      ))
      (λ x rest. (λ j h. refl, λ j h. h, refl)) (λ x rest. (λ j h. refl, λ j h. h, refl))

module _ (stored used : List String) where
  -- Of a list of layers: where no deletion has failed, all are gone.
  abbrev pub Deletes : List String → Disk → List String × Disk → Type 0
  Deletes ls d r =
      Spares (is_spared stored used) d r.1
      × (r.0 ≡ []
          → (j : String) → StringSet.contains j ls ≡ true
          → IsGone (is_spared stored used) j r.1)

  pub all_deleted : (ls : List String) (d : Disk) → Deletes ls d (delete_unused stored used ls d)
  unfolding delete_unused StringSet.contains
  all_deleted [] d = ((λ j h. refl, λ j h. h, refl), λ none_failed j h. cc)
  all_deleted (l ∷ ls) d =
      after_first (delete_unless (is_spared stored used l) l d)
        (one_deleted (is_spared stored used) l d (is_spared stored used l) refl) (all_deleted ls)
    where
      after_first :
          (r : Result (Unit {0}) × Disk)
          → Ends
              (λ u e. Spares (is_spared stored used) d e × IsGone (is_spared stored used) l e)
              (λ x. Spares (is_spared stored used) d)
              r
          → ((e : Disk) → Deletes ls e (delete_unused stored used ls e))
          → let f = delete_unused stored used ls r.1 in
            Deletes (l ∷ ls) d (elim r.0 [ ok u ↦ f | err x ↦ (l ∷ f.0, f.1) ])
      after_first (ok u, e) h rest =
          let (kept, gone) = rest e in
          (
            Spares-trans (is_spared stored used) d e (delete_unused stored used ls e).1 h.0 kept,
            λ none_failed j here. elim (Bool-cases (l == j)) [
              | inl same ↦
                  subst (λ i. IsGone (is_spared stored used) i (delete_unused stored used ls e).1)
                    ((eq_iff l j).0 same)
                    (IsGone-later (is_spared stored used) l e (delete_unused stored used ls e).1
                      kept h.1)
              | inr other ↦ gone none_failed j (ground (arith, other, here))
            ],
          )
      after_first (err x, e) h rest = (
        Spares-trans (is_spared stored used) d e (delete_unused stored used ls e).1 h (rest e).0,
        λ none_failed j here. cc,
      )
