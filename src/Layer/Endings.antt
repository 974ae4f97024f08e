-- ===== src/Layer/Endings.antt =====
-- How the operations of the stores end, as rules: `good` of a result, `bad` of an error.
use oocana_rust.Base.{String, true, false, Option, none, some, List, [], ◌∷◌, ◌≡◌, refl, arith}
use oocana_rust.Layer.{
  LayerError, Result, ok, err, failed, Access, works, fails, Disk, M, ◌>>=◌, ok_or, access,
  access_as,
}

abbrev pub Ends :
    {A : Type 0} → (A → Disk → Type 0) → (LayerError → Disk → Type 0) → Result A × Disk → Type 0
Ends good bad (ok a, d) = good a d
Ends good bad (err e, d) = bad e d

module _ {A B : Type 0} (good : B → Disk → Type 0) (bad : LayerError → Disk → Type 0) where
  at_result :
      (mid : A → Disk → Type 0) (f : A → M B) (r : Result A × Disk)
      → Ends mid bad r
      → ((a : A) (e : Disk) → mid a e → Ends good bad (f a e))
      → Ends good bad (elim r.0 [ ok a ↦ f a r.1 | err e ↦ (err e, r.1) ])
  at_result mid f (ok a, d) h k = k a d h
  at_result mid f (err e, d) h k = h

  pub bind :
      (mid : A → Disk → Type 0) (m : M A) (f : A → M B) (d : Disk)
      → Ends mid bad (m d)
      → ((a : A) (e : Disk) → mid a e → Ends good bad (f a e))
      → Ends good bad ((m >>= f) d)
  bind mid m f d h k = at_result mid f (m d) h k

pub weaken :
    {A : Type 0} (good good' : A → Disk → Type 0) (bad bad' : LayerError → Disk → Type 0)
    → (r : Result A × Disk) → Ends good bad r
    → ((a : A) (e : Disk) → good a e → good' a e)
    → ((x : LayerError) (e : Disk) → bad x e → bad' x e)
    → Ends good' bad' r
weaken good good' bad bad' (ok a, d) h k l = k a d h
weaken good good' bad bad' (err x, d) h k l = l x d h

-- A step that looks for something which is there.
pub ok_or-some :
    {A B : Type 0} (o : Option A) (a : A) (e : LayerError) (f : A → M B) (d : Disk)
    → o ≡ some a
    → (ok_or o e >>= f) d ≡ f a d
ok_or-some none a e f d h = cc
ok_or-some (some b) a e f d h = ground (arith, h)

pub access_rule :
    (good : Disk → Type 0) (bad : LayerError → Disk → Type 0) (work damage : Disk → Disk) (d : Disk)
    → ((rest : List Access) → good (work (record d { accesses = rest })))
    → ((e : String) (rest : List Access) → bad (failed e) (damage (record d { accesses = rest })))
    → ((e : String) (rest : List Access) → bad (failed e) (record d { accesses = rest }))
    → Ends (λ u. good) bad (access work damage d)
unfolding access
access_rule good bad work damage d worked damaged not_worked =
    at_accesses d.accesses (worked d.accesses)
  where
    at_accesses :
        (l : List Access) → good (work d) → Ends (λ u. good) bad (access_as l work damage d)
    at_accesses [] h = h
    at_accesses (works ∷ rest) h = worked rest
    at_accesses (fails e true ∷ rest) h = damaged e rest
    at_accesses (fails e false ∷ rest) h = not_worked e rest

pub ok_or_rule :
    {A : Type 0} (good : A → Disk → Type 0) (bad : LayerError → Disk → Type 0) (o : Option A)
    (e : LayerError) (d : Disk)
    → ((a : A) → o ≡ some a → good a d)
    → bad e d
    → Ends good bad (ok_or o e d)
ok_or_rule good bad none e d h k = k
ok_or_rule good bad (some a) e d h k = h a refl
