-- ===== src/Scope/Rules.antt =====
-- manifest_meta/src/flow.rs: the package that a task belongs to by its node.
use oocana_rust.Base.{
  String, Bool, true, false, Option, none, some, ◌≡◌, refl, sym, ap, ◌∙◌, map_or, ◌⊎◌, inl, inr,
  Option-cases,
}
use oocana_rust.Scope.{
  BlockValueType, self_block, direct, pkg, abs_path, rel_path, InjectionTarget, nothing, to_node,
  to_package, Injection,
}

-- Where a task belongs by its node alone: with the layer feature a block of a package that has a
-- path belongs to this package, and any other to the package that the node is injected into, if
-- there is one that is found and the node does not spawn. All else stays in the package of the flow.
abbrev pub IsPackaged : Option String → BlockValueType → String × String → Type 0
IsPackaged path block home = (b : String) × (block ≡ pkg home.0 b) × (path ≡ some home.1)

module _ (find_package : String → Option String) where
  abbrev pub IsInjected : Bool → Option Injection → String × String → Type 0
  IsInjected spawn inj home =
      (script : Option String) × (spawn ≡ false)
      × (inj ≡ some (record { target = to_package home.0; script = script }))
      × (find_package home.0 ≡ some home.1)

  pub data Belongs (layer spawn : Bool) (inj : Option Injection) (path : Option String)
      (block : BlockValueType) (home : Option (String × String)) : Type 0 where
    to_own :
        (h : String × String)
        → layer ≡ true
        → IsPackaged path block h
        → home ≡ some h
        → Belongs layer spawn inj path block home
    to_injected :
        (h : String × String)
        → layer ≡ true
        → ((k : String × String) → ¬ IsPackaged path block k)
        → IsInjected spawn inj h
        → home ≡ some h
        → Belongs layer spawn inj path block home
    to_flow :
        (layer ≡ false)
          ⊎ (((k : String × String) → ¬ IsPackaged path block k)
              × ((k : String × String) → ¬ IsInjected spawn inj k))
        → home ≡ none
        → Belongs layer spawn inj path block home

  injected-Belongs :
      (inj : Option Injection) (path : Option String) (block : BlockValueType)
      → ((k : String × String) → ¬ IsPackaged path block k)
      → (home : Option (String × String)) × Belongs true false inj path block home
  injected-Belongs none path block m =
      (none, to_flow (inr (m, λ k j. let (script, off, e, found) = j in cc)) refl)
  injected-Belongs (some i) path block m = of_target i.target refl
    where
      elsewhere :
          (t : InjectionTarget)
          → i.target ≡ t
          → ((p q : String) → t ≡ to_package p → find_package p ≡ some q → ⊥)
          → (home : Option (String × String)) × Belongs true false (some i) path block home
      elsewhere t e unfound = (
        none,
        to_flow
            (inr (
              m,
              λ k j.
                  let (script, off, same, found) = j in
                  unfound k.0 k.1 (sym e ∙ ap (λ o. map_or o i.target (λ x. x.target)) same) found,
            ))
            refl,
      )

      of_target :
          (t : InjectionTarget)
          → i.target ≡ t
          → (home : Option (String × String)) × Belongs true false (some i) path block home
      of_target nothing e = elsewhere nothing e (λ p q f g. cc)
      of_target (to_node k) e = elsewhere (to_node k) e (λ p q f g. cc)
      of_target (to_package p) e = elim (Option-cases (find_package p)) [
        | inl gone ↦ elsewhere (to_package p) e (λ k q f g. cc)
        | inr (q, found) ↦ (
          some (p, q),
          to_injected (p, q) refl m
              (i.script, refl, ap (λ t. some (record { target = t; script = i.script })) e, found)
              refl,
        )
      ]

  unpackaged-Belongs :
      (spawn : Bool) (inj : Option Injection) (path : Option String) (block : BlockValueType)
      → ((k : String × String) → ¬ IsPackaged path block k)
      → (home : Option (String × String)) × Belongs true spawn inj path block home
  unpackaged-Belongs false inj path block m = injected-Belongs inj path block m
  unpackaged-Belongs true inj path block m =
      (none, to_flow (inr (m, λ k j. let (script, off, e, found) = j in cc)) refl)

  pub task-Belongs :
      (layer spawn : Bool) (inj : Option Injection) (path : Option String) (block : BlockValueType)
      → (home : Option (String × String)) × Belongs layer spawn inj path block home
  task-Belongs false spawn inj path block = (none, to_flow (inl refl) refl)
  task-Belongs true spawn inj (some q) (pkg p b) =
      (some (p, q), to_own (p, q) refl (b, refl, refl) refl)
  task-Belongs true spawn inj none block =
      unpackaged-Belongs spawn inj none block (λ k j. let (b, e, f) = j in cc)
  task-Belongs true spawn inj path (self_block x) =
      unpackaged-Belongs spawn inj path (self_block x) (λ k j. let (b, e, f) = j in cc)
  task-Belongs true spawn inj path (direct x) =
      unpackaged-Belongs spawn inj path (direct x) (λ k j. let (b, e, f) = j in cc)
  task-Belongs true spawn inj path (abs_path x) =
      unpackaged-Belongs spawn inj path (abs_path x) (λ k j. let (b, e, f) = j in cc)
  task-Belongs true spawn inj path (rel_path x) =
      unpackaged-Belongs spawn inj path (rel_path x) (λ k j. let (b, e, f) = j in cc)
