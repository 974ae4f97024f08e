-- ===== src/Generate/Rules.antt =====
-- manifest_meta/src/flow.rs: where the value of an input comes from, and its mark for the cache.
use oocana_rust.Base.{
  String, true, Option, none, some, List, [], ◌∷◌, ◌++◌, ◌≡◌, refl, ap, subst, arith, eq_iff, ◌==◌,
  ◌&&◌, ◌↔◌, Option-cases, Bool-cases, inl, inr, All, any, unwrap_or, or_else, is_some_and,
}
use oocana_rust.Json.{Json}
use oocana_rust.Manifest.{NodeInputFrom}
use oocana_rust.Node.{
  ValueState, not_provided, explicit_null, value, from_double_option, HandleFrom, from_flow_input,
  from_node_output, from_value,
}
use oocana_rust.Generate.{
  only_value, extract_value_from_connection, find_value, extract_value_from_inputs,
}

module _ {N : Type 0} where
  -- What the field `value` of an entry says: it is missing, null or a value.
  pub data Says : Option (Option (Json N)) → ValueState N → Type 0 where
    missing : Says none not_provided
    null_value : Says (some none) explicit_null
    json_value : (v : Json N) → Says (some (some v)) (value v)

  double_option-Says : (o : Option (Option (Json N))) → Says o (from_double_option o)
  unfolding from_double_option
  double_option-Says none = missing
  double_option-Says (some none) = null_value
  double_option-Says (some (some v)) = json_value v

  -- No entry is for the handle.
  abbrev pub IsUnnamed : String → List (NodeInputFrom N) → Type 0
  IsUnnamed h = All (λ i. ¬ (i.handle ≡ h))

  -- The only connection is one from a value.
  abbrev pub IsSingle : Option (List (HandleFrom N)) → ValueState N → Type 0
  IsSingle from v = from ≡ some (from_value v ∷ [])

  -- Where the value of an input comes from: a value that is the only connection; else the first entry
  -- for the handle; else nowhere.
  pub data Supplied (h : String) (from : Option (List (HandleFrom N)))
      (entries : Option (List (NodeInputFrom N))) (v : ValueState N) : Type 0 where
    connected : IsSingle from v → Supplied h from entries v
    first_entry :
        (before after : List (NodeInputFrom N)) (i : NodeInputFrom N)
        → ((w : ValueState N) → ¬ IsSingle from w)
        → entries ≡ some (before ++ i ∷ after)
        → IsUnnamed h before
        → i.handle ≡ h
        → Says i.value v
        → Supplied h from entries v
    unsupplied :
        ((w : ValueState N) → ¬ IsSingle from w)
        → ((is : List (NodeInputFrom N)) → entries ≡ some is → IsUnnamed h is)
        → v ≡ not_provided
        → Supplied h from entries v

  -- Some entry for the handle asks for the value to be serialized for the cache.
  abbrev pub IsSaved : String → Option (List (NodeInputFrom N)) → Type 0
  IsSaved h entries =
      (before : List (NodeInputFrom N)) × (i : NodeInputFrom N) × (after : List (NodeInputFrom N))
      × (entries ≡ some (before ++ i ∷ after))
      × (i.handle ≡ h)
      × (i.serialize_for_cache ≡ true)

  find_value-here :
      (h : String) (is : List (NodeInputFrom N)) (v : ValueState N)
      → find_value h is ≡ some v
      → (before : List (NodeInputFrom N)) × (i : NodeInputFrom N) × (after : List (NodeInputFrom N))
        × (is ≡ before ++ i ∷ after)
        × IsUnnamed h before
        × (i.handle ≡ h)
        × Says i.value v
  unfolding find_value
  find_value-here h [] v e = cc
  find_value-here h (i ∷ is) v e =
      let there = find_value-here h is v in
      elim (Bool-cases (i.handle == h)) [
        | inl same ↦ (
          [],
          i,
          is,
          refl,
          tt,
          ground (arith, eq_iff i.handle h, same),
          subst (Says i.value) (ground (arith, e, same)) (double_option-Says i.value),
        )
        | inr other ↦
            let (before, j, after, split, unnamed, named, says) =
              there (ground (arith, e, other)) in
            (
              i ∷ before,
              j,
              after,
              ap (λ js. i ∷ js) split,
              (λ s. ground (arith, eq_iff i.handle h, other, s), unnamed),
              named,
              says,
            )
      ]

  find_value-gone :
      (h : String) (is : List (NodeInputFrom N)) → find_value h is ≡ none → IsUnnamed h is
  unfolding find_value
  find_value-gone h [] e = tt
  find_value-gone h (i ∷ is) e = (
    λ s. ground (arith, eq_iff i.handle h, s, e),
    find_value-gone h is (ground (arith, eq_iff i.handle h, e)),
  )

  only_value-IsSingle :
      (from : Option (List (HandleFrom N))) (v : ValueState N)
      → extract_value_from_connection from ≡ some v
      → IsSingle from v
  unfolding extract_value_from_connection only_value
  only_value-IsSingle none v e = cc
  only_value-IsSingle (some []) v e = cc
  only_value-IsSingle (some (from_value w ∷ [])) v e = cc
  only_value-IsSingle (some (from_value w ∷ f ∷ fs)) v e = cc
  only_value-IsSingle (some (from_flow_input k ∷ fs)) v e = cc
  only_value-IsSingle (some (from_node_output n o ∷ fs)) v e = cc

  unconnected :
      (from : Option (List (HandleFrom N))) (w : ValueState N)
      → extract_value_from_connection from ≡ none
      → ¬ IsSingle from w
  unfolding extract_value_from_connection only_value
  unconnected from w e only = ground (arith, e, only)

  some_inj : {is js : List (NodeInputFrom N)} → some is ≡ some js → is ≡ js
  some_inj e = cc

  pub chosen-Supplied :
      (h : String) (from : Option (List (HandleFrom N))) (entries : Option (List (NodeInputFrom N)))
      → Supplied h from entries (
          unwrap_or
            (or_else (extract_value_from_connection from) (extract_value_from_inputs entries h))
            not_provided)
  unfolding extract_value_from_inputs
  chosen-Supplied h from entries = elim (Option-cases (extract_value_from_connection from)) [
    | inr (v, only) ↦ rw only (connected (only_value-IsSingle from v only))
    | inl other ↦ rw other (by_entries entries (λ w. unconnected from w other))
  ]
    where
      by_entries :
          (es : Option (List (NodeInputFrom N)))
          → ((w : ValueState N) → ¬ IsSingle from w)
          → Supplied h from es (unwrap_or (extract_value_from_inputs es h) not_provided)
      by_entries none n = unsupplied n (λ is e. cc) refl
      by_entries (some is) n = elim (Option-cases (find_value h is)) [
        | inl gone ↦ rw gone (
            unsupplied n (λ js e. subst (IsUnnamed h) (some_inj e) (find_value-gone h is gone))
              refl)
        | inr (v, found) ↦
            let (before, i, after, split, unnamed, named, says) = find_value-here h is v found in
            rw found (first_entry before after i n (ap some split) unnamed named says)
      ]

  any_here :
      (h : String) (is : List (NodeInputFrom N))
      → any (λ i. i.handle == h && i.serialize_for_cache) is ≡ true
      → IsSaved h (some is)
  any_here h [] e = cc
  any_here h (i ∷ is) e =
      let there = any_here h is in
      elim (Bool-cases (i.handle == h && i.serialize_for_cache)) [
        | inl it ↦ ([], i, is, refl, ground (arith, eq_iff i.handle h, it), ground (arith, it))
        | inr other ↦
            let (before, j, after, split, named, saved) = there (ground (arith, e, other)) in
            (i ∷ before, j, after, ap (λ js. some (i ∷ js)) (some_inj split), named, saved)
      ]

  any_there :
      (h : String) (before after : List (NodeInputFrom N)) (i : NodeInputFrom N)
      → i.handle ≡ h
      → i.serialize_for_cache ≡ true
      → any (λ j. j.handle == h && j.serialize_for_cache) (before ++ i ∷ after) ≡ true
  any_there h [] after i e s = ground (arith, eq_iff i.handle h, e, s)
  any_there h (j ∷ before) after i e s = ground (arith, any_there h before after i e s)

  pub any-IsSaved :
      (h : String) (entries : Option (List (NodeInputFrom N)))
      → (is_some_and entries (any (λ i. i.handle == h && i.serialize_for_cache)) ≡ true)
        ↔ IsSaved h entries
  any-IsSaved h none = ((λ e. cc), (λ s. let (before, i, after, e, named, saved) = s in cc))
  any-IsSaved h (some is) = (
    any_here h is,
    λ s.
        let (before, i, after, e, named, saved) = s in
        rw (some_inj e) (any_there h before after i named saved),
  )
