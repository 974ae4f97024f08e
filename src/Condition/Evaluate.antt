-- ===== src/Condition/Evaluate.antt =====
-- manifest_meta/src/condition.rs: the choice of the output handle, with is_match of
-- manifest_reader/src/manifest/block/condition.rs.
use oocana_rust.Base.{
  String, true, false, Option, none, some, List, [], ◌∷◌, ◌++◌, ◌≡◌, ◌≢◌, refl, sym, ap, subst, ◌∙◌,
  ◌↔◌, ◌⊎◌, inl, inr, arith, Bool-cases, Option-cases, unwrap_or, map_option, All, any, all,
  is_empty,
}
use oocana_rust.Base.Map
use oocana_rust.Base.Map.{Map}
use oocana_rust.Json.{Json, null}
use oocana_rust.Condition.Operator.{Numbers, compare_values}
use oocana_rust.Condition.{
  LogicalOperator, and_, or_, ConditionExpression, ConditionBlock, ConditionHandleDef,
  DefaultConditionHandleDef, eval, combine, is_match, first_match, evaluate,
}

-- One of the list has the property.
abbrev pub One : {A : Type 0} → (A → Type 0) → List A → Type 0
One {A} P xs = (before : List A) × (x : A) × (after : List A) × (xs ≡ before ++ x ∷ after) × P x

is_full : {A : Type 0} (xs : List A) → xs ≢ [] → is_empty xs ≡ false
is_full [] n = absurd (n refl)
is_full (x ∷ xs) n = refl

is_full_split :
    {A : Type 0} (before : List A) (x : A) (after : List A) → is_empty (before ++ x ∷ after) ≡ false
is_full_split [] x after = refl
is_full_split (y ∷ before) x after = refl

or_by_default : (l : Option LogicalOperator) → l ≢ some and_ → unwrap_or l or_ ≡ or_
or_by_default none n = refl
or_by_default (some or_) n = refl
or_by_default (some and_) n = absurd (n refl)

module _ {N : Type 0} (num : Numbers N) (value_map : Map (Json N)) where
  -- The operator is true of the value at the input, which is null where the input has none.
  abbrev pub Holds : ConditionExpression N → Type 0
  Holds e =
      (v : Json N) × ((Map.get e.input_handle value_map ≡ some v)
        ⊎ ((Map.get e.input_handle value_map ≡ none) × (v ≡ null)))
      × (compare_values num e.operator v e.value ≡ true)

  -- A case with `and` needs all its expressions, and at least one; any other needs one of them.
  pub data Matches (c : ConditionHandleDef N) : Type 0 where
    all_hold : c.logical ≡ some and_ → c.expressions ≢ [] → All Holds c.expressions → Matches c
    one_holds : c.logical ≢ some and_ → One Holds c.expressions → Matches c

  -- What a condition block promises: the handle of the first case that matches; and where no case
  -- does, that of the default, if there is one.
  pub data Answers (cases : List (ConditionHandleDef N))
      (default : Option DefaultConditionHandleDef) (h : Option String) : Type 0 where
    by_case :
        (before : List (ConditionHandleDef N)) (c : ConditionHandleDef N)
        (after : List (ConditionHandleDef N))
        → cases ≡ before ++ c ∷ after
        → All (λ k. ¬ Matches k) before
        → Matches c
        → h ≡ some c.handle
        → Answers cases default h
    by_default :
        All (λ k. ¬ Matches k) cases
        → h ≡ map_option (λ d. d.handle) default
        → Answers cases default h

  eval-Holds : (e : ConditionExpression N) → (eval num value_map e ≡ true) ↔ Holds e
  unfolding eval
  eval-Holds e = (there, back)
    where
      there : eval num value_map e ≡ true → Holds e
      there h = elim (Option-cases (Map.get e.input_handle value_map)) [
        | inl gone ↦ (null, inr (gone, refl), ground (arith, gone, h))
        | inr (v, found) ↦ (v, inl found, ground (arith, found, h))
      ]

      back : Holds e → eval num value_map e ≡ true
      back (v, inl found, h) = rw found h
      back (v, inr (gone, nothing), h) =
          rw gone (subst (λ w. compare_values num e.operator w e.value ≡ true) nothing h)

  all-Holds :
      (es : List (ConditionExpression N)) → (all (eval num value_map) es ≡ true) ↔ All Holds es
  all-Holds [] = (λ h. tt, λ h. refl)
  all-Holds (e ∷ es) =
      let (there, back) = eval-Holds e in
      let (on, off) = all-Holds es in
      (λ h. (there (ground (arith, h)), on (ground (arith, h))), λ h. rw (back h.0) (off h.1))

  any-Holds :
      (es : List (ConditionExpression N)) → any (eval num value_map) es ≡ true → One Holds es
  any-Holds [] h = absurd (cc)
  any-Holds (e ∷ es) h = elim (Bool-cases (eval num value_map e)) [
    | inl holds ↦ ([], e, es, refl, (eval-Holds e).0 holds)
    | inr fails ↦
        let (before, x, after, split, holds) = any-Holds es (ground (arith, fails, h)) in
        (e ∷ before, x, after, ap (◌∷◌ e) split, holds)
  ]

  Holds-any :
      (before : List (ConditionExpression N)) (e : ConditionExpression N)
      (after : List (ConditionExpression N))
      → Holds e
      → any (eval num value_map) (before ++ e ∷ after) ≡ true
  Holds-any [] e after h = rw ((eval-Holds e).1 h) refl
  Holds-any (x ∷ before) e after h = ground (arith, Holds-any before e after h)

  by_logical :
      (c : ConditionHandleDef N) (l : Option LogicalOperator)
      → c.logical ≡ l
      → c.expressions ≢ []
      → combine num (unwrap_or l or_) value_map c.expressions ≡ true
      → Matches c
  unfolding combine
  by_logical c (some and_) e nonempty h = all_hold e nonempty ((all-Holds c.expressions).0 h)
  by_logical c (some or_) e nonempty h = one_holds (λ k. cc) (any-Holds c.expressions h)
  by_logical c none e nonempty h = one_holds (λ k. cc) (any-Holds c.expressions h)

  is_match-Matches : (c : ConditionHandleDef N) → is_match num c value_map ≡ true → Matches c
  unfolding is_match
  is_match-Matches c h = elim (Bool-cases (is_empty c.expressions)) [
    | inl empty ↦ absurd (ground (arith, empty, h))
    | inr full ↦
        by_logical c c.logical refl (λ n. ground (arith, ap is_empty n, full))
          (ground (arith, full, h))
  ]

  Matches-is_match : (c : ConditionHandleDef N) → Matches c → is_match num c value_map ≡ true
  unfolding is_match combine
  Matches-is_match c (all_hold e nonempty h) =
      rw (is_full c.expressions nonempty, e) ((all-Holds c.expressions).1 h)
  Matches-is_match c (one_holds n (before, x, after, split, h)) =
      rw (or_by_default c.logical n)
        (rw split (rw (is_full_split before x after) (Holds-any before x after h)))

  fails : (c : ConditionHandleDef N) → ¬ Matches c → is_match num c value_map ≡ false
  fails c n = elim (Bool-cases (is_match num c value_map)) [
    | inl holds ↦ absurd (n (is_match-Matches c holds))
    | inr no_match ↦ no_match
  ]

  Answers-later :
      (c : ConditionHandleDef N) (cases : List (ConditionHandleDef N))
      (d : Option DefaultConditionHandleDef) (h : Option String)
      → ¬ Matches c
      → Answers cases d h
      → Answers (c ∷ cases) d h
  Answers-later c cases d h n (by_case before k after split none_before m e) =
      by_case (c ∷ before) k after (ap (◌∷◌ c) split) (n, none_before) m e
  Answers-later c cases d h n (by_default none_matches e) = by_default (n, none_matches) e

  first_match-Answers :
      (cases : List (ConditionHandleDef N)) (d : Option DefaultConditionHandleDef)
      → Answers cases d (first_match num cases d value_map)
  unfolding first_match
  first_match-Answers [] none = by_default tt refl
  first_match-Answers [] (some d) = by_default tt refl
  first_match-Answers (c ∷ rest) d = elim (Bool-cases (is_match num c value_map)) [
    | inl holds ↦ rw holds (by_case [] c rest refl tt (is_match-Matches c holds) refl)
    | inr fails_here ↦ rw fails_here (
        Answers-later c rest d (first_match num rest d value_map)
          (λ m. ground (arith, Matches-is_match c m, fails_here)) (first_match-Answers rest d))
  ]

  at_first :
      (before : List (ConditionHandleDef N)) (c : ConditionHandleDef N)
      (after : List (ConditionHandleDef N)) (d : Option DefaultConditionHandleDef)
      → All (λ k. ¬ Matches k) before
      → Matches c
      → first_match num (before ++ c ∷ after) d value_map ≡ some c.handle
  unfolding first_match
  at_first [] c after d n m = rw (Matches-is_match c m) refl
  at_first (k ∷ before) c after d n m = rw (fails k n.0) (at_first before c after d n.1 m)

  at_default :
      (cases : List (ConditionHandleDef N)) (d : Option DefaultConditionHandleDef)
      → All (λ k. ¬ Matches k) cases
      → first_match num cases d value_map ≡ map_option (λ x. x.handle) d
  unfolding first_match
  at_default [] none n = refl
  at_default [] (some d) n = refl
  at_default (k ∷ cases) d n = rw (fails k n.0) (at_default cases d n.1)

  Answers-first_match :
      (cases : List (ConditionHandleDef N)) (d : Option DefaultConditionHandleDef)
      (h : Option String)
      → Answers cases d h
      → first_match num cases d value_map ≡ h
  Answers-first_match cases d h (by_case before c after split n m e) =
      ap (λ cs. first_match num cs d value_map) split ∙ at_first before c after d n m ∙ sym e
  Answers-first_match cases d h (by_default n e) = at_default cases d n ∙ sym e

  -- A condition block answers with a handle exactly when it is that of the first case that matches,
  -- or, where no case matches, that of the default; and with none exactly when no case matches and
  -- there is no default. A case with `and` matches when it has expressions and all of them hold, any
  -- other when one of them holds; an expression holds when its operator is true of the value at its
  -- input, or of null where there is none.
  pub evaluate_iff :
      (block : ConditionBlock N) (h : Option String)
      → (evaluate num block value_map ≡ h) ↔ Answers block.cases block.default h
  unfolding evaluate
  evaluate_iff block h = (
    λ e.
        subst (Answers block.cases block.default) e (first_match-Answers block.cases block.default),
    Answers-first_match block.cases block.default h,
  )
