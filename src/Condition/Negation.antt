-- ===== src/Condition/Negation.antt =====
-- manifest_reader/src/manifest/block/condition.rs: the operators that come in pairs, `x` and `not x`.
use oocana_rust.Base.{Bool, true, false, not, ◌&&◌, Option, none, some, ◌≡◌, arith}
use oocana_rust.Json.{Json, null, boolean, str, array, object}
use oocana_rust.Condition.Operator.{
  Numbers, ExpressionOperator, equal, not_equal, is_null_, not_null, is_true, is_false, contains,
  not_contains, is_empty, is_not_empty, in_, not_in, has_key, not_has_key, has_value_,
  not_has_value, compare_values,
}

-- The pairs, as the names of the operators give them.
pub data IsNegation : ExpressionOperator → ExpressionOperator → Type 0 where
  equals : IsNegation equal not_equal
  nulls : IsNegation is_null_ not_null
  truths : IsNegation is_true is_false
  containments : IsNegation contains not_contains
  emptiness : IsNegation is_empty is_not_empty
  membership : IsNegation in_ not_in
  keys : IsNegation has_key not_has_key
  values : IsNegation has_value_ not_has_value

-- The operands to which an operator applies, by their kinds alone.
pub applies : {N : Type 0} → ExpressionOperator → Json N → Option (Json N) → Bool
applies equal l (some r) = true
applies is_null_ l r = true
applies is_true (boolean b) r = true
applies contains (str s) (some (str t)) = true
applies contains (array xs) (some r) = true
applies is_empty null r = true
applies is_empty (str s) r = true
applies is_empty (array xs) r = true
applies is_empty (object ms) r = true
applies in_ l (some (array xs)) = true
applies has_key (object ms) (some (str k)) = true
applies has_value_ (object ms) (some r) = true
applies _ _ _ = false

module _ {N : Type 0} (num : Numbers N) where
  abbrev Decides : ExpressionOperator → ExpressionOperator → Json N → Option (Json N) → Type 0
  Decides o n l r =
      (compare_values num o l r ≡ (applies o l r && compare_values num o l r))
      × (compare_values num n l r ≡ (applies o l r && not (compare_values num o l r)))

  -- Of a pair of opposite operators, the first is true only on operands to which it applies, and
  -- the second is true just when the first applies to the operands and is false.
  pub negation-Decides :
      (o n : ExpressionOperator)
      → IsNegation o n
      → (l : Json N) (r : Option (Json N)) → Decides o n l r
  unfolding compare_values applies
  negation-Decides o n equals l none = ground arith
  negation-Decides o n equals l (some r) = ground (arith, num.value_eq_sym l r)
  negation-Decides o n nulls l r = ground arith
  negation-Decides o n truths l r = ground arith
  negation-Decides o n containments l r = ground arith
  negation-Decides o n emptiness l r = ground arith
  negation-Decides o n membership l r = ground arith
  negation-Decides o n keys l r = ground arith
  negation-Decides o n values l r = ground arith
