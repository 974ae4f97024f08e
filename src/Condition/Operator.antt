-- ===== src/Condition/Operator.antt =====
-- manifest_reader/src/manifest/block/condition.rs: ExpressionOperator::compare_values.
use oocana_rust.Base.{Bool, true, false, not, Option, none, some, unwrap_or, is_some_and, ◌==◌, ◌≡◌}
use oocana_rust.Json.{
  Json, null, number, str, array, object, is_null, as_bool, as_number, items_contain, has_value,
  is_empty_object, is_empty_array, get,
}
use oocana_rust.Condition.Text.{text_contains, text_starts_with, text_ends_with}

pub data ExpressionOperator : Type 0 where
  equal not_equal greater_than less_than greater_than_or_equal less_than_or_equal :
      ExpressionOperator
  is_null_ not_null is_true is_false contains not_contains : ExpressionOperator
  is_empty is_not_empty in_ not_in : ExpressionOperator
  has_key not_has_key has_value_ not_has_value starts_with ends_with : ExpressionOperator

-- serde_json: `==` on values, which is symmetric, and `as_f64` on numbers; and the order of f64.
pub record Numbers (N : Type 0) : Type 1 where
  pub value_eq : Json N → Json N → Bool
  pub value_eq_sym : (a b : Json N) → value_eq a b ≡ value_eq b a
  pub F : Type 0
  pub as_f64 : N → Option F
  pub lt : F → F → Bool
  pub le : F → F → Bool

module _ {N : Type 0} (num : Numbers N) where
  open num use {value_eq, F, as_f64, lt, le}

  value_as_f64 : Json N → Option F
  unfolding as_number
  value_as_f64 (number n) = as_f64 n
  value_as_f64 _ = none

  -- `if let (Some(lf), Some(rf))`, with `false` where a side is no number.
  compare_floats : (F → F → Bool) → Option F → Option F → Bool
  compare_floats test (some lf) (some rf) = test lf rf
  compare_floats test _ _ = false

  compare_numbers : (F → F → Bool) → Json N → Option (Json N) → Bool
  unfolding value_as_f64 compare_floats
  compare_numbers test left none = false
  compare_numbers test left (some r) = compare_floats test (value_as_f64 left) (value_as_f64 r)

  contains_value : Json N → Option (Json N) → Bool
  contains_value (str ls) (some (str rs)) = text_contains ls rs
  contains_value (array la) (some r) = items_contain value_eq la r
  contains_value _ _ = false

  not_contains_value : Json N → Option (Json N) → Bool
  not_contains_value (str ls) (some (str rs)) = not (text_contains ls rs)
  not_contains_value (array la) (some r) = not (items_contain value_eq la r)
  not_contains_value _ _ = false

  empty_value : Json N → Bool
  empty_value null = true
  empty_value (str s) = s == ""
  empty_value (array a) = is_empty_array a
  empty_value (object o) = is_empty_object o
  empty_value _ = false

  not_empty_value : Json N → Bool
  not_empty_value null = false
  not_empty_value (str s) = not (s == "")
  not_empty_value (array a) = not (is_empty_array a)
  not_empty_value (object o) = not (is_empty_object o)
  not_empty_value _ = false

  in_value : Json N → Option (Json N) → Bool
  in_value left (some (array ra)) = items_contain value_eq ra left
  in_value _ _ = false

  not_in_value : Json N → Option (Json N) → Bool
  not_in_value left (some (array ra)) = not (items_contain value_eq ra left)
  not_in_value _ _ = false

  has_key_value : Json N → Option (Json N) → Bool
  has_key_value (object lo) (some (str rs)) = is_some_and (get rs lo) (λ _. true)
  has_key_value _ _ = false

  not_has_key_value : Json N → Option (Json N) → Bool
  not_has_key_value (object lo) (some (str rs)) = not (is_some_and (get rs lo) (λ _. true))
  not_has_key_value _ _ = false

  has_value_value : Json N → Option (Json N) → Bool
  has_value_value (object lo) (some r) = has_value value_eq lo r
  has_value_value _ _ = false

  not_has_value_value : Json N → Option (Json N) → Bool
  not_has_value_value (object lo) (some r) = not (has_value value_eq lo r)
  not_has_value_value _ _ = false

  starts_with_value : Json N → Option (Json N) → Bool
  starts_with_value (str ls) (some (str rs)) = text_starts_with ls rs
  starts_with_value _ _ = false

  ends_with_value : Json N → Option (Json N) → Bool
  ends_with_value (str ls) (some (str rs)) = text_ends_with ls rs
  ends_with_value _ _ = false

  unfoldable pub compare_values : ExpressionOperator → Json N → Option (Json N) → Bool
  unfolding compare_numbers contains_value not_contains_value empty_value not_empty_value in_value
      not_in_value has_key_value not_has_key_value has_value_value not_has_value_value
      starts_with_value ends_with_value is_null as_bool
  compare_values equal left right = is_some_and right (λ r. value_eq r left)
  compare_values not_equal left right = is_some_and right (λ r. not (value_eq left r))
  compare_values greater_than left right = compare_numbers (λ a b. lt b a) left right
  compare_values less_than left right = compare_numbers lt left right
  compare_values greater_than_or_equal left right = compare_numbers (λ a b. le b a) left right
  compare_values less_than_or_equal left right = compare_numbers le left right
  compare_values is_null_ left right = is_null left
  compare_values not_null left right = not (is_null left)
  compare_values is_true left right = unwrap_or (as_bool left) false
  compare_values is_false left right = not (unwrap_or (as_bool left) true)
  compare_values contains left right = contains_value left right
  compare_values not_contains left right = not_contains_value left right
  compare_values is_empty left right = empty_value left
  compare_values is_not_empty left right = not_empty_value left
  compare_values in_ left right = in_value left right
  compare_values not_in left right = not_in_value left right
  compare_values has_key left right = has_key_value left right
  compare_values not_has_key left right = not_has_key_value left right
  compare_values has_value_ left right = has_value_value left right
  compare_values not_has_value left right = not_has_value_value left right
  compare_values starts_with left right = starts_with_value left right
  compare_values ends_with left right = ends_with_value left right
