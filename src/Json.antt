-- ===== src/Json.antt =====
-- serde_json::Value, which the program's values are. Its numbers are a parameter; an object is the
-- list of its members.
use oocana_rust.Base.{String, Bool, true, false, Option, none, some, ◌||◌, ◌==◌, if◌then◌else◌}

mutual
  pub data Json (N : Type 0) : Type 0 where
    null : Json N
    boolean : Bool → Json N
    number : N → Json N
    str : String → Json N
    array : Items N → Json N
    object : Members N → Json N

  pub data Items (N : Type 0) : Type 0 where
    nil : Items N
    cons : Json N → Items N → Items N

  pub data Members (N : Type 0) : Type 0 where
    end : Members N
    member : String → Json N → Members N → Members N

module _ {N : Type 0} where
  unfoldable pub is_null : Json N → Bool
  is_null null = true
  is_null _ = false

  unfoldable pub as_bool : Json N → Option Bool
  as_bool (boolean b) = some b
  as_bool _ = none

  unfoldable pub as_str : Json N → Option String
  as_str (str s) = some s
  as_str _ = none

  unfoldable pub as_number : Json N → Option N
  as_number (number n) = some n
  as_number _ = none

  unfoldable pub as_array : Json N → Option (Items N)
  as_array (array xs) = some xs
  as_array _ = none

  unfoldable pub as_object : Json N → Option (Members N)
  as_object (object ms) = some ms
  as_object _ = none

  -- serde_json::Map::get
  unfoldable pub get : String → Members N → Option (Json N)
  get k end = none
  get k (member j v ms) = if j == k then some v else get k ms

-- slice::contains on the items of an array, and `values().any(|v| v == r)` on an object.
module _ {N : Type 0} (eq : Json N → Json N → Bool) where
  unfoldable pub items_contain : Items N → Json N → Bool
  items_contain nil v = false
  items_contain (cons x xs) v = eq x v || items_contain xs v

  unfoldable pub has_value : Members N → Json N → Bool
  has_value end v = false
  has_value (member k x ms) v = eq x v || has_value ms v

unfoldable pub is_empty_object : {N : Type 0} → Members N → Bool
is_empty_object end = true
is_empty_object (member k v ms) = false

unfoldable pub is_empty_array : {N : Type 0} → Items N → Bool
is_empty_array nil = true
is_empty_array (cons x xs) = false
