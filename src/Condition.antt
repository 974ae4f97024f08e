-- ===== src/Condition.antt =====
-- manifest_reader/src/manifest/block/condition.rs: the operators of a condition block, and
-- manifest_meta/src/condition.rs: which output handle a condition block chooses.
mod Text
pub mod Operator
pub mod Negation
pub mod Evaluate
use oocana_rust.Base.{
  String, Bool, true, false, not, ◌&&◌, Option, none, some, List, [], ◌∷◌, if◌then◌else◌, unwrap_or,
  is_empty, any, all,
}
use oocana_rust.Base.Map
use oocana_rust.Base.Map.{Map}
use oocana_rust.Json.{Json, null}
use Operator.{ExpressionOperator, Numbers, compare_values}

pub data LogicalOperator : Type 0 where
  and_ or_ : LogicalOperator

pub record ConditionExpression (N : Type 0) : Type 0 where
  pub input_handle : String
  pub operator : ExpressionOperator
  pub value : Option (Json N)
  pub description : Option String

pub record ConditionHandleDef (N : Type 0) : Type 0 where
  pub handle : String
  pub description : Option String
  pub logical : Option LogicalOperator
  pub expressions : List (ConditionExpression N)

pub record DefaultConditionHandleDef : Type 0 where
  pub handle : String
  pub description : Option String

pub record ConditionBlock (N : Type 0) : Type 0 where
  pub description : Option String
  pub cases : List (ConditionHandleDef N)
  pub default : Option DefaultConditionHandleDef

-- The block as the manifest gives it: the cases may be absent.
pub record ManifestConditionBlock (N : Type 0) : Type 0 where
  pub description : Option String
  pub cases : Option (List (ConditionHandleDef N))
  pub default : Option DefaultConditionHandleDef

pub from_manifest : {N : Type 0} → ManifestConditionBlock N → ConditionBlock N
from_manifest m = record {
  description = m.description;
  cases = unwrap_or m.cases [];
  default = m.default;
}

module _ {N : Type 0} (num : Numbers N) where
  eval : Map (Json N) → ConditionExpression N → Bool
  eval input_map expr =
      compare_values num expr.operator (unwrap_or (Map.get expr.input_handle input_map) null)
        expr.value

  combine : LogicalOperator → Map (Json N) → List (ConditionExpression N) → Bool
  unfolding eval
  combine and_ input_map = all (eval input_map)
  combine or_ input_map = any (eval input_map)

  unfoldable pub is_match : ConditionHandleDef N → Map (Json N) → Bool
  unfolding combine
  is_match case input_map =
      if is_empty case.expressions
      then false
      else combine (unwrap_or case.logical or_) input_map case.expressions

  unfoldable pub first_match :
      List (ConditionHandleDef N) → Option DefaultConditionHandleDef → Map (Json N) → Option String
  first_match [] none value_map = none
  first_match [] (some d) value_map = some d.handle
  first_match (c ∷ cases) default value_map =
      if is_match c value_map then some c.handle else first_match cases default value_map

  unfoldable pub evaluate : ConditionBlock N → Map (Json N) → Option String
  unfolding first_match
  evaluate block value_map = first_match block.cases block.default value_map
