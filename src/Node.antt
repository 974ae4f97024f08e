-- ===== src/Node.antt =====
-- manifest_meta/src/node/common.rs, definition.rs and subflow.rs: the nodes of a flow.
use oocana_rust.Base.{
  ℕ, suc, ◌^◌, ◌-◌, String, Bool, true, false, not, Option, none, some, List, [], ◌∷◌,
  if◌then◌else◌, is_empty, is_some_and,
}
use oocana_rust.Base.Map
use oocana_rust.Base.Map.{Map}
use oocana_rust.Json.{Json, null}
use oocana_rust.Manifest.{InputHandle, OutputHandle, InputDefPatch}
use oocana_rust.Condition.{ConditionBlock}

pub data ValueState (N : Type 0) : Type 0 where
  not_provided : ValueState N
  explicit_null : ValueState N
  value : Json N → ValueState N

module _ {N : Type 0} where
  unfoldable pub is_provided : ValueState N → Bool
  is_provided not_provided = false
  is_provided _ = true

  unfoldable pub has_value : ValueState N → Bool
  has_value (value v) = true
  has_value _ = false

  unfoldable pub into_option : ValueState N → Option (Json N)
  into_option (value v) = some v
  into_option _ = none

  unfoldable pub into_json_or_null : ValueState N → Json N
  into_json_or_null (value v) = v
  into_json_or_null _ = null

  -- From<Option<Option<JsonValue>>> for ValueState
  unfoldable pub from_double_option : Option (Option (Json N)) → ValueState N
  from_double_option none = not_provided
  from_double_option (some none) = explicit_null
  from_double_option (some (some v)) = value v

  -- From<ValueState> for Option<Option<JsonValue>>
  unfoldable pub into_double_option : ValueState N → Option (Option (Json N))
  into_double_option not_provided = none
  into_double_option explicit_null = some none
  into_double_option (value v) = some (some v)

pub data HandleSource : Type 0 where
  flow_input : (input_handle : String) → HandleSource
  node_output : (node_id output_handle : String) → HandleSource

pub data HandleFrom (N : Type 0) : Type 0 where
  from_flow_input : (input_handle : String) → HandleFrom N
  from_node_output : (node_id output_handle : String) → HandleFrom N
  from_value : ValueState N → HandleFrom N

pub data HandleTo : Type 0 where
  to_flow_output : (output_handle : String) → HandleTo
  to_node_input : (node_id input_handle : String) → HandleTo

pub record NodeInput (N : Type 0) : Type 0 where
  pub def : InputHandle N
  pub patch : Option (List InputDefPatch)
  pub value : ValueState N
  pub sources : Option (List HandleSource)
  pub serialize_for_cache : Bool

-- An i32: `neg n` is -(n + 1).
pub data Int32 : Type 0 where
  pos neg : ℕ → Int32

-- `as usize`, on a machine of 64 bits.
abbrev pub as_usize : Int32 → ℕ
as_usize (pos n) = n
as_usize (neg n) = 2 ^ 64 - suc n

-- The fields that the macro `extend_node_common_field` gives to every kind of node. Of these the
-- weight in the progress of the flow is left out, and of the kinds their blocks.
pub record NodeCommon (N : Type 0) : Type 0 where
  pub node_id : String
  pub description : Option String
  pub timeout : Option ℕ
  pub to : Option (Map (List HandleTo))
  pub inputs : Map (NodeInput N)
  pub concurrency : Int32

pub data Node (N : Type 0) : Type 0 where
  task flow slot service : NodeCommon N → Node N
  condition : ConditionBlock N → Option (OutputHandle N) → NodeCommon N → Node N

module _ {N : Type 0} where
  abbrev pub common : Node N → NodeCommon N
  common (task c) = c
  common (flow c) = c
  common (slot c) = c
  common (service c) = c
  common (condition b o c) = c

  abbrev pub node_id : Node N → String
  node_id n = (common n).node_id

  abbrev pub concurrency : Node N → Int32
  concurrency n = (common n).concurrency

  abbrev pub tos : Node N → Option (Map (List HandleTo))
  tos n = (common n).to

  abbrev pub inputs : Node N → Map (NodeInput N)
  inputs n = (common n).inputs

  collect_defs : Map (InputHandle N) → Map (NodeInput N) → Map (InputHandle N)
  collect_defs defs [] = defs
  collect_defs defs ((handle, i) ∷ rest) = collect_defs (Map.insert handle i.def defs) rest

  unfoldable pub inputs_def : Node N → Option (Map (InputHandle N))
  unfolding collect_defs
  inputs_def n = let defs = collect_defs [] (inputs n) in if is_empty defs then none else some defs

  -- `input.sources.as_ref().is_none_or(|f| f.is_empty())`, and its negation
  abbrev pub no_sources : NodeInput N → Bool
  no_sources i = elim i.sources [ none ↦ true | some f ↦ is_empty f ]

  unfoldable pub has_connection : Node N → String → Bool
  has_connection n handle =
      is_some_and (Map.get handle (inputs n)) (λ i. is_some_and i.sources (λ f. not (is_empty f)))
