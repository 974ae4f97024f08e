-- ===== src/Request.antt =====
-- runtime/src/block_job/input.rs and runtime/src/flow_job/block_request.rs: the inputs of a job that
-- a block asks for.
pub mod Accepted
pub mod Enough
use Prim.Native.String.{◌++◌ as text_append}
use oocana_rust.Base.{
  String, Bool, true, false, not, Option, none, some, List, [], ◌∷◌, if◌then◌else◌, ◌>>=◌,
  is_some_and, is_empty, unwrap_or, map_option,
}
use oocana_rust.Base.Map
use oocana_rust.Base.Map.{Map}
use oocana_rust.Json.{Json, Items, nil, cons, Members, end, member, null, as_object, as_array, get}
use oocana_rust.Output.{OutputValue}
use oocana_rust.Manifest.{InputHandle}
use oocana_rust.InputValues.{InputValues}

-- What the request can name: a block that is found and runs with these inputs, or one that does not.
pub data RequestedBlock (N : Type 0) : Type 0 where
  task flow : (inputs_def : Option (Map (InputHandle N))) → RequestedBlock N
  other : RequestedBlock N

-- RunBlockSuccessResponse, without the block itself, its scope and its stack.
pub record RunBlockSuccess (N : Type 0) : Type 0 where
  pub inputs : InputValues N
  pub inputs_def : Option (Map (InputHandle N))
  pub job_id : String
  pub node_id : String

-- Of an error message, what it tells.
pub data Refusal : Type 0 where
  not_read : Refusal
  missing_inputs : List String → Refusal
  invalid_inputs : Map String → Refusal
  not_runnable : Refusal

pub data Response (N : Type 0) : Type 0 where
  accepted : RunBlockSuccess N → Response N
  rejected : Refusal → Response N

module _ {N : Type 0} where
  -- What stands in for a missing value: the default of the handle, or null where it is nullable.
  unfoldable pub default_value : InputHandle N → Option (Json N)
  default_value def = elim def.value [
    | some v ↦ some (unwrap_or v null)
    | none ↦ if unwrap_or def.nullable false then some null else none
  ]

  unfoldable pub add_default : String → InputHandle N → Map (Json N) → Map (Json N)
  unfolding default_value
  add_default handle def values = elim (Map.get handle values) [
    | some v ↦ values
    | none ↦ elim (default_value def) [ none ↦ values | some v ↦ Map.insert handle v values ]
  ]

  unfoldable pub add_defaults : Map (InputHandle N) → Map (Json N) → Map (Json N)
  unfolding add_default
  add_defaults [] values = values
  add_defaults ((handle, def) ∷ rest) values = add_defaults rest (add_default handle def values)

  unfoldable pub fulfill_nullable_and_default :
      Map (Json N) → Option (Map (InputHandle N)) → Map (Json N)
  unfolding add_defaults
  fulfill_nullable_and_default values none = values
  fulfill_nullable_and_default values (some inputs_def) = add_defaults inputs_def values

  -- jsonschema::validate: none if the value is valid, else the error.
  module _ (validate : Json N → Json N → Option String) where
    unfoldable pub input_error :
        Option (Map (InputHandle N)) → String → OutputValue N → Option String
    input_error inputs_def handle v =
        inputs_def >>= Map.get handle >>= λ def. def.json_schema >>= λ s. validate s v.value

    unfoldable pub validate_inputs : Option (Map (InputHandle N)) → InputValues N → Map String
    unfolding input_error
    validate_inputs inputs_def [] = []
    validate_inputs inputs_def ((handle, v) ∷ values) =
        let errors = validate_inputs inputs_def values in
        elim (input_error inputs_def handle v) [ none ↦ errors | some e ↦ (handle, e) ∷ errors ]

    collect_members : Map (Json N) → Members N → Map (Json N)
    collect_members found end = found
    collect_members found (member k v ms) = collect_members (Map.insert k v found) ms

    unfoldable pub payload_inputs : Json N → Map (Json N)
    unfolding collect_members as_object get
    payload_inputs payload =
        unwrap_or
          (map_option (collect_members []) (as_object payload >>= get "inputs" >>= as_object)) []

    -- serde_json::from_value::<InputHandle>: none if the value is no handle.
    module _ (read_handle : Json N → Option (InputHandle N)) where
      mark_additional : InputHandle N → InputHandle N
      mark_additional input = record input { remember = false; is_additional = true }

      add_handle : Json N → Map (InputHandle N) → Map (InputHandle N)
      unfolding mark_additional
      add_handle v defs = elim (read_handle v) [
        | none ↦ defs
        | some input ↦ Map.insert input.handle (mark_additional input) defs
      ]

      -- `collect` of the additional handles and `extend` by them.
      add_handles : Items N → Map (InputHandle N) → Map (InputHandle N)
      unfolding add_handle
      add_handles nil defs = defs
      add_handles (cons v vs) defs = add_handles vs (add_handle v defs)

      unfoldable pub with_additional :
          Json N → Option (Map (InputHandle N)) → Option (Map (InputHandle N))
      unfolding add_handles as_object as_array get
      with_additional payload inputs_def =
          map_option
            (λ defs.
              elim (as_object payload >>= get "additional_inputs_def" >>= as_array)
                as (λ _. Map (InputHandle N)) [ none ↦ defs | some vs ↦ add_handles vs defs ])
            inputs_def

      wrap_values : Map (Json N) → InputValues N
      wrap_values [] = []
      wrap_values ((handle, v) ∷ values) =
          (handle, record { value = v; is_json_serializable = true }) ∷ wrap_values values

      missing_of : Map (InputHandle N) → InputValues N → List String
      missing_of [] values = []
      missing_of ((handle, def) ∷ rest) values =
          let missing = missing_of rest values in
          if Map.contains_key handle values then missing else handle ∷ missing

      unfoldable pub missing_handles : Option (Map (InputHandle N)) → InputValues N → List String
      unfolding missing_of
      missing_handles none values = []
      missing_handles (some defs) values = missing_of defs values

      -- The tests of the values: `block_def` has the inputs of the block, `job_def` those of the job.
      unfoldable pub accept :
          Bool
          → String
          → String
          → Option (Map (InputHandle N))
          → Option (Map (InputHandle N))
          → Map (Json N)
          → Response N
      unfolding fulfill_nullable_and_default wrap_values missing_handles validate_inputs
      accept strict block job_id block_def job_def values =
          let inputs = wrap_values (fulfill_nullable_and_default values job_def) in
          let missing = missing_handles block_def inputs in
          let invalid = if strict then validate_inputs block_def inputs else [] in
          if not (is_empty missing)
          then rejected (missing_inputs missing)
          else if not (is_empty invalid)
          then rejected (invalid_inputs invalid)
          else accepted (record {
            inputs = inputs;
            inputs_def = job_def;
            job_id = job_id;
            node_id = text_append "run_block::" block;
          })

      -- `found` is what read_flow_or_block gives for the name of the block.
      unfoldable pub parse_run_block_request :
          Bool → String → String → Json N → Option (RequestedBlock N) → Response N
      unfolding accept with_additional payload_inputs
      parse_run_block_request strict block job_id payload none = rejected not_read
      parse_run_block_request strict block job_id payload (some other) = rejected not_runnable
      parse_run_block_request strict block job_id payload (some (task inputs_def)) =
          accept strict block job_id inputs_def (with_additional payload inputs_def)
            (payload_inputs payload)
      parse_run_block_request strict block job_id payload (some (flow inputs_def)) =
          accept strict block job_id inputs_def inputs_def (payload_inputs payload)
