-- ===== src/Samples/Requests.antt =====
-- A request for a subflow with one input of its own and one with a default.
use oocana_rust.Base.{
  ℕ, String, true, false, Option, none, some, [], ◌∷◌, ◌≡◌, ◌≢◌, refl, arith, eq_iff, or_else, inr,
}
use oocana_rust.Base.Map
use oocana_rust.Base.Map.{Map, IsDistinct}
use oocana_rust.Json.{Json, null, number, object, member, end, as_object, get}
use oocana_rust.Manifest.{InputHandle}
use oocana_rust.Request.{
  flow, RunBlockSuccess, accepted, default_value, payload_inputs, parse_run_block_request,
}
use oocana_rust.Request.Accepted.{IsComplete, parse_run_block_request-IsComplete}
use oocana_rust.Request.Enough.{flow_request_accepted}
use oocana_rust.Samples.Flows.{handle_def}

-- Every value is valid, and nothing is an additional handle.
abbrev all_valid : Json ℕ → Json ℕ → Option String
all_valid schema v = none

abbrev no_handle : Json ℕ → Option (InputHandle ℕ)
no_handle v = none

abbrev given : InputHandle ℕ
given = handle_def "x" false

abbrev defaulted : InputHandle ℕ
defaulted = record (handle_def "y" false) { value = some none }

abbrev defs : Map (InputHandle ℕ)
defs = ("x", given) ∷ ("y", defaulted) ∷ []

abbrev payload : Json ℕ
payload = object (member "inputs" (object (member "x" (number 3) end)) end)

defs-IsDistinct : IsDistinct defs
unfolding Map.get
defs-IsDistinct = (refl, (refl, tt))

x_given : Map.get "x" (payload_inputs all_valid payload) ≡ some (number 3)
unfolding payload_inputs Map.get Map.insert as_object get
x_given = refl

all_filled :
    (h : String) (def : InputHandle ℕ)
    → Map.get h defs ≡ some def
    → or_else (Map.get h (payload_inputs all_valid payload)) (default_value def) ≢ none
unfolding Map.get default_value
all_filled h def here = ground (arith, eq_iff "x" h, eq_iff "y" h, x_given)

flow_request_accepted_example :
    (s : RunBlockSuccess ℕ) × (parse_run_block_request all_valid no_handle false "sub" "job" payload
        (some (flow (some defs)))
      ≡ accepted s)
flow_request_accepted_example =
    flow_request_accepted all_valid no_handle "sub" "job" payload defs defs-IsDistinct all_filled

abbrev success : RunBlockSuccess ℕ
success = record {
  inputs =
      ("x", record { value = number 3; is_json_serializable = true })
      ∷ ("y", record { value = null; is_json_serializable = true })
      ∷ [];
  inputs_def = some defs;
  job_id = "job";
  node_id = "run_block::sub";
}

strictly_accepted :
    parse_run_block_request all_valid no_handle true "sub" "job" payload (some (flow (some defs)))
    ≡ accepted success
unfolding parse_run_block_request Map.get Map.insert as_object get default_value
strictly_accepted = refl

parse_run_block_request-IsComplete_example : IsComplete all_valid no_handle true defs success
parse_run_block_request-IsComplete_example =
    parse_run_block_request-IsComplete all_valid no_handle true "sub" "job" payload defs
      (flow (some defs)) success (inr refl) strictly_accepted
