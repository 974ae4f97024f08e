-- ===== src/Request/Enough.antt =====
-- runtime/src/flow_job/block_request.rs: when the inputs of a request are enough.
use Prim.Native.String.{◌++◌ as text_append}
use oocana_rust.Base.{
  String, true, false, Option, none, some, [], ◌∷◌, ◌≡◌, ◌≢◌, refl, arith, eq_iff, map_option,
  or_else, Option-cases, inl, inr,
}
use oocana_rust.Base.Map
use oocana_rust.Base.Map.{Map, IsDistinct}
use oocana_rust.Json.{Json}
use oocana_rust.Manifest.{InputHandle}
use oocana_rust.InputValues.{InputValues}
use oocana_rust.Request.{
  flow, RunBlockSuccess, accepted, default_value, fulfill_nullable_and_default, wrap_values,
  missing_of, missing_handles, accept, payload_inputs, parse_run_block_request,
}
use oocana_rust.Request.Accepted.{get-fulfill_nullable_and_default}

module _ {N : Type 0} (validate : Json N → Json N → Option String)
    (read_handle : Json N → Option (InputHandle N)) where
  get-wrap_values :
      (h : String) (values : Map (Json N))
      → Map.get h (wrap_values validate read_handle values)
        ≡ map_option (λ v. record { value = v; is_json_serializable = true }) (Map.get h values)
  unfolding wrap_values Map.get
  get-wrap_values h [] = refl
  get-wrap_values h ((k, v) ∷ values) = ground (arith, eq_iff k h, get-wrap_values h values)

  missing_of-empty :
      (defs : Map (InputHandle N)) (values : InputValues N)
      → IsDistinct defs
      → ((h : String) (def : InputHandle N) → Map.get h defs ≡ some def → Map.get h values ≢ none)
      → missing_of validate read_handle defs values ≡ []
  unfolding missing_of Map.get
  missing_of-empty [] values d all = refl
  missing_of-empty ((k, def) ∷ defs) values d all =
      let rest =
        missing_of-empty defs values d.1 (λ h x here. all h x (ground (arith, eq_iff k h, here))) in
      let first : Map.get k values ≢ none = all k def (ground (arith, eq_iff k k)) in
      elim (Option-cases (Map.get k values)) [
        | inl gone ↦ absurd (first gone)
        | inr (v, here) ↦ ground (arith, rest, here)
      ]

  -- A request for a subflow that is not strict is accepted if for each handle of the subflow's
  -- definition there is a value in the request or a default. No handle stands twice.
  pub flow_request_accepted :
      (block job_id : String) (payload : Json N) (defs : Map (InputHandle N))
      → IsDistinct defs
      → ((h : String) (def : InputHandle N)
          → Map.get h defs ≡ some def
          → or_else (Map.get h (payload_inputs validate payload)) (default_value def) ≢ none)
      → (s : RunBlockSuccess N) × (parse_run_block_request validate read_handle false block job_id
            payload
            (some (flow (some defs)))
          ≡ accepted s)
  unfolding parse_run_block_request accept missing_handles
  flow_request_accepted block job_id payload defs d enough =
      let values = payload_inputs validate payload in
      let inputs =
        wrap_values validate read_handle (fulfill_nullable_and_default values (some defs)) in
      let none_missing : missing_of validate read_handle defs inputs ≡ [] =
        missing_of-empty defs inputs d (λ h def here gone. enough h def here (
          ground (
            arith,
            get-wrap_values h (fulfill_nullable_and_default values (some defs)),
            get-fulfill_nullable_and_default h defs values d,
            here,
            gone,
          ))) in
      (
        record {
          inputs = inputs;
          inputs_def = some defs;
          job_id = job_id;
          node_id = text_append "run_block::" block;
        },
        rw none_missing refl,
      )
