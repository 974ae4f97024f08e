-- ===== src/Request/Accepted.antt =====
-- runtime/src/flow_job/block_request.rs: what an accepted request has, and when one is refused.
use oocana_rust.Base.{
  String, Bool, true, false, Option, none, some, [], ◌∷◌, ◌≡◌, ◌≢◌, refl, ◌∙◌, arith, ◌==◌, eq_iff,
  if◌then◌else◌, ◌>>=◌, is_empty, or_else, Option-cases, Bool-cases, ◌⊎◌, inl, inr,
}
use oocana_rust.Base.Map
use oocana_rust.Base.Map.{Map, IsDistinct, get-insert}
use oocana_rust.Json.{Json}
use oocana_rust.Output.{OutputValue}
use oocana_rust.Manifest.{InputHandle}
use oocana_rust.InputValues.{InputValues}
use oocana_rust.Request.{
  RequestedBlock, task, flow, RunBlockSuccess, accepted, default_value, add_default, add_defaults,
  fulfill_nullable_and_default, input_error, validate_inputs, wrap_values, missing_of,
  missing_handles, accept, with_additional, payload_inputs, parse_run_block_request,
}

module _ {N : Type 0} where
  get-add_default :
      (h k : String) (def : InputHandle N) (values : Map (Json N))
      → Map.get h (add_default k def values)
        ≡ (if k == h then or_else (Map.get h values) (default_value def) else Map.get h values)
  unfolding add_default default_value
  get-add_default h k def values = elim (Option-cases (default_value def)) [
    | inl lacks ↦ ground (arith, eq_iff k h, lacks)
    | inr (v, has) ↦ ground (arith, eq_iff k h, get-insert k h v values, has)
  ]

  get-add_defaults :
      (h : String) (defs : Map (InputHandle N)) (values : Map (Json N))
      → IsDistinct defs
      → Map.get h (add_defaults defs values)
        ≡ or_else (Map.get h values) (Map.get h defs >>= default_value)
  unfolding add_defaults Map.get
  get-add_defaults h [] values d = ground arith
  get-add_defaults h ((k, def) ∷ defs) values d = ground (
    arith,
    eq_iff k h,
    get-add_defaults h defs (add_default k def values) d.1,
    get-add_default h k def values,
  )

  pub get-fulfill_nullable_and_default :
      (h : String) (defs : Map (InputHandle N)) (values : Map (Json N))
      → IsDistinct defs
      → Map.get h (fulfill_nullable_and_default values (some defs))
        ≡ or_else (Map.get h values) (Map.get h defs >>= default_value)
  unfolding fulfill_nullable_and_default
  get-fulfill_nullable_and_default h defs values d = get-add_defaults h defs values d

module _ {N : Type 0} (validate : Json N → Json N → Option String)
    (read_handle : Json N → Option (InputHandle N)) where
  -- A handle that is defined and has no value is among the missing ones.
  missing_of-nonempty :
      (h : String) (def : InputHandle N) (defs : Map (InputHandle N)) (values : InputValues N)
      → Map.get h defs ≡ some def
      → Map.get h values ≡ none
      → is_empty (missing_of validate read_handle defs values) ≡ false
  unfolding missing_of Map.get
  missing_of-nonempty h def [] values here gone = cc
  missing_of-nonempty h def ((k, d) ∷ defs) values here gone =
      ground (arith, eq_iff k h, missing_of-nonempty h def defs values)

  -- The error of a value is that of the schema of its handle.
  input_error-schema :
      (defs : Map (InputHandle N)) (h : String) (def : InputHandle N) (schema : Json N)
      (v : OutputValue N)
      → Map.get h defs ≡ some def
      → def.json_schema ≡ some schema
      → input_error validate (some defs) h v ≡ validate schema v.value
  unfolding input_error
  input_error-schema defs h def schema v defined typed = rw (defined, typed) refl

  -- A value with an error makes the map of errors nonempty.
  validate_inputs-nonempty :
      (h : String) (v : OutputValue N) (e : String) (defs : Option (Map (InputHandle N)))
      (values : InputValues N)
      → Map.get h values ≡ some v
      → input_error validate defs h v ≡ some e
      → is_empty (validate_inputs validate defs values) ≡ false
  unfolding validate_inputs Map.get
  validate_inputs-nonempty h v e defs [] here bad = cc
  validate_inputs-nonempty h v e defs ((k, w) ∷ values) here bad = elim (Bool-cases (k == h)) [
    | inl same ↦ ground (arith, eq_iff k h, bad)
    | inr rest ↦ elim (Option-cases (input_error validate defs k w)) [
      | inl fine ↦ ground (arith, validate_inputs-nonempty h v e defs values, fine)
      | inr (x, wrong) ↦ ground (arith, wrong)
    ]
  ]

  -- What is promised of an accepted job, for the definition of its block. Of the additional handles
  -- that a request brings, which are not in this definition, nothing is promised.
  pub record IsComplete (strict : Bool) (defs : Map (InputHandle N)) (s : RunBlockSuccess N)
      : Type 0 where
    pub has_all :
        (h : String) (def : InputHandle N) → Map.get h defs ≡ some def → Map.get h s.inputs ≢ none
    pub valid :
        (h : String) (def : InputHandle N) (schema : Json N) (v : OutputValue N)
        → strict ≡ true
        → Map.get h defs ≡ some def
        → def.json_schema ≡ some schema
        → Map.get h s.inputs ≡ some v
        → validate schema v.value ≡ none

  accept_tests :
      (strict : Bool) (block job_id : String) (defs : Map (InputHandle N))
      (job_def : Option (Map (InputHandle N))) (values : Map (Json N)) (s : RunBlockSuccess N)
      → accept validate read_handle strict block job_id (some defs) job_def values ≡ accepted s
      → (is_empty (missing_of validate read_handle defs s.inputs) ≡ true)
        × (is_empty (if strict then validate_inputs validate (some defs) s.inputs else []) ≡ true)
  unfolding accept missing_handles
  accept_tests strict block job_id defs job_def values s e =
      let inputs = wrap_values validate read_handle (fulfill_nullable_and_default values job_def) in
      let missing = missing_of validate read_handle defs inputs in
      let invalid = if strict then validate_inputs validate (some defs) inputs else [] in
      elim (Bool-cases (is_empty missing)) [
        | inl full ↦ elim (Bool-cases (is_empty invalid)) [
          | inl fine ↦ ground (arith, full, fine)
          | inr bad ↦ absurd (ground (arith, full, bad))
        ]
        | inr lacks ↦ absurd (ground (arith, lacks))
      ]

  accept-IsComplete :
      (strict : Bool) (block job_id : String) (defs : Map (InputHandle N))
      (job_def : Option (Map (InputHandle N))) (values : Map (Json N)) (s : RunBlockSuccess N)
      → accept validate read_handle strict block job_id (some defs) job_def values ≡ accepted s
      → IsComplete strict defs s
  accept-IsComplete strict block job_id defs job_def values s e =
      let (full, fine) = accept_tests strict block job_id defs job_def values s e in
      record {
        has_all = λ h def here gone.
            ground (arith, missing_of-nonempty h def defs s.inputs here gone, full);
        valid = λ h def schema v on defined typed here.
            elim (Option-cases (validate schema v.value)) [
              | inl valid_ ↦ valid_
              | inr (x, bad) ↦ absurd (
                  ground (
                    arith,
                    validate_inputs-nonempty h v x (some defs) s.inputs here
                        (input_error-schema defs h def schema v defined typed ∙ bad),
                    fine,
                    on,
                  ))
            ];
      }

  -- If the request for a block is accepted, the job has a value at each handle of the block's
  -- definition; and if it is strict, each of its values at such a handle is valid for the schema of
  -- the handle, if it has one.
  pub parse_run_block_request-IsComplete :
      (strict : Bool) (block job_id : String) (payload : Json N) (defs : Map (InputHandle N))
      (found : RequestedBlock N) (s : RunBlockSuccess N)
      → ((found ≡ task (some defs)) ⊎ (found ≡ flow (some defs)))
      → parse_run_block_request validate read_handle strict block job_id payload (some found)
        ≡ accepted s
      → IsComplete strict defs s
  unfolding parse_run_block_request
  parse_run_block_request-IsComplete strict block job_id payload defs found s (inl e) h =
      accept-IsComplete strict block job_id defs
        (with_additional validate read_handle payload (some defs)) (payload_inputs validate payload)
        s (rw e at h)
  parse_run_block_request-IsComplete strict block job_id payload defs found s (inr e) h =
      accept-IsComplete strict block job_id defs (some defs) (payload_inputs validate payload) s
        (rw e at h)
