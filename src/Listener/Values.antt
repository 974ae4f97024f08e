-- ===== src/Listener/Values.antt =====
-- runtime/src/block_job/listener.rs with utils/src/output.rs: which of the values that a listener
-- passes on may be cached.
use oocana_rust.Base.{String, true, false, Option, none, ◌≡◌, refl, arith, Bool-cases, inl, inr}
use oocana_rust.Json
use oocana_rust.Json.{Json, as_object, as_str}
use oocana_rust.Output.{value_type, maybe_serializable}
use oocana_rust.Listener.{OutputHandles, has_type_key, is_json_serializable, output_value}

module _ {N : Type 0} (handle : String) (value : Json N) where
  -- What is not marked with a type of its own may be cached, whatever the schema of the handle is.
  unmarked :
      (outputs_def : Option (OutputHandles N))
      → has_type_key value ≡ false
      → maybe_serializable (output_value outputs_def handle value) ≡ true
  unfolding maybe_serializable output_value value_type as_object Json.get
  unmarked outputs_def plain = ground arith

  marked :
      (outputs_def : Option (OutputHandles N))
      → has_type_key value ≡ true
      → is_json_serializable handle value outputs_def ≡ false
  unfolding is_json_serializable
  marked outputs_def key = rw key refl

  marked_alike :
      (d : Option (OutputHandles N))
      → has_type_key value ≡ true
      → maybe_serializable (output_value d handle value)
        ≡ maybe_serializable (output_value none handle value)
  unfolding maybe_serializable output_value
  marked_alike d key = rw (marked d key, marked none key, maybe_serializable) refl

  -- The schemas of the outputs have no say in what is cached: a value that a listener passes on may
  -- be cached just as if no output had a schema, also where a schema says that the output is a
  -- secret or binary.
  pub schema_without_effect :
      (outputs_def : Option (OutputHandles N))
      → maybe_serializable (output_value outputs_def handle value)
        ≡ maybe_serializable (output_value none handle value)
  schema_without_effect outputs_def = elim (Bool-cases (has_type_key value)) [
    | inl key ↦ marked_alike outputs_def key
    | inr plain ↦ rw (unmarked outputs_def plain, unmarked none plain) refl
  ]
