-- ===== src/Output.antt =====
-- utils/src/output.rs: a value that a block produced, and which values may be kept in a cache.
use oocana_rust.Base.{
  String, Bool, true, false, Option, none, some, ◌==◌, if◌then◌else◌, is_some_and, ◌>>=◌,
}
use oocana_rust.Json.{Json, as_object, as_str, get}

pub data CustomTypes : Type 0 where
  plain oomol_var oomol_secret oomol_bin unknown : CustomTypes

pub record OutputValue (N : Type 0) : Type 0 where
  pub value : Json N
  pub is_json_serializable : Bool

abbrev pub oomol_type_key : String
oomol_type_key = "__OOMOL_TYPE__"

custom_type : String → CustomTypes
custom_type t =
    if t == "oomol/var"
    then oomol_var
    else if t == "oomol/secret"
    then oomol_secret
    else if t == "oomol/bin"
    then oomol_bin
    else unknown

module _ {N : Type 0} where
  unfoldable pub value_type : OutputValue N → CustomTypes
  unfolding custom_type as_object as_str get
  value_type v = elim (as_object v.value >>= λ obj. get oomol_type_key obj >>= as_str) [
    | none ↦ plain
    | some t ↦ custom_type t
  ]

  unfoldable pub serialize_path : OutputValue N → Option String
  unfolding as_object as_str get
  serialize_path v = as_object v.value >>= λ obj. get "serialize_path" obj >>= as_str

  -- `exists` answers whether the file is there.
  deserializable_as : (exists : String → Bool) → OutputValue N → CustomTypes → Bool
  unfolding serialize_path
  deserializable_as exists v plain = true
  deserializable_as exists v oomol_secret = false
  deserializable_as exists v _ = is_some_and (serialize_path v) exists

  unfoldable pub deserializable : (exists : String → Bool) → OutputValue N → Bool
  unfolding value_type deserializable_as
  deserializable exists v = deserializable_as exists v (value_type v)

  maybe_serializable_as : OutputValue N → CustomTypes → Bool
  unfolding serialize_path
  maybe_serializable_as v plain = true
  maybe_serializable_as v oomol_secret = false
  maybe_serializable_as v _ = is_some_and (serialize_path v) (λ _. true)

  unfoldable pub maybe_serializable : OutputValue N → Bool
  unfolding value_type maybe_serializable_as
  maybe_serializable v =
      if v.is_json_serializable then true else maybe_serializable_as v (value_type v)
