-- ===== src/Manifest.antt =====
-- manifest_reader/src/manifest/block/handle.rs, node/input_from.rs and node/value.rs: handles, and
-- where a manifest says that a node's inputs come from.
use oocana_rust.Base.{
  ℕ, String, Bool, false, Option, none, some, List, [], ◌∷◌, ◌==◌, if◌then◌else◌, ◌>>=◌,
  is_some_and, is_empty,
}
use oocana_rust.Base.Map
use oocana_rust.Base.Map.{Map}
use oocana_rust.Json.{Json, as_object, as_str, get}

pub record InputHandle (N : Type 0) : Type 0 where
  pub handle : String
  pub description : Option String
  pub json_schema : Option (Json N)
  pub kind : Option String
  pub nullable : Option Bool
  pub value : Option (Option (Json N))
  pub remember : Bool
  pub is_additional : Bool
  pub deserialize_from_cache : Bool

pub record TempInputHandle (N : Type 0) : Type 0 where
  pub handle : String
  pub description : Option String
  pub json_schema : Option (Json N)
  pub kind : Option String
  pub nullable : Option Bool
  pub value : Option (Option (Json N))

pub record OutputHandle (N : Type 0) : Type 0 where
  pub handle : String
  pub description : Option String
  pub json_schema : Option (Json N)
  pub kind : Option String
  pub nullable : Option Bool
  pub is_additional : Bool
  pub serialize_for_cache : Bool

pub data MiddleInputHandle (N : Type 0) : Type 0 where
  input : InputHandle N → MiddleInputHandle N
  group : String → MiddleInputHandle N

module _ {N : Type 0} where
  or_null : Option (Option (Json N)) → Option (Option (Json N))
  or_null none = some none
  or_null (some v) = some v

  unfoldable pub from_temp : TempInputHandle N → InputHandle N
  unfolding or_null
  from_temp t = record {
    handle = t.handle;
    description = t.description;
    json_schema = t.json_schema;
    kind = t.kind;
    nullable = t.nullable;
    value = if is_some_and t.nullable (λ n. n) then or_null t.value else t.value;
    remember = false;
    is_additional = false;
    deserialize_from_cache = false;
  }

  pub new_input_handle : String → InputHandle N
  new_input_handle handle = record {
    handle = handle;
    description = none;
    json_schema = none;
    kind = none;
    nullable = none;
    value = none;
    remember = false;
    is_additional = false;
    deserialize_from_cache = false;
  }

  unfoldable pub is_variable : InputHandle N → Bool
  unfolding as_object as_str get
  is_variable h =
      is_some_and
        (h.json_schema >>= λ schema. as_object schema >>= λ o. get "contentMediaType" o >>= as_str)
        (λ t. t == "oomol/var")

  -- Collecting into a HashMap: a later handle of the same name replaces an earlier one.
  collect : Map (InputHandle N) → List (InputHandle N) → Map (InputHandle N)
  collect m [] = m
  collect m (h ∷ hs) = collect (Map.insert h.handle h m) hs

  unfoldable pub to_input_handles : List (InputHandle N) → Map (InputHandle N)
  unfolding collect
  to_input_handles inputs = collect [] inputs

  unfoldable pub only_inputs : List (MiddleInputHandle N) → List (InputHandle N)
  only_inputs [] = []
  only_inputs (input h ∷ hs) = h ∷ only_inputs hs
  only_inputs (group g ∷ hs) = only_inputs hs

  unfoldable pub convert_middle_inputs :
      Option (List (MiddleInputHandle N)) → Option (Map (InputHandle N))
  unfolding only_inputs to_input_handles
  convert_middle_inputs inputs = inputs >>= λ v. some (to_input_handles (only_inputs v))

pub data PathElement : Type 0 where
  key : String → PathElement
  index : ℕ → PathElement

pub data PatchPath : Type 0 where
  key : String → PatchPath
  array : List PathElement → PatchPath
  index : ℕ → PatchPath

pub record PatchSchema : Type 0 where
  pub content_media_type : String

pub record InputDefPatch : Type 0 where
  pub path : Option PatchPath
  pub schema : PatchSchema

pub record TmpInputDefSchema : Type 0 where
  pub content_media_type : Option String
  pub type_ : Option String

pub record TmpInputDefPatch : Type 0 where
  pub path : Option PatchPath
  pub schema : Option TmpInputDefSchema

pub record FlowHandleFrom : Type 0 where
  pub input_handle : String

pub record NodeHandleFrom : Type 0 where
  pub node_id : String
  pub output_handle : String

pub record TmpNodeInputFrom (N : Type 0) : Type 0 where
  pub handle : String
  pub value : Option (Option (Json N))
  pub schema_overrides : Option (List TmpInputDefPatch)
  pub from_flow : Option (List FlowHandleFrom)
  pub from_node : Option (List NodeHandleFrom)
  pub serialize_for_cache : Bool

pub record NodeInputFrom (N : Type 0) : Type 0 where
  pub handle : String
  pub value : Option (Option (Json N))
  pub schema_overrides : Option (List InputDefPatch)
  pub from_flow : Option (List FlowHandleFrom)
  pub from_node : Option (List NodeHandleFrom)
  pub serialize_for_cache : Bool

secret_only : Option PatchPath → String → Option InputDefPatch
secret_only path media =
    if media == "oomol/secret"
    then some (record { path = path; schema = record { content_media_type = media } })
    else none

secret_patch : TmpInputDefPatch → Option InputDefPatch
unfolding secret_only
secret_patch p = do schema ← p.schema; media ← schema.content_media_type; secret_only p.path media

secret_patches : List TmpInputDefPatch → List InputDefPatch
unfolding secret_patch
secret_patches [] = []
secret_patches (p ∷ ps) =
    let rest = secret_patches ps in elim (secret_patch p) [ none ↦ rest | some q ↦ q ∷ rest ]

used_overrides : Option (List TmpInputDefPatch) → Option (List InputDefPatch)
unfolding secret_patches
used_overrides none = none
used_overrides (some ps) = let used = secret_patches ps in if is_empty used then none else some used

unfoldable pub from_tmp : {N : Type 0} → TmpNodeInputFrom N → NodeInputFrom N
unfolding used_overrides
from_tmp t = record {
  handle = t.handle;
  value = t.value;
  schema_overrides = used_overrides t.schema_overrides;
  from_flow = t.from_flow;
  from_node = t.from_node;
  serialize_for_cache = t.serialize_for_cache;
}

pub record ValueNode (N : Type 0) : Type 0 where
  pub node_id : String
  pub values : List (InputHandle N)
  pub ignore : Bool

find_handle : {N : Type 0} → List (InputHandle N) → String → Option (InputHandle N)
find_handle [] handle = none
find_handle (h ∷ hs) handle = if h.handle == handle then some h else find_handle hs handle

unfoldable pub get_handle : {N : Type 0} → ValueNode N → String → Option (InputHandle N)
unfolding find_handle
get_handle v handle = find_handle v.values handle
