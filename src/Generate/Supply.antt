-- ===== src/Generate/Supply.antt =====
-- manifest_meta/src/flow.rs: generate_node_inputs, against a description of what an input is made of.
use oocana_rust.Base.{
  List, [], ◌∷◌, false, true, Bool, map, keep_if, ap, String, Option, none, some, ◌≡◌, refl, ◌↔◌,
  map_option, ◌>>=◌,
}
use oocana_rust.Base.Map
use oocana_rust.Base.Map.{Map, IsDistinct}
use oocana_rust.Manifest.{InputHandle, InputDefPatch, NodeInputFrom}
use oocana_rust.Node.{
  HandleSource, flow_input, node_output, from_flow_input, from_node_output, from_value, HandleFrom,
  NodeInput,
}
use oocana_rust.Generate.{sources_of, convert_to_sources, generate_input, generate_node_inputs}
use oocana_rust.Generate.Inputs.{get-generate_node_inputs}
use oocana_rust.Generate.Rules.{Supplied, IsSaved, chosen-Supplied, any-IsSaved}

module _ {N : Type 0} where
  -- The connection that a source is.
  abbrev pub as_connection : HandleSource → HandleFrom N
  as_connection (flow_input f) = from_flow_input f
  as_connection (node_output n o) = from_node_output n o

  abbrev pub is_linked : HandleFrom N → Bool
  is_linked (from_value v) = false
  is_linked _ = true

  -- The sources are the connections that are no values, in the same order, if there are connections.
  abbrev pub AreSources : Option (List (HandleFrom N)) → Option (List HandleSource) → Type 0
  AreSources none none = Unit
  AreSources (some fs) (some ss) = map as_connection ss ≡ keep_if is_linked fs
  AreSources _ _ = ⊥

  linked_sources :
      (fs : List (HandleFrom N)) → map as_connection (sources_of fs) ≡ keep_if is_linked fs
  unfolding sources_of
  linked_sources [] = refl
  linked_sources (from_flow_input f ∷ fs) = ap (λ gs. from_flow_input f ∷ gs) (linked_sources fs)
  linked_sources (from_node_output n o ∷ fs) =
      ap (λ gs. from_node_output n o ∷ gs) (linked_sources fs)
  linked_sources (from_value v ∷ fs) = linked_sources fs

  convert-AreSources :
      (from : Option (List (HandleFrom N))) → AreSources from (convert_to_sources from)
  unfolding convert_to_sources
  convert-AreSources none = tt
  convert-AreSources (some fs) = linked_sources fs

module _ {N : Type 0} (froms : Option (Map (List (HandleFrom N))))
    (node_inputs_from : Option (List (NodeInputFrom N)))
    (patches : Option (Map (List InputDefPatch))) where
  -- Of a handle and its definition the node has this input, and of a handle without one none.
  abbrev pub IsMade : String → Option (InputHandle N) → Option (NodeInput N) → Type 0
  IsMade h none none = Unit
  IsMade h (some d) (some i) =
      Supplied h (froms >>= Map.get h) node_inputs_from i.value
      × AreSources (froms >>= Map.get h) i.sources
      × (i.patch ≡ (patches >>= Map.get h))
      × ((i.serialize_for_cache ≡ true) ↔ IsSaved h node_inputs_from)
      × (i.def ≡ record d { deserialize_from_cache = i.serialize_for_cache })
  IsMade h _ _ = ⊥

  generate_input-IsMade :
      (h : String) (d : Option (InputHandle N))
      → IsMade h d (map_option (generate_input froms node_inputs_from patches h) d)
  unfolding generate_input
  generate_input-IsMade h none = tt
  generate_input-IsMade h (some d) = (
    chosen-Supplied h (froms >>= Map.get h) node_inputs_from,
    convert-AreSources (froms >>= Map.get h),
    refl,
    any-IsSaved h node_inputs_from,
    refl,
  )

  -- A node gets an input for each handle of its definition, which has no handle twice, and for no
  -- other. Its value is that of a value that is the only connection of the handle; else what the
  -- first entry of the node for the handle says, a missing value, null or a value; else it is not
  -- provided. Its sources are the connections of the handle that are no values, in the same order. It
  -- has the patches of the handle, it is serialized for the cache when some entry for the handle asks
  -- for it, and its definition is that of the handle with the mark that it is read from the cache when
  -- it is serialized for it.
  pub generate_node_inputs_lem :
      (h : String) (def : Map (InputHandle N))
      → IsDistinct def
      → IsMade h
          (Map.get h def)
          (Map.get h (generate_node_inputs froms node_inputs_from patches (some def)))
  generate_node_inputs_lem h def d =
      rw (get-generate_node_inputs froms node_inputs_from patches h def d)
        (generate_input-IsMade h (Map.get h def))
