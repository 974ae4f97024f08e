-- ===== src/Generate/Inputs.antt =====
-- manifest_meta/src/flow.rs: the inputs that a node gets, and those that are merged into it later.
use oocana_rust.Base.{
  String, Option, some, List, [], ◌∷◌, ◌≡◌, refl, arith, eq_iff, map_option, or_else,
}
use oocana_rust.Base.Map
use oocana_rust.Base.Map.{Map, IsDistinct, get-insert}
use oocana_rust.Json.{Json}
use oocana_rust.Manifest.{InputHandle, InputDefPatch, NodeInputFrom}
use oocana_rust.Node.{NodeInput, HandleFrom, Node}
use oocana_rust.Generate.{generate_input, generate_all, generate_node_inputs}

module _ {N : Type 0} (froms : Option (Map (List (HandleFrom N))))
    (node_inputs_from : Option (List (NodeInputFrom N)))
    (patches : Option (Map (List InputDefPatch))) where
  get-generate_all :
      (h : String) (made : Map (NodeInput N)) (def : Map (InputHandle N))
      → IsDistinct def
      → Map.get h (generate_all froms node_inputs_from patches made def)
        ≡ or_else
            (map_option (generate_input froms node_inputs_from patches h) (Map.get h def))
            (Map.get h made)
  unfolding generate_all Map.get
  get-generate_all h made [] d = refl
  get-generate_all h made ((k, i) ∷ def) d =
      let input = generate_input froms node_inputs_from patches k i in
      ground (
        arith,
        eq_iff k h,
        get-generate_all h (Map.insert k input made) def d.1,
        get-insert k h input made,
      )

  -- A node gets an input for each handle of its definition and for no other, made of that handle,
  -- where the definition has no handle twice.
  pub get-generate_node_inputs :
      (h : String) (def : Map (InputHandle N))
      → IsDistinct def
      → Map.get h (generate_node_inputs froms node_inputs_from patches (some def))
        ≡ map_option (generate_input froms node_inputs_from patches h) (Map.get h def)
  unfolding generate_node_inputs Map.get
  get-generate_node_inputs h def d = ground (arith, get-generate_all h [] def d)
