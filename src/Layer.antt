-- ===== src/Layer.antt =====
-- layer/src: the layers of packages. This file has the disk that the library works on, its errors,
-- and PackageLayer of layer/src/package_layer.rs; the children have the stores and what is done
-- with them.
pub mod Stores
pub mod Status
pub mod Existing
pub mod Migrate
pub mod Endings
pub mod Loading
pub mod Overwritten
pub mod Rollback
pub mod Delete
pub mod Unused
pub mod Deleted
pub mod Needed
use oocana_rust.Base.{
  ℕ, suc, ◌+◌, String, Bool, true, false, not, ◌&&◌, Option, none, some, List, [], ◌∷◌, ◌++◌,
  if◌then◌else◌, ◌==◌, unwrap_or, map_or, keep_if, all,
}
use oocana_rust.Base.Map
use oocana_rust.Base.Map.{Map}
use oocana_rust.Base.StringSet
use oocana_rust.Base.StringSet.{StringSet}

-- The bind paths, the environment and the injection layers are left out.
pub record PackageLayer : Type 0 where
  pub name : Option String
  pub version : Option String
  pub base_layers : Option (List String)
  pub source_layer : String
  pub bootstrap : Option String
  pub bootstrap_layer : Option String
  pub package_path : String

-- PackageLayerStore and ExternalLayerStore
pub record LayerStore : Type 0 where
  pub version : String
  pub packages : Map PackageLayer

-- The messages of the errors, as constructors.
pub data LayerError : Type 0 where
  missing_name missing_version unreadable : LayerError
  not_in_store : (package_path : String) → LayerError
  layer_not_exist : List String → LayerError
  not_moved : List String → LayerError
  not_deleted : List String → LayerError
  failed : String → LayerError
  rollback_failed : LayerError → LayerError → LayerError

pub data Result {ℓ} (A : Type ℓ) : Type ℓ where
  ok : A → Result A
  err : LayerError → Result A

-- How the next access to the world outside ends. A file that is not replaced as a whole may be
-- damaged when writing it fails.
pub data Access : Type 0 where
  works : Access
  fails : (error : String) → (damages : Bool) → Access

-- The files of the two stores (`none`: the package store cannot be read as one, the external store
-- is absent), the layers that ovmlayer lists, and the accesses to come; after these all work.
pub record Disk : Type 0 where
  pub package_store : Option LayerStore
  pub external_store : Option LayerStore
  pub layers : List String
  pub accesses : List Access

abbrev pub M : Type 0 → Type 0
M A = Disk → Result A × Disk

infixl 5 ◌>>=◌ ◌>>◌
abbrev pub ◌>>=◌ : {A B : Type 0} → M A → (A → M B) → M B
◌>>=◌ m f d = let (r, d') = m d in elim r [ ok a ↦ f a d' | err e ↦ (err e, d') ]

abbrev pub ◌>>◌ : {A B : Type 0} → M A → M B → M B
m >> k = m >>= λ _. k

abbrev pub pure : {A : Type 0} → A → M A
pure a d = (ok a, d)

abbrev pub raise : {A : Type 0} → LayerError → M A
raise e d = (err e, d)

-- Option::ok_or
abbrev pub ok_or : {A : Type 0} → Option A → LayerError → M A
ok_or none e = raise e
ok_or (some a) e = pure a

-- One access: it does its work, or does damage, or nothing.
unfoldable pub access_as : List Access → (Disk → Disk) → (Disk → Disk) → M (Unit {0})
access_as [] work damage d = (ok tt, work d)
access_as (works ∷ rest) work damage d = (ok tt, work (record d { accesses = rest }))
access_as (fails e true ∷ rest) work damage d =
    (err (failed e), damage (record d { accesses = rest }))
access_as (fails e false ∷ rest) work damage d = (err (failed e), record d { accesses = rest })

unfoldable pub access : (Disk → Disk) → (Disk → Disk) → M (Unit {0})
unfolding access_as
access work damage d = access_as d.accesses work damage d

abbrev pub unharmed : Disk → Disk
unharmed d = d

-- PackageLayer::layers
unfoldable pub layers_of : PackageLayer → List String
layers_of p =
    keep_if (λ l. not (l == ""))
      (unwrap_or p.base_layers [] ++ p.source_layer ∷ map_or p.bootstrap_layer [] (λ l. l ∷ []))

-- The HashSet difference of `diff`.
unfoldable pub diff : List String → List String → List String
unfolding StringSet.contains
diff a b = keep_if (λ l. not (StringSet.contains l b)) a

unfoldable pub list_layers : M (List String)
unfolding access
list_layers d = (access unharmed unharmed >>= λ _ e. (ok e.layers, e)) d

-- `used` is what ovmlayer lists as the layers in use.
unfoldable pub list_used_layers : List String → M (List String)
unfolding access
list_used_layers used = access unharmed unharmed >> pure used

-- The layers that `validate` looks for: an empty name of the source is skipped.
abbrev pub needed_layers : PackageLayer → List String
needed_layers p =
    unwrap_or p.base_layers []
    ++ (if p.source_layer == "" then [] else p.source_layer ∷ [])
    ++ map_or p.bootstrap_layer [] (λ l. l ∷ [])

unfoldable pub check_missing : List String → M (Unit {0})
check_missing [] = pure tt
check_missing (l ∷ ls) = raise (layer_not_exist (l ∷ ls))

-- PackageLayer::validate
unfoldable pub validate : PackageLayer → M (Unit {0})
unfolding list_layers diff check_missing
validate p = list_layers >>= λ ls. check_missing (diff (needed_layers p) ls)
