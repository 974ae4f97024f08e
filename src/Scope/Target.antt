-- ===== src/Scope/Target.antt =====
-- manifest_meta/src/scope.rs: the rules by which a node's running target is chosen.
use oocana_rust.Base.{String, Bool, true, false, Option, none, some, ◌≡◌}
use oocana_rust.Scope.{
  BlockValueType, pkg, Injection, RunningTarget, at_node, in_package, injected_node,
  injected_target,
}

-- The package of a block, if it is a package block with a path.
abbrev pub package_of : BlockValueType → Option String → Option (String × String)
package_of (pkg p b) (some path) = some (p, path)
package_of _ _ = none

-- A package block runs in its package; any other block by itself if it spawns, and else where the
-- injection says.
pub data Targets (spawn : Bool) (n : String) (inj : Option Injection) (path : Option String)
    (block : BlockValueType) : RunningTarget → Type 0 where
  packaged :
      (p q : String)
      → package_of block path ≡ some (p, q)
      → Targets spawn n inj path block (in_package p q (injected_node inj))
  spawned : package_of block path ≡ none → spawn ≡ true → Targets spawn n inj path block (at_node n)
  injected :
      package_of block path ≡ none
      → spawn ≡ false
      → Targets spawn n inj path block (injected_target inj)
