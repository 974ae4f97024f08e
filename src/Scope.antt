-- ===== src/Scope.antt =====
-- manifest_meta/src/scope.rs with the scopes of manifest_meta/src/flow.rs, and the scope of a job in
-- runtime/src/flow_job/flow.rs: in which package a block runs.
pub mod Target
pub mod Home
pub mod Rules
pub mod Belonging
use oocana_rust.Base.{
  String, Bool, true, false, not, ◌&&◌, Option, none, some, if◌then◌else◌, ◌>>=◌, is_some_and,
  unwrap_or,
}

-- manifest_reader/src/path_finder/search_paths.rs
pub data BlockValueType : Type 0 where
  self_block : (name : String) → BlockValueType
  direct : (path : String) → BlockValueType
  pkg : (pkg_name block_name : String) → BlockValueType
  abs_path : (path : String) → BlockValueType
  rel_path : (path : String) → BlockValueType

-- manifest_reader/src/manifest/node/task.rs
pub data InjectionTarget : Type 0 where
  nothing : InjectionTarget
  to_package : String → InjectionTarget
  to_node : String → InjectionTarget

pub record TmpInjection : Type 0 where
  pub package_name : Option String
  pub node_id : Option String
  pub script : Option String

pub record Injection : Type 0 where
  pub target : InjectionTarget
  pub script : Option String

unfoldable pub from_tmp_injection : TmpInjection → Injection
from_tmp_injection tmp = elim tmp.package_name [
  | some p ↦ record { target = to_package p; script = tmp.script }
  | none ↦ elim tmp.node_id [
    | some n ↦ record { target = to_node n; script = none }
    | none ↦ record { target = nothing; script = tmp.script }
  ]
]

-- A path is a text.
pub data BlockScope : Type 0 where
  flow_scope : (node_id : Option String) → BlockScope
  slot_scope : BlockScope
  package_scope : (name path : String) → (inject : Bool) → (node_id : Option String) → BlockScope

unfoldable pub package_path : BlockScope → Option String
package_path (package_scope name path inject node_id) = some path
package_path _ = none

unfoldable pub is_inject : BlockScope → Bool
is_inject (package_scope name path inject node_id) = inject
is_inject _ = false

abbrev pub default_scope : BlockScope
default_scope = flow_scope none

pub data RunningTarget : Type 0 where
  inherit : RunningTarget
  at_node : String → RunningTarget
  inject_package : (pkg_name : String) → RunningTarget
  in_package : (pkg_name package_path : String) → (node_id : Option String) → RunningTarget

unfoldable pub injected_node : Option Injection → Option String
injected_node none = none
injected_node (some i) = elim i.target [ to_node n ↦ some n | _ ↦ none ]

unfoldable pub injected_target : Option Injection → RunningTarget
injected_target none = inherit
injected_target (some i) = elim i.target [
  | to_package p ↦ inject_package p
  | to_node n ↦ at_node n
  | nothing ↦ inherit
]

-- Of the node, its id and whether it spawns.
unfoldable pub calculate_running_target :
    Bool → String → Option Injection → Option String → BlockValueType → RunningTarget
unfolding injected_node injected_target
calculate_running_target true n inj (some path) (pkg p b) = in_package p path (injected_node inj)
calculate_running_target true n inj none (pkg p b) = at_node n
calculate_running_target true n inj path _ = at_node n
calculate_running_target false n inj (some path) (pkg p b) = in_package p path (injected_node inj)
calculate_running_target false n inj path block = injected_target inj

-- The slot of a subflow that is filled by a block.
unfoldable pub calculate_slot_scope : BlockValueType → Option String → BlockScope
calculate_slot_scope (pkg p b) (some path) = package_scope p path false none
calculate_slot_scope _ path = slot_scope

-- The scope of a task node: `find_node` and `find_package` look for its target, and without the
-- layer feature a package is left out.
module _ (find_node : String → Bool) (find_package : String → Option String) (layer : Bool) where
  unfoldable pub target_scope : RunningTarget → BlockScope
  target_scope inherit = default_scope
  target_scope (in_package p path n) = package_scope p path false n
  target_scope (at_node n) = if find_node n then flow_scope (some n) else default_scope
  target_scope (inject_package p) = elim (find_package p) [
    | some path ↦ package_scope p path true none
    | none ↦ default_scope
  ]

  unfoldable pub task_scope : RunningTarget → BlockScope
  unfolding target_scope package_path
  task_scope target =
      let s = target_scope target in
      if not layer && is_some_and (package_path s) (λ _. true) then default_scope else s

-- job/src/scope.rs
pub record RuntimeScope : Type 0 where
  pub session_id : String
  pub pkg_name : Option String
  pub data_dir : String
  pub pkg_root : String
  pub path : String
  pub node_id : Option String
  pub is_inject : Bool
  pub enable_layer : Bool

-- run_node: `join` joins paths, `package_layer` tells from the node's hide_source and the name of a
-- package whether it has a layer. The scope of the flow and that of its parent come first.
module _ (join : String → String → String) (package_layer : Bool → String → Bool) where
  unfoldable pub runtime_scope :
      RuntimeScope → RuntimeScope → Bool → BlockScope → BlockScope → RuntimeScope
  unfolding is_inject
  runtime_scope shared parent hide node_scope (package_scope name path inject node_id) = record {
    session_id = shared.session_id;
    pkg_name = some name;
    data_dir = join shared.pkg_root name;
    pkg_root = shared.pkg_root;
    path = path;
    node_id = node_id;
    is_inject = is_inject node_scope;
    enable_layer = package_layer hide name;
  }
  runtime_scope shared parent hide node_scope (flow_scope node_id) = record {
    session_id = shared.session_id;
    pkg_name = shared.pkg_name;
    data_dir = shared.data_dir;
    pkg_root = shared.pkg_root;
    path = shared.path;
    node_id = node_id;
    is_inject = is_inject node_scope;
    enable_layer = shared.enable_layer;
  }
  runtime_scope shared parent hide node_scope slot_scope = record {
    session_id = shared.session_id;
    pkg_name = parent.pkg_name;
    data_dir = parent.data_dir;
    pkg_root = parent.pkg_root;
    path = parent.path;
    node_id = none;
    is_inject = is_inject node_scope;
    enable_layer = parent.enable_layer;
  }
