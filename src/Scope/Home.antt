-- ===== src/Scope/Home.antt =====
-- manifest_meta/src/flow.rs and runtime/src/flow_job/flow.rs: in which package a task of a flow runs.
use oocana_rust.Base.{String, Bool, false, Option, ◌≡◌, refl, arith}
use oocana_rust.Scope.{
  RunningTarget, inherit, at_node, inject_package, in_package, target_scope, task_scope,
  package_path, RuntimeScope, runtime_scope,
}

-- Two scopes are at home in the same package, or both in the workspace.
pub record SameHome (a b : RuntimeScope) : Type 0 where
  pub pkg_name : a.pkg_name ≡ b.pkg_name
  pub data_dir : a.data_dir ≡ b.data_dir
  pub path : a.path ≡ b.path

module _ (find_node : String → Bool) (find_package : String → Option String)
    (join : String → String → String) (package_layer : Bool → String → Bool) where
  -- Without the layer feature every task of a flow runs at home in the flow's own package, whatever
  -- its running target is.
  pub layer_off_stays_home :
      (shared parent : RuntimeScope) (hide : Bool) (t : RunningTarget)
      → SameHome
          (runtime_scope join package_layer shared parent hide
            (task_scope find_node find_package false t)
            (task_scope find_node find_package false t))
          shared
  unfolding runtime_scope task_scope target_scope package_path
  layer_off_stays_home shared parent hide inherit = record {
    pkg_name = refl;
    data_dir = refl;
    path = refl;
  }
  layer_off_stays_home shared parent hide (in_package p q n) = record {
    pkg_name = refl;
    data_dir = refl;
    path = refl;
  }
  layer_off_stays_home shared parent hide (at_node n) = record {
    pkg_name = ground arith;
    data_dir = ground arith;
    path = ground arith;
  }
  layer_off_stays_home shared parent hide (inject_package p) = record {
    pkg_name = ground arith;
    data_dir = ground arith;
    path = ground arith;
  }
