-- ===== src/Samples/Scopes.antt =====
-- A spawned block of a package, and a flow of the workspace.
use oocana_rust.Base.{String, Bool, true, false, not, Option, none, some}
use Prim.Native.String.{◌++◌ as text_append}
use oocana_rust.Scope.{
  pkg, Injection, to_node, inject_package, task_scope, RuntimeScope, runtime_scope,
}
use oocana_rust.Scope.Home.{SameHome, layer_off_stays_home}
use oocana_rust.Scope.Rules.{Belongs}
use oocana_rust.Scope.Belonging.{IsAtHome, job_scope, task_home}

abbrev to_b : Option Injection
to_b = some (record { target = to_node "b"; script = none })

abbrev pub workspace : RuntimeScope
workspace = record {
  session_id = "s";
  pkg_name = none;
  data_dir = "/data";
  pkg_root = "/packages";
  path = "/workspace";
  node_id = none;
  is_inject = false;
  enable_layer = false;
}

abbrev join : String → String → String
join a b = text_append (text_append a "/") b

abbrev found : String → Bool
found n = true

abbrev at_root : String → Option String
at_root p = some (join "/found" p)

abbrev layered : Bool → String → Bool
layered hide name = not hide

layer_off_stays_home_example :
    SameHome
      (runtime_scope join layered workspace workspace false
        (task_scope found at_root false (inject_package "p"))
        (task_scope found at_root false (inject_package "p")))
      workspace
layer_off_stays_home_example =
    layer_off_stays_home found at_root join layered workspace workspace false (inject_package "p")

task_home_example :
    (home : Option (String × String)) × Belongs at_root true true to_b
      (some "/p")
      (pkg "p" "task")
      home
    × IsAtHome found at_root join layered workspace home (
        job_scope found at_root join layered workspace workspace false "a" true true to_b
          (some "/p")
          (pkg "p" "task"))
task_home_example =
    task_home found at_root join layered workspace workspace false true true "a" to_b (some "/p")
      (pkg "p" "task")
