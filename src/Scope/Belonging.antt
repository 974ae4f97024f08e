-- ===== src/Scope/Belonging.antt =====
-- manifest_meta/src/flow.rs and runtime/src/flow_job/flow.rs: the job of a task runs in the package that
-- the task belongs to.
use oocana_rust.Base.{
  String, Bool, true, false, Option, none, some, ◌≡◌, refl, ap, arith, inl, inr, Option-cases,
}
use oocana_rust.Scope.{
  BlockValueType, self_block, direct, pkg, abs_path, rel_path, InjectionTarget, nothing, to_node,
  to_package, injected_target, Injection, RunningTarget, inherit, at_node, inject_package,
  calculate_running_target, target_scope, task_scope, package_path, RuntimeScope, runtime_scope,
}
use oocana_rust.Scope.Home.{SameHome, layer_off_stays_home}
use oocana_rust.Scope.Rules.{
  IsPackaged, IsInjected, Belongs, to_own, to_injected, to_flow, task-Belongs,
}

module _ (find_node : String → Bool) (find_package : String → Option String)
    (join : String → String → String) (package_layer : Bool → String → Bool) where
  -- The scope is at home there: in the package with this name and path, whose data are kept below
  -- the package root of the flow; or in the package of the flow.
  abbrev pub IsAtHome : RuntimeScope → Option (String × String) → RuntimeScope → Type 0
  IsAtHome shared none r = SameHome r shared
  IsAtHome shared (some (name, path)) r =
      (r.pkg_name ≡ some name) × (r.path ≡ path) × (r.data_dir ≡ join shared.pkg_root name)

  module _ (shared parent : RuntimeScope) (hide : Bool) (n : String) where
    abbrev pub job_scope :
        Bool → Bool → Option Injection → Option String → BlockValueType → RuntimeScope
    job_scope layer spawn inj path block =
        let s =
          task_scope find_node find_package layer
            (calculate_running_target spawn n inj path block) in
        runtime_scope join package_layer shared parent hide s s

    unpackaged :
        (inj : Option Injection) (path : Option String) (block : BlockValueType)
        → ((k : String × String) → ¬ IsPackaged path block k)
        → calculate_running_target false n inj path block ≡ injected_target inj
    unfolding calculate_running_target
    unpackaged inj (some q) (pkg p b) m = absurd (m (p, q) (b, refl, refl))
    unpackaged inj none (pkg p b) m = refl
    unpackaged inj path (self_block b) m = ground arith
    unpackaged inj path (direct b) m = ground arith
    unpackaged inj path (abs_path b) m = ground arith
    unpackaged inj path (rel_path b) m = ground arith

    unpackaged_spawned :
        (inj : Option Injection) (path : Option String) (block : BlockValueType)
        → ((k : String × String) → ¬ IsPackaged path block k)
        → calculate_running_target true n inj path block ≡ at_node n
    unfolding calculate_running_target
    unpackaged_spawned inj (some q) (pkg p b) m = absurd (m (p, q) (b, refl, refl))
    unpackaged_spawned inj none (pkg p b) m = refl
    unpackaged_spawned inj path (self_block b) m = ground arith
    unpackaged_spawned inj path (direct b) m = ground arith
    unpackaged_spawned inj path (abs_path b) m = ground arith
    unpackaged_spawned inj path (rel_path b) m = ground arith

    own_home :
        (spawn : Bool) (inj : Option Injection) (p q b : String)
        → IsAtHome shared (some (p, q)) (job_scope true spawn inj (some q) (pkg p b))
    unfolding runtime_scope task_scope target_scope package_path calculate_running_target
    own_home true inj p q b = (refl, refl, refl)
    own_home false inj p q b = (refl, refl, refl)

    injected_home :
        (p q : String) (script : Option String) (path : Option String) (block : BlockValueType)
        → ((k : String × String) → ¬ IsPackaged path block k)
        → find_package p ≡ some q
        → IsAtHome shared (some (p, q)) (
            job_scope true false
              (some (record { target = to_package p; script = script }))
              path
              block)
    unfolding runtime_scope task_scope target_scope package_path injected_target
    injected_home p q script path block m found =
        rw (unpackaged (some (record { target = to_package p; script = script })) path block m)
          (rw found (refl, refl, refl))

    abbrev target_scope_of : RunningTarget → RuntimeScope
    target_scope_of t =
        let s = task_scope find_node find_package true t in
        runtime_scope join package_layer shared parent hide s s

    node_home : (m : String) → SameHome (target_scope_of (at_node m)) shared
    unfolding runtime_scope task_scope target_scope package_path
    node_home m = record { pkg_name = ground arith; data_dir = ground arith; path = ground arith }

    default_home : SameHome (target_scope_of inherit) shared
    unfolding runtime_scope task_scope target_scope package_path
    default_home = record { pkg_name = refl; data_dir = refl; path = refl }

    lost_home :
        (p : String) → find_package p ≡ none → SameHome (target_scope_of (inject_package p)) shared
    unfolding runtime_scope task_scope target_scope package_path
    lost_home p gone = record {
      pkg_name = ground arith;
      data_dir = ground arith;
      path = ground arith;
    }

    uninjected_home :
        (inj : Option Injection)
        → ((k : String × String) → ¬ IsInjected find_package false inj k)
        → SameHome (target_scope_of (injected_target inj)) shared
    unfolding injected_target
    uninjected_home none m = default_home
    uninjected_home (some i) m = of_target i.target refl
      where
        of_target :
            (t : InjectionTarget)
            → i.target ≡ t
            → SameHome (target_scope_of (injected_target (some i))) shared
        of_target nothing e = rw e default_home
        of_target (to_node m) e = rw e (node_home m)
        of_target (to_package p) e = elim (Option-cases (find_package p)) [
          | inl gone ↦ rw e (lost_home p gone)
          | inr (q, found) ↦ absurd (
              m (p, q)
                (
                  i.script,
                  refl,
                  ap (λ t. some (record { target = t; script = i.script })) e,
                  found,
                ))
        ]

    stays_home :
        (spawn : Bool) (inj : Option Injection) (path : Option String) (block : BlockValueType)
        → ((k : String × String) → ¬ IsPackaged path block k)
        → ((k : String × String) → ¬ IsInjected find_package spawn inj k)
        → SameHome (job_scope true spawn inj path block) shared
    stays_home true inj path block m o = rw (unpackaged_spawned inj path block m) (node_home n)
    stays_home false inj path block m o = rw (unpackaged inj path block m) (uninjected_home inj o)

    Belongs-IsAtHome :
        (layer spawn : Bool) (inj : Option Injection) (path : Option String)
        (block : BlockValueType) (home : Option (String × String))
        → Belongs find_package layer spawn inj path block home
        → IsAtHome shared home (job_scope layer spawn inj path block)
    Belongs-IsAtHome layer spawn inj path block home (to_own (p, q) l (b, e, f) h) =
        rw (h, l, e, f) (own_home spawn inj p q b)
    Belongs-IsAtHome layer spawn inj path block home
          (to_injected (p, q) l m (script, off, e, found) h) =
        rw (h, l, off, e) (injected_home p q script path block m found)
    Belongs-IsAtHome layer spawn inj path block home (to_flow (inl off) h) =
        rw (h, off)
          (layer_off_stays_home find_node find_package join package_layer shared parent hide
            (calculate_running_target spawn n inj path block))
    Belongs-IsAtHome false spawn inj path block home (to_flow (inr (m, o)) h) = rw h (
        layer_off_stays_home find_node find_package join package_layer shared parent hide
          (calculate_running_target spawn n inj path block))
    Belongs-IsAtHome true spawn inj path block home (to_flow (inr (m, o)) h) =
        rw h (stays_home spawn inj path block m o)

  -- Every task belongs somewhere, and its job runs there: with the layer feature in the package of
  -- its block, which has a path, whether the node spawns or is injected elsewhere; else in the package
  -- that it is injected into, if that is found and the node does not spawn; else, and always without
  -- the layer feature, in the package of the flow. In a package other than that of the flow its data
  -- are kept below the package root of the flow.
  pub task_home :
      (shared parent : RuntimeScope) (hide layer spawn : Bool) (n : String) (inj : Option Injection)
      (path : Option String) (block : BlockValueType)
      → (home : Option (String × String)) × Belongs find_package layer spawn inj path block home
        × IsAtHome shared home (job_scope shared parent hide n layer spawn inj path block)
  task_home shared parent hide layer spawn n inj path block =
      let (home, b) = task-Belongs find_package layer spawn inj path block in
      (home, b, Belongs-IsAtHome shared parent hide n layer spawn inj path block home b)
