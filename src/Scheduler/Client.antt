-- ===== src/Scheduler/Client.antt =====
-- mainframe/src/scheduler.rs: SchedulerTx, by which the jobs put commands into the channel.
use oocana_rust.Base.{
  String, false, Option, none, List, ◌==◌, any, map_or, unwrap_or, if◌then◌else◌,
}
use oocana_rust.Scope.{RuntimeScope}
use oocana_rust.Scheduler.{SchedulerCommand, execute_block, execute_service_block}

pub record SchedulerTx : Type 0 where
  pub default_package : Option String
  pub exclude_packages : Option (List String)
  pub data_dir : String

-- In a package that is excluded the layers are off, and the default package takes its place.
excluded_scope : SchedulerTx → RuntimeScope → RuntimeScope
excluded_scope tx scope = record {
  session_id = scope.session_id;
  pkg_name = none;
  data_dir = tx.data_dir;
  pkg_root = scope.pkg_root;
  path = unwrap_or tx.default_package scope.path;
  node_id = scope.node_id;
  is_inject = scope.is_inject;
  enable_layer = false;
}

unfoldable pub calculate_scope : SchedulerTx → RuntimeScope → RuntimeScope
unfolding excluded_scope
calculate_scope tx scope =
    map_or tx.exclude_packages scope
      (λ excluded. if any (λ p. p == scope.path) excluded then excluded_scope tx scope else scope)

module _ {N F : Type 0} (tx : SchedulerTx) where
  unfoldable pub send_to_executor : String → String → RuntimeScope → SchedulerCommand N F
  unfolding calculate_scope
  send_to_executor executor_name job_id scope =
      execute_block job_id executor_name (calculate_scope tx scope)

  unfoldable pub send_to_service : String → String → RuntimeScope → SchedulerCommand N F
  unfolding calculate_scope
  send_to_service executor_name job_id scope =
      execute_service_block job_id executor_name (calculate_scope tx scope)
