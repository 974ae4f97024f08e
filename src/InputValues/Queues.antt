-- ===== src/InputValues/Queues.antt =====
-- runtime/src/flow_job/node_input_values.rs: `insert` and the readiness tests as operations on one
-- queue for each handle.
use oocana_rust.Base.{
  String, ◌&&◌, some, List, [], ◌≡◌, arith, ◌==◌, eq_iff, if◌then◌else◌, unwrap_or,
}
use oocana_rust.Base.Map
use oocana_rust.Base.Map.{get-entry}
use oocana_rust.Output.{OutputValue}
use oocana_rust.InputValues.{NodeInputStore, waiting, queue, change_queue}

module _ {N : Type 0} where
  pub queue-change_queue :
      (n m h k : String) (f : List (OutputValue N) → List (OutputValue N)) (s : NodeInputStore N)
      → queue (change_queue n h f s) m k
        ≡ (if n == m && h == k then some (f (waiting s n h)) else queue s m k)
  unfolding change_queue Map.get
  queue-change_queue n m h k f s = ground (
    arith,
    get-entry n m [] (Map.entry h [] f) s,
    get-entry h k [] f (unwrap_or (Map.get n s) []),
    eq_iff n m,
    eq_iff h k,
  )
