-- ===== src/InputValues.antt =====
-- runtime/src/flow_job/node_input_values.rs: the values that wait at the inputs of a flow's nodes.
pub mod Take
pub mod Queues
pub mod Delivery
pub mod Jobs
pub mod Memory
pub mod Invariant
pub mod Removal
use oocana_rust.Base.{
  ℕ, ◌-◌, ◌^◌, String, Bool, true, false, not, ◌&&◌, Option, none, some, List, [], ◌∷◌, ◌++◌,
  if◌then◌else◌, ◌>>=◌, is_none_or, is_some_and, unwrap_or, is_empty, length, keep_if,
}
use Prim.Native.Nat.{min}
use oocana_rust.Base.Map
use oocana_rust.Base.Map.{Map}
use oocana_rust.Base.StringSet
use oocana_rust.Base.StringSet.{StringSet}
use oocana_rust.Output.{OutputValue, deserializable, maybe_serializable}
use oocana_rust.Node.{
  Node, NodeInput, HandleSource, flow_input, node_output, node_id, inputs, inputs_def, no_sources,
  has_connection, is_provided, into_json_or_null,
}

abbrev pub InputMap : Type 0 → Type 0
InputMap N = Map (List (OutputValue N))

abbrev pub NodeInputStore : Type 0 → Type 0
NodeInputStore N = Map (InputMap N)

abbrev pub InputValues : Type 0 → Type 0
InputValues N = Map (OutputValue N)

pub record NodeInputValues (N : Type 0) : Type 0 where
  pub store : NodeInputStore N
  pub memory_store : NodeInputStore N
  pub cache_value_store : Option (NodeInputStore N)

-- usize::MAX, on a machine of 64 bits.
abbrev pub usize_max : ℕ
usize_max = 2 ^ 64 - 1

module _ {N : Type 0} where
  -- `store.get(node).and_then(|m| m.get(handle))`
  abbrev pub queue : NodeInputStore N → String → String → Option (List (OutputValue N))
  queue s n h = Map.get n s >>= Map.get h

  -- The same with an absent queue read as an empty one.
  abbrev pub waiting : NodeInputStore N → String → String → List (OutputValue N)
  waiting s n h = unwrap_or (queue s n h) []

  -- `entry(node).or_default().entry(handle).or_default()`, changed by f
  unfoldable pub change_queue :
      String
      → String
      → (List (OutputValue N) → List (OutputValue N))
      → NodeInputStore N
      → NodeInputStore N
  change_queue n h f s = Map.entry n [] (Map.entry h [] f) s

  unfoldable pub new : Bool → NodeInputValues N
  new save_cache = record {
    store = [];
    memory_store = [];
    cache_value_store = if save_cache then some [] else none;
  }

  module _ (exists : String → Bool) where
    restore_queues : InputMap N → InputMap N
    restore_queues [] = []
    restore_queues ((h, q) ∷ m) = (h, keep_if (deserializable exists) q) ∷ restore_queues m

    restore_store : NodeInputStore N → NodeInputStore N
    unfolding restore_queues
    restore_store [] = []
    restore_store ((n, m) ∷ s) = (n, restore_queues m) ∷ restore_store s

    -- What the cache file holds: `none` if it cannot be opened, `some none` if it cannot be read.
    unfoldable pub recover_from : Option (Option (NodeInputStore N)) → Bool → NodeInputValues N
    unfolding restore_store new
    recover_from none save_cache = new save_cache
    recover_from (some none) save_cache = new save_cache
    recover_from (some (some s)) save_cache = record {
      store = restore_store s;
      memory_store = [];
      cache_value_store = some (restore_store s);
    }

  unfoldable pub only : OutputValue N → List (OutputValue N) → List (OutputValue N)
  only v q = v ∷ []

  unfoldable pub update_serializable_cache_value :
      String → String → OutputValue N → NodeInputValues N → NodeInputValues N
  unfolding change_queue only
  update_serializable_cache_value n h v niv =
      if maybe_serializable v
      then record niv {
        cache_value_store = niv.cache_value_store >>= λ s. some (change_queue n h (only v) s);
      }
      else niv

  unfoldable pub push_back : OutputValue N → List (OutputValue N) → List (OutputValue N)
  push_back v q = q ++ v ∷ []

  unfoldable pub insert : String → String → OutputValue N → NodeInputValues N → NodeInputValues N
  unfolding change_queue push_back
  insert n h v niv = record niv { store = change_queue n h (push_back v) niv.store }

  abbrev pub is_static : NodeInput N → Bool
  is_static i = no_sources i && is_provided i.value

  unfoldable pub input_ready : NodeInputValues N → String → String × NodeInput N → Bool
  input_ready niv n (h, i) =
      if is_static i
      then true
      else not (
          is_none_or (queue niv.store n h) is_empty
          && is_none_or (queue niv.memory_store n h) is_empty)

  unfoldable pub all_ready : NodeInputValues N → String → Map (NodeInput N) → Bool
  unfolding input_ready
  all_ready niv n [] = true
  all_ready niv n (i ∷ rest) = if input_ready niv n i then all_ready niv n rest else false

  unfoldable pub is_node_fulfill : NodeInputValues N → Node N → Bool
  unfolding all_ready
  is_node_fulfill niv node = all_ready niv (node_id node) (inputs node)

  unfoldable pub node_has_input : NodeInputValues N → Node N → String → Bool
  node_has_input niv node h =
      if is_some_and (Map.get h (inputs node)) is_static
      then true
      else is_some_and (queue niv.store (node_id node) h) (λ q. not (is_empty q))

  unfoldable pub need_remember_value : Node N → String → Bool
  unfolding inputs_def
  need_remember_value node h = is_some_and (inputs_def node >>= Map.get h) (λ def. def.remember)

  count_pending : Node N → ℕ → InputMap N → ℕ
  unfolding need_remember_value
  count_pending node count [] = count
  count_pending node count ((h, q) ∷ m) =
      count_pending node (if need_remember_value node h then count else min count (length q)) m

  unfoldable pub node_pending_fulfill : NodeInputValues N → Node N → ℕ
  unfolding count_pending
  node_pending_fulfill niv node = elim (Map.get (node_id node) niv.store) [
    | none ↦ 0
    | some m ↦ count_pending node usize_max m
  ]

  drop_fed : StringSet → String → List HandleSource → InputMap N → InputMap N
  drop_fed from_nodes h [] m = m
  drop_fed from_nodes h (flow_input i ∷ rest) m = drop_fed from_nodes h rest m
  drop_fed from_nodes h (node_output n o ∷ rest) m =
      drop_fed from_nodes h rest (if StringSet.contains n from_nodes then Map.remove h m else m)

  unfoldable pub drop_inputs : StringSet → Map (NodeInput N) → InputMap N → InputMap N
  unfolding drop_fed
  drop_inputs from_nodes [] m = m
  drop_inputs from_nodes ((h, i) ∷ rest) m =
      drop_inputs from_nodes rest (drop_fed from_nodes h (unwrap_or i.sources []) m)

  unfoldable pub remove_input_values : Node N → StringSet → NodeInputValues N → NodeInputValues N
  unfolding drop_inputs
  remove_input_values node from_nodes niv = record niv {
    store = Map.modify (node_id node) (drop_inputs from_nodes (inputs node)) niv.store;
  }

  unfoldable pub remember_value :
      String → String → OutputValue N → NodeInputValues N → NodeInputValues N
  unfolding change_queue only
  remember_value n h v niv = record niv {
    memory_store = change_queue n h (only v) niv.memory_store;
  }
