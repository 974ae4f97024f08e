-- ===== src/Samples/Flows.antt =====
-- A flow of two nodes, `a` which feeds `b`, and what surrounds it. The numbers are natural ones.
use oocana_rust.Base.{
  ℕ, zero, suc, ◌+◌, ◌-◌, ◌*◌, String, Bool, true, false, not, ◌&&◌, if◌then◌else◌, none, some, [],
  ◌∷◌, ltb, arith, eq_iff,
}
use oocana_rust.Base.Map
use oocana_rust.Base.Map.{Map}
use oocana_rust.Json.{Json, null, number, str}
use oocana_rust.Output.{OutputValue}
use oocana_rust.Manifest.{InputHandle}
use oocana_rust.Node.{Node, NodeInput, task, node_output, to_node_input, not_provided, value, pos}
use oocana_rust.InputValues.{NodeInputValues}
use oocana_rust.Subflow.{SubflowBlock, IsKeyed}
use oocana_rust.Progress.{Floats}
use oocana_rust.Flow.{Env, Context, answered, refused}

abbrev pub handle_def : String → Bool → InputHandle ℕ
handle_def h remember = record {
  handle = h;
  description = none;
  json_schema = none;
  kind = none;
  nullable = none;
  value = none;
  remember = remember;
  is_additional = false;
  deserialize_from_cache = false;
}

-- An input that node `a` feeds, and one with a static value.
abbrev pub fed : String → Bool → NodeInput ℕ
fed h remember = record {
  def = handle_def h remember;
  patch = none;
  value = not_provided;
  sources = some (node_output "a" "out" ∷ []);
  serialize_for_cache = false;
}

abbrev pub fixed : String → Json ℕ → NodeInput ℕ
fixed h v = record {
  def = handle_def h false;
  patch = none;
  value = value v;
  sources = none;
  serialize_for_cache = false;
}

abbrev pub node_a : Node ℕ
node_a = task (record {
  node_id = "a";
  description = none;
  timeout = none;
  to = some (("out", to_node_input "b" "in" ∷ []) ∷ []);
  inputs = [];
  concurrency = pos 1;
})

abbrev pub node_b : Node ℕ
node_b = task (record {
  node_id = "b";
  description = none;
  timeout = none;
  to = none;
  inputs = ("in", fed "in" true) ∷ ("k", fixed "k" (number 5)) ∷ [];
  concurrency = pos 1;
})

abbrev pub two_nodes : SubflowBlock ℕ
two_nodes = record {
  description = none;
  nodes = ("a", node_a) ∷ ("b", node_b) ∷ [];
  inputs_def = none;
  outputs_def = none;
  path_str = "two.oo.yaml";
  flow_inputs_tos = [];
  flow_outputs_froms = [];
  forward_previews = none;
  hide_source = false;
}

pub two_nodes-IsKeyed : IsKeyed two_nodes.nodes
unfolding Map.get
two_nodes-IsKeyed n node here = ground (arith, eq_iff "a" n, eq_iff "b" n)

abbrev pub naturals : Floats ℕ
naturals = record {
  zero_f = 0;
  hundred = 100;
  ninety_five = 95;
  epsilon = 1;
  add = λ a b. a + b;
  sub = λ a b. a - b;
  mul = λ a b. a * b;
  div = λ a b. a;
  abs = λ a. a;
  max = λ a b. if ltb a b then b else a;
  lt = ltb;
  le = λ a b. not (ltb b a);
  eq = λ a b. not (ltb a b) && not (ltb b a);
}

-- The first random id differs from the others. A job has a handle just when `b` says so.
abbrev pub ids : ℕ → String
ids zero = "first"
ids (suc k) = "later"

abbrev pub around : Bool → Env ℕ ℕ
around has_handle = record {
  random = ids;
  run_job = λ node job_id is. has_handle;
  run_request = λ block payload.
      answered (record { job_id = "asked"; node_id = "run_block::x"; has_handle = true });
  query_request = λ block. refused "no block";
  downstream = λ node handles. answered null;
  vault = none;
  weight = λ node. 1;
  is_root = true;
  floats = naturals;
}

abbrev pub text_value : String → OutputValue ℕ
text_value s = record { value = str s; is_json_serializable = true }

abbrev pub no_values : NodeInputValues ℕ
no_values = record { store = []; memory_store = []; cache_value_store = none }

-- Node `a` runs as job "job", and a block has asked for job "asked".
abbrev pub one_job : Context ℕ ℕ
one_job = record {
  node_input_values = no_values;
  jobs = ("job", "a") ∷ ("asked", "run_block::x") ∷ [];
  node_queue_pool = ("a", record { jobs = "job" ∷ []; pending = [] }) ∷ [];
  drawn = 0;
  progress = record { nodes = []; sum = 0; total_weight = 0 };
  sent = [];
}
