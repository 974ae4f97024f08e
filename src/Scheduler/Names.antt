-- ===== src/Scheduler/Names.antt =====
-- mainframe/src/scheduler.rs: the names of executors. The process of the executor `python` is
-- `python-executor`; both names stand for the same executor.
use oocana_rust.Base.{
  String, Bool, true, Option, none, some, ◌==◌, ◌≡◌, refl, ap, arith, if◌then◌else◌, unwrap_or,
  map_option, ==_refl, eq_of_==, Bool-cases, inl, inr,
}
use Prim.Native.String.{count, ◌++◌ as text_append}
use text.Mathlib.TextLemmas.{length-append, length-cons, nil-append, cons-append}

-- str::strip_suffix
unfoldable pub strip_suffix : String → String → Option String
strip_suffix String.[] t = if String.[] == t then some "" else none
strip_suffix (String.◌∷◌ c s) t =
    if String.◌∷◌ c s == t then some "" else map_option (String.◌∷◌ c) (strip_suffix s t)

abbrev pub executor_suffix : String
executor_suffix = "-executor"

unfoldable pub trim_executor_suffix : String → String
trim_executor_suffix executor = unwrap_or (strip_suffix executor executor_suffix) executor

unfoldable pub executor_name_matches : String → String → Bool
unfolding trim_executor_suffix
executor_name_matches running exited = trim_executor_suffix running == trim_executor_suffix exited

unfoldable pub lifecycle_identifier_matches : Option String → String → Bool
lifecycle_identifier_matches (some identifier) running = identifier == running
lifecycle_identifier_matches none running = true

-- format!("{}-{}")
abbrev pub dashed : String → String → String
dashed a b = text_append a (text_append "-" b)

unfoldable pub executor_map_name_from_parts : String → Option String → String
unfolding trim_executor_suffix
executor_map_name_from_parts executor (some identifier) =
    dashed (trim_executor_suffix executor) identifier
executor_map_name_from_parts executor none = trim_executor_suffix executor

unfoldable pub generate_executor_map_name : String → String → String
generate_executor_map_name executor_name identifier = dashed executor_name identifier

unfoldable pub executor_bin : String → String
executor_bin executor = text_append executor executor_suffix

strip_suffix_all : (t : String) → strip_suffix t t ≡ some ""
unfolding strip_suffix
strip_suffix_all String.[] = refl
strip_suffix_all (String.◌∷◌ c t) = rw ==_refl refl

strip_suffix-append : (s t : String) → strip_suffix (text_append s t) t ≡ some s
unfolding strip_suffix
strip_suffix-append String.[] t = rw (nil-append t) (strip_suffix_all t)
strip_suffix-append (String.◌∷◌ c s) t =
    rw (cons-append c s t) (elim (Bool-cases (String.◌∷◌ c (text_append s t) == t)) [
      | inl e ↦ absurd (
          omega
            (arith, ap count (eq_of_== _ _ e), length-cons c (text_append s t), length-append s t))
      | inr e ↦ rw (e, strip_suffix-append s t) refl
    ])

-- The name of the process stands for the executor.
pub trim-executor_bin : (x : String) → trim_executor_suffix (executor_bin x) ≡ x
unfolding trim_executor_suffix executor_bin
trim-executor_bin x = rw (strip_suffix-append x executor_suffix) refl

-- The events of an executor carry the name of its process, with an identifier of a scope. Each such
-- name is traced back to the executor, and to the one entry of the map of executors that stands for
-- the executor and the scope.
pub executor_bin_roundtrip :
    (x identifier : String)
    → (trim_executor_suffix (executor_bin x) ≡ x)
      × (executor_map_name_from_parts (executor_bin x) (some identifier)
          ≡ generate_executor_map_name x identifier)
unfolding executor_map_name_from_parts generate_executor_map_name
executor_bin_roundtrip x identifier = (trim-executor_bin x, rw (trim-executor_bin x) refl)
