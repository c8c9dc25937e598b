-- ===== src/Host/Tests/Calls.antt =====
-- The host calls on concrete stores.
use wasm_platform.Base.{
  ℤ, pos, none, ℕ, ◌+◌, ◌*◌, ◌<◌, ◌^◌, ◌≡◌, ◌≢◌, refl, ◌↔◌, inl, inr, Bool, true, false, Bytes,
  ascii, List, ◌∷◌, [], Option, some, ok, arith, bytes_discrete, ℕ_discrete, if_neg, ◌∙◌,
}
use wasm_platform.Base.Map.{get, insert, get-insert, remove, get-remove, contains_key}
use wasm_platform.Host.Invocation.{Invocation}
use wasm_platform.Host.Calls.Redis.{
  Course, gives, InTime, set, backend_deadline, mutate_before_deadline, evaluate, mutate,
  backend_deadline-ok_iff, mutate-InTime,
}
use wasm_platform.Host.Calls.Keys.{HostState, incr, call, full_key, call-isolated}
use wasm_platform.Host.Config.Entries.{MetricDefinition, counter}
use wasm_platform.Host.Calls.Sql
use wasm_platform.Host.Calls.UserMetrics.{
  UserMetricEntry, MetricsRegistry, counter_increment, build_label_values, label_values, guest_map,
  series_discrete, counter_increment-isolated,
}
use wasm_platform.Host.Calls.MetricSync.{sync_user_metrics, Declared, sync_user_metrics-names}

backend_deadline-ok_iff_example :
    (backend_deadline 7 5 20 ≡ ok 7000025)
    ↔ ((7000025 ≡ 7 * 1000000 + 5 + 20) × (5 < 1000000) × (7000025 < 2 ^ 53))
backend_deadline-ok_iff_example = backend_deadline-ok_iff 7 5 20 7000025

-- A store of the server, and its commands.
abbrev Store : Type 0
Store = List (Bytes × Bytes)

abbrev set_command : Bytes → Bytes → Store → Store
set_command k v s = insert bytes_discrete k v s

abbrev del_command : Bytes → Store → Store × ℕ
del_command k s = (remove bytes_discrete k s, 1)

abbrev incrby : Bytes → Bytes → Store → Option Store
incrby k d s = some (insert bytes_discrete k d s)

abbrev get_number : Bytes → Store → ℤ
get_number k s = pos 1

-- The server is 7000000 microseconds ahead.
abbrev invocation : Invocation
invocation = record { deadline = 28; cancelled = false; failure = none; execution = none }

abbrev in_time : Course
in_time = record {
  connects = gives tt;
  time = gives (7, 5);
  checked = true;
  read_at = 8;
  runs_at = some 7000006;
  answered = true;
}

mutate-InTime_example : InTime invocation in_time × (6 < invocation.deadline)
unfolding mutate backend_deadline evaluate mutate_before_deadline
mutate-InTime_example =
    mutate-InTime set_command del_command incrby get_number invocation in_time (ascii "k")
      (set (ascii "v")) [] 7000000 5 6
      (record { gave = refl; ran = refl; before = omega arith; after = omega arith }) (inr refl)

abbrev host : HostState
host = record {
  app_namespace = ascii "ns";
  app_name = ascii "app";
  in_budget = true;
  configured = true;
  kv_reads = 0;
  kv_writes = 0;
}

abbrev value_of : Bytes → Store → Option Bytes
value_of k s = get bytes_discrete k s

set_frame : (k j v : Bytes) (s : Store) → k ≢ j → value_of j (set_command k v s) ≡ value_of j s
set_frame k j v s n = get-insert bytes_discrete k j v s ∙ if_neg (bytes_discrete k j) n _ _

del_frame : (k j : Bytes) (s : Store) → k ≢ j → value_of j (del_command k s).0 ≡ value_of j s
del_frame k j s n = get-remove bytes_discrete k j s ∙ if_neg (bytes_discrete k j) n _ _

incr_frame :
    (k j d : Bytes) (s s' : Store) → k ≢ j → incrby k d s ≡ some s' → value_of j s' ≡ value_of j s
incr_frame k j d s s' n h = ground (arith, h, set_frame k j d s n)

call-isolated_example :
    value_of
      (full_key (ascii "ns") (ascii "other") (ascii "k"))
      (call set_command del_command incrby get_number invocation in_time
        (ascii "k")
        incr
        host
        []).0.1
    ≡ value_of (full_key (ascii "ns") (ascii "other") (ascii "k")) []
call-isolated_example =
    call-isolated set_command del_command incrby get_number value_of set_frame del_frame incr_frame
      invocation in_time (ascii "k") (ascii "k") (ascii "ns") (ascii "other") incr host []
      (ground arith) (ground arith) (ground arith) (ground arith) (inr (ground arith))

-- A transaction that commits after its budget, and whose backend is known to have ended.
abbrev late : Sql.Course ℕ
late = record {
  on_acquire = Sql.answered tt;
  check_begin = true;
  on_begin = Sql.answered tt;
  on_setup = Sql.answered (some 9);
  check_statement = true;
  on_statement = Sql.answered 3;
  check_commit = true;
  on_commit = Sql.answered tt;
  check_last = false;
  terminated = true;
  sends_rollback = true;
}

sql_job-ok_iff_example :
    (Sql.sql_job late ≡ (Sql.trace_of false, ok 3))
    ↔ (Sql.Committed late 3 × (Sql.trace_of false ≡ Sql.trace_of false))
sql_job-ok_iff_example = Sql.sql_job-ok_iff late 3 (Sql.trace_of false)

-- One counter with one label.
abbrev registry : MetricsRegistry ℕ
registry = record {
  user_metrics = (ascii "hits", record { metric = counter; label_keys = ascii "path" ∷ [] }) ∷ [];
  counters = [];
  gauges = [];
  dropped = [];
}

abbrev counted : MetricsRegistry ℕ
counted = record registry {
  counters = ((ascii "hits", ascii "app" ∷ ascii "ns" ∷ ascii "/" ∷ []), 1) ∷ [];
}

counted_once :
    counter_increment
      (ascii "hits")
      (ascii "app")
      (ascii "ns")
      ((ascii "path", ascii "/") ∷ [])
      registry
    ≡ ok counted
unfolding counter_increment build_label_values label_values guest_map get insert remove
    series_discrete bytes_discrete ℕ_discrete
counted_once = refl

counter_increment-isolated_example :
    get series_discrete (ascii "hits", ascii "other" ∷ ascii "ns" ∷ []) counted.counters
    ≡ get series_discrete (ascii "hits", ascii "other" ∷ ascii "ns" ∷ []) registry.counters
counter_increment-isolated_example =
    counter_increment-isolated (ascii "hits") (ascii "app") (ascii "ns")
      ((ascii "path", ascii "/") ∷ []) registry counted (ascii "hits") (ascii "other") (ascii "ns")
      [] counted_once (inl (ground arith))

abbrev registers : Bytes → MetricDefinition → List Bytes → Bool
registers name d keys = true

abbrev declared : List ((Bytes × Bytes) × List MetricDefinition)
declared =
    (
      (ascii "ns", ascii "app"),
      record { name = ascii "hits"; type = counter; label_keys = [] } ∷ [],
    )
    ∷ []

sync_user_metrics-names_example :
    ((sync_user_metrics registers declared registry.user_metrics).1 ≡ true
      → (contains_key bytes_discrete
            (ascii "hits")
            (sync_user_metrics registers declared registry.user_metrics).0
          ≡ true)
        ↔ Declared declared (ascii "hits"))
    × ((entry : UserMetricEntry)
        → get bytes_discrete (ascii "hits") registry.user_metrics ≡ some entry
        → Declared declared (ascii "hits")
        → get bytes_discrete
            (ascii "hits")
            (sync_user_metrics registers declared registry.user_metrics).0
          ≡ some entry)
    × (contains_key bytes_discrete
            (ascii "hits")
            (sync_user_metrics registers declared registry.user_metrics).0
          ≡ true
        → Declared declared (ascii "hits"))
sync_user_metrics-names_example =
    sync_user_metrics-names registers declared registry.user_metrics (ascii "hits")
