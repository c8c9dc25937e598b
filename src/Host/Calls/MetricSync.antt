-- ===== src/Host/Calls/MetricSync.antt =====
-- `sync_user_metrics` of components/execution-host/src/metrics.rs. Whether the registry of `prometheus`
-- takes a metric is an argument; the log of one that it does not give back is not modelled.
use wasm_platform.Base.{
  ◌↔◌, ◌⊎◌, ◌≡◌, Bool, true, false, ◌&&◌, ◌||◌, Bytes, ascii, List, ◌∷◌, [], none, some,
  if◌then◌else◌, bytes_discrete, arith, Bool-cases, inl, inr,
}
use wasm_platform.Base.Map.{get, insert, contains_key, get-insert}
use wasm_platform.Host.Calls.UserMetrics.{UserMetricEntry}
use wasm_platform.Host.Config.Entries.{MetricDefinition}

-- `expected` of `sync_user_metrics`.
unfoldable pub expect :
    List MetricDefinition → List (Bytes × MetricDefinition) → List (Bytes × MetricDefinition)
expect [] m = m
expect (d ∷ defs) m = expect defs (insert bytes_discrete d.name d m)

unfoldable pub expected_of :
    List ((Bytes × Bytes) × List MetricDefinition)
    → List (Bytes × MetricDefinition)
    → List (Bytes × MetricDefinition)
expected_of [] m = m
expected_of ((app, defs) ∷ apps) m = expected_of apps (expect defs m)

-- The removal of the metrics that are not expected.
unfoldable pub retain :
    List (Bytes × MetricDefinition)
    → List (Bytes × UserMetricEntry)
    → List (Bytes × UserMetricEntry)
retain expected [] = []
retain expected ((name, entry) ∷ m) =
    let rest = retain expected m in
    if contains_key bytes_discrete name expected then (name, entry) ∷ rest else rest

abbrev pub entry_of : MetricDefinition → UserMetricEntry
entry_of d = record { metric = d.type; label_keys = d.label_keys }

abbrev pub all_label_keys : MetricDefinition → List Bytes
all_label_keys d = ascii "app_name" ∷ ascii "app_namespace" ∷ d.label_keys

-- The loop that registers, which ends at the first metric that the registry refuses.
unfoldable pub register_all :
    (Bytes → MetricDefinition → List Bytes → Bool)
    → List (Bytes × MetricDefinition)
    → List (Bytes × UserMetricEntry)
    → List (Bytes × UserMetricEntry) × Bool
register_all registers [] m = (m, true)
register_all registers ((name, d) ∷ expected) m =
    let known = register_all registers expected m in
    let added = register_all registers expected (insert bytes_discrete name (entry_of d) m) in
    if contains_key bytes_discrete name m
    then known
    else (if registers name d (all_label_keys d) then added else (m, false))

unfoldable pub sync_user_metrics :
    (Bytes → MetricDefinition → List Bytes → Bool)
    → List ((Bytes × Bytes) × List MetricDefinition)
    → List (Bytes × UserMetricEntry)
    → List (Bytes × UserMetricEntry) × Bool
sync_user_metrics registers apps m =
    let expected = expected_of apps [] in register_all registers expected (retain expected m)

-- An application declares a metric of this name.
abbrev pub Declares : List MetricDefinition → Bytes → Type 0
Declares [] name = ⊥
Declares (d ∷ defs) name = (d.name ≡ name) ⊎ Declares defs name

abbrev pub Declared : List ((Bytes × Bytes) × List MetricDefinition) → Bytes → Type 0
Declared [] name = ⊥
Declared ((app, defs) ∷ apps) name = Declares defs name ⊎ Declared apps name

contains-expect :
    (defs : List MetricDefinition) (m : List (Bytes × MetricDefinition)) (name : Bytes)
    → (contains_key bytes_discrete name (expect defs m) ≡ true)
      ↔ ((contains_key bytes_discrete name m ≡ true) ⊎ Declares defs name)
unfolding expect contains_key
contains-expect [] m name = ground arith
contains-expect (d ∷ defs) m name =
    let rest = contains-expect defs (insert bytes_discrete d.name d m) name in
    let g = get-insert bytes_discrete d.name name d m in ground (arith, rest, g)

contains-expected_of :
    (apps : List ((Bytes × Bytes) × List MetricDefinition)) (m : List (Bytes × MetricDefinition))
    (name : Bytes)
    → (contains_key bytes_discrete name (expected_of apps m) ≡ true)
      ↔ ((contains_key bytes_discrete name m ≡ true) ⊎ Declared apps name)
unfolding expected_of
contains-expected_of [] m name = ground arith
contains-expected_of ((app, defs) ∷ apps) m name =
    ground (arith, contains-expected_of apps (expect defs m) name, contains-expect defs m name)

expected-Declared :
    (apps : List ((Bytes × Bytes) × List MetricDefinition)) (name : Bytes)
    → (contains_key bytes_discrete name (expected_of apps []) ≡ true) ↔ Declared apps name
unfolding contains_key get
expected-Declared apps name = ground (arith, contains-expected_of apps [] name)

get-retain :
    (expected : List (Bytes × MetricDefinition)) (m : List (Bytes × UserMetricEntry)) (j : Bytes)
    → get bytes_discrete j (retain expected m)
      ≡ (if contains_key bytes_discrete j expected then get bytes_discrete j m else none)
unfolding retain get
get-retain expected [] j = elim (Bool-cases (contains_key bytes_discrete j expected)) [
  | inl b ↦ ground (arith, b)
  | inr b ↦ ground (arith, b)
]
get-retain expected ((name, entry) ∷ m) j = ground (arith, get-retain expected m j)

get-register :
    (registers : Bytes → MetricDefinition → List Bytes → Bool)
    (expected : List (Bytes × MetricDefinition)) (m : List (Bytes × UserMetricEntry)) (j : Bytes)
    (entry : UserMetricEntry)
    → get bytes_discrete j m ≡ some entry
    → get bytes_discrete j (register_all registers expected m).0 ≡ some entry
unfolding register_all contains_key
get-register registers [] m j entry h = h
get-register registers ((name, d) ∷ expected) m j entry h =
    let known = get-register registers expected m j entry h in
    let added =
      get-register registers expected (insert bytes_discrete name (entry_of d) m) j entry in
    let g = get-insert bytes_discrete name j (entry_of d) m in ground (arith, h, known, added, g)

sync-kept :
    (registers : Bytes → MetricDefinition → List Bytes → Bool)
    (apps : List ((Bytes × Bytes) × List MetricDefinition)) (m : List (Bytes × UserMetricEntry))
    (name : Bytes) (entry : UserMetricEntry)
    → get bytes_discrete name m ≡ some entry
    → contains_key bytes_discrete name (expected_of apps []) ≡ true
    → get bytes_discrete name (sync_user_metrics registers apps m).0 ≡ some entry
unfolding sync_user_metrics
sync-kept registers apps m name entry h c =
    get-register registers (expected_of apps []) (retain (expected_of apps []) m) name entry
      (ground (arith, get-retain (expected_of apps []) m name))

register-known :
    (registers : Bytes → MetricDefinition → List Bytes → Bool)
    (expected : List (Bytes × MetricDefinition)) (m : List (Bytes × UserMetricEntry)) (j : Bytes)
    → (register_all registers expected m).1 ≡ true
    → contains_key bytes_discrete j (register_all registers expected m).0
      ≡ (contains_key bytes_discrete j m || contains_key bytes_discrete j expected)
unfolding register_all contains_key get
register-known registers [] m j h = ground arith
register-known registers ((name, d) ∷ expected) m j h =
    let known = register-known registers expected m j in
    let added = register-known registers expected (insert bytes_discrete name (entry_of d) m) j in
    let g = get-insert bytes_discrete name j (entry_of d) m in ground (arith, h, known, added, g)

register-within :
    (registers : Bytes → MetricDefinition → List Bytes → Bool)
    (expected : List (Bytes × MetricDefinition)) (m : List (Bytes × UserMetricEntry)) (j : Bytes)
    → contains_key bytes_discrete j (register_all registers expected m).0 ≡ true
    → (contains_key bytes_discrete j m || contains_key bytes_discrete j expected) ≡ true
unfolding register_all contains_key get
register-within registers [] m j h = ground arith
register-within registers ((name, d) ∷ expected) m j h =
    let known = register-within registers expected m j in
    let added = register-within registers expected (insert bytes_discrete name (entry_of d) m) j in
    let g = get-insert bytes_discrete name j (entry_of d) m in ground (arith, h, known, added, g)

contains-retain :
    (expected : List (Bytes × MetricDefinition)) (m : List (Bytes × UserMetricEntry)) (j : Bytes)
    → contains_key bytes_discrete j (retain expected m)
      ≡ (contains_key bytes_discrete j expected && contains_key bytes_discrete j m)
unfolding contains_key
contains-retain expected m j = ground (arith, get-retain expected m j)

-- A synchronisation that the registry refused nothing of leaves exactly the metrics that some application
-- declares; and whatever it was refused, a metric that is still declared, in the same way or another,
-- stays as it was registered, and one that no application declares is gone.
pub sync_user_metrics-names :
    (registers : Bytes → MetricDefinition → List Bytes → Bool)
    (apps : List ((Bytes × Bytes) × List MetricDefinition)) (m : List (Bytes × UserMetricEntry))
    (name : Bytes)
    → ((sync_user_metrics registers apps m).1 ≡ true
        → (contains_key bytes_discrete name (sync_user_metrics registers apps m).0 ≡ true)
          ↔ Declared apps name)
      × ((entry : UserMetricEntry)
          → get bytes_discrete name m ≡ some entry
          → Declared apps name
          → get bytes_discrete name (sync_user_metrics registers apps m).0 ≡ some entry)
      × (contains_key bytes_discrete name (sync_user_metrics registers apps m).0 ≡ true
          → Declared apps name)
unfolding sync_user_metrics
sync_user_metrics-names registers apps m name =
    let e = expected-Declared apps name in
    let k = contains-retain (expected_of apps []) m name in
    (
      (λ h.
          let known =
            register-known registers (expected_of apps []) (retain (expected_of apps []) m) name
              h in
          ground (arith, known, k, e)),
      (λ entry h c. sync-kept registers apps m name entry h (e.1 c)),
      (λ h.
          let within =
            register-within registers (expected_of apps []) (retain (expected_of apps []) m) name in
          ground (arith, within, k, e, h)),
    )
