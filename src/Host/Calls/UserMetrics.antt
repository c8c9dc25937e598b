-- ===== src/Host/Calls/UserMetrics.antt =====
-- components/execution-host/src/metrics.rs and host_metrics.rs: the metrics that applications declare,
-- and the calls of guests that change them. The registry of `prometheus` is an argument: whether it takes
-- a metric of a name and labels; a gauge's value is a parameter.
use wasm_platform.Base.{
  ℕ, ◌+◌, ◌≡◌, ap, if_neg, ◌↔◌, ◌∙◌, Bool, true, false, not, Bytes, List, ◌∷◌, [], Option, none,
  some, Result, ok, err, ◌>>=◌, ◌>>◌, ensure, or_fail, map_err, ◌⊎◌, ◌≢◌, if◌then◌else◌, ◌==◌,
  length, bytes_discrete, arith, Option-cases, Result-cases, inl, inr,
}
use wasm_platform.Host.Config.Entries.{MetricType, counter, gauge}
use wasm_platform.Base.Map.{get, insert, get-insert}

pub data DropReason : Type 0 where
  unknown_metric wrong_labels : DropReason

-- `guest_map`, where the last of a key's values stays.
unfoldable pub guest_map : List (Bytes × Bytes) → List (Bytes × Bytes) → List (Bytes × Bytes)
guest_map [] m = m
guest_map ((k, v) ∷ labels) m = guest_map labels (insert bytes_discrete k v m)

-- The loop of `build_label_values`.
unfoldable pub label_values : List Bytes → List (Bytes × Bytes) → Result (Unit {0}) (List Bytes)
label_values [] m = ok []
label_values (key ∷ keys) m = do
  v ← or_fail (get bytes_discrete key m) tt
  rest ← label_values keys m
  ok (v ∷ rest)

unfoldable pub build_label_values :
    Bytes → Bytes → List Bytes → List (Bytes × Bytes) → Result (Unit {0}) (List Bytes)
build_label_values app_name app_namespace declared_keys guest_labels = do
  ensure (length guest_labels == length declared_keys) tt
  values ← label_values declared_keys (guest_map guest_labels [])
  ok (app_name ∷ app_namespace ∷ values)

-- Each value is that of its key.
abbrev pub Values : List (Bytes × Bytes) → List Bytes → List Bytes → Type 0
Values m [] [] = Unit {0}
Values m [] (v ∷ values) = ⊥
Values m (key ∷ keys) [] = ⊥
Values m (key ∷ keys) (v ∷ values) = (get bytes_discrete key m ≡ some v) × Values m keys values

label_values-ok :
    (keys : List Bytes) (m : List (Bytes × Bytes)) (values : List Bytes)
    → (label_values keys m ≡ ok values) ↔ Values m keys values
unfolding label_values
label_values-ok [] m [] = ground arith
label_values-ok [] m (v ∷ values) = ground arith
label_values-ok (key ∷ keys) m [] = elim (Result-cases (label_values keys m)) [
  | inl (r, e) ↦ ground (arith, e)
  | inr (x, e) ↦ ground (arith, e)
]
label_values-ok (key ∷ keys) m (v ∷ values) = elim (Result-cases (label_values keys m)) [
  | inl (r, e) ↦ ground (arith, e, label_values-ok keys m values)
  | inr (x, e) ↦ ground (arith, e, label_values-ok keys m values)
]

-- Labels are accepted exactly if there are as many as the metric declares and each declared key is one
-- of them, and then give the values in the declared order, behind the application's own two.
pub build_label_values-ok_iff :
    (app_name app_namespace : Bytes) (keys : List Bytes) (labels : List (Bytes × Bytes))
    (values : List Bytes)
    → (build_label_values app_name app_namespace keys labels
        ≡ ok (app_name ∷ app_namespace ∷ values))
      ↔ ((length labels ≡ length keys) × Values (guest_map labels []) keys values)
unfolding build_label_values
build_label_values-ok_iff app_name app_namespace keys labels values =
    elim (Result-cases (label_values keys (guest_map labels []))) [
      | inl (r, e) ↦ ground (arith, e, label_values-ok keys (guest_map labels []) values)
      | inr (x, e) ↦ ground (arith, e, label_values-ok keys (guest_map labels []) values)
    ]

pub record UserMetricEntry : Type 0 where
  pub metric : MetricType
  pub label_keys : List Bytes

unfoldable pub series_discrete : Discrete (Bytes × List Bytes)
series_discrete = hlevel bytes_discrete

-- `MetricsRegistry`, less the counters of the platform but that of the dropped calls. A series is a
-- metric's name with its label values.
pub record MetricsRegistry (V : Type 0) : Type 0 where
  pub user_metrics : List (Bytes × UserMetricEntry)
  pub counters : List ((Bytes × List Bytes) × ℕ)
  pub gauges : List ((Bytes × List Bytes) × V)
  pub dropped : List (Bytes × Bytes × DropReason)

abbrev pub is_counter : MetricType → Bool
is_counter counter = true
is_counter gauge = false

abbrev pub count_of : Option ℕ → ℕ
count_of none = 0
count_of (some n) = n

module _ {V : Type 0} where
  unfoldable pub counter_increment :
      Bytes
      → Bytes
      → Bytes
      → List (Bytes × Bytes)
      → MetricsRegistry V
      → Result DropReason (MetricsRegistry V)
  counter_increment name app_name app_namespace labels r = do
    entry ← or_fail (get bytes_discrete name r.user_metrics) unknown_metric
    ensure (is_counter entry.metric) wrong_labels
    values ←
        map_err (λ _. wrong_labels)
          (build_label_values app_name app_namespace entry.label_keys labels)
    ok (record r {
      counters =
          insert series_discrete (name, values)
            (count_of (get series_discrete (name, values) r.counters) + 1) r.counters;
    })

  unfoldable pub gauge_set :
      Bytes
      → V
      → Bytes
      → Bytes
      → List (Bytes × Bytes)
      → MetricsRegistry V
      → Result DropReason (MetricsRegistry V)
  gauge_set name value app_name app_namespace labels r = do
    entry ← or_fail (get bytes_discrete name r.user_metrics) unknown_metric
    ensure (not (is_counter entry.metric)) wrong_labels
    values ←
        map_err (λ _. wrong_labels)
          (build_label_values app_name app_namespace entry.label_keys labels)
    ok (record r { gauges = insert series_discrete (name, values) value r.gauges })

  -- The calls of host_metrics.rs: the error of the registry is counted, and the guest does not see it.
  abbrev pub drop_call :
      Bytes → Bytes → MetricsRegistry V → Result DropReason (MetricsRegistry V) → MetricsRegistry V
  drop_call app_name app_namespace r (ok r') = r'
  drop_call app_name app_namespace r (err reason) = record r {
    dropped = (app_name, app_namespace, reason) ∷ r.dropped;
  }

  unfoldable pub increment_call :
      Bool
      → Bytes
      → Bytes
      → Bytes
      → List (Bytes × Bytes)
      → MetricsRegistry V
      → MetricsRegistry V × Bool
  increment_call in_budget name app_name app_namespace labels r =
      if in_budget
      then (
        drop_call app_name app_namespace r (counter_increment name app_name app_namespace labels r),
        true,
      )
      else (r, false)

  unfoldable pub set_call :
      Bool
      → Bytes
      → V
      → Bytes
      → Bytes
      → List (Bytes × Bytes)
      → MetricsRegistry V
      → MetricsRegistry V × Bool
  set_call in_budget name value app_name app_namespace labels r =
      if in_budget
      then (
        drop_call app_name app_namespace r (gauge_set name value app_name app_namespace labels r),
        true,
      )
      else (r, false)

build_label_values-owned :
    (app_name app_namespace : Bytes) (keys : List Bytes) (labels : List (Bytes × Bytes))
    (values : List Bytes)
    → build_label_values app_name app_namespace keys labels ≡ ok values
    → (rest : List Bytes) × (values ≡ app_name ∷ app_namespace ∷ rest)
unfolding build_label_values
build_label_values-owned app_name app_namespace keys labels values h =
    elim (Result-cases (label_values keys (guest_map labels []))) [
      | inl (r, e) ↦ (r, ground (arith, e, h))
      | inr (x, e) ↦ absurd (ground (arith, e, h))
    ]

-- A counter that a guest increments changes no counter series of another application or namespace, which
-- is one whose first two labels are not both its own, whatever the metric and its other labels.
pub counter_increment-isolated :
    {V : Type 0} (name app_name app_namespace : Bytes) (labels : List (Bytes × Bytes))
    (r r' : MetricsRegistry V) (name' app' ns' : Bytes) (rest : List Bytes)
    → counter_increment name app_name app_namespace labels r ≡ ok r'
    → (app_name ≢ app') ⊎ (app_namespace ≢ ns')
    → get series_discrete (name', app' ∷ ns' ∷ rest) r'.counters
      ≡ get series_discrete (name', app' ∷ ns' ∷ rest) r.counters
unfolding counter_increment
counter_increment-isolated name app_name app_namespace labels r r' name' app' ns' rest h other =
    elim (Option-cases (get bytes_discrete name r.user_metrics)) [
      | inl e ↦ absurd (ground (arith, e, h))
      | inr (entry, e) ↦
          elim (Result-cases (build_label_values app_name app_namespace entry.label_keys labels)) [
            | inr (x, b) ↦ absurd (ground (arith, e, b, h))
            | inl (values, b) ↦
                let owned =
                  build_label_values-owned app_name app_namespace entry.label_keys labels values
                    b in
                let count = count_of (get series_discrete (name, values) r.counters) + 1 in
                let apart : values ≢ app' ∷ ns' ∷ rest = λ q. ground (arith, q, owned, other) in
                let other_series : ◌≢◌ {A = Bytes × List Bytes} (name, values)
                    (name', app' ∷ ns' ∷ rest) =
                  λ q. apart (ap (λ x. x.1) q) in
                let g =
                  get-insert series_discrete (name, values) (name', app' ∷ ns' ∷ rest) count
                    r.counters in
                ap (get series_discrete (name', app' ∷ ns' ∷ rest)) (ground (arith, e, b, h))
                ∙ g
                ∙ if_neg (series_discrete (name, values) (name', app' ∷ ns' ∷ rest)) other_series _
                    _
          ]
    ]
