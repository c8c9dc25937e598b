-- ===== src/Host/Session.antt =====
-- components/execution-host/src/config_sync.rs: a session with the operator, and the loop of sessions.
-- What the operator answers is an argument, with whether each load of a module can be submitted. The
-- tasks that create pools are listed, and run on their own.
pub mod Authority
use wasm_platform.Base.{
  ℕ, ◌*◌, min, Bool, true, false, not, Bytes, List, ◌∷◌, [], ◌++◌, Option, none, some, Result, ok,
  err, if◌then◌else◌,
}
use wasm_platform.Host.Config.Entries.{
  ApplicationConfig, AppUpdate, AppRegistry, ConfigDiff, ModuleKey, MetricDefinition,
}
use wasm_platform.Host.Config.Registry.{
  apply_full_config, apply_incremental, topics, all_app_metric_defs,
}
use wasm_platform.Host.Modules.{RegistryState, remove}
use wasm_platform.Host.Calls.Pools.{SqlPoolMap, evict_app}
use wasm_platform.Host.Calls.UserMetrics.{UserMetricEntry}
use wasm_platform.Host.Calls.MetricSync.{sync_user_metrics}

abbrev pub Load : Type 0
Load = Bytes × Bytes × Bytes × Bytes

-- What a session changes, with the loads and the creations that it has asked for.
pub record HostSync (C P : Type 0) : Type 0 where
  pub registry : AppRegistry
  pub modules : RegistryState C
  pub metrics : List (Bytes × UserMetricEntry)
  pub pools : SqlPoolMap P
  pub loads : List Load
  pub creations : List Load
  pub topics : List Bytes
  pub redis : Option Bytes
  pub synced : Bool

pub data SyncError : Type 0 where
  snapshot_failed uninitialized stream_failed not_submitted : SyncError

-- The messages of the operator: of Redis, the address.
pub record FullConfig : Type 0 where
  pub applications : List ApplicationConfig
  pub redis : Option Bytes

pub record IncrementalConfig : Type 0 where
  pub updates : List AppUpdate
  pub redis : Option Bytes

-- What the stream brings: a message, the acknowledgement of which can be sent or not, or a failure.
pub data StreamEvent : Type 0 where
  message : Option IncrementalConfig → Bool → StreamEvent
  failure : StreamEvent

pub record Answers : Type 0 where
  pub snapshot : Option (Option FullConfig)
  pub opens : Bool
  pub first_ack : Bool
  pub events : List StreamEvent

module _ {C P : Type 0} where
  unfoldable pub apply_redis_config : Option Bytes → HostSync C P → HostSync C P
  apply_redis_config redis s = record s { redis = redis }

  -- The loops of `apply_module_changes`.
  unfoldable pub evict_modules : List ModuleKey → HostSync C P → HostSync C P
  evict_modules [] s = s
  evict_modules (key ∷ keys) s = evict_modules keys (record s { modules = remove key s.modules })

  unfoldable pub evict_pools : List (Bytes × Bytes) → HostSync C P → HostSync C P
  evict_pools [] s = s
  evict_pools ((namespace, app) ∷ apps) s =
      evict_pools apps (record s { pools = evict_app namespace app s.pools })

  unfoldable pub apply_pool_changes : List Load → List (Bytes × Bytes) → HostSync C P → HostSync C P
  apply_pool_changes to_create to_evict_apps s =
      let s' = evict_pools to_evict_apps s in record s' { creations = s'.creations ++ to_create }

module _ {C P : Type 0} (submits : Load → Bool) where
  unfoldable pub submit_loads :
      List Load → HostSync C P → HostSync C P × Result SyncError (Unit {0})
  submit_loads [] s = (s, ok tt)
  submit_loads (load ∷ loads) s =
      let rest = submit_loads loads (record s { loads = s.loads ++ load ∷ [] }) in
      if submits load then rest else (s, err not_submitted)

  unfoldable pub apply_module_changes :
      List Load → List ModuleKey → HostSync C P → HostSync C P × Result SyncError (Unit {0})
  apply_module_changes to_load to_evict s = submit_loads to_load (evict_modules to_evict s)

  -- The changes of a diff: pools are changed only if every load was submitted.
  unfoldable pub apply_diff : ConfigDiff → HostSync C P → HostSync C P × Result SyncError (Unit {0})
  apply_diff diff s =
      let m = apply_module_changes diff.modules_to_load diff.modules_to_evict s in
      elim m.1 [
        | err e ↦ (m.0, err e)
        | ok _ ↦ (apply_pool_changes diff.pools_to_create diff.pools_to_evict_apps m.0, ok tt)
      ]

  unfoldable pub fetch_full_config :
      Option (Option FullConfig) → HostSync C P → HostSync C P × Result SyncError (Unit {0})
  fetch_full_config none s = (s, err snapshot_failed)
  fetch_full_config (some none) s = (s, err uninitialized)
  fetch_full_config (some (some full)) s =
      let r = apply_full_config full.applications s.registry in
      apply_diff r.1 (record (apply_redis_config full.redis s) { registry = r.0 })

module _ {C P : Type 0} (registers : Bytes → MetricDefinition → List Bytes → Bool) where
  -- The metrics and the topics of the registry are published; an error of the metrics is logged.
  unfoldable pub publish : HostSync C P → HostSync C P
  publish s = record s {
    metrics = (sync_user_metrics registers (all_app_metric_defs s.registry) s.metrics).0;
    topics = topics s.registry;
  }

module _ {C P : Type 0} (registers : Bytes → MetricDefinition → List Bytes → Bool)
    (submits : Load → Bool) where
  unfoldable pub apply_message :
      IncrementalConfig → HostSync C P → HostSync C P × Result SyncError (Unit {0})
  apply_message config s =
      let r = apply_incremental config.updates s.registry in
      apply_diff submits r.1
        (publish registers (record (apply_redis_config config.redis s) { registry = r.0 }))

  unfoldable pub follow :
      List StreamEvent → HostSync C P → HostSync C P × Result SyncError (Unit {0})
  follow [] s = (s, ok tt)
  follow (failure ∷ events) s = (s, err stream_failed)
  follow (message none acked ∷ events) s = follow events s
  follow (message (some config) acked ∷ events) s =
      let r = apply_message config s in
      let rest = follow events r.0 in
      elim r.1 [ err e ↦ (r.0, err e) | ok _ ↦ if acked then rest else (r.0, ok tt) ]

  unfoldable pub run_config_sync :
      Answers → HostSync C P → HostSync C P × Result SyncError (Unit {0})
  run_config_sync a s =
      let f = fetch_full_config submits a.snapshot s in
      let s' = publish registers f.0 in
      let rest = follow a.events (record s' { synced = true }) in
      elim f.1 [
        | err e ↦ (f.0, err e)
        | ok _ ↦
            if not a.opens
            then (s', err stream_failed)
            else if not a.first_ack
            then (s', ok tt)
            else rest
      ]

  -- One turn of `run_config_sync_loop`: the seconds to wait, after the authority and the topics are
  -- revoked. A session that expires is one whose stream fails or, in the
  -- middle of the loads, one that could not submit the next; one that expires between the evictions of
  -- pools is not modelled.
  unfoldable pub sync_turn : Answers → ℕ × HostSync C P → ℕ × HostSync C P
  sync_turn a (backoff, s) =
      let r = run_config_sync a s in
      let reset = if r.0.synced then 1 else backoff in
      (
        elim r.1 [ ok _ ↦ 1 | err _ ↦ min (reset * 2) 30 ],
        record r.0 { synced = false; topics = [] },
      )
