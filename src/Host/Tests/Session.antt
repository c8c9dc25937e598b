-- ===== src/Host/Tests/Session.antt =====
-- A session of config_sync.rs that is accepted and brings one message.
use wasm_platform.Base.Map.{insert, remove}
use wasm_platform.Base.{
  bytes_discrete, ℕ_discrete, ℕ, ◌≡◌, refl, Bool, true, false, Bytes, ascii, List, ◌∷◌, [], none,
  some,
}
use wasm_platform.Host.Config.Entries.{MetricDefinition, ApplicationConfig}
use wasm_platform.Host.Config.Registry.{
  apply_full_config, apply_incremental, incoming_of, insert_functions, insert_topic, insert_all,
  missing_keys,
}
use wasm_platform.Host.Session.{
  Load, HostSync, message, failure, Answers, run_config_sync, follow, fetch_full_config,
  apply_message, apply_diff, apply_module_changes, apply_pool_changes, submit_loads, evict_modules,
  evict_pools, apply_redis_config, publish,
}
use wasm_platform.Host.Session.Authority.{Authoritative, run_config_sync-Authoritative}

abbrev fresh : HostSync ℕ ℕ
fresh = record {
  registry = [];
  modules = record { components = []; native_bytes = 0 };
  metrics = [];
  pools = [];
  loads = [];
  creations = [];
  topics = [];
  redis = none;
  synced = false;
}

-- An application with one function, whose module is loaded.
abbrev app : ApplicationConfig
app = record {
  name = ascii "app";
  namespace = ascii "ns";
  functions =
      record {
        name = ascii "f";
        module_ref = ascii "ref";
        world_type = 0;
        topic = some (ascii "t");
        sql_username = none;
      }
      ∷ [];
  sql_users = [];
  key_value = false;
  metrics = [];
}

abbrev answers : Answers
answers = record {
  snapshot = some (some (record { applications = app ∷ []; redis = some (ascii "redis://one") }));
  opens = true;
  first_ack = true;
  events =
      message (some (record { updates = []; redis = some (ascii "redis://two") })) true
      ∷ failure
      ∷ [];
}

abbrev registers : Bytes → MetricDefinition → List Bytes → Bool
registers name d keys = true

abbrev submits : Load → Bool
submits load = true

accepted : (run_config_sync registers submits answers fresh).0.synced ≡ true
unfolding run_config_sync follow fetch_full_config apply_message apply_diff apply_module_changes
    apply_pool_changes submit_loads evict_modules evict_pools apply_redis_config publish
    apply_full_config apply_incremental incoming_of insert_functions insert_topic insert_all insert
    remove missing_keys bytes_discrete ℕ_discrete
accepted = refl

run_config_sync-Authoritative_example :
    Authoritative submits answers fresh (run_config_sync registers submits answers fresh).0
run_config_sync-Authoritative_example =
    run_config_sync-Authoritative registers submits answers fresh refl accepted
