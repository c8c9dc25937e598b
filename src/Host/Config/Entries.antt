-- ===== src/Host/Config/Entries.antt =====
-- The configuration that config.rs reads, the entries of its registry, and the diffs that it returns.
use wasm_platform.Base.{ℕ, Bool, Bytes, List, Option, if◌then◌else◌, ◌==◌}

pub data WorldType : Type 0 where
  message http : WorldType

-- `WorldType::try_from(..).unwrap_or(Message)`.
abbrev pub world_type_of : ℕ → WorldType
world_type_of n = if n == 1 then http else message

pub data MetricType : Type 0 where
  counter gauge : MetricType

pub record MetricDefinition : Type 0 where
  pub name : Bytes
  pub type : MetricType
  pub label_keys : List Bytes

pub record FunctionConfig : Type 0 where
  pub name : Bytes
  pub module_ref : Bytes
  pub world_type : ℕ
  pub topic : Option Bytes
  pub sql_username : Option Bytes

pub record SqlUserConfig : Type 0 where
  pub username : Bytes
  pub connection_url : Bytes

pub record ApplicationConfig : Type 0 where
  pub name : Bytes
  pub namespace : Bytes
  pub functions : List FunctionConfig
  pub sql_users : List SqlUserConfig
  pub key_value : Bool
  pub metrics : List MetricDefinition

-- `app_config` and `delete`.
pub record AppUpdate : Type 0 where
  pub app_config : Option ApplicationConfig
  pub delete : Bool

pub record FunctionEntry : Type 0 where
  pub app_name : Bytes
  pub app_namespace : Bytes
  pub function_name : Bytes
  pub module_ref : Bytes
  pub world_type : WorldType
  pub sql_username : Option Bytes
  pub kv_enabled : Bool
  pub metrics : List MetricDefinition

-- Namespace, application, function.
abbrev pub ModuleKey : Type 0
ModuleKey = Bytes × Bytes × Bytes

pub record ConfigDiff : Type 0 where
  pub modules_to_load : List (Bytes × Bytes × Bytes × Bytes)
  pub modules_to_evict : List ModuleKey
  pub pools_to_create : List (Bytes × Bytes × Bytes × Bytes)
  pub pools_to_evict_apps : List (Bytes × Bytes)

-- By topic.
abbrev pub AppRegistry : Type 0
AppRegistry = List (Bytes × FunctionEntry)

abbrev pub function_entry_from : ApplicationConfig → FunctionConfig → FunctionEntry
function_entry_from app fn_cfg = record {
  app_name = app.name;
  app_namespace = app.namespace;
  function_name = fn_cfg.name;
  module_ref = fn_cfg.module_ref;
  world_type = world_type_of fn_cfg.world_type;
  sql_username = fn_cfg.sql_username;
  kv_enabled = app.key_value;
  metrics = app.metrics;
}

abbrev pub key_of : FunctionEntry → ModuleKey
key_of e = (e.app_namespace, e.app_name, e.function_name)

abbrev pub load_of : FunctionEntry → Bytes × Bytes × Bytes × Bytes
load_of e = (e.app_namespace, e.app_name, e.function_name, e.module_ref)
