-- ===== src/Host/Config/Registry.antt =====
-- The operations of `AppRegistry` in config.rs.
use wasm_platform.Base.{
  ltb, Bool, true, false, not, ◌&&◌, Bytes, List, ◌∷◌, [], ◌++◌, Option, none, some, if◌then◌else◌,
  ◌==◌, bytes_eq, bytes_discrete, map,
}
use wasm_platform.Base.Map.{get, insert, remove, contains_key}
use wasm_platform.Host.Config.Entries.{
  MetricDefinition, AppRegistry, AppUpdate, ApplicationConfig, ConfigDiff, FunctionConfig,
  FunctionEntry, ModuleKey, SqlUserConfig, function_entry_from, key_of, load_of,
}

-- The loops over the functions of an application that insert into a map.
unfoldable pub insert_topic : ApplicationConfig → FunctionConfig → AppRegistry → AppRegistry
insert_topic app f m = elim f.topic [
  | none ↦ m
  | some topic ↦ insert bytes_discrete topic (function_entry_from app f) m
]

unfoldable pub insert_functions :
    ApplicationConfig → List FunctionConfig → AppRegistry → AppRegistry
insert_functions app [] m = m
insert_functions app (f ∷ fs) m = insert_functions app fs (insert_topic app f m)

unfoldable pub load_functions :
    ApplicationConfig → List FunctionConfig → List (Bytes × Bytes × Bytes × Bytes)
load_functions app [] = []
load_functions app (f ∷ fs) = elim f.topic [
  | none ↦ load_functions app fs
  | some topic ↦ load_of (function_entry_from app f) ∷ load_functions app fs
]

abbrev pub pools_of : ApplicationConfig → List (Bytes × Bytes × Bytes × Bytes)
pools_of app =
    map (λ (u : SqlUserConfig). (app.namespace, app.name, u.username, u.connection_url))
      app.sql_users

unfoldable pub incoming_of : List ApplicationConfig → AppRegistry → AppRegistry
incoming_of [] m = m
incoming_of (app ∷ apps) m = incoming_of apps (insert_functions app app.functions m)

unfoldable pub pools_to_create_of : List ApplicationConfig → List (Bytes × Bytes × Bytes × Bytes)
pools_to_create_of [] = []
pools_to_create_of (app ∷ apps) = pools_of app ++ pools_to_create_of apps

-- The keys of the entries whose topic the new configuration lacks.
unfoldable pub missing_keys : AppRegistry → AppRegistry → List ModuleKey
missing_keys incoming [] = []
missing_keys incoming ((topic, e) ∷ m) =
    let rest = missing_keys incoming m in
    if not (contains_key bytes_discrete topic incoming) then key_of e ∷ rest else rest

-- Lexicographic order on text and on pairs of texts, `sort_unstable` by it, and `dedup`.
unfoldable pub bytes_le : Bytes → Bytes → Bool
bytes_le [] b = true
bytes_le (x ∷ a) [] = false
bytes_le (x ∷ a) (y ∷ b) = let rest = bytes_le a b in if x == y then rest else ltb x y

abbrev pub app_eq : Bytes × Bytes → Bytes × Bytes → Bool
app_eq a b = bytes_eq a.0 b.0 && bytes_eq a.1 b.1

abbrev pub app_le : Bytes × Bytes → Bytes × Bytes → Bool
app_le a b = if bytes_eq a.0 b.0 then bytes_le a.1 b.1 else bytes_le a.0 b.0

unfoldable pub insert_sorted : Bytes × Bytes → List (Bytes × Bytes) → List (Bytes × Bytes)
insert_sorted a [] = a ∷ []
insert_sorted a (b ∷ l) = let rest = insert_sorted a l in if app_le a b then a ∷ b ∷ l else b ∷ rest

unfoldable pub sort : List (Bytes × Bytes) → List (Bytes × Bytes)
sort [] = []
sort (a ∷ l) = insert_sorted a (sort l)

-- `dedup_from a l` is `a ∷ l` without the first of two equal neighbours.
unfoldable pub dedup_from : Bytes × Bytes → List (Bytes × Bytes) → List (Bytes × Bytes)
dedup_from a [] = a ∷ []
dedup_from a (b ∷ l) = let rest = dedup_from b l in if app_eq a b then rest else a ∷ rest

unfoldable pub dedup : List (Bytes × Bytes) → List (Bytes × Bytes)
dedup [] = []
dedup (a ∷ l) = dedup_from a l

-- `map.clear()` and the loop that moves the new entries in.
unfoldable pub insert_all : AppRegistry → AppRegistry → AppRegistry
insert_all [] m = m
insert_all ((topic, e) ∷ incoming) m = insert_all incoming (insert bytes_discrete topic e m)

unfoldable pub apply_full_config : List ApplicationConfig → AppRegistry → AppRegistry × ConfigDiff
apply_full_config applications m =
    let incoming = incoming_of applications [] in
    let evicted = missing_keys incoming m in
    (
      insert_all incoming [],
      record {
        modules_to_load = map (λ (p : Bytes × FunctionEntry). load_of p.1) incoming;
        modules_to_evict = evicted;
        pools_to_create = pools_to_create_of applications;
        pools_to_evict_apps = dedup (sort (map (λ (k : ModuleKey). (k.0, k.1)) evicted));
      },
    )

abbrev pub owned_by : ApplicationConfig → FunctionEntry → Bool
owned_by app e = bytes_eq e.app_namespace app.namespace && bytes_eq e.app_name app.name

-- The topics of the application's entries, and their removal with the keys that it evicts.
unfoldable pub topics_of : ApplicationConfig → AppRegistry → List Bytes
topics_of app [] = []
topics_of app ((topic, e) ∷ m) =
    let rest = topics_of app m in if owned_by app e then topic ∷ rest else rest

unfoldable pub remove_topics : List Bytes → AppRegistry → AppRegistry × List ModuleKey
remove_topics [] m = (m, [])
remove_topics (topic ∷ topics) m = elim (get bytes_discrete topic m) [
  | none ↦ remove_topics topics m
  | some old ↦
      let (m', keys) = remove_topics topics (remove bytes_discrete topic m) in
      (m', key_of old ∷ keys)
]

-- The keys of other applications' entries whose topic the application takes.
unfoldable pub taken_keys : ApplicationConfig → List FunctionConfig → AppRegistry → List ModuleKey
taken_keys app [] m = []
taken_keys app (f ∷ fs) m = elim f.topic [
  | none ↦ taken_keys app fs m
  | some topic ↦ elim (get bytes_discrete topic m) [
    | none ↦ taken_keys app fs m
    | some old ↦
        if not (owned_by app old) then key_of old ∷ taken_keys app fs m else taken_keys app fs m
  ]
]

abbrev pub no_change : ConfigDiff
no_change = record {
  modules_to_load = [];
  modules_to_evict = [];
  pools_to_create = [];
  pools_to_evict_apps = [];
}

unfoldable pub delete_app : ApplicationConfig → AppRegistry → AppRegistry × ConfigDiff
delete_app app m =
    let (m', evicted) = remove_topics (topics_of app m) m in
    (
      m',
      record no_change {
        modules_to_evict = evicted;
        pools_to_evict_apps = (app.namespace, app.name) ∷ [];
      },
    )

unfoldable pub upsert_app : ApplicationConfig → AppRegistry → AppRegistry × ConfigDiff
upsert_app app m =
    let (m', evicted) = remove_topics (topics_of app m) m in
    (
      insert_functions app app.functions m',
      record {
        modules_to_load = load_functions app app.functions;
        modules_to_evict = evicted ++ taken_keys app app.functions m';
        pools_to_create = pools_of app;
        pools_to_evict_apps = (app.namespace, app.name) ∷ [];
      },
    )

unfoldable pub apply_update : AppUpdate → AppRegistry → AppRegistry × ConfigDiff
apply_update update m = elim update.app_config [
  | none ↦ (m, no_change)
  | some app ↦ if update.delete then delete_app app m else upsert_app app m
]

-- What one update adds behind the diff so far.
abbrev pub join : ConfigDiff → ConfigDiff → ConfigDiff
join a b = record {
  modules_to_load = a.modules_to_load ++ b.modules_to_load;
  modules_to_evict = a.modules_to_evict ++ b.modules_to_evict;
  pools_to_create = a.pools_to_create ++ b.pools_to_create;
  pools_to_evict_apps = a.pools_to_evict_apps ++ b.pools_to_evict_apps;
}

unfoldable pub apply_incremental : List AppUpdate → AppRegistry → AppRegistry × ConfigDiff
apply_incremental [] m = (m, no_change)
apply_incremental (update ∷ updates) m =
    let (m', diff) = apply_update update m in
    let (m'', rest) = apply_incremental updates m' in (m'', join diff rest)

unfoldable pub get_by_topic : Bytes → AppRegistry → Option FunctionEntry
get_by_topic topic m = get bytes_discrete topic m

unfoldable pub topics : AppRegistry → List Bytes
topics m = map (λ (p : Bytes × FunctionEntry). p.0) m

unfoldable pub app_discrete : Discrete (Bytes × Bytes)
unfolding bytes_discrete
app_discrete = hlevel bytes_discrete

-- The loop of `all_app_metric_defs`: the first entry of an application gives its definitions.
unfoldable pub collect_defs :
    AppRegistry
    → List ((Bytes × Bytes) × List MetricDefinition)
    → List ((Bytes × Bytes) × List MetricDefinition)
unfolding app_discrete
collect_defs [] seen = seen
collect_defs ((topic, e) ∷ m) seen =
    let key : Bytes × Bytes = (e.app_namespace, e.app_name) in
    collect_defs m
      (if contains_key app_discrete key seen then seen else insert app_discrete key e.metrics seen)

unfoldable pub all_app_metric_defs : AppRegistry → List ((Bytes × Bytes) × List MetricDefinition)
unfolding collect_defs
all_app_metric_defs m = collect_defs m []
