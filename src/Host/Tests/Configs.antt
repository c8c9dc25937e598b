-- ===== src/Host/Tests/Configs.antt =====
-- The properties of config.rs on two applications.
use wasm_platform.Base.{
  Among, ◌↔◌, ◌≡◌, refl, false, Bytes, ascii, List, ◌∷◌, [], none, some, ◌⊎◌, bytes_discrete,
  ℕ_discrete, bytes_eq, Among,
}
use wasm_platform.Base.Map.{get, insert, remove, Distinct}
use wasm_platform.Host.Config.Entries.{
  ModuleKey, FunctionConfig, ApplicationConfig, AppUpdate, FunctionEntry, AppRegistry,
  function_entry_from, key_of,
}
use wasm_platform.Host.Config.Registry.{
  apply_full_config, apply_incremental, apply_update, upsert_app, get_by_topic, incoming_of,
  insert_all, insert_functions, insert_topic, remove_topics, topics_of,
}
use wasm_platform.Host.Config.Lookup.{last_with, all_declarations, get_by_topic-apply_full_config}
use wasm_platform.Host.Config.Updates.{updated_all, get_by_topic-apply_incremental}
use wasm_platform.Host.Config.Eviction.{apply_incremental-evicts}
use wasm_platform.Host.Config.Snapshot.{apply_full_config-evicts_iff}

abbrev function : Bytes → Bytes → FunctionConfig
function name topic = record {
  name = name;
  module_ref = ascii "ref";
  world_type = 1;
  topic = some topic;
  sql_username = none;
}

abbrev application : Bytes → List FunctionConfig → ApplicationConfig
application name functions = record {
  name = name;
  namespace = ascii "ns";
  functions = functions;
  sql_users = [];
  key_value = false;
  metrics = [];
}

abbrev shop : ApplicationConfig
shop =
    application (ascii "shop")
      (function (ascii "cart") (ascii "a") ∷ function (ascii "pay") (ascii "b") ∷ [])

abbrev blog : ApplicationConfig
blog = application (ascii "blog") (function (ascii "post") (ascii "a") ∷ [])

-- The registry of the shop alone, where topic `a` is its cart.
abbrev registry : AppRegistry
registry = (apply_full_config (shop ∷ []) []).0

abbrev cart : FunctionEntry
cart = function_entry_from shop (function (ascii "cart") (ascii "a"))

abbrev pay : FunctionEntry
pay = function_entry_from shop (function (ascii "pay") (ascii "b"))

abbrev post : FunctionEntry
post = function_entry_from blog (function (ascii "post") (ascii "a"))

-- The blog takes topic `a`.
abbrev takeover : List AppUpdate
takeover = record { app_config = some blog; delete = false } ∷ []

registry-Distinct : Distinct bytes_discrete registry
registry-Distinct = (get_by_topic-apply_full_config (ascii "a") (shop ∷ []) []).1

holds-cart : get_by_topic (ascii "a") registry ≡ some cart
unfolding get_by_topic get insert remove apply_full_config incoming_of insert_all insert_functions
    insert_topic bytes_discrete ℕ_discrete
holds-cart = refl

holds-pay : get_by_topic (ascii "b") registry ≡ some pay
unfolding get_by_topic get insert remove apply_full_config incoming_of insert_all insert_functions
    insert_topic bytes_discrete ℕ_discrete
holds-pay = refl

takes-post : get_by_topic (ascii "a") (apply_incremental takeover registry).0 ≡ some post
unfolding get_by_topic get insert remove apply_full_config incoming_of insert_all insert_functions
    insert_topic apply_incremental apply_update upsert_app remove_topics topics_of bytes_eq
    bytes_discrete ℕ_discrete
takes-post = refl

get_by_topic-apply_full_config_example :
    (get_by_topic (ascii "a") (apply_full_config (shop ∷ blog ∷ []) registry).0
      ≡ last_with (ascii "a") (all_declarations (shop ∷ blog ∷ [])))
    × Distinct bytes_discrete (apply_full_config (shop ∷ blog ∷ []) registry).0
get_by_topic-apply_full_config_example =
    get_by_topic-apply_full_config (ascii "a") (shop ∷ blog ∷ []) registry

get_by_topic-apply_incremental_example :
    (get_by_topic (ascii "a") (apply_incremental takeover registry).0
      ≡ updated_all takeover (ascii "a") (get_by_topic (ascii "a") registry))
    × Distinct bytes_discrete (apply_incremental takeover registry).0
get_by_topic-apply_incremental_example =
    get_by_topic-apply_incremental (ascii "a") takeover registry registry-Distinct

apply_incremental-evicts_example :
    Among (key_of cart) (apply_incremental takeover registry).1.modules_to_evict
    ⊎ (get_by_topic (ascii "a") (apply_incremental takeover registry).0 ≡ some cart)
apply_incremental-evicts_example =
    apply_incremental-evicts (ascii "a") cart takeover registry registry-Distinct holds-cart

full-post : get_by_topic (ascii "a") (apply_full_config (blog ∷ []) registry).0 ≡ some post
unfolding get_by_topic get insert remove apply_full_config incoming_of insert_all insert_functions
    insert_topic bytes_discrete ℕ_discrete
full-post = refl

full-none : get_by_topic (ascii "b") (apply_full_config (blog ∷ []) registry).0 ≡ none
unfolding get_by_topic get insert remove apply_full_config incoming_of insert_all insert_functions
    insert_topic bytes_discrete ℕ_discrete
full-none = refl

-- The snapshot gives topic `a` of the shop to the blog.
abbrev reassigned : List ApplicationConfig
reassigned = shop ∷ blog ∷ []

abbrev evicted : List ModuleKey
evicted = (apply_full_config reassigned registry).1.modules_to_evict

apply_full_config-evicts_iff_example : Among (key_of cart) evicted ↔ (
    (t : Bytes) × (e : FunctionEntry) × (get_by_topic t registry ≡ some e)
    × (key_of e ≡ key_of cart)
    × (get_by_topic t (apply_full_config reassigned registry).0 ≡ none))
apply_full_config-evicts_iff_example =
    apply_full_config-evicts_iff reassigned registry (key_of cart) registry-Distinct
