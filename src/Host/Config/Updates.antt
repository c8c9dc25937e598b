-- ===== src/Host/Config/Updates.antt =====
-- What `AppRegistry` answers for a topic after incremental updates.
use wasm_platform.Base.{
  ◌≡◌, refl, Bool, false, ◌||◌, Bytes, List, ◌∷◌, [], Option, none, some, if◌then◌else◌, bytes_eq,
  bytes_discrete, arith, Option-cases, Bool-cases, ◌∙◌, ap, inl, inr, bytes_eq_iff,
}
use wasm_platform.Base.Map.{get, remove, get-remove, Distinct, remove-Distinct}
use wasm_platform.Host.Config.Entries.{ApplicationConfig, FunctionEntry, AppRegistry, AppUpdate}
use wasm_platform.Host.Config.Registry.{
  owned_by, topics_of, remove_topics, delete_app, upsert_app, apply_update, apply_incremental,
  get_by_topic,
}
use wasm_platform.Host.Config.Lookup.{
  declarations, or_else, last_with, get-insert_functions, insert_functions-Distinct,
}

abbrev pub member : Bytes → List Bytes → Bool
member t [] = false
member t (k ∷ ks) = bytes_eq k t || member t ks

-- What an update of the application leaves of an entry.
abbrev pub unless_owned : ApplicationConfig → Option FunctionEntry → Option FunctionEntry
unless_owned app none = none
unless_owned app (some e) = if owned_by app e then none else some e

get-remove_topics :
    (t : Bytes) (ts : List Bytes) (m : AppRegistry)
    → get bytes_discrete t (remove_topics ts m).0
      ≡ (if member t ts then none else get bytes_discrete t m)
unfolding remove_topics
get-remove_topics t [] m = refl
get-remove_topics t (k ∷ ts) m = elim (Option-cases (get bytes_discrete k m)) [
  | inl e ↦ ground (arith, get-remove_topics t ts m, bytes_eq_iff k t)
  | inr (old, e) ↦ ground (
    arith,
    get-remove_topics t ts (remove bytes_discrete k m),
    bytes_eq_iff k t,
    get-remove bytes_discrete k t m,
  )
]

remove_topics-Distinct :
    (ts : List Bytes) (m : AppRegistry)
    → Distinct bytes_discrete m
    → Distinct bytes_discrete (remove_topics ts m).0
unfolding remove_topics
remove_topics-Distinct [] m d = d
remove_topics-Distinct (k ∷ ts) m d = elim (Option-cases (get bytes_discrete k m)) [
  | inl e ↦ rw (e, remove_topics) (remove_topics-Distinct ts m d)
  | inr (old, e) ↦
      rw (e, remove_topics) (remove_topics-Distinct ts _ (remove-Distinct bytes_discrete k m d))
]

member_absent :
    (app : ApplicationConfig) (t : Bytes) (m : AppRegistry)
    → get bytes_discrete t m ≡ none
    → member t (topics_of app m) ≡ false
unfolding topics_of get
member_absent app t [] h = refl
member_absent app t ((k, e) ∷ m) h = ground (arith, member_absent app t m, bytes_eq_iff k t)

unless_owned-topics :
    (app : ApplicationConfig) (t : Bytes) (m : AppRegistry)
    → Distinct bytes_discrete m
    → (if member t (topics_of app m) then none else get bytes_discrete t m)
      ≡ unless_owned app (get bytes_discrete t m)
unfolding topics_of get
unless_owned-topics app t [] d = refl
unless_owned-topics app t ((k, e) ∷ m) d = ground (
  arith,
  unless_owned-topics app t m d.1,
  bytes_eq_iff k t,
  member_absent app k m d.0,
  member_absent app t m,
)

pub get-remove_owned :
    (app : ApplicationConfig) (t : Bytes) (m : AppRegistry)
    → Distinct bytes_discrete m
    → get bytes_discrete t (remove_topics (topics_of app m) m).0
      ≡ unless_owned app (get bytes_discrete t m)
get-remove_owned app t m d = get-remove_topics t (topics_of app m) m ∙ unless_owned-topics app t m d

-- The answer for a topic after one update, from the answer before it.
abbrev pub updated : AppUpdate → Bytes → Option FunctionEntry → Option FunctionEntry
updated update t before = elim update.app_config [
  | none ↦ before
  | some app ↦
      if update.delete
      then unless_owned app before
      else or_else (last_with t (declarations app app.functions)) (unless_owned app before)
]

pub get-apply_update :
    (t : Bytes) (update : AppUpdate) (m : AppRegistry)
    → Distinct bytes_discrete m
    → get bytes_discrete t (apply_update update m).0 ≡ updated update t (get bytes_discrete t m)
unfolding apply_update delete_app upsert_app
get-apply_update t update m d = elim (Option-cases update.app_config) [
  | inl e ↦ ground (arith, e)
  | inr (app, e) ↦ ground (
    arith,
    e,
    get-remove_owned app t m d,
    get-insert_functions t app app.functions (remove_topics (topics_of app m) m).0,
  )
]

pub apply_update-Distinct :
    (update : AppUpdate) (m : AppRegistry)
    → Distinct bytes_discrete m
    → Distinct bytes_discrete (apply_update update m).0
unfolding apply_update delete_app upsert_app
apply_update-Distinct update m d = elim (Option-cases update.app_config) [
  | inl e ↦ rw (e, apply_update) d
  | inr (app, e) ↦ elim (Bool-cases update.delete) [
    | inl q ↦ rw (e, q, apply_update) (remove_topics-Distinct (topics_of app m) m d)
    | inr q ↦
        rw (e, q, apply_update)
          (insert_functions-Distinct app app.functions _
            (remove_topics-Distinct (topics_of app m) m d))
  ]
]

abbrev pub updated_all : List AppUpdate → Bytes → Option FunctionEntry → Option FunctionEntry
updated_all [] t before = before
updated_all (u ∷ us) t before = updated_all us t (updated u t before)

-- Where the registry holds each topic once, incremental updates act on each topic by itself, in order:
-- one with an application drops the topic's entry if it is that application's, then, unless it deletes,
-- the last function it declares for the topic takes it, from another application too; an update with
-- no application does nothing. Each topic is still held once.
pub get_by_topic-apply_incremental :
    (t : Bytes) (us : List AppUpdate) (m : AppRegistry)
    → Distinct bytes_discrete m
    → (get_by_topic t (apply_incremental us m).0 ≡ updated_all us t (get_by_topic t m))
      × Distinct bytes_discrete (apply_incremental us m).0
unfolding get_by_topic apply_incremental
get_by_topic-apply_incremental t [] m d = (refl, d)
get_by_topic-apply_incremental t (u ∷ us) m d =
    let (same, distinct) =
      get_by_topic-apply_incremental t us (apply_update u m).0 (apply_update-Distinct u m d) in
    (same ∙ ap (updated_all us t) (get-apply_update t u m d), distinct)
