-- ===== src/Host/Config/Eviction.antt =====
-- The modules in the lists that `apply_incremental` of config.rs returns.
use wasm_platform.Base.{
  ◌≡◌, refl, ◌⊎◌, true, false, Bytes, List, ◌∷◌, [], none, some, bytes_eq, bytes_discrete, arith,
  ite, Option-cases, Bool-cases, sym, ◌∙◌, inl, inr, bytes_eq_iff, Among, Among-append_left,
  Among-append_right,
}
use wasm_platform.Base.Map.{get, remove, get-remove, Distinct}
use wasm_platform.Host.Config.Entries.{
  ApplicationConfig, FunctionConfig, FunctionEntry, AppRegistry, AppUpdate, ModuleKey, key_of,
  function_entry_from, load_of,
}
use wasm_platform.Host.Config.Registry.{
  load_functions, taken_keys, owned_by, topics_of, remove_topics, delete_app, upsert_app,
  apply_update, apply_incremental, get_by_topic,
}
use wasm_platform.Host.Config.Lookup.{declarations, or_else, last_with}
use wasm_platform.Host.Config.Updates.{
  member, get-remove_owned, get-apply_update, apply_update-Distinct,
}

remove_topics-evicts :
    (t : Bytes) (e : FunctionEntry) (ts : List Bytes) (m : AppRegistry)
    → get bytes_discrete t m ≡ some e
    → member t ts ≡ true
    → Among (key_of e) (remove_topics ts m).1
unfolding remove_topics
remove_topics-evicts t e [] m h i = absurd (ground arith)
remove_topics-evicts t e (k ∷ ts) m h i = elim (Option-cases (get bytes_discrete k m)) [
  | inl q ↦
      rw (q, remove_topics) (remove_topics-evicts t e ts m h (ground (arith, bytes_eq_iff k t)))
  | inr (old, q) ↦
      rw (q, remove_topics)
        (elim (Bool-cases (bytes_eq k t)) [
          | inl same ↦ inl (ground (arith, bytes_eq_iff k t))
          | inr other ↦ inr (
              remove_topics-evicts t e ts (remove bytes_discrete k m)
                (ground (arith, get-remove bytes_discrete k t m, bytes_eq_iff k t)) (ground arith))
        ])
]

member-topics_of :
    (app : ApplicationConfig) (t : Bytes) (e : FunctionEntry) (m : AppRegistry)
    → get bytes_discrete t m ≡ some e
    → owned_by app e ≡ true
    → member t (topics_of app m) ≡ true
unfolding topics_of get
member-topics_of app t e [] h o = ground arith
member-topics_of app t e ((k, x) ∷ m) h o =
    ground (arith, member-topics_of app t e m, bytes_eq_iff k t)

last_with-cons :
    (t k : Bytes) (app : ApplicationConfig) (f : FunctionConfig) (fs : List FunctionConfig)
    → f.topic ≡ some k
    → last_with t (declarations app (f ∷ fs))
      ≡ or_else
          (last_with t (declarations app fs))
          (ite (bytes_discrete k t) (some (function_entry_from app f)) none)
unfolding last_with
last_with-cons t k app f fs q = ground (arith, q)

last_with-skip :
    (t : Bytes) (app : ApplicationConfig) (f : FunctionConfig) (fs : List FunctionConfig)
    → f.topic ≡ none
    → last_with t (declarations app (f ∷ fs)) ≡ last_with t (declarations app fs)
last_with-skip t app f fs q = ground (arith, q)

-- The last declaration of a topic is loaded.
load-last_with :
    (t : Bytes) (e : FunctionEntry) (app : ApplicationConfig) (fs : List FunctionConfig)
    → last_with t (declarations app fs) ≡ some e
    → Among (load_of e) (load_functions app fs)
unfolding load_functions last_with
load-last_with t e app [] h = absurd (ground arith)
load-last_with t e app (f ∷ fs) h = elim (Option-cases f.topic) [
  | inl q ↦
      rw (q, load_functions) (load-last_with t e app fs (sym (last_with-skip t app f fs q) ∙ h))
  | inr (k, q) ↦
      rw (q, load_functions)
        (elim (Option-cases (last_with t (declarations app fs))) [
          | inl r ↦ inl (ground (arith, last_with-cons t k app f fs q))
          | inr (y, r) ↦
              inr (load-last_with t e app fs (ground (arith, last_with-cons t k app f fs q)))
        ])
]

Among-taken :
    (app : ApplicationConfig) (f : FunctionConfig) (fs : List FunctionConfig) (m : AppRegistry)
    (key : ModuleKey)
    → Among key (taken_keys app fs m)
    → Among key (taken_keys app (f ∷ fs) m)
unfolding taken_keys
Among-taken app f fs m key a = ground arith

taken-last_with :
    (t : Bytes) (e x : FunctionEntry) (app : ApplicationConfig) (fs : List FunctionConfig)
    (m : AppRegistry)
    → get bytes_discrete t m ≡ some e
    → owned_by app e ≡ false
    → last_with t (declarations app fs) ≡ some x
    → Among (key_of e) (taken_keys app fs m)
unfolding taken_keys last_with
taken-last_with t e x app [] m h o l = absurd (ground arith)
taken-last_with t e x app (f ∷ fs) m h o l = elim (Option-cases f.topic) [
  | inl q ↦
      rw (q, taken_keys)
        (taken-last_with t e x app fs m h o (sym (last_with-skip t app f fs q) ∙ l))
  | inr (k, q) ↦ elim (bytes_discrete k t) [
    | yes same ↦ rw (q, taken_keys, same, h, o) (inl refl)
    | no other ↦
        Among-taken app f fs m (key_of e)
          (taken-last_with t e x app fs m h o (ground (arith, last_with-cons t k app f fs q)))
  ]
]

-- An entry of the application itself is evicted, whichever way the application changes.
owned-evicts :
    (t : Bytes) (e : FunctionEntry) (u : AppUpdate) (app : ApplicationConfig) (m : AppRegistry)
    → u.app_config ≡ some app
    → get bytes_discrete t m ≡ some e
    → owned_by app e ≡ true
    → Among (key_of e) (apply_update u m).1.modules_to_evict
unfolding apply_update delete_app upsert_app
owned-evicts t e u app m q h o =
    let there = remove_topics-evicts t e (topics_of app m) m h (member-topics_of app t e m h o) in
    elim (Bool-cases u.delete) [
      | inl del ↦ rw (q, del, apply_update) there
      | inr up ↦ rw (q, up, apply_update) (Among-append_left (key_of e) _ _ there)
    ]

taken-evicts :
    (t : Bytes) (e x : FunctionEntry) (u : AppUpdate) (app : ApplicationConfig) (m : AppRegistry)
    → Distinct bytes_discrete m
    → u.app_config ≡ some app
    → u.delete ≡ false
    → get bytes_discrete t m ≡ some e
    → owned_by app e ≡ false
    → last_with t (declarations app app.functions) ≡ some x
    → Among (key_of e) (apply_update u m).1.modules_to_evict
unfolding apply_update upsert_app
taken-evicts t e x u app m d q up h o l =
    rw (q, up, apply_update)
      (Among-append_right (key_of e) (remove_topics (topics_of app m) m).1 _ (
        taken-last_with t e x app app.functions _
          (get-remove_owned app t m d ∙ ground (arith, h, o)) o l))

-- One update evicts what it takes away.
update-evicts :
    (t : Bytes) (e : FunctionEntry) (u : AppUpdate) (m : AppRegistry)
    → Distinct bytes_discrete m
    → get bytes_discrete t m ≡ some e
    → Among (key_of e) (apply_update u m).1.modules_to_evict
      ⊎ (get bytes_discrete t (apply_update u m).0 ≡ some e)
update-evicts t e u m d h = elim (Option-cases u.app_config) [
  | inl q ↦ inr (ground (arith, get-apply_update t u m d))
  | inr (app, q) ↦ elim (Bool-cases (owned_by app e)) [
    | inl o ↦ inl (owned-evicts t e u app m q h o)
    | inr o ↦ elim (Bool-cases u.delete) [
      | inl del ↦ inr (ground (arith, get-apply_update t u m d, q, h, o, del))
      | inr up ↦ elim (Option-cases (last_with t (declarations app app.functions))) [
        | inl l ↦ inr (ground (arith, get-apply_update t u m d, q, h, o, up, l))
        | inr (x, l) ↦ inl (taken-evicts t e x u app m d q up h o l)
      ]
    ]
  ]
]

update-loads :
    (t : Bytes) (e : FunctionEntry) (u : AppUpdate) (m : AppRegistry)
    → Distinct bytes_discrete m
    → get bytes_discrete t (apply_update u m).0 ≡ some e
    → Among (load_of e) (apply_update u m).1.modules_to_load ⊎ (get bytes_discrete t m ≡ some e)
unfolding apply_update upsert_app
update-loads t e u m d h = elim (Option-cases u.app_config) [
  | inl q ↦ inr (ground (arith, get-apply_update t u m d))
  | inr (app, q) ↦ elim (Bool-cases u.delete) [
    | inl del ↦ inr (ground (arith, get-apply_update t u m d, q, h, del))
    | inr up ↦ elim (Option-cases (last_with t (declarations app app.functions))) [
      | inl l ↦ inr (ground (arith, get-apply_update t u m d, q, h, up, l))
      | inr (x, l) ↦ inl (
          rw (q, up, apply_update)
            (load-last_with t e app app.functions
              (l ∙ ground (arith, get-apply_update t u m d, q, up, l))))
    ]
  ]
]

-- Where the registry holds each topic once, no incremental update loses a module: an entry that a
-- topic had is the topic's still, or its module stands in the list to evict.
pub apply_incremental-evicts :
    (t : Bytes) (e : FunctionEntry) (us : List AppUpdate) (m : AppRegistry)
    → Distinct bytes_discrete m
    → get_by_topic t m ≡ some e
    → Among (key_of e) (apply_incremental us m).1.modules_to_evict
      ⊎ (get_by_topic t (apply_incremental us m).0 ≡ some e)
unfolding apply_incremental get_by_topic
apply_incremental-evicts t e [] m d h = inr h
apply_incremental-evicts t e (u ∷ us) m d h = elim (update-evicts t e u m d h) [
  | inl a ↦ inl (Among-append_left (key_of e) _ _ a)
  | inr k ↦
      elim (apply_incremental-evicts t e us (apply_update u m).0 (apply_update-Distinct u m d) k) [
        | inl a ↦ inl (Among-append_right (key_of e) (apply_update u m).1.modules_to_evict _ a)
        | inr r ↦ inr r
      ]
]

-- Where the registry held each topic once, an entry that a topic has after incremental updates is the
-- one it had before, or its module with that reference stands in the list to load.
pub apply_incremental-loads :
    (t : Bytes) (e : FunctionEntry) (us : List AppUpdate) (m : AppRegistry)
    → Distinct bytes_discrete m
    → get_by_topic t (apply_incremental us m).0 ≡ some e
    → Among (load_of e) (apply_incremental us m).1.modules_to_load ⊎ (get_by_topic t m ≡ some e)
unfolding apply_incremental get_by_topic
apply_incremental-loads t e [] m d h = inr h
apply_incremental-loads t e (u ∷ us) m d h =
    elim (apply_incremental-loads t e us (apply_update u m).0 (apply_update-Distinct u m d) h) [
      | inl a ↦ inl (Among-append_right (load_of e) (apply_update u m).1.modules_to_load _ a)
      | inr k ↦ elim (update-loads t e u m d k) [
        | inl a ↦ inl (Among-append_left (load_of e) _ _ a)
        | inr r ↦ inr r
      ]
    ]
