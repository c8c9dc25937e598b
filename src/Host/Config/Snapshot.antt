-- ===== src/Host/Config/Snapshot.antt =====
-- The modules in the lists that `apply_full_config` of config.rs returns.
use wasm_platform.Base.{
  ◌↔◌, ◌⊎◌, ap, subst, Bool-cases, ◌≡◌, false, Bytes, List, ◌∷◌, [], none, some, bytes_discrete,
  map, arith, sym, ◌∙◌, inl, inr, Among,
}
use wasm_platform.Base.Map.{get, contains_key, Distinct}
use wasm_platform.Host.Config.Entries.{
  ApplicationConfig, FunctionEntry, AppRegistry, ModuleKey, key_of, load_of,
}
use wasm_platform.Host.Config.Registry.{incoming_of, missing_keys, apply_full_config, get_by_topic}
use wasm_platform.Host.Config.Lookup.{get-insert_all_empty, incoming_of-Distinct}

Among-head : (a key : ModuleKey) (l : List ModuleKey) → Among key (a ∷ l) → (a ≡ key) ⊎ Among key l
Among-head a key l h = h

missing_rest :
    (k : Bytes) (x : FunctionEntry) (incoming m : AppRegistry) (key : ModuleKey)
    → Among key (missing_keys incoming m)
    → Among key (missing_keys incoming ((k, x) ∷ m))
unfolding missing_keys
missing_rest k x incoming m key a = ground arith

missing-evicts :
    (t : Bytes) (e : FunctionEntry) (incoming m : AppRegistry)
    → get bytes_discrete t m ≡ some e
    → contains_key bytes_discrete t incoming ≡ false
    → Among (key_of e) (missing_keys incoming m)
unfolding missing_keys get
missing-evicts t e incoming [] h c = absurd (ground arith)
missing-evicts t e incoming ((k, x) ∷ m) h c = elim (bytes_discrete k t) [
  | yes same ↦ rw (same, c) (inl (ground arith))
  | no other ↦
      missing_rest k x incoming m (key_of e) (missing-evicts t e incoming m (ground arith) c)
]

-- An entry that the new configuration lacks, under its key.
abbrev pub Lost : AppRegistry → AppRegistry → ModuleKey → Type 0
Lost incoming m key =
    (t : Bytes) × (e : FunctionEntry) × (get bytes_discrete t m ≡ some e)
    × (key_of e ≡ key)
    × (contains_key bytes_discrete t incoming ≡ false)

get-rest :
    (k t : Bytes) (x e : FunctionEntry) (m : AppRegistry)
    → get bytes_discrete k m ≡ none
    → get bytes_discrete t m ≡ some e
    → get bytes_discrete t ((k, x) ∷ m) ≡ some e
unfolding get
get-rest k t x e m d h = elim (bytes_discrete k t) [
  | yes same ↦ absurd (ground (arith, ap (λ b. get bytes_discrete b m) same, d, h))
  | no other ↦ ground arith
]

missing-Lost :
    (incoming m : AppRegistry) (key : ModuleKey)
    → Distinct bytes_discrete m
    → Among key (missing_keys incoming m)
    → Lost incoming m key
unfolding missing_keys
missing-Lost incoming [] key d a = absurd a
missing-Lost incoming ((k, x) ∷ m) key d a =
    let later : Among key (missing_keys incoming m) → Lost incoming ((k, x) ∷ m) key =
      λ (b : Among key (missing_keys incoming m)).
        let (t, e, g, same, c) = missing-Lost incoming m key d.1 b in
        (t, e, get-rest k t x e m d.0 g, same, c) in
    elim (Bool-cases (contains_key bytes_discrete k incoming)) [
      | inl c ↦ later (ground arith)
      | inr c ↦ elim (Among-head (key_of x) key (missing_keys incoming m) (ground arith)) [
        | inl same ↦ (k, x, unfold get in ground arith, same, c)
        | inr b ↦ later b
      ]
    ]

load_of-map :
    (t : Bytes) (e : FunctionEntry) (l : AppRegistry)
    → get bytes_discrete t l ≡ some e
    → Among (load_of e) (map (λ (p : Bytes × FunctionEntry). load_of p.1) l)
unfolding get
load_of-map t e [] h = absurd (ground arith)
load_of-map t e ((k, x) ∷ l) h = elim (bytes_discrete k t) [
  | yes same ↦ inl (ground arith)
  | no other ↦ inr (load_of-map t e l (ground arith))
]

get-incoming :
    (t : Bytes) (apps : List ApplicationConfig) (m : AppRegistry)
    → get bytes_discrete t (incoming_of apps []) ≡ get bytes_discrete t (apply_full_config apps m).0
unfolding apply_full_config
get-incoming t apps m =
    sym (get-insert_all_empty t (incoming_of apps []) (incoming_of-Distinct apps [] tt))

-- After a full snapshot every entry of the registry stands in the list to load, and the module of an
-- entry whose topic the snapshot no longer declares stands in the list to evict.
pub apply_full_config-modules :
    (t gone : Bytes) (e old : FunctionEntry) (apps : List ApplicationConfig) (m : AppRegistry)
    → get_by_topic t (apply_full_config apps m).0 ≡ some e
    → get_by_topic gone m ≡ some old
    → get_by_topic gone (apply_full_config apps m).0 ≡ none
    → Among (load_of e) (apply_full_config apps m).1.modules_to_load
      × Among (key_of old) (apply_full_config apps m).1.modules_to_evict
unfolding apply_full_config get_by_topic contains_key
apply_full_config-modules t gone e old apps m h g n = (
  load_of-map t e (incoming_of apps []) (get-incoming t apps m ∙ h),
  missing-evicts gone old (incoming_of apps []) m g (ground (arith, get-incoming gone apps m, n)),
)

-- Where the registry holds each topic once, a full snapshot evicts exactly the modules of the entries
-- whose topic it no longer declares: one that only lost its topic to another function stays registered.
pub apply_full_config-evicts_iff :
    (apps : List ApplicationConfig) (m : AppRegistry) (key : ModuleKey)
    → Distinct bytes_discrete m
    → Among key (apply_full_config apps m).1.modules_to_evict ↔ (
        (t : Bytes) × (e : FunctionEntry) × (get_by_topic t m ≡ some e)
        × (key_of e ≡ key)
        × (get_by_topic t (apply_full_config apps m).0 ≡ none))
unfolding apply_full_config get_by_topic contains_key
apply_full_config-evicts_iff apps m key d = (
  (λ a.
      let (t, e, g, same, c) = missing-Lost (incoming_of apps []) m key d a in
      (t, e, g, same, ground (arith, get-incoming t apps m, c))),
  λ w.
      let (t, e, g, same, n) = w in
      subst (λ k. Among k (missing_keys (incoming_of apps []) m)) same
        (missing-evicts t e (incoming_of apps []) m g (ground (arith, get-incoming t apps m, n))),
)
