-- ===== src/Host/Session/Authority.antt =====
-- What the host knows while a session of config_sync.rs has authority.
use wasm_platform.Base.{
  All, ◌≡◌, refl, sym, ap, subst, ◌∙◌, Bool, true, false, Bytes, List, ◌∷◌, [], ◌++◌, Option, none,
  some, ok, arith, Result-cases, Bool-cases, inl, inr,
}
use wasm_platform.Host.Config.Entries.{AppRegistry, ConfigDiff, ModuleKey, MetricDefinition}
use wasm_platform.Host.Config.Registry.{apply_full_config, apply_incremental, topics}
use wasm_platform.Host.Session.{
  Load, HostSync, FullConfig, IncrementalConfig, StreamEvent, message, failure, Answers,
  apply_redis_config, evict_modules, submit_loads, apply_module_changes, evict_pools,
  apply_pool_changes, apply_diff, publish, fetch_full_config, apply_message, follow,
  run_config_sync,
}

-- The messages that the stream brings.
abbrev pub messages : List StreamEvent → List IncrementalConfig
messages [] = []
messages (failure ∷ events) = []
messages (message none acked ∷ events) = messages events
messages (message (some config) acked ∷ events) = config ∷ messages events

abbrev pub apply_all : List IncrementalConfig → AppRegistry → AppRegistry
apply_all [] m = m
apply_all (config ∷ configs) m = apply_all configs (apply_incremental config.updates m).0

-- The functions that are known, their topics, and the address of Redis.
abbrev pub redis_after : List IncrementalConfig → Option Bytes → Option Bytes
redis_after [] redis = redis
redis_after (config ∷ configs) redis = redis_after configs config.redis

module _ {C P : Type 0} where
  -- A part of the state that no change of a diff touches.
  record Kept (s s' : HostSync C P) : Type 0 where
    pub registry : s'.registry ≡ s.registry
    pub topics : s'.topics ≡ s.topics
    pub redis : s'.redis ≡ s.redis
    pub synced : s'.synced ≡ s.synced

  evict_modules-Kept : (keys : List ModuleKey) (s : HostSync C P) → Kept s (evict_modules keys s)
  unfolding evict_modules
  evict_modules-Kept [] s = record { registry = refl; topics = refl; redis = refl; synced = refl }
  evict_modules-Kept (key ∷ keys) s =
      let k = evict_modules-Kept keys _ in
      record { registry = k.registry; topics = k.topics; redis = k.redis; synced = k.synced }

  evict_pools-Kept : (apps : List (Bytes × Bytes)) (s : HostSync C P) → Kept s (evict_pools apps s)
  unfolding evict_pools
  evict_pools-Kept [] s = record { registry = refl; topics = refl; redis = refl; synced = refl }
  evict_pools-Kept ((ns, app) ∷ apps) s =
      let k = evict_pools-Kept apps _ in
      record { registry = k.registry; topics = k.topics; redis = k.redis; synced = k.synced }

  -- A message is applied in full, but for the changes of its diff.
  record Applied (config : IncrementalConfig) (s s' : HostSync C P) : Type 0 where
    pub registry : s'.registry ≡ (apply_incremental config.updates s.registry).0
    pub topics : s'.topics ≡ topics s'.registry
    pub redis : s'.redis ≡ config.redis
    pub synced : s'.synced ≡ s.synced

  -- The state after a stream: some of its messages, in order, were applied.
  record Followed (events : List StreamEvent) (s s' : HostSync C P) : Type 0 where
    pub front : List IncrementalConfig
    pub back : List IncrementalConfig
    pub prefix : messages events ≡ front ++ back
    pub registry : s'.registry ≡ apply_all front s.registry
    pub topics : s'.topics ≡ topics s'.registry
    pub redis : s'.redis ≡ redis_after front s.redis
    pub synced : s'.synced ≡ s.synced

module _ {C P : Type 0} (submits : Load → Bool) where
  -- The operator accepted the session, and the host publishes what it was told.
  pub record Authoritative (a : Answers) (s s' : HostSync C P) : Type 0 where
    pub full : FullConfig
    pub front : List IncrementalConfig
    pub back : List IncrementalConfig
    pub answered : a.snapshot ≡ some (some full)
    pub opened : a.opens ≡ true
    pub registered : a.first_ack ≡ true
    pub prefix : messages a.events ≡ front ++ back
    pub current : s'.registry ≡ apply_all front (apply_full_config full.applications s.registry).0
    pub published : s'.topics ≡ topics s'.registry
    pub address : s'.redis ≡ redis_after front full.redis
    pub submitted :
        All
          (λ l. submits l ≡ true)
          (apply_full_config full.applications s.registry).1.modules_to_load

  submit_loads-Kept :
      (loads : List Load) (s : HostSync C P) → Kept s (submit_loads submits loads s).0
  unfolding submit_loads
  submit_loads-Kept [] s = record { registry = refl; topics = refl; redis = refl; synced = refl }
  submit_loads-Kept (load ∷ loads) s =
      let k = submit_loads-Kept loads (record s { loads = s.loads ++ load ∷ [] }) in
      record {
        registry = ground (arith, k.registry);
        topics = ground (arith, k.topics);
        redis = ground (arith, k.redis);
        synced = ground (arith, k.synced);
      }

  submit_loads-All :
      (loads : List Load) (s : HostSync C P)
      → (submit_loads submits loads s).1 ≡ ok tt
      → All (λ l. submits l ≡ true) loads
  unfolding submit_loads
  submit_loads-All [] s h = tt
  submit_loads-All (load ∷ loads) s h = elim (Bool-cases (submits load)) [
    | inr b ↦ absurd (ground (arith, b, h))
    | inl b ↦ (
      b,
      submit_loads-All loads (record s { loads = s.loads ++ load ∷ [] }) (ground (arith, b, h)),
    )
  ]

  apply_diff-All :
      (diff : ConfigDiff) (s : HostSync C P)
      → (apply_diff submits diff s).1 ≡ ok tt
      → All (λ l. submits l ≡ true) diff.modules_to_load
  unfolding apply_diff apply_module_changes
  apply_diff-All diff s h =
      submit_loads-All diff.modules_to_load (evict_modules diff.modules_to_evict s)
        (ground (arith, h))

  apply_diff-Kept : (diff : ConfigDiff) (s : HostSync C P) → Kept s (apply_diff submits diff s).0
  unfolding apply_diff apply_module_changes apply_pool_changes
  apply_diff-Kept diff s =
      let s1 = evict_modules diff.modules_to_evict s in
      let e = evict_modules-Kept diff.modules_to_evict s in
      let m = submit_loads-Kept diff.modules_to_load s1 in
      let p =
        evict_pools-Kept diff.pools_to_evict_apps
          (submit_loads submits diff.modules_to_load s1).0 in
      record {
        registry = ground (arith, e.registry, m.registry, p.registry);
        topics = ground (arith, e.topics, m.topics, p.topics);
        redis = ground (arith, e.redis, m.redis, p.redis);
        synced = ground (arith, e.synced, m.synced, p.synced);
      }

module _ {C P : Type 0} (registers : Bytes → MetricDefinition → List Bytes → Bool)
    (submits : Load → Bool) where
  apply_message-Applied :
      (config : IncrementalConfig) (s : HostSync C P)
      → Applied config s (apply_message registers submits config s).0
  unfolding apply_message publish apply_redis_config
  apply_message-Applied config s =
      let r = apply_incremental config.updates s.registry in
      let k =
        apply_diff-Kept submits r.1
          (publish registers (record (apply_redis_config config.redis s) { registry = r.0 })) in
      record {
        registry = k.registry;
        topics = k.topics ∙ ap topics (sym k.registry);
        redis = k.redis;
        synced = k.synced;
      }

  one_of :
      (config : IncrementalConfig) (acked : Bool) (events : List StreamEvent) (s s' : HostSync C P)
      → Applied config s s'
      → Followed (message (some config) acked ∷ events) s s'
  one_of config acked events s s' a = record {
    front = config ∷ [];
    back = messages events;
    prefix = refl;
    registry = a.registry;
    topics = a.topics;
    redis = a.redis;
    synced = a.synced;
  }

  follow-Followed :
      (events : List StreamEvent) (s : HostSync C P)
      → s.topics ≡ topics s.registry
      → Followed events s (follow registers submits events s).0
  unfolding follow
  follow-Followed [] s h = record {
    front = [];
    back = [];
    prefix = refl;
    registry = refl;
    topics = h;
    redis = refl;
    synced = refl;
  }
  follow-Followed (failure ∷ events) s h = record {
    front = [];
    back = [];
    prefix = refl;
    registry = refl;
    topics = h;
    redis = refl;
    synced = refl;
  }
  follow-Followed (message none acked ∷ events) s h =
      let f = follow-Followed events s h in
      record {
        front = f.front;
        back = f.back;
        prefix = f.prefix;
        registry = f.registry;
        topics = f.topics;
        redis = f.redis;
        synced = f.synced;
      }
  follow-Followed (message (some config) acked ∷ events) s h =
      let r = apply_message registers submits config s in
      let a = apply_message-Applied config s in
      let f = follow-Followed events r.0 a.topics in
      elim (Result-cases r.1) [
        | inr (e, q) ↦ rw (q, follow) (one_of config acked events s r.0 a)
        | inl (u, q) ↦ elim (Bool-cases acked) [
          | inr b ↦ rw (q, follow, b) (one_of config false events s r.0 a)
          | inl b ↦
              rw (q, follow, b)
                (record {
                  front = config ∷ f.front;
                  back = f.back;
                  prefix = ap (λ l. config ∷ l) f.prefix;
                  registry = f.registry ∙ ap (apply_all f.front) a.registry;
                  topics = f.topics;
                  redis = f.redis ∙ ap (redis_after f.front) a.redis;
                  synced = f.synced ∙ a.synced;
                })
        ]
      ]

  fetched :
      (full : FullConfig) (s : HostSync C P)
      → Kept
          (record (apply_redis_config full.redis s) {
            registry = (apply_full_config full.applications s.registry).0;
          })
          (fetch_full_config submits (some (some full)) s).0
  unfolding fetch_full_config
  fetched full s = apply_diff-Kept submits (apply_full_config full.applications s.registry).1 _

  -- What a session does after the snapshot.
  opened :
      (a : Answers) (s s' : HostSync C P) (full : FullConfig)
      → a.snapshot ≡ some (some full)
      → a.opens ≡ true
      → a.first_ack ≡ true
      → s'.registry ≡ (apply_full_config full.applications s.registry).0
      → s'.redis ≡ full.redis
      → s'.topics ≡ topics s'.registry
      → All
          (λ l. submits l ≡ true)
          (apply_full_config full.applications s.registry).1.modules_to_load
      → Authoritative submits a s (follow registers submits a.events s').0
  opened a s s' full e o f g r p l =
      let w = follow-Followed a.events s' p in
      record {
        full = full;
        front = w.front;
        back = w.back;
        answered = e;
        opened = o;
        registered = f;
        prefix = w.prefix;
        current = w.registry ∙ ap (apply_all w.front) g;
        published = w.topics;
        address = w.redis ∙ ap (redis_after w.front) r;
        submitted = l;
      }

  fetched-All :
      (full : FullConfig) (s : HostSync C P)
      → (fetch_full_config submits (some (some full)) s).1 ≡ ok tt
      → All
          (λ l. submits l ≡ true)
          (apply_full_config full.applications s.registry).1.modules_to_load
  unfolding fetch_full_config
  fetched-All full s h =
      apply_diff-All submits (apply_full_config full.applications s.registry).1 _ h

  unfetched :
      (snapshot : Option (Option FullConfig)) (s : HostSync C P)
      → (fetch_full_config submits snapshot s).0.synced ≡ s.synced
  unfolding apply_redis_config
  unfetched none s = unfold fetch_full_config in refl
  unfetched (some none) s = unfold fetch_full_config in refl
  unfetched (some (some full)) s = (fetched full s).synced

  fetched-ok :
      (snapshot : Option (Option FullConfig)) (s : HostSync C P)
      → (fetch_full_config submits snapshot s).1 ≡ ok tt
      → (full : FullConfig) × (snapshot ≡ some (some full))
  unfolding fetch_full_config
  fetched-ok none s h = absurd (ground arith)
  fetched-ok (some none) s h = absurd (ground arith)
  fetched-ok (some (some full)) s h = (full, refl)

  -- A session of a host without authority leaves it with authority only if the operator gave a snapshot,
  -- each of its modules could be submitted, the stream opened and the first acknowledgement was sent;
  -- the functions that the host then knows are those of the snapshot with some first messages of the
  -- stream applied in order, the topics that it publishes are theirs, and the
  -- address of Redis is the last that it was told.
  pub run_config_sync-Authoritative :
      (a : Answers) (s : HostSync C P)
      → s.synced ≡ false
      → (run_config_sync registers submits a s).0.synced ≡ true
      → Authoritative submits a s (run_config_sync registers submits a s).0
  unfolding run_config_sync publish
  run_config_sync-Authoritative a s h k =
      let f = fetch_full_config submits a.snapshot s in
      let same = unfetched a.snapshot s in
      elim (Result-cases f.1) [
        | inr (e, q) ↦ absurd (ground (arith, h, k, q, same))
        | inl (u, q) ↦ elim (Bool-cases a.opens) [
          | inr o ↦ absurd (ground (arith, h, k, q, o, same))
          | inl o ↦ elim (Bool-cases a.first_ack) [
            | inr g ↦ absurd (ground (arith, h, k, q, o, g, same))
            | inl g ↦
                let full = fetched-ok a.snapshot s q in
                let kept = fetched full.0 s in
                let loads =
                  fetched-All full.0 s
                    (ap (λ x. (fetch_full_config submits x s).1) (sym full.1) ∙ q) in
                let known : f.0.registry ≡ (apply_full_config full.0.applications s.registry).0 =
                  ap (λ x. (fetch_full_config submits x s).0.registry) full.1 ∙ kept.registry in
                let address : f.0.redis ≡ full.0.redis =
                  ap (λ x. (fetch_full_config submits x s).0.redis) full.1
                  ∙ unfold apply_redis_config in kept.redis in
                let s' : HostSync C P = record (publish registers f.0) { synced = true } in
                let ends : (follow registers submits a.events s').0
                    ≡ (run_config_sync registers submits a s).0 =
                  ground (arith, q, o, g) in
                subst (λ x. Authoritative submits a s x) ends
                  (opened a s s' full.0 full.1 o g known address refl loads)
          ]
        ]
      ]
