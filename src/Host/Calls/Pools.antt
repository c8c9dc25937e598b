-- ===== src/Host/Calls/Pools.antt =====
-- components/execution-host/src/sql_pool.rs: the connection pools of the users of applications. Whether a
-- database takes a connection is an argument, a pool is a parameter, and closing one is not modelled.
use wasm_platform.Base.{
  ◌≡◌, refl, inl, inr, Bool, true, false, ◌&&◌, Bytes, List, ◌∷◌, [], Option, none, some,
  if◌then◌else◌, bytes_discrete, bytes_eq, arith, Option-cases,
}
use wasm_platform.Base.Map.{get as map_get, insert, remove, contains_key, get-insert, get-remove}

-- The namespace, the application and the user.
abbrev pub PoolKey : Type 0
PoolKey = Bytes × (Bytes × Bytes)

unfoldable pub key_discrete : Discrete PoolKey
key_discrete = hlevel bytes_discrete

abbrev pub SqlPoolMap : Type 0 → Type 0
SqlPoolMap P = List (PoolKey × P)

abbrev pub is_of : Bytes → Bytes → PoolKey → Bool
is_of namespace app_name key = bytes_eq key.0 namespace && bytes_eq key.1.0 app_name

unfoldable pub listed : PoolKey → List PoolKey → Bool
listed k [] = false
listed k (key ∷ keys) = elim (key_discrete key k) [ yes _ ↦ true | no _ ↦ listed k keys ]

module _ {P : Type 0} where
  unfoldable pub get : Bytes → Bytes → Bytes → SqlPoolMap P → Option P
  get namespace app_name username m = map_get key_discrete (namespace, (app_name, username)) m

  -- An error of the database is logged, and no more.
  unfoldable pub ensure :
      (Bytes → Option P) → Bytes → Bytes → Bytes → Bytes → SqlPoolMap P → SqlPoolMap P
  ensure connect namespace app_name username connection_url m =
      if contains_key key_discrete (namespace, (app_name, username)) m
      then m
      else (elim (connect connection_url) [
        | none ↦ m
        | some pool ↦ insert key_discrete (namespace, (app_name, username)) pool m
      ])

  -- The keys that `evict_app` collects, and their removal.
  unfoldable pub keys_of : Bytes → Bytes → SqlPoolMap P → List PoolKey
  keys_of namespace app_name [] = []
  keys_of namespace app_name ((key, pool) ∷ m) =
      let rest = keys_of namespace app_name m in
      if is_of namespace app_name key then key ∷ rest else rest

  unfoldable pub evict : List PoolKey → SqlPoolMap P → SqlPoolMap P
  evict [] m = m
  evict (key ∷ keys) m = evict keys (remove key_discrete key m)

  unfoldable pub evict_app : Bytes → Bytes → SqlPoolMap P → SqlPoolMap P
  evict_app namespace app_name m = evict (keys_of namespace app_name m) m

  get-evict :
      (keys : List PoolKey) (k : PoolKey) (m : SqlPoolMap P)
      → map_get key_discrete k (evict keys m)
        ≡ (if listed k keys then none else map_get key_discrete k m)
  unfolding evict listed
  get-evict [] k m = refl
  get-evict (key ∷ keys) k m =
      ground (arith, get-evict keys k (remove key_discrete key m), get-remove key_discrete key k m)

  listed-is_of :
      (namespace app_name : Bytes) (k : PoolKey) (m : SqlPoolMap P)
      → listed k (keys_of namespace app_name m) ≡ true
      → is_of namespace app_name k ≡ true
  unfolding listed keys_of
  listed-is_of namespace app_name k [] h = absurd (ground arith)
  listed-is_of namespace app_name k ((key, pool) ∷ m) h =
      ground (arith, h, listed-is_of namespace app_name k m)

  unlisted :
      (namespace app_name : Bytes) (k : PoolKey) (m : SqlPoolMap P)
      → is_of namespace app_name k ≡ true
      → listed k (keys_of namespace app_name m) ≡ false
      → map_get key_discrete k m ≡ none
  unfolding listed keys_of map_get
  unlisted namespace app_name k [] o h = refl
  unlisted namespace app_name k ((key, pool) ∷ m) o h =
      ground (arith, o, h, unlisted namespace app_name k m o)

  -- An eviction closes the pools of all the users of one application, and leaves every other pool.
  pub get-evict_app :
      (namespace app_name ns' app' username : Bytes) (m : SqlPoolMap P)
      → get ns' app' username (evict_app namespace app_name m) ≡ (
          if is_of namespace app_name (ns', (app', username))
          then none
          else get ns' app' username m)
  unfolding get evict_app
  get-evict_app namespace app_name ns' app' username m =
      let k : PoolKey = (ns', (app', username)) in
      ground (
        arith,
        get-evict (keys_of namespace app_name m) k m,
        listed-is_of namespace app_name k m,
        unlisted namespace app_name k m,
      )

  -- A pool that is there stays the same pool, whatever credentials its identity comes with.
  pub get-ensure :
      (connect : Bytes → Option P) (ns app user url ns' app' user' : Bytes) (m : SqlPoolMap P)
      (pool : P)
      → get ns' app' user' m ≡ some pool
      → get ns' app' user' (ensure connect ns app user url m) ≡ some pool
  unfolding get ensure contains_key
  get-ensure connect ns app user url ns' app' user' m pool h = elim (Option-cases (connect url)) [
    | inl e ↦ ground (arith, h, e)
    | inr (p, e) ↦
        ground (arith, h, e, get-insert key_discrete (ns, (app, user)) (ns', (app', user')) p m)
  ]
