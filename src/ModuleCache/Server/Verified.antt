-- ===== src/ModuleCache/Server/Verified.antt =====
-- The answers of `get_module` in cache.rs, and the digests of the artifacts in its store.
use wasm_platform.Base.{
  inl, inr, ℕ, ◌≡◌, true, false, Bytes, [], ◌∷◌, List, bytes_discrete, arith, length, Bool-cases,
  Option-cases, Result-cases, subst, sym, Result, ok, err,
}
use wasm_platform.Base.Map.{get as map_get, insert as map_insert, Each, remove-Each}
use wasm_platform.Platform.Artifacts.{Sha256Digest, ArtifactError, parse, verify_wasm}
use wasm_platform.ModuleCache.Store
use wasm_platform.ModuleCache.Store.{Store, StatusCode, evict_one, make_room}
use wasm_platform.ModuleCache.Store.Eviction.{IsValid}
use wasm_platform.ModuleCache.Store.Invariant.{
  Inserted, differs, again, too_large, stored, insert-Inserted,
}
use wasm_platform.ModuleCache.Server.{CacheState, Response, reject, respond, get_module}

get_module_unready :
    (state : CacheState) (path : Bytes)
    → state.ready ≡ false
    → get_module state path ≡ reject state Store.unavailable
unfolding get_module
get_module_unready state path e = ground arith

get_module_bad :
    (state : CacheState) (path : Bytes) (x : ArtifactError)
    → state.ready ≡ true
    → parse path ≡ err x
    → get_module state path ≡ reject state Store.bad_request
unfolding get_module
get_module_bad state path x e q = ground arith

get_module_found :
    (state : CacheState) (path digest : Bytes)
    → state.ready ≡ true
    → parse path ≡ ok digest
    → get_module state path
      ≡ respond
          (record state { store = (Store.get digest state.store).0 })
          (Store.get digest state.store).1
unfolding get_module
get_module_found state path digest e q = ground arith

-- `get_module` either rejects, or answers from the store after its `get`.
pub get_module_cases {ℓ} :
    (Q : CacheState × Response → Type ℓ) (state : CacheState) (path : Bytes)
    → ((status : StatusCode) → Q (reject state status))
    → ((digest : Sha256Digest)
        → parse path ≡ ok digest
        → Q (
            respond
              (record state { store = (Store.get digest state.store).0 })
              (Store.get digest state.store).1))
    → Q (get_module state path)
get_module_cases Q state path rejected found = elim (Bool-cases state.ready) [
  | inr e ↦ subst Q (sym (get_module_unready state path e)) (rejected Store.unavailable)
  | inl e ↦ elim (Result-cases (parse path)) [
    | inr (x, q) ↦ subst Q (sym (get_module_bad state path x e q)) (rejected Store.bad_request)
    | inl (digest, q) ↦ subst Q (sym (get_module_found state path digest e q)) (found digest q)
  ]
]

pub Store-get-snd :
    (digest : Sha256Digest) (s : Store)
    → (Store.get digest s).1 ≡ map_get bytes_discrete digest s.entries
unfolding Store.get
Store-get-snd digest s = ground arith

pub Store-get-entries :
    (digest : Sha256Digest) (s : Store) → (Store.get digest s).0.entries ≡ s.entries
unfolding Store.get Store.touch
Store-get-entries digest s = ground arith

module _ (sha256_hex : Bytes → Bytes) where
  abbrev pub Verified : Sha256Digest → Bytes → Type 0
  Verified digest bytes = verify_wasm sha256_hex digest bytes ≡ ok tt

  -- Every artifact of the store hashes to its digest and is bounded binary Wasm.
  abbrev pub AllVerified : Store → Type 0
  AllVerified s = Each Verified s.entries

  evict_one-AllVerified :
      (oldest : Sha256Digest) (rest : List Sha256Digest) (s : Store) (n : ℕ)
      → AllVerified s
      → AllVerified (evict_one oldest rest (s, n)).0
  unfolding evict_one
  evict_one-AllVerified oldest rest s n a =
      elim (Option-cases (map_get bytes_discrete oldest s.entries)) [
        | inl e ↦ rw (e, evict_one) a
        | inr (old, e) ↦ rw (e, evict_one) (remove-Each bytes_discrete Verified oldest s.entries a)
      ]

  make_room-AllVerified :
      (need : ℕ) (r : List Sha256Digest) (p : Store × ℕ)
      → AllVerified p.0
      → AllVerified (make_room need r p).0
  unfolding make_room
  make_room-AllVerified need [] (s, n) a = a
  make_room-AllVerified need (k ∷ r) (s, n) a = elim (Bool-cases (Store.overflows need s)) [
    | inl over ↦ rw over (make_room-AllVerified need r _ (evict_one-AllVerified k r s n a))
    | inr fine ↦ rw fine a
  ]

  Inserted-AllVerified :
      {digest : Sha256Digest} {bytes : Bytes} {s : Store} {r : Store × Result StatusCode ℕ}
      → Inserted digest bytes s r
      → Verified digest bytes
      → AllVerified s
      → AllVerified r.0
  unfolding Store.touch Store.admit map_insert
  Inserted-AllVerified (differs old e n) v a = a
  Inserted-AllVerified (again e) v a = a
  Inserted-AllVerified (too_large e h) v a = a
  Inserted-AllVerified {digest} {bytes} {s} (stored r e fits some_room room same) v a = (
    v,
    remove-Each bytes_discrete Verified digest r.0.entries (
        subst (λ p. AllVerified p.0) (sym same)
          (make_room-AllVerified (length bytes) s.recency (s, 0) a)),
  )

  pub insert-AllVerified :
      (digest : Sha256Digest) (bytes : Bytes) (s : Store)
      → IsValid s
      → Verified digest bytes
      → AllVerified s
      → AllVerified (Store.insert digest bytes s).0
  insert-AllVerified digest bytes s v h a =
      Inserted-AllVerified (insert-Inserted digest bytes s v) h a
