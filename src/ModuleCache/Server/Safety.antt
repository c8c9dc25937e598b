-- ===== src/ModuleCache/Server/Safety.antt =====
-- The runs of the service of cache.rs: its store, its permits and its answers.
use wasm_platform.Base.{
  inl, inr, ℕ, ◌+◌, ◌≡◌, refl, Bytes, [], ◌∷◌, List, Option, none, some, bytes_discrete, arith,
  length, Bool-cases, Option-cases, Result-cases, subst, sym, ◌∙◌, Result, ok, err, ◌==◌, take_at,
  length-take_at,
}
use wasm_platform.Base.Map.{total, Each, get-Each}
use wasm_platform.Platform.Artifacts.{Sha256Digest, parse, verify_wasm}
use wasm_platform.ModuleCache.Store
use wasm_platform.ModuleCache.Store.{Store, StatusCode, evict_one, make_room}
use wasm_platform.ModuleCache.Store.Eviction.{IsValid}
use wasm_platform.ModuleCache.Store.Invariant.{get-IsValid, insert-IsValid}
use wasm_platform.ModuleCache.Server.{
  CacheState, Response, Upload, answered, awaits_body, System, Event, get, put, body,
  response_dropped, upload_dropped, set_ready, max_uploads, max_responses, new, reject, respond,
  get_module, refuse, put_module, finish_body, start, step, run, count_body, enqueue,
  release_upload, release_response,
}
use wasm_platform.ModuleCache.Server
use wasm_platform.ModuleCache.Server.Verified.{
  get_module_cases, Verified, AllVerified, Store-get-snd, Store-get-entries, insert-AllVerified,
}

module _ (sha256_hex : Bytes → Bytes) where
  -- A state that keeps the store well-formed and verified, and the uploads as they were.
  pub record Keeps (before : CacheState) (bodies : ℕ) (after : CacheState) : Type 0 where
    pub store_valid : IsValid after.store
    pub store_verified : AllVerified sha256_hex after.store
    pub same_uploads : after.uploads ≡ before.uploads
    pub same_responses : after.responses + bodies ≡ before.responses

  reject-Keeps :
      (state : CacheState) (status : StatusCode)
      → IsValid state.store
      → AllVerified sha256_hex state.store
      → Keeps state 0 (reject state status).0
  unfolding reject
  reject-Keeps state status v a = record {
    store_valid = v;
    store_verified = a;
    same_uploads = refl;
    same_responses = omega arith;
  }

  respond-Keeps :
      (state : CacheState) (found : Option Bytes)
      → IsValid state.store
      → AllVerified sha256_hex state.store
      → Keeps state (count_body (respond state found).1) (respond state found).0
  unfolding respond reject
  respond-Keeps state none v a = record {
    store_valid = v;
    store_verified = a;
    same_uploads = refl;
    same_responses = omega arith;
  }
  respond-Keeps state (some bytes) v a = elim (Bool-cases (state.responses == 0)) [
    | inl e ↦ rw e (reject-Keeps state Store.too_many_requests v a)
    | inr e ↦ rw e (record {
      store_valid = v;
      store_verified = a;
      same_uploads = refl;
      same_responses = ground arith;
    })
  ]

  get_module-Keeps :
      (state : CacheState) (path : Bytes)
      → IsValid state.store
      → AllVerified sha256_hex state.store
      → Keeps state (count_body (get_module state path).1) (get_module state path).0
  unfolding reject
  get_module-Keeps state path v a =
      get_module_cases (λ r. Keeps state (count_body r.1) r.0) state path
        (λ status. reject-Keeps state status v a)
        λ digest e.
          let k =
            respond-Keeps (record state { store = (Store.get digest state.store).0 })
              (Store.get digest state.store).1 (get-IsValid digest state.store v)
              (subst (Each (Verified sha256_hex)) (sym (Store-get-entries digest state.store)) a) in
          record {
            store_valid = k.store_valid;
            store_verified = k.store_verified;
            same_uploads = k.same_uploads;
            same_responses = k.same_responses;
          }

  stored-Keeps :
      (state : CacheState) (result : Result StatusCode ℕ)
      → IsValid state.store
      → AllVerified sha256_hex state.store
      → Keeps state 0 (Server.stored state result).0
  unfolding Server.stored
  stored-Keeps state (err status) v a = reject-Keeps state status v a
  stored-Keeps state (ok n) v a = record {
    store_valid = v;
    store_verified = a;
    same_uploads = refl;
    same_responses = omega arith;
  }

  finish_body-Keeps :
      (state : CacheState) (digest : Sha256Digest) (outcome : Option (Result StatusCode Bytes))
      → IsValid state.store
      → AllVerified sha256_hex state.store
      → Keeps state 0 (finish_body sha256_hex state digest outcome).0
  unfolding finish_body
  finish_body-Keeps state digest none v a = reject-Keeps state Store.request_timeout v a
  finish_body-Keeps state digest (some (err status)) v a = reject-Keeps state status v a
  finish_body-Keeps state digest (some (ok bytes)) v a =
      elim (Result-cases (verify_wasm sha256_hex digest bytes)) [
        | inr (e, q) ↦ rw (q, finish_body) (reject-Keeps state Store.unprocessable v a)
        | inl (u, q) ↦
            let k =
              stored-Keeps (record state { store = (Store.insert digest bytes state.store).0 })
                (Store.insert digest bytes state.store).1
                (insert-IsValid digest bytes state.store v)
                (insert-AllVerified sha256_hex digest bytes state.store v q a) in
            rw (q, finish_body)
              (record {
                store_valid = k.store_valid;
                store_verified = k.store_verified;
                same_uploads = k.same_uploads;
                same_responses = k.same_responses;
              })
      ]

  -- Well-formed, verified, and with every permit either free or held.
  pub record IsSafe (s : System) : Type 0 where
    pub valid : IsValid s.state.store
    pub verified : AllVerified sha256_hex s.state.store
    pub uploads : s.state.uploads + length s.waiting ≡ max_uploads
    pub responses : s.state.responses + s.bodies ≡ max_responses

  put_module-Keeps :
      (state : CacheState) (path : Bytes) (waiting : List Sha256Digest)
      → ((put_module state path).0.store ≡ state.store)
        × ((put_module state path).0.uploads + length (enqueue waiting (put_module state path).1)
            ≡ state.uploads + length waiting)
        × ((put_module state path).0.responses ≡ state.responses)
  unfolding put_module refuse reject
  put_module-Keeps state path waiting = (ground arith, ground arith, ground arith)

  -- Each event keeps the system safe.
  pub step-IsSafe : (s : System) (e : Event) → IsSafe s → IsSafe (step sha256_hex s e)
  unfolding step
  step-IsSafe s (get path) h =
      let k = get_module-Keeps s.state path h.valid h.verified in
      record {
        valid = k.store_valid;
        verified = k.store_verified;
        uploads = omega (arith, k.same_uploads, h.uploads);
        responses = omega (arith, k.same_responses, h.responses);
      }
  step-IsSafe s (put path) h =
      let (store, uploads, responses) = put_module-Keeps s.state path s.waiting in
      record {
        valid = subst IsValid (sym store) h.valid;
        verified = subst (AllVerified sha256_hex) (sym store) h.verified;
        uploads = omega (arith, uploads, h.uploads);
        responses = omega (arith, responses, h.responses);
      }
  step-IsSafe s (body i outcome) h = elim (Option-cases (take_at i s.waiting)) [
    | inl e ↦ rw (e, step) h
    | inr ((digest, others), e) ↦
        let k = finish_body-Keeps s.state digest outcome h.valid h.verified in
        rw (e, step)
          (record {
            valid = k.store_valid;
            verified = k.store_verified;
            uploads =
                omega
                  (arith, length-take_at i s.waiting digest others e, h.uploads, k.same_uploads);
            responses = omega (arith, k.same_responses, h.responses);
          })
  ]
  step-IsSafe s response_dropped h = elim (Bool-cases (s.bodies == 0)) [
    | inl e ↦ rw e h
    | inr e ↦ rw e (record {
      valid = h.valid;
      verified = h.verified;
      uploads = h.uploads;
      responses = ground arith;
    })
  ]
  step-IsSafe s (upload_dropped i) h = elim (Option-cases (take_at i s.waiting)) [
    | inl e ↦ rw (e, step) h
    | inr ((digest, others), e) ↦
        rw (e, step)
          (record {
            valid = h.valid;
            verified = h.verified;
            uploads = omega (arith, length-take_at i s.waiting digest others e, h.uploads);
            responses = h.responses;
          })
  ]
  step-IsSafe s (set_ready b) h = record {
    valid = h.valid;
    verified = h.verified;
    uploads = h.uploads;
    responses = h.responses;
  }

  start-IsSafe : IsSafe start
  unfolding new Server.with_limits total
  start-IsSafe = record {
    valid = record {
      covered = refl;
      distinct = tt;
      counted = refl;
      bytes_fit = omega arith;
      entries_fit = omega arith;
    };
    verified = tt;
    uploads = refl;
    responses = refl;
  }

  run_keeps : (s : System) (es : List Event) → IsSafe s → IsSafe (run sha256_hex s es)
  unfolding run
  run_keeps s [] h = h
  run_keeps s (e ∷ es) h = run_keeps (step sha256_hex s e) es (step-IsSafe s e h)

  -- After any events, in any order, the store is well-formed and within its limits, every artifact in
  -- it hashes to its digest, and the free upload and response permits with the held ones add up to
  -- their limits.
  pub run-IsSafe : (es : List Event) → IsSafe (run sha256_hex start es)
  run-IsSafe es = run_keeps start es start-IsSafe

  respond-body :
      (state : CacheState) (found : Option Bytes) (bytes : Bytes)
      → (respond state found).1.body ≡ some bytes
      → found ≡ some bytes
  unfolding respond reject
  respond-body state none bytes h = ground arith
  respond-body state (some b) bytes h = ground arith

  -- After any events, the bytes that a request for a module is answered with are bounded binary Wasm
  -- that hashes to the digest of the request's path.
  pub get_module-body-Verified :
      (es : List Event) (path bytes : Bytes)
      → (get_module (run sha256_hex start es).state path).1.body ≡ some bytes
      → (digest : Sha256Digest) × (parse path ≡ ok digest) × Verified sha256_hex digest bytes
  unfolding reject
  get_module-body-Verified es path bytes =
      get_module_cases
        (λ r.
          r.1.body ≡ some bytes
          → (digest : Sha256Digest) × (parse path ≡ ok digest) × Verified sha256_hex digest bytes)
        (run sha256_hex start es).state path (λ status h. absurd (ground arith))
        λ digest q h. (
          digest,
          q,
          get-Each bytes_discrete (Verified sha256_hex) digest bytes
              (run sha256_hex start es).state.store.entries (run-IsSafe es).verified
              (sym (Store-get-snd digest (run sha256_hex start es).state.store)
                ∙ respond-body _ _ bytes h),
        )
