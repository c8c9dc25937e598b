-- ===== src/ModuleCache/Server.antt =====
-- The handlers of components/module-cache/src/cache.rs over the shared `CacheState`. An upload waits
-- for its body between two accesses of the state, and a response holds its permit until its body is
-- dropped, so a run is a list of events. Bodies, headers and the authorizer's answers are arguments;
-- the hash function is the section's parameter.
pub mod Verified
pub mod Safety
pub mod Access
use wasm_platform.Base.{
  ℕ, suc, ◌+◌, ◌-◌, Bool, true, false, not, ◌&&◌, ◌||◌, Bytes, ascii, List, ◌∷◌, [], ◌++◌, Result,
  ok, err, leb, ltb, add_u64, take_at, strip_prefix, ◌==◌, length, Option, none, some,
  if◌then◌else◌,
}
use wasm_platform.Platform.Artifacts.{
  Sha256Digest, parse, verify_wasm, cache_max_bytes, cache_max_entries,
}
use wasm_platform.Platform.Identity.{
  IdentityError, unauthenticated, invalid_token, forbidden, max_token_bytes, is_empty,
}
use wasm_platform.ModuleCache.Store
use wasm_platform.ModuleCache.Store.{
  Store, StatusCode, ok_200, no_content, bad_request, unauthorized, not_found, request_timeout,
  too_many_requests, unprocessable, unavailable,
}

abbrev pub max_uploads : ℕ
max_uploads = 2

abbrev pub max_responses : ℕ
max_responses = 2

abbrev pub max_auth_requests : ℕ
max_auth_requests = 8

-- `uploads` and `responses` are the permits that are free; the counters are of `CacheMetrics`.
pub record CacheState : Type 0 where
  pub store : Store
  pub uploads : ℕ
  pub responses : ℕ
  pub hits : ℕ
  pub misses : ℕ
  pub stores : ℕ
  pub rejected : ℕ
  pub evictions : ℕ
  pub ready : Bool

unfoldable pub with_limits : ℕ → ℕ → CacheState
with_limits max_bytes max_entries = record {
  store = Store.empty max_bytes max_entries;
  uploads = max_uploads;
  responses = max_responses;
  hits = 0;
  misses = 0;
  stores = 0;
  rejected = 0;
  evictions = 0;
  ready = true;
}

unfoldable pub new : CacheState
new = with_limits cache_max_bytes cache_max_entries

-- A status, and the bytes of a module where it has them.
pub record Response : Type 0 where
  pub status : StatusCode
  pub body : Option Bytes

abbrev pub into_response : StatusCode → Response
into_response status = record { status = status; body = none }

unfoldable pub reject : CacheState → StatusCode → CacheState × Response
reject state status = (record state { rejected = add_u64 state.rejected 1 }, into_response status)

-- The store after its `get`, with the lock still held.
unfoldable pub respond : CacheState → Option Bytes → CacheState × Response
respond state none = (record state { misses = add_u64 state.misses 1 }, into_response not_found)
respond state (some bytes) = if state.responses == 0 then reject state too_many_requests else (
  record state { responses = state.responses - 1; hits = add_u64 state.hits 1 },
  record { status = ok_200; body = some bytes },
)

unfoldable pub get_module : CacheState → Bytes → CacheState × Response
get_module state path = if not state.ready then reject state unavailable else (elim (parse path) [
  | err _ ↦ reject state bad_request
  | ok digest ↦
      let (store, found) = Store.get digest state.store in
      respond (record state { store = store }) found
])

-- An upload that has its permit, or the answer that ends it.
pub data Upload : Type 0 where
  answered : Response → Upload
  awaits_body : Sha256Digest → Upload

unfoldable pub refuse : CacheState → StatusCode → CacheState × Upload
refuse state status = let (state', response) = reject state status in (state', answered response)

-- `put_module` up to the wait for the body.
unfoldable pub put_module : CacheState → Bytes → CacheState × Upload
put_module state path = if not state.ready then refuse state unavailable else (elim (parse path) [
  | err _ ↦ refuse state bad_request
  | ok digest ↦
      if state.uploads == 0
      then refuse state too_many_requests
      else (record state { uploads = state.uploads - 1 }, awaits_body digest)
])

unfoldable pub stored : CacheState → Result StatusCode ℕ → CacheState × Response
stored state (err status) = reject state status
stored state (ok evicted) = (
  record state { stores = add_u64 state.stores 1; evictions = add_u64 state.evictions evicted },
  into_response no_content,
)

module _ (sha256_hex : Bytes → Bytes) where
  -- `put_module` from there: the body, a rejection of it, or none in time.
  unfoldable pub finish_body :
      CacheState → Sha256Digest → Option (Result StatusCode Bytes) → CacheState × Response
  finish_body state digest none = reject state request_timeout
  finish_body state digest (some (err status)) = reject state status
  finish_body state digest (some (ok bytes)) = elim (verify_wasm sha256_hex digest bytes) [
    | err _ ↦ reject state unprocessable
    | ok _ ↦
        let (store, result) = Store.insert digest bytes state.store in
        stored (record state { store = store }) result
  ]

-- The permit is dropped when the handler returns.
abbrev pub release_upload : CacheState → CacheState
release_upload state = record state { uploads = state.uploads + 1 }

abbrev pub release_response : CacheState → CacheState
release_response state = record state { responses = state.responses + 1 }

-- `authenticate`: the `Authorization` values with `to_str` applied, the free permits, and the answer
-- of the authorizer, `none` if it is not in time. `none` lets the request pass.
unfoldable pub bearer : List (Option Bytes) → Option Bytes
bearer [] = none
bearer (none ∷ values) = none
bearer (some value ∷ values) = elim (strip_prefix (ascii "Bearer ") value) [
  | none ↦ none
  | some token ↦
      if not (is_empty token) && leb (length token) max_token_bytes then some token else none
]

unfoldable pub review_status : Option (Result IdentityError (Unit {0})) → Option StatusCode
review_status (some (ok _)) = none
review_status (some (err forbidden)) = some StatusCode.forbidden
review_status (some (err unauthenticated)) = some unauthorized
review_status (some (err invalid_token)) = some unauthorized
review_status _ = some unavailable

unfoldable pub authenticate :
    List (Option Bytes) → ℕ → (Bytes → Option (Result IdentityError (Unit {0}))) → Option StatusCode
authenticate values permits authorize = elim (bearer values) [
  | none ↦ some unauthorized
  | some token ↦
      if ltb 1 (length values)
      then some unauthorized
      else (if permits == 0 then some too_many_requests else review_status (authorize token))
]

-- The service: the state, the uploads that wait for their bodies, and the responses not yet dropped.
pub record System : Type 0 where
  pub state : CacheState
  pub waiting : List Sha256Digest
  pub bodies : ℕ

-- A handler's part, the end of a response's body, and an upload whose client went away.
pub data Event : Type 0 where
  get put : Bytes → Event
  body : ℕ → Option (Result StatusCode Bytes) → Event
  response_dropped : Event
  upload_dropped : ℕ → Event
  set_ready : Bool → Event

abbrev pub start : System
start = record { state = new; waiting = []; bodies = 0 }

abbrev pub count_body : Response → ℕ
count_body r = elim r.body [ none ↦ 0 | some _ ↦ 1 ]

abbrev pub enqueue : List Sha256Digest → Upload → List Sha256Digest
enqueue waiting (answered r) = waiting
enqueue waiting (awaits_body digest) = digest ∷ waiting

module _ (sha256_hex : Bytes → Bytes) where
  -- An event that names no upload or response changes nothing.
  unfoldable pub step : System → Event → System
  step s (get path) =
      let (state, response) = get_module s.state path in
      record s { state = state; bodies = s.bodies + count_body response }
  step s (put path) =
      let (state, upload) = put_module s.state path in
      record s { state = state; waiting = enqueue s.waiting upload }
  step s (body i outcome) = elim (take_at i s.waiting) [
    | none ↦ s
    | some (digest, others) ↦ record s {
      state = release_upload (finish_body sha256_hex s.state digest outcome).0;
      waiting = others;
    }
  ]
  step s response_dropped =
      if s.bodies == 0
      then s
      else record s { state = release_response s.state; bodies = s.bodies - 1 }
  step s (upload_dropped i) = elim (take_at i s.waiting) [
    | none ↦ s
    | some (digest, others) ↦ record s { state = release_upload s.state; waiting = others }
  ]
  step s (set_ready b) = record s { state = record s.state { ready = b } }

  unfoldable pub run : System → List Event → System
  run s [] = s
  run s (e ∷ es) = run (step s e) es
