-- ===== src/ModuleCache/Server/Access.antt =====
-- Who is let in, and what a finished upload leaves: `authenticate` and `put_module` of cache.rs.
use wasm_platform.Base.{
  inl, inr, ◌↔◌, ◌≢◌, ℕ, ◌≤◌, ◌<◌, ◌≡◌, refl, Bytes, ascii, [], ◌∷◌, ◌++◌, List, Option, none, some,
  arith, length, Option-cases, Result-cases, subst, sym, ◌∙◌, ap, Result, ok, err, strip_prefix,
  strip_prefix-append, strip_prefix-eq-some,
}
use wasm_platform.Platform.Artifacts.{verify_wasm}
use wasm_platform.Platform.Identity.{
  IdentityError, max_token_bytes, unauthenticated, invalid_token, forbidden, token_unavailable,
  configuration, review_unavailable, connection,
}
use wasm_platform.ModuleCache.Store
use wasm_platform.ModuleCache.Store.{StatusCode, Store, no_content}
use wasm_platform.ModuleCache.Store.Eviction.{IsValid}
use wasm_platform.ModuleCache.Store.Invariant.{insert-Outcome, Outcome}
use wasm_platform.ModuleCache.Server.{
  CacheState, Response, finish_body, bearer, review_status, authenticate, reject,
}
use wasm_platform.ModuleCache.Server

-- One `Authorization` value, which is the bearer token.
abbrev pub IsBearer : List (Option Bytes) → Bytes → Type 0
IsBearer values token =
    (values ≡ some (ascii "Bearer " ++ token) ∷ [])
    × (token ≢ [])
    × (length token ≤ max_token_bytes)

bearer_inv :
    (values : List (Option Bytes)) (token : Bytes)
    → bearer values ≡ some token
    → length values ≤ 1
    → IsBearer values token
unfolding bearer
bearer_inv [] token h n = absurd (ground arith)
bearer_inv (none ∷ values) token h n = absurd (ground arith)
bearer_inv (some v ∷ (w ∷ values)) token h n = absurd (omega arith)
bearer_inv (some v ∷ []) token h n = elim (Option-cases (strip_prefix (ascii "Bearer ") v)) [
  | inl e ↦ absurd (ground arith)
  | inr (t, e) ↦
      let same : t ≡ token = ground arith in
      (
        rw (strip_prefix-eq-some (ascii "Bearer ") v t e, same) refl,
        (λ z. ground arith),
        ground arith,
      )
]

bearer-some :
    (values : List (Option Bytes)) (token : Bytes)
    → IsBearer values token
    → bearer values ≡ some token
unfolding bearer
bearer-some values [] h = absurd (h.1 refl)
bearer-some values (c ∷ token) h =
    rw (h.0) (ground (arith, strip_prefix-append (ascii "Bearer ") (c ∷ token)))

review_status-none :
    (r : Option (Result IdentityError (Unit {0}))) → review_status r ≡ none → r ≡ some (ok tt)
unfolding review_status
review_status-none none h = ground arith
review_status-none (some (ok u)) h = refl
review_status-none (some (err unauthenticated)) h = ground arith
review_status-none (some (err invalid_token)) h = ground arith
review_status-none (some (err forbidden)) h = ground arith
review_status-none (some (err token_unavailable)) h = ground arith
review_status-none (some (err configuration)) h = ground arith
review_status-none (some (err review_unavailable)) h = ground arith
review_status-none (some (err connection)) h = ground arith

-- Why a request was let in.
pub record Admitted (values : List (Option Bytes)) (permits : ℕ)
    (authorize : Bytes → Option (Result IdentityError (Unit {0}))) : Type 0 where
  pub token : Bytes
  pub presented : IsBearer values token
  pub permit : 0 < permits
  pub authorized : authorize token ≡ some (ok tt)

module _ (values : List (Option Bytes)) (permits : ℕ)
    (authorize : Bytes → Option (Result IdentityError (Unit {0}))) where
  Admitted-inv : authenticate values permits authorize ≡ none → Admitted values permits authorize
  unfolding authenticate
  Admitted-inv h = elim (Option-cases (bearer values)) [
    | inl e ↦ absurd (ground arith)
    | inr (token, e) ↦ record {
      token = token;
      presented = bearer_inv values token e (ground arith);
      permit = ground arith;
      authorized = review_status-none (authorize token) (ground arith);
    }
  ]

  Admitted-passes : Admitted values permits authorize → authenticate values permits authorize ≡ none
  unfolding authenticate review_status
  Admitted-passes a =
      let one : length values ≡ 1 = ap length a.presented.0 in
      ground (arith, bearer-some values a.token a.presented)

  -- A request passes exactly if it has one `Authorization` value, `Bearer ` and a token of 1 byte to 16
  -- KiB, an authentication permit is free, and the authorizer accepts the token in time.
  pub authenticate-none_iff :
      (authenticate values permits authorize ≡ none) ↔ Admitted values permits authorize
  authenticate-none_iff = (Admitted-inv, Admitted-passes)

module _ (sha256_hex : Bytes → Bytes) where
  -- The statuses of a refused upload: none of them is 204.
  stored-no_content :
      (state : CacheState) (digest bytes : Bytes)
      → Outcome digest bytes state.store (Store.insert digest bytes state.store)
      → (Server.stored
          (record state { store = (Store.insert digest bytes state.store).0 })
          (Store.insert digest bytes state.store).1).1.status
        ≡ no_content
      → (Store.get digest (Store.insert digest bytes state.store).0).1 ≡ some bytes
  unfolding Server.stored reject
  stored-no_content state digest bytes (inl (m, f, r, found)) h = found
  stored-no_content state digest bytes (inr (inl (m, f, r))) h = absurd (ground arith)
  stored-no_content state digest bytes (inr (inr (inl (m, r, found)))) h = found
  stored-no_content state digest bytes (inr (inr (inr (old, m, n, r)))) h = absurd (ground arith)

  stored-store :
      (state : CacheState) (result : Result StatusCode ℕ)
      → (Server.stored state result).0.store ≡ state.store
  unfolding Server.stored reject
  stored-store state (ok n) = refl
  stored-store state (err e) = refl

  finish_verified :
      (state : CacheState) (digest bytes : Bytes) (u : Unit {0})
      → verify_wasm sha256_hex digest bytes ≡ ok u
      → finish_body sha256_hex state digest (some (ok bytes))
        ≡ Server.stored
            (record state { store = (Store.insert digest bytes state.store).0 })
            (Store.insert digest bytes state.store).1
  unfolding finish_body
  finish_verified state digest bytes u q = ground arith

  -- An upload over a well-formed store that is answered with 204 has verified its bytes against the
  -- digest, and the store then finds them.
  pub finish_body-no_content :
      (state : CacheState) (digest bytes : Bytes)
      → IsValid state.store
      → (finish_body sha256_hex state digest (some (ok bytes))).1.status ≡ no_content
      → (verify_wasm sha256_hex digest bytes ≡ ok tt)
        × ((Store.get digest (finish_body sha256_hex state digest (some (ok bytes))).0.store).1
            ≡ some bytes)
  unfolding finish_body reject
  finish_body-no_content state digest bytes v h =
      elim (Result-cases (verify_wasm sha256_hex digest bytes)) [
        | inr (x, q) ↦ absurd (ground arith)
        | inl (u, q) ↦ (
          q,
          subst (λ x. (Store.get digest x).1 ≡ some bytes)
              (sym (
                ap (λ (r : CacheState × Response). r.0.store)
                  (finish_verified state digest bytes u q)
                ∙ stored-store _ _))
              (stored-no_content state digest bytes (insert-Outcome digest bytes state.store v) (
                ap (λ (r : CacheState × Response). r.1.status)
                  (sym (finish_verified state digest bytes u q))
                ∙ h)),
        )
      ]
