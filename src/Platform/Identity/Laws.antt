-- ===== src/Platform/Identity/Laws.antt =====
-- Which tokens and reviews identity.rs accepts: it fails closed.
use wasm_platform.Base.{
  ap, append_assoc, append-nil, ltb, ◌<◌, ◌+◌, leb, not, Result-cases, ◌≤◌, ◌≡◌, ◌↔◌, ◌≢◌, ◌⊎◌, inl,
  inr, refl, true, false, Bytes, List, ◌∷◌, [], ◌++◌, ok, length, all, Option, none, some, bytes_eq,
  bytes_eq_iff, arith, Bool-cases, Option-cases, length-append,
}
use wasm_platform.Platform.Identity.{
  platform_audience, max_token_bytes, max_review_bytes, is_token_byte, is_empty, validate_token,
  TokenReviewStatus, any, is_some_and, is_none_or, authorize_status, ReviewResponse, read_chunks,
  review, authorize,
}

-- A token is accepted exactly when it is not empty, has at most 16 KiB, and all its bytes are ASCII
-- letters, digits, `-`, `_` or `.`.
pub validate_token-ok_iff :
    (token : Bytes)
    → (validate_token token ≡ ok tt)
      ↔ ((token ≢ []) × (length token ≤ max_token_bytes) × (all is_token_byte token ≡ true))
unfolding validate_token
validate_token-ok_iff [] = (ground arith, ground arith)
validate_token-ok_iff (c ∷ token) = (ground arith, ground arith)

abbrev pub Among : Bytes → List Bytes → Type 0
Among a [] = ⊥
Among a (b ∷ l) = (b ≡ a) ⊎ Among a l

any-Among : (a : Bytes) (l : List Bytes) → (any (λ b. bytes_eq b a) l ≡ true) ↔ Among a l
any-Among a [] = (λ h. ground arith, λ h. absurd h)
any-Among a (b ∷ l) = (
  (λ h. elim (Bool-cases (bytes_eq b a)) [
    | inl e ↦ inl ((bytes_eq_iff b a).0 e)
    | inr n ↦ inr ((any-Among a l).0 (ground arith))
  ]),
  (λ h. ground (arith, bytes_eq_iff b a, any-Among a l)),
)

-- The review that grants: authenticated for the platform's audience, without error, as the user.
pub record Granted (status : TokenReviewStatus) (username : Bytes) : Type 0 where
  pub authenticated : status.authenticated ≡ true
  pub no_error : (status.error ≡ none) ⊎ (status.error ≡ some [])
  pub audience : Among platform_audience status.audiences
  pub user : status.user ≡ some username

no_error_of :
    (o : Option Bytes) → is_some_and o (λ v. not (is_empty v)) ≡ false → (o ≡ none) ⊎ (o ≡ some [])
no_error_of none h = inl refl
no_error_of (some []) h = inr refl
no_error_of (some (c ∷ s)) h = ground arith

user_of :
    (o : Option Bytes) (name : Bytes)
    → is_none_or o (λ n. not (bytes_eq n name)) ≡ false
    → o ≡ some name
user_of none name h = ground arith
user_of (some n) name h = ground (arith, bytes_eq_iff n name)

authorize_status_inv :
    (status : TokenReviewStatus) (username : Bytes)
    → authorize_status status username ≡ ok tt
    → Granted status username
unfolding authorize_status
authorize_status_inv status username h = record {
  authenticated = ground arith;
  no_error = no_error_of status.error (ground arith);
  audience = (any-Among platform_audience status.audiences).0 (ground arith);
  user = user_of status.user username (ground arith);
}

authorize_status-Granted :
    (status : TokenReviewStatus) (username : Bytes)
    → Granted status username
    → authorize_status status username ≡ ok tt
unfolding authorize_status
authorize_status-Granted status username g = ground (
  arith,
  (any-Among platform_audience status.audiences).1 g.audience,
  bytes_eq_iff username username,
)

-- A review grants exactly if it is authenticated, reports no error or an empty one, names the
-- platform's audience, and is of the expected service account.
pub authorize_status-ok_iff :
    (status : TokenReviewStatus) (username : Bytes)
    → (authorize_status status username ≡ ok tt) ↔ Granted status username
authorize_status-ok_iff status username =
    (authorize_status_inv status username, authorize_status-Granted status username)

-- The body as a whole, if no chunk of it fails.
abbrev pub body_of : List (Option Bytes) → Option Bytes
body_of [] = some []
body_of (none ∷ chunks) = none
body_of (some c ∷ chunks) = elim (body_of chunks) [ none ↦ none | some rest ↦ some (c ++ rest) ]

abbrev after : Bytes → Option Bytes → Option Bytes
after bytes none = none
after bytes (some rest) = some (bytes ++ rest)

after-chunk :
    (bytes c : Bytes) (rest : Option Bytes)
    → after (bytes ++ c) rest ≡ after bytes (elim rest [ none ↦ none | some r ↦ some (c ++ r) ])
after-chunk bytes c none = refl
after-chunk bytes c (some r) = ap some (append_assoc bytes c r)

too_long :
    (bytes c whole : Bytes) (rest : Option Bytes)
    → after bytes (elim rest [ none ↦ none | some r ↦ some (c ++ r) ]) ≡ some whole
    → max_review_bytes < length bytes + length c
    → max_review_bytes < length whole
too_long bytes c whole none h l = absurd (ground arith)
too_long bytes c whole (some r) h l =
    ground (arith, length-append bytes (c ++ r), length-append c r)

read_chunks-from :
    (chunks : List (Option Bytes)) (start whole : Bytes)
    → length start ≤ max_review_bytes
    → (read_chunks chunks start ≡ ok whole)
      ↔ ((after start (body_of chunks) ≡ some whole) × (length whole ≤ max_review_bytes))
unfolding read_chunks
read_chunks-from [] start whole h = ground (arith, append-nil start)
read_chunks-from (none ∷ chunks) start whole h = ground arith
read_chunks-from (some c ∷ chunks) start whole h =
    elim (Bool-cases (ltb max_review_bytes (length start + length c))) [
      | inr b ↦
          let l : length (start ++ c) ≤ max_review_bytes = ground (arith, length-append start c) in
          ground (
            arith,
            b,
            read_chunks-from chunks (start ++ c) whole l,
            after-chunk start c (body_of chunks),
          )
      | inl b ↦ ground (arith, b, too_long start c whole (body_of chunks))
    ]

after_nothing : (body : Option Bytes) → after [] body ≡ body
after_nothing none = refl
after_nothing (some rest) = refl

read_chunks-ok_iff :
    (chunks : List (Option Bytes)) (whole : Bytes)
    → (read_chunks chunks [] ≡ ok whole)
      ↔ ((body_of chunks ≡ some whole) × (length whole ≤ max_review_bytes))
read_chunks-ok_iff chunks whole =
    ground (arith, read_chunks-from chunks [] whole (omega arith), after_nothing (body_of chunks))

module _ (decode : Bytes → Option TokenReviewStatus) (username : Bytes) where
  -- All that must have happened for a token to be authorized.
  pub record Authorized (send : Bytes → Option (Option ReviewResponse)) (token : Bytes)
      : Type 0 where
    pub valid : (token ≢ []) × (length token ≤ max_token_bytes) × (all is_token_byte token ≡ true)
    pub response : ReviewResponse
    pub sent : send token ≡ some (some response)
    pub success : response.is_success ≡ true
    pub declared : is_none_or response.content_length (λ n. leb n max_review_bytes) ≡ true
    pub bytes : Bytes
    pub received : body_of response.chunks ≡ some bytes
    pub bounded : length bytes ≤ max_review_bytes
    pub status : TokenReviewStatus
    pub decoded : decode bytes ≡ some status
    pub granted : Granted status username

  review_inv :
      (r : ReviewResponse)
      → review decode username (some r) ≡ ok tt
      → (r.is_success ≡ true)
        × (is_none_or r.content_length (λ n. leb n max_review_bytes) ≡ true)
        × ((bytes : Bytes) × (status : TokenReviewStatus) × (read_chunks r.chunks [] ≡ ok bytes)
            × (decode bytes ≡ some status)
            × (authorize_status status username ≡ ok tt))
  unfolding review
  review_inv r h = elim (Result-cases (read_chunks r.chunks [])) [
    | inr (e, q) ↦ absurd (ground arith)
    | inl (bytes, q) ↦ elim (Option-cases (decode bytes)) [
      | inl d ↦ absurd (ground arith)
      | inr (status, d) ↦ (ground arith, ground arith, (bytes, status, q, d, ground arith))
    ]
  ]

  review_none :
      (send : Bytes → Option (Option ReviewResponse)) (token : Bytes)
      → send token ≡ some none
      → authorize decode username send token ≢ ok tt
  unfolding authorize
  review_none send token e h = ground arith

  authorize-review :
      (send : Bytes → Option (Option ReviewResponse)) (token : Bytes) (r : ReviewResponse)
      → send token ≡ some (some r)
      → authorize decode username send token ≡ ok tt
      → (validate_token token ≡ ok tt) × (review decode username (some r) ≡ ok tt)
  unfolding authorize
  authorize-review send token r e h = (ground arith, ground arith)

  authorize_sent :
      (send : Bytes → Option (Option ReviewResponse)) (token : Bytes) (r : ReviewResponse)
      → send token ≡ some (some r)
      → authorize decode username send token ≡ ok tt
      → Authorized send token
  authorize_sent send token r e h =
      let (valid, reviewed) = authorize-review send token r e h in
      let (success, declared, (bytes, status, received, decoded, granted)) =
        review_inv r reviewed in
      let body = (read_chunks-ok_iff r.chunks bytes).0 received in
      record {
        valid = (validate_token-ok_iff token).0 valid;
        response = r;
        sent = e;
        success = success;
        declared = declared;
        bytes = bytes;
        received = body.0;
        bounded = body.1;
        status = status;
        decoded = decoded;
        granted = authorize_status_inv status username granted;
      }

  authorize_inv :
      (send : Bytes → Option (Option ReviewResponse)) (token : Bytes)
      → authorize decode username send token ≡ ok tt
      → Authorized send token
  unfolding authorize
  authorize_inv send token h = elim (Option-cases (send token)) [
    | inl e ↦ absurd (ground arith)
    | inr (none, e) ↦ absurd (review_none send token e h)
    | inr (some r, e) ↦ authorize_sent send token r e h
  ]

  -- A token is authorized exactly if it is well-formed and one review, answered in time with a success
  -- whose body, whole and of at most 64 KiB, decodes, grants it: a failure on the way, before the body
  -- or in the middle of it, does not authorize.
  pub authorize-ok_iff :
      (send : Bytes → Option (Option ReviewResponse)) (token : Bytes)
      → (authorize decode username send token ≡ ok tt) ↔ Authorized send token
  unfolding authorize
  authorize-ok_iff send token = (
    authorize_inv send token,
    λ a.
        let read = (read_chunks-ok_iff a.response.chunks a.bytes).1 (a.received, a.bounded) in
        let valid = (validate_token-ok_iff token).1 a.valid in
        ground (arith, valid, read, authorize_status-Granted a.status username a.granted),
  )
