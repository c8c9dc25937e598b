-- ===== src/Platform/Identity.antt =====
-- lib/platform-common/src/identity.rs: the syntax of a token, and the review of a service account.
-- What the API server answers, and the JSON decoder, are arguments.
pub mod Laws
use wasm_platform.Base.{
  ℕ, ◌+◌, ◌*◌, Bool, true, false, not, ◌&&◌, ◌||◌, Bytes, ascii, List, ◌∷◌, [], ◌++◌, Result, ok,
  err, ensure, ◌>>◌, ◌>>=◌, leb, ltb, ◌==◌, length, all, Option, none, some, if◌then◌else◌,
  bytes_eq, is_ascii_alphanumeric, or_fail, map_err,
}

pub data IdentityError : Type 0 where
  token_unavailable invalid_token configuration review_unavailable : IdentityError
  unauthenticated forbidden connection : IdentityError

abbrev pub platform_audience : Bytes
platform_audience = ascii "wasm-platform"

abbrev pub max_token_bytes : ℕ
max_token_bytes = 16 * 1024

abbrev pub max_review_bytes : ℕ
max_review_bytes = 64 * 1024

abbrev pub is_token_byte : ℕ → Bool
is_token_byte c = is_ascii_alphanumeric c || (c == b'-') || (c == b'_') || (c == b'.')

abbrev pub is_empty : Bytes → Bool
is_empty [] = true
is_empty (c ∷ s) = false

unfoldable pub validate_token : Bytes → Result IdentityError (Unit {0})
validate_token token =
    if is_empty token || ltb max_token_bytes (length token) || not (all is_token_byte token)
    then err invalid_token
    else ok tt

-- `user` keeps only the name; a user without one has the empty name.
pub record TokenReviewStatus : Type 0 where
  pub authenticated : Bool
  pub audiences : List Bytes
  pub user : Option Bytes
  pub error : Option Bytes

abbrev pub is_some_and {ℓ} : {A : Type ℓ} → Option A → (A → Bool) → Bool
is_some_and none p = false
is_some_and (some a) p = p a

abbrev pub is_none_or {ℓ} : {A : Type ℓ} → Option A → (A → Bool) → Bool
is_none_or none p = true
is_none_or (some a) p = p a

abbrev pub any {ℓ} : {A : Type ℓ} → (A → Bool) → List A → Bool
any p [] = false
any p (x ∷ xs) = p x || any p xs

unfoldable pub authorize_status : TokenReviewStatus → Bytes → Result IdentityError (Unit {0})
authorize_status status expected_username =
    if not status.authenticated
      || is_some_and status.error (λ value. not (is_empty value))
      || not (any (λ audience. bytes_eq audience platform_audience) status.audiences)
    then err unauthenticated
    else (if is_none_or status.user (λ name. not (bytes_eq name expected_username))
        then err forbidden
        else ok tt)

-- What the HTTP client sees of one review: a chunk of `none` is a transport error.
pub record ReviewResponse : Type 0 where
  pub is_success : Bool
  pub content_length : Option ℕ
  pub chunks : List (Option Bytes)

-- The body, read while it stays within the limit.
unfoldable pub read_chunks : List (Option Bytes) → Bytes → Result IdentityError Bytes
read_chunks [] bytes = ok bytes
read_chunks (none ∷ chunks) bytes = err review_unavailable
read_chunks (some chunk ∷ chunks) bytes =
    let rest = read_chunks chunks (bytes ++ chunk) in
    if ltb max_review_bytes (length bytes + length chunk) then err review_unavailable else rest

module _ (decode : Bytes → Option TokenReviewStatus) (expected_username : Bytes) where
  -- `none` is a request that could not be made or sent.
  unfoldable pub review : Option ReviewResponse → Result IdentityError (Unit {0})
  review none = err review_unavailable
  review (some response) =
      if not response.is_success
        || is_some_and response.content_length (λ n. ltb max_review_bytes n)
      then err review_unavailable
      else (do
        bytes ← read_chunks response.chunks []
        status ← or_fail (decode bytes) review_unavailable
        authorize_status status expected_username)

  -- The answer to a review request for a token; the outer `none` is the 3 second timeout.
  unfoldable pub authorize :
      (Bytes → Option (Option ReviewResponse)) → Bytes → Result IdentityError (Unit {0})
  unfolding review
  authorize send token = do
    map_err (λ _. unauthenticated) (validate_token token)
    answer ← or_fail (send token) review_unavailable
    review answer
