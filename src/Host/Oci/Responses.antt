-- ===== src/Host/Oci/Responses.antt =====
-- The responses that oci.rs reads: `read_response` and `verify_digest_header`.
use wasm_platform.Base.{
  ℕ, ◌+◌, ◌-◌, ◌≤◌, ◌<◌, ◌≡◌, refl, ap, ◌↔◌, true, Bytes, List, ◌∷◌, [], ◌++◌, append_assoc,
  append-nil, Option, none, some, Result, ok, err, ensure, ◌>>◌, if◌then◌else◌, leb, bytes_eq,
  length, length-append, arith, Option-cases, Bool-cases, inl, inr,
}

pub data OciError : Type 0 where
  exceeds_size_limit read_timeout read_failed : OciError
  invalid_digest_header digest_header_mismatch : OciError
  empty_registry_list plaintext_not_approved plaintext_not_local invalid_registry_origin : OciError
  invalid_reference registry_not_approved not_immutable invalid_digest : OciError
  manifest_request_failed manifest_request_rejected wrong_manifest_digest invalid_manifest :
      OciError
  unsupported_schema unsupported_manifest_type not_one_layer unsupported_layer_type : OciError
  external_layer_urls invalid_layer_size layer_out_of_bounds : OciError
  blob_request_failed blob_request_rejected layer_size_mismatch not_verified : OciError

-- What a call of `chunk` gives, while there is one.
pub data Chunk : Type 0 where
  data_chunk : Bytes → Chunk
  timed_out failed : Chunk

-- A response: a `docker-content-digest` header that is not text is `some none`.
pub record Response : Type 0 where
  pub status : ℕ
  pub digest_header : Option (Option Bytes)
  pub content_length : Option ℕ
  pub chunks : List Chunk

-- The loop of `read_response`.
unfoldable pub read_chunks : ℕ → List Chunk → Bytes → Result OciError Bytes
read_chunks limit [] bytes = ok bytes
read_chunks limit (timed_out ∷ chunks) bytes = err read_timeout
read_chunks limit (failed ∷ chunks) bytes = err read_failed
read_chunks limit (data_chunk c ∷ chunks) bytes =
    let rest = read_chunks limit chunks (bytes ++ c) in
    if leb (length c) (limit - length bytes) then rest else err exceeds_size_limit

unfoldable pub read_response : Response → ℕ → Result OciError Bytes
read_response r limit = do
  ensure (elim r.content_length [ none ↦ true | some size ↦ leb size limit ]) exceeds_size_limit
  read_chunks limit r.chunks []

unfoldable pub verify_digest_header : Response → Bytes → Result OciError (Unit {0})
verify_digest_header r expected = elim r.digest_header [
  | none ↦ ok tt
  | some none ↦ err invalid_digest_header
  | some (some digest) ↦ ensure (bytes_eq digest expected) digest_header_mismatch
]

-- The body as a whole, if no chunk of it fails.
abbrev pub body_of : List Chunk → Option Bytes
body_of [] = some []
body_of (timed_out ∷ chunks) = none
body_of (failed ∷ chunks) = none
body_of (data_chunk c ∷ chunks) = elim (body_of chunks) [
  | none ↦ none
  | some rest ↦ some (c ++ rest)
]

-- A response may announce its length.
abbrev pub Announces : Option ℕ → ℕ → Type 0
Announces none limit = Unit {0}
Announces (some size) limit = size ≤ limit

abbrev after : Bytes → Option Bytes → Option Bytes
after bytes none = none
after bytes (some rest) = some (bytes ++ rest)

after-chunk :
    (bytes c : Bytes) (rest : Option Bytes)
    → after (bytes ++ c) rest ≡ after bytes (elim rest [ none ↦ none | some r ↦ some (c ++ r) ])
after-chunk bytes c none = refl
after-chunk bytes c (some r) = ap some (append_assoc bytes c r)

too_long :
    (limit : ℕ) (bytes c whole : Bytes) (rest : Option Bytes)
    → after bytes (elim rest [ none ↦ none | some r ↦ some (c ++ r) ]) ≡ some whole
    → limit < length bytes + length c
    → limit < length whole
too_long limit bytes c whole none h l = absurd (ground arith)
too_long limit bytes c whole (some r) h l =
    ground (arith, length-append bytes (c ++ r), length-append c r)

read_chunks-from :
    (limit : ℕ) (chunks : List Chunk) (bytes whole : Bytes)
    → length bytes ≤ limit
    → (read_chunks limit chunks bytes ≡ ok whole)
      ↔ ((after bytes (body_of chunks) ≡ some whole) × (length whole ≤ limit))
unfolding read_chunks
read_chunks-from limit [] bytes whole h = ground (arith, append-nil bytes)
read_chunks-from limit (timed_out ∷ chunks) bytes whole h = ground arith
read_chunks-from limit (failed ∷ chunks) bytes whole h = ground arith
read_chunks-from limit (data_chunk c ∷ chunks) bytes whole h =
    elim (Bool-cases (leb (length c) (limit - length bytes))) [
      | inl b ↦
          let l : length (bytes ++ c) ≤ limit = ground (arith, length-append bytes c) in
          ground (
            arith,
            b,
            read_chunks-from limit chunks (bytes ++ c) whole l,
            after-chunk bytes c (body_of chunks),
          )
      | inr b ↦ ground (arith, b, too_long limit bytes c whole (body_of chunks))
    ]

-- However a body is cut into chunks, it is read as a whole: the read succeeds exactly if no chunk fails,
-- neither the length that is announced nor the body's exceeds the limit, and then gives the body.
pub read_response-ok_iff :
    (r : Response) (limit : ℕ) (whole : Bytes)
    → (read_response r limit ≡ ok whole) ↔ (
        Announces r.content_length limit × (body_of r.chunks ≡ some whole) × (length whole ≤ limit))
unfolding read_response
read_response-ok_iff r limit whole = elim (Option-cases r.content_length) [
  | inl e ↦ ground (arith, e, read_chunks-from limit r.chunks [] whole (omega arith))
  | inr (n, e) ↦ ground (arith, e, read_chunks-from limit r.chunks [] whole (omega arith))
]
