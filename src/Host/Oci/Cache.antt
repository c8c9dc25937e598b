-- ===== src/Host/Oci/Cache.antt =====
-- components/execution-host/src/module_cache.rs: the client of the module cache, with the token that
-- identity.rs reads for it. What the file system and the cache answer are arguments, and a call that
-- takes too long has no answer.
use wasm_platform.Base.{
  ℕ, zero, suc, ◌+◌, ◌≤◌, ◌≡◌, Bool, false, ◌&&◌, Bytes, ascii, ◌∷◌, [], ◌++◌, Option, none, some,
  Result, ok, err, ensure, or_fail, ◌>>=◌, ◌>>◌, if◌then◌else◌, leb, ltb, ◌==◌, length, arith,
  Result-cases, Option-cases, inl, inr,
}
use wasm_platform.Platform.Artifacts.{Sha256Digest, max_wasm_bytes}
use wasm_platform.Platform.Identity.{
  IdentityError, token_unavailable, invalid_token, max_token_bytes, validate_token,
}
use wasm_platform.Host.Oci.Responses.{Response, body_of, read_response, read_response-ok_iff}

-- `Read::take`, then `read_to_end`.
abbrev take : ℕ → Bytes → Bytes
take zero bytes = []
take (suc n) [] = []
take (suc n) (b ∷ bytes) = b ∷ take n bytes

module _ (is_utf8 : Bytes → Bool) (trim : Bytes → Bytes) where
  -- `ProjectedTokenReader::read`, where the file has what it holds when it is opened.
  unfoldable pub read_token : Option Bytes → Result IdentityError Bytes
  read_token file = do
    content ← or_fail file token_unavailable
    ensure (leb (length (take (max_token_bytes + 1) content)) max_token_bytes) invalid_token
    ensure (is_utf8 (take (max_token_bytes + 1) content)) invalid_token
    validate_token (trim (take (max_token_bytes + 1) content))
    ok (trim (take (max_token_bytes + 1) content))

  -- `ProjectedTokenReader::http_request`: the header.
  unfoldable pub authorization : Option Bytes → Result IdentityError Bytes
  authorization file = do token ← read_token file; ok (ascii "Bearer " ++ token)

  -- A cache answers to a header and a path, and to a body that is put.
  unfoldable pub get :
      (Bytes → Bytes → Option Response) → Option Bytes → Sha256Digest → Option (Option Bytes)
  get client file digest = elim (authorization file) [
    | err e ↦ none
    | ok header ↦ elim (client header (ascii "modules/" ++ digest)) [
      | none ↦ none
      | some response ↦
          if response.status == 404
          then some none
          else if response.status == 200
          then (elim (read_response response max_wasm_bytes) [
            | err e ↦ none
            | ok bytes ↦ some (some bytes)
          ])
          else none
    ]
  ]

  abbrev pub is_success : ℕ → Bool
  is_success status = leb 200 status && ltb status 300

  unfoldable pub put :
      (Bytes → Bytes → Bytes → Option Response) → Option Bytes → Sha256Digest → Bytes → Bool
  put client file digest wasm =
      if ltb max_wasm_bytes (length wasm) then false else (elim (authorization file) [
        | err e ↦ false
        | ok header ↦ elim (client header (ascii "modules/" ++ digest) wasm) [
          | none ↦ false
          | some response ↦ is_success response.status
        ]
      ])

  -- A hit is a whole body of at most 16 MiB that the cache gave to a request with a valid token.
  pub get-hit :
      (client : Bytes → Bytes → Option Response) (file : Option Bytes) (digest : Sha256Digest)
      (bytes : Bytes)
      → get client file digest ≡ some (some bytes)
      → (header : Bytes) × (response : Response) × (authorization file ≡ ok header)
        × (client header (ascii "modules/" ++ digest) ≡ some response)
        × (body_of response.chunks ≡ some bytes)
        × (length bytes ≤ max_wasm_bytes)
  unfolding get
  get-hit client file digest bytes h = elim (Result-cases (authorization file)) [
    | inr (e, q) ↦ absurd (ground arith)
    | inl (header, q) ↦ elim (Option-cases (client header (ascii "modules/" ++ digest))) [
      | inl n ↦ absurd (ground arith)
      | inr (response, n) ↦ elim (Result-cases (read_response response max_wasm_bytes)) [
        | inr (e, r) ↦ absurd (ground arith)
        | inl (b, r) ↦
            let read = (read_response-ok_iff response max_wasm_bytes b).0 r in
            let same : b ≡ bytes = ground arith in
            (header, response, q, n, ground (arith, read, same), ground (arith, read, same))
      ]
    ]
  ]
