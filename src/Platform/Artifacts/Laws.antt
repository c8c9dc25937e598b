-- ===== src/Platform/Artifacts/Laws.antt =====
-- What `parse` and `verify_wasm` of artifacts.rs accept.
use wasm_platform.Base.{
  ◌≤◌, ◌≡◌, ◌↔◌, true, Bytes, ascii, ◌∷◌, ◌++◌, ok, length, all, strip_prefix, starts_with, arith,
  strip_prefix-append, strip_prefix-eq-some, bytes_eq_iff, Option-cases, inl, inr,
}
use wasm_platform.Platform.Artifacts.{
  is_lower_hex, parse, from_bytes, verify, verify_wasm, max_wasm_bytes,
}

-- The text of a canonical digest: 64 lowercase hexadecimal characters.
abbrev pub IsHex64 : Bytes → Type 0
IsHex64 hex = (length hex ≡ 64) × (all is_lower_hex hex ≡ true)

parse-canonical :
    (hex : Bytes) → IsHex64 hex → parse (ascii "sha256:" ++ hex) ≡ ok (ascii "sha256:" ++ hex)
unfolding parse
parse-canonical hex h = ground (arith, strip_prefix-append (ascii "sha256:") hex)

parse_inv :
    (value d : Bytes)
    → parse value ≡ ok d
    → (d ≡ value) × ((hex : Bytes) × (value ≡ ascii "sha256:" ++ hex) × IsHex64 hex)
unfolding parse
parse_inv value d h = elim (Option-cases (strip_prefix (ascii "sha256:") value)) [
  | inl e ↦ absurd (ground arith)
  | inr (hex, e) ↦ (
    ground arith,
    (hex, strip_prefix-eq-some (ascii "sha256:") _ _ e, (ground arith, ground arith)),
  )
]

-- `parse` accepts exactly the texts `sha256:` followed by 64 lowercase hexadecimal characters, and
-- returns the text unchanged.
pub parse-ok_iff :
    (value d : Bytes)
    → (parse value ≡ ok d)
      ↔ ((d ≡ value) × ((hex : Bytes) × (value ≡ ascii "sha256:" ++ hex) × IsHex64 hex))
parse-ok_iff value d = (parse_inv value d, λ h. rw (h.0, h.1.1) (parse-canonical h.1.0 h.1.2))

module _ (sha256_hex : Bytes → Bytes) where
  -- If the hash function prints 64 lowercase hexadecimal characters, the digest computed from any
  -- bytes is accepted by `parse` unchanged, and verifies those bytes and no bytes of another hash.
  pub parse-from_bytes :
      (bytes other : Bytes)
      → ((b : Bytes) → IsHex64 (sha256_hex b))
      → (parse (from_bytes sha256_hex bytes) ≡ ok (from_bytes sha256_hex bytes))
        × ((verify sha256_hex (from_bytes sha256_hex bytes) other ≡ ok tt)
            ↔ (sha256_hex bytes ≡ sha256_hex other))
  unfolding from_bytes verify
  parse-from_bytes bytes other h = (
    parse-canonical (sha256_hex bytes) (h bytes),
    (
      ground (arith, bytes_eq_iff (from_bytes sha256_hex bytes) (from_bytes sha256_hex other)),
      ground (arith, bytes_eq_iff (from_bytes sha256_hex bytes) (from_bytes sha256_hex other)),
    ),
  )

  -- A Wasm artifact is accepted exactly when it has between 8 and 16 MiB bytes, begins with the
  -- Wasm magic number, and hashes to the digest.
  pub verify_wasm-ok_iff :
      (digest bytes : Bytes)
      → (verify_wasm sha256_hex digest bytes ≡ ok tt) ↔ (
          (8 ≤ length bytes)
          × (length bytes ≤ max_wasm_bytes)
          × (starts_with (0 ∷ ascii "asm") bytes ≡ true)
          × (digest ≡ from_bytes sha256_hex bytes))
  unfolding verify_wasm
  verify_wasm-ok_iff digest bytes = (
    ground (arith, bytes_eq_iff digest (from_bytes sha256_hex bytes)),
    ground (arith, bytes_eq_iff digest (from_bytes sha256_hex bytes)),
  )
