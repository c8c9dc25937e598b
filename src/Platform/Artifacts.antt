-- ===== src/Platform/Artifacts.antt =====
-- lib/platform-common/src/artifacts.rs: digests of immutable artifacts and the check of a Wasm
-- envelope. The SHA-256 of the `sha2` crate, printed by `{:x}`, is the parameter `sha256_hex`.
pub mod Laws
use wasm_platform.Base.{
  ℕ, ◌*◌, Bool, not, ◌&&◌, ◌||◌, Bytes, ascii, ◌∷◌, [], ◌++◌, Result, ok, err, ensure, ◌>>◌, leb,
  ltb, ◌==◌, length, all, Option, none, some, if◌then◌else◌, strip_prefix, starts_with, bytes_eq,
  is_ascii_digit,
}

abbrev pub max_manifest_bytes : ℕ
max_manifest_bytes = 1024 * 1024

abbrev pub max_wasm_bytes : ℕ
max_wasm_bytes = 16 * 1024 * 1024

abbrev pub cache_max_bytes : ℕ
cache_max_bytes = 64 * 1024 * 1024

abbrev pub cache_max_entries : ℕ
cache_max_entries = 256

-- The text that the source's tuple struct wraps.
abbrev pub Sha256Digest : Type 0
Sha256Digest = Bytes

pub data ArtifactError : Type 0 where
  not_sha256 not_hex digest_mismatch exceeds_limit not_wasm : ArtifactError

-- `b'a'..=b'f'` or an ASCII digit.
abbrev pub is_lower_hex : ℕ → Bool
is_lower_hex c = is_ascii_digit c || (leb b'a' c && leb c b'f')

unfoldable pub parse : Bytes → Result ArtifactError Sha256Digest
parse value = elim (strip_prefix (ascii "sha256:") value) [
  | none ↦ err not_sha256
  | some hex ↦
      if not (length hex == 64) || not (all is_lower_hex hex) then err not_hex else ok value
]

module _ (sha256_hex : Bytes → Bytes) where
  unfoldable pub from_bytes : Bytes → Sha256Digest
  from_bytes bytes = ascii "sha256:" ++ sha256_hex bytes

  unfoldable pub verify : Sha256Digest → Bytes → Result ArtifactError (Unit {0})
  verify digest bytes =
      if not (bytes_eq digest (from_bytes bytes)) then err digest_mismatch else ok tt

  -- Size first, then the envelope, then the identity.
  unfoldable pub verify_wasm : Sha256Digest → Bytes → Result ArtifactError (Unit {0})
  unfolding verify
  verify_wasm digest bytes =
      if ltb max_wasm_bytes (length bytes)
      then err exceeds_limit
      else (if ltb (length bytes) 8 || not (starts_with (0 ∷ ascii "asm") bytes)
          then err not_wasm
          else verify digest bytes)
