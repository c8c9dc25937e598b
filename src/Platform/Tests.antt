-- ===== src/Platform/Tests.antt =====
-- The properties of lib/platform-common on concrete tokens, reviews and artifacts.
use wasm_platform.Base.{
  ℕ, zero, suc, ◌≡◌, ◌↔◌, refl, true, Bytes, ascii, ◌∷◌, [], ◌++◌, none, some, ok,
}
use wasm_platform.Platform.Artifacts.{parse, verify, from_bytes}
use wasm_platform.Platform.Artifacts.Laws.{parse-from_bytes}
use wasm_platform.Platform.Identity.{TokenReviewStatus, ReviewResponse, authorize}
use wasm_platform.Platform.Identity.Laws.{Authorized, authorize-ok_iff}

-- A function in the place of the hash.
abbrev zeros : ℕ → Bytes
zeros zero = []
zeros (suc n) = b'0' ∷ zeros n

abbrev hash : Bytes → Bytes
hash bytes = zeros 64

abbrev digest : Bytes
digest = ascii "sha256:" ++ zeros 64

abbrev wasm : Bytes
wasm = 0 ∷ ascii "asm" ++ 1 ∷ 0 ∷ 0 ∷ 0 ∷ []

abbrev status : TokenReviewStatus
status = record {
  authenticated = true;
  audiences = ascii "wasm-platform" ∷ [];
  user = some (ascii "host");
  error = none;
}

abbrev response : ReviewResponse
response = record { is_success = true; content_length = some 2; chunks = some (ascii "{}") ∷ [] }

parse-from_bytes_example :
    (parse (from_bytes hash wasm) ≡ ok (from_bytes hash wasm))
    × ((verify hash (from_bytes hash wasm) [] ≡ ok tt) ↔ (hash wasm ≡ hash []))
parse-from_bytes_example = parse-from_bytes hash wasm [] (λ b. (refl, refl))

authorize-ok_iff_example :
    (authorize (λ _. some status) (ascii "host") (λ _. some (some response)) (ascii "a.b-c")
      ≡ ok tt)
    ↔ Authorized (λ _. some status) (ascii "host") (λ _. some (some response)) (ascii "a.b-c")
authorize-ok_iff_example =
    authorize-ok_iff (λ _. some status) (ascii "host") (λ _. some (some response)) (ascii "a.b-c")
