-- ===== src/Base/Text.antt =====
-- The functions of `str` and slices that the source calls, on bytes.
use mathlib.Core.Path.{◌≡◌, refl}
use mathlib.Core.Logic.{ite}
use mathlib.Core.List.{List, [], ◌∷◌, ◌++◌}
use mathlib.Core.Bool.{Bool, true, false, ◌&&◌, ◌||◌}
use mathlib.Core.Option.{Option, none, some}
use native.Mathlib.Omega.{arith}
use native.Mathlib.Decide.{ℕ_discrete}
use Prim.Native.Nat.{ℕ}
use wasm_platform.Base.Tests.{Bytes, leb, bytes_discrete}

abbrev pub reverse {ℓ} : {A : Type ℓ} → List A → List A
reverse [] = []
reverse (x ∷ xs) = reverse xs ++ x ∷ []

-- `str::strip_prefix`.
unfoldable pub strip_prefix : Bytes → Bytes → Option Bytes
unfolding ℕ_discrete
strip_prefix [] s = some s
strip_prefix (p ∷ ps) [] = none
strip_prefix (p ∷ ps) (c ∷ s) = ite (ℕ_discrete p c) (strip_prefix ps s) none

-- `slice::starts_with`.
unfoldable pub starts_with : Bytes → Bytes → Bool
unfolding strip_prefix
starts_with p s = elim (strip_prefix p s) [ none ↦ false | some _ ↦ true ]

unfoldable pub ends_with : Bytes → Bytes → Bool
unfolding strip_prefix
ends_with p s = starts_with (reverse p) (reverse s)

-- `str::split_once` at an ASCII character, and `str::split`.
unfoldable pub split_once : ℕ → Bytes → Option (Bytes × Bytes)
unfolding ℕ_discrete
split_once c [] = none
split_once c (x ∷ s) =
    ite (ℕ_discrete x c) (some ([], s))
      (elim (split_once c s) [ none ↦ none | some (a, b) ↦ some (x ∷ a, b) ])

unfoldable pub split : ℕ → Bytes → List Bytes
unfolding ℕ_discrete
split c [] = [] ∷ []
split c (x ∷ s) =
    let rest = split c s in
    ite (ℕ_discrete x c) ([] ∷ rest)
      (elim rest [ [] ↦ (x ∷ []) ∷ [] | first ∷ more ↦ (x ∷ first) ∷ more ])

unfoldable pub trim_start : (ℕ → Bool) → Bytes → Bytes
trim_start p [] = []
trim_start p (x ∷ s) = let rest = trim_start p s in elim (p x) [ true ↦ rest | false ↦ x ∷ s ]

-- `str::trim_matches`.
unfoldable pub trim_matches : (ℕ → Bool) → Bytes → Bytes
trim_matches p s = reverse (trim_start p (reverse (trim_start p s)))

unfoldable pub bytes_eq : Bytes → Bytes → Bool
unfolding bytes_discrete
bytes_eq a b = elim (bytes_discrete a b) [ yes _ ↦ true | no _ ↦ false ]

abbrev pub is_ascii_digit : ℕ → Bool
is_ascii_digit c = leb b'0' c && leb c b'9'

abbrev pub is_ascii_lowercase : ℕ → Bool
is_ascii_lowercase c = leb b'a' c && leb c b'z'

abbrev pub is_ascii_alphabetic : ℕ → Bool
is_ascii_alphabetic c = (leb b'a' c && leb c b'z') || (leb b'A' c && leb c b'Z')

abbrev pub is_ascii_alphanumeric : ℕ → Bool
is_ascii_alphanumeric c = is_ascii_alphabetic c || is_ascii_digit c

pub strip_prefix-append : (p s : Bytes) → strip_prefix p (p ++ s) ≡ some s
unfolding strip_prefix
strip_prefix-append [] s = refl
strip_prefix-append (c ∷ p) s = ground (arith, strip_prefix-append p s)

pub strip_prefix-eq-some : (p s r : Bytes) → strip_prefix p s ≡ some r → s ≡ p ++ r
unfolding strip_prefix
strip_prefix-eq-some [] s r h = ground arith
strip_prefix-eq-some (c ∷ p) [] r h = ground arith
strip_prefix-eq-some (c ∷ p) (d ∷ s) r h = ground (arith, strip_prefix-eq-some p s r)

pub bytes_eq_iff : (a b : Bytes) → (bytes_eq a b ≡ true → a ≡ b) × (a ≡ b → bytes_eq a b ≡ true)
unfolding bytes_eq
bytes_eq_iff a b = (ground arith, ground arith)
