-- ===== src/Base/Lists.antt =====
-- Lists over the native numbers: length, drop, sums, and predicates by recursion.
use Prim.Native.Nat.{ℕ, zero, suc, ◌+◌}
use mathlib.Core.Path.{◌≡◌}
use mathlib.Core.Bool.{Bool, true, ◌&&◌}
use mathlib.Core.Option.{Option, none, some}
use mathlib.Core.Logic.{◌⊎◌, inl, inr}
use wasm_platform.Base.Tests.{Option-cases}
use mathlib.Core.List.{List, [], ◌∷◌, ◌++◌}
use native.Mathlib.Omega.{arith}

module _ {ℓ} {A : Type ℓ} where
  abbrev pub length : List A → ℕ
  length [] = 0
  length (x ∷ xs) = suc (length xs)

  pub length-append : (xs ys : List A) → length (xs ++ ys) ≡ length xs + length ys
  length-append [] ys = omega arith
  length-append (x ∷ xs) ys = omega (arith, length-append xs ys)

  abbrev pub drop : ℕ → List A → List A
  drop zero xs = xs
  drop (suc n) [] = []
  drop (suc n) (x ∷ xs) = drop n xs

  -- Every byte of a text passes a test.
  abbrev pub all : (A → Bool) → List A → Bool
  all p [] = true
  all p (x ∷ xs) = p x && all p xs

  abbrev pub All {κ} : (A → Type κ) → List A → Type κ
  All P [] = Unit
  All P (x ∷ xs) = P x × All P xs

abbrev pub sum : List ℕ → ℕ
sum [] = 0
sum (x ∷ xs) = x + sum xs

pub sum-append : (xs ys : List ℕ) → sum (xs ++ ys) ≡ sum xs + sum ys
sum-append [] ys = omega arith
sum-append (x ∷ xs) ys = omega (arith, sum-append xs ys)

-- The entry at a place, and the others.
unfoldable pub take_at {ℓ} : {A : Type ℓ} → ℕ → List A → Option (A × List A)
take_at i [] = none
take_at zero (x ∷ xs) = some (x, xs)
take_at (suc i) (x ∷ xs) = elim (take_at i xs) [ none ↦ none | some (y, ys) ↦ some (y, x ∷ ys) ]

pub length-take_at {ℓ} :
    {A : Type ℓ} (i : ℕ) (xs : List A) (y : A) (ys : List A)
    → take_at i xs ≡ some (y, ys)
    → length xs ≡ length ys + 1
unfolding take_at
length-take_at i [] y ys h = ground arith
length-take_at zero (x ∷ xs) y ys h = ground arith
length-take_at (suc i) (x ∷ xs) y ys h = elim (Option-cases (take_at i xs)) [
  | inl e ↦ ground arith
  | inr ((z, zs), e) ↦ ground (arith, length-take_at i xs z zs e)
]

-- Membership by cases, which the tactics read.
abbrev pub Among : {A : Type 0} → A → List A → Type 0
Among a [] = ⊥
Among a (b ∷ l) = (b ≡ a) ⊎ Among a l

module _ {A : Type 0} where
  pub Among-append_left : (a : A) (l k : List A) → Among a l → Among a (l ++ k)
  Among-append_left a [] k h = absurd h
  Among-append_left a (b ∷ l) k (inl e) = inl e
  Among-append_left a (b ∷ l) k (inr h) = inr (Among-append_left a l k h)

  pub Among-append_right : (a : A) (l k : List A) → Among a k → Among a (l ++ k)
  Among-append_right a [] k h = h
  Among-append_right a (b ∷ l) k h = inr (Among-append_right a l k h)
