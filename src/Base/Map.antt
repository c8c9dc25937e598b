-- ===== src/Base/Map.antt =====
-- A `HashMap` of the source as an association list, and the sizes that are summed over one.
use mathlib.Core.Path.{◌≡◌, refl, subst}
use mathlib.Core.Logic.{ite, if_pos, if_neg}
use mathlib.Core.List.{List, [], ◌∷◌}
use mathlib.Core.Bool.{Bool, true, false}
use mathlib.Core.Option.{Option, none, some}
use native.Mathlib.Omega.{arith}
use Prim.Native.Nat.{ℕ, ◌+◌}
use wasm_platform.Base.Lists.{length}

-- The sum of the sizes of the values.
unfoldable pub total {ℓ} : {K V : Type ℓ} → (V → ℕ) → List (K × V) → ℕ
total size [] = 0
total size ((k, v) ∷ m) = size v + total size m

-- A property of every entry.
abbrev pub Each {ℓ κ} : {K V : Type ℓ} → (K → V → Type κ) → List (K × V) → Type κ
Each P [] = Unit
Each P ((k, v) ∷ m) = P k v × Each P m

module _ {ℓ} {K V : Type ℓ} (dec : Discrete K) where
  unfoldable pub get : K → List (K × V) → Option V
  get k [] = none
  get k ((j, v) ∷ m) = ite (dec j k) (some v) (get k m)

  unfoldable pub contains_key : K → List (K × V) → Bool
  unfolding get
  contains_key k m = elim (get k m) [ none ↦ false | some _ ↦ true ]

  -- Removes every entry of the key.
  unfoldable pub remove : K → List (K × V) → List (K × V)
  remove k [] = []
  remove k ((j, v) ∷ m) = ite (dec j k) (remove k m) ((j, v) ∷ remove k m)

  unfoldable pub insert : K → V → List (K × V) → List (K × V)
  unfolding remove
  insert k v m = (k, v) ∷ remove k m

  pub get-remove : (k j : K) (m : List (K × V)) → get j (remove k m) ≡ ite (dec k j) none (get j m)
  unfolding get remove
  get-remove k j [] = ground arith
  get-remove k j ((i, v) ∷ m) = ground (arith, get-remove k j m)

  pub get-insert :
      (k j : K) (v : V) (m : List (K × V)) → get j (insert k v m) ≡ ite (dec k j) (some v) (get j m)
  unfolding get insert
  get-insert k j v m = ground (arith, get-remove k j m)

  pub remove_absent : (k : K) (m : List (K × V)) → get k m ≡ none → remove k m ≡ m
  unfolding get remove
  remove_absent k [] h = refl
  remove_absent k ((i, v) ∷ m) h = ground (arith, remove_absent k m)

  pub remove_comm : (k j : K) (m : List (K × V)) → remove k (remove j m) ≡ remove j (remove k m)
  unfolding remove
  remove_comm k j [] = refl
  remove_comm k j ((i, v) ∷ m) = ground (arith, remove_comm k j m)

  -- No key stands twice.
  abbrev pub Distinct : List (K × V) → Type ℓ
  Distinct [] = Unit
  Distinct ((k, v) ∷ m) = (get k m ≡ none) × Distinct m

  pub remove-Distinct : (k : K) (m : List (K × V)) → Distinct m → Distinct (remove k m)
  unfolding remove
  remove-Distinct k [] d = tt
  remove-Distinct k ((i, v) ∷ m) d = ground (arith, remove-Distinct k m d.1, get-remove k i m)

  pub insert-Distinct : (k : K) (v : V) (m : List (K × V)) → Distinct m → Distinct (insert k v m)
  unfolding insert
  insert-Distinct k v m d = ground (arith, remove-Distinct k m d, get-remove k k m)

  pub total-remove :
      (size : V → ℕ) (k : K) (v : V) (m : List (K × V))
      → Distinct m
      → get k m ≡ some v
      → total size (remove k m) + size v ≡ total size m
  unfolding get remove total
  total-remove size k v [] d h = ground arith
  total-remove size k v ((i, w) ∷ m) d h =
      ground (arith, total-remove size k v m d.1, remove_absent k m)

  pub length-remove :
      (k : K) (v : V) (m : List (K × V))
      → Distinct m
      → get k m ≡ some v
      → length (remove k m) + 1 ≡ length m
  unfolding get remove
  length-remove k v [] d h = ground arith
  length-remove k v ((i, w) ∷ m) d h = ground (arith, length-remove k v m d.1, remove_absent k m)

  pub get-insert_self : (k : K) (v : V) (m : List (K × V)) → get k (insert k v m) ≡ some v
  get-insert_self k v m = ground (arith, get-insert k k v m)

  pub remove-insert_absent :
      (k : K) (v : V) (m : List (K × V)) → get k m ≡ none → remove k (insert k v m) ≡ m
  unfolding insert
  remove-insert_absent k v m h = ground (arith, remove_absent k m h)

  pub contains_key-eq-true :
      (k : K) (m : List (K × V)) → contains_key k m ≡ true → (v : V) × (get k m ≡ some v)
  unfolding contains_key
  contains_key-eq-true k m h = ground arith

  -- What holds of every entry holds of what is left, and of what is found.
  module _ {κ} (P : K → V → Type κ) where
    pub remove-Each : (k : K) (m : List (K × V)) → Each P m → Each P (remove k m)
    unfolding remove
    remove-Each k [] e = tt
    remove-Each k ((j, v) ∷ m) e = elim (dec j k) [
      | yes p ↦ rw (if_pos _ p) (remove-Each k m e.1)
      | no p ↦ rw (if_neg _ p) (e.0, remove-Each k m e.1)
    ]

    pub get-Each : (k : K) (v : V) (m : List (K × V)) → Each P m → get k m ≡ some v → P k v
    unfolding get
    get-Each k v [] e h = absurd (ground arith)
    get-Each k v ((j, w) ∷ m) e h = elim (dec j k) [
      | yes p ↦ let q : w ≡ v = ground arith in subst (λ x. P x v) p (subst (P j) q e.0)
      | no p ↦ get-Each k v m e.1 (ground arith)
    ]
