-- ===== src/ModuleCache/Store/Recency.antt =====
-- A recency queue that lists every entry once, and how `forget` and `remove` act on both.
use wasm_platform.Base.{
  ◌≡◌, refl, Bytes, [], ◌∷◌, ◌++◌, List, none, some, if_pos, if_neg, bytes_discrete, arith, subst,
}
use wasm_platform.Base.Map.{get, remove, get-remove, remove_comm}
use wasm_platform.Platform.Artifacts.{Sha256Digest}
use wasm_platform.ModuleCache.Store.{forget}

-- The queue holds the keys of the map, each once.
abbrev pub Covers : List Sha256Digest → List (Sha256Digest × Bytes) → Type 0
Covers [] m = m ≡ []
Covers (k ∷ r) m =
    ((v : Bytes) × (get bytes_discrete k m ≡ some v)) × Covers r (remove bytes_discrete k m)

pub Covers-forget :
    (k : Sha256Digest) (v : Bytes) (r : List Sha256Digest) (m : List (Sha256Digest × Bytes))
    → Covers r m
    → get bytes_discrete k m ≡ some v
    → Covers (forget k r) (remove bytes_discrete k m)
unfolding forget get
Covers-forget k v [] m c h = absurd (ground arith)
Covers-forget k v (j ∷ r) m c h = elim (bytes_discrete j k) [
  | yes e ↦ rw (if_pos _ e) (subst (λ x. Covers r (remove bytes_discrete x m)) e c.1)
  | no n ↦ rw (if_neg _ n) (
    (c.0.0, ground (arith, get-remove bytes_discrete k j m)),
    rw (remove_comm bytes_discrete j k m) (
        Covers-forget k v r (remove bytes_discrete j m) c.1
          (ground (arith, get-remove bytes_discrete j k m))),
  )
]

pub Covers-snoc :
    (k : Sha256Digest) (v : Bytes) (r : List Sha256Digest) (m : List (Sha256Digest × Bytes))
    → Covers r (remove bytes_discrete k m)
    → get bytes_discrete k m ≡ some v
    → Covers (r ++ k ∷ []) m
Covers-snoc k v [] m c h = ((v, h), c)
Covers-snoc k v (j ∷ r) m c h = (
  (c.0.0, ground (arith, get-remove bytes_discrete k j m)),
  Covers-snoc k v r (remove bytes_discrete j m)
      (subst (Covers r) (remove_comm bytes_discrete j k m) c.1)
      (ground (arith, get-remove bytes_discrete k j m, get-remove bytes_discrete j k m)),
)

-- A digest that is no key stands nowhere in the queue.
pub forget_absent :
    (k : Sha256Digest) (r : List Sha256Digest) (m : List (Sha256Digest × Bytes))
    → Covers r m
    → get bytes_discrete k m ≡ none
    → forget k r ≡ r
unfolding forget
forget_absent k [] m c h = refl
forget_absent k (j ∷ r) m c h =
    ground
      (arith, get-remove bytes_discrete j k m, forget_absent k r (remove bytes_discrete j m) c.1)
