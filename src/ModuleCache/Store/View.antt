-- ===== src/ModuleCache/Store/View.antt =====
-- The store read as one list of artifacts, the least recently used first.
use wasm_platform.Base.{
  ◌≡◌, refl, ◌≢◌, Bytes, [], ◌∷◌, ◌++◌, List, none, some, if_pos, if_neg, bytes_discrete, arith,
  length, subst, All,
}
use wasm_platform.Base.Map.{
  get, remove, total, Distinct, get-remove, remove-Distinct, total-remove, length-remove,
}
use wasm_platform.Platform.Artifacts.{Sha256Digest}
use wasm_platform.ModuleCache.Store.{forget}
use wasm_platform.ModuleCache.Store.Recency.{Covers}

unfoldable pub view : List Sha256Digest → List (Sha256Digest × Bytes) → List (Sha256Digest × Bytes)
view [] m = []
view (k ∷ r) m = elim (get bytes_discrete k m) [ none ↦ view r m | some v ↦ (k, v) ∷ view r m ]

abbrev pub Avoids : Sha256Digest → List Sha256Digest → Type 0
Avoids k = All (λ j. j ≢ k)

abbrev pub Unique : List Sha256Digest → Type 0
Unique [] = Unit
Unique (k ∷ r) = Avoids k r × Unique r

pub Covers-Avoids :
    (k : Sha256Digest) (r : List Sha256Digest) (m : List (Sha256Digest × Bytes))
    → Covers r m
    → get bytes_discrete k m ≡ none
    → Avoids k r
Covers-Avoids k [] m c h = tt
Covers-Avoids k (j ∷ r) m c h = (
  (λ e. ground (arith, e)),
  Covers-Avoids k r (remove bytes_discrete j m) c.1
      (ground (arith, get-remove bytes_discrete j k m)),
)

pub Covers-Unique :
    (r : List Sha256Digest) (m : List (Sha256Digest × Bytes)) → Covers r m → Unique r
Covers-Unique [] m c = tt
Covers-Unique (j ∷ r) m c = (
  Covers-Avoids j r (remove bytes_discrete j m) c.1
      (ground (arith, get-remove bytes_discrete j j m)),
  Covers-Unique r (remove bytes_discrete j m) c.1,
)

-- The view reads the map at the digests of the queue only.
pub view-agree :
    (k : Sha256Digest) (r : List Sha256Digest) (m n : List (Sha256Digest × Bytes))
    → ((j : Sha256Digest) → j ≢ k → get bytes_discrete j m ≡ get bytes_discrete j n)
    → Avoids k r
    → view r m ≡ view r n
unfolding view
view-agree k [] m n h a = refl
view-agree k (j ∷ r) m n h a = ground (arith, h j a.0, view-agree k r m n h a.1)

pub view-remove :
    (k : Sha256Digest) (r : List Sha256Digest) (m : List (Sha256Digest × Bytes))
    → Avoids k r
    → view r (remove bytes_discrete k m) ≡ view r m
view-remove k r m = view-agree k r _ m (λ j n. ground (arith, get-remove bytes_discrete k j m))

pub view-append :
    (r q : List Sha256Digest) (m : List (Sha256Digest × Bytes))
    → view (r ++ q) m ≡ view r m ++ view q m
unfolding view
view-append [] q m = refl
view-append (k ∷ r) q m = ground (arith, view-append r q m)

remove-view :
    (k : Sha256Digest) (r : List Sha256Digest) (m : List (Sha256Digest × Bytes))
    → Avoids k r
    → remove bytes_discrete k (view r m) ≡ view r m
unfolding view remove
remove-view k [] m a = refl
remove-view k (j ∷ r) m a = ground (arith, remove-view k r m a.1, a.0)

pub view-forget :
    (k : Sha256Digest) (r : List Sha256Digest) (m : List (Sha256Digest × Bytes))
    → Unique r
    → view (forget k r) m ≡ remove bytes_discrete k (view r m)
unfolding view remove forget
view-forget k [] m u = refl
view-forget k (j ∷ r) m u = elim (bytes_discrete j k) [
  | yes e ↦ rw (if_pos _ e) (ground (arith, remove-view k r m (subst (λ x. Avoids x r) e u.0)))
  | no n ↦ rw (if_neg _ n) (ground (arith, view-forget k r m u.1))
]

pub get-view :
    (k : Sha256Digest) (r : List Sha256Digest) (m : List (Sha256Digest × Bytes))
    → Covers r m
    → get bytes_discrete k (view r m) ≡ get bytes_discrete k m
unfolding view get
get-view k [] m c = rw c
get-view k (j ∷ r) m c = ground (
  arith,
  view-remove j r m (Covers-Unique (j ∷ r) m c).0,
  get-view k r (remove bytes_discrete j m) c.1,
  get-remove bytes_discrete j k m,
)

-- The view has the size of the map.
pub view-size :
    (r : List Sha256Digest) (m : List (Sha256Digest × Bytes))
    → Covers r m
    → Distinct bytes_discrete m
    → (total length (view r m) ≡ total length m) × (length (view r m) ≡ length m)
unfolding view total
view-size [] m c d = (rw c, rw c)
view-size (j ∷ r) m c d = ground (
  arith,
  view-remove j r m (Covers-Unique (j ∷ r) m c).0,
  view-size r (remove bytes_discrete j m) c.1 (remove-Distinct bytes_discrete j m d),
  total-remove bytes_discrete length j c.0.0 m d c.0.1,
  length-remove bytes_discrete j c.0.0 m d c.0.1,
)
