-- ===== src/ModuleCache/Store/Lru.antt =====
-- The cache as a list in order of use, and `Store` of cache.rs beside it.
use wasm_platform.Base.{
  Result, bytes_eq_iff, ℕ, ◌+◌, ◌≡◌, refl, ◌||◌, ltb, leb, ◌==◌, if◌then◌else◌, Bytes, [], ◌∷◌,
  ◌++◌, List, none, some, bytes_discrete, bytes_eq, arith, length, sym, ap, ◌∙◌, subst, inl, inr,
  Option-cases, Bool-cases,
}
use wasm_platform.Base.Map.{
  get as map_get, remove as map_remove, insert as map_insert, total, get-insert, get-insert_self,
}
use wasm_platform.Platform.Artifacts.{Sha256Digest}
use wasm_platform.ModuleCache.Store.{
  Store, StatusCode, forget, touch, get, admit, overflows, make_room, insert,
}
use wasm_platform.ModuleCache.Store.Recency.{Covers, forget_absent}
use wasm_platform.ModuleCache.Store.Eviction.{IsValid, evict_one_lem, evict_one-IsValid}
use wasm_platform.ModuleCache.Store.Invariant.{
  Inserted, differs, again, too_large, stored, insert-Inserted,
}
use wasm_platform.ModuleCache.Store.View.{
  view, view-remove, view-agree, view-append, view-forget, get-view, view-size, Covers-Unique,
  Covers-Avoids,
}

-- Oldest first; at most one entry for a digest.
abbrev pub Lru : Type 0
Lru = List (Sha256Digest × Bytes)

-- An entry that is used goes to the end.
pub refresh : Sha256Digest → Lru → Lru
refresh k l = elim (map_get bytes_discrete k l) [
  | none ↦ l
  | some v ↦ map_remove bytes_discrete k l ++ (k, v) ∷ []
]

-- Drop the oldest entries until `need` more bytes and one more entry fit.
pub shrink : ℕ → ℕ → ℕ → Lru → Lru
shrink need max_bytes max_entries [] = []
shrink need max_bytes max_entries (e ∷ l) =
    if ltb max_bytes (total length (e ∷ l) + need) || leb max_entries (length (e ∷ l))
    then shrink need max_bytes max_entries l
    else e ∷ l

pub store_new : Sha256Digest → Bytes → ℕ → ℕ → Lru → Lru
unfolding shrink
store_new k v max_bytes max_entries l =
    if ltb max_bytes (length v) || (max_entries == 0)
    then l
    else shrink (length v) max_bytes max_entries l ++ (k, v) ∷ []

pub put : Sha256Digest → Bytes → ℕ → ℕ → Lru → Lru
unfolding refresh store_new
put k v max_bytes max_entries l = elim (map_get bytes_discrete k l) [
  | none ↦ store_new k v max_bytes max_entries l
  | some old ↦ if bytes_eq old v then refresh k l else l
]

abbrev pub contents : Store → Lru
contents s = view s.recency s.entries

contents-touch :
    (k : Sha256Digest) (v : Bytes) (s : Store)
    → IsValid s
    → map_get bytes_discrete k s.entries ≡ some v
    → contents (touch k s) ≡ refresh k (contents s)
unfolding touch refresh view
contents-touch k v s ok_s h = ground (
  arith,
  view-append (forget k s.recency) (k ∷ []) s.entries,
  view-forget k s.recency s.entries (Covers-Unique s.recency s.entries ok_s.covered),
  get-view k s.recency s.entries ok_s.covered,
)

refresh_miss : (k : Sha256Digest) (l : Lru) → map_get bytes_discrete k l ≡ none → refresh k l ≡ l
unfolding refresh
refresh_miss k l h = ground arith

-- A `get` on a well-formed store finds what the list holds, and moves a hit to the end of the list.
pub get-refresh :
    (k : Sha256Digest) (s : Store)
    → IsValid s
    → ((get k s).1 ≡ map_get bytes_discrete k (contents s))
      × (contents (get k s).0 ≡ refresh k (contents s))
unfolding get
get-refresh k s v = elim (Option-cases (map_get bytes_discrete k s.entries)) [
  | inl e ↦ (
    ground (arith, get-view k s.recency s.entries v.covered),
    ground (arith, get-view k s.recency s.entries v.covered, refresh_miss k (contents s)),
  )
  | inr (w, e) ↦ (
    ground (arith, get-view k s.recency s.entries v.covered),
    ground (arith, contents-touch k w s v e),
  )
]

view_cons :
    (k : Sha256Digest) (v : Bytes) (r : List Sha256Digest) (m : List (Sha256Digest × Bytes))
    → map_get bytes_discrete k m ≡ some v
    → view (k ∷ r) m ≡ (k, v) ∷ view r m
unfolding view
view_cons k v r m h = ground arith

-- With the oldest entry in front, the list is over its limits exactly when the store is.
shrink_cons :
    (need : ℕ) (k : Sha256Digest) (old : Bytes) (l : Lru) (s : Store)
    → total length ((k, old) ∷ l) ≡ s.bytes
    → length ((k, old) ∷ l) ≡ length s.entries
    → shrink need s.max_bytes s.max_entries ((k, old) ∷ l)
      ≡ (if overflows need s then shrink need s.max_bytes s.max_entries l else (k, old) ∷ l)
unfolding shrink
shrink_cons need k old l s t n = rw (t, n)

make_room-shrink :
    (need : ℕ) (r : List Sha256Digest) (s : Store) (n : ℕ)
    → s.recency ≡ r
    → IsValid s
    → contents (make_room need r (s, n)).0 ≡ shrink need s.max_bytes s.max_entries (contents s)
unfolding make_room
make_room-shrink need [] s n e v =
    let none_left : contents s ≡ [] = ap (λ r. view r s.entries) e ∙ (unfold view in refl) in
    rw none_left (unfold shrink in refl)
make_room-shrink need (k ∷ r) s n e v =
    let (old, there, eq) = evict_one_lem k r s n e v in
    let c : contents s ≡ (k, old) ∷ view r s.entries =
      ap (λ r. view r s.entries) e ∙ view_cons k old r s.entries there in
    let sizes = view-size s.recency s.entries v.covered v.distinct in
    let below =
      shrink_cons need k old (view r s.entries) s
        (ap (total length) (sym c) ∙ sizes.0 ∙ sym v.counted) (ap length (sym c) ∙ sizes.1) in
    let unused =
      (Covers-Unique (k ∷ r) s.entries (subst (λ r. Covers r s.entries) e v.covered)).0 in
    let valid = subst (λ p. IsValid p.0) eq (evict_one-IsValid k r s n e v) in
    elim (Bool-cases (overflows need s)) [
      | inl over ↦
          rw (over, eq, c, below, over)
            (make_room-shrink need r _ (n + 1) refl valid
              ∙ ap (shrink need s.max_bytes s.max_entries) (view-remove k r s.entries unused))
      | inr fine ↦ rw (fine, c, below, fine) refl
    ]

contents-admit :
    (k : Sha256Digest) (v : Bytes) (s : Store)
    → IsValid s
    → map_get bytes_discrete k s.entries ≡ none
    → contents (admit k v s) ≡ contents s ++ (k, v) ∷ []
unfolding admit view
contents-admit k v s ok_s h = ground (
  arith,
  forget_absent k s.recency s.entries ok_s.covered h,
  view-append s.recency (k ∷ []) (map_insert bytes_discrete k v s.entries),
  get-insert_self bytes_discrete k v s.entries,
  view-agree k s.recency (map_insert bytes_discrete k v s.entries) s.entries
      (λ j n. ground (arith, get-insert bytes_discrete k j v s.entries))
      (Covers-Avoids k s.recency s.entries ok_s.covered h),
)

put-store_new :
    (k : Sha256Digest) (v : Bytes) (s : Store)
    → IsValid s
    → map_get bytes_discrete k s.entries ≡ none
    → put k v s.max_bytes s.max_entries (contents s)
      ≡ store_new k v s.max_bytes s.max_entries (contents s)
unfolding put
put-store_new k v s ok_s h = ground (arith, get-view k s.recency s.entries ok_s.covered)

Inserted-put :
    {k : Sha256Digest} {v : Bytes} {s : Store} {r : Store × Result StatusCode ℕ}
    → IsValid s
    → Inserted k v s r
    → contents r.0 ≡ put k v s.max_bytes s.max_entries (contents s)
unfolding put
Inserted-put {k} {v} {s} ok_s (differs old e n) =
    ground (arith, get-view k s.recency s.entries ok_s.covered, bytes_eq_iff old v)
Inserted-put {k} {v} {s} ok_s (again e) = ground (
  arith,
  get-view k s.recency s.entries ok_s.covered,
  bytes_eq_iff v v,
  contents-touch k v s ok_s e,
)
Inserted-put {k} {v} {s} ok_s (too_large e h) =
    rw (put-store_new k v s ok_s e) (unfold store_new in (ground arith))
Inserted-put {k} {v} {s} ok_s (stored r e fits some_room room same) =
    let made = make_room-shrink (length v) s.recency s 0 refl ok_s in
    rw (put-store_new k v s ok_s e, contents-admit k v r.0 room.valid room.absent, same, made)
      (unfold store_new in (ground arith))

-- `insert` on a well-formed store implements the list: an entry of the same bytes is refreshed, other
-- bytes change nothing, and a new artifact that fits goes to the end after the fewest oldest entries
-- were dropped that make both limits hold.
pub insert-put :
    (k : Sha256Digest) (v : Bytes) (s : Store)
    → IsValid s
    → contents (insert k v s).0 ≡ put k v s.max_bytes s.max_entries (contents s)
insert-put k v s ok_s = Inserted-put ok_s (insert-Inserted k v s ok_s)
