-- ===== src/ModuleCache/Store/Invariant.antt =====
-- The operations of `Store` in cache.rs on well-formed stores, and the outcomes of `insert`.
use wasm_platform.Base.{
  inl, inr, ◌⊎◌, ◌≢◌, ℕ, ◌≤◌, ◌<◌, ◌≡◌, refl, false, Bytes, Option, none, some, bytes_discrete,
  arith, length, Bool-cases, Option-cases, subst, sym, ◌∙◌, Result, ok, err, ltb, ◌==◌, ◌||◌,
  bytes_eq_iff, bytes_eq,
}
use wasm_platform.Base.Map.{
  get as map_get, insert as map_insert, remove, total, get-insert_self, remove-insert_absent,
  insert-Distinct, remove_absent,
}
use wasm_platform.Platform.Artifacts.{Sha256Digest}
use wasm_platform.ModuleCache.Store.{
  Store, StatusCode, conflict, payload_too_large, overflows, make_room, forget, touch, get, admit,
  insert_new, insert,
}
use wasm_platform.ModuleCache.Store.Recency.{Covers, Covers-forget, Covers-snoc, forget_absent}
use wasm_platform.ModuleCache.Store.Eviction.{IsValid, Room, make_room-Room}

pub touch-IsValid :
    (digest : Sha256Digest) (bytes : Bytes) (s : Store)
    → IsValid s
    → map_get bytes_discrete digest s.entries ≡ some bytes
    → IsValid (touch digest s)
unfolding touch
touch-IsValid digest bytes s v h = record {
  covered =
      Covers-snoc digest bytes (forget digest s.recency) s.entries
        (Covers-forget digest bytes s.recency s.entries v.covered h) h;
  distinct = v.distinct;
  counted = v.counted;
  bytes_fit = v.bytes_fit;
  entries_fit = v.entries_fit;
}

admit-IsValid :
    (digest : Sha256Digest) (bytes : Bytes) (s : Store)
    → IsValid s
    → map_get bytes_discrete digest s.entries ≡ none
    → overflows (length bytes) s ≡ false
    → IsValid (admit digest bytes s)
unfolding admit map_insert total
admit-IsValid digest bytes s v h fine =
    let same : remove bytes_discrete digest s.entries ≡ s.entries =
      remove_absent bytes_discrete digest s.entries h in
    record {
      covered =
          Covers-snoc digest bytes (forget digest s.recency)
            (map_insert bytes_discrete digest bytes s.entries)
            (subst (Covers (forget digest s.recency))
              (sym (remove-insert_absent bytes_discrete digest bytes s.entries h))
              (subst (λ r. Covers r s.entries)
                (sym (forget_absent digest s.recency s.entries v.covered h)) v.covered))
            (get-insert_self bytes_discrete digest bytes s.entries);
      distinct = insert-Distinct bytes_discrete digest bytes s.entries v.distinct;
      counted = rw same (omega (arith, v.counted));
      bytes_fit = ground arith;
      entries_fit = rw same (ground arith);
    }

-- The store stays well-formed under `get`, hit or miss.
pub get-IsValid : (digest : Sha256Digest) (s : Store) → IsValid s → IsValid (get digest s).0
unfolding get
get-IsValid digest s v = elim (Option-cases (map_get bytes_discrete digest s.entries)) [
  | inl e ↦ rw (e, get) v
  | inr (bytes, e) ↦ rw (e, get) (touch-IsValid digest bytes s v e)
]

-- What `insert` makes of a well-formed store, by the case that it is in.
pub data Inserted (digest : Sha256Digest) (bytes : Bytes) (s : Store)
    : Store × Result StatusCode ℕ → Type 0 where
  differs :
      (old : Bytes)
      → map_get bytes_discrete digest s.entries ≡ some old
      → old ≢ bytes
      → Inserted digest bytes s (s, err conflict)
  again :
      map_get bytes_discrete digest s.entries ≡ some bytes
      → Inserted digest bytes s (touch digest s, ok 0)
  too_large :
      map_get bytes_discrete digest s.entries ≡ none
      → ((s.max_bytes < length bytes) ⊎ (s.max_entries ≡ 0))
      → Inserted digest bytes s (s, err payload_too_large)
  stored :
      (r : Store × Option ℕ)
      → map_get bytes_discrete digest s.entries ≡ none
      → length bytes ≤ s.max_bytes
      → 0 < s.max_entries
      → (room : Room (length bytes) digest s.max_bytes s.max_entries r)
      → r ≡ make_room (length bytes) s.recency (s, 0)
      → Inserted digest bytes s (admit digest bytes r.0, ok room.evictions)

insert_known :
    (digest : Sha256Digest) (bytes old : Bytes) (s : Store)
    → map_get bytes_discrete digest s.entries ≡ some old
    → Inserted digest bytes s (insert digest bytes s)
unfolding insert
insert_known digest bytes old s e = elim (Bool-cases (bytes_eq old bytes)) [
  | inl same ↦ rw (e, insert, same) (again (ground (arith, bytes_eq_iff old bytes)))
  | inr other ↦ rw (e, insert, other) (differs old e (ground (arith, bytes_eq_iff old bytes)))
]

insert_new_lem :
    (digest : Sha256Digest) (bytes : Bytes) (n : ℕ) (r : Store × Option ℕ)
    → r.1 ≡ some n
    → insert_new digest bytes r ≡ (admit digest bytes r.0, ok n)
unfolding insert_new
insert_new_lem digest bytes n (s, none) h = ground arith
insert_new_lem digest bytes n (s, some m) h = ground arith

insert_fresh :
    (digest : Sha256Digest) (bytes : Bytes) (s : Store)
    → IsValid s
    → map_get bytes_discrete digest s.entries ≡ none
    → Inserted digest bytes s (insert digest bytes s)
unfolding insert insert_new
insert_fresh digest bytes s v e =
    elim (Bool-cases (ltb s.max_bytes (length bytes) || (s.max_entries == 0))) [
      | inl large ↦ rw (e, insert, large) (too_large e (ground arith))
      | inr small ↦
          let fits : length bytes ≤ s.max_bytes = ground arith in
          let some_room : 0 < s.max_entries = ground arith in
          let room = make_room-Room (length bytes) digest s.recency s 0 refl v e fits some_room in
          rw (e, insert, small)
            (subst (Inserted digest bytes s)
              (sym (insert_new_lem digest bytes room.evictions _ room.finished))
              (stored _ e fits some_room room refl))
    ]

pub insert-Inserted :
    (digest : Sha256Digest) (bytes : Bytes) (s : Store)
    → IsValid s
    → Inserted digest bytes s (insert digest bytes s)
insert-Inserted digest bytes s v = elim (Option-cases (map_get bytes_discrete digest s.entries)) [
  | inl e ↦ insert_fresh digest bytes s v e
  | inr (old, e) ↦ insert_known digest bytes old s e
]

Inserted-IsValid :
    {digest : Sha256Digest} {bytes : Bytes} {s : Store} {r : Store × Result StatusCode ℕ}
    → IsValid s
    → Inserted digest bytes s r
    → IsValid r.0
Inserted-IsValid v (differs old e n) = v
Inserted-IsValid {digest} {bytes} {s} v (again e) = touch-IsValid digest bytes s v e
Inserted-IsValid v (too_large e h) = v
Inserted-IsValid {digest} {bytes} v (stored r e fits some_room room same) =
    admit-IsValid digest bytes r.0 room.valid room.absent room.roomy

-- A well-formed store (the queue lists each entry once, the byte count is the sum of the sizes, both
-- limits hold) stays well-formed under `insert`, whether it stores, evicts, refuses or conflicts.
pub insert-IsValid :
    (digest : Sha256Digest) (bytes : Bytes) (s : Store)
    → IsValid s
    → IsValid (insert digest bytes s).0
insert-IsValid digest bytes s v = Inserted-IsValid v (insert-Inserted digest bytes s v)

get-admit :
    (digest : Sha256Digest) (bytes : Bytes) (s : Store)
    → (get digest (admit digest bytes s)).1 ≡ some bytes
unfolding get admit
get-admit digest bytes s = ground (arith, get-insert_self bytes_discrete digest bytes s.entries)

get-touch : (digest k : Sha256Digest) (s : Store) → (get digest (touch k s)).1 ≡ (get digest s).1
unfolding get touch
get-touch digest k s = ground arith

abbrev pub Fits : Bytes → Store → Type 0
Fits bytes s = (length bytes ≤ s.max_bytes) × (0 < s.max_entries)

-- The four cases of `insert`: its result, and what a `get` of the digest then finds.
abbrev pub Outcome : Sha256Digest → Bytes → Store → Store × Result StatusCode ℕ → Type 0
Outcome digest bytes s r =
    (((get digest s).1 ≡ none)
      × Fits bytes s
      × ((n : ℕ) × (r.1 ≡ ok n))
      × ((get digest r.0).1 ≡ some bytes))
    ⊎ (((get digest s).1 ≡ none) × (¬ Fits bytes s) × (r ≡ (s, err payload_too_large)))
    ⊎ (((get digest s).1 ≡ some bytes) × (r.1 ≡ ok 0) × ((get digest r.0).1 ≡ some bytes))
    ⊎ ((old : Bytes) × ((get digest s).1 ≡ some old) × (old ≢ bytes) × (r ≡ (s, err conflict)))

get-snd :
    (digest : Sha256Digest) (s : Store) → (get digest s).1 ≡ map_get bytes_discrete digest s.entries
unfolding get
get-snd digest s = ground arith

Inserted-Outcome :
    {digest : Sha256Digest} {bytes : Bytes} {s : Store} {r : Store × Result StatusCode ℕ}
    → Inserted digest bytes s r
    → Outcome digest bytes s r
Inserted-Outcome {digest} {bytes} {s} (differs old e n) =
    inr (inr (inr (old, get-snd digest s ∙ e, n, refl)))
Inserted-Outcome {digest} {bytes} {s} (again e) =
    inr (inr (inl (get-snd digest s ∙ e, refl, get-touch digest digest s ∙ get-snd digest s ∙ e)))
Inserted-Outcome {digest} {bytes} {s} (too_large e h) =
    inr (inl (get-snd digest s ∙ e, (λ f. ground arith), refl))
Inserted-Outcome {digest} {bytes} {s} (stored r e fits some_room room same) =
    inl
      (get-snd digest s ∙ e, (fits, some_room), (room.evictions, refl), get-admit digest bytes r.0)

-- On a well-formed store `insert` never meets the internal error of an empty queue: it stores a new
-- artifact that fits both limits and a `get` then finds it, refuses one that does not fit, accepts
-- the same bytes again, and reports a conflict on other bytes, the last two refusals changing nothing.
pub insert-Outcome :
    (digest : Sha256Digest) (bytes : Bytes) (s : Store)
    → IsValid s
    → Outcome digest bytes s (insert digest bytes s)
insert-Outcome digest bytes s v = Inserted-Outcome (insert-Inserted digest bytes s v)
