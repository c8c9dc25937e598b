-- ===== src/ModuleCache/Store.antt =====
-- `Store` of components/module-cache/src/cache.rs: the entries, and a queue of their digests with
-- the least recently used first. `&mut self` methods return the new store beside their result.
pub mod Recency
pub mod Eviction
pub mod Invariant
pub mod View
pub mod Lru
use wasm_platform.Base.{
  ℕ, ◌+◌, ◌-◌, suc, Bool, ◌||◌, ◌≡◌, Bytes, [], ◌∷◌, ◌++◌, List, Option, none, some, Result, ok,
  err, length, ltb, leb, ◌==◌, not, if◌then◌else◌, ite, bytes_eq, bytes_discrete,
}
use wasm_platform.Base.Map.{get as map_get, insert as map_insert, remove as map_remove}
use wasm_platform.Platform.Artifacts.{Sha256Digest}

pub data StatusCode : Type 0 where
  ok_200 no_content bad_request unauthorized forbidden not_found request_timeout conflict :
      StatusCode
  payload_too_large unprocessable too_many_requests internal_error unavailable : StatusCode

pub record Store : Type 0 where
  pub entries : List (Sha256Digest × Bytes)
  pub recency : List Sha256Digest
  pub bytes : ℕ
  pub max_bytes : ℕ
  pub max_entries : ℕ

-- The queue without the first place of a digest: `position`, then `remove`.
unfoldable pub forget : Sha256Digest → List Sha256Digest → List Sha256Digest
forget digest [] = []
forget digest (entry ∷ rest) = ite (bytes_discrete entry digest) rest (entry ∷ forget digest rest)

unfoldable pub touch : Sha256Digest → Store → Store
unfolding forget
touch digest s = record s { recency = forget digest s.recency ++ digest ∷ [] }

unfoldable pub get : Sha256Digest → Store → Store × Option Bytes
get digest s = elim (map_get bytes_discrete digest s.entries) [
  | none ↦ (s, none)
  | some bytes ↦ (touch digest s, some bytes)
]

abbrev pub overflows : ℕ → Store → Bool
overflows need s = ltb s.max_bytes (s.bytes + need) || leb s.max_entries (length s.entries)

-- One round of the eviction loop: `pop_front` gave `oldest` and left `rest`.
unfoldable pub evict_one : Sha256Digest → List Sha256Digest → Store × ℕ → Store × ℕ
evict_one oldest rest (s, evictions) = elim (map_get bytes_discrete oldest s.entries) [
  | none ↦ (record s { recency = rest }, evictions)
  | some old ↦ (
    record s {
      entries = map_remove bytes_discrete oldest s.entries;
      recency = rest;
      bytes = s.bytes - length old;
    },
    evictions + 1,
  )
]

-- The eviction loop, over the queue of the store it starts from. `none` is the 500 of an empty
-- queue; the store is what the loop has left.
unfoldable pub make_room : ℕ → List Sha256Digest → Store × ℕ → Store × Option ℕ
make_room need [] (s, evictions) = (s, if overflows need s then none else some evictions)
make_room need (oldest ∷ rest) (s, evictions) =
    let more = make_room need rest (evict_one oldest rest (s, evictions)) in
    if overflows need s then more else (s, some evictions)

-- The end of `insert`, once there is room.
unfoldable pub admit : Sha256Digest → Bytes → Store → Store
unfolding touch
admit digest bytes s = touch digest (record s {
  entries = map_insert bytes_discrete digest bytes s.entries;
  bytes = s.bytes + length bytes;
})

unfoldable pub insert_new : Sha256Digest → Bytes → Store × Option ℕ → Store × Result StatusCode ℕ
insert_new digest bytes (s, none) = (s, err internal_error)
insert_new digest bytes (s, some evictions) = (admit digest bytes s, ok evictions)

-- The number of evictions, or the status to answer with.
unfoldable pub insert : Sha256Digest → Bytes → Store → Store × Result StatusCode ℕ
insert digest bytes s = elim (map_get bytes_discrete digest s.entries) [
  | some existing ↦
      if not (bytes_eq existing bytes) then (s, err conflict) else (touch digest s, ok 0)
  | none ↦
      if ltb s.max_bytes (length bytes) || (s.max_entries == 0)
      then (s, err payload_too_large)
      else insert_new digest bytes (make_room (length bytes) s.recency (s, 0))
]

-- `CacheState::with_limits`.
abbrev pub empty : ℕ → ℕ → Store
empty max_bytes max_entries = record {
  entries = [];
  recency = [];
  bytes = 0;
  max_bytes = max_bytes;
  max_entries = max_entries;
}
