-- ===== src/ModuleCache/Store/Eviction.antt =====
-- The well-formed stores, and what the eviction loop makes of one.
use wasm_platform.Base.{
  ◌-◌, inl, inr, ℕ, ◌+◌, ◌≤◌, ◌<◌, ◌≡◌, refl, false, Bytes, [], ◌∷◌, List, Option, none, some,
  bytes_discrete, arith, length, Bool-cases, subst,
}
use wasm_platform.Base.Map.{
  get, remove, total, Distinct, get-remove, remove-Distinct, total-remove, length-remove,
}
use wasm_platform.Platform.Artifacts.{Sha256Digest}
use wasm_platform.ModuleCache.Store.{Store, overflows, evict_one, make_room}
use wasm_platform.ModuleCache.Store.Recency.{Covers}

pub record IsValid (s : Store) : Type 0 where
  pub covered : Covers s.recency s.entries
  pub distinct : Distinct bytes_discrete s.entries
  pub counted : s.bytes ≡ total length s.entries
  pub bytes_fit : s.bytes ≤ s.max_bytes
  pub entries_fit : length s.entries ≤ s.max_entries

module _ (oldest : Sha256Digest) (rest : List Sha256Digest) (s : Store) (n : ℕ)
    (front : s.recency ≡ oldest ∷ rest) (v : IsValid s) where
  -- The oldest entry is there, so a round always evicts one.
  pub evict_one_lem :
      (old : Bytes) × (get bytes_discrete oldest s.entries ≡ some old)
      × (evict_one oldest rest (s, n) ≡ (
        record s {
          entries = remove bytes_discrete oldest s.entries;
          recency = rest;
          bytes = s.bytes - length old;
        },
        n + 1,
      ))
  unfolding evict_one
  evict_one_lem =
      let c = subst (λ r. Covers r s.entries) front v.covered in
      (c.0.0, c.0.1, ground (arith, c.0.1))

  pub evict_one-IsValid : IsValid (evict_one oldest rest (s, n)).0
  evict_one-IsValid =
      let c = subst (λ r. Covers r s.entries) front v.covered in
      let (old, there, e) = evict_one_lem in
      rw e (record {
        covered = c.1;
        distinct = remove-Distinct bytes_discrete oldest s.entries v.distinct;
        counted = omega (
          arith,
          v.counted,
          total-remove bytes_discrete length oldest old s.entries v.distinct there,
        );
        bytes_fit = omega (arith, v.bytes_fit);
        entries_fit = omega (
          arith,
          v.entries_fit,
          length-remove bytes_discrete oldest old s.entries v.distinct there,
        );
      })

-- The loop has made room, and kept the store well-formed and free of the new digest.
pub record Room (need : ℕ) (digest : Sha256Digest) (max_bytes max_entries : ℕ)
    (r : Store × Option ℕ) : Type 0 where
  pub evictions : ℕ
  pub finished : r.1 ≡ some evictions
  pub roomy : overflows need r.0 ≡ false
  pub valid : IsValid r.0
  pub absent : get bytes_discrete digest r.0.entries ≡ none
  pub same_bytes : r.0.max_bytes ≡ max_bytes
  pub same_entries : r.0.max_entries ≡ max_entries

empty_fits :
    (need : ℕ) (s : Store)
    → s.recency ≡ []
    → IsValid s
    → need ≤ s.max_bytes
    → 0 < s.max_entries
    → overflows need s ≡ false
unfolding total
empty_fits need s e v fits some_room =
    let c : s.entries ≡ [] = subst (λ r. Covers r s.entries) e v.covered in
    let t : s.bytes ≡ 0 = ground (arith, v.counted) in ground arith

pub make_room-Room :
    (need : ℕ) (digest : Sha256Digest) (r : List Sha256Digest) (s : Store) (n : ℕ)
    → s.recency ≡ r
    → IsValid s
    → get bytes_discrete digest s.entries ≡ none
    → need ≤ s.max_bytes
    → 0 < s.max_entries
    → Room need digest s.max_bytes s.max_entries (make_room need r (s, n))
unfolding make_room
make_room-Room need digest [] s n e v h fits some_room = record {
  evictions = n;
  finished = ground (arith, empty_fits need s e v);
  roomy = empty_fits need s e v fits some_room;
  valid = v;
  absent = h;
  same_bytes = refl;
  same_entries = refl;
}
make_room-Room need digest (oldest ∷ rest) s n e v h fits some_room =
    elim (Bool-cases (overflows need s)) [
      | inl over ↦
          let (old, there, eq) = evict_one_lem oldest rest s n e v in
          rw (over, eq)
            (make_room-Room need digest rest _ (n + 1) refl
              (subst (λ p. IsValid p.0) eq (evict_one-IsValid oldest rest s n e v))
              (ground (arith, get-remove bytes_discrete oldest digest s.entries)) fits some_room)
      | inr fine ↦ rw fine (record {
        evictions = n;
        finished = refl;
        roomy = fine;
        valid = v;
        absent = h;
        same_bytes = refl;
        same_entries = refl;
      })
    ]
