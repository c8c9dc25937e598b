-- ===== src/Host/Modules/Source.antt =====
-- Which bytes `prepare` of modules.rs compiles, and which it writes to the cache.
use wasm_platform.Base.{
  ℕ, ◌≤◌, ◌≡◌, ◌⊎◌, inl, inr, Bool, true, false, Bytes, Option, none, some, ok, if◌then◌else◌,
  length, arith, Option-cases, Result-cases, ◌∙◌,
}
use wasm_platform.Platform.Artifacts.{verify_wasm}
use wasm_platform.Host.Modules.{
  PreparedComponent, WasmArtifact, max_retained_native_bytes, validate_bytes, validated_hit, obtain,
  prepare,
}

module _ (sha256_hex : Bytes → Bytes) where
  validate_inv :
      (a : WasmArtifact) (wasm : Bytes)
      → validate_bytes sha256_hex a wasm ≡ ok tt
      → (length wasm ≡ a.size) × (verify_wasm sha256_hex a.digest wasm ≡ ok tt)
  unfolding validate_bytes
  validate_inv a wasm h = (ground arith, ground arith)

  hit_inv :
      (a : WasmArtifact) (cached : Option (Option Bytes)) (wasm : Bytes)
      → validated_hit sha256_hex a cached ≡ some wasm
      → cached ≡ some (some wasm)
  unfolding validated_hit
  hit_inv a none wasm h = ground arith
  hit_inv a (some none) wasm h = ground arith
  hit_inv a (some (some w)) wasm h = ground arith

  -- Where the bytes were found: a valid cache hit, or the pull after none.
  abbrev pub Found :
      WasmArtifact → Option (Option Bytes) → (WasmArtifact → Option Bytes) → Bytes → Bool → Type 0
  Found a cached pull wasm missed =
      ((missed ≡ false) × (cached ≡ some (some wasm)))
      ⊎ ((missed ≡ true) × (validated_hit sha256_hex a cached ≡ none) × (pull a ≡ some wasm))

  obtain_inv :
      (a : WasmArtifact) (cached : Option (Option Bytes)) (pull : WasmArtifact → Option Bytes)
      (wasm : Bytes) (missed : Bool)
      → obtain sha256_hex a cached pull ≡ ok (wasm, missed)
      → Found a cached pull wasm missed
  unfolding obtain
  obtain_inv a cached pull wasm missed h = elim (Option-cases (validated_hit sha256_hex a cached)) [
    | inr (w, e) ↦ inl (ground arith, hit_inv a cached w e ∙ ground arith)
    | inl e ↦ inr (ground arith, e, ground arith)
  ]

module _ {C : Type 0} (sha256_hex : Bytes → Bytes) (cache : WasmArtifact → Option (Option Bytes))
    (pull : WasmArtifact → Option Bytes) (compile : Bytes → Option (C × ℕ)) where
  -- The bytes that a prepared component was compiled from.
  pub record Prepared (a : WasmArtifact) (p : PreparedComponent C) : Type 0 where
    pub wasm : Bytes
    pub missed : Bool
    pub found : Found sha256_hex a (cache a) pull wasm missed
    pub sized : length wasm ≡ a.size
    pub verified : verify_wasm sha256_hex a.digest wasm ≡ ok tt
    pub compiled : compile wasm ≡ some (p.component, p.native_bytes)
    pub small : p.native_bytes ≤ max_retained_native_bytes
    pub digest : p.digest ≡ a.digest
    pub cache_write : p.cache_write ≡ (if missed then some wasm else none)

  -- A prepared component was compiled from bytes of the manifest's size and digest, which are a cache hit
  -- or were pulled because there was no valid one; its native code is at most 128 MiB, and the bytes are
  -- to be written to the cache, under the digest that they verify against, exactly if they were pulled.
  pub prepare-Prepared :
      (a : WasmArtifact) (p : PreparedComponent C)
      → prepare sha256_hex (some a) cache pull compile ≡ ok p
      → Prepared a p
  unfolding prepare
  prepare-Prepared a p h = elim (Result-cases (obtain sha256_hex a (cache a) pull)) [
    | inr (x, e) ↦ absurd (ground arith)
    | inl ((wasm, missed), e) ↦ elim (Option-cases (compile wasm)) [
      | inl q ↦ absurd (ground arith)
      | inr ((c, n), q) ↦ elim (Result-cases (validate_bytes sha256_hex a wasm)) [
        | inr (x, v) ↦ absurd (ground arith)
        | inl (u, v) ↦
            let inv = validate_inv sha256_hex a wasm (v ∙ ground arith) in
            record {
              wasm = wasm;
              missed = missed;
              found = obtain_inv sha256_hex a (cache a) pull wasm missed e;
              sized = inv.0;
              verified = inv.1;
              compiled = ground arith;
              small = ground arith;
              digest = ground arith;
              cache_write = ground arith;
            }
      ]
    ]
  ]
