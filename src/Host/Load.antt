-- ===== src/Host/Load.antt =====
-- `load_admitted` and `prepare` of components/execution-host/src/modules.rs as a whole: the manifest and
-- the blob of oci.rs, the cache of module_cache.rs, the compiler, and the registry of components.
use wasm_platform.Base.{
  ℕ, ◌≡◌, sym, ap, ◌∙◌, Bool, Bytes, Option, none, some, Result, ok, err, if◌then◌else◌, length,
  arith, Result-cases, inl, inr,
}
use wasm_platform.Base.Map.{get-insert_self}
use wasm_platform.Platform.Artifacts.{verify_wasm}
use wasm_platform.Host.Modules.{
  ModuleError, deadline_expired, ModuleKey, key_discrete, RegistryState, PreparedComponent,
  WasmArtifact, get, register, prepare,
}
use wasm_platform.Host.Modules.Source.{prepare-Prepared}
use wasm_platform.Host.Modules.Budget.{placed, register-ok_iff}
use wasm_platform.Host.Oci.Responses.{Response}
use wasm_platform.Host.Oci.Registries.{Url, OciSource}
use wasm_platform.Host.Oci.Downloads.{OciImageManifest, manifest, pull, WasmArtifact as OciArtifact}
use wasm_platform.Host.Oci.Accepted.{Described, manifest-Described}
use wasm_platform.Host.Oci.Cache.{get as cache_get}

abbrev pub to_option {ℓ κ} : {E : Type ℓ} {A : Type κ} → Result E A → Option A
to_option (ok a) = some a
to_option (err e) = none

abbrev pub unnamed : OciArtifact → WasmArtifact
unnamed a = record { digest = a.digest; size = a.size }

-- The error of a manifest is `manifest_failed` here.
abbrev pub unnamed_of {ℓ} : {E : Type ℓ} → Result E OciArtifact → Option WasmArtifact
unnamed_of (ok a) = some (unnamed a)
unnamed_of (err e) = none

module _ {C : Type 0} (url : Bytes → Option Url) (reference : Bytes → Option Bytes)
    (sha256_hex : Bytes → Bytes) (json : Bytes → Option OciImageManifest)
    (registry : Bytes → Option Response) (is_utf8 : Bytes → Bool) (trim : Bytes → Bytes)
    (cache : Bytes → Bytes → Option Response) (compile : Bytes → Option (C × ℕ)) where
  -- What is pulled for an artifact: the blob of its digest at the registry of the reference.
  unfoldable pub pull_of : OciSource → Bytes → WasmArtifact → Option Bytes
  pull_of source image_ref a = to_option (
      pull url reference sha256_hex json registry source
        (record { reference = image_ref; digest = a.digest; size = a.size }))

  unfoldable pub prepare_module :
      OciSource → Option Bytes → Bytes → Result ModuleError (PreparedComponent C)
  prepare_module source token image_ref =
      prepare sha256_hex
        (unnamed_of (manifest url reference sha256_hex json registry source image_ref))
        (λ a. cache_get is_utf8 trim cache token a.digest) (pull_of source image_ref) compile

  abbrev pub write_of : PreparedComponent C → Option (Bytes × Bytes)
  write_of p = elim p.cache_write [ none ↦ none | some wasm ↦ some (p.digest, wasm) ]

  -- A load, whose deadline ends it first if it `expires`: the registry after it, and what is put into
  -- the cache if it succeeds.
  unfoldable pub load_admitted :
      Bool
      → Bool
      → OciSource
      → Option Bytes
      → ModuleKey
      → Bytes
      → RegistryState C
      → RegistryState C × Result ModuleError (Option (Bytes × Bytes))
  load_admitted expires in_time source token key image_ref s =
      if expires then (s, err deadline_expired) else (elim (prepare_module source token image_ref) [
        | err e ↦ (s, err e)
        | ok p ↦ elim (register in_time key p s) [
          | err e ↦ (s, err e)
          | ok s' ↦ (s', ok (write_of p))
        ]
      ])

  -- A component that was loaded, and where its code came from.
  pub record Loaded (source : OciSource) (key : ModuleKey) (image_ref : Bytes)
      (s' : RegistryState C) (written : Option (Bytes × Bytes)) : Type 0 where
    pub artifact : OciArtifact
    pub wasm : Bytes
    pub component : C
    pub native_bytes : ℕ
    pub described : Described url reference sha256_hex json registry source image_ref artifact
    pub sized : length wasm ≡ artifact.size
    pub verified : verify_wasm sha256_hex artifact.digest wasm ≡ ok tt
    pub compiled : compile wasm ≡ some (component, native_bytes)
    pub held : get key s' ≡ some component
    pub missed : Bool
    pub puts : written ≡ (if missed then some (artifact.digest, wasm) else none)

  prepare_module-ok :
      (source : OciSource) (token : Option Bytes) (image_ref : Bytes) (p : PreparedComponent C)
      → prepare_module source token image_ref ≡ ok p
      → (a : OciArtifact) × (manifest url reference sha256_hex json registry source image_ref
          ≡ ok a)
  unfolding prepare_module prepare
  prepare_module-ok source token image_ref p h =
      elim (Result-cases (manifest url reference sha256_hex json registry source image_ref)) [
        | inl (a, q) ↦ (a, q)
        | inr (e, q) ↦ absurd (ground (arith, q, h))
      ]

  held :
      (key : ModuleKey) (p : PreparedComponent C) (s : RegistryState C)
      → get key (placed key p s) ≡ some p.component
  unfolding get
  held key p s = ground (
    arith,
    get-insert_self key_discrete key
        (record { component = p.component; native_bytes = p.native_bytes }) s.components,
  )

  -- A load that succeeds holds, for its function, a component compiled from bytes of the size and the
  -- SHA-256 that the only layer of a manifest gives, whose own SHA-256 is the one that the reference
  -- names at a registry of the list of approved ones, whether the cache or the registry gave the bytes;
  -- and these bytes, under their own digest, are what it puts into the cache, if anything.
  pub load_admitted-Loaded :
      (expires in_time : Bool) (source : OciSource) (token : Option Bytes) (key : ModuleKey)
      (image_ref : Bytes) (s : RegistryState C) (written : Option (Bytes × Bytes))
      → (load_admitted expires in_time source token key image_ref s).1 ≡ ok written
      → Loaded source key image_ref
          (load_admitted expires in_time source token key image_ref s).0
          written
  unfolding load_admitted prepare_module
  load_admitted-Loaded expires in_time source token key image_ref s written h =
      elim (Result-cases (prepare_module source token image_ref)) [
        | inr (e, q) ↦ absurd (ground (arith, q, h))
        | inl (p, q) ↦ elim (Result-cases (register in_time key p s)) [
          | inr (e, r) ↦ absurd (ground (arith, q, r, h))
          | inl (s', r) ↦
              let a = prepare_module-ok source token image_ref p q in
              let cached : WasmArtifact → Option (Option Bytes) =
                λ x. cache_get is_utf8 trim cache token x.digest in
              let prepared : prepare sha256_hex (some (unnamed a.0)) cached
                    (pull_of source image_ref) compile
                  ≡ ok p =
                ap
                  (λ m. prepare sha256_hex (unnamed_of m) cached (pull_of source image_ref) compile)
                  (sym a.1)
                ∙ q in
              let o =
                prepare-Prepared sha256_hex cached (pull_of source image_ref) compile (unnamed a.0)
                  p prepared in
              let place = ((register-ok_iff in_time key p s s').0 r).1 in
              let after : (load_admitted expires in_time source token key image_ref s).0 ≡ s' =
                ground (arith, q, r, h) in
              record {
                artifact = a.0;
                wasm = o.wasm;
                component = p.component;
                native_bytes = p.native_bytes;
                described =
                    manifest-Described url reference sha256_hex json registry source image_ref a.0
                      a.1;
                sized = o.sized;
                verified = o.verified;
                compiled = o.compiled;
                held = ap (get key) (after ∙ place) ∙ held key p s;
                missed = o.missed;
                puts = ground (arith, q, r, h, o.cache_write, o.digest);
              }
        ]
      ]
