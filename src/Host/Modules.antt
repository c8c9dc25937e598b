-- ===== src/Host/Modules.antt =====
-- `ModuleRegistry` of components/execution-host/src/modules.rs: where the bytes of a module come from,
-- and the bounded map of compiled components. The registry's manifest, the cache, the pull and the
-- compiler are arguments; a component is a value of the section's type.
pub mod Budget
pub mod Source
use wasm_platform.Base.{
  ℕ, ◌+◌, ◌-◌, ◌*◌, Bool, true, false, not, ◌&&◌, ◌||◌, Bytes, List, ◌∷◌, [], Option, none, some,
  Result, ok, err, ensure, ◌>>◌, ◌>>=◌, if◌then◌else◌, ◌==◌, ltb, leb, length, bytes_discrete,
}
use wasm_platform.Base.Map.{
  get as map_get, insert as map_insert, remove as map_remove, contains_key,
}
use wasm_platform.Platform.Artifacts.{Sha256Digest, verify_wasm}

abbrev pub max_queued_preparations : ℕ
max_queued_preparations = 16

abbrev pub max_retained_components : ℕ
max_retained_components = 32

abbrev pub max_retained_native_bytes : ℕ
max_retained_native_bytes = 128 * 1024 * 1024

-- Namespace, application, function.
abbrev pub ModuleKey : Type 0
ModuleKey = Bytes × Bytes × Bytes

unfoldable pub key_discrete : Discrete ModuleKey
unfolding bytes_discrete
key_discrete = hlevel bytes_discrete

pub data ModuleError : Type 0 where
  admission_closed capacity_deadline deadline_expired count_limit byte_budget : ModuleError
  manifest_failed pull_failed size_mismatch not_verified compilation_failed component_too_large :
      ModuleError

-- `WasmArtifact`, less its reference.
pub record WasmArtifact : Type 0 where
  pub digest : Sha256Digest
  pub size : ℕ

pub record RegisteredComponent (C : Type 0) : Type 0 where
  pub component : C
  pub native_bytes : ℕ

pub record RegistryState (C : Type 0) : Type 0 where
  pub components : List (ModuleKey × RegisteredComponent C)
  pub native_bytes : ℕ

pub record PreparedComponent (C : Type 0) : Type 0 where
  pub component : C
  pub native_bytes : ℕ
  pub digest : Sha256Digest
  pub cache_write : Option Bytes

module _ {C : Type 0} where
  abbrev pub empty : RegistryState C
  empty = record { components = []; native_bytes = 0 }

  unfoldable pub get : ModuleKey → RegistryState C → Option C
  get key state = elim (map_get key_discrete key state.components) [
    | none ↦ none
    | some entry ↦ some entry.component
  ]

  unfoldable pub replaced_bytes : ModuleKey → RegistryState C → ℕ
  replaced_bytes key state = elim (map_get key_discrete key state.components) [
    | none ↦ 0
    | some entry ↦ entry.native_bytes
  ]

  -- The registration of `load_admitted`, under the write lock; `in_time` is the test of the deadline.
  unfoldable pub register :
      Bool
      → ModuleKey
      → PreparedComponent C
      → RegistryState C
      → Result ModuleError (RegistryState C)
  unfolding replaced_bytes
  register in_time key prepared state =
      let retained_bytes = state.native_bytes - replaced_bytes key state + prepared.native_bytes in
      do
        ensure in_time deadline_expired
        ensure
            (contains_key key_discrete key state.components
              || ltb (length state.components) max_retained_components)
            count_limit
        ensure (leb retained_bytes max_retained_native_bytes) byte_budget
        ok (record {
          components =
              map_insert key_discrete key
                (record { component = prepared.component; native_bytes = prepared.native_bytes })
                state.components;
          native_bytes = retained_bytes;
        })

  unfoldable pub remove : ModuleKey → RegistryState C → RegistryState C
  remove key state = elim (map_get key_discrete key state.components) [
    | none ↦ state
    | some entry ↦ record {
      components = map_remove key_discrete key state.components;
      native_bytes = state.native_bytes - entry.native_bytes;
    }
  ]

module _ (sha256_hex : Bytes → Bytes) where
  unfoldable pub validate_bytes : WasmArtifact → Bytes → Result ModuleError (Unit {0})
  validate_bytes artifact wasm =
      if not (length wasm == artifact.size)
      then err size_mismatch
      else (elim (verify_wasm sha256_hex artifact.digest wasm) [
        | ok _ ↦ ok tt
        | err _ ↦ err not_verified
      ])

  -- A cache hit, if it is one and its bytes validate; an answer of `none` is a failed lookup.
  unfoldable pub validated_hit : WasmArtifact → Option (Option Bytes) → Option Bytes
  validated_hit artifact (some (some wasm)) = elim (validate_bytes artifact wasm) [
    | ok _ ↦ some wasm
    | err _ ↦ none
  ]
  validated_hit artifact (some none) = none
  validated_hit artifact none = none

  -- The bytes to compile, and whether the cache missed: a pull that failed is `none`.
  unfoldable pub obtain :
      WasmArtifact
      → Option (Option Bytes)
      → (WasmArtifact → Option Bytes)
      → Result ModuleError (Bytes × Bool)
  obtain artifact cached pull = elim (validated_hit artifact cached) [
    | some wasm ↦ ok (wasm, false)
    | none ↦ elim (pull artifact) [ none ↦ err pull_failed | some wasm ↦ ok (wasm, true) ]
  ]

  -- `prepare`, from the manifest on: `compile` gives the component and the size of its native code.
  unfoldable pub prepare :
      {C : Type 0}
      → Option WasmArtifact
      → (WasmArtifact → Option (Option Bytes))
      → (WasmArtifact → Option Bytes)
      → (Bytes → Option (C × ℕ))
      → Result ModuleError (PreparedComponent C)
  prepare none cache pull compile = err manifest_failed
  prepare (some artifact) cache pull compile = do
    found ← obtain artifact (cache artifact) pull
    validate_bytes artifact found.0
    compiled ← (elim (compile found.0) [ none ↦ err compilation_failed | some c ↦ ok c ])
    ensure (leb compiled.1 max_retained_native_bytes) component_too_large
    ok (record {
      component = compiled.0;
      native_bytes = compiled.1;
      digest = artifact.digest;
      cache_write = if found.1 then some found.0 else none;
    })

-- What the registry's callers do to it: a preparation that ends, and an eviction.
pub data Change (C : Type 0) : Type 0 where
  registers : Bool → ModuleKey → PreparedComponent C → Change C
  removes : ModuleKey → Change C

-- A registration that fails changes nothing.
unfoldable pub step : {C : Type 0} → Change C → RegistryState C → RegistryState C
step (registers in_time key prepared) state = elim (register in_time key prepared state) [
  | err _ ↦ state
  | ok state' ↦ state'
]
step (removes key) state = remove key state

unfoldable pub run : {C : Type 0} → List (Change C) → RegistryState C → RegistryState C
run [] state = state
run (c ∷ cs) state = run cs (step c state)
