-- ===== src/Host/Tests/Registry.antt =====
-- The properties of modules.rs on a component that is a number.
use wasm_platform.Base.{
  ℕ, zero, suc, ◌≡◌, refl, true, Bytes, ascii, ◌∷◌, [], ◌++◌, none, some, ok, bytes_discrete,
  ℕ_discrete, bytes_eq, strip_prefix, starts_with,
}
use wasm_platform.Base.Map.{
  get as map_get, insert as map_insert, remove as map_remove, contains_key,
}
use wasm_platform.Platform.Artifacts.{verify_wasm, verify, from_bytes}
use wasm_platform.Host.Modules.{
  ModuleKey, WasmArtifact, PreparedComponent, RegistryState, registers, removes, empty, register,
  replaced_bytes, run, prepare, obtain, validated_hit, validate_bytes,
}
use wasm_platform.Host.Modules.Budget.{IsBounded, placed, run-IsBounded}
use wasm_platform.Host.Modules.Source.{Prepared, prepare-Prepared}

abbrev key : ModuleKey
key = (ascii "ns", ascii "app", ascii "fn")

abbrev other : ModuleKey
other = (ascii "ns", ascii "app", ascii "gn")

abbrev zeros : ℕ → Bytes
zeros zero = []
zeros (suc n) = b'0' ∷ zeros n

-- A function in the place of the hash.
abbrev hash : Bytes → Bytes
hash bytes = zeros 64

abbrev digest : Bytes
digest = ascii "sha256:" ++ zeros 64

abbrev wasm : Bytes
wasm = 0 ∷ ascii "asm" ++ 1 ∷ 0 ∷ 0 ∷ 0 ∷ []

abbrev component : PreparedComponent ℕ
component = record { component = 7; native_bytes = 100; digest = digest; cache_write = some wasm }

abbrev no_components : RegistryState ℕ
no_components = empty

abbrev placed_one : RegistryState ℕ
placed_one = placed key component empty

run-IsBounded_example :
    IsBounded
      (run (registers true key component ∷ registers true other component ∷ removes key ∷ []) empty)
run-IsBounded_example =
    run-IsBounded (registers true key component ∷ registers true other component ∷ removes key ∷ [])

registered : register true key component empty ≡ ok placed_one
unfolding register replaced_bytes map_get map_insert map_remove contains_key
registered = refl

abbrev artifact : WasmArtifact
artifact = record { digest = digest; size = 8 }

prepared :
    prepare hash (some artifact) (λ _. none) (λ _. some wasm) (λ _. some (7, 100)) ≡ ok component
unfolding prepare obtain validated_hit validate_bytes verify_wasm verify from_bytes strip_prefix
    starts_with bytes_eq bytes_discrete ℕ_discrete
prepared = refl

prepare-Prepared_example :
    Prepared hash (λ _. none) (λ _. some wasm) (λ _. some (7, 100)) artifact component
prepare-Prepared_example =
    prepare-Prepared hash (λ _. none) (λ _. some wasm) (λ _. some (7, 100)) artifact component
      prepared
