-- ===== src/Host/Tests/Load.antt =====
-- A load of modules.rs that misses the cache and pulls from the registry.
use wasm_platform.Base.{
  pos, ℕ, zero, suc, ◌≡◌, refl, Bool, true, false, Bytes, ascii, ◌∷◌, [], ◌++◌, Option, none, some,
  ok, strip_prefix, starts_with, ends_with, split_once, bytes_eq, bytes_discrete, ℕ_discrete,
}
use wasm_platform.Base.Map.{
  get as map_get, insert as map_insert, remove as map_remove, contains_key,
}
use wasm_platform.Platform.Artifacts.{parse as parse_digest, verify, verify_wasm, from_bytes}
use wasm_platform.Platform.Identity.{validate_token}
use wasm_platform.Host.Modules.{
  RegistryState, ModuleKey, key_discrete, register, replaced_bytes, prepare, obtain, validated_hit,
  validate_bytes,
}
use wasm_platform.Host.Oci.Responses.{
  Response, data_chunk, read_response, read_chunks, verify_digest_header,
}
use wasm_platform.Host.Oci.Registries.{Url, OciSource, contains, registry_url, is_origin, parse}
use wasm_platform.Host.Oci.Downloads.{
  OciImageManifest, artifact_of, supported_manifest, supported_layer, manifest, pull,
}
use wasm_platform.Host.Oci.Cache.{get as cache_get, read_token, authorization}
use wasm_platform.Host.Load.{pull_of, prepare_module, load_admitted, Loaded, load_admitted-Loaded}

abbrev repeat : ℕ → ℕ → Bytes
repeat zero c = []
repeat (suc n) c = c ∷ repeat n c

abbrev hex : Bytes → Bytes
hex bytes = repeat 64 b'a'

abbrev url : Bytes → Option Url
url text = some (record {
  host = some (ascii "r");
  username = [];
  password = none;
  path = ascii "/";
  query = none;
  fragment = none;
  authority = ascii "r";
})

abbrev reference : Bytes → Option Bytes
reference text = some (ascii "app")

abbrev json : Bytes → Option OciImageManifest
json bytes = some (record {
  schema_version = 2;
  media_type = some (ascii "application/vnd.oci.image.manifest.v1+json");
  layers =
      record {
        media_type = ascii "application/wasm";
        digest = ascii "sha256:" ++ hex [];
        size = pos 8;
        urls = none;
      }
      ∷ [];
  artifact_type = none;
})

abbrev wasm : Bytes
wasm = 0 ∷ ascii "asm" ++ 1 ∷ 0 ∷ 0 ∷ 0 ∷ []

abbrev registry : Bytes → Option Response
registry address = some (record {
  status = 200;
  digest_header = none;
  content_length = none;
  chunks = data_chunk wasm ∷ [];
})

abbrev cache : Bytes → Bytes → Option Response
cache header path =
    some (record { status = 404; digest_header = none; content_length = none; chunks = [] })

abbrev is_utf8 : Bytes → Bool
is_utf8 bytes = true

abbrev trim : Bytes → Bytes
trim bytes = bytes

abbrev compile : Bytes → Option (ℕ × ℕ)
compile bytes = some (7, 1)

abbrev source : OciSource
source = record { approved = ascii "r" ∷ []; plaintext = [] }

abbrev image_ref : Bytes
image_ref = ascii "r/app@sha256:" ++ hex []

abbrev key : ModuleKey
key = (ascii "ns", ascii "app", ascii "f")

abbrev empty : RegistryState ℕ
empty = record { components = []; native_bytes = 0 }

abbrev written : Option (Bytes × Bytes)
written = some (ascii "sha256:" ++ hex [], wasm)

loaded :
    (load_admitted url reference hex json registry is_utf8 trim cache compile false true source
      (some (ascii "token"))
      key
      image_ref
      empty).1
    ≡ ok written
unfolding load_admitted prepare_module pull_of prepare obtain validated_hit validate_bytes register
    replaced_bytes map_get map_insert map_remove contains_key key_discrete cache_get read_token
    authorization validate_token manifest pull parse registry_url is_origin contains ends_with
    strip_prefix split_once bytes_eq bytes_discrete ℕ_discrete starts_with parse_digest
    verify_digest_header read_response read_chunks verify verify_wasm from_bytes artifact_of
    supported_manifest supported_layer
loaded = refl

load_admitted-Loaded_example :
    Loaded url reference hex json registry is_utf8 trim cache compile source key image_ref
      (load_admitted url reference hex json registry is_utf8 trim cache compile false true source
        (some (ascii "token"))
        key
        image_ref
        empty).0
      written
load_admitted-Loaded_example =
    load_admitted-Loaded url reference hex json registry is_utf8 trim cache compile false true
      source (some (ascii "token")) key image_ref empty written loaded
