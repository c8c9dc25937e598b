-- ===== src/Host/Tests/Oci.antt =====
-- The downloads of oci.rs from a registry that answers with what is asked for.
use wasm_platform.Base.{
  pos, ℕ, zero, suc, ◌≤◌, ◌≡◌, refl, ◌↔◌, Bool, false, Bytes, ascii, ◌∷◌, [], ◌++◌, Option, none,
  some, ok, length, strip_prefix, starts_with, ends_with, split_once, split, trim_start,
  trim_matches, bytes_eq, bytes_discrete, ℕ_discrete,
}
use wasm_platform.Platform.Artifacts.{from_bytes, parse as parse_digest, verify}
use wasm_platform.Host.Oci.Responses.{
  Response, data_chunk, Announces, body_of, read_response, read_chunks, verify_digest_header,
  read_response-ok_iff,
}
use wasm_platform.Host.Oci.Registries.{
  Url, OciSource, contains, registry_url, is_origin, all_origins, registry_list, check_plaintext,
  new, parse, endpoint, Reference,
}
use wasm_platform.Host.Oci.Downloads.{
  WasmArtifact, OciImageManifest, OciDescriptor, artifact_of, supported_manifest, supported_layer,
  manifest, pull,
}
use wasm_platform.Host.Oci.Plaintext.{IsLocal, new-IsLocal}
use wasm_platform.Host.Oci.Accepted.{Pulled, Described, pull-ok_iff, manifest-Described}

-- A digest function of one value, in 64 hexadecimal digits.
abbrev repeat : ℕ → ℕ → Bytes
repeat zero c = []
repeat (suc n) c = c ∷ repeat n c

abbrev hex : Bytes → Bytes
hex bytes = repeat 64 b'a'

abbrev url : Bytes → Option Url
url text = some (record {
  host = some (ascii "localhost");
  username = [];
  password = none;
  path = ascii "/";
  query = none;
  fragment = none;
  authority = ascii "localhost:1";
})

abbrev loopback : Bytes → Bool
loopback host = false

abbrev reference : Bytes → Option Bytes
reference text = some (ascii "app")

abbrev layer : OciDescriptor
layer = record {
  media_type = ascii "application/wasm";
  digest = ascii "sha256:" ++ hex [];
  size = pos 8;
  urls = none;
}

abbrev json : Bytes → Option OciImageManifest
json bytes = some (record {
  schema_version = 2;
  media_type = some (ascii "application/vnd.oci.image.manifest.v1+json");
  layers = layer ∷ [];
  artifact_type = none;
})

abbrev wasm : Bytes
wasm = 0 ∷ ascii "asm" ++ 1 ∷ 0 ∷ 0 ∷ 0 ∷ []

abbrev response : Response
response = record {
  status = 200;
  digest_header = none;
  content_length = none;
  chunks = data_chunk (0 ∷ ascii "asm") ∷ data_chunk (1 ∷ 0 ∷ 0 ∷ 0 ∷ []) ∷ [];
}

abbrev client : Bytes → Option Response
client address = some response

abbrev source : OciSource
source = record { approved = ascii "localhost:1" ∷ []; plaintext = ascii "localhost:1" ∷ [] }

abbrev image_ref : Bytes
image_ref = ascii "oci://localhost:1/app@sha256:" ++ hex []

abbrev artifact : WasmArtifact
artifact = record { reference = image_ref; digest = ascii "sha256:" ++ hex []; size = 8 }

read_response-ok_iff_example : (read_response response 8 ≡ ok wasm) ↔ (
    Announces response.content_length 8 × (body_of response.chunks ≡ some wasm) × (length wasm ≤ 8))
read_response-ok_iff_example = read_response-ok_iff response 8 wasm

pull-ok_iff_example :
    (pull url reference hex json client source artifact ≡ ok wasm)
    ↔ Pulled url reference hex json client source artifact wasm
pull-ok_iff_example = pull-ok_iff url reference hex json client source artifact wasm

configured : new url loopback (ascii "localhost:1") (ascii "localhost:1") ≡ ok source
unfolding new registry_list all_origins split registry_url is_origin check_plaintext contains
    ends_with strip_prefix trim_start trim_matches bytes_eq bytes_discrete ℕ_discrete starts_with
configured = refl

abbrev parsed : Reference
parsed = record {
  registry = ascii "localhost:1";
  repository = ascii "app";
  digest = ascii "sha256:" ++ hex [];
}

new-IsLocal_example : IsLocal url loopback source (ascii "localhost:1")
unfolding endpoint contains bytes_eq bytes_discrete ℕ_discrete
new-IsLocal_example =
    new-IsLocal url loopback (ascii "localhost:1") (ascii "localhost:1") (ascii "blobs") (ascii "x")
      (ascii "localhost:1/v2/app/blobs/x") source parsed configured refl

accepted : manifest url reference hex json client source image_ref ≡ ok artifact
unfolding manifest parse registry_url is_origin contains ends_with strip_prefix split_once bytes_eq
    bytes_discrete ℕ_discrete starts_with parse_digest verify_digest_header read_response
    read_chunks verify from_bytes artifact_of supported_manifest supported_layer
accepted = refl

manifest-Described_example : Described url reference hex json client source image_ref artifact
manifest-Described_example =
    manifest-Described url reference hex json client source image_ref artifact accepted
