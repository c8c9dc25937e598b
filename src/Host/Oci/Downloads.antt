-- ===== src/Host/Oci/Downloads.antt =====
-- `manifest` and `pull` of oci.rs. A request is an argument: the response that the client has for a URL,
-- or none where it fails.
use wasm_platform.Base.{
  ℤ, pos, negsuc, ℕ, Bool, true, false, ◌&&◌, ◌||◌, Bytes, ascii, List, ◌∷◌, [], Option, none, some,
  Result, ok, ensure, or_fail, map_err, ◌>>=◌, ◌>>◌, leb, ◌==◌, bytes_eq, length,
}
use wasm_platform.Platform.Artifacts.{
  Sha256Digest, max_manifest_bytes, max_wasm_bytes, parse as parse_digest, verify, verify_wasm,
}
use wasm_platform.Host.Oci.Responses.{
  OciError, Response, read_response, verify_digest_header, invalid_digest, manifest_request_failed,
  manifest_request_rejected, wrong_manifest_digest, invalid_manifest, unsupported_schema,
  unsupported_manifest_type, not_one_layer, unsupported_layer_type, external_layer_urls,
  invalid_layer_size, layer_out_of_bounds, blob_request_failed, blob_request_rejected,
  layer_size_mismatch, not_verified,
}
use wasm_platform.Host.Oci.Registries.{Url, OciSource, parse, endpoint}

-- What the source reads of the manifest and of its layers.
pub record OciDescriptor : Type 0 where
  pub media_type : Bytes
  pub digest : Bytes
  pub size : ℤ
  pub urls : Option (List Bytes)

pub record OciImageManifest : Type 0 where
  pub schema_version : ℕ
  pub media_type : Option Bytes
  pub layers : List OciDescriptor
  pub artifact_type : Option Bytes

pub record WasmArtifact : Type 0 where
  pub reference : Bytes
  pub digest : Sha256Digest
  pub size : ℕ

abbrev pub is_text : Option Bytes → Bytes → Bool
is_text none t = false
is_text (some s) t = bytes_eq s t

unfoldable pub supported_manifest : Option Bytes → Bool
supported_manifest m =
    is_text m (ascii "application/vnd.oci.image.manifest.v1+json")
    || is_text m (ascii "application/vnd.docker.distribution.manifest.v2+json")

unfoldable pub supported_layer : OciImageManifest → OciDescriptor → Bool
supported_layer m l =
    (bytes_eq l.media_type (ascii "application/octet-stream")
      || (bytes_eq l.media_type (ascii "application/wasm")
          || bytes_eq l.media_type (ascii "application/vnd.wasm.content.layer.v1+wasm")))
    || (bytes_eq l.media_type (ascii "application/vnd.oci.image.layer.v1.tar")
        && is_text m.artifact_type (ascii "application/vnd.wasm.content.layer.v1+wasm"))

abbrev pub has_no_urls : Option (List Bytes) → Bool
has_no_urls none = true
has_no_urls (some []) = true
has_no_urls (some (u ∷ urls)) = false

-- `usize::try_from`.
abbrev pub to_usize : ℤ → Option ℕ
to_usize (pos n) = some n
to_usize (negsuc n) = none

abbrev pub only_layer : List OciDescriptor → Option OciDescriptor
only_layer [] = none
only_layer (l ∷ []) = some l
only_layer (l ∷ k ∷ layers) = none

-- The tests of a manifest that was parsed.
unfoldable pub artifact_of : Bytes → OciImageManifest → Result OciError WasmArtifact
artifact_of image_ref m = do
  ensure (m.schema_version == 2) unsupported_schema
  ensure (supported_manifest m.media_type) unsupported_manifest_type
  layer ← or_fail (only_layer m.layers) not_one_layer
  ensure (supported_layer m layer) unsupported_layer_type
  ensure (has_no_urls layer.urls) external_layer_urls
  size ← or_fail (to_usize layer.size) invalid_layer_size
  ensure (leb 8 size && leb size max_wasm_bytes) layer_out_of_bounds
  digest ← map_err (λ _. invalid_digest) (parse_digest layer.digest)
  ok (record { reference = image_ref; digest = digest; size = size })

module _ (url : Bytes → Option Url) (reference : Bytes → Option Bytes) (sha256_hex : Bytes → Bytes)
    (json : Bytes → Option OciImageManifest) (client : Bytes → Option Response) where
  unfoldable pub manifest : OciSource → Bytes → Result OciError WasmArtifact
  manifest source image_ref = do
    r ← parse url reference source image_ref
    digest ← map_err (λ _. invalid_digest) (parse_digest r.digest)
    response ←
        or_fail (client (endpoint source r (ascii "manifests") digest)) manifest_request_failed
    ensure (response.status == 200) manifest_request_rejected
    verify_digest_header response digest
    bytes ← read_response response max_manifest_bytes
    map_err (λ _. wrong_manifest_digest) (verify sha256_hex digest bytes)
    m ← or_fail (json bytes) invalid_manifest
    artifact_of image_ref m

  unfoldable pub pull : OciSource → WasmArtifact → Result OciError Bytes
  pull source artifact = do
    r ← parse url reference source artifact.reference
    response ←
        or_fail (client (endpoint source r (ascii "blobs") artifact.digest)) blob_request_failed
    ensure (response.status == 200) blob_request_rejected
    verify_digest_header response artifact.digest
    bytes ← read_response response artifact.size
    ensure (length bytes == artifact.size) layer_size_mismatch
    map_err (λ _. not_verified) (verify_wasm sha256_hex artifact.digest bytes)
    ok bytes
