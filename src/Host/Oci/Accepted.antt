-- ===== src/Host/Oci/Accepted.antt =====
-- What oci.rs accepts of its registries.
use wasm_platform.Base.{
  refl, none, starts_with, bytes_eq_iff, ◌≤◌, ◌≡◌, ◌↔◌, true, Bytes, ascii, ◌∷◌, Option, some, ok,
  bytes_eq_iff, length, arith, Option-cases, Result-cases, inl, inr,
}
use wasm_platform.Platform.Artifacts.Laws.{verify_wasm-ok_iff}
use wasm_platform.Host.Oci.Approved.{Names, parse-ok_iff_Names}
use wasm_platform.Platform.Artifacts.{
  from_bytes, max_manifest_bytes, max_wasm_bytes, parse as parse_digest, verify,
}
use wasm_platform.Host.Oci.Responses.{
  Response, Announces, body_of, read_response, verify_digest_header, read_response-ok_iff,
}
use wasm_platform.Host.Oci.Registries.{Url, OciSource, Reference, parse, endpoint}
use wasm_platform.Host.Oci.Downloads.{
  WasmArtifact, OciImageManifest, OciDescriptor, artifact_of, manifest, pull, only_layer, to_usize,
}

-- What a `docker-content-digest` header may say.
abbrev pub Agrees : Option (Option Bytes) → Bytes → Type 0
Agrees none expected = Unit {0}
Agrees (some none) expected = ⊥
Agrees (some (some digest)) expected = digest ≡ expected

verify_digest_header-Agrees :
    (header : Option (Option Bytes)) (r : Response) (expected : Bytes)
    → r.digest_header ≡ header
    → (verify_digest_header r expected ≡ ok tt) ↔ Agrees header expected
unfolding verify_digest_header
verify_digest_header-Agrees none r expected h = ground (arith, h)
verify_digest_header-Agrees (some none) r expected h = ground (arith, h)
verify_digest_header-Agrees (some (some digest)) r expected h =
    ground (arith, h, bytes_eq_iff digest expected)

header-ok_iff :
    (r : Response) (expected : Bytes)
    → (verify_digest_header r expected ≡ ok tt) ↔ Agrees r.digest_header expected
header-ok_iff r expected = verify_digest_header-Agrees r.digest_header r expected refl

verify-ok_iff :
    (sha256_hex : Bytes → Bytes) (digest bytes : Bytes)
    → (verify sha256_hex digest bytes ≡ ok tt) ↔ (digest ≡ from_bytes sha256_hex bytes)
unfolding verify
verify-ok_iff sha256_hex digest bytes =
    ground (arith, bytes_eq_iff digest (from_bytes sha256_hex bytes))

module _ (url : Bytes → Option Url) (reference : Bytes → Option Bytes) (sha256_hex : Bytes → Bytes)
    (json : Bytes → Option OciImageManifest) (client : Bytes → Option Response) where
  -- A blob that was pulled.
  pub record Pulled (source : OciSource) (artifact : WasmArtifact) (bytes : Bytes) : Type 0 where
    pub r : Reference
    pub response : Response
    pub named : Names url reference source artifact.reference r
    pub answered : client (endpoint source r (ascii "blobs") artifact.digest) ≡ some response
    pub found : response.status ≡ 200
    pub header : Agrees response.digest_header artifact.digest
    pub announced : Announces response.content_length artifact.size
    pub body : body_of response.chunks ≡ some bytes
    pub sized : length bytes ≡ artifact.size
    pub magic : starts_with (0 ∷ ascii "asm") bytes ≡ true
    pub valid : (8 ≤ length bytes) × (length bytes ≤ max_wasm_bytes)
    pub verified : artifact.digest ≡ from_bytes sha256_hex bytes

  pull-Pulled :
      (source : OciSource) (artifact : WasmArtifact) (bytes : Bytes)
      → pull url reference sha256_hex json client source artifact ≡ ok bytes
      → Pulled source artifact bytes
  unfolding pull
  pull-Pulled source artifact bytes h =
      elim (Result-cases (parse url reference source artifact.reference)) [
        | inr (e, q) ↦ absurd (ground arith)
        | inl (r, q) ↦
            elim (Option-cases (client (endpoint source r (ascii "blobs") artifact.digest))) [
              | inl n ↦ absurd (ground arith)
              | inr (response, n) ↦ elim (Result-cases (read_response response artifact.size)) [
                | inr (e, k) ↦ absurd (ground arith)
                | inl (b, k) ↦
                    let same : b ≡ bytes = ground arith in
                    let read = (read_response-ok_iff response artifact.size b).0 k in
                    let wasm =
                      (verify_wasm-ok_iff sha256_hex artifact.digest bytes).0 (ground arith) in
                    record {
                      r = r;
                      response = response;
                      named = (parse-ok_iff_Names url reference source _ r).0 q;
                      answered = n;
                      found = ground arith;
                      header = (header-ok_iff response artifact.digest).0 (ground arith);
                      announced = read.0;
                      body = ground (arith, read, same);
                      sized = ground arith;
                      magic = wasm.2;
                      valid = (wasm.0, wasm.1);
                      verified = wasm.3;
                    }
              ]
            ]
      ]

  Pulled-pull :
      (source : OciSource) (artifact : WasmArtifact) (bytes : Bytes)
      → Pulled source artifact bytes
      → pull url reference sha256_hex json client source artifact ≡ ok bytes
  unfolding pull
  Pulled-pull source artifact bytes p =
      let read =
        (read_response-ok_iff p.response artifact.size bytes).1
          (p.announced, p.body, omega (arith, p.sized)) in
      let named = (parse-ok_iff_Names url reference source artifact.reference p.r).1 p.named in
      let header = (header-ok_iff p.response artifact.digest).1 p.header in
      let wasm =
        (verify_wasm-ok_iff sha256_hex artifact.digest bytes).1
          (p.valid.0, p.valid.1, p.magic, p.verified) in
      ground (arith, named, p.answered, p.found, header, read, p.sized, wasm)

  -- A pull gives bytes exactly if the reference names a repository and a SHA-256 digest at a registry which
  -- is an origin and stands in the list of approved ones, and that registry answers with 200, with no
  -- digest in its header but the layer's, and with a body, in whatever chunks, that is of the size and the
  -- SHA-256 of the manifest's layer, begins as a Wasm module, and is announced no larger.
  pub pull-ok_iff :
      (source : OciSource) (artifact : WasmArtifact) (bytes : Bytes)
      → (pull url reference sha256_hex json client source artifact ≡ ok bytes)
        ↔ Pulled source artifact bytes
  pull-ok_iff source artifact bytes =
      (pull-Pulled source artifact bytes, Pulled-pull source artifact bytes)

  -- The manifest that an artifact was read from.
  pub record Described (source : OciSource) (image_ref : Bytes) (a : WasmArtifact) : Type 0 where
    pub r : Reference
    pub response : Response
    pub bytes : Bytes
    pub m : OciImageManifest
    pub layer : OciDescriptor
    pub named : Names url reference source image_ref r
    pub answered : client (endpoint source r (ascii "manifests") r.digest) ≡ some response
    pub found : response.status ≡ 200
    pub body : body_of response.chunks ≡ some bytes
    pub small : length bytes ≤ max_manifest_bytes
    pub header : Agrees response.digest_header r.digest
    pub verified : r.digest ≡ from_bytes sha256_hex bytes
    pub parsed : json bytes ≡ some m
    pub only : only_layer m.layers ≡ some layer
    pub kept : a.reference ≡ image_ref
    pub digest : (a.digest ≡ layer.digest) × (parse_digest a.digest ≡ ok a.digest)
    pub size : to_usize layer.size ≡ some a.size
    pub large : 8 ≤ a.size
    pub bounded : a.size ≤ max_wasm_bytes

  parse_digest_inv : (value d : Bytes) → parse_digest value ≡ ok d → d ≡ value
  unfolding parse_digest
  parse_digest_inv value d h = ground arith

  -- The tests that a manifest has passed.
  record Tested (image_ref : Bytes) (m : OciImageManifest) (a : WasmArtifact) : Type 0 where
    pub layer : OciDescriptor
    pub only : only_layer m.layers ≡ some layer
    pub kept : a.reference ≡ image_ref
    pub digest : (a.digest ≡ layer.digest) × (parse_digest a.digest ≡ ok a.digest)
    pub size : to_usize layer.size ≡ some a.size
    pub large : 8 ≤ a.size
    pub bounded : a.size ≤ max_wasm_bytes

  tested :
      (image_ref : Bytes) (m : OciImageManifest) (a : WasmArtifact)
      → artifact_of image_ref m ≡ ok a
      → Tested image_ref m a
  unfolding artifact_of
  tested image_ref m a h = elim (Option-cases (only_layer m.layers)) [
    | inl e ↦ absurd (ground arith)
    | inr (l, e) ↦ elim (Option-cases (to_usize l.size)) [
      | inl k ↦ absurd (ground arith)
      | inr (n, k) ↦ elim (Result-cases (parse_digest l.digest)) [
        | inr (x, q) ↦ absurd (ground arith)
        | inl (d, q) ↦
            let same = parse_digest_inv l.digest d q in
            record {
              layer = l;
              only = e;
              kept = ground arith;
              digest = (ground (arith, same), ground (arith, same));
              size = ground arith;
              large = ground arith;
              bounded = ground arith;
            }
      ]
    ]
  ]

  -- An artifact is accepted only from a manifest of at most 1 MiB whose SHA-256 is the digest that the
  -- reference names, with no other digest in its header, of a registry that is an origin and stands in the
  -- list of approved ones: it is the manifest's only layer, its digest is a valid SHA-256, and its size,
  -- which is not negative, is from 8 bytes to 16 MiB.
  pub manifest-Described :
      (source : OciSource) (image_ref : Bytes) (a : WasmArtifact)
      → manifest url reference sha256_hex json client source image_ref ≡ ok a
      → Described source image_ref a
  unfolding manifest
  manifest-Described source image_ref a h =
      elim (Result-cases (parse url reference source image_ref)) [
        | inr (e, q) ↦ absurd (ground arith)
        | inl (r, q) ↦ elim (Result-cases (parse_digest r.digest)) [
          | inr (e, d) ↦ absurd (ground arith)
          | inl (digest, d) ↦
              elim (Option-cases (client (endpoint source r (ascii "manifests") digest))) [
                | inl n ↦ absurd (ground arith)
                | inr (response, n) ↦
                    elim (Result-cases (read_response response max_manifest_bytes)) [
                      | inr (e, k) ↦ absurd (ground arith)
                      | inl (b, k) ↦ elim (Option-cases (json b)) [
                        | inl j ↦ absurd (ground arith)
                        | inr (m, j) ↦
                            let same = parse_digest_inv r.digest digest d in
                            let read = (read_response-ok_iff response max_manifest_bytes b).0 k in
                            let t = tested image_ref m a (ground arith) in
                            record {
                              r = r;
                              response = response;
                              bytes = b;
                              m = m;
                              layer = t.layer;
                              named = (parse-ok_iff_Names url reference source _ r).0 q;
                              answered = ground (arith, n, same);
                              found = ground arith;
                              body = read.1;
                              small = read.2;
                              header = (header-ok_iff response r.digest).0 (ground (arith, same));
                              verified =
                                  (verify-ok_iff sha256_hex r.digest b).0 (ground (arith, same));
                              parsed = j;
                              only = t.only;
                              kept = t.kept;
                              digest = t.digest;
                              size = t.size;
                              large = t.large;
                              bounded = t.bounded;
                            }
                      ]
                    ]
              ]
        ]
      ]
