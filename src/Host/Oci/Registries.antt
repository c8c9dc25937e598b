-- ===== src/Host/Oci/Registries.antt =====
-- `OciSource` of oci.rs: the lists of registries, and the references and endpoints that they allow.
use wasm_platform.Base.{
  ℕ, Bool, true, false, not, ◌&&◌, ◌||◌, Bytes, ascii, List, ◌∷◌, [], ◌++◌, Option, none, some,
  Result, ok, ensure, or_fail, map_err, ◌>>=◌, ◌>>◌, if◌then◌else◌, leb, ◌==◌, bytes_eq, length,
  strip_prefix, ends_with, split_once, split, trim_matches,
}
use wasm_platform.Platform.Artifacts.{parse as parse_digest}
use wasm_platform.Host.Oci.Responses.{
  OciError, empty_registry_list, plaintext_not_approved, plaintext_not_local,
  invalid_registry_origin, invalid_reference, registry_not_approved, not_immutable, invalid_digest,
}

-- What the source reads of a `reqwest::Url`.
pub record Url : Type 0 where
  pub host : Option Bytes
  pub username : Bytes
  pub password : Option Bytes
  pub path : Bytes
  pub query : Option Bytes
  pub fragment : Option Bytes
  pub authority : Bytes

pub record OciSource : Type 0 where
  pub approved : List Bytes
  pub plaintext : List Bytes

pub record Reference : Type 0 where
  pub registry : Bytes
  pub repository : Bytes
  pub digest : Bytes

abbrev pub is_some {ℓ} : {A : Type ℓ} → Option A → Bool
is_some none = false
is_some (some a) = true

-- `HashSet::contains`.
unfoldable pub contains : List Bytes → Bytes → Bool
contains [] x = false
contains (y ∷ set) x = bytes_eq y x || contains set x

abbrev pub is_bracket : ℕ → Bool
is_bracket c = (c == b'[') || (c == b']')

-- The test of `registry_url`.
unfoldable pub is_origin : Bytes → Url → Bool
is_origin registry u =
    is_some u.host
    && (bytes_eq u.username []
        && (not (is_some u.password)
            && (bytes_eq u.path (ascii "/")
                && (not (is_some u.query)
                    && (not (is_some u.fragment)
                        && (not (ends_with (ascii "/") registry)
                            && (bytes_eq registry u.authority
                                || bytes_eq registry (u.authority ++ ascii ":443"))))))))

abbrev pub is_local : (Bytes → Bool) → Bytes → Bool
is_local loopback host =
    bytes_eq host (ascii "localhost") || (ends_with (ascii ".localhost") host || loopback host)

abbrev pub host_of : Url → Bytes
host_of u = elim u.host [ none ↦ [] | some h ↦ trim_matches is_bracket h ]

abbrev pub bare_of : Bytes → Bytes
bare_of image_ref = elim (strip_prefix (ascii "oci://") image_ref) [
  | none ↦ image_ref
  | some rest ↦ rest
]

-- `url` parses a URL, `loopback` says whether a text is an address that is a loopback, and `reference`
-- gives the repository of an image reference.
module _ (url : Bytes → Option Url) where
  unfoldable pub registry_url : Bytes → Result OciError Url
  registry_url registry = do
    u ← or_fail (url (ascii "https://" ++ registry)) invalid_registry_origin
    ensure (is_origin registry u) invalid_registry_origin
    ok u

  unfoldable pub all_origins : List Bytes → Result OciError (List Bytes)
  all_origins [] = ok []
  all_origins (origin ∷ origins) = do
    _ ← registry_url origin
    rest ← all_origins origins
    ok (origin ∷ rest)

  unfoldable pub registry_list : Bytes → Result OciError (List Bytes)
  registry_list [] = ok []
  registry_list (c ∷ value) = all_origins (split b',' (c ∷ value))

module _ (url : Bytes → Option Url) (loopback : Bytes → Bool) where
  -- The loop of `OciSource::new`.
  unfoldable pub check_plaintext : List Bytes → List Bytes → Result OciError (Unit {0})
  check_plaintext approved [] = ok tt
  check_plaintext approved (registry ∷ plaintext) = do
    ensure (contains approved registry) plaintext_not_approved
    u ← registry_url url registry
    ensure (is_local loopback (host_of u)) plaintext_not_local
    check_plaintext approved plaintext

  -- `OciSource::new`, less the configuration of its client.
  unfoldable pub new : Bytes → Bytes → Result OciError OciSource
  new approved_list plaintext_list = do
    approved ← registry_list url approved_list
    ensure (elim approved [ [] ↦ false | _ ∷ _ ↦ true ]) empty_registry_list
    plaintext ← registry_list url plaintext_list
    check_plaintext approved plaintext
    ok (record { approved = approved; plaintext = plaintext })

module _ (url : Bytes → Option Url) (reference : Bytes → Option Bytes) where
  unfoldable pub parse : OciSource → Bytes → Result OciError Reference
  parse source image_ref = do
    ensure (leb (length (bare_of image_ref)) 2048) invalid_reference
    (registry, path) ← or_fail (split_once b'/' (bare_of image_ref)) invalid_reference
    _ ← registry_url url registry
    ensure (contains source.approved registry) registry_not_approved
    (repository, digest) ← or_fail (split_once b'@' path) not_immutable
    _ ← map_err (λ _. invalid_digest) (parse_digest digest)
    parsed ←
        or_fail (reference (ascii "registry.example/" ++ repository ++ ascii "@" ++ digest))
          invalid_reference
    ok (record { registry = registry; repository = parsed; digest = digest })

unfoldable pub endpoint : OciSource → Reference → Bytes → Bytes → Bytes
endpoint source r kind identity =
    (if contains source.plaintext r.registry then ascii "http" else ascii "https")
    ++ ascii "://"
    ++ r.registry
    ++ ascii "/v2/"
    ++ r.repository
    ++ ascii "/"
    ++ kind
    ++ ascii "/"
    ++ identity
