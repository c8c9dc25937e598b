-- ===== src/Host/Oci/Approved.antt =====
-- Which references oci.rs approves of.
use wasm_platform.Base.{
  ◌≤◌, ◌≡◌, ◌≢◌, ◌⊎◌, inl, inr, refl, ◌↔◌, true, false, Bytes, ascii, List, ◌∷◌, [], ◌++◌, Option,
  none, some, ok, bytes_eq, bytes_eq_iff, length, arith, ends_with, split_once, Among, Bool-cases,
  Option-cases, Result-cases,
}
use wasm_platform.Platform.Artifacts.{parse as parse_digest}
use wasm_platform.Platform.Artifacts.Laws.{IsHex64, parse-ok_iff}
use wasm_platform.Host.Oci.Registries.{
  Url, OciSource, Reference, contains, registry_url, is_origin, is_some, bare_of, parse,
}

pub contains-Among : (set : List Bytes) (x : Bytes) → (contains set x ≡ true) ↔ Among x set
unfolding contains
contains-Among [] x = (λ h. ground (arith, h), λ h. absurd h)
contains-Among (y ∷ set) x = (
  (λ h. elim (Bool-cases (bytes_eq y x)) [
    | inl e ↦ inl ((bytes_eq_iff y x).0 e)
    | inr n ↦ inr ((contains-Among set x).0 (ground arith))
  ]),
  (λ h. ground (arith, bytes_eq_iff y x, contains-Among set x)),
)

-- The URL of an origin: a host, with a port or not, and nothing else.
pub record IsOrigin (registry : Bytes) (u : Url) : Type 0 where
  pub host : u.host ≢ none
  pub username : u.username ≡ []
  pub password : u.password ≡ none
  pub path : u.path ≡ ascii "/"
  pub query : u.query ≡ none
  pub fragment : u.fragment ≡ none
  pub bare : ends_with (ascii "/") registry ≡ false
  pub authority : (registry ≡ u.authority) ⊎ (registry ≡ u.authority ++ ascii ":443")

none_of : (o : Option Bytes) → (is_some o ≡ false) ↔ (o ≡ none)
none_of none = ground arith
none_of (some a) = ground arith

origin_of : (registry : Bytes) (u : Url) → is_origin registry u ≡ true → IsOrigin registry u
unfolding is_origin
origin_of registry u h = record {
  host = ground (arith, none_of u.host, h);
  username = ground (arith, bytes_eq_iff u.username [], h);
  password = ground (arith, none_of u.password, h);
  path = ground (arith, bytes_eq_iff u.path (ascii "/"), h);
  query = ground (arith, none_of u.query, h);
  fragment = ground (arith, none_of u.fragment, h);
  bare = ground (arith, h);
  authority = ground (
    arith,
    bytes_eq_iff registry u.authority,
    bytes_eq_iff registry (u.authority ++ ascii ":443"),
    h,
  );
}

origin-is : (registry : Bytes) (u : Url) → IsOrigin registry u → is_origin registry u ≡ true
unfolding is_origin
origin-is registry u o = ground (
  arith,
  none_of u.host,
  none_of u.password,
  none_of u.query,
  none_of u.fragment,
  bytes_eq_iff u.username [],
  bytes_eq_iff u.path (ascii "/"),
  bytes_eq_iff registry u.authority,
  bytes_eq_iff registry (u.authority ++ ascii ":443"),
  o.host,
  o.username,
  o.password,
  o.path,
  o.query,
  o.fragment,
  o.bare,
  o.authority,
)

module _ (url : Bytes → Option Url) where
  pub registry_url-IsOrigin :
      (registry : Bytes) (u : Url)
      → (registry_url url registry ≡ ok u)
        ↔ ((url (ascii "https://" ++ registry) ≡ some u) × IsOrigin registry u)
  unfolding registry_url
  registry_url-IsOrigin registry u = (
    (λ h. (ground arith, origin_of registry u (ground arith))),
    λ h. ground (arith, h.0, origin-is registry u h.1),
  )

module _ (url : Bytes → Option Url) (reference : Bytes → Option Bytes) where
  -- What a reference names, at a registry of the list of approved ones, by a digest.
  pub record Names (source : OciSource) (image_ref : Bytes) (r : Reference) : Type 0 where
    pub path : Bytes
    pub repository : Bytes
    pub hex : Bytes
    pub origin : Url
    pub small : length (bare_of image_ref) ≤ 2048
    pub registry : split_once b'/' (bare_of image_ref) ≡ some (r.registry, path)
    pub parsed : url (ascii "https://" ++ r.registry) ≡ some origin
    pub is_origin : IsOrigin r.registry origin
    pub approved : Among r.registry source.approved
    pub immutable : split_once b'@' path ≡ some (repository, r.digest)
    pub digest : r.digest ≡ ascii "sha256:" ++ hex
    pub canonical : IsHex64 hex
    pub known :
        reference (ascii "registry.example/" ++ repository ++ ascii "@" ++ r.digest)
        ≡ some r.repository

  parse-Names :
      (source : OciSource) (image_ref : Bytes) (r : Reference)
      → parse url reference source image_ref ≡ ok r
      → Names source image_ref r
  unfolding parse
  parse-Names source image_ref r h = elim (Option-cases (split_once b'/' (bare_of image_ref))) [
    | inl e ↦ absurd (ground (arith, e, h))
    | inr ((registry, path), e) ↦ elim (Result-cases (registry_url url registry)) [
      | inr (x, q) ↦ absurd (ground (arith, e, q, h))
      | inl (u, q) ↦ elim (Option-cases (split_once b'@' path)) [
        | inl k ↦ absurd (ground (arith, e, q, k, h))
        | inr ((repository, digest), k) ↦ elim (Result-cases (parse_digest digest)) [
          | inr (x, d) ↦ absurd (ground (arith, e, q, k, d, h))
          | inl (same, d) ↦
              elim (Option-cases
                (reference (ascii "registry.example/" ++ repository ++ ascii "@" ++ digest))) [
                  | inl n ↦ absurd (ground (arith, e, q, k, d, n, h))
                  | inr (parsed, n) ↦
                      let o = (registry_url-IsOrigin url registry u).0 q in
                      let c = (parse-ok_iff digest same).0 d in
                      let named : r
                          ≡ record { registry = registry; repository = parsed; digest = digest } =
                        ground (arith, e, q, k, d, n, h) in
                      let among : Among registry source.approved =
                        (contains-Among source.approved registry).0
                          (ground (arith, e, q, k, d, n, h)) in
                      rw named (record {
                        path = path;
                        repository = repository;
                        hex = c.1.0;
                        origin = u;
                        small = ground (arith, e, q, k, d, n, h);
                        registry = e;
                        parsed = o.0;
                        is_origin = o.1;
                        approved = among;
                        immutable = k;
                        digest = c.1.1;
                        canonical = c.1.2;
                        known = n;
                      })
                ]
        ]
      ]
    ]
  ]

  Names-parse :
      (source : OciSource) (image_ref : Bytes) (r : Reference)
      → Names source image_ref r
      → parse url reference source image_ref ≡ ok r
  unfolding parse
  Names-parse source image_ref r n =
      let q = (registry_url-IsOrigin url r.registry n.origin).1 (n.parsed, n.is_origin) in
      let c = (contains-Among source.approved r.registry).1 n.approved in
      let d = (parse-ok_iff r.digest r.digest).1 (refl, (n.hex, n.digest, n.canonical)) in
      ground (arith, n.small, n.registry, q, c, n.immutable, d, n.known)

  -- A reference is parsed exactly if it names a digest at an approved registry.
  pub parse-ok_iff_Names :
      (source : OciSource) (image_ref : Bytes) (r : Reference)
      → (parse url reference source image_ref ≡ ok r) ↔ Names source image_ref r
  parse-ok_iff_Names source image_ref r =
      (parse-Names source image_ref r, Names-parse source image_ref r)
