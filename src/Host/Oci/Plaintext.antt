-- ===== src/Host/Oci/Plaintext.antt =====
-- The requests that oci.rs makes without TLS.
use wasm_platform.Base.{
  ◌≡◌, ◌⊎◌, subst, Bool, true, Bytes, ascii, List, ◌∷◌, [], ◌++◌, Option, some, ok, bytes_eq,
  bytes_eq_iff, arith, ends_with, trim_matches, Among, Bool-cases, Option-cases, Result-cases, inl,
  inr,
}
use wasm_platform.Host.Oci.Registries.{
  Url, OciSource, Reference, contains, registry_url, is_local, host_of, is_bracket, check_plaintext,
  registry_list, new, endpoint,
}
use wasm_platform.Host.Oci.Approved.{IsOrigin, contains-Among, registry_url-IsOrigin}

abbrev pub Local : (Bytes → Bool) → Bytes → Type 0
Local loopback host =
    (host ≡ ascii "localhost")
    ⊎ (ends_with (ascii ".localhost") host ≡ true)
    ⊎ (loopback host ≡ true)

is_local-Local :
    (loopback : Bytes → Bool) (host : Bytes) → is_local loopback host ≡ true → Local loopback host
is_local-Local loopback host h = ground (arith, bytes_eq_iff host (ascii "localhost"), h)

module _ (url : Bytes → Option Url) (loopback : Bytes → Bool) where
  -- A registry that is an approved, local origin.
  pub record IsLocal (source : OciSource) (registry : Bytes) : Type 0 where
    pub approved : Among registry source.approved
    pub origin : Url
    pub parsed : url (ascii "https://" ++ registry) ≡ some origin
    pub is_origin : IsOrigin registry origin
    pub host : Bytes
    pub hosted : origin.host ≡ some host
    pub local : Local loopback (trim_matches is_bracket host)

  registry_url-IsLocal :
      (approved plaintext : List Bytes) (registry : Bytes) (u : Url)
      → registry_url url registry ≡ ok u
      → contains approved registry ≡ true
      → is_local loopback (host_of u) ≡ true
      → IsLocal (record { approved = approved; plaintext = plaintext }) registry
  registry_url-IsLocal approved plaintext registry u q a l =
      let o = (registry_url-IsOrigin url registry u).0 q in
      elim (Option-cases u.host) [
        | inl e ↦ absurd (o.1.host e)
        | inr (host, e) ↦ record {
          approved = (contains-Among approved registry).0 a;
          origin = u;
          parsed = o.0;
          is_origin = o.1;
          host = host;
          hosted = e;
          local = is_local-Local loopback (trim_matches is_bracket host) (ground (arith, e, l));
        }
      ]

  checked :
      (all approved plaintext : List Bytes) (registry : Bytes)
      → check_plaintext url loopback approved plaintext ≡ ok tt
      → contains plaintext registry ≡ true
      → IsLocal (record { approved = approved; plaintext = all }) registry
  unfolding check_plaintext contains
  checked all approved [] registry h c = absurd (ground arith)
  checked all approved (r ∷ plaintext) registry h c = elim (Result-cases (registry_url url r)) [
    | inr (e, q) ↦ absurd (ground arith)
    | inl (u, q) ↦ elim (Bool-cases (bytes_eq r registry)) [
      | inl b ↦
          let l = registry_url-IsLocal approved all r u q (ground arith) (ground arith) in
          subst (λ x. IsLocal (record { approved = approved; plaintext = all }) x)
            ((bytes_eq_iff r registry).0 b) l
      | inr b ↦ checked all approved plaintext registry (ground arith) (ground arith)
    ]
  ]

  new-checked :
      (approved plaintext registry : Bytes) (source : OciSource)
      → new url loopback approved plaintext ≡ ok source
      → contains source.plaintext registry ≡ true
      → IsLocal source registry
  unfolding new
  new-checked approved plaintext registry source h c =
      elim (Result-cases (registry_list url approved)) [
        | inr (e, q) ↦ absurd (ground arith)
        | inl (a, q) ↦ elim (Result-cases (registry_list url plaintext)) [
          | inr (e, p) ↦ absurd (ground arith)
          | inl (b, p) ↦ elim (Result-cases (check_plaintext url loopback a b)) [
            | inr (e, k) ↦ absurd (ground arith)
            | inl (u, k) ↦
                let same : record { approved = a; plaintext = b } ≡ source = ground arith in
                subst (λ x. IsLocal x registry) same (checked b a b registry k (ground arith))
          ]
        ]
      ]

  endpoint-plaintext :
      (source : OciSource) (r : Reference) (kind identity rest : Bytes)
      → endpoint source r kind identity ≡ ascii "http://" ++ rest
      → contains source.plaintext r.registry ≡ true
  unfolding endpoint
  endpoint-plaintext source r kind identity rest h = ground (arith, h)

  -- Every request that a configured source makes without TLS goes to a registry of its list of approved
  -- ones which is an origin, of the host `localhost`, a name under it, or a loopback address.
  pub new-IsLocal :
      (approved plaintext kind identity rest : Bytes) (source : OciSource) (r : Reference)
      → new url loopback approved plaintext ≡ ok source
      → endpoint source r kind identity ≡ ascii "http://" ++ rest
      → IsLocal source r.registry
  new-IsLocal approved plaintext kind identity rest source r h e =
      new-checked approved plaintext r.registry source h
        (endpoint-plaintext source r kind identity rest e)
