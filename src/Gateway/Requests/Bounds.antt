-- ===== src/Gateway/Requests/Bounds.antt =====
-- What `dispatch` of supervisor.rs sends to the broker.
use wasm_platform.Base.{
  ℕ, ◌≤◌, ◌≡◌, refl, ◌∙◌, ◌↔◌, true, false, List, ◌∷◌, [], ◌++◌, append_assoc, append-nil,
  length-append, Option, none, some, ok, leb, length, Bytes, arith, Option-cases, Result-cases, inl,
  inr,
}
use wasm_platform.Gateway.Requests.{
  RequestLimits, Request, HttpRequestPayload, Circumstances, read_body, write_all, metadata_bytes,
  declared_length, payload_of, prepare,
}

abbrev pub concat : List Bytes → Bytes
concat [] = []
concat (b ∷ bs) = b ++ concat bs

-- The bytes of a body whose chunks could all be read.
abbrev pub gathered : List (Option Bytes) → Option Bytes
gathered [] = some []
gathered (none ∷ chunks) = none
gathered (some chunk ∷ chunks) = elim (gathered chunks) [ none ↦ none | some b ↦ some (chunk ++ b) ]

-- A body is read exactly if all its chunks are and they have at most the limit's bytes together.
abbrev pub Fits : ℕ → List (Option Bytes) → Bytes → Bytes → Type 0
Fits limit chunks bytes body =
    (b : Bytes) × (gathered chunks ≡ some b) × (body ≡ bytes ++ b) × (length body ≤ limit)

read_body-Fits :
    (limit : ℕ) (chunks : List (Option Bytes)) (bytes body : Bytes)
    → length bytes ≤ limit
    → read_body limit chunks bytes ≡ ok body
    → Fits limit chunks bytes body
unfolding read_body
read_body-Fits limit [] bytes body l h = ([], refl, ground (arith, append-nil bytes), ground arith)
read_body-Fits limit (none ∷ chunks) bytes body l h = absurd (ground arith)
read_body-Fits limit (some chunk ∷ chunks) bytes body l h =
    let size = length-append bytes chunk in
    let r =
      read_body-Fits limit chunks (bytes ++ chunk) body (ground (arith, size)) (ground arith) in
    (chunk ++ r.0, ground (arith, r.1), r.2 ∙ append_assoc bytes chunk r.0, r.3)

Fits-read_body :
    (limit : ℕ) (chunks : List (Option Bytes)) (bytes b : Bytes)
    → gathered chunks ≡ some b
    → length (bytes ++ b) ≤ limit
    → read_body limit chunks bytes ≡ ok (bytes ++ b)
unfolding read_body
Fits-read_body limit [] bytes b g l = ground (arith, append-nil bytes)
Fits-read_body limit (none ∷ chunks) bytes b g l = absurd (ground arith)
Fits-read_body limit (some chunk ∷ chunks) bytes b g l = elim (Option-cases (gathered chunks)) [
  | inl e ↦ absurd (ground arith)
  | inr (c, e) ↦
      let q : b ≡ chunk ++ c = ground arith in
      let assoc = append_assoc bytes chunk c in
      let l' : length ((bytes ++ chunk) ++ c) ≤ limit = ground (arith, assoc, q) in
      ground (
        arith,
        q,
        assoc,
        Fits-read_body limit chunks (bytes ++ chunk) c e l',
        length-append (bytes ++ chunk) c,
        length-append bytes chunk,
      )
]

write_all-ok :
    (limit : ℕ) (pieces : List Bytes) (bytes out : Bytes)
    → length bytes ≤ limit
    → write_all limit pieces bytes ≡ some out
    → (out ≡ bytes ++ concat pieces) × (length out ≤ limit)
unfolding write_all
write_all-ok limit [] bytes out l h = (ground (arith, append-nil bytes), ground arith)
write_all-ok limit (p ∷ ps) bytes out l h =
    let r =
      write_all-ok limit ps (bytes ++ p) out (ground (arith, length-append bytes p))
        (ground arith) in
    (r.0 ∙ append_assoc bytes p (concat ps), r.1)

ok-write_all :
    (limit : ℕ) (pieces : List Bytes) (bytes : Bytes)
    → length (bytes ++ concat pieces) ≤ limit
    → write_all limit pieces bytes ≡ some (bytes ++ concat pieces)
unfolding write_all
ok-write_all limit [] bytes l = ground (arith, append-nil bytes)
ok-write_all limit (p ∷ ps) bytes l =
    let assoc = append_assoc bytes p (concat ps) in
    let l' : length ((bytes ++ p) ++ concat ps) ≤ limit = ground (arith, assoc) in
    ground (
      arith,
      assoc,
      ok-write_all limit ps (bytes ++ p) l',
      length-append (bytes ++ p) (concat ps),
      length-append bytes p,
    )

abbrev pub AtMost : ℕ → Option ℕ → Type 0
AtMost limit none = Unit {0}
AtMost limit (some n) = n ≤ limit

declared-AtMost :
    (declared : Option ℕ) (limit : ℕ)
    → (elim declared [ none ↦ true | some n ↦ leb n limit ]) ≡ true
    → AtMost limit declared
declared-AtMost none limit h = tt
declared-AtMost (some n) limit h = ground arith

module _ (to_str : Bytes → Option Bytes) (parse_u64 : Bytes → Option ℕ)
    (serialize : HttpRequestPayload → List Bytes) where
  -- A request that may be sent, and its bytes.
  pub record Sendable (limits : RequestLimits) (c : Circumstances) (req : Request) (bytes : Bytes)
      : Type 0 where
    pub body : Bytes
    pub metadata : metadata_bytes req ≤ limits.metadata_bytes
    pub declared : AtMost limits.body_bytes (declared_length to_str parse_u64 serialize req)
    pub broker : c.available ≡ true
    pub read_in_time : c.read_expired ≡ false
    pub complete : gathered req.body ≡ some body
    pub small : length body ≤ limits.body_bytes
    pub written : bytes ≡ concat (serialize (payload_of to_str parse_u64 serialize req body))
    pub fits : length bytes ≤ limits.payload_bytes
    pub in_time : c.late ≡ false
    pub authority : c.authorized ≡ true

  prepare-Sendable :
      (limits : RequestLimits) (c : Circumstances) (req : Request) (bytes : Bytes)
      → prepare to_str parse_u64 serialize limits c req ≡ ok bytes
      → Sendable limits c req bytes
  unfolding prepare
  prepare-Sendable limits c req bytes h =
      elim (Result-cases (read_body limits.body_bytes req.body [])) [
        | inr (x, e) ↦ absurd (ground arith)
        | inl (body, e) ↦
            elim (Option-cases (
              write_all limits.payload_bytes
                (serialize (payload_of to_str parse_u64 serialize req body)) [])) [
                  | inl w ↦ absurd (ground arith)
                  | inr (out, w) ↦
                      let r = read_body-Fits limits.body_bytes req.body [] body (ground arith) e in
                      let o = write_all-ok limits.payload_bytes _ [] out (ground arith) w in
                      record {
                        body = body;
                        metadata = ground arith;
                        declared =
                            declared-AtMost (declared_length to_str parse_u64 serialize req)
                              limits.body_bytes (ground arith);
                        broker = ground arith;
                        read_in_time = ground arith;
                        complete = ground (arith, r.1, r.2);
                        small = r.3;
                        written = ground (arith, o.0);
                        fits = ground (arith, o.1);
                        in_time = ground arith;
                        authority = ground arith;
                      }
                ]
      ]

  Sendable-prepare :
      (limits : RequestLimits) (c : Circumstances) (req : Request) (bytes : Bytes)
      → Sendable limits c req bytes
      → prepare to_str parse_u64 serialize limits c req ≡ ok bytes
  unfolding prepare
  Sendable-prepare limits c req bytes d =
      let r = Fits-read_body limits.body_bytes req.body [] d.body d.complete d.small in
      let pieces = serialize (payload_of to_str parse_u64 serialize req d.body) in
      let w = ok-write_all limits.payload_bytes pieces [] (ground (arith, d.written, d.fits)) in
      elim (Option-cases (declared_length to_str parse_u64 serialize req)) [
        | inl e ↦ ground (
          arith, e, r, w, d.metadata, d.broker, d.read_in_time, d.written, d.in_time, d.authority,
        )
        | inr (n, e) ↦ ground (
          arith, e, d.declared, r, w, d.metadata, d.broker, d.read_in_time, d.written, d.in_time,
          d.authority,
        )
      ]

  -- The bytes that a dispatch sends to the broker: exactly if the metadata, the declared and the read
  -- length of the body and the serialized payload are within their limits, every chunk was read in time,
  -- the broker is available, the deadline is not over and the authority is held; then they are the
  -- serialization of the request with the whole body.
  pub prepare-ok_iff :
      (limits : RequestLimits) (c : Circumstances) (req : Request) (bytes : Bytes)
      → (prepare to_str parse_u64 serialize limits c req ≡ ok bytes) ↔ Sendable limits c req bytes
  prepare-ok_iff limits c req bytes =
      (prepare-Sendable limits c req bytes, Sendable-prepare limits c req bytes)
