-- ===== src/Gateway/Requests.antt =====
-- The requests of the gateway: `RequestSupervisor` of components/gateway/src/supervisor.rs, with the limits
-- of config.rs. The clock, the body stream, the broker and serde_json are arguments.
pub mod Bounds
pub mod Admission
use wasm_platform.Base.{
  ℕ, ◌+◌, ◌-◌, ◌^◌, ◌%◌, min, max, Bool, true, false, not, ◌&&◌, ◌||◌, List, ◌∷◌, [], ◌++◌, map,
  sum, Option, none, some, if◌then◌else◌, Result, ok, err, ◌>>=◌, ◌>>◌, ensure, or_fail, map_err,
  leb, ltb, length, Bytes, bytes_eq, bytes_discrete, ascii, add_u64, ◌⊎◌, inl, inr,
}
use wasm_platform.Base.Map.{get as map_get, insert as map_insert}
use wasm_platform.Gateway.Routes.{RouteEntry, RouteTable, get}
use wasm_platform.Gateway.Pending.{RequestError, unavailable, payload_too_large, failed, timeout}

pub record RequestLimits : Type 0 where
  pub in_flight : ℕ
  pub connections : ℕ
  pub body_bytes : ℕ
  pub payload_bytes : ℕ
  pub metadata_bytes : ℕ
  pub body_read_timeout : ℕ
  pub request_timeout : ℕ

-- The body is its chunks, where `none` is a chunk that could not be read.
pub record Request : Type 0 where
  pub uri : Bytes
  pub path : Bytes
  pub query : Option Bytes
  pub method : Bytes
  pub headers : List (Bytes × Bytes)
  pub body : List (Option Bytes)

pub record HttpRequestPayload : Type 0 where
  pub method : Bytes
  pub path : Bytes
  pub query : Bytes
  pub headers : List (Bytes × Bytes)
  pub body : Option Bytes

pub record HttpResponsePayload : Type 0 where
  pub status : ℕ
  pub headers : List (Bytes × Bytes)
  pub body : Option Bytes

pub record Response : Type 0 where
  pub status : ℕ
  pub headers : List (Bytes × Bytes)
  pub body : Bytes

-- `StatusCode::into_response`.
abbrev pub status_only : ℕ → Response
status_only code = record { status = code; headers = []; body = [] }

abbrev pub to_lower : ℕ → ℕ
to_lower c = if leb 65 c && leb c 90 then c + 32 else c

abbrev pub eq_ignore_ascii_case : Bytes → Bytes → Bool
eq_ignore_ascii_case a b = bytes_eq (map to_lower a) (map to_lower b)

abbrev pub any_method : Bytes → List Bytes → Bool
any_method method [] = false
any_method method (m ∷ ms) = eq_ignore_ascii_case m method || any_method method ms

abbrev pub method_allowed : Bytes → List Bytes → Bool
method_allowed method [] = true
method_allowed method (m ∷ ms) = any_method method (m ∷ ms)

-- `join(", ")`.
abbrev pub join : List Bytes → Bytes
join [] = []
join (m ∷ []) = m
join (m ∷ n ∷ ms) = m ++ ascii ", " ++ join (n ∷ ms)

-- The checks of `handle` before the admission: `closed` says that the publisher of the authority is gone.
unfoldable pub route_request : Bool → Bool → Request → RouteTable → Result Response Bytes
route_request authorized closed req table =
    if not authorized || closed then err (status_only 503) else (elim (get req.path table) [
      | none ↦ err (status_only 404)
      | some route ↦
          if method_allowed req.method route.methods
          then ok route.nats_subject
          else err (record {
            status = 405;
            headers = (ascii "allow", join route.methods) ∷ [];
            body = [];
          })
    ])

pub record Supervisor : Type 0 where
  pub available : ℕ
  pub high_water : ℕ
  pub rejected : ℕ
  pub completed : ℕ
  pub cancelled : ℕ

abbrev pub new : RequestLimits → Supervisor
new limits = record {
  available = limits.in_flight;
  high_water = 0;
  rejected = 0;
  completed = 0;
  cancelled = 0;
}

-- The admission of `handle`: the subject to dispatch to, under a lease, or the response.
unfoldable pub admit :
    RequestLimits
    → Bool
    → Bool
    → Request
    → RouteTable
    → Supervisor
    → Supervisor × Result Response Bytes
admit limits authorized closed req table s = elim (route_request authorized closed req table) [
  | err response ↦ (s, err response)
  | ok subject ↦
      if ltb 0 s.available
      then (
        record s {
          available = s.available - 1;
          high_water = max s.high_water (limits.in_flight - (s.available - 1));
        },
        ok subject,
      )
      else (record s { rejected = add_u64 s.rejected 1 }, err (status_only 503))
]

-- The drop of a `RequestLease`, which frees its permit.
unfoldable pub drop_lease : Bool → Supervisor → Supervisor
drop_lease was_completed s =
    if was_completed
    then record s { available = s.available + 1; completed = add_u64 s.completed 1 }
    else record s { available = s.available + 1; cancelled = add_u64 s.cancelled 1 }

-- `read_body`, from the bytes read so far.
unfoldable pub read_body : ℕ → List (Option Bytes) → Bytes → Result ℕ Bytes
read_body limit [] bytes = ok bytes
read_body limit (none ∷ chunks) bytes = err 400
read_body limit (some chunk ∷ chunks) bytes =
    let rest = read_body limit chunks (bytes ++ chunk) in
    if ltb (limit - length bytes) (length chunk) then err 413 else rest

-- The writes of a serializer into a `BoundedPayload`.
unfoldable pub write_all : ℕ → List Bytes → Bytes → Option Bytes
write_all limit [] bytes = some bytes
write_all limit (piece ∷ pieces) bytes =
    let rest = write_all limit pieces (bytes ++ piece) in
    if ltb (limit - length bytes) (length piece) then none else rest

abbrev pub metadata_bytes : Request → ℕ
metadata_bytes req =
    length req.uri + length req.method + sum (map (λ h. length h.0 + length h.1) req.headers)

-- What the clock and the authority say during a dispatch: whether the body's deadline passes before the
-- body is read, whether the request's deadline passed then, and whether the authority is still held.
pub record Circumstances : Type 0 where
  pub read_expired : Bool
  pub late : Bool
  pub authorized : Bool
  pub available : Bool

-- `to_str` and `parse_u64` are those of the header values, `serialize` gives the pieces that serde_json
-- writes.
module _ (to_str : Bytes → Option Bytes) (parse_u64 : Bytes → Option ℕ)
    (serialize : HttpRequestPayload → List Bytes) where
  abbrev pub declared_length : Request → Option ℕ
  declared_length req = elim (map_get bytes_discrete (ascii "content-length") req.headers) [
    | none ↦ none
    | some value ↦ elim (to_str value) [ none ↦ none | some text ↦ parse_u64 text ]
  ]

  abbrev pub text_headers : List (Bytes × Bytes) → List (Bytes × Bytes)
  text_headers [] = []
  text_headers ((name, value) ∷ hs) = elim (to_str value) [
    | none ↦ text_headers hs
    | some text ↦ (name, text) ∷ text_headers hs
  ]

  abbrev pub body_option : Bytes → Option Bytes
  body_option [] = none
  body_option (b ∷ bs) = some (b ∷ bs)

  unfoldable pub payload_of : Request → Bytes → HttpRequestPayload
  payload_of req body = record {
    method = req.method;
    path = req.path;
    query = elim req.query [ none ↦ [] | some q ↦ q ];
    headers = text_headers req.headers;
    body = body_option body;
  }

  -- `dispatch` up to the request to the broker: the bytes to send, or a status.
  unfoldable pub prepare : RequestLimits → Circumstances → Request → Result ℕ Bytes
  prepare limits c req = do
    ensure (leb (metadata_bytes req) limits.metadata_bytes) 431
    ensure (elim (declared_length req) [ none ↦ true | some n ↦ leb n limits.body_bytes ]) 413
    ensure c.available 503
    ensure (not c.read_expired) 408
    body ← read_body limits.body_bytes req.body []
    bytes ← or_fail (write_all limits.payload_bytes (serialize (payload_of req body)) []) 413
    ensure (not c.late) 504
    ensure c.authorized 503
    ok bytes

abbrev pub status_of : RequestError → ℕ
status_of unavailable = 503
status_of payload_too_large = 413
status_of failed = 502
status_of timeout = 504

-- `HeaderName::from_bytes` and `HeaderValue::from_str` are arguments; `insert` replaces a header.
module _ (header_name : Bytes → Option Bytes) (header_value : Bytes → Option Bytes) where
  unfoldable pub header_map : List (Bytes × Bytes) → List (Bytes × Bytes) → List (Bytes × Bytes)
  header_map [] headers = headers
  header_map ((name, value) ∷ hs) headers = elim (header_name name) [
    | none ↦ header_map hs headers
    | some n ↦ elim (header_value value) [
      | none ↦ header_map hs headers
      | some v ↦ header_map hs (map_insert bytes_discrete n v headers)
    ]
  ]

  -- `decode_response`, of the payload that serde_json reads, if it reads one.
  unfoldable pub decode_response : Option HttpResponsePayload → Response
  decode_response none = status_only 502
  decode_response (some r) = record {
    status = if leb 100 r.status && leb r.status 999 then r.status else 500;
    headers = header_map r.headers [];
    body = elim r.body [ none ↦ [] | some b ↦ b ];
  }

  -- `dispatch`: `broker` publishes and awaits the reply, `parse` is serde_json's reader.
  unfoldable pub dispatch :
      (Bytes → Bytes → Result RequestError Bytes)
      → (Bytes → Option HttpResponsePayload)
      → Result ℕ Bytes
      → Bytes
      → Response
  dispatch broker parse (err status) subject = status_only status
  dispatch broker parse (ok bytes) subject = elim (broker subject bytes) [
    | err e ↦ status_only (status_of e)
    | ok reply ↦ decode_response (parse reply)
  ]
