-- ===== src/Gateway/Tests.antt =====
-- The properties of components/gateway on concrete routes, replies and requests.
use wasm_platform.Base.{
  ℕ, ◌≡◌, ◌↔◌, refl, true, false, Bytes, ascii, List, ◌∷◌, [], ◌++◌, none, some, ok, arith,
  bytes_discrete, ℕ_discrete, bytes_eq,
}
use wasm_platform.Base.Map.{get as map_get}
use wasm_platform.Gateway.Routes.{
  RouteConfig, RouteUpdate, RouteTable, Answers, SyncState, message, failure, get, entry_of,
  run_route_sync,
}
use wasm_platform.Gateway.Routes.Session.{Authoritative, run_route_sync-synced_iff}
use wasm_platform.Gateway.Pending.{
  PendingState, Event, reserves, delivers, drops, retires, System, start, run,
}
use wasm_platform.Gateway.Pending.Invariant.{IsValid}
use wasm_platform.Gateway.Pending.Delivery.{IsRouted, run-IsRouted}
use wasm_platform.Gateway.Requests.{
  RequestLimits, Request, HttpRequestPayload, Circumstances, Supervisor, new, admit, route_request,
  prepare, drop_lease,
}
use wasm_platform.Gateway.Requests.Bounds.{Sendable, prepare-ok_iff}
use wasm_platform.Gateway.Requests.Admission.{
  Accounted, Reaches, started, admitted, ended, Reaches-Accounted,
}

abbrev route : RouteConfig
route = record { path = ascii "/a"; methods = ascii "get" ∷ []; nats_subject = ascii "s" }

abbrev table : RouteTable
table = (ascii "/a", entry_of route) ∷ []

abbrev updates : List RouteUpdate
updates =
    record { route = some route; delete = false }
    ∷ record { route = some route; delete = true }
    ∷ []

abbrev answers : Answers
answers = record {
  snapshot = some (record { routes = route ∷ []; success = true });
  opens = true;
  first_ack = true;
  events = message (some (record { updates = updates; version = ascii "1" })) true ∷ failure ∷ [];
}

abbrev unsynced : SyncState
unsynced = record { table = table; synced = false }

run_route_sync-synced_iff_example :
    ((run_route_sync answers unsynced).0.synced ≡ true)
    ↔ Authoritative answers (run_route_sync answers unsynced).0
run_route_sync-synced_iff_example = run_route_sync-synced_iff answers unsynced refl

-- Senders and replies that are numbers.
abbrev idle : System ℕ ℕ
idle = start

abbrev history : List (Event ℕ ℕ)
history = reserves 7 ∷ reserves 8 ∷ delivers 0 42 ∷ delivers 0 43 ∷ drops 1 ∷ retires ∷ []

idle-IsValid : IsValid 2 idle.state
unfolding map_get
idle-IsValid = record {
  bounded = ground arith;
  distinct = tt;
  known = λ id s h. absurd (ground arith);
  closed = λ h. refl;
  word = ground arith;
}

idle-IsRouted : IsRouted idle
unfolding map_get
idle-IsRouted = record {
  waiting = λ k s h. absurd (ground arith);
  given = λ k s h. absurd (ground arith);
  once = tt;
  sent = λ k d h. absurd (ground arith);
  gone = λ k d h. refl;
  single = tt;
}

run-IsRouted_example : IsRouted (run 2 history idle)
run-IsRouted_example = run-IsRouted 2 history idle idle-IsValid idle-IsRouted

abbrev waiting_one : ℕ × PendingState ℕ
waiting_one = (0, record { next_id = 1; retired = false; replies = (0, 7) ∷ [] })

abbrev limits : RequestLimits
limits = record {
  in_flight = 1;
  connections = 2;
  body_bytes = 8;
  payload_bytes = 16;
  metadata_bytes = 64;
  body_read_timeout = 5;
  request_timeout = 30;
}

abbrev request : Request
request = record {
  uri = ascii "/a";
  path = ascii "/a";
  query = none;
  method = ascii "GET";
  headers = [];
  body = some (1 ∷ 2 ∷ []) ∷ some (3 ∷ []) ∷ [];
}

-- A serializer that writes the path and the body.
abbrev pieces : HttpRequestPayload → List Bytes
pieces p = p.path ∷ (elim p.body [ none ↦ [] | some b ↦ b ∷ [] ])

abbrev circumstances : Circumstances
circumstances = record { read_expired = false; late = false; authorized = true; available = true }

prepare-ok_iff_example :
    (prepare some (λ _. none) pieces limits circumstances request
      ≡ ok (ascii "/a" ++ 1 ∷ 2 ∷ 3 ∷ []))
    ↔ Sendable some (λ _. none) pieces limits circumstances request (ascii "/a" ++ 1 ∷ 2 ∷ 3 ∷ [])
prepare-ok_iff_example =
    prepare-ok_iff some (λ _. none) pieces limits circumstances request
      (ascii "/a" ++ 1 ∷ 2 ∷ 3 ∷ [])

lets_in : (admit limits true false request table (new limits)).1 ≡ ok (ascii "s")
unfolding admit route_request get map_get bytes_eq bytes_discrete ℕ_discrete
lets_in = refl

abbrev busy : Supervisor
busy = (admit limits true false request table (new limits)).0

reaches : Reaches limits (drop_lease true busy) 0 1
reaches = ended true (admitted true false request table (ascii "s") started lets_in)

Reaches-Accounted_example : Accounted limits (drop_lease true busy) 0 1
Reaches-Accounted_example = Reaches-Accounted limits (drop_lease true busy) 0 1 reaches
