-- ===== src/Gateway/Requests/Admission.antt =====
-- The requests in flight at the gateway, and the counters of their ends.
use wasm_platform.Base.{
  ℕ, ◌+◌, ◌^◌, ◌%◌, ◌≤◌, ◌<◌, ◌≡◌, Bool, true, false, some, ok, err, ltb, Bytes, arith,
  Result-cases, Option-cases, Bool-cases, subst, sym, inl, inr, ◌↔◌,
}
use wasm_platform.Gateway.Routes.{RouteTable, RouteEntry, get}
use wasm_platform.Gateway.Requests.{
  RequestLimits, Request, Response, Supervisor, new, route_request, admit, drop_lease,
  method_allowed,
}

-- The supervisor with what a history of it counts: the leases that live, and the requests that reached
-- the admission.
pub data Reaches (limits : RequestLimits) : Supervisor → ℕ → ℕ → Type 0 where
  started : Reaches limits (new limits) 0 0
  refused :
      {s : Supervisor} {live arrived : ℕ}
      → (authorized closed : Bool) (req : Request) (table : RouteTable) (response : Response)
      → Reaches limits s live arrived
      → route_request authorized closed req table ≡ err response
      → Reaches limits (admit limits authorized closed req table s).0 live arrived
  full :
      {s : Supervisor} {live arrived : ℕ}
      → (authorized closed : Bool) (req : Request) (table : RouteTable) (subject : Bytes)
        (response : Response)
      → Reaches limits s live arrived
      → route_request authorized closed req table ≡ ok subject
      → (admit limits authorized closed req table s).1 ≡ err response
      → Reaches limits (admit limits authorized closed req table s).0 live (arrived + 1)
  admitted :
      {s : Supervisor} {live arrived : ℕ}
      → (authorized closed : Bool) (req : Request) (table : RouteTable) (subject : Bytes)
      → Reaches limits s live arrived
      → (admit limits authorized closed req table s).1 ≡ ok subject
      → Reaches limits (admit limits authorized closed req table s).0 (live + 1) (arrived + 1)
  ended :
      {s : Supervisor} {live arrived : ℕ}
      → (was_completed : Bool) → Reaches limits s (live + 1) arrived
      → Reaches limits (drop_lease was_completed s) live arrived

-- Permits and leases add up to the limit, which the high-water mark does not pass, and each request that
-- reached the admission is counted once: rejected, completed, cancelled or alive. The counters wrap.
pub record Accounted (limits : RequestLimits) (s : Supervisor) (live arrived : ℕ) : Type 0 where
  pub permits : s.available + live ≡ limits.in_flight
  pub mark : s.high_water ≤ limits.in_flight
  pub peak : live ≤ s.high_water
  pub counted : (s.rejected + s.completed + s.cancelled + live) % 2 ^ 64 ≡ arrived % 2 ^ 64

admit-refused :
    (limits : RequestLimits) (authorized closed : Bool) (req : Request) (table : RouteTable)
    (s : Supervisor) (response : Response)
    → route_request authorized closed req table ≡ err response
    → (admit limits authorized closed req table s).0 ≡ s
unfolding admit
admit-refused limits authorized closed req table s response h = ground arith

admit-full :
    (limits : RequestLimits) (authorized closed : Bool) (req : Request) (table : RouteTable)
    (s : Supervisor) (subject : Bytes) (response : Response) (live arrived : ℕ)
    → route_request authorized closed req table ≡ ok subject
    → (admit limits authorized closed req table s).1 ≡ err response
    → Accounted limits s live arrived
    → Accounted limits (admit limits authorized closed req table s).0 live (arrived + 1)
unfolding admit
admit-full limits authorized closed req table s subject response live arrived h q a =
    elim (Bool-cases (ltb 0 s.available)) [ inl e ↦ absurd (ground arith) | inr e ↦ ground arith ]

admit-admitted :
    (limits : RequestLimits) (authorized closed : Bool) (req : Request) (table : RouteTable)
    (s : Supervisor) (subject : Bytes) (live arrived : ℕ)
    → (admit limits authorized closed req table s).1 ≡ ok subject
    → Accounted limits s live arrived
    → Accounted limits (admit limits authorized closed req table s).0 (live + 1) (arrived + 1)
unfolding admit
admit-admitted limits authorized closed req table s subject live arrived q a =
    elim (Result-cases (route_request authorized closed req table)) [
      | inr (x, e) ↦ absurd (ground arith)
      | inl (x, e) ↦ elim (Bool-cases (ltb 0 s.available)) [
        | inl f ↦ ground arith
        | inr f ↦ absurd (ground arith)
      ]
    ]

drop_lease-Accounted :
    (limits : RequestLimits) (s : Supervisor) (live arrived : ℕ) (c : Bool)
    → Accounted limits s (live + 1) arrived
    → Accounted limits (drop_lease c s) live arrived
unfolding drop_lease
drop_lease-Accounted limits s live arrived c a = ground arith

-- In every state that the gateway reaches, the free permits and the live requests add up to the limit of
-- requests in flight, the high-water mark is between the live requests and that limit, and the requests
-- that reached the admission are, modulo 2 ^ 64, those counted as rejected, completed or cancelled and
-- the live ones.
pub Reaches-Accounted :
    (limits : RequestLimits) (s : Supervisor) (live arrived : ℕ)
    → Reaches limits s live arrived
    → Accounted limits s live arrived
Reaches-Accounted limits t k m started = ground arith
Reaches-Accounted limits t k m (refused {s} authorized closed req table response r h) =
    subst (λ x. Accounted limits x k m)
      (sym (admit-refused limits authorized closed req table s response h))
      (Reaches-Accounted limits s k m r)
Reaches-Accounted limits t k m
      (full {s} {live} {arrived} authorized closed req table subject response r h q) =
    admit-full limits authorized closed req table s subject response live arrived h q
      (Reaches-Accounted limits s live arrived r)
Reaches-Accounted limits t k m
      (admitted {s} {live} {arrived} authorized closed req table subject r q) =
    admit-admitted limits authorized closed req table s subject live arrived q
      (Reaches-Accounted limits s live arrived r)
Reaches-Accounted limits t k m (ended {s} c r) =
    drop_lease-Accounted limits s k m c (Reaches-Accounted limits s (k + 1) m r)

-- What `handle` lets through to the admission.
pub record Routed (authorized closed : Bool) (req : Request) (table : RouteTable) (subject : Bytes)
    : Type 0 where
  pub route : RouteEntry
  pub authority : authorized ≡ true
  pub publisher : closed ≡ false
  pub found : get req.path table ≡ some route
  pub method : method_allowed req.method route.methods ≡ true
  pub subject_of : subject ≡ route.nats_subject

-- A request gets a lease exactly if the configuration's authority is held, its path has a route, that
-- route allows its method (any, if it lists none, and otherwise one that it lists, in any ASCII case) and
-- a permit is free; its subject is then the route's.
pub admit-ok_iff :
    (limits : RequestLimits) (authorized closed : Bool) (req : Request) (table : RouteTable)
    (s : Supervisor) (subject : Bytes)
    → ((admit limits authorized closed req table s).1 ≡ ok subject)
      ↔ (Routed authorized closed req table subject × (0 < s.available))
unfolding admit route_request
admit-ok_iff limits authorized closed req table s subject =
    elim (Option-cases (get req.path table)) [ inl e ↦ ground arith | inr (r, e) ↦ ground arith ]
