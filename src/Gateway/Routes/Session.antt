-- ===== src/Gateway/Routes/Session.antt =====
-- When route_sync.rs publishes authority over the requests, and how long it waits between sessions.
use wasm_platform.Base.{
  ℕ, ◌≤◌, ◌≡◌, refl, ◌↔◌, ◌++◌, true, false, List, ◌∷◌, [], none, some, arith, Option-cases, inl,
  inr, sym, ◌∙◌,
}
use wasm_platform.Gateway.Routes.{
  FullRoutesResponse, RouteTable, SyncState, StreamEvent, message, failure, Answers, replace_all,
  routes_of, RouteUpdate, apply_update, apply_updates, fetch_full_routes, follow, run_route_sync,
  sync_turn, sync_turns,
}

-- The updates that a stream brings until it fails, or until an acknowledgement cannot be sent.
abbrev pub received : List StreamEvent → List RouteUpdate
received [] = []
received (failure ∷ es) = []
received (message none acked ∷ es) = received es
received (message (some c) true ∷ es) = c.updates ++ received es
received (message (some c) false ∷ es) = c.updates

apply_updates-append :
    (us vs : List RouteUpdate) (t : RouteTable)
    → apply_updates (us ++ vs) t ≡ apply_updates vs (apply_updates us t)
unfolding apply_updates
apply_updates-append [] vs t = refl
apply_updates-append (u ∷ us) vs t = apply_updates-append us vs (apply_update u t)

follow-table :
    (es : List StreamEvent) (s : SyncState)
    → (follow es s).0.table ≡ apply_updates (received es) s.table
unfolding follow
follow-table [] s = unfold apply_updates in refl
follow-table (failure ∷ es) s = unfold apply_updates in refl
follow-table (message none acked ∷ es) s = follow-table es s
follow-table (message (some c) true ∷ es) s =
    follow-table es (record s { table = apply_updates c.updates s.table })
    ∙ sym (apply_updates-append c.updates (received es) s.table)
follow-table (message (some c) false ∷ es) s = refl

follow-synced : (es : List StreamEvent) (s : SyncState) → (follow es s).0.synced ≡ s.synced
unfolding follow
follow-synced [] s = refl
follow-synced (failure ∷ es) s = refl
follow-synced (message none acked ∷ es) s = follow-synced es s
follow-synced (message (some c) acked ∷ es) s =
    ground (arith, follow-synced es (record s { table = apply_updates c.updates s.table }))

-- The operator accepted the session, and the table is its snapshot with the updates that the stream brought.
pub record Authoritative (a : Answers) (s : SyncState) : Type 0 where
  pub response : FullRoutesResponse
  pub answered : a.snapshot ≡ some response
  pub accepted : response.success ≡ true
  pub opened : a.opens ≡ true
  pub registered : a.first_ack ≡ true
  pub current : s.table ≡ apply_updates (received a.events) (replace_all (routes_of response) [])

-- A session that starts without authority ends with it exactly if the operator accepted it (a snapshot
-- with success, a stream that opened, a first acknowledgement that could be sent) and the table is that
-- snapshot with the updates of the stream applied in order, whatever the table held before.
pub run_route_sync-synced_iff :
    (a : Answers) (s : SyncState)
    → s.synced ≡ false
    → ((run_route_sync a s).0.synced ≡ true) ↔ Authoritative a (run_route_sync a s).0
unfolding run_route_sync fetch_full_routes replace_all
run_route_sync-synced_iff a s h = elim (Option-cases a.snapshot) [
  | inl e ↦ ground (arith, e)
  | inr (r, e) ↦
      let s' : SyncState = record { table = replace_all (routes_of r) s.table; synced = true } in
      ground (arith, e, follow-synced a.events s', follow-table a.events s')
]

sync_turn-bounds :
    (a : Answers) (b : ℕ) (s : SyncState)
    → 1 ≤ b
    → b ≤ 30
    → (1 ≤ (sync_turn a (b, s)).0) × ((sync_turn a (b, s)).0 ≤ 30)
unfolding sync_turn
sync_turn-bounds a b s l h = ground arith

-- Between sessions there is no authority, and the wait stays between 1 and 30 seconds, however the
-- sessions ended, if it starts there.
pub sync_turns-bounds :
    (rest : List Answers) (b : ℕ) (s : SyncState)
    → 1 ≤ b
    → b ≤ 30
    → s.synced ≡ false
    → (1 ≤ (sync_turns rest (b, s)).0)
      × ((sync_turns rest (b, s)).0 ≤ 30)
      × ((sync_turns rest (b, s)).1.synced ≡ false)
unfolding sync_turns
sync_turns-bounds [] b s l h f = (l, h, f)
sync_turns-bounds (a ∷ rest) b s l h f =
    let k = sync_turn-bounds a b s l h in
    sync_turns-bounds rest (sync_turn a (b, s)).0 (sync_turn a (b, s)).1 k.0 k.1
      (unfold sync_turn in refl)
