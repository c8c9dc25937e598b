-- ===== src/Gateway/Routes.antt =====
-- components/gateway/src/route_table.rs, and how route_sync.rs applies snapshots and updates to it.
pub mod Lookup
pub mod Session
use wasm_platform.Base.{
  ℕ, ◌*◌, min, ◌≡◌, Bool, true, false, not, List, ◌∷◌, [], Option, none, some, if◌then◌else◌,
  Result, ok, err, Bytes, bytes_discrete, map,
}
use wasm_platform.Base.Map.{get as map_get, insert as map_insert, remove as map_remove}

-- `RouteConfig`, `RouteUpdate`, `RouteUpdateConfig` and `FullRoutesResponse` of the protocol.
pub record RouteConfig : Type 0 where
  pub path : Bytes
  pub methods : List Bytes
  pub nats_subject : Bytes

pub record RouteUpdate : Type 0 where
  pub route : Option RouteConfig
  pub delete : Bool

pub record RouteUpdateConfig : Type 0 where
  pub updates : List RouteUpdate
  pub version : Bytes

pub record FullRoutesResponse : Type 0 where
  pub routes : List RouteConfig
  pub success : Bool

pub record RouteEntry : Type 0 where
  pub methods : List Bytes
  pub nats_subject : Bytes

abbrev pub RouteTable : Type 0
RouteTable = List (Bytes × RouteEntry)

unfoldable pub upsert : Bytes → RouteEntry → RouteTable → RouteTable
upsert path entry table = map_insert bytes_discrete path entry table

unfoldable pub remove : Bytes → RouteTable → RouteTable
remove path table = map_remove bytes_discrete path table

unfoldable pub get : Bytes → RouteTable → Option RouteEntry
get path table = map_get bytes_discrete path table

-- The loop of `replace_all`, on a table that it emptied.
unfoldable pub insert_routes : List (Bytes × RouteEntry) → RouteTable → RouteTable
insert_routes [] table = table
insert_routes ((path, entry) ∷ routes) table =
    insert_routes routes (map_insert bytes_discrete path entry table)

unfoldable pub replace_all : List (Bytes × RouteEntry) → RouteTable → RouteTable
unfolding insert_routes
replace_all routes table = insert_routes routes []

abbrev pub entry_of : RouteConfig → RouteEntry
entry_of r = record { methods = r.methods; nats_subject = r.nats_subject }

-- The body of the loop over the updates of a message.
unfoldable pub apply_update : RouteUpdate → RouteTable → RouteTable
apply_update u table = elim u.route [
  | none ↦ table
  | some route ↦
      if u.delete then remove route.path table else upsert route.path (entry_of route) table
]

unfoldable pub apply_updates : List RouteUpdate → RouteTable → RouteTable
apply_updates [] table = table
apply_updates (u ∷ us) table = apply_updates us (apply_update u table)

-- What a session changes: the table, and the authority that it publishes.
pub record SyncState : Type 0 where
  pub table : RouteTable
  pub synced : Bool

pub data SyncError : Type 0 where
  snapshot_failed snapshot_rejected stream_failed : SyncError

abbrev pub routes_of : FullRoutesResponse → List (Bytes × RouteEntry)
routes_of response = map (λ r. (r.path, entry_of r)) response.routes

-- No answer stands for a connection, a token or a call that failed.
unfoldable pub fetch_full_routes :
    Option FullRoutesResponse → RouteTable → Result SyncError RouteTable
fetch_full_routes none table = err snapshot_failed
fetch_full_routes (some response) table =
    if response.success then ok (replace_all (routes_of response) table) else err snapshot_rejected

-- What the update stream brings: a message and whether its acknowledgement can be sent, or a failure.
-- The list ends where the stream is closed.
pub data StreamEvent : Type 0 where
  message : Option RouteUpdateConfig → Bool → StreamEvent
  failure : StreamEvent

unfoldable pub follow : List StreamEvent → SyncState → SyncState × Result SyncError (Unit {0})
follow [] s = (s, ok tt)
follow (failure ∷ events) s = (s, err stream_failed)
follow (message none acked ∷ events) s = follow events s
follow (message (some config) acked ∷ events) s =
    let s' : SyncState = record s { table = apply_updates config.updates s.table } in
    let rest = follow events s' in if acked then rest else (s', ok tt)

-- What the operator answers to one session: the snapshot, whether the stream opens, whether the first
-- acknowledgement can be sent, and the stream.
pub record Answers : Type 0 where
  pub snapshot : Option FullRoutesResponse
  pub opens : Bool
  pub first_ack : Bool
  pub events : List StreamEvent

unfoldable pub run_route_sync : Answers → SyncState → SyncState × Result SyncError (Unit {0})
run_route_sync a s = elim (fetch_full_routes a.snapshot s.table) [
  | err e ↦ (s, err e)
  | ok table ↦
      let s' : SyncState = record s { table = table } in
      let rest = follow a.events (record s' { synced = true }) in
      if not a.opens then (s', err stream_failed) else if not a.first_ack then (s', ok tt) else rest
]

-- One turn of `run_route_sync_loop`: the seconds to wait, after the authority is revoked. A session that
-- expires is one whose stream fails.
unfoldable pub sync_turn : Answers → ℕ × SyncState → ℕ × SyncState
sync_turn a (backoff, s) =
    let r = run_route_sync a s in
    let reset = if r.0.synced then 1 else backoff in
    (elim r.1 [ ok _ ↦ 1 | err _ ↦ min (reset * 2) 30 ], record r.0 { synced = false })

unfoldable pub sync_turns : List Answers → ℕ × SyncState → ℕ × SyncState
sync_turns [] s = s
sync_turns (a ∷ rest) s = sync_turns rest (sync_turn a s)
