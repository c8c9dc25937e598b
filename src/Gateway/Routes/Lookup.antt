-- ===== src/Gateway/Routes/Lookup.antt =====
-- What the route table answers after a snapshot and after updates.
use wasm_platform.Base.{
  ◌≡◌, refl, List, ◌∷◌, [], Option, none, some, if◌then◌else◌, Bytes, bytes_discrete, ite, arith,
  Option-cases, inl, inr, ◌∙◌, ap,
}
use wasm_platform.Base.Map.{get as map_get, get-insert, get-remove}
use wasm_platform.Gateway.Routes.{
  RouteUpdate, RouteEntry, RouteTable, upsert, remove, get, insert_routes, replace_all, entry_of,
  apply_update, apply_updates,
}

-- The answer for a path that an update leaves: no opinion, or the entry that it writes or removes.
abbrev pub opinion : Bytes → RouteUpdate → Option (Option RouteEntry)
opinion path u = elim u.route [
  | none ↦ none
  | some route ↦
      ite (bytes_discrete route.path path) (some (if u.delete then none else some (entry_of route)))
        none
]

-- The last update that names the path decides; if none does, the earlier answer stays.
abbrev pub decided : Bytes → List RouteUpdate → Option RouteEntry → Option RouteEntry
decided path [] earlier = earlier
decided path (u ∷ us) earlier =
    decided path us (elim (opinion path u) [ none ↦ earlier | some o ↦ o ])

-- The last route of the path in a snapshot.
abbrev pub declared : Bytes → List (Bytes × RouteEntry) → Option RouteEntry → Option RouteEntry
declared path [] earlier = earlier
declared path ((p, e) ∷ routes) earlier =
    declared path routes (ite (bytes_discrete p path) (some e) earlier)

get-apply_update :
    (path : Bytes) (u : RouteUpdate) (table : RouteTable)
    → get path (apply_update u table)
      ≡ (elim (opinion path u) [ none ↦ get path table | some o ↦ o ])
unfolding get apply_update upsert remove
get-apply_update path u table = elim (Option-cases u.route) [
  | inl e ↦ ground (arith, e)
  | inr (r, e) ↦ ground (
    arith,
    e,
    get-insert bytes_discrete r.path path (entry_of r) table,
    get-remove bytes_discrete r.path path table,
  )
]

-- After the updates of a message, the answer for a path is what the last update that names the path
-- wrote, no route if that one deletes it, and the earlier answer if no update names it.
pub get-apply_updates :
    (path : Bytes) (us : List RouteUpdate) (table : RouteTable)
    → get path (apply_updates us table) ≡ decided path us (get path table)
unfolding apply_updates
get-apply_updates path [] table = refl
get-apply_updates path (u ∷ us) table =
    get-apply_updates path us (apply_update u table)
    ∙ ap (decided path us) (get-apply_update path u table)

get-insert_routes :
    (path : Bytes) (routes : List (Bytes × RouteEntry)) (table : RouteTable)
    → get path (insert_routes routes table) ≡ declared path routes (get path table)
unfolding insert_routes get
get-insert_routes path [] table = refl
get-insert_routes path ((p, e) ∷ routes) table =
    get-insert_routes path routes _
    ∙ ap (declared path routes) (get-insert bytes_discrete p path e table)

-- After a snapshot, the answer for a path is the last route of the snapshot with that path, and none if
-- it has none: nothing of the earlier table stays.
pub get-replace_all :
    (path : Bytes) (routes : List (Bytes × RouteEntry)) (table : RouteTable)
    → get path (replace_all routes table) ≡ declared path routes none
unfolding replace_all get map_get
get-replace_all path routes table = get-insert_routes path routes []
