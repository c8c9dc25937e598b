-- ===== src/Gateway/Pending.antt =====
-- The replies that requests wait for: `PendingReplies` of components/gateway/src/nats.rs. A sender stands
-- for the `oneshot::Sender` of a request. Nothing that runs under the mutex panics, so that it is never
-- poisoned, and that error has no case here.
pub mod Invariant
pub mod Delivery
use wasm_platform.Base.{
  ℕ, ◌+◌, ◌^◌, ◌<◌, Bool, true, false, not, ◌||◌, List, ◌∷◌, [], Option, none, some, if◌then◌else◌,
  Result, ok, err, leb, ltb, length, ℕ_discrete,
}
use wasm_platform.Base.Map.{get as map_get, insert as map_insert, remove as map_remove}

pub data RequestError : Type 0 where
  unavailable payload_too_large failed timeout : RequestError

pub record PendingState (S : Type 0) : Type 0 where
  pub next_id : ℕ
  pub retired : Bool
  pub replies : List (ℕ × S)

abbrev pub new : {S : Type 0} → PendingState S
new = record { next_id = 0; retired = false; replies = [] }

-- `u64::checked_add` of one.
abbrev pub checked_next : ℕ → Option ℕ
checked_next id = if ltb (id + 1) (2 ^ 64) then some (id + 1) else none

module _ {S : Type 0} where
  unfoldable pub reserve : ℕ → S → PendingState S → Result RequestError (ℕ × PendingState S)
  reserve capacity sender state =
      if state.retired || leb capacity (length state.replies)
      then err unavailable
      else elim (checked_next state.next_id) [
        | none ↦ err failed
        | some next ↦ ok (
          state.next_id,
          record {
            next_id = next;
            retired = state.retired;
            replies = map_insert ℕ_discrete state.next_id sender state.replies;
          },
        )
      ]

  unfoldable pub remove : ℕ → PendingState S → Option S × PendingState S
  remove id state = (
    map_get ℕ_discrete id state.replies,
    record state { replies = map_remove ℕ_discrete id state.replies },
  )

  -- `deliver`: the sender that gets the reply, if one waits. Dropping a `PendingReply` only removes it.
  unfoldable pub deliver : ℕ → PendingState S → Option S × PendingState S
  deliver id state = remove id state

  unfoldable pub retire : PendingState S → PendingState S
  retire state = record { next_id = state.next_id; retired = true; replies = [] }

-- What happens to the replies of a session.
pub data Event (S R : Type 0) : Type 0 where
  reserves : S → Event S R
  delivers : ℕ → R → Event S R
  drops : ℕ → Event S R
  retires : Event S R

-- The state, and the history: who reserved which id, and who was sent which reply.
pub record System (S R : Type 0) : Type 0 where
  pub state : PendingState S
  pub reserved : List (ℕ × S)
  pub delivered : List (ℕ × (S × R))

abbrev pub start : {S R : Type 0} → System S R
start = record { state = new; reserved = []; delivered = [] }

module _ {S R : Type 0} (capacity : ℕ) where
  unfoldable pub step : Event S R → System S R → System S R
  step (reserves sender) y = elim (reserve capacity sender y.state) [
    | err _ ↦ y
    | ok (id, state) ↦ record y { state = state; reserved = (id, sender) ∷ y.reserved }
  ]
  step (delivers id reply) y =
      let r = deliver id y.state in
      record y {
        state = r.1;
        delivered = elim r.0 [ none ↦ y.delivered | some s ↦ (id, (s, reply)) ∷ y.delivered ];
      }
  step (drops id) y = record y { state = (remove id y.state).1 }
  step retires y = record y { state = retire y.state }

  unfoldable pub run : List (Event S R) → System S R → System S R
  run [] y = y
  run (e ∷ es) y = run es (step e y)
