-- ===== src/Gateway/Pending/Delivery.antt =====
-- The senders and the replies of `PendingReplies` in nats.rs.
use wasm_platform.Base.{
  ℕ, ◌<◌, ◌≡◌, refl, List, ◌∷◌, [], none, some, ℕ_discrete, arith, Option-cases, Result-cases, inl,
  inr,
}
use wasm_platform.Base.Map.{get as map_get, Distinct, get-remove}
use wasm_platform.Gateway.Pending.{
  PendingState, Event, reserves, delivers, drops, retires, System, reserve, remove, deliver, retire,
  step, run,
}
use wasm_platform.Gateway.Pending.Invariant.{IsValid, Reserved, reserve-Reserved, step-IsValid}

module _ {S R : Type 0} where
  -- A reply waits for the sender that reserved its id; an id is reserved once; and what was sent was
  -- sent to the sender that reserved the id, once, and waits no more.
  pub record IsRouted (y : System S R) : Type 0 where
    pub waiting :
        (k : ℕ) (s : S)
        → map_get ℕ_discrete k y.state.replies ≡ some s
        → map_get ℕ_discrete k y.reserved ≡ some s
    pub given : (k : ℕ) (s : S) → map_get ℕ_discrete k y.reserved ≡ some s → k < y.state.next_id
    pub once : Distinct ℕ_discrete y.reserved
    pub sent :
        (k : ℕ) (d : S × R)
        → map_get ℕ_discrete k y.delivered ≡ some d
        → map_get ℕ_discrete k y.reserved ≡ some d.0
    pub gone :
        (k : ℕ) (d : S × R)
        → map_get ℕ_discrete k y.delivered ≡ some d
        → map_get ℕ_discrete k y.state.replies ≡ none
    pub single : Distinct ℕ_discrete y.delivered

  reserved-absent :
      (y : System S R) → IsRouted y → map_get ℕ_discrete y.state.next_id y.reserved ≡ none
  reserved-absent y i = elim (Option-cases (map_get ℕ_discrete y.state.next_id y.reserved)) [
    | inl e ↦ e
    | inr (s, e) ↦ absurd (omega (arith, i.given y.state.next_id s e))
  ]

  reserves-IsRouted :
      (capacity : ℕ) (sender : S) (y : System S R) (r : ℕ × PendingState S)
      → IsRouted y
      → Reserved capacity sender y.state r
      → IsRouted (record y { state = r.1; reserved = (r.0, sender) ∷ y.reserved })
  unfolding map_get
  reserves-IsRouted capacity sender y r i d =
      let fresh = reserved-absent y i in
      record {
        waiting = λ k s h. ground (arith, i.waiting k s, d.replies, d.id);
        given = λ k s h. ground (arith, i.given k s, d.next, d.id);
        once = ground (arith, fresh, i.once, d.id);
        sent = λ k e h. ground (arith, i.sent k e h, fresh, d.id);
        gone = λ k e h. ground (arith, i.sent k e h, i.gone k e h, fresh, d.id, d.replies);
        single = i.single;
      }

  delivered-absent :
      (y : System S R) (id : ℕ) (s : S)
      → IsRouted y
      → map_get ℕ_discrete id y.state.replies ≡ some s
      → map_get ℕ_discrete id y.delivered ≡ none
  delivered-absent y id s i h = elim (Option-cases (map_get ℕ_discrete id y.delivered)) [
    | inl e ↦ e
    | inr (d, e) ↦ absurd (ground (arith, i.gone id d e))
  ]

  -- Removing a reply, which the history keeps.
  removes-IsRouted :
      (id : ℕ) (y : System S R) → IsRouted y → IsRouted (record y { state = (remove id y.state).1 })
  unfolding remove
  removes-IsRouted id y i = record {
    waiting = λ k s h. ground (arith, i.waiting k s, get-remove ℕ_discrete id k y.state.replies);
    given = i.given;
    once = i.once;
    sent = i.sent;
    gone = λ k d h. ground (arith, i.gone k d h, get-remove ℕ_discrete id k y.state.replies);
    single = i.single;
  }

  delivers-IsRouted :
      (id : ℕ) (s : S) (reply : R) (y : System S R)
      → IsRouted y
      → map_get ℕ_discrete id y.state.replies ≡ some s
      → IsRouted
          (record y { state = (remove id y.state).1; delivered = (id, (s, reply)) ∷ y.delivered })
  unfolding remove map_get
  delivers-IsRouted id s reply y i e =
      let out = get-remove ℕ_discrete id id y.state.replies in
      record {
        waiting =
            λ k t h. ground (arith, i.waiting k t, get-remove ℕ_discrete id k y.state.replies);
        given = i.given;
        once = i.once;
        sent = λ k d h. ground (arith, i.sent k d, i.waiting id s e);
        gone = λ k d h. ground (arith, i.gone k d, get-remove ℕ_discrete id k y.state.replies);
        single = (delivered-absent y id s i e, i.single);
      }

  retires-IsRouted : (y : System S R) → IsRouted y → IsRouted (record y { state = retire y.state })
  unfolding retire map_get
  retires-IsRouted y i = record {
    waiting = λ k s h. absurd (ground arith);
    given = i.given;
    once = i.once;
    sent = i.sent;
    gone = λ k d h. refl;
    single = i.single;
  }

  step-IsRouted :
      (capacity : ℕ) (e : Event S R) (y : System S R)
      → IsValid capacity y.state
      → IsRouted y
      → IsRouted (step capacity e y)
  unfolding step deliver
  step-IsRouted capacity (reserves sender) y v i =
      elim (Result-cases (reserve capacity sender y.state)) [
        | inl (r, e) ↦
            rw (e, step)
              (reserves-IsRouted capacity sender y r i
                (reserve-Reserved capacity sender y.state r v e))
        | inr (x, e) ↦ rw (e, step) i
      ]
  step-IsRouted capacity (delivers id reply) y v i =
      elim (Option-cases (map_get ℕ_discrete id y.state.replies)) [
        | inl e ↦
            let q : (remove id y.state).0 ≡ none = (unfold remove in e) in
            rw (q, step) (removes-IsRouted id y i)
        | inr (s, e) ↦
            let q : (remove id y.state).0 ≡ some s = (unfold remove in e) in
            rw (q, step) (delivers-IsRouted id s reply y i e)
      ]
  step-IsRouted capacity (drops id) y v i = removes-IsRouted id y i
  step-IsRouted capacity retires y v i = retires-IsRouted y i

  -- In every run from a routed state, no id is reserved twice, a waiting reply is that of the sender
  -- that reserved its id, and each id gets at most one reply, sent to the sender that reserved it.
  pub run-IsRouted :
      (capacity : ℕ) (es : List (Event S R)) (y : System S R)
      → IsValid capacity y.state
      → IsRouted y
      → IsRouted (run capacity es y)
  unfolding run
  run-IsRouted capacity [] y v i = i
  run-IsRouted capacity (e ∷ es) y v i =
      run-IsRouted capacity es (step capacity e y) (step-IsValid capacity e y v)
        (step-IsRouted capacity e y v i)
