-- ===== src/Gateway/Pending/Invariant.antt =====
-- The bounds of the replies that wait in `PendingReplies` of nats.rs.
use wasm_platform.Base.{
  ℕ, ◌+◌, ◌^◌, ◌<◌, ◌≤◌, ◌≡◌, refl, sym, subst, ◌↔◌, true, false, List, ◌∷◌, [], none, some, ok,
  length, ℕ_discrete, arith, Option-cases, Result-cases, inl, inr,
}
use wasm_platform.Base.Map.{
  get as map_get, insert as map_insert, remove as map_remove, Distinct, get-remove, remove-Distinct,
  remove_absent,
}
use wasm_platform.Gateway.Pending.{
  PendingState, Event, reserves, delivers, drops, retires, System, reserve, remove, deliver, retire,
  step, run,
}

module _ {S : Type 0} where
  -- At most `capacity` replies wait, none after the retirement, each under an id that was given out.
  pub record IsValid (capacity : ℕ) (state : PendingState S) : Type 0 where
    pub bounded : length state.replies ≤ capacity
    pub distinct : Distinct ℕ_discrete state.replies
    pub known : (id : ℕ) (s : S) → map_get ℕ_discrete id state.replies ≡ some s → id < state.next_id
    pub closed : state.retired ≡ true → state.replies ≡ []
    pub word : state.next_id < 2 ^ 64

  length-remove_le : (id : ℕ) (m : List (ℕ × S)) → length (map_remove ℕ_discrete id m) ≤ length m
  unfolding map_remove
  length-remove_le id [] = ground arith
  length-remove_le id ((j, s) ∷ m) = ground (arith, length-remove_le id m)

  remove-empty : (id : ℕ) (m : List (ℕ × S)) → m ≡ [] → map_remove ℕ_discrete id m ≡ []
  unfolding map_remove
  remove-empty id m h = ground arith

  remove-IsValid :
      (capacity id : ℕ) (state : PendingState S)
      → IsValid capacity state
      → IsValid capacity (remove id state).1
  unfolding remove
  remove-IsValid capacity id state v = record {
    bounded = omega (arith, length-remove_le id state.replies, v.bounded);
    distinct = remove-Distinct ℕ_discrete id state.replies v.distinct;
    known = λ k s h. ground (arith, get-remove ℕ_discrete id k state.replies, v.known k s);
    closed = λ h. remove-empty id state.replies (v.closed h);
    word = v.word;
  }

  retire-IsValid :
      (capacity : ℕ) (state : PendingState S)
      → IsValid capacity state
      → IsValid capacity (retire state)
  unfolding retire map_get
  retire-IsValid capacity state v = record {
    bounded = ground arith;
    distinct = tt;
    known = λ k s h. absurd (ground arith);
    closed = λ h. refl;
    word = v.word;
  }

  next-absent :
      (capacity : ℕ) (state : PendingState S)
      → IsValid capacity state
      → map_get ℕ_discrete state.next_id state.replies ≡ none
  next-absent capacity state v =
      elim (Option-cases (map_get ℕ_discrete state.next_id state.replies)) [
        | inl e ↦ e
        | inr (s, e) ↦ absurd (omega (arith, v.known state.next_id s e))
      ]

  -- What a reservation does.
  pub record Reserved (capacity : ℕ) (sender : S) (state : PendingState S) (r : ℕ × PendingState S)
      : Type 0 where
    pub live : state.retired ≡ false
    pub room : length state.replies < capacity
    pub id : r.0 ≡ state.next_id
    pub next : r.1.next_id ≡ state.next_id + 1
    pub retired : r.1.retired ≡ false
    pub replies : r.1.replies ≡ (state.next_id, sender) ∷ state.replies
    pub valid : IsValid capacity r.1

  known-next :
      (capacity : ℕ) (sender : S) (state : PendingState S) (n : ℕ) (m : List (ℕ × S))
      → IsValid capacity state
      → n ≡ state.next_id + 1
      → m ≡ (state.next_id, sender) ∷ state.replies
      → (k : ℕ) (s : S) → map_get ℕ_discrete k m ≡ some s
      → k < n
  unfolding map_get
  known-next capacity sender state n m v p e k s q = ground (arith, v.known k s)

  pub reserve-Reserved :
      (capacity : ℕ) (sender : S) (state : PendingState S) (r : ℕ × PendingState S)
      → IsValid capacity state
      → reserve capacity sender state ≡ ok r
      → Reserved capacity sender state r
  unfolding reserve map_insert
  reserve-Reserved capacity sender state r v h =
      let free = next-absent capacity state v in
      let same = remove_absent ℕ_discrete state.next_id state.replies free in
      let same' : r.1.replies ≡ (state.next_id, sender) ∷ state.replies = ground (arith, same) in
      record {
        live = ground arith;
        room = ground arith;
        id = ground arith;
        next = ground arith;
        retired = ground arith;
        replies = same';
        valid = record {
          bounded = ground (arith, same');
          distinct = subst (Distinct ℕ_discrete) (sym same') (free, v.distinct);
          known = λ k s q.
              known-next capacity sender state r.1.next_id r.1.replies v (ground arith) same' k s q;
          closed = λ q. absurd (ground arith);
          word = ground arith;
        };
      }

  Reserved-reserve :
      (capacity : ℕ) (sender : S) (state : PendingState S) (r : ℕ × PendingState S)
      → IsValid capacity state
      → Reserved capacity sender state r
      → reserve capacity sender state ≡ ok r
  unfolding reserve map_insert
  Reserved-reserve capacity sender state r v d = ground (
    arith,
    d.valid.word,
    remove_absent ℕ_discrete state.next_id state.replies (next-absent capacity state v),
  )

  -- On valid replies, a reservation succeeds exactly if the session is not retired, fewer replies wait
  -- than its capacity and an id is left; it then adds the sender under the next id, and the replies stay
  -- valid: at most the capacity wait, under distinct ids that were given out, none after the retirement.
  pub reserve-ok_iff :
      (capacity : ℕ) (sender : S) (state : PendingState S) (r : ℕ × PendingState S)
      → IsValid capacity state
      → (reserve capacity sender state ≡ ok r) ↔ Reserved capacity sender state r
  reserve-ok_iff capacity sender state r v =
      (reserve-Reserved capacity sender state r v, Reserved-reserve capacity sender state r v)

module _ {S R : Type 0} where
  pub step-IsValid :
      (capacity : ℕ) (e : Event S R) (y : System S R)
      → IsValid capacity y.state
      → IsValid capacity (step capacity e y).state
  unfolding step deliver
  step-IsValid capacity (reserves sender) y v =
      elim (Result-cases (reserve capacity sender y.state)) [
        | inl (r, e) ↦ rw (e, step) (reserve-Reserved capacity sender y.state r v e).valid
        | inr (x, e) ↦ rw (e, step) v
      ]
  step-IsValid capacity (delivers id reply) y v = remove-IsValid capacity id y.state v
  step-IsValid capacity (drops id) y v = remove-IsValid capacity id y.state v
  step-IsValid capacity retires y v = retire-IsValid capacity y.state v

  -- In every run of reservations, deliveries, drops and retirements on valid replies, the replies stay
  -- valid: at most the capacity wait, under distinct ids that were given out, none after a retirement.
  pub run-IsValid :
      (capacity : ℕ) (es : List (Event S R)) (y : System S R)
      → IsValid capacity y.state
      → IsValid capacity (run capacity es y).state
  unfolding run
  run-IsValid capacity [] y v = v
  run-IsValid capacity (e ∷ es) y v =
      run-IsValid capacity es (step capacity e y) (step-IsValid capacity e y v)
