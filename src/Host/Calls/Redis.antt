-- ===== src/Host/Calls/Redis.antt =====
-- components/execution-host/src/redis_client.rs: the deadline of a mutation, and the script that a Redis
-- server runs for it. The commands of the server are arguments; its clock is in microseconds, and so are
-- the instants of the host.
use wasm_platform.Base.{
  subst, refl, ℤ, pos, ℕ, ◌+◌, ◌*◌, ◌-◌, ◌^◌, ◌≤◌, ◌<◌, ◌≡◌, ◌≢◌, ◌⊎◌, ◌↔◌, Bool, true, false, ◌&&◌,
  Bytes, Option, none, some, Result, ok, err, if◌then◌else◌, leb, ltb, arith, Option-cases,
  Result-cases, inl, inr,
}
use wasm_platform.Host.Invocation.{Invocation}

pub data Mutation : Type 0 where
  set : Bytes → Mutation
  delete : Mutation
  increment : Bytes → Mutation

pub data RedisError : Type 0 where
  cancelled failed unsupported_time deadline_exceeded : RedisError

abbrev pub is_ok : Result RedisError ℤ → Bool
is_ok (ok n) = true
is_ok (err e) = false

-- A `u64` that did not overflow.
abbrev pub checked_u64 : ℕ → Option ℕ
checked_u64 n = if ltb n (2 ^ 64) then some n else none

abbrev pub then_checked : Option ℕ → (ℕ → ℕ) → Option ℕ
then_checked none f = none
then_checked (some n) f = checked_u64 (f n)

abbrev pub max_lua_integer : ℕ
max_lua_integer = 2 ^ 53 - 1

unfoldable pub backend_deadline : ℕ → ℕ → ℕ → Result RedisError ℕ
backend_deadline seconds microseconds remaining =
    let deadline : Option ℕ = elim (checked_u64 remaining) [
      | none ↦ none
      | some r ↦
          then_checked (then_checked (checked_u64 (seconds * 1000000)) (λ n. n + microseconds))
            (λ n. n + r)
    ] in
    elim deadline [
      | none ↦ err unsupported_time
      | some d ↦
          if ltb microseconds 1000000 && leb d max_lua_integer then ok d else err unsupported_time
    ]

-- A deadline is given exactly if the server's time is a valid one and the deadline, the time and the
-- budget together, is a whole number that a script reads exactly, and it is their sum: nothing wraps around.
pub backend_deadline-ok_iff :
    (seconds microseconds remaining d : ℕ)
    → (backend_deadline seconds microseconds remaining ≡ ok d) ↔ (
        (d ≡ seconds * 1000000 + microseconds + remaining)
        × (microseconds < 1000000)
        × (d < 2 ^ 53))
unfolding backend_deadline
backend_deadline-ok_iff seconds microseconds remaining d = ground arith

-- What `invocation.run` of a command gives: the budget ended first, or an error, or an answer.
pub data Asked {ℓ} (A : Type ℓ) : Type ℓ where
  stopped refused : Asked A
  gives : A → Asked A

-- What the server and the invocation do to a call: its connection and the answer to `TIME`, the check
-- after that and the instant that is read next, and when the script runs by the server's clock, if it
-- does, and whether its answer comes in time.
pub record Course : Type 0 where
  pub connects : Asked (Unit {0})
  pub time : Asked (ℕ × ℕ)
  pub checked : Bool
  pub read_at : ℕ
  pub runs_at : Option ℕ
  pub answered : Bool

-- `saturating_duration_since` of the deadline.
abbrev pub remaining_of : Invocation → Course → ℕ
remaining_of i c = i.deadline - c.read_at

abbrev pub answer_of : Bool → Option (Bool × ℤ) → Result RedisError ℤ
answer_of false r = err cancelled
answer_of true none = err failed
answer_of true (some (false, n)) = err deadline_exceeded
answer_of true (some (true, n)) = ok n

-- When the script ran, against the time that the server gave and the budget that remained.
pub record InTime (i : Invocation) (c : Course) : Type 0 where
  pub now : ℕ
  pub seconds : ℕ
  pub microseconds : ℕ
  pub ran : c.runs_at ≡ some now
  pub read : c.time ≡ gives (seconds, microseconds)
  pub early : now < seconds * 1000000 + microseconds + remaining_of i c

abbrev pub Reads : Asked (ℕ × ℕ) → ℕ → Type 0
Reads stopped n = Unit {0}
Reads refused n = Unit {0}
Reads (gives (seconds, microseconds)) n = seconds * 1000000 + microseconds ≡ n

abbrev pub Ran : Option ℕ → ℕ → Type 0
Ran none n = Unit {0}
Ran (some now) n = now ≡ n

-- The clock of a server that advances with the host's, which it is ahead of by `skew`: the server took
-- its time at `answered_at`, before the host read its own, and ran the script at `ran_at`, after that.
pub record Steady (c : Course) (skew answered_at ran_at : ℕ) : Type 0 where
  pub gave : Reads c.time (answered_at + skew)
  pub ran : Ran c.runs_at (ran_at + skew)
  pub before : answered_at ≤ c.read_at
  pub after : answered_at ≤ ran_at

pub asked_time :
    (a : Asked (ℕ × ℕ))
    → ((seconds : ℕ) × (microseconds : ℕ) × (a ≡ gives (seconds, microseconds)))
      ⊎ ((a ≡ stopped) ⊎ (a ≡ refused))
asked_time stopped = inr (inl refl)
asked_time refused = inr (inr refl)
asked_time (gives (seconds, microseconds)) = inl (seconds, microseconds, refl)

module _ {S : Type 0} (set_command : Bytes → Bytes → S → S) (del_command : Bytes → S → S × ℕ)
    (incrby : Bytes → Bytes → S → Option S) (get_number : Bytes → S → ℤ) where
  -- `MUTATE_BEFORE_DEADLINE`, run at a time of the server; a command that fails ends it.
  unfoldable pub mutate_before_deadline : ℕ → ℕ → Bytes → Mutation → S → S × Option (Bool × ℤ)
  mutate_before_deadline now deadline key m s =
      if leb deadline now then (s, some (false, pos 0)) else (elim m [
        | set value ↦ (set_command key value s, some (true, pos 0))
        | delete ↦ let d = del_command key s in (d.0, some (true, pos d.1))
        | increment delta ↦ elim (incrby key delta s) [
          | none ↦ (s, none)
          | some s' ↦ (s', some (true, get_number key s'))
        ]
      ])

  unfoldable pub evaluate : Course → ℕ → Bytes → Mutation → S → S × Result RedisError ℤ
  evaluate c deadline key m s = elim c.runs_at [
    | none ↦ (s, err cancelled)
    | some now ↦
        let r = mutate_before_deadline now deadline key m s in (r.0, answer_of c.answered r.1)
  ]

  unfoldable pub mutate : Invocation → Course → Bytes → Mutation → S → S × Result RedisError ℤ
  mutate i c key m s = elim c.connects [
    | stopped ↦ (s, err cancelled)
    | refused ↦ (s, err failed)
    | gives u ↦ elim c.time [
      | stopped ↦ (s, err cancelled)
      | refused ↦ (s, err failed)
      | gives (seconds, microseconds) ↦
          if c.checked
          then (elim (backend_deadline seconds microseconds (remaining_of i c)) [
            | err e ↦ (s, err e)
            | ok d ↦ evaluate c d key m s
          ])
          else (s, err cancelled)
    ]
  ]

  late :
      (c : Course) (now deadline : ℕ) (key : Bytes) (m : Mutation) (s : S)
      → c.runs_at ≡ some now
      → deadline ≤ now
      → ((evaluate c deadline key m s).0 ≡ s) × (is_ok (evaluate c deadline key m s).1 ≡ false)
  unfolding evaluate mutate_before_deadline
  late c now deadline key m s h l = (ground (arith, h, l), ground (arith, h, l))

  unanswered :
      (c : Course) (deadline : ℕ) (key : Bytes) (m : Mutation) (s : S)
      → c.runs_at ≡ none
      → ((evaluate c deadline key m s).0 ≡ s) × (is_ok (evaluate c deadline key m s).1 ≡ false)
  unfolding evaluate
  unanswered c deadline key m s h = (ground (arith, h), ground (arith, h))

  mutate_early :
      (i : Invocation) (c : Course) (key : Bytes) (m : Mutation) (s : S) (seconds microseconds : ℕ)
      → c.time ≡ gives (seconds, microseconds)
      → ((mutate i c key m s).0 ≢ s) ⊎ (is_ok (mutate i c key m s).1 ≡ true)
      → InTime i c
  unfolding mutate
  mutate_early i c key m s seconds microseconds t h =
      elim (Result-cases (backend_deadline seconds microseconds (remaining_of i c))) [
        | inr (e, d) ↦ absurd (ground (arith, t, d, h))
        | inl (deadline, d) ↦ elim (Option-cases c.runs_at) [
          | inl n ↦ absurd (ground (arith, t, d, h, unanswered c deadline key m s n))
          | inr (now, n) ↦ record {
            now = now;
            seconds = seconds;
            microseconds = microseconds;
            ran = n;
            read = t;
            early = ground (
              arith,
              t,
              d,
              h,
              late c now deadline key m s n,
              (backend_deadline-ok_iff seconds microseconds (remaining_of i c) deadline).0 d,
            );
          }
        ]
      ]

  unasked :
      (i : Invocation) (c : Course) (key : Bytes) (m : Mutation) (s : S)
      → (c.time ≡ stopped) ⊎ (c.time ≡ refused)
      → ((mutate i c key m s).0 ≢ s) ⊎ (is_ok (mutate i c key m s).1 ≡ true)
      → ⊥
  unfolding mutate
  unasked i c key m s (inl t) h = ground (arith, t, h)
  unasked i c key m s (inr t) h = ground (arith, t, h)

  mutate_timed :
      (i : Invocation) (c : Course) (key : Bytes) (m : Mutation) (s : S)
      → ((mutate i c key m s).0 ≢ s) ⊎ (is_ok (mutate i c key m s).1 ≡ true)
      → InTime i c
  mutate_timed i c key m s h = elim (asked_time c.time) [
    | inl (seconds, microseconds, t) ↦ mutate_early i c key m s seconds microseconds t h
    | inr t ↦ absurd (unasked i c key m s t h)
  ]

  -- A call that changes the store of the server, whatever it returns, or that returns a result, had its
  -- script run before the time that the server gave and the budget that the invocation had left after
  -- that; so, where the server's clock advances with the host's, whatever lies between them, before the
  -- deadline of the invocation.
  pub mutate-InTime :
      (i : Invocation) (c : Course) (key : Bytes) (m : Mutation) (s : S)
      (skew answered_at ran_at : ℕ)
      → Steady c skew answered_at ran_at
      → ((mutate i c key m s).0 ≢ s) ⊎ (is_ok (mutate i c key m s).1 ≡ true)
      → InTime i c × (ran_at < i.deadline)
  mutate-InTime i c key m s skew answered_at ran_at w h =
      let r = mutate_timed i c key m s h in
      let gave : r.seconds * 1000000 + r.microseconds ≡ answered_at + skew =
        subst (λ a. Reads a (answered_at + skew)) r.read w.gave in
      let ran : r.now ≡ ran_at + skew = subst (λ a. Ran a (ran_at + skew)) r.ran w.ran in
      (r, omega (arith, gave, ran, r.early, w.before, w.after))
