-- ===== src/Host/Invocation/Ending.antt =====
-- How an execution of invocation.rs ends: its result, its cancellation, and its guard.
use wasm_platform.Base.{
  ℕ, ◌+◌, ◌≡◌, ◌↔◌, ◌∙◌, refl, Bool, true, ◌||◌, List, ◌∷◌, [], Option, none, some, Result, ok, err,
  if◌then◌else◌, leb, arith, Option-cases, inl, inr,
}
use wasm_platform.Host.Dispatch.Counts.{Inner, publish_counts, record_capacity, decrement}
use wasm_platform.Host.Dispatch.Guards.{Execution, execution_started, terminate, drop_execution}
use wasm_platform.Host.Dispatch.Balance.{Live, Balanced}
use wasm_platform.Host.Invocation.{
  JoinError, Invocation, cancel, is_over, check, start_execution, end_execution, collect,
  collect_all, finish, Work, returned, failed, unwound, Exit, succeeded, resumed_panic, is_panic,
  exit_of, blocking_run,
}

-- What an invocation adds to the executions of the host.
abbrev pub executing_share : Option Execution → ℕ
executing_share none = 0
executing_share (some e) = elim e.terminating_at [ none ↦ 1 | some _ ↦ 0 ]

abbrev pub stopping_share : Option Execution → ℕ
stopping_share none = 0
stopping_share (some e) = elim e.terminating_at [ none ↦ 0 | some _ ↦ 1 ]

abbrev pub plus : Live → Option Execution → Live
plus rest e = record rest {
  executing = rest.executing + executing_share e;
  stopping = rest.stopping + stopping_share e;
}

pub cancel-Balanced :
    (now : ℕ) (rest : Live) (i : Invocation) (m : Inner)
    → Balanced m (plus rest i.execution)
    → Balanced (cancel now i m).1 (plus rest (cancel now i m).0.execution)
unfolding cancel terminate decrement publish_counts
cancel-Balanced now rest i m b = elim (Option-cases i.execution) [
  | inl e ↦ ground arith
  | inr (x, e) ↦ elim (Option-cases x.terminating_at) [
    | inl n ↦ ground arith
    | inr (t, n) ↦ ground arith
  ]
]

pub check-Balanced :
    (now : ℕ) (rest : Live) (i : Invocation) (m : Inner)
    → Balanced m (plus rest i.execution)
    → Balanced (check now i m).0.1 (plus rest (check now i m).0.0.execution)
unfolding check
check-Balanced now rest i m b = ground (arith, cancel-Balanced now rest i m b)

pub start_execution-Balanced :
    (now : ℕ) (rest : Live) (i : Invocation) (m : Inner)
    → Balanced m rest
    → Balanced (start_execution now i m).1 (plus rest (start_execution now i m).0.execution)
unfolding start_execution execution_started publish_counts record_capacity
start_execution-Balanced now rest i m b =
    check-Balanced now rest (record i { execution = some (execution_started now m).1 })
      (execution_started now m).0 (ground arith)

pub end_execution-Balanced :
    (now : ℕ) (rest : Live) (i : Invocation) (m : Inner)
    → Balanced m (plus rest i.execution)
    → Balanced (end_execution now i m).1 rest
unfolding end_execution drop_execution decrement publish_counts
end_execution-Balanced now rest i m b = elim (Option-cases i.execution) [
  | inl e ↦ ground arith
  | inr (x, e) ↦ elim (Option-cases x.terminating_at) [
    | inl n ↦ ground arith
    | inr (t, n) ↦ ground arith
  ]
]

-- Every cleanup ended without a failure.
abbrev pub Clean : List (Result JoinError (Unit {0})) → Type 0
Clean [] = Unit {0}
Clean (ok u ∷ results) = Clean results
Clean (err e ∷ results) = ⊥

collect_all-some :
    (results : List (Result JoinError (Unit {0}))) (e : JoinError)
    → collect_all results (some e) ≡ some e
unfolding collect_all collect
collect_all-some [] e = refl
collect_all-some (ok u ∷ results) e = collect_all-some results e
collect_all-some (err x ∷ results) e = collect_all-some results e

collect_all-none :
    (results : List (Result JoinError (Unit {0})))
    → (collect_all results none ≡ none) ↔ Clean results
unfolding collect_all collect
collect_all-none [] = (λ h. tt, λ h. refl)
collect_all-none (ok u ∷ results) = collect_all-none results
collect_all-none (err x ∷ results) =
    (λ h. ground (arith, collect_all-some results x), λ h. elim h [ ])

-- The end of an execution.
pub record Ended {A : Type 0} (at : ℕ) (work : Work A)
    (cleanup : List (Result JoinError (Unit {0}))) (rest : Live) (i : Invocation)
    (r : (Invocation × Inner) × Exit A) : Type 0 where
  pub guard : r.0.0.execution ≡ none
  pub counts : Balanced r.0.1 rest
  pub cancelled_after : r.0.0.cancelled ≡ ((i.cancelled || is_panic work) || leb i.deadline at)
  pub panic : (r.1 ≡ resumed_panic) ↔ (work ≡ unwound)
  pub success :
      (a : A) → (r.1 ≡ succeeded a) ↔ ((work ≡ returned a) × (i.failure ≡ none) × Clean cleanup)

module _ {A : Type 0} where
  exit_of-succeeded :
      (work : Work A) (clean : Bool) (a : A)
      → (exit_of work clean ≡ succeeded a) ↔ ((work ≡ returned a) × (clean ≡ true))
  unfolding exit_of
  exit_of-succeeded (returned b) clean a = ground arith
  exit_of-succeeded failed clean a = ground arith
  exit_of-succeeded unwound clean a = ground arith

  exit_of-panic :
      (work : Work A) (clean : Bool) → (exit_of work clean ≡ resumed_panic) ↔ (work ≡ unwound)
  unfolding exit_of
  exit_of-panic (returned b) clean = ground arith
  exit_of-panic failed clean = ground arith
  exit_of-panic unwound clean = ground arith

finish-Clean :
    (results : List (Result JoinError (Unit {0}))) (i : Invocation)
    → ((finish results i).1 ≡ true) ↔ ((i.failure ≡ none) × Clean results)
unfolding finish
finish-Clean results i = elim (Option-cases i.failure) [
  | inl e ↦ ground (arith, e, collect_all-none results)
  | inr (x, e) ↦ ground (arith, e, collect_all-some results x)
]

before-Balanced :
    {A : Type 0} (ended : ℕ) (work : Work A) (rest : Live) (i : Invocation) (m : Inner)
    → Balanced m (plus rest i.execution)
    → Balanced
        (if is_panic work then cancel ended i m else (i, m)).1
        (plus rest (if is_panic work then cancel ended i m else (i, m)).0.execution)
before-Balanced ended (returned a) rest i m b = b
before-Balanced ended failed rest i m b = b
before-Balanced ended unwound rest i m b = cancel-Balanced ended rest i m b

cancel-kept :
    (now : ℕ) (i : Invocation) (m : Inner)
    → ((cancel now i m).0.cancelled ≡ true)
      × ((cancel now i m).0.deadline ≡ i.deadline)
      × ((cancel now i m).0.failure ≡ i.failure)
unfolding cancel
cancel-kept now i m = ground arith

before-kept :
    {A : Type 0} (ended : ℕ) (work : Work A) (i : Invocation) (m : Inner)
    → ((if is_panic work then cancel ended i m else (i, m)).0.cancelled
        ≡ (i.cancelled || is_panic work))
      × ((if is_panic work then cancel ended i m else (i, m)).0.deadline ≡ i.deadline)
      × ((if is_panic work then cancel ended i m else (i, m)).0.failure ≡ i.failure)
before-kept ended (returned a) i m = ground arith
before-kept ended failed i m = ground arith
before-kept ended unwound i m = ground (arith, cancel-kept ended i m)

check-cancelled :
    (now : ℕ) (i : Invocation) (m : Inner) → (check now i m).0.0.cancelled ≡ is_over now i
unfolding check
check-cancelled now i m = ground (arith, cancel-kept now i m)

end_execution-kept :
    (now : ℕ) (i : Invocation) (m : Inner)
    → ((end_execution now i m).0.cancelled ≡ i.cancelled)
      × ((end_execution now i m).0.execution ≡ none)
unfolding end_execution
end_execution-kept now i m = elim (Option-cases i.execution) [
  | inl e ↦ ground arith
  | inr (x, e) ↦ ground arith
]

pub after-deadline :
    {A : Type 0} (ended at : ℕ) (work : Work A) (cleanup : List (Result JoinError (Unit {0})))
    (i : Invocation) (m : Inner)
    → (blocking_run ended at work cleanup i m).0.0.deadline ≡ i.deadline
unfolding blocking_run finish check end_execution
after-deadline ended at work cleanup i m =
    let c = if is_panic work then cancel ended i m else (i, m) in
    let f = finish cleanup c.0 in ground (arith, before-kept ended work i m, cancel-kept at f.0 c.1)

-- Whether an invocation is cancelled when its execution ended, and when it was a success.
pub blocking_run-cancelled :
    {A : Type 0} (ended at : ℕ) (work : Work A) (cleanup : List (Result JoinError (Unit {0})))
    (i : Invocation) (m : Inner)
    → (blocking_run ended at work cleanup i m).0.0.cancelled
      ≡ ((i.cancelled || is_panic work) || leb i.deadline at)
unfolding blocking_run finish
blocking_run-cancelled ended at work cleanup i m =
    let c = if is_panic work then cancel ended i m else (i, m) in
    let kept = before-kept ended work i m in
    let f = finish cleanup c.0 in
    let k = check at f.0 c.1 in
    let last = end_execution-kept at k.0.0 k.0.1 in
    ground (arith, last.0, check-cancelled at f.0 c.1, kept)

pub blocking_run-success :
    {A : Type 0} (ended at : ℕ) (work : Work A) (cleanup : List (Result JoinError (Unit {0})))
    (i : Invocation) (m : Inner) (a : A)
    → ((blocking_run ended at work cleanup i m).1 ≡ succeeded a)
      ↔ ((work ≡ returned a) × (i.failure ≡ none) × Clean cleanup)
unfolding blocking_run finish
blocking_run-success ended at work cleanup i m a =
    let c = if is_panic work then cancel ended i m else (i, m) in
    let f = finish cleanup c.0 in
    ground
      (arith, exit_of-succeeded work f.1 a, finish-Clean cleanup c.0, before-kept ended work i m)

pub blocking_run-panic :
    {A : Type 0} (ended at : ℕ) (work : Work A) (cleanup : List (Result JoinError (Unit {0})))
    (i : Invocation) (m : Inner)
    → ((blocking_run ended at work cleanup i m).1 ≡ resumed_panic) ↔ (work ≡ unwound)
unfolding blocking_run finish
blocking_run-panic ended at work cleanup i m =
    exit_of-panic work (finish cleanup (if is_panic work then cancel ended i m else (i, m)).0).1

-- Whatever the work and the cleanup did, the end of an execution drops its guard and takes it off the
-- counts of the host, which stay balanced; the invocation is then cancelled if it was, if the work
-- panicked, or if the deadline is over; a panic is resumed exactly if the work panicked; and the exit is
-- a success exactly if the work returned its value and no cleanup of the invocation failed.
pub blocking_run-Ended :
    {A : Type 0} (ended at : ℕ) (work : Work A) (cleanup : List (Result JoinError (Unit {0})))
    (rest : Live) (i : Invocation) (m : Inner)
    → Balanced m (plus rest i.execution)
    → Ended at work cleanup rest i (blocking_run ended at work cleanup i m)
unfolding blocking_run finish
blocking_run-Ended ended at work cleanup rest i m b =
    let c = if is_panic work then cancel ended i m else (i, m) in
    let kept = before-kept ended work i m in
    let f = finish cleanup c.0 in
    let k = check at f.0 c.1 in
    let last = end_execution-kept at k.0.0 k.0.1 in
    let counts =
      end_execution-Balanced at rest k.0.0 k.0.1
        (check-Balanced at rest f.0 c.1 (before-Balanced ended work rest i m b)) in
    record {
      guard = last.1;
      counts = counts;
      cancelled_after = last.0 ∙ check-cancelled at f.0 c.1 ∙ ground (arith, kept.0, kept.1);
      panic = exit_of-panic work f.1;
      success = λ a. ground (arith, exit_of-succeeded work f.1 a, finish-Clean cleanup c.0, kept.2);
    }
