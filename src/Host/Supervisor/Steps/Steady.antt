-- ===== src/Host/Supervisor/Steps/Steady.antt =====
-- What the operations that invocation_supervisor.rs calls do to the accounting of dispatch_metrics.rs.
use wasm_platform.Base.{
  ℕ, ◌+◌, ◌-◌, ◌≤◌, ◌≡◌, refl, Bool, List, Option, none, some, Result, if◌then◌else◌, arith,
  Option-cases, inl, inr,
}
use wasm_platform.Host.Dispatch.Counts.{
  Inner, Limits, no_limits, Outcome, Reaped, publish_counts, record_capacity, decrement,
}
use wasm_platform.Host.Dispatch.Guards.{
  QueuedWork, enqueue, drop_queued, task_started, drop_task, task_reaped, execution_started,
  terminate, drop_execution, drain_finished, dispatch_stopped,
}
use wasm_platform.Host.Dispatch.Balance.{
  Live, Balanced, enqueues, dequeues, starts_task, ends_task, reaps, stops, drains, apply,
  apply-Balanced,
}
use wasm_platform.Host.Invocation.{
  JoinError, Invocation, cancel, check, start_execution, end_execution, finish, run, Work, returned,
  failed, unwound, is_panic, blocking_run,
}
use wasm_platform.Host.Invocation.Ending.{
  plus, cancel-Balanced, check-Balanced, start_execution-Balanced, blocking_run-Ended,
}

-- The counts are what is alive, and no capacity was ever exceeded.
pub record Steady (limits : Limits) (m : Inner) (l : Live) : Type 0 where
  pub counts : Balanced m l
  pub configured : m.limits ≡ some limits
  pub no_breach : m.breaches ≡ no_limits

-- What an operation leaves of the limits and the breaches.
Keeps : Inner → Inner → Type 0
Keeps m m' = (m'.limits ≡ m.limits) × (m'.breaches ≡ m.breaches)

module _ (limits : Limits) where
  steady :
      (m m' : Inner) (l l' : Live)
      → Steady limits m l
      → Keeps m m'
      → Balanced m' l'
      → Steady limits m' l'
  unfolding Keeps
  steady m m' l l' s k b = record {
    counts = b;
    configured = ground (arith, s.configured, k);
    no_breach = ground (arith, s.no_breach, k);
  }

  pub recount :
      (m : Inner) (l k : Live)
      → Steady limits m l
      → l.messages ≡ k.messages
      → l.tasks ≡ k.tasks
      → l.ended ≡ k.ended
      → l.executing ≡ k.executing
      → l.stopping ≡ k.stopping
      → Steady limits m k
  recount m l k s messages tasks ended executing stopping = record {
    counts = ground (arith, s.counts);
    configured = s.configured;
    no_breach = s.no_breach;
  }

  pub enqueue-Steady :
      (now : ℕ) (m : Inner) (l : Live)
      → Steady limits m l
      → l.messages + 1 ≤ limits.queue
      → Steady limits (enqueue now m).0 (record l { messages = l.messages + 1 })
  unfolding enqueue record_capacity publish_counts apply
  enqueue-Steady now m l s h = record {
    counts = apply-Balanced (enqueues now) m l s.counts tt;
    configured = ground (arith, s.configured);
    no_breach = ground (arith, s.configured, s.no_breach, s.counts.queue);
  }

  pub task_started-Steady :
      (m : Inner) (l : Live)
      → Steady limits m l
      → l.tasks + l.ended + 1 ≤ limits.tasks
      → Steady limits (task_started m) (record l { tasks = l.tasks + 1 })
  unfolding task_started record_capacity publish_counts apply
  task_started-Steady m l s h = record {
    counts = apply-Balanced starts_task m l s.counts tt;
    configured = ground (arith, s.configured);
    no_breach = ground (arith, s.configured, s.no_breach, s.counts.tracking);
  }

  execution_started-no_breach :
      (now : ℕ) (m : Inner) (l : Live)
      → Steady limits m l
      → l.executing + l.stopping + 1 ≤ limits.execution
      → ((execution_started now m).0.limits ≡ some limits)
        × ((execution_started now m).0.breaches ≡ no_limits)
  unfolding execution_started record_capacity publish_counts
  execution_started-no_breach now m l s h = (
    ground (arith, s.configured),
    ground (arith, s.configured, s.no_breach, s.counts.execution, s.counts.termination),
  )

  drop_queued-Keeps : (now : ℕ) (q : QueuedWork) (m : Inner) → Keeps m (drop_queued now q m)
  unfolding Keeps drop_queued publish_counts decrement
  drop_queued-Keeps now q m = ground arith

  pub drop_queued-Steady :
      (now : ℕ) (q : QueuedWork) (m : Inner) (l : Live)
      → Steady limits m l
      → 1 ≤ l.messages
      → Steady limits (drop_queued now q m) (record l { messages = l.messages - 1 })
  unfolding apply
  drop_queued-Steady now q m l s h =
      steady m (drop_queued now q m) l (record l { messages = l.messages - 1 }) s
        (drop_queued-Keeps now q m) (apply-Balanced (dequeues now q) m l s.counts h)

  drop_task-Keeps : (panicking : Bool) (o : Outcome) (m : Inner) → Keeps m (drop_task panicking o m)
  unfolding Keeps drop_task publish_counts
  drop_task-Keeps panicking o m = ground arith

  pub drop_task-Steady :
      (panicking : Bool) (o : Outcome) (m : Inner) (l : Live)
      → Steady limits m l
      → 1 ≤ l.tasks
      → Steady limits
          (drop_task panicking o m)
          (record l { tasks = l.tasks - 1; ended = l.ended + 1 })
  unfolding apply
  drop_task-Steady panicking o m l s h =
      steady m (drop_task panicking o m) l (record l { tasks = l.tasks - 1; ended = l.ended + 1 }) s
        (drop_task-Keeps panicking o m) (apply-Balanced (ends_task panicking o) m l s.counts h)

  task_reaped-Keeps : (o : Reaped) (m : Inner) → Keeps m (task_reaped o m)
  unfolding Keeps task_reaped publish_counts decrement
  task_reaped-Keeps o m = ground arith

  pub task_reaped-Steady :
      (o : Reaped) (m : Inner) (l : Live)
      → Steady limits m l
      → 1 ≤ l.ended
      → Steady limits (task_reaped o m) (record l { ended = l.ended - 1 })
  unfolding apply
  task_reaped-Steady o m l s h =
      steady m (task_reaped o m) l (record l { ended = l.ended - 1 }) s (task_reaped-Keeps o m)
        (apply-Balanced (reaps o) m l s.counts h)

  pub stopped-Steady :
      (now : ℕ) (m : Inner) (l : Live)
      → Steady limits m l
      → Steady limits (dispatch_stopped now m) l
  unfolding apply Keeps dispatch_stopped
  stopped-Steady now m l s =
      steady m (dispatch_stopped now m) l l s (ground arith)
        (apply-Balanced (stops now) m l s.counts tt)

  pub drained-Steady :
      (now : ℕ) (m : Inner) (l : Live) → Steady limits m l → Steady limits (drain_finished now m) l
  unfolding apply Keeps drain_finished
  drained-Steady now m l s =
      steady m (drain_finished now m) l l s (ground arith)
        (apply-Balanced (drains now) m l s.counts tt)

  cancel-Keeps : (now : ℕ) (i : Invocation) (m : Inner) → Keeps m (cancel now i m).1
  unfolding Keeps cancel terminate publish_counts decrement
  cancel-Keeps now i m = elim (Option-cases i.execution) [
    | inl e ↦ ground arith
    | inr (x, e) ↦ ground arith
  ]

  pub cancel-Steady :
      (now : ℕ) (rest : Live) (i : Invocation) (m : Inner)
      → Steady limits m (plus rest i.execution)
      → Steady limits (cancel now i m).1 (plus rest (cancel now i m).0.execution)
  cancel-Steady now rest i m s =
      steady m (cancel now i m).1 (plus rest i.execution) (plus rest (cancel now i m).0.execution) s
        (cancel-Keeps now i m) (cancel-Balanced now rest i m s.counts)

  check-Keeps : (now : ℕ) (i : Invocation) (m : Inner) → Keeps m (check now i m).0.1
  unfolding Keeps check
  check-Keeps now i m =
      let k : Keeps m (cancel now i m).1 = cancel-Keeps now i m in ground (arith, k)

  pub check-Steady :
      (now : ℕ) (rest : Live) (i : Invocation) (m : Inner)
      → Steady limits m (plus rest i.execution)
      → Steady limits (check now i m).0.1 (plus rest (check now i m).0.0.execution)
  check-Steady now rest i m s =
      steady m (check now i m).0.1 (plus rest i.execution) (plus rest (check now i m).0.0.execution)
        s (check-Keeps now i m) (check-Balanced now rest i m s.counts)

  pub start_execution-Steady :
      (now : ℕ) (rest : Live) (i : Invocation) (m : Inner)
      → Steady limits m rest
      → rest.executing + rest.stopping + 1 ≤ limits.execution
      → Steady limits (start_execution now i m).1 (plus rest (start_execution now i m).0.execution)
  unfolding start_execution Keeps
  start_execution-Steady now rest i m s h =
      let x = execution_started now m in
      let k : Keeps x.0 (check now (record i { execution = some x.1 }) x.0).0.1 =
        check-Keeps now (record i { execution = some x.1 }) x.0 in
      let started = execution_started-no_breach now m rest s h in
      record {
        counts = start_execution-Balanced now rest i m s.counts;
        configured = ground (arith, k, started);
        no_breach = ground (arith, k, started);
      }

  end_execution-Keeps : (now : ℕ) (i : Invocation) (m : Inner) → Keeps m (end_execution now i m).1
  unfolding Keeps end_execution drop_execution publish_counts decrement
  end_execution-Keeps now i m = elim (Option-cases i.execution) [
    | inl e ↦ ground arith
    | inr (x, e) ↦ ground arith
  ]

  Keeps-trans : (m n o : Inner) → Keeps m n → Keeps n o → Keeps m o
  unfolding Keeps
  Keeps-trans m n o h k = ground (arith, h, k)

  before-Keeps :
      {A : Type 0} (ended : ℕ) (work : Work A) (i : Invocation) (m : Inner)
      → Keeps m (if is_panic work then cancel ended i m else (i, m)).1
  unfolding Keeps
  before-Keeps ended (returned a) i m = (refl, refl)
  before-Keeps ended failed i m = (refl, refl)
  before-Keeps ended unwound i m =
      let k : Keeps m (cancel ended i m).1 = cancel-Keeps ended i m in k

  pub blocking_run-Steady :
      {A : Type 0} (ended at : ℕ) (work : Work A) (cleanup : List (Result JoinError (Unit {0})))
      (rest : Live) (i : Invocation) (m : Inner)
      → Steady limits m (plus rest i.execution)
      → Steady limits (blocking_run ended at work cleanup i m).0.1 rest
  unfolding blocking_run finish
  blocking_run-Steady ended at work cleanup rest i m s =
      let c = if is_panic work then cancel ended i m else (i, m) in
      let f = finish cleanup c.0 in
      let k = check at f.0 c.1 in
      let last = end_execution at k.0.0 k.0.1 in
      steady m last.1 (plus rest i.execution) rest s
        (Keeps-trans m c.1 last.1 (before-Keeps ended work i m) (
          Keeps-trans c.1 k.0.1 last.1 (check-Keeps at f.0 c.1)
            (end_execution-Keeps at k.0.0 k.0.1)))
        (blocking_run-Ended ended at work cleanup rest i m s.counts).counts

-- An invocation that does not execute is in no count.
pub cancel-idle :
    (now : ℕ) (i : Invocation) (m : Inner)
    → i.execution ≡ none
    → ((cancel now i m).1 ≡ m) × ((cancel now i m).0.execution ≡ none)
unfolding cancel
cancel-idle now i m h = ground arith

pub check-idle :
    (now : ℕ) (i : Invocation) (m : Inner)
    → i.execution ≡ none
    → ((check now i m).0.1 ≡ m) × ((check now i m).0.0.execution ≡ none)
unfolding check
check-idle now i m h = ground (arith, cancel-idle now i m h)

pub run-idle :
    {A : Type 0} (now later : ℕ) (answer : Option A) (i : Invocation) (m : Inner)
    → i.execution ≡ none
    → ((run now later answer i m).0.1 ≡ m) × ((run now later answer i m).0.0.execution ≡ none)
unfolding run
run-idle now later none i m h =
    let c = check-idle now i m h in
    let d = cancel-idle later (check now i m).0.0 (check now i m).0.1 c.1 in ground (arith, c, d)
run-idle now later (some a) i m h = ground (arith, check-idle now i m h)

pub run-some :
    {A : Type 0} (now later : ℕ) (answer : Option A) (a : A) (i : Invocation) (m : Inner)
    → (run now later answer i m).1 ≡ some a
    → answer ≡ some a
unfolding run
run-some now later none a i m h = absurd (ground arith)
run-some now later (some b) a i m h = ground arith
