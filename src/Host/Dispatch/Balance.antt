-- ===== src/Host/Dispatch/Balance.antt =====
-- The counts of dispatch_metrics.rs, and what is alive in the host.
use wasm_platform.Base.{ℕ, ◌+◌, ◌-◌, ◌≤◌, ◌≡◌, refl, Bool, none, some, arith}
use wasm_platform.Host.Dispatch.Counts.{
  gauges_of, Outcome, Reaped, Inner, new, publish_counts, record_capacity, decrement, configure,
}
use wasm_platform.Host.Dispatch.Guards.{
  QueuedWork, Execution, enqueue, drop_queued, task_started, drop_task, task_reaped,
  execution_started, terminate, drop_execution, drain_finished, dispatch_stopped,
}

-- How much is alive in the host: messages in the queue, tasks that run, tasks that ended and were not
-- collected, executions that were not told to stop, and executions that were.
pub record Live : Type 0 where
  pub messages : ℕ
  pub tasks : ℕ
  pub ended : ℕ
  pub executing : ℕ
  pub stopping : ℕ

-- What the dispatcher does, with the guard that it does it to.
pub data Op : Type 0 where
  configures : ℕ → ℕ → ℕ → Op
  enqueues : ℕ → Op
  dequeues : ℕ → QueuedWork → Op
  starts_task : Op
  ends_task : Bool → Outcome → Op
  reaps : Reaped → Op
  executes : ℕ → Op
  terminates exits : ℕ → Execution → Op
  stops drains : ℕ → Op

unfoldable pub apply : Op → Inner → Inner
apply (configures q e t) m = configure q e t m
apply (enqueues now) m = (enqueue now m).0
apply (dequeues now q) m = drop_queued now q m
apply starts_task m = task_started m
apply (ends_task panicking o) m = drop_task panicking o m
apply (reaps o) m = task_reaped o m
apply (executes now) m = (execution_started now m).0
apply (terminates now e) m = (terminate now m e).0
apply (exits now e) m = drop_execution now e m
apply (stops now) m = dispatch_stopped now m
apply (drains now) m = drain_finished now m

-- What is alive after it.
abbrev pub after : Op → Live → Live
after (enqueues now) l = record l { messages = l.messages + 1 }
after (dequeues now q) l = record l { messages = l.messages - 1 }
after starts_task l = record l { tasks = l.tasks + 1 }
after (ends_task panicking o) l = record l { tasks = l.tasks - 1; ended = l.ended + 1 }
after (reaps o) l = record l { ended = l.ended - 1 }
after (executes now) l = record l { executing = l.executing + 1 }
after (terminates now e) l = elim e.terminating_at [
  | none ↦ record l { executing = l.executing - 1; stopping = l.stopping + 1 }
  | some _ ↦ l
]
after (exits now e) l = elim e.terminating_at [
  | none ↦ record l { executing = l.executing - 1 }
  | some _ ↦ record l { stopping = l.stopping - 1 }
]
after _ l = l

-- The guard is alive.
abbrev pub Allowed : Op → Live → Type 0
Allowed (dequeues now q) l = 1 ≤ l.messages
Allowed (ends_task panicking o) l = 1 ≤ l.tasks
Allowed (reaps o) l = 1 ≤ l.ended
Allowed (terminates now e) l = elim e.terminating_at [ none ↦ 1 ≤ l.executing | some _ ↦ Unit {0} ]
Allowed (exits now e) l = elim e.terminating_at [ none ↦ 1 ≤ l.executing | some _ ↦ 1 ≤ l.stopping ]
Allowed _ l = Unit {0}

-- Every count is what is alive, and a task is tracked until it is collected.
pub record Balanced (m : Inner) (l : Live) : Type 0 where
  pub queue : m.counts.queued ≡ l.messages
  pub tracking : m.counts.tracked ≡ l.tasks + l.ended
  pub uncollected : m.counts.completed_uncollected ≡ l.ended
  pub execution : m.counts.running ≡ l.executing
  pub termination : m.counts.terminating ≡ l.stopping
  pub shown : m.work ≡ gauges_of m.counts
  pub no_error : m.errors ≡ 0

-- Each operation on a guard that is alive keeps every count equal to what is alive, shows the counts in
-- the gauges, and meets no accounting error.
pub apply-Balanced :
    (op : Op) (m : Inner) (l : Live)
    → Balanced m l
    → Allowed op l
    → Balanced (apply op m) (after op l)
unfolding apply configure enqueue drop_queued task_started drop_task task_reaped execution_started
    terminate drop_execution dispatch_stopped drain_finished publish_counts record_capacity
    decrement
apply-Balanced (configures q e t) m l b a = ground arith
apply-Balanced (enqueues now) m l b a = ground arith
apply-Balanced (dequeues now q) m l b a = ground arith
apply-Balanced starts_task m l b a = ground arith
apply-Balanced (ends_task panicking o) m l b a = ground arith
apply-Balanced (reaps o) m l b a = ground arith
apply-Balanced (executes now) m l b a = ground arith
apply-Balanced (terminates now e) m l b a = ground arith
apply-Balanced (exits now e) m l b a = ground arith
apply-Balanced (stops now) m l b a = ground arith
apply-Balanced (drains now) m l b a = ground arith

-- The states that a host reaches, each operation on a guard that is alive.
pub data Reaches : Inner → Live → Type 0 where
  started : Reaches new (record { messages = 0; tasks = 0; ended = 0; executing = 0; stopping = 0 })
  next :
      {m : Inner} {l : Live}
      → (op : Op) → Reaches m l
      → Allowed op l
      → Reaches (apply op m) (after op l)

-- In every state that a host reaches, the counts are what is alive, the gauges show them, and there was
-- no accounting error.
pub Reaches-Balanced : {m : Inner} {l : Live} → Reaches m l → Balanced m l
Reaches-Balanced started = record {
  queue = refl;
  tracking = refl;
  uncollected = refl;
  execution = refl;
  termination = refl;
  shown = refl;
  no_error = refl;
}
Reaches-Balanced (next {m} {l} op r a) = apply-Balanced op m l (Reaches-Balanced r) a
