-- ===== src/Host/Invocation.antt =====
-- components/execution-host/src/invocation.rs: the budget that an invocation's queueing, execution and
-- host calls share, and the cleanup that it waits for. The shared state is a record beside the `Inner`
-- of dispatch_metrics.rs; instants are arguments. Every invocation of the host has its metrics.
pub mod Ending
use wasm_platform.Base.{
  ℕ, ◌+◌, Bool, true, false, not, ◌||◌, ◌&&◌, List, ◌∷◌, [], Option, none, some, Result, ok, err,
  if◌then◌else◌, leb,
}
use wasm_platform.Host.Dispatch.Counts.{Inner}
use wasm_platform.Host.Dispatch.Guards.{Execution, execution_started, terminate, drop_execution}

-- How a cleanup task failed.
pub data JoinError : Type 0 where
  task_panicked task_cancelled : JoinError

-- `InvocationState`, less the tasks that `cleanup` still runs.
pub record Invocation : Type 0 where
  pub deadline : ℕ
  pub cancelled : Bool
  pub failure : Option JoinError
  pub execution : Option Execution

-- `Invocation::with_metrics`, at `now`.
unfoldable pub with_metrics : ℕ → ℕ → Invocation
with_metrics now timeout = record {
  deadline = now + timeout;
  cancelled = false;
  failure = none;
  execution = none;
}

unfoldable pub cancel : ℕ → Invocation → Inner → Invocation × Inner
cancel now i m = elim i.execution [
  | none ↦ (record i { cancelled = true }, m)
  | some e ↦ let r = terminate now m e in (record i { cancelled = true; execution = some r.1 }, r.0)
]

-- Whether the budget is spent.
abbrev pub is_over : ℕ → Invocation → Bool
is_over now i = i.cancelled || leb i.deadline now

-- `check`, where `false` is its error.
unfoldable pub check : ℕ → Invocation → Inner → (Invocation × Inner) × Bool
check now i m = let c = cancel now i m in if is_over now i then (c, false) else ((i, m), true)

unfoldable pub start_execution : ℕ → Invocation → Inner → Invocation × Inner
start_execution now i m =
    let r = execution_started now m in (check now (record i { execution = some r.1 }) r.0).0

-- The drop of an `ExecutionOwnership`.
unfoldable pub end_execution : ℕ → Invocation → Inner → Invocation × Inner
end_execution now i m = elim i.execution [
  | none ↦ (i, m)
  | some e ↦ (record i { execution = none }, drop_execution now e m)
]

-- `CleanupTasks::collect`: the first failure stays.
unfoldable pub collect : Result JoinError (Unit {0}) → Option JoinError → Option JoinError
collect (ok u) failure = failure
collect (err e) none = some e
collect (err e) (some first) = some first

-- The loop of `finish`, over the tasks in the order that they end.
unfoldable pub collect_all :
    List (Result JoinError (Unit {0})) → Option JoinError → Option JoinError
collect_all [] failure = failure
collect_all (r ∷ results) failure = collect_all results (collect r failure)

-- What `finish` returns is whether no cleanup failed.
unfoldable pub finish : List (Result JoinError (Unit {0})) → Invocation → Invocation × Bool
finish results i =
    let failure = collect_all results i.failure in
    (record i { failure = failure }, elim failure [ none ↦ true | some _ ↦ false ])

-- A future under `run`: what it gives if it ends before the invocation is cancelled or over.
unfoldable pub run {ℓ} :
    {A : Type ℓ} → ℕ → ℕ → Option A → Invocation → Inner → (Invocation × Inner) × Option A
run now later none i m =
    let c = check now i m in if c.1 then (cancel later c.0.0 c.0.1, none) else (c.0, none)
run now later (some a) i m = let c = check now i m in if c.1 then (c.0, some a) else (c.0, none)

-- How the guest's work ended, and how the whole execution did.
pub data Work {ℓ} (A : Type ℓ) : Type ℓ where
  returned : A → Work A
  failed : Work A
  unwound : Work A

abbrev pub is_panic {ℓ} : {A : Type ℓ} → Work A → Bool
is_panic (returned a) = false
is_panic failed = false
is_panic unwound = true

pub data Exit {ℓ} (A : Type ℓ) : Type ℓ where
  succeeded : A → Exit A
  cleanup_failed work_failed resumed_panic : Exit A

unfoldable pub exit_of {ℓ} : {A : Type ℓ} → Work A → Bool → Exit A
exit_of unwound clean = resumed_panic
exit_of failed clean = if clean then work_failed else cleanup_failed
exit_of (returned a) clean = if clean then succeeded a else cleanup_failed

-- `BlockingInvocation::run`, once the work has ended: the panic cancels, the cleanup ends, and the
-- ownership of the execution is dropped at the return or in the unwinding.
unfoldable pub blocking_run {ℓ} :
    {A : Type ℓ}
    → ℕ
    → ℕ
    → Work A
    → List (Result JoinError (Unit {0}))
    → Invocation
    → Inner
    → (Invocation × Inner) × Exit A
blocking_run ended at work cleanup i m =
    let c = if is_panic work then cancel ended i m else (i, m) in
    let f = finish cleanup c.0 in
    let k = check at f.0 c.1 in (end_execution at k.0.0 k.0.1, exit_of work f.1)
