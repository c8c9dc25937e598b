-- ===== src/Host/Supervisor/Steps/Moves.antt =====
-- What each change of a job or a message of invocation_supervisor.rs does to the accounting.
use wasm_platform.Base.{
  ℕ, ◌+◌, ◌-◌, ◌≡◌, refl, Bool, true, false, List, ◌∷◌, [], Option, none, some, Result, ok, err,
  arith, Bytes, length, ℕ_discrete,
}
use wasm_platform.Base.Map.{total, Each, get, Distinct}
use wasm_platform.Host.Dispatch.Counts.{Inner, Limits, Outcome, Reaped, aborted, cancelled}
use wasm_platform.Host.Dispatch.Guards.{QueuedWork, drop_queued, drop_task, task_reaped}
use wasm_platform.Host.Dispatch.Balance.{Live}
use wasm_platform.Host.Invocation.{
  JoinError, Invocation, cancel, check, Work, blocking_run, Exit, succeeded, cleanup_failed,
  work_failed, resumed_panic,
}
use wasm_platform.Host.Invocation.Ending.{plus, blocking_run-Ended}
use wasm_platform.Host.Supervisor.Jobs.{
  ReplyTarget, Reply, Job, executing, executed, replying, replied, ReplyEnd, published, unwinds,
  aborts, cancel_job, Readings, complete, end_execution, end_reply, collect,
}
use wasm_platform.Host.Supervisor.Loop.{InvocationMessage, cancel_jobs, discard}
use wasm_platform.Host.Supervisor.Steps.{has_ended}
use wasm_platform.Host.Supervisor.Steps.Totals.{
  share, shares, a_task, add, has_permit, permits, IsIdle, share-messages,
}
use wasm_platform.Host.Supervisor.Steps.Shape.{Waits, IsOwned}
use wasm_platform.Host.Supervisor.Steps.Steady.{
  Steady, recount, cancel-Steady, check-Steady, blocking_run-Steady, drop_task-Steady,
  task_reaped-Steady, drop_queued-Steady, cancel-idle, check-idle,
}

complete-idle :
    (at : Readings) (exit : Exit (Option Bytes)) (i : Invocation) (m : Inner)
    → i.execution ≡ none
    → ((complete at exit i m).0.1 ≡ m) × ((complete at exit i m).0.0.execution ≡ none)
unfolding complete
complete-idle at (succeeded body) i m h = check-idle at.checked i m h
complete-idle at cleanup_failed i m h = check-idle at.checked i m h
complete-idle at work_failed i m h = check-idle at.checked i m h
complete-idle at resumed_panic i m h = (refl, h)

-- A change of a job, in the accounting `add rest (share j)`.
pub record Moved (limits : Limits) (rest : Live) (r : Job × Inner) : Type 0 where
  pub counts : Steady limits r.1 (add rest (share r.0))
  pub idle : IsIdle r.0

-- What a collected job leaves: nothing, or the job that follows it.
abbrev pub Followed : Limits → Live → Option Job → Inner → Type 0
Followed limits rest none m = Steady limits m rest
Followed limits rest (some j) m = Moved limits rest (j, m) × (has_permit j ≡ 0)

module _ (limits : Limits) (rest : Live) where
  pub end_execution-Moved :
      (ended : ℕ) (at : Readings) (work : Work (Option Bytes))
      (cleanup : List (Result JoinError (Unit {0}))) (i : Invocation) (revoked : Bool)
      (target : ReplyTarget) (m : Inner)
      → Steady limits m (add rest (share (executing i revoked target)))
      → Moved limits rest (end_execution ended at work cleanup i revoked target m)
        × (has_permit (end_execution ended at work cleanup i revoked target m).0 ≡ 0)
  unfolding end_execution
  end_execution-Moved ended at work cleanup i revoked target m s =
      let s' =
        recount limits m (add rest (share (executing i revoked target)))
          (plus (add rest a_task) i.execution) s refl refl refl (omega arith) (omega arith) in
      let b = blocking_run ended at.in_run work cleanup i m in
      let e = blocking_run-Ended ended at.in_run work cleanup (add rest a_task) i m s'.counts in
      let c = complete-idle at b.1 b.0.0 b.0.1 e.guard in
      let counts =
        blocking_run-Steady limits ended at.in_run work cleanup (add rest a_task) i m s' in
      (
        record {
          counts =
              recount limits (complete at b.1 b.0.0 b.0.1).0.1 (add rest a_task)
                (add rest (plus a_task (complete at b.1 b.0.0 b.0.1).0.0.execution))
                (ground (arith, counts, c)) refl refl refl (ground (arith, c)) (ground (arith, c));
          idle = c.1;
        },
        refl,
      )

  pub check-Moved :
      (now : ℕ) (i : Invocation) (revoked : Bool) (target : ReplyTarget) (m : Inner)
      → Steady limits m (add rest (share (executing i revoked target)))
      → Moved limits rest (executing (check now i m).0.0 revoked target, (check now i m).0.1)
  check-Moved now i revoked target m s =
      let s' =
        recount limits m (add rest (share (executing i revoked target)))
          (plus (add rest a_task) i.execution) s refl refl refl (omega arith) (omega arith) in
      record {
        counts =
            recount limits (check now i m).0.1
              (plus (add rest a_task) (check now i m).0.0.execution)
              (add rest (plus a_task (check now i m).0.0.execution))
              (check-Steady limits now (add rest a_task) i m s') refl refl refl (omega arith)
              (omega arith);
        idle = tt;
      }

  drop_task-Moved :
      (label : Reaped) (r : Result JoinError (Unit {0})) (panicking : Bool) (o : Outcome)
      (m : Inner)
      → Steady limits m (add rest a_task)
      → Moved limits rest (replied label r, drop_task panicking o m)
  drop_task-Moved label r panicking o m s = record {
    counts =
        recount limits (drop_task panicking o m) _ (add rest (share (replied label r)))
          (drop_task-Steady limits panicking o m (add rest a_task) s (omega arith)) (omega arith)
          (omega arith) (omega arith) (omega arith) (omega arith);
    idle = tt;
  }

  pub end_reply-Moved :
      (end : ReplyEnd) (label : Reaped) (outcome : Outcome) (target : ReplyTarget) (reply : Reply)
      (m : Inner)
      → Steady limits m (add rest a_task)
      → Moved limits rest (end_reply end label outcome target reply m)
        × (has_permit (end_reply end label outcome target reply m).0 ≡ 0)
  unfolding end_reply
  end_reply-Moved (published answer) label outcome target reply m s =
      (drop_task-Moved label (ok tt) false _ m s, refl)
  end_reply-Moved unwinds label outcome target reply m s =
      (drop_task-Moved label _ true cancelled m s, refl)
  end_reply-Moved aborts label outcome target reply m s =
      (drop_task-Moved label _ false cancelled m s, refl)

  pub cancel_job-Moved :
      (now : ℕ) (j : Job) (m : Inner)
      → Steady limits m (add rest (share j))
      → IsIdle j
      → Moved limits rest (cancel_job now j m) × (has_permit (cancel_job now j m).0 ≡ has_permit j)
  unfolding cancel_job
  cancel_job-Moved now (executing i revoked target) m s idle =
      let s' =
        recount limits m (add rest (share (executing i revoked target)))
          (plus (add rest a_task) i.execution) s refl refl refl (omega arith) (omega arith) in
      (
        record {
          counts =
              recount limits (cancel now i m).1
                (plus (add rest a_task) (cancel now i m).0.execution)
                (add rest (plus a_task (cancel now i m).0.execution))
                (cancel-Steady limits now (add rest a_task) i m s') refl refl refl (omega arith)
                (omega arith);
          idle = tt;
        },
        refl,
      )
  cancel_job-Moved now (executed i revoked target r) m s idle =
      let c = cancel-idle now i m idle in
      (record { counts = ground (arith, c, s, idle); idle = c.1 }, refl)
  cancel_job-Moved now (replying label outcome told target reply) m s idle =
      (record { counts = s; idle = tt }, refl)
  cancel_job-Moved now (replied label r) m s idle = (record { counts = s; idle = tt }, refl)

  drop-reap-Steady :
      (panicking : Bool) (o : Outcome) (label : Reaped) (m : Inner)
      → Steady limits m (add rest a_task)
      → Steady limits (task_reaped label (drop_task panicking o m)) rest
  drop-reap-Steady panicking o label m s =
      recount limits (task_reaped label (drop_task panicking o m)) _ rest
        (task_reaped-Steady limits label (drop_task panicking o m) _
          (drop_task-Steady limits panicking o m (add rest a_task) s (omega arith)) (omega arith))
        (omega arith) (omega arith) (omega arith) (omega arith) (omega arith)

  reap-Steady :
      (label label' : Reaped) (r : Result JoinError (Unit {0})) (m : Inner)
      → Steady limits m (add rest (share (replied label' r)))
      → Steady limits (task_reaped label m) rest
  reap-Steady label label' r m s =
      recount limits (task_reaped label m) _ rest
        (task_reaped-Steady limits label m (add rest (share (replied label' r))) s (omega arith))
        (omega arith) (omega arith) (omega arith) (omega arith) (omega arith)

  unguarded :
      (i : Invocation) (m : Inner)
      → i.execution ≡ none
      → Steady limits m (add rest (plus a_task i.execution))
      → Steady limits m (add rest a_task)
  unguarded i m h s =
      recount limits m (add rest (plus a_task i.execution)) (add rest a_task) s refl refl refl
        (ground (arith, h)) (ground (arith, h))

  -- A collected job has no permit, and leaves the accounting to the job that follows it.
  pub collect-Followed :
      (j : Job) (m : Inner)
      → Steady limits m (add rest (share j))
      → IsIdle j
      → has_ended j ≡ true
      → (has_permit j ≡ 0) × Followed limits rest (collect j m).0 (collect j m).1
  unfolding collect
  collect-Followed (executing i revoked target) m s idle h = absurd (ground arith)
  collect-Followed (executed i true target r) m s idle h =
      (refl, drop-reap-Steady false cancelled aborted m (unguarded i m idle s))
  collect-Followed (executed i false target r) m s idle h =
      (refl, (record { counts = unguarded i m idle s; idle = tt }, refl))
  collect-Followed (replying label outcome told target reply) m s idle h = absurd (ground arith)
  collect-Followed (replied label (ok u)) m s idle h = (refl, reap-Steady label label (ok u) m s)
  collect-Followed (replied label (err e)) m s idle h = (refl, reap-Steady _ label (err e) m s)

-- `cancel_jobs` keeps the ids, the permits and the accounting.
pub record Revoked (limits : Limits) (rest : Live) (n : ℕ) (jobs : List (ℕ × Job))
    (r : List (ℕ × Job) × Inner) : Type 0 where
  pub counts : Steady limits r.1 (add rest (shares r.0))
  pub permits_kept : permits r.0 ≡ permits jobs
  pub length_kept : length r.0 ≡ length jobs
  pub absent_kept : (id : ℕ) → get ℕ_discrete id jobs ≡ none → get ℕ_discrete id r.0 ≡ none
  pub distinct : Distinct ℕ_discrete r.0
  pub owned : Each (IsOwned n) r.0

-- The messages and the invocations of a list are dropped.
pub discard-Steady :
    (limits : Limits) (rest : Live) (now : ℕ) (label : QueuedWork → QueuedWork)
    (messages : List InvocationMessage) (m : Inner)
    → Waits messages
    → Steady limits m (record rest { messages = length messages + rest.messages })
    → Steady limits (discard now label messages m) rest
unfolding discard
discard-Steady limits rest now label [] m w s =
    recount limits m (record rest { messages = 0 + rest.messages }) rest s (omega arith) refl refl
      refl refl
discard-Steady limits rest now label (x ∷ messages) m w s =
    let c = cancel-idle now x.invocation m w.0 in
    let m' = (cancel now x.invocation m).1 in
    let k : Live = record rest { messages = length (x ∷ messages) + rest.messages } in
    let s' : Steady limits m' k = ground (arith, c, s) in
    discard-Steady limits rest now label messages (drop_queued now (label x.queued) m') w.1 (
      recount limits (drop_queued now (label x.queued) m') (record k { messages = k.messages - 1 })
        (record rest { messages = length messages + rest.messages })
        (drop_queued-Steady limits now (label x.queued) m' k s' (omega arith)) (omega arith) refl
        refl refl refl)

pub cancel_jobs-Revoked :
    (limits : Limits) (rest : Live) (n now : ℕ) (jobs : List (ℕ × Job)) (m : Inner)
    → Steady limits m (add rest (shares jobs))
    → Distinct ℕ_discrete jobs
    → Each (IsOwned n) jobs
    → Revoked limits rest n jobs (cancel_jobs now jobs m)
unfolding cancel_jobs total get
cancel_jobs-Revoked limits rest n now [] m s d e = record {
  counts = s;
  permits_kept = refl;
  length_kept = refl;
  absent_kept = λ id h. h;
  distinct = tt;
  owned = tt;
}
cancel_jobs-Revoked limits rest n now ((id, j) ∷ jobs) m s d e =
    let c = cancel_job now j m in
    let one =
      cancel_job-Moved limits (add rest (shares jobs)) now j m
        (recount limits m (add rest (shares ((id, j) ∷ jobs)))
          (add (add rest (shares jobs)) (share j)) s (omega (arith, share-messages j)) (omega arith)
          (omega arith) (omega arith) (omega arith))
        e.0.1 in
    let more =
      cancel_jobs-Revoked limits (add rest (share c.0)) n now jobs c.1
        (recount limits c.1 (add (add rest (shares jobs)) (share c.0))
          (add (add rest (share c.0)) (shares jobs)) one.0.counts
          (omega (arith, share-messages c.0)) (omega arith) (omega arith) (omega arith)
          (omega arith))
        d.1 e.1 in
    let r = cancel_jobs now jobs c.1 in
    record {
      counts =
          recount limits r.1 (add (add rest (share c.0)) (shares r.0))
            (add rest (shares ((id, c.0) ∷ r.0))) more.counts (omega (arith, share-messages c.0))
            (omega arith) (omega arith) (omega arith) (omega arith);
      permits_kept = omega (arith, one.1, more.permits_kept);
      length_kept = omega (arith, more.length_kept);
      absent_kept = λ k h. ground (arith, more.absent_kept k);
      distinct = (more.absent_kept id d.0, more.distinct);
      owned = ((e.0.0, one.0.idle), more.owned);
    }
