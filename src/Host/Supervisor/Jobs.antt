-- ===== src/Host/Supervisor/Jobs.antt =====
-- The jobs of invocation_supervisor.rs, and how each of them is cancelled, ends and is collected. A job
-- is an entry of `jobs` with what its task is at: the task's result, once it has one, stands in the job
-- until it is collected.
use wasm_platform.Base.{
  ℕ, Bool, true, false, not, ◌&&◌, Bytes, ascii, List, Option, none, some, Result, ok, err,
  if◌then◌else◌, leb,
}
use wasm_platform.Host.Dispatch.Counts.{
  Inner, Outcome, success, timeout, error, panic, cancelled, Reaped, joined, panicked, aborted,
}
use wasm_platform.Host.Dispatch.Guards.{drop_task, task_reaped}
use wasm_platform.Host.Invocation.{
  JoinError, task_panicked, task_cancelled, Invocation, cancel, check, Work, Exit, succeeded,
  blocking_run, resumed_panic, cleanup_failed, work_failed,
}

-- `ReplyTarget`: whether the message names a reply subject, and whether there is a client.
pub record ReplyTarget : Type 0 where
  pub subject : Bool
  pub client : Bool

pub data ReplyOutcome : Type 0 where
  sent not_requested unavailable failed timed_out : ReplyOutcome

-- What the client answers to a publication.
pub data Publication : Type 0 where
  accepted refused stalled : Publication

-- What a job replies: the guest's response, or an `error_response`, which serializes.
pub data Reply : Type 0 where
  guest : Option Bytes → Reply
  error_response : ℕ → Bytes → Reply

abbrev pub has_body : Reply → Bool
has_body (guest none) = false
has_body (guest (some body)) = true
has_body (error_response status text) = true

unfoldable pub publish : ReplyTarget → Reply → Publication → ReplyOutcome
publish target reply answer =
    if not (target.subject && has_body reply)
    then not_requested
    else (if not target.client
        then unavailable
        else (elim answer [ accepted ↦ sent | refused ↦ failed | stalled ↦ timed_out ]))

-- `Completion::Execution` of a blocking task that did not fail; the result `none` is an error.
pub record Completion : Type 0 where
  pub result : Option (Option Bytes)
  pub is_cancelled : Bool
  pub is_expired : Bool

-- `OwnedJob`, with its task: the flag of an execution is `authority_revoked`, that of a reply says that
-- its task was told to abort.
pub data Job : Type 0 where
  executing : Invocation → Bool → ReplyTarget → Job
  executed : Invocation → Bool → ReplyTarget → Result JoinError Completion → Job
  replying : Reaped → Outcome → Bool → ReplyTarget → Reply → Job
  replied : Reaped → Result JoinError (Unit {0}) → Job

-- A job under `cancel_untrusted_work`.
unfoldable pub cancel_job : ℕ → Job → Inner → Job × Inner
cancel_job now (executing i revoked target) m =
    let c = cancel now i m in (executing c.0 true target, c.1)
cancel_job now (executed i revoked target r) m =
    let c = cancel now i m in (executed c.0 true target r, c.1)
cancel_job now (replying label outcome aborts target reply) m =
    (replying label outcome true target reply, m)
cancel_job now (replied label r) m = (replied label r, m)

abbrev pub result_of : Exit (Option Bytes) → Option (Option Bytes)
result_of (succeeded body) = some body
result_of cleanup_failed = none
result_of work_failed = none
result_of resumed_panic = none

-- When an execution reads the clock at its end: in the last `check` of its run, in the `check` after it,
-- and for the test of the deadline.
pub record Readings : Type 0 where
  pub in_run : ℕ
  pub checked : ℕ
  pub read : ℕ

-- The closure of `spawn_execution`: after the run, `check`, and the test of the deadline. A panic that
-- is resumed skips both.
unfoldable pub complete :
    Readings
    → Exit (Option Bytes)
    → Invocation
    → Inner
    → (Invocation × Inner) × Result JoinError Completion
complete at resumed_panic i m = ((i, m), err task_panicked)
complete at exit i m =
    let c = check at.checked i m in
    (
      c.0,
      ok (record {
        result = result_of exit;
        is_cancelled = not c.1;
        is_expired = leb i.deadline at.read;
      }),
    )

unfoldable pub end_execution :
    ℕ
    → Readings
    → Work (Option Bytes)
    → List (Result JoinError (Unit {0}))
    → Invocation
    → Bool
    → ReplyTarget
    → Inner
    → Job × Inner
end_execution ended at work cleanup i revoked target m =
    let b = blocking_run ended at.in_run work cleanup i m in
    let c = complete at b.1 b.0.0 b.0.1 in (executed c.0.0 revoked target c.1, c.0.1)

abbrev pub join_outcome {ℓ} : {A : Type ℓ} → Result JoinError A → Reaped
join_outcome (ok a) = joined
join_outcome (err task_panicked) = panicked
join_outcome (err task_cancelled) = aborted

-- The outcome of a collected execution, and what it replies.
unfoldable pub conclude : Result JoinError Completion → Outcome × Reply
conclude (err task_panicked) =
    (panic, error_response 500 (ascii "internal error: execution panicked"))
conclude (err task_cancelled) =
    (cancelled, error_response 500 (ascii "internal error: execution panicked"))
conclude (ok c) =
    if c.is_cancelled
    then (if c.is_expired
        then (timeout, error_response 504 (ascii "invocation timed out"))
        else (cancelled, error_response 500 (ascii "invocation cancelled")))
    else (elim c.result [
      | some body ↦ (success, guest body)
      | none ↦ (error, error_response 500 (ascii "internal error: invocation failed"))
    ])

-- How the task of a reply ends: by a publication, in a panic, or aborted.
pub data ReplyEnd : Type 0 where
  published : Publication → ReplyEnd
  unwinds : ReplyEnd
  aborts : ReplyEnd

abbrev pub is_lost : ReplyOutcome → Bool
is_lost sent = false
is_lost not_requested = false
is_lost unavailable = true
is_lost failed = true
is_lost timed_out = true

-- A success whose reply is lost is an error.
abbrev pub reply_outcome : Outcome → ReplyOutcome → Outcome
reply_outcome success r = if is_lost r then error else success
reply_outcome timeout r = timeout
reply_outcome error r = error
reply_outcome panic r = panic
reply_outcome cancelled r = cancelled
reply_outcome outcome r = outcome

-- The task of `spawn_reply`, whose record says `cancelled` until the publication ended.
unfoldable pub end_reply : ReplyEnd → Reaped → Outcome → ReplyTarget → Reply → Inner → Job × Inner
end_reply (published answer) label outcome target reply m =
    (replied label (ok tt), drop_task false (reply_outcome outcome (publish target reply answer)) m)
end_reply unwinds label outcome target reply m =
    (replied label (err task_panicked), drop_task true cancelled m)
end_reply aborts label outcome target reply m =
    (replied label (err task_cancelled), drop_task false cancelled m)

-- What `collect` does with a job whose task has its result: the job that follows it, if one does.
unfoldable pub collect : Job → Inner → Option Job × Inner
collect (executing i revoked target) m = (some (executing i revoked target), m)
collect (executed i revoked target r) m =
    if revoked
    then (none, task_reaped aborted (drop_task false cancelled m))
    else (some (replying (join_outcome r) (conclude r).0 false target (conclude r).1), m)
collect (replying label outcome told target reply) m =
    (some (replying label outcome told target reply), m)
collect (replied label (ok u)) m = (none, task_reaped label m)
collect (replied label (err e)) m = (none, task_reaped (join_outcome {A = Unit {0}} (err e)) m)
