-- ===== src/Host/Supervisor/Replies.antt =====
-- What invocation_supervisor.rs replies to an execution.
use wasm_platform.Base.{
  ◌⊎◌, ℕ, ◌≤◌, ◌<◌, ◌≡◌, ◌≢◌, refl, ◌↔◌, Bool, true, false, not, Bytes, ascii, List, Option, none,
  some, Result, arith,
}
use wasm_platform.Host.Dispatch.Counts.{Inner, Outcome, success, timeout}
use wasm_platform.Host.Invocation.{
  JoinError, Invocation, is_over, check, Work, returned, unwound, Exit, succeeded, cleanup_failed,
  work_failed, resumed_panic, blocking_run,
}
use wasm_platform.Host.Invocation.Ending.{
  Clean, after-deadline, blocking_run-panic, blocking_run-cancelled, blocking_run-success,
}
use wasm_platform.Host.Supervisor.Jobs.{
  Readings, ReplyTarget, Reply, guest, error_response, Completion, Job, executing, executed,
  replying, replied, complete, end_execution, conclude, collect,
}

check-is_over : (at : ℕ) (i : Invocation) (m : Inner) → (check at i m).1 ≡ not (is_over at i)
unfolding check
check-is_over at i m = ground arith

-- An execution that succeeded within its budget is the only one that is replied to with what it returned.
concluded :
    (at : Readings) (exit : Exit (Option Bytes)) (i : Invocation) (m : Inner) (outcome : Outcome)
    (body : Option Bytes)
    → (conclude (complete at exit i m).1 ≡ (outcome, guest body))
      ↔ ((outcome ≡ success) × (exit ≡ succeeded body) × (is_over at.checked i ≡ false))
unfolding conclude complete
concluded at (succeeded b) i m outcome body = ground (arith, check-is_over at.checked i m)
concluded at cleanup_failed i m outcome body = ground (arith, check-is_over at.checked i m)
concluded at work_failed i m outcome body = ground (arith, check-is_over at.checked i m)
concluded at resumed_panic i m outcome body = ground arith

concluded_late :
    (at : Readings) (exit : Exit (Option Bytes)) (i : Invocation) (m : Inner) (outcome : Outcome)
    (text : Bytes)
    → (conclude (complete at exit i m).1 ≡ (outcome, error_response 504 text)) ↔ (
        (outcome ≡ timeout)
        × (text ≡ ascii "invocation timed out")
        × (exit ≢ resumed_panic)
        × (is_over at.checked i ≡ true)
        × (i.deadline ≤ at.read))
unfolding conclude complete
concluded_late at (succeeded b) i m outcome text = ground (arith, check-is_over at.checked i m)
concluded_late at cleanup_failed i m outcome text = ground (arith, check-is_over at.checked i m)
concluded_late at work_failed i m outcome text = ground (arith, check-is_over at.checked i m)
concluded_late at resumed_panic i m outcome text = ground arith

-- What an execution leaves to its reply, with its outcome.
abbrev pub RepliesWith : Outcome → Reply → Option Job → Type 0
RepliesWith outcome reply none = ⊥
RepliesWith outcome reply (some (executing i revoked target)) = ⊥
RepliesWith outcome reply (some (executed i revoked target r)) = ⊥
RepliesWith outcome reply (some (replying label o told target r)) =
    ◌≡◌ {A = Outcome × Reply} (o, r) (outcome, reply)
RepliesWith outcome reply (some (replied label r)) = ⊥

collected :
    (revoked : Bool) (target : ReplyTarget) (i : Invocation) (r : Result JoinError Completion)
    (m : Inner) (outcome : Outcome) (reply : Reply)
    → RepliesWith outcome reply (collect (executed i revoked target r) m).0
      ↔ ((revoked ≡ false) × (conclude r ≡ (outcome, reply)))
unfolding collect
collected true target i r m outcome reply = (λ h. absurd h, λ h. absurd (ground (arith, h)))
collected false target i r m outcome reply = (λ h. (refl, h), λ h. h.1)

-- An execution that ended is replied to with what a guest returned, under whatever outcome, exactly if its
-- guest returned that, no cleanup failed, before or at the end, and it was neither revoked nor cancelled,
-- nor over its deadline at either of the two checks after its end; and the outcome is then a success.
pub end_execution-guest_iff :
    (ended : ℕ) (at : Readings) (work : Work (Option Bytes))
    (cleanup : List (Result JoinError (Unit {0}))) (i : Invocation) (revoked : Bool)
    (target : ReplyTarget) (m m' : Inner) (outcome : Outcome) (body : Option Bytes)
    → RepliesWith outcome
        (guest body)
        (collect (end_execution ended at work cleanup i revoked target m).0 m').0
      ↔ ((outcome ≡ success)
          × (work ≡ returned body)
          × (i.failure ≡ none)
          × Clean cleanup
          × (i.cancelled ≡ false)
          × (at.in_run < i.deadline)
          × (at.checked < i.deadline)
          × (revoked ≡ false))
unfolding end_execution
end_execution-guest_iff ended at work cleanup i revoked target m m' outcome body =
    let b = blocking_run ended at.in_run work cleanup i m in
    let c = complete at b.1 b.0.0 b.0.1 in
    let over = blocking_run-cancelled ended at.in_run work cleanup i m in
    let exit = blocking_run-success ended at.in_run work cleanup i m body in
    let last = collected revoked target c.0.0 c.1 m' outcome (guest body) in
    let kept = after-deadline ended at.in_run work cleanup i m in
    ground (arith, last, concluded at b.1 b.0.0 b.0.1 outcome body, over, kept, exit)

-- An execution that ended is replied to with a 504, under whatever outcome and of whatever text, exactly
-- if it was cancelled, or over its deadline at one of the two checks after its end, and was over its
-- deadline when that was read last, and was not revoked, whatever it returned, unless its guest panicked;
-- and the outcome is then a timeout, and the text says so.
pub end_execution-timeout_iff :
    (ended : ℕ) (at : Readings) (work : Work (Option Bytes))
    (cleanup : List (Result JoinError (Unit {0}))) (i : Invocation) (revoked : Bool)
    (target : ReplyTarget) (m m' : Inner) (outcome : Outcome) (text : Bytes)
    → RepliesWith outcome
        (error_response 504 text)
        (collect (end_execution ended at work cleanup i revoked target m).0 m').0
      ↔ ((outcome ≡ timeout)
          × (text ≡ ascii "invocation timed out")
          × (work ≢ unwound)
          × ((i.cancelled ≡ true) ⊎ (i.deadline ≤ at.in_run) ⊎ (i.deadline ≤ at.checked))
          × (i.deadline ≤ at.read)
          × (revoked ≡ false))
unfolding end_execution
end_execution-timeout_iff ended at work cleanup i revoked target m m' outcome text =
    let b = blocking_run ended at.in_run work cleanup i m in
    let c = complete at b.1 b.0.0 b.0.1 in
    let kept = after-deadline ended at.in_run work cleanup i m in
    let over = blocking_run-cancelled ended at.in_run work cleanup i m in
    let exit = blocking_run-panic ended at.in_run work cleanup i m in
    let last = collected revoked target c.0.0 c.1 m' outcome (error_response 504 text) in
    ground (arith, last, concluded_late at b.1 b.0.0 b.0.1 outcome text, over, kept, exit)
