-- ===== src/Host/Tests/Supervisor.antt =====
-- Runs of the supervisor of invocation_supervisor.rs.
use wasm_platform.Base.{
  ◌⊎◌, ℕ, ◌*◌, ◌≤◌, ◌<◌, ◌≡◌, ◌≢◌, refl, ◌↔◌, true, false, Bytes, ascii, List, ◌∷◌, [], Option,
  none, some, ok, err, arith, length, ℕ_discrete,
}
use wasm_platform.Base.Map.{get, insert, remove}
use wasm_platform.Host.Dispatch.Counts.{no_counts, new as new_metrics, success, timeout}
use wasm_platform.Host.Dispatch.Guards.{enqueue, execution_started, terminate}
use wasm_platform.Host.Dispatch.Balance.{Live, Balanced, Reaches-Balanced, started as started_host}
use wasm_platform.Host.Invocation.{
  task_panicked, Invocation, with_metrics, cancel, check, start_execution, end_execution,
  collect_all, finish, run as run_invocation, Work, returned, failed, unwound, exit_of,
  blocking_run,
}
use wasm_platform.Host.Invocation.Ending.{
  plus, start_execution-Balanced, Ended, Clean, blocking_run-Ended,
}
use wasm_platform.Host.Supervisor.Jobs.{
  Readings, ReplyTarget, guest, error_response, executed, cancel_job, complete,
  end_execution as end_job, collect as collect_job,
}
use wasm_platform.Host.Supervisor.Replies.{
  RepliesWith, end_execution-guest_iff, end_execution-timeout_iff,
}
use wasm_platform.Host.Supervisor.Loop.{
  InvocationSupervisor, new, reserve, receive, spawn, cancel_jobs, discard, cancel_untrusted_work,
  give_up, stop, shut_down, authority_changed, take_message, found, dismiss, accept, dispatch,
  admit,
}
use wasm_platform.Host.Supervisor.Steps.{
  finish_execution, join_next, end_intake, drain, finish_drain, Event, step, Reaches, started, next,
  reserves, ends_intake, receives, shuts_down, takes, admits, ends_execution, drains, finishes,
}
use wasm_platform.Host.Supervisor.Steps.Invariant.{IsValid}
use wasm_platform.Host.Supervisor.Steps.Reached.{Reaches-IsValid, finished-empty}
use wasm_platform.Host.Supervisor.Steps.Draining.{advances}
use wasm_platform.Host.Supervisor.Steps.Drained.{
  run, Completes, advances-terminate, drain-Completes,
}
use wasm_platform.Host.Supervisor.Steps.Revoking.{authority_changed-join_next}

Reaches-run :
    (events : List Event) (s : InvocationSupervisor) → Reaches 1 1 s → Reaches 1 1 (run events s)
Reaches-run [] s r = r
Reaches-run (e ∷ events) s r = Reaches-run events (step e s) (next e r)

abbrev fresh : InvocationSupervisor
fresh = new 1 1 new_metrics

-- A message is received, taken and executed.
abbrev to_busy : List Event
to_busy = reserves ∷ receives 0 10 true ∷ takes 1 true ∷ admits 1 1 true true found ∷ []

abbrev busy : InvocationSupervisor
busy = run to_busy fresh

abbrev to_drained : List Event
to_drained = shuts_down 5 ∷ ends_intake ∷ drains 6 ∷ finishes 7 ∷ []

abbrev a_target : ReplyTarget
a_target = record { subject = true; client = true }

abbrev reads : ℕ → Readings
reads n = record { in_run = n; checked = n; read = n }

abbrev to_executed : List Event
to_executed = ends_execution 0 2 (reads 2) (returned none) [] ∷ []

Reaches-IsValid_example : IsValid 1 1 busy
Reaches-IsValid_example = Reaches-IsValid (Reaches-run to_busy fresh started)

finished-empty_example :
    ((run to_drained fresh).metrics.counts ≡ no_counts)
    × ((run to_drained fresh).messages ≡ [])
    × ((run to_drained fresh).slots ≡ 1)
unfolding step new shut_down stop give_up end_intake drain finish_drain
finished-empty_example = finished-empty (Reaches-run to_drained fresh started) refl

test_job :
    get ℕ_discrete 0 (run to_executed (authority_changed 2 true busy)).jobs
    ≡ some (
        executed
          (record { deadline = 10; cancelled = true; failure = none; execution = none })
          true
          a_target
          (ok (record { result = some none; is_cancelled = true; is_expired = false })))
unfolding step new reserve receive take_message admit run_invocation check cancel dispatch accept
    dismiss spawn start_execution execution_started authority_changed cancel_untrusted_work
    cancel_jobs cancel_job discard give_up finish_execution end_job complete blocking_run finish
    collect_all exit_of terminate get insert remove ℕ_discrete end_execution with_metrics enqueue
test_job = refl

authority_changed-join_next_example :
    ((join_next 0 (run to_executed (authority_changed 2 true busy))).jobs
      ≡ remove ℕ_discrete 0 (run to_executed (authority_changed 2 true busy)).jobs)
    × ((join_next 0 (run to_executed (authority_changed 2 true busy))).next_id
        ≡ (run to_executed (authority_changed 2 true busy)).next_id)
unfolding step new reserve receive take_message admit run_invocation check cancel dispatch accept
    dismiss spawn with_metrics
authority_changed-join_next_example =
    authority_changed-join_next busy 2 true to_executed 0
      (record { deadline = 10; cancelled = true; failure = none; execution = none }) true a_target
      (ok (record { result = some none; is_cancelled = true; is_expired = false })) refl
      (omega arith) test_job

advances-terminate_example : length to_executed ≤ 4 * 1
unfolding step new reserve receive take_message admit run_invocation check cancel dispatch accept
    dismiss spawn start_execution execution_started advances get insert remove ℕ_discrete
    with_metrics enqueue
advances-terminate_example =
    advances-terminate to_executed (Reaches-run to_busy fresh started) (refl, tt)

abbrev to_draining : List Event
to_draining =
    reserves
    ∷ receives 0 10 true
    ∷ takes 1 true
    ∷ admits 1 1 true true found
    ∷ shuts_down 5
    ∷ ends_intake
    ∷ drains 6
    ∷ []

drain-Completes_example : Completes 1 1 (run to_draining fresh) (4 * 1)
unfolding step new reserve receive take_message admit run_invocation check cancel dispatch accept
    dismiss spawn shut_down stop give_up end_intake drain with_metrics
drain-Completes_example = drain-Completes (Reaches-run to_draining fresh started) refl

-- An execution that started at 0 with a budget of 10.
abbrev invocation : Invocation
invocation = with_metrics 0 10

abbrev nothing : Live
nothing = record { messages = 0; tasks = 0; ended = 0; executing = 0; stopping = 0 }

executing_now :
    Balanced
      (start_execution 0 invocation new_metrics).1
      (plus nothing (start_execution 0 invocation new_metrics).0.execution)
executing_now =
    start_execution-Balanced 0 nothing invocation new_metrics (Reaches-Balanced started_host)

blocking_run-Ended_example :
    Ended {A = ℕ} 3
      (returned 7)
      (err task_panicked ∷ [])
      nothing
      (start_execution 0 invocation new_metrics).0
      (blocking_run 3 3
        (returned 7)
        (err task_panicked ∷ [])
        (start_execution 0 invocation new_metrics).0
        (start_execution 0 invocation new_metrics).1)
blocking_run-Ended_example =
    blocking_run-Ended 3 3 (returned 7) (err task_panicked ∷ []) nothing
      (start_execution 0 invocation new_metrics).0 (start_execution 0 invocation new_metrics).1
      executing_now

end_execution-guest_iff_example :
    RepliesWith success
      (guest (some (ascii "hi")))
      (collect_job
        (end_job 3
          (reads 3)
          (returned (some (ascii "hi")))
          []
          invocation
          false
          a_target
          new_metrics).0
        new_metrics).0
    ↔ ((success ≡ success)
        × (returned (some (ascii "hi")) ≡ returned (some (ascii "hi")))
        × (invocation.failure ≡ none)
        × Clean []
        × (invocation.cancelled ≡ false)
        × (3 < invocation.deadline)
        × (3 < invocation.deadline)
        × (false ≡ false))
end_execution-guest_iff_example =
    end_execution-guest_iff 3 (reads 3) (returned (some (ascii "hi"))) [] invocation false a_target
      new_metrics new_metrics success (some (ascii "hi"))

end_execution-timeout_iff_example :
    RepliesWith timeout
      (error_response 504 (ascii "invocation timed out"))
      (collect_job
        (end_job 12 (reads 12) failed [] invocation false a_target new_metrics).0
        new_metrics).0
    ↔ ((timeout ≡ timeout)
        × (ascii "invocation timed out" ≡ ascii "invocation timed out")
        × (◌≢◌ {A = Work (Option Bytes)} failed unwound)
        × ((invocation.cancelled ≡ true) ⊎ (invocation.deadline ≤ 12) ⊎ (invocation.deadline ≤ 12))
        × (invocation.deadline ≤ 12)
        × (false ≡ false))
end_execution-timeout_iff_example =
    end_execution-timeout_iff 12 (reads 12) failed [] invocation false a_target new_metrics
      new_metrics timeout (ascii "invocation timed out")
