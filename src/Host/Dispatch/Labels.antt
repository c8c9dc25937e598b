-- ===== src/Host/Dispatch/Labels.antt =====
-- The labels that dispatch_metrics.rs keeps of the outcomes that it is given: any other text is one label.
use wasm_platform.Base.{Bytes, ascii, List, ◌∷◌, [], if◌then◌else◌, bytes_eq}
use wasm_platform.Host.Dispatch.Counts.{
  Outcome, success, timeout, error, panic, cancelled, rejected, other, QueueOutcome, admitted,
  expired, unknown_route, module_unavailable, failed, shutdown, unknown, Reaped, joined, panicked,
  aborted, unnamed,
}
use wasm_platform.Host.Dispatch.Guards.{QueuedWork}

-- The value of the first text that is the outcome.
unfoldable pub labelled {ℓ} : {A : Type ℓ} → A → List (Bytes × A) → Bytes → A
labelled fallback [] outcome = fallback
labelled fallback ((text, a) ∷ labels) outcome =
    let rest = labelled fallback labels outcome in if bytes_eq text outcome then a else rest

-- `bounded_outcome`, which `TaskRecord::set_outcome` stores.
unfoldable pub bounded_outcome : Bytes → Outcome
bounded_outcome = labelled other (
    (ascii "ok", success)
    ∷ (ascii "success", success)
    ∷ (ascii "timeout", timeout)
    ∷ (ascii "error", error)
    ∷ (ascii "panic", panic)
    ∷ (ascii "cancelled", cancelled)
    ∷ (ascii "rejected", rejected)
    ∷ [])

unfoldable pub queue_outcome : Bytes → QueueOutcome
queue_outcome = labelled unknown (
    (ascii "admitted", admitted)
    ∷ (ascii "expired", expired)
    ∷ (ascii "unknown_route", unknown_route)
    ∷ (ascii "module_unavailable", module_unavailable)
    ∷ (ascii "error", failed)
    ∷ (ascii "shutdown", shutdown)
    ∷ [])

-- `QueuedWork::set_outcome`.
unfoldable pub set_outcome : Bytes → QueuedWork → QueuedWork
set_outcome outcome q = record q { outcome = queue_outcome outcome }

-- The label of `task_reaped`.
unfoldable pub reaped_outcome : Bytes → Reaped
reaped_outcome =
    labelled unnamed
      ((ascii "ok", joined) ∷ (ascii "panic", panicked) ∷ (ascii "cancelled", aborted) ∷ [])
