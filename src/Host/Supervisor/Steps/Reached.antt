-- ===== src/Host/Supervisor/Steps/Reached.antt =====
-- What holds of the supervisor of invocation_supervisor.rs in every state that it reaches.
use wasm_platform.Base.{
  ℕ, ◌≡◌, refl, subst, Bool, true, false, not, ◌&&◌, List, ◌∷◌, [], none, some, ltb, ascii,
  if◌then◌else◌, arith, length, Option-cases, Bool-cases, inl, inr,
}
use wasm_platform.Base.Map.{total}
use wasm_platform.Host.Dispatch.Counts.{Limits, no_counts}
use wasm_platform.Host.Dispatch.Guards.{QueuedWork, drain_finished}
use wasm_platform.Host.Dispatch.Labels.{set_outcome}
use wasm_platform.Host.Supervisor.Jobs.{Job}
use wasm_platform.Host.Supervisor.Loop.{
  InvocationSupervisor, InvocationMessage, finished, is_dispatching, is_closing, is_draining,
  cancel_untrusted_work, give_up, stop, shut_down, authority_changed, take_message, discard,
}
use wasm_platform.Host.Supervisor.Steps.{
  drain, finish_drain, Event, step, Reaches, started, next, reserves, ends_intake, releases,
  receives, shuts_down, changes_authority, takes, admits, ends_execution, ends_reply, checks, joins,
  drains, finishes,
}
use wasm_platform.Host.Supervisor.Steps.Totals.{live}
use wasm_platform.Host.Supervisor.Steps.Steady.{recount, drained-Steady}
use wasm_platform.Host.Supervisor.Steps.Shape.{Left}
use wasm_platform.Host.Supervisor.Steps.Moves.{discard-Steady}
use wasm_platform.Host.Supervisor.Steps.Invariant.{
  IsValid, limits_of, new-IsValid, reserve-IsValid, end_intake-IsValid, release-IsValid,
  check_execution-IsValid, finish_execution-IsValid, finish_reply-IsValid, join_next-IsValid,
}
use wasm_platform.Host.Supervisor.Steps.Admission.{admit-IsValid}
use wasm_platform.Host.Supervisor.Steps.Intake.{
  receive-IsValid, give_up-IsValid, stop-IsValid, cancel_untrusted_work-IsValid,
}

revoking-dispatches :
    (s : InvocationSupervisor) (now : ℕ)
    → is_dispatching s.phase ≡ true
    → is_dispatching (cancel_untrusted_work now s).phase ≡ true
unfolding cancel_untrusted_work
revoking-dispatches s now h = h

module _ (max_concurrent capacity : ℕ) where
  abbrev L : Limits
  L = limits_of max_concurrent capacity

  module _ (s : InvocationSupervisor) (v : IsValid max_concurrent capacity s) where
    given_up :
        (now : ℕ) (label : QueuedWork → QueuedWork)
        → ((give_up now label s).pending ≡ none) × ((give_up now label s).phase ≡ s.phase)
    unfolding give_up
    given_up now label = ground arith

    stopped-IsValid :
        (now : ℕ) (label : QueuedWork → QueuedWork)
        → is_dispatching s.phase ≡ true
        → IsValid max_concurrent capacity (stop now (give_up now label s))
    stopped-IsValid now label d =
        let g = given_up now label in
        stop-IsValid max_concurrent capacity (give_up now label s)
          (give_up-IsValid max_concurrent capacity s v now label) now g.0 (ground (arith, g, d))

    shut_down-IsValid : (now : ℕ) → IsValid max_concurrent capacity (shut_down now s)
    unfolding shut_down
    shut_down-IsValid now = elim (Bool-cases (is_dispatching s.phase)) [
      | inl b ↦ rw (b, shut_down) (stopped-IsValid now (λ q. q) b)
      | inr b ↦ rw (b, shut_down) v
    ]

  authority_changed-IsValid :
      (s : InvocationSupervisor) (v : IsValid max_concurrent capacity s) (now : ℕ) (alive : Bool)
      → IsValid max_concurrent capacity (authority_changed now alive s)
  unfolding authority_changed
  authority_changed-IsValid s v now alive =
      let c = cancel_untrusted_work-IsValid max_concurrent capacity s v now in
      elim (Bool-cases (is_dispatching s.phase)) [
        | inl b ↦ elim (Bool-cases alive) [
          | inl a ↦ rw (b, a, authority_changed) (give_up-IsValid max_concurrent capacity _ c now _)
          | inr a ↦
              rw (b, a, authority_changed) (stopped-IsValid _ c now _ (revoking-dispatches s now b))
        ]
        | inr b ↦ rw (b, authority_changed) v
      ]

  module _ (s : InvocationSupervisor) (v : IsValid max_concurrent capacity s) where
    taken :
        (now : ℕ) (trusted : Bool) (messages : List InvocationMessage)
        → s.messages ≡ messages
        → s.pending ≡ none
        → (is_dispatching s.phase && ltb (length s.jobs) s.max_tracked) ≡ true
        → IsValid max_concurrent capacity (elim messages [
          | [] ↦ if s.intake then s else stop now s
          | x ∷ messages ↦
              if trusted then record s { messages = messages; pending = some x } else record s {
                messages = messages;
                metrics = discard now (set_outcome (ascii "error")) (x ∷ []) s.metrics;
              }
        ])
    taken now trusted [] h p b = elim (Bool-cases s.intake) [
      | inl i ↦ simp i v
      | inr i ↦ simp i (stop-IsValid max_concurrent capacity s v now p (ground (arith, b)))
    ]
    taken now true (x ∷ messages) h p b = record {
      shape = record {
        limit = v.shape.limit;
        channel = v.shape.channel;
        queue_bound = ground (arith, h, v.shape.queue_bound);
        placed = v.shape.placed;
        permit_bound = v.shape.permit_bound;
        tracked_bound = ground (arith, b, v.shape.limit);
        distinct = v.shape.distinct;
        owned = v.shape.owned;
        queued = ground (arith, h, v.shape.queued);
        pending_waits = ground (arith, h, v.shape.queued);
        ends = ground (arith, b);
      };
      steady = recount L s.metrics (live s) _ v.steady (ground (arith, h, p)) refl refl refl refl;
    }
    taken now false (x ∷ messages) h p b = record {
      shape = record {
        limit = v.shape.limit;
        channel = v.shape.channel;
        queue_bound = ground (arith, h, v.shape.queue_bound);
        placed = v.shape.placed;
        permit_bound = v.shape.permit_bound;
        tracked_bound = v.shape.tracked_bound;
        distinct = v.shape.distinct;
        owned = v.shape.owned;
        queued = ground (arith, h, v.shape.queued);
        pending_waits = v.shape.pending_waits;
        ends = ground (arith, b);
      };
      steady =
          discard-Steady L (live (record s { messages = messages })) now _ (x ∷ []) s.metrics
            (ground (arith, h, v.shape.queued), tt)
            (recount L s.metrics (live s) _ v.steady (ground (arith, h)) refl refl refl refl);
    }

    take_message-IsValid :
        (now : ℕ) (trusted : Bool) → IsValid max_concurrent capacity (take_message now trusted s)
    unfolding take_message
    take_message-IsValid now trusted = elim (Option-cases s.pending) [
      | inr (x, h) ↦ rw (h, take_message) v
      | inl h ↦ elim (Bool-cases (is_dispatching s.phase && ltb (length s.jobs) s.max_tracked)) [
        | inr b ↦ rw (h, b, take_message) v
        | inl b ↦ rw (h, b, take_message) (taken now trusted s.messages refl h b)
      ]
    ]

    drain-IsValid : (now : ℕ) → IsValid max_concurrent capacity (drain now s)
    unfolding drain
    drain-IsValid now = elim (Bool-cases (is_closing s.phase && not s.intake)) [
      | inl b ↦
          rw (b, drain)
            (record {
              shape = record {
                limit = v.shape.limit;
                channel = v.shape.channel;
                queue_bound = omega (arith, v.shape.queue_bound);
                placed = v.shape.placed;
                permit_bound = v.shape.permit_bound;
                tracked_bound = v.shape.tracked_bound;
                distinct = v.shape.distinct;
                owned = v.shape.owned;
                queued = tt;
                pending_waits = v.shape.pending_waits;
                ends = ground (arith, b, v.shape.ends, v.shape.placed);
              };
              steady =
                  discard-Steady L (live (record s { messages = [] })) now _ s.messages s.metrics
                    v.shape.queued
                    (recount L s.metrics (live s) _ v.steady (omega arith) refl refl refl refl);
            })
      | inr b ↦ rw (b, drain) v
    ]

    drained :
        (now : ℕ) (jobs : List (ℕ × Job))
        → s.jobs ≡ jobs
        → IsValid max_concurrent capacity (elim jobs [
          | [] ↦
              if is_draining s.phase
              then record s { metrics = drain_finished now s.metrics; phase = finished }
              else s
          | _ ∷ _ ↦ s
        ])
    drained now [] h = elim (Bool-cases (is_draining s.phase)) [
      | inl b ↦ rw b (record {
        shape = record {
          limit = v.shape.limit;
          channel = v.shape.channel;
          queue_bound = v.shape.queue_bound;
          placed = v.shape.placed;
          permit_bound = v.shape.permit_bound;
          tracked_bound = v.shape.tracked_bound;
          distinct = v.shape.distinct;
          owned = v.shape.owned;
          queued = v.shape.queued;
          pending_waits = v.shape.pending_waits;
          ends = ground (arith, b, h, v.shape.ends);
        };
        steady = drained-Steady L now s.metrics (live s) v.steady;
      })
      | inr b ↦ rw b v
    ]
    drained now (j ∷ jobs) h = v

    finish_drain-IsValid : (now : ℕ) → IsValid max_concurrent capacity (finish_drain now s)
    unfolding finish_drain
    finish_drain-IsValid now = drained now s.jobs refl

    pub step-IsValid : (e : Event) → IsValid max_concurrent capacity (step e s)
    unfolding step
    step-IsValid reserves = reserve-IsValid max_concurrent capacity s v
    step-IsValid releases = release-IsValid max_concurrent capacity s v
    step-IsValid ends_intake = end_intake-IsValid max_concurrent capacity s v
    step-IsValid (receives now budget reply) =
        receive-IsValid max_concurrent capacity s v now budget reply
    step-IsValid (shuts_down now) = shut_down-IsValid s v now
    step-IsValid (changes_authority now alive) = authority_changed-IsValid s v now alive
    step-IsValid (takes now trusted) = take_message-IsValid now trusted
    step-IsValid (admits now at client trusted lookup) =
        admit-IsValid max_concurrent capacity s v now at client trusted lookup
    step-IsValid (ends_execution id ended at work cleanup) =
        finish_execution-IsValid max_concurrent capacity s v id ended at work cleanup
    step-IsValid (ends_reply id end) = finish_reply-IsValid max_concurrent capacity s v id end
    step-IsValid (checks id now) = check_execution-IsValid max_concurrent capacity s v id now
    step-IsValid (joins id) = join_next-IsValid max_concurrent capacity s v id
    step-IsValid (drains now) = drain-IsValid now
    step-IsValid (finishes now) = finish_drain-IsValid now

-- In every state that a supervisor reaches, whatever the order of the shutdown, the authority, the intake
-- and the tasks: the bounds of the channel, the permits and the jobs hold, the accounting is what the
-- supervisor owns, and no capacity was ever exceeded.
pub Reaches-IsValid :
    {max_concurrent capacity : ℕ} {s : InvocationSupervisor}
    → Reaches max_concurrent capacity s
    → IsValid max_concurrent capacity s
Reaches-IsValid {max_concurrent} {capacity} started = new-IsValid max_concurrent capacity
Reaches-IsValid {max_concurrent} {capacity} (next {s} e r) =
    step-IsValid max_concurrent capacity s (Reaches-IsValid r) e

emptied :
    (max_concurrent capacity : ℕ) (s : InvocationSupervisor)
    → IsValid max_concurrent capacity s
    → s.phase ≡ finished
    → (s.metrics.counts ≡ no_counts) × (s.messages ≡ []) × (s.slots ≡ max_concurrent)
unfolding total
emptied max_concurrent capacity s v h =
    let e : Left s finished = subst (Left s) h v.shape.ends in
    (ground (arith, e, v.steady.counts), e.1, ground (arith, e, v.shape.permit_bound))

-- A supervisor that is done owns nothing: no count of the host is left, its permits are free, and its
-- channel is empty.
pub finished-empty :
    {max_concurrent capacity : ℕ} {s : InvocationSupervisor}
    → Reaches max_concurrent capacity s
    → s.phase ≡ finished
    → (s.metrics.counts ≡ no_counts) × (s.messages ≡ []) × (s.slots ≡ max_concurrent)
finished-empty {max_concurrent} {capacity} {s} r h =
    emptied max_concurrent capacity s (Reaches-IsValid r) h
