-- ===== src/Host/Supervisor/Steps/Intake.antt =====
-- The messages of invocation_supervisor.rs, from the intake to their job, and the shutdown.
use wasm_platform.Base.{
  ℕ, ◌+◌, ◌≡◌, refl, Bool, true, List, ◌∷◌, [], ◌++◌, none, arith, length, Option-cases, Bool-cases,
  inl, inr,
}
use wasm_platform.Host.Dispatch.Counts.{Inner, Limits}
use wasm_platform.Host.Dispatch.Guards.{QueuedWork, enqueue}
use wasm_platform.Host.Dispatch.Balance.{Live}
use wasm_platform.Host.Invocation.{with_metrics}
use wasm_platform.Host.Supervisor.Jobs.{Job}
use wasm_platform.Host.Supervisor.Loop.{
  InvocationSupervisor, InvocationMessage, is_dispatching, receive, cancel_jobs, discard,
  cancel_untrusted_work, give_up, stop,
}
use wasm_platform.Host.Supervisor.Steps.Totals.{shares, add, live}
use wasm_platform.Host.Supervisor.Steps.Steady.{recount, enqueue-Steady, stopped-Steady}
use wasm_platform.Host.Supervisor.Steps.Shape.{Waits, drop-Shape}
use wasm_platform.Host.Supervisor.Steps.Moves.{discard-Steady, cancel_jobs-Revoked}
use wasm_platform.Host.Supervisor.Steps.Invariant.{IsValid, limits_of}

length-append :
    (xs : List InvocationMessage) (x : InvocationMessage) → length (xs ++ x ∷ []) ≡ length xs + 1
length-append [] x = refl
length-append (y ∷ xs) x = ground (arith, length-append xs x)

append-Waits :
    (xs : List InvocationMessage) (x : InvocationMessage)
    → Waits xs
    → x.invocation.execution ≡ none
    → Waits (xs ++ x ∷ [])
append-Waits [] x w h = (h, tt)
append-Waits (y ∷ xs) x w h = (w.0, append-Waits xs x w.1 h)

cancel_jobs-empty :
    (now : ℕ) (jobs : List (ℕ × Job)) (m : Inner) → jobs ≡ [] → (cancel_jobs now jobs m).0 ≡ []
unfolding cancel_jobs
cancel_jobs-empty now [] m h = refl
cancel_jobs-empty now (j ∷ jobs) m h = absurd (ground arith)

module _ (max_concurrent capacity : ℕ) where
  abbrev L : Limits
  L = limits_of max_concurrent capacity

  module _ (s : InvocationSupervisor) (v : IsValid max_concurrent capacity s) where
    pub receive-IsValid :
        (now budget : ℕ) (reply : Bool)
        → IsValid max_concurrent capacity (receive now budget reply s)
    unfolding receive with_metrics
    receive-IsValid now budget reply =
        let x : InvocationMessage = record {
          reply = reply;
          invocation = with_metrics now budget;
          queued = (enqueue now s.metrics).1;
        } in
        let l = length-append s.messages x in
        elim (Bool-cases s.reserved) [
          | inl b ↦
              simp (b, receive)
                (record {
                  shape = record {
                    limit = v.shape.limit;
                    channel = v.shape.channel;
                    queue_bound = ground (arith, l, b, v.shape.queue_bound);
                    placed = λ h. refl;
                    permit_bound = v.shape.permit_bound;
                    tracked_bound = v.shape.tracked_bound;
                    distinct = v.shape.distinct;
                    owned = v.shape.owned;
                    queued = append-Waits s.messages x v.shape.queued refl;
                    pending_waits = v.shape.pending_waits;
                    ends = ground (arith, v.shape.ends);
                  };
                  steady =
                      recount L (enqueue now s.metrics).0 _
                        (live (record s { messages = s.messages ++ x ∷ [] }))
                        (enqueue-Steady L now s.metrics (live s) v.steady
                          (ground (arith, b, v.shape.queue_bound)))
                        (ground (arith, l, b)) (ground (arith, b)) (ground (arith, b))
                        (ground (arith, b)) (ground (arith, b));
                })
          | inr b ↦ simp (b, receive) v
        ]

    pub give_up-IsValid :
        (now : ℕ) (label : QueuedWork → QueuedWork)
        → IsValid max_concurrent capacity (give_up now label s)
    unfolding give_up
    give_up-IsValid now label = elim (Option-cases s.pending) [
      | inl h ↦ rw (h, give_up) v
      | inr (x, h) ↦
          rw (h, give_up)
            (record {
              shape =
                  drop-Shape max_concurrent capacity s v.shape
                    (discard now label (x ∷ []) s.metrics);
              steady =
                  discard-Steady L (live (record s { pending = none })) now label (x ∷ []) s.metrics
                    (ground (arith, h, v.shape.pending_waits), tt)
                    (recount L s.metrics (live s) _ v.steady (ground (arith, h)) refl refl refl
                      refl);
            })
    ]

    pub stop-IsValid :
        (now : ℕ)
        → s.pending ≡ none
        → is_dispatching s.phase ≡ true
        → IsValid max_concurrent capacity (stop now s)
    unfolding stop
    stop-IsValid now h d = record {
      shape = record {
        limit = v.shape.limit;
        channel = v.shape.channel;
        queue_bound = v.shape.queue_bound;
        placed = v.shape.placed;
        permit_bound = v.shape.permit_bound;
        tracked_bound = v.shape.tracked_bound;
        distinct = v.shape.distinct;
        owned = v.shape.owned;
        queued = v.shape.queued;
        pending_waits = v.shape.pending_waits;
        ends = h;
      };
      steady = stopped-Steady L now s.metrics (live s) v.steady;
    }

    pub cancel_untrusted_work-IsValid :
        (now : ℕ) → IsValid max_concurrent capacity (cancel_untrusted_work now s)
    unfolding cancel_untrusted_work
    cancel_untrusted_work-IsValid now =
        let rest : Live = record (live s) { tasks = 0; ended = 0; executing = 0; stopping = 0 } in
        let r = cancel_jobs now s.jobs s.metrics in
        let c =
          cancel_jobs-Revoked L rest s.next_id now s.jobs s.metrics
            (recount L s.metrics (live s) (add rest (shares s.jobs)) v.steady (omega arith)
              (omega arith) (omega arith) (omega arith) (omega arith))
            v.shape.distinct v.shape.owned in
        let s' = record s { messages = []; jobs = r.0 } in
        record {
          shape = record {
            limit = v.shape.limit;
            channel = v.shape.channel;
            queue_bound = omega (arith, v.shape.queue_bound);
            placed = v.shape.placed;
            permit_bound = omega (arith, c.permits_kept, v.shape.permit_bound);
            tracked_bound = omega (arith, c.length_kept, v.shape.tracked_bound);
            distinct = c.distinct;
            owned = c.owned;
            queued = tt;
            pending_waits = v.shape.pending_waits;
            ends = ground (arith, v.shape.ends, cancel_jobs-empty now s.jobs s.metrics);
          };
          steady = discard-Steady L (live s') now _ s.messages r.1 v.shape.queued (
              recount L r.1 (add rest (shares r.0)) _ c.counts (omega arith) (omega arith)
                (omega arith) (omega arith) (omega arith));
        }
