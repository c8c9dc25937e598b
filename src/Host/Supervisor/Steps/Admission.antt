-- ===== src/Host/Supervisor/Steps/Admission.antt =====
-- The admission of a message of invocation_supervisor.rs, from its permit to its job.
use wasm_platform.Base.{
  ℕ, ◌+◌, ◌-◌, ◌≤◌, ◌≡◌, refl, Bool, true, false, List, ◌∷◌, [], Option, none, some, ◌==◌, ascii,
  if◌then◌else◌, arith, length, Option-cases, inl, inr,
}
use wasm_platform.Base.Map.{total, Each}
use wasm_platform.Host.Dispatch.Counts.{Inner, Limits}
use wasm_platform.Host.Dispatch.Guards.{QueuedWork, drop_queued, task_started}
use wasm_platform.Host.Dispatch.Labels.{set_outcome}
use wasm_platform.Host.Invocation.{run, start_execution}
use wasm_platform.Host.Invocation.Ending.{plus}
use wasm_platform.Host.Supervisor.Jobs.{Job}
use wasm_platform.Host.Supervisor.Loop.{
  InvocationSupervisor, InvocationMessage, Lookup, found, no_route, no_module, lookup_failed,
  dismiss, accept, expire, dispatch, admit,
}
use wasm_platform.Host.Supervisor.Steps.Totals.{
  shares, a_task, add, permits, live, shares-tracked, share-permit,
}
use wasm_platform.Host.Supervisor.Steps.Steady.{
  Steady, recount, drop_queued-Steady, task_started-Steady, start_execution-Steady, run-idle,
  run-some,
}
use wasm_platform.Host.Supervisor.Steps.Shape.{is_finished, IsOwned, drop-Shape}
use wasm_platform.Host.Supervisor.Steps.Moves.{discard-Steady}
use wasm_platform.Host.Supervisor.Steps.Invariant.{IsValid, limits_of, spawn-IsValid}

shares-permit :
    (n : ℕ) (jobs : List (ℕ × Job))
    → Each (IsOwned n) jobs
    → (shares jobs).executing + (shares jobs).stopping ≤ permits jobs
unfolding total
shares-permit n [] e = omega arith
shares-permit n ((id, j) ∷ jobs) e = omega (arith, share-permit j e.0.1, shares-permit n jobs e.1)

module _ (max_concurrent capacity : ℕ) where
  abbrev L : Limits
  L = limits_of max_concurrent capacity

  module _ (s : InvocationSupervisor) (v : IsValid max_concurrent capacity s) where
    room : (x : InvocationMessage) → s.pending ≡ some x → length s.jobs + 1 ≤ max_concurrent
    room x h = ground (arith, h, v.shape.tracked_bound)

    open_phase : (x : InvocationMessage) → s.pending ≡ some x → is_finished s.phase ≡ false
    open_phase x h = ground (arith, h, v.shape.ends)

    -- The message that was taken is dropped, and a task starts in its place.
    dismissed-Steady :
        (at : ℕ) (q : QueuedWork) (x : InvocationMessage)
        → s.pending ≡ some x
        → Steady L (drop_queued at q s.metrics) (live (record s { pending = none }))
    dismissed-Steady at q x h =
        recount L (drop_queued at q s.metrics) _ (live (record s { pending = none }))
          (drop_queued-Steady L at q s.metrics (live s) v.steady (ground (arith, h)))
          (ground (arith, h)) refl refl refl refl

    task-Steady :
        (at : ℕ) (q : QueuedWork) (x : InvocationMessage)
        → s.pending ≡ some x
        → Steady L
            (task_started (drop_queued at q s.metrics))
            (add (live (record s { pending = none })) a_task)
    task-Steady at q x h =
        recount L (task_started (drop_queued at q s.metrics)) _
          (add (live (record s { pending = none })) a_task)
          (task_started-Steady L (drop_queued at q s.metrics) (live (record s { pending = none }))
            (dismissed-Steady at q x h) (omega (arith, shares-tracked s.jobs, room x h)))
          (omega arith) (omega arith) (omega arith) (omega arith) (omega arith)

    expire-IsValid :
        (at : ℕ) (client : Bool) (x y : InvocationMessage)
        → s.pending ≡ some x
        → IsValid max_concurrent capacity (expire at client y (record s { pending = none }))
    unfolding expire dismiss
    expire-IsValid at client x y h =
        let s' = record s { pending = none } in
        spawn-IsValid max_concurrent capacity s' _
          (task_started (drop_queued at (set_outcome (ascii "expired") y.queued) s.metrics)) s.slots
          (drop-Shape max_concurrent capacity s v.shape s.metrics)
          (record { counts = task-Steady at _ x h; idle = tt }) (omega arith)
          (omega (arith, room x h)) (open_phase x h)

    accept-IsValid :
        (at : ℕ) (client : Bool) (x y : InvocationMessage)
        → s.pending ≡ some x
        → 1 ≤ s.slots
        → IsValid max_concurrent capacity (accept at client y (record s { pending = none }))
    unfolding accept dismiss
    accept-IsValid at client x y h free =
        let s' = record s { pending = none } in
        let m = task_started (drop_queued at (set_outcome (ascii "admitted") y.queued) s.metrics) in
        let e = start_execution at y.invocation m in
        spawn-IsValid max_concurrent capacity s' _ e.1 (s.slots - 1)
          (drop-Shape max_concurrent capacity s v.shape s.metrics)
          (record {
            counts =
                recount L e.1 (plus (add (live s') a_task) e.0.execution)
                  (add (live s') (plus a_task e.0.execution))
                  (start_execution-Steady L at (add (live s') a_task) y.invocation m
                    (task-Steady at _ x h)
                    (omega (
                      arith,
                      shares-permit s.next_id s.jobs v.shape.owned,
                      v.shape.permit_bound,
                      free,
                    )))
                  (omega arith) (omega arith) (omega arith) (omega arith) (omega arith);
            idle = tt;
          })
          (omega (arith, free)) (omega (arith, room x h)) (open_phase x h)

    dispatch-IsValid :
        (at : ℕ) (client trusted : Bool) (lookup : Lookup) (x y : InvocationMessage)
        → s.pending ≡ some x
        → 1 ≤ s.slots
        → y.invocation.execution ≡ none
        → IsValid max_concurrent capacity
            (dispatch at client trusted lookup y (record s { pending = none }))
    unfolding dispatch dismiss
    dispatch-IsValid at client true found x y h free idle = accept-IsValid at client x y h free
    dispatch-IsValid at client false found x y h free idle = record {
      shape = drop-Shape max_concurrent capacity s v.shape _;
      steady =
          discard-Steady L (live (record s { pending = none })) at _ (y ∷ []) s.metrics (idle, tt)
            (recount L s.metrics (live s) _ v.steady (ground (arith, h)) refl refl refl refl);
    }
    dispatch-IsValid at client trusted no_route x y h free idle = record {
      shape = drop-Shape max_concurrent capacity s v.shape _;
      steady = dismissed-Steady at _ x h;
    }
    dispatch-IsValid at client trusted no_module x y h free idle = record {
      shape = drop-Shape max_concurrent capacity s v.shape _;
      steady = dismissed-Steady at _ x h;
    }
    dispatch-IsValid at client trusted lookup_failed x y h free idle = record {
      shape = drop-Shape max_concurrent capacity s v.shape _;
      steady = dismissed-Steady at _ x h;
    }

    admitted :
        (at : ℕ) (client trusted : Bool) (lookup : Lookup) (x y : InvocationMessage) (m : Inner)
        (permit : Option (Unit {0}))
        → s.pending ≡ some x
        → m ≡ s.metrics
        → y.invocation.execution ≡ none
        → (permit ≡ some tt → 1 ≤ s.slots)
        → IsValid max_concurrent capacity (elim permit [
          | none ↦ expire at client y (record s { pending = none; metrics = m })
          | some _ ↦ dispatch at client trusted lookup y (record s { pending = none; metrics = m })
        ])
    admitted at client trusted lookup x y m none h e idle free =
        rw e (expire-IsValid at client x y h)
    admitted at client trusted lookup x y m (some u) h e idle free =
        rw e (dispatch-IsValid at client trusted lookup x y h (free refl) idle)

    pub admit-IsValid :
        (now at : ℕ) (client trusted : Bool) (lookup : Lookup)
        → IsValid max_concurrent capacity (admit now at client trusted lookup s)
    unfolding admit
    admit-IsValid now at client trusted lookup = elim (Option-cases s.pending) [
      | inl h ↦ rw (h, admit) v
      | inr (x, h) ↦
          let permit : Option (Unit {0}) = if s.slots == 0 then none else some tt in
          let r = run now at permit x.invocation s.metrics in
          let idle =
            run-idle now at permit x.invocation s.metrics
              (ground (arith, h, v.shape.pending_waits)) in
          rw (h, admit)
            (admitted at client trusted lookup x (record x { invocation = r.0.0 }) r.0.1 r.1 h
              idle.0 idle.1
              (λ e. ground (arith, run-some now at permit tt x.invocation s.metrics e)))
    ]
