-- ===== src/Host/Preparation/Outcomes.antt =====
-- What preparation_metrics.rs reports: the published figures, and the one outcome of a preparation.
use wasm_platform.Base.{ℕ, ◌+◌, ◌-◌, ◌≤◌, ◌≡◌, refl, inl, inr, Bool, ◌∷◌, arith, Option-cases}
use wasm_platform.Host.Preparation.Counts.{
  Capacity, active, compilers, increment, accounting_error, WorkState, queued, preparing, compiling,
  terminating, PreparationOutcome, Inner, gauges_of, limit_gauges, occupancy_of, active_of,
  publish_counts, record_capacity, decrement, transition,
}
use wasm_platform.Host.Preparation.Work.{
  PreparationState, terminate, terminate_stage, finish_compilation, activate, start_compiler,
  compile, compilation_finished, leave, drop_work,
}
use wasm_platform.Host.Preparation.Balance.{
  Op, terminates, activates, compiles, compiled, finishes, drops, apply,
}

-- The gauges show the counts, and the high-water marks bound them.
pub record Shown (m : Inner) : Type 0 where
  pub work : m.gauges ≡ gauges_of m.work
  pub occupancy : m.occupancy ≡ limit_gauges (occupancy_of m)
  pub queue : m.work.in_queue ≤ m.high_water.queue
  pub active : active_of m.work ≤ m.high_water.active
  pub tracked : m.work.in_queue + active_of m.work ≤ m.high_water.tracked
  pub compilers : m.compilers ≤ m.high_water.compilers

publish_counts-Shown : (m : Inner) → Shown (publish_counts m)
unfolding publish_counts
publish_counts-Shown m = record {
  work = refl;
  occupancy = refl;
  queue = ground arith;
  active = ground arith;
  tracked = ground arith;
  compilers = ground arith;
}

-- What only reports keeps the figures.
Shown-same :
    (m n : Inner)
    → Shown m
    → n.gauges ≡ m.gauges
    → n.occupancy ≡ m.occupancy
    → n.work ≡ m.work
    → n.compilers ≡ m.compilers
    → n.high_water ≡ m.high_water
    → Shown n
Shown-same m n h g o w c t = record {
  work = ground arith;
  occupancy = ground arith;
  queue = ground arith;
  active = ground arith;
  tracked = ground arith;
  compilers = ground arith;
}

record_capacity-Shown : (k : Capacity) (m : Inner) → Shown m → Shown (record_capacity k m)
unfolding record_capacity
record_capacity-Shown k m h = Shown-same m (record_capacity k m) h refl refl refl refl refl

transition-Shown : (from to : WorkState) (m : Inner) → Shown (transition from to m)
unfolding transition
transition-Shown from to m = ground (
  arith,
  publish_counts-Shown (increment to (decrement from m)),
  record_capacity-Shown active (publish_counts (increment to (decrement from m))),
)

finish_compilation-Shown :
    (now : ℕ) (o : PreparationOutcome) (m : Inner) (s : PreparationState)
    → Shown m
    → Shown (finish_compilation now o m s).0
unfolding finish_compilation
finish_compilation-Shown now o m s h = elim (Option-cases s.compilation_started_at) [
  | inl e ↦
      rw (e, finish_compilation) (Shown-same m (accounting_error m) h refl refl refl refl refl)
  | inr (t, e) ↦ rw (e, finish_compilation) (publish_counts-Shown _)
]

compiling-Shown :
    (now : ℕ) (to : WorkState) (m : Inner) (s : PreparationState)
    → Shown (start_compiler now to m s).0
unfolding start_compiler
compiling-Shown now to m s = record_capacity-Shown compilers _ (publish_counts-Shown _)

module _ (m : Inner) (s : PreparationState) (h : Shown m) where
  error-Shown : Shown (accounting_error m)
  error-Shown = Shown-same m (accounting_error m) h refl refl refl refl refl

  terminate-Shown : (o : PreparationOutcome) (at : ℕ) → Shown (terminate o at m s).0
  unfolding terminate terminate_stage
  terminate-Shown o at =
      ground (
        arith,
        h,
        transition-Shown preparing terminating m,
        transition-Shown compiling terminating m,
      )

  activate-Shown : (now : ℕ) → Shown (activate now m s).0
  unfolding activate
  activate-Shown now = ground (
    arith,
    error-Shown,
    transition-Shown queued preparing
        (record m { queue_wait = (now - s.queued_at) ∷ m.queue_wait }),
  )

  compile-Shown : (now : ℕ) → Shown (compile now m s).0
  unfolding compile
  compile-Shown now = ground (
    arith,
    error-Shown,
    compiling-Shown now terminating m s,
    compiling-Shown now terminating (transition preparing terminating m) s,
    compiling-Shown now compiling (transition preparing compiling m) s,
  )

  compilation_finished-Shown :
      (now : ℕ) (o : PreparationOutcome) → Shown (compilation_finished now o m s).0
  unfolding compilation_finished
  compilation_finished-Shown now o = ground (
    arith,
    finish_compilation-Shown now o m s h,
    transition-Shown compiling preparing (finish_compilation now o m s).0,
  )

leave-Shown :
    (now : ℕ) (stage : WorkState) (o : PreparationOutcome) (m : Inner) (s : PreparationState)
    → Shown (leave now stage o m s).0
unfolding leave
leave-Shown now stage o m s =
    Shown-same _ (leave now stage o m s).0 (publish_counts-Shown _) refl refl refl refl refl

drop_work-Shown :
    (now : ℕ) (p : Bool) (m : Inner) (s : PreparationState)
    → Shown m
    → Shown (drop_work now p m s).0
unfolding drop_work
drop_work-Shown now p m s h = elim (Option-cases s.stage) [
  | inl e ↦ ground arith
  | inr (stage, e) ↦ elim (Option-cases s.compilation_started_at) [
    | inl q ↦ rw (e, q, drop_work) (leave-Shown now stage _ m s)
    | inr (t, q) ↦ rw (e, q, drop_work) (leave-Shown now stage _ _ _)
  ]
]

-- Every method keeps the published gauges equal to the counts, and each high-water mark at or above
-- the occupancy that it is the mark of.
pub apply-Shown : (op : Op) (m : Inner) (s : PreparationState) → Shown m → Shown (apply op m s).0
unfolding apply
apply-Shown (terminates o at) m s h = terminate-Shown m s h o at
apply-Shown (activates now) m s h = activate-Shown m s h now
apply-Shown (compiles now) m s h = compile-Shown m s h now
apply-Shown (compiled now o) m s h = compilation_finished-Shown m s h now o
apply-Shown (finishes o) m s h = h
apply-Shown (drops now p) m s h = drop_work-Shown now p m s h
