-- ===== src/Host/Preparation/Finish.antt =====
-- The outcomes that the preparations of preparation_metrics.rs report.
use wasm_platform.Base.{
  [], ℕ, ◌≡◌, refl, ◌⊎◌, inl, inr, Bool, true, false, List, ◌∷◌, Option, none, some, if◌then◌else◌,
  arith, ◌∙◌, Option-cases, ap,
}
use wasm_platform.Host.Preparation.Counts.{
  WorkState, PreparationOutcome, panic, Inner, publish_counts, record_capacity, decrement,
  transition,
}
use wasm_platform.Host.Preparation.Work.{
  PreparationState, or_outcome, terminate, terminate_stage, finish_compilation, activate,
  start_compiler, compile, compilation_finished, finish, leave, drop_work,
}
use wasm_platform.Host.Preparation.Balance.{
  Op, terminates, activates, compiles, compiled, finishes, drops, apply, Run, here, next,
}

-- A cancellation stays as it is, whatever follows.
apply-cancellation :
    (op : Op) (o : PreparationOutcome) (m : Inner) (s : PreparationState)
    → s.cancellation ≡ some o
    → (apply op m s).1.cancellation ≡ some o
unfolding apply terminate activate compile start_compiler compilation_finished finish_compilation
    finish leave drop_work
apply-cancellation (terminates q at) o m s h = ground arith
apply-cancellation (activates now) o m s h = ground arith
apply-cancellation (compiles now) o m s h = ground arith
apply-cancellation (compiled now q) o m s h = ground arith
apply-cancellation (finishes q) o m s h = h
apply-cancellation (drops now p) o m s h = ground arith

Run-cancellation :
    {m : Inner} {s : PreparationState} {m' : Inner} {s' : PreparationState} {o : PreparationOutcome}
    → Run m s m' s'
    → s.cancellation ≡ some o
    → s'.cancellation ≡ some o
Run-cancellation here h = h
Run-cancellation {o = o} (next {m'} {s'} op r a) h =
    apply-cancellation op o m' s' (Run-cancellation r h)

drop-outcome :
    (now : ℕ) (p : Bool) (stage : WorkState) (m : Inner) (s : PreparationState)
    → s.stage ≡ some stage
    → ((drop_work now p m s).0.finished
        ≡ or_outcome s.cancellation (if p then panic else s.outcome) ∷ m.finished)
      × ((drop_work now p m s).1.stage ≡ none)
unfolding drop_work leave finish_compilation publish_counts decrement
drop-outcome now p stage m s h = (ground arith, ground arith)

-- After a preparation that is still live was cancelled or timed out, any methods may run, and its drop
-- then reports that first cancellation, even in a panic or over another outcome.
pub terminate-drop_work :
    {m' : Inner} {s' : PreparationState} (o : PreparationOutcome) (at now : ℕ) (p : Bool)
    (first last : WorkState) (m : Inner) (s : PreparationState)
    → s.stage ≡ some first
    → s.cancellation ≡ none
    → Run (terminate o at m s).0 (terminate o at m s).1 m' s'
    → s'.stage ≡ some last
    → (drop_work now p m' s').0.finished ≡ o ∷ m'.finished
unfolding terminate terminate_stage
terminate-drop_work {m'} {s'} o at now p first last m s h n r l =
    (drop-outcome now p last m' s' l).0
    ∙ ap (λ c. or_outcome c (if p then panic else s'.outcome) ∷ m'.finished)
        (Run-cancellation {o = o} r (ground arith))

abbrev pub is_live : Option WorkState → Bool
is_live none = false
is_live (some stage) = true

-- What the reports of a preparation amount to: none while it is live, one from its drop on.
abbrev pub Reported : List PreparationOutcome → Inner → PreparationState → Type 0
Reported before m s =
    ((is_live s.stage ≡ true) × (m.finished ≡ before))
    ⊎ ((is_live s.stage ≡ false) × ((o : PreparationOutcome) × (m.finished ≡ o ∷ before)))

-- Every method but the drop leaves the reports, and the preparation as live as it was.
module _ (m : Inner) (s : PreparationState) where
  abbrev Silent : Inner × PreparationState → Type 0
  Silent r = (r.0.finished ≡ m.finished) × (is_live r.1.stage ≡ is_live s.stage)

  terminate-Silent : (o : PreparationOutcome) (at : ℕ) → Silent (terminate o at m s)
  unfolding terminate terminate_stage transition decrement publish_counts record_capacity
  terminate-Silent o at = (ground arith, ground arith)

  activate-Silent : (now : ℕ) → Silent (activate now m s)
  unfolding activate transition decrement publish_counts record_capacity
  activate-Silent now = (ground arith, ground arith)

  compile-Silent : (now : ℕ) → Silent (compile now m s)
  unfolding compile start_compiler transition decrement publish_counts record_capacity
  compile-Silent now = (ground arith, ground arith)

  compiled-Silent : (now : ℕ) (o : PreparationOutcome) → Silent (compilation_finished now o m s)
  unfolding compilation_finished finish_compilation transition decrement publish_counts
      record_capacity
  compiled-Silent now o = (ground arith, ground arith)

  drop_dead : (now : ℕ) (p : Bool) → is_live s.stage ≡ false → drop_work now p m s ≡ (m, s)
  unfolding drop_work
  drop_dead now p h = ground arith

silent-Reported :
    (before : List PreparationOutcome) (m : Inner) (s : PreparationState)
    (r : Inner × PreparationState)
    → (r.0.finished ≡ m.finished) × (is_live r.1.stage ≡ is_live s.stage)
    → Reported before m s
    → Reported before r.0 r.1
silent-Reported before m s r k (inl (l, f)) = inl (k.1 ∙ l, k.0 ∙ f)
silent-Reported before m s r k (inr (l, (o, f))) = inr (k.1 ∙ l, (o, k.0 ∙ f))

drop-Reported :
    (now : ℕ) (p : Bool) (before : List PreparationOutcome) (m : Inner) (s : PreparationState)
    → Reported before m s
    → Reported before (drop_work now p m s).0 (drop_work now p m s).1
drop-Reported now p before m s (inr (l, r)) = rw (drop_dead m s now p l) (inr (l, r))
drop-Reported now p before m s (inl (l, f)) = elim (Option-cases s.stage) [
  | inl e ↦ absurd (ground arith)
  | inr (stage, e) ↦
      let (reported, gone) = drop-outcome now p stage m s e in
      inr (
        ap is_live gone,
        (
          or_outcome s.cancellation (if p then panic else s.outcome),
          reported ∙ ap (λ l. or_outcome s.cancellation (if p then panic else s.outcome) ∷ l) f,
        ),
      )
]

apply-Reported :
    (op : Op) (before : List PreparationOutcome) (m : Inner) (s : PreparationState)
    → Reported before m s
    → Reported before (apply op m s).0 (apply op m s).1
unfolding apply finish
apply-Reported (terminates q at) before m s r =
    silent-Reported before m s (terminate q at m s) (terminate-Silent m s q at) r
apply-Reported (activates now) before m s r =
    silent-Reported before m s (activate now m s) (activate-Silent m s now) r
apply-Reported (compiles now) before m s r =
    silent-Reported before m s (compile now m s) (compile-Silent m s now) r
apply-Reported (compiled now q) before m s r =
    silent-Reported before m s (compilation_finished now q m s) (compiled-Silent m s now q) r
apply-Reported (finishes q) before m s r = r
apply-Reported (drops now p) before m s r = drop-Reported now p before m s r

-- Any methods, one after the other, in whatever order.
abbrev pub apply_all : List Op → Inner → PreparationState → Inner × PreparationState
apply_all [] m s = (m, s)
apply_all (op ∷ ops) m s = apply_all ops (apply op m s).0 (apply op m s).1

pub apply_all-from :
    (ops : List Op) (before : List PreparationOutcome) (m : Inner) (s : PreparationState)
    → Reported before m s
    → Reported before (apply_all ops m s).0 (apply_all ops m s).1
apply_all-from [] before m s r = r
apply_all-from (op ∷ ops) before m s r =
    apply_all-from ops before (apply op m s).0 (apply op m s).1 (apply-Reported op before m s r)

-- However its methods are called, in their protocol or out of it, a preparation that starts live reports
-- nothing while it is live, and exactly one outcome once it was dropped, also if it is dropped or
-- cancelled again.
pub apply_all-Reported :
    (ops : List Op) (m : Inner) (s : PreparationState)
    → is_live s.stage ≡ true
    → Reported m.finished (apply_all ops m s).0 (apply_all ops m s).1
apply_all-Reported ops m s h = apply_all-from ops m.finished m s (inl (h, refl))
