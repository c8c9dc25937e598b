-- ===== src/Host/Preparation/Balance.antt =====
-- The counts of preparation_metrics.rs, and the share of one preparation in them.
use wasm_platform.Base.{ℕ, ◌+◌, ◌≡◌, refl, ◌⊎◌, Bool, Option, none, some, arith, ◌∙◌}
use wasm_platform.Host.Preparation.Counts.{
  WorkState, queued, preparing, compiling, terminating, PreparationOutcome, Work, Inner,
  publish_counts, record_capacity, decrement, transition,
}
use wasm_platform.Host.Preparation.Work.{
  PreparationState, terminate, terminate_stage, finish_compilation, activate, start_compiler,
  compile, compilation_finished, finish, leave, drop_work,
}

-- What a preparation adds to the count of a state.
abbrev pub share : WorkState → Option WorkState → ℕ
share queued (some queued) = 1
share preparing (some preparing) = 1
share compiling (some compiling) = 1
share terminating (some terminating) = 1
share _ _ = 0

abbrev pub compiler_share : Option ℕ → ℕ
compiler_share none = 0
compiler_share (some _) = 1

-- The counts are those of the rest of the host, and this preparation's share.
pub record Balanced (rest : Work) (compilers : ℕ) (m : Inner) (s : PreparationState) : Type 0 where
  pub waits : m.work.admission_wait ≡ rest.admission_wait
  pub queue : m.work.in_queue ≡ rest.in_queue + share queued s.stage
  pub preparation : m.work.in_preparation ≡ rest.in_preparation + share preparing s.stage
  pub compilation : m.work.in_compilation ≡ rest.in_compilation + share compiling s.stage
  pub termination : m.work.in_termination ≡ rest.in_termination + share terminating s.stage
  pub running : m.compilers ≡ compilers + compiler_share s.compilation_started_at

-- A compiler runs in the stages for it only, and a cancelled one shows as terminating.
abbrev pub Coherent : Option WorkState → Option ℕ → Option PreparationOutcome → Type 0
Coherent none (some t) c = ⊥
Coherent (some queued) (some t) c = ⊥
Coherent (some preparing) (some t) c = ⊥
Coherent (some compiling) none c = ⊥
Coherent (some compiling) (some t) (some o) = ⊥
Coherent (some terminating) t none = ⊥
Coherent _ _ _ = Unit {0}

-- The methods, in the order that a preparation may call them in.
pub data Op : Type 0 where
  terminates : PreparationOutcome → ℕ → Op
  activates compiles : ℕ → Op
  compiled : ℕ → PreparationOutcome → Op
  finishes : PreparationOutcome → Op
  drops : ℕ → Bool → Op

unfoldable pub apply : Op → Inner → PreparationState → Inner × PreparationState
apply (terminates o at) m s = terminate o at m s
apply (activates now) m s = activate now m s
apply (compiles now) m s = compile now m s
apply (compiled now o) m s = compilation_finished now o m s
apply (finishes o) m s = (m, finish o s)
apply (drops now panicking) m s = drop_work now panicking m s

-- One activation, from the queue; one compiler at a time, after the activation.
abbrev pub Allowed : Op → PreparationState → Type 0
Allowed (activates now) s = s.stage ≡ some queued
Allowed (compiles now) s =
    (s.compilation_started_at ≡ none) × ((s.stage ≡ some preparing) ⊎ (s.stage ≡ some terminating))
Allowed (compiled now o) s = (t : ℕ) × (s.compilation_started_at ≡ some t)
Allowed _ s = Unit {0}

pub record Kept (rest : Work) (compilers errors : ℕ) (r : Inner × PreparationState) : Type 0 where
  pub balanced : Balanced rest compilers r.0 r.1
  pub coherent : Coherent r.1.stage r.1.compilation_started_at r.1.cancellation
  pub no_error : r.0.errors ≡ errors

module _ (rest : Work) (c : ℕ) (m : Inner) (s : PreparationState) (b : Balanced rest c m s) where
  terminate-Kept :
      (o : PreparationOutcome) (at : ℕ)
      → Coherent s.stage s.compilation_started_at s.cancellation
      → Kept rest c m.errors (terminate o at m s)
  unfolding terminate terminate_stage transition decrement publish_counts record_capacity
  terminate-Kept o at h = ground arith

  activate-Kept :
      (now : ℕ)
      → s.stage ≡ some queued
      → Coherent s.stage s.compilation_started_at s.cancellation
      → Kept rest c m.errors (activate now m s)
  unfolding activate transition decrement publish_counts record_capacity
  activate-Kept now q h = ground arith

  compile-Kept :
      (now : ℕ)
      → s.compilation_started_at ≡ none
      → (s.stage ≡ some preparing) ⊎ (s.stage ≡ some terminating)
      → Coherent s.stage s.compilation_started_at s.cancellation
      → Kept rest c m.errors (compile now m s)
  unfolding compile start_compiler transition decrement publish_counts record_capacity
  compile-Kept now n q h = ground arith

  compilation_finished-Kept :
      (now t : ℕ) (o : PreparationOutcome)
      → s.compilation_started_at ≡ some t
      → Coherent s.stage s.compilation_started_at s.cancellation
      → Kept rest c m.errors (compilation_finished now o m s)
  unfolding compilation_finished finish_compilation transition decrement publish_counts
      record_capacity
  compilation_finished-Kept now t o q h = ground arith

  drop_work-Kept :
      (now : ℕ) (panicking : Bool)
      → Coherent s.stage s.compilation_started_at s.cancellation
      → Kept rest c m.errors (drop_work now panicking m s)
  unfolding drop_work leave finish_compilation decrement publish_counts
  drop_work-Kept now panicking h = ground arith

-- Whatever the other preparations of the host add to the counts: each method that the protocol allows
-- keeps every count equal to theirs and this preparation's share, keeps the stage, the compiler and
-- the cancellation coherent, and meets no accounting error.
pub apply-Kept :
    (op : Op) (rest : Work) (c : ℕ) (m : Inner) (s : PreparationState)
    → Balanced rest c m s
    → Coherent s.stage s.compilation_started_at s.cancellation
    → Allowed op s
    → Kept rest c m.errors (apply op m s)
unfolding apply finish
apply-Kept (terminates o at) rest c m s b h a = terminate-Kept rest c m s b o at h
apply-Kept (activates now) rest c m s b h a = activate-Kept rest c m s b now a h
apply-Kept (compiles now) rest c m s b h a = compile-Kept rest c m s b now a.0 a.1 h
apply-Kept (compiled now o) rest c m s b h a =
    compilation_finished-Kept rest c m s b now a.0 o a.1 h
apply-Kept (finishes o) rest c m s b h a = record {
  balanced = record {
    waits = b.waits;
    queue = b.queue;
    preparation = b.preparation;
    compilation = b.compilation;
    termination = b.termination;
    running = b.running;
  };
  coherent = h;
  no_error = refl;
}
apply-Kept (drops now panicking) rest c m s b h a = drop_work-Kept rest c m s b now panicking h

-- A run of methods, each allowed where it is called.
pub data Run (m : Inner) (s : PreparationState) : Inner → PreparationState → Type 0 where
  here : Run m s m s
  next :
      {m' : Inner} {s' : PreparationState}
      → (op : Op) → Run m s m' s'
      → Allowed op s'
      → Run m s (apply op m' s').0 (apply op m' s').1

-- After any methods that the protocol allows, each where it is called, every count is that of the host's
-- other preparations and this preparation's share, its stage, compiler and cancellation are coherent,
-- and no accounting error was added, if this was so at the start.
pub Run-Kept :
    {rest : Work} {c : ℕ} {m : Inner} {s : PreparationState} {m' : Inner} {s' : PreparationState}
    → Run m s m' s'
    → Balanced rest c m s
    → Coherent s.stage s.compilation_started_at s.cancellation
    → Kept rest c m.errors (m', s')
Run-Kept here b h = record { balanced = b; coherent = h; no_error = refl }
Run-Kept {rest} {c} (next {m'} {s'} op r a) b h =
    let k = Run-Kept r b h in
    let k' = apply-Kept op rest c m' s' k.balanced k.coherent a in
    record { balanced = k'.balanced; coherent = k'.coherent; no_error = k'.no_error ∙ k.no_error }
