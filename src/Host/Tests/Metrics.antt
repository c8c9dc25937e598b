-- ===== src/Host/Tests/Metrics.antt =====
-- The properties of preparation_metrics.rs and dispatch_metrics.rs on short histories.
use wasm_platform.Base.{true, false, List, ◌≡◌, refl, ◌∷◌, [], none, some, arith}
use wasm_platform.Host.Preparation.Counts.{cancelled, Work, Inner, queued, no_work, no_limits}
use wasm_platform.Host.Preparation.Work.{PreparationState, terminate, terminate_stage}
use wasm_platform.Host.Preparation.Balance.{
  Op, terminates, drops, Balanced, Kept, activates, apply, Run, here, next, Run-Kept,
}
use wasm_platform.Host.Preparation.Outcomes.{Shown}
use wasm_platform.Host.Preparation.Finish.{Reported, apply_all, apply_all-Reported}
use wasm_platform.Host.Dispatch.Counts
use wasm_platform.Host.Dispatch.Balance

-- The host after one submission that waits since 3 and is admitted at 5.
abbrev state : PreparationState
state = record {
  stage = some queued;
  queued_at = 5;
  compilation_started_at = none;
  terminating_at = none;
  cancellation = none;
  outcome = cancelled;
}

abbrev one_queued : Work
one_queued = record no_work { in_queue = 1 }

abbrev inner : Inner
inner = record {
  work = one_queued;
  compilers = 0;
  limits = record { queue = 17; active = 1; tracked = 17; compilers = 1 };
  high_water = record { queue = 1; active = 0; tracked = 1; compilers = 0 };
  gauges = one_queued;
  occupancy = record { queue = 1; active = 0; tracked = 1; compilers = 0 };
  breaches = no_limits;
  errors = 0;
  submissions = [];
  finished = [];
  compilation_finished = [];
  admission_wait = 2 ∷ [];
  queue_wait = [];
  compilation_duration = [];
  compilation_overrun = [];
}

inner-Balanced : Balanced no_work 0 inner state
inner-Balanced = record {
  waits = refl;
  queue = refl;
  preparation = refl;
  compilation = refl;
  termination = refl;
  running = refl;
}

abbrev activated : Inner × PreparationState
activated = apply (activates 6) inner state

Run-once : Run inner state activated.0 activated.1
Run-once = next (activates 6) here refl

Run-Kept_example : Kept no_work 0 inner.errors activated
Run-Kept_example = Run-Kept Run-once inner-Balanced tt

inner-Shown : Shown inner
inner-Shown = ground arith

abbrev dying : Inner × PreparationState
dying = terminate cancelled 6 inner state

dying-queued : dying.1.stage ≡ some queued
unfolding terminate terminate_stage
dying-queued = refl

-- A preparation that is activated twice, dropped, cancelled and dropped again.
abbrev calls : List Op
calls = activates 6 ∷ activates 6 ∷ drops 7 false ∷ terminates cancelled 8 ∷ drops 9 true ∷ []

apply_all-Reported_example :
    Reported inner.finished (apply_all calls inner state).0 (apply_all calls inner state).1
apply_all-Reported_example = apply_all-Reported calls inner state refl

-- A message is queued, and a task starts.
abbrev reached : Counts.Inner
reached = Balance.apply Balance.starts_task (Balance.apply (Balance.enqueues 3) Counts.new)

abbrev alive : Balance.Live
alive = record { messages = 1; tasks = 1; ended = 0; executing = 0; stopping = 0 }

reaches : Balance.Reaches reached alive
reaches = Balance.next Balance.starts_task (Balance.next (Balance.enqueues 3) Balance.started tt) tt

Reaches-Balanced_example : Balance.Balanced reached alive
Reaches-Balanced_example = Balance.Reaches-Balanced reaches
