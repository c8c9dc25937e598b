-- ===== src/Host/Preparation/Counts.antt =====
-- The counts of preparation_metrics.rs, and how they are published. Instants are numbers and `now` is an
-- argument; a histogram is the list of its observations, and a counter the list or number of its events.
use wasm_platform.Base.{
  ℕ, ◌+◌, ◌-◌, ◌^◌, min, Bool, true, false, List, [], if◌then◌else◌, ◌==◌, ltb,
}

pub data WorkState : Type 0 where
  queued preparing compiling terminating : WorkState

pub data PreparationOutcome : Type 0 where
  success error timeout cancelled panic : PreparationOutcome

pub data SubmissionOutcome : Type 0 where
  admitted timed_out dropped closed : SubmissionOutcome

-- `CAPACITIES`.
pub data Capacity : Type 0 where
  queue active tracked compilers : Capacity

-- `counts.work`, by `WORK_STATES`.
pub record Work : Type 0 where
  pub admission_wait : ℕ
  pub in_queue : ℕ
  pub in_preparation : ℕ
  pub in_compilation : ℕ
  pub in_termination : ℕ

abbrev pub read : WorkState → Work → ℕ
read queued w = w.in_queue
read preparing w = w.in_preparation
read compiling w = w.in_compilation
read terminating w = w.in_termination

abbrev pub write : WorkState → ℕ → Work → Work
write queued n w = record w { in_queue = n }
write preparing n w = record w { in_preparation = n }
write compiling n w = record w { in_compilation = n }
write terminating n w = record w { in_termination = n }

pub record Limits : Type 0 where
  pub queue : ℕ
  pub active : ℕ
  pub tracked : ℕ
  pub compilers : ℕ

abbrev pub of_kind : Capacity → Limits → ℕ
of_kind queue l = l.queue
of_kind active l = l.active
of_kind tracked l = l.tracked
of_kind compilers l = l.compilers

-- `breaches` has the capacity breaches by kind, `errors` all accounting errors; `gauges` and
-- `occupancy` are what was last published.
pub record Inner : Type 0 where
  pub work : Work
  pub compilers : ℕ
  pub limits : Limits
  pub high_water : Limits
  pub gauges : Work
  pub occupancy : Limits
  pub breaches : Limits
  pub errors : ℕ
  pub submissions : List SubmissionOutcome
  pub finished : List PreparationOutcome
  pub compilation_finished : List PreparationOutcome
  pub admission_wait : List ℕ
  pub queue_wait : List ℕ
  pub compilation_duration : List ℕ
  pub compilation_overrun : List ℕ

abbrev pub no_limits : Limits
no_limits = record { queue = 0; active = 0; tracked = 0; compilers = 0 }

abbrev pub no_work : Work
no_work = record {
  admission_wait = 0;
  in_queue = 0;
  in_preparation = 0;
  in_compilation = 0;
  in_termination = 0;
}

-- `PreparationMetrics::new`, less the registration of its metrics.
unfoldable pub new : ℕ → ℕ → Inner
new record_limit active_limit = record {
  work = no_work;
  compilers = 0;
  limits = record {
    queue = record_limit;
    active = active_limit;
    tracked = record_limit;
    compilers = active_limit;
  };
  high_water = no_limits;
  gauges = no_work;
  occupancy = no_limits;
  breaches = no_limits;
  errors = 0;
  submissions = [];
  finished = [];
  compilation_finished = [];
  admission_wait = [];
  queue_wait = [];
  compilation_duration = [];
  compilation_overrun = [];
}

-- `i64::try_from(value).unwrap_or(i64::MAX)`.
abbrev pub as_gauge : ℕ → ℕ
as_gauge value = min value (2 ^ 63 - 1)

abbrev pub active_of : Work → ℕ
active_of w = w.in_preparation + w.in_compilation + w.in_termination

abbrev pub occupancy_of : Inner → Limits
occupancy_of m = record {
  queue = m.work.in_queue;
  active = active_of m.work;
  tracked = m.work.in_queue + active_of m.work;
  compilers = m.compilers;
}

abbrev pub raise : ℕ → ℕ → ℕ
raise value high = if ltb high value then value else high

abbrev pub gauges_of : Work → Work
gauges_of w = record {
  admission_wait = as_gauge w.admission_wait;
  in_queue = as_gauge w.in_queue;
  in_preparation = as_gauge w.in_preparation;
  in_compilation = as_gauge w.in_compilation;
  in_termination = as_gauge w.in_termination;
}

abbrev pub limit_gauges : Limits → Limits
limit_gauges o = record {
  queue = as_gauge o.queue;
  active = as_gauge o.active;
  tracked = as_gauge o.tracked;
  compilers = as_gauge o.compilers;
}

unfoldable pub publish_counts : Inner → Inner
publish_counts m =
    let o = occupancy_of m in
    record m {
      gauges = gauges_of m.work;
      occupancy = limit_gauges o;
      high_water = record {
        queue = raise o.queue m.high_water.queue;
        active = raise o.active m.high_water.active;
        tracked = raise o.tracked m.high_water.tracked;
        compilers = raise o.compilers m.high_water.compilers;
      };
    }

abbrev pub add_breach : Capacity → Limits → Limits
add_breach queue b = record b { queue = b.queue + 1 }
add_breach active b = record b { active = b.active + 1 }
add_breach tracked b = record b { tracked = b.tracked + 1 }
add_breach compilers b = record b { compilers = b.compilers + 1 }

unfoldable pub record_capacity : Capacity → Inner → Inner
record_capacity kind m = record m {
  breaches =
      if ltb (of_kind kind m.limits) (of_kind kind (occupancy_of m))
      then add_breach kind m.breaches
      else m.breaches;
}

abbrev pub accounting_error : Inner → Inner
accounting_error m = record m { errors = m.errors + 1 }

-- `decrement` of the count of a state: at 0 it is an accounting error.
unfoldable pub decrement : WorkState → Inner → Inner
decrement state m =
    if read state m.work == 0
    then accounting_error m
    else record m { work = write state (read state m.work - 1) m.work }

abbrev pub increment : WorkState → Inner → Inner
increment state m = record m { work = write state (read state m.work + 1) m.work }

abbrev pub is_activation : WorkState → WorkState → Bool
is_activation queued preparing = true
is_activation queued _ = false
is_activation preparing _ = false
is_activation compiling _ = false
is_activation terminating _ = false

unfoldable pub transition : WorkState → WorkState → Inner → Inner
transition from to m =
    let m' = publish_counts (increment to (decrement from m)) in
    if is_activation from to then record_capacity active m' else m'
