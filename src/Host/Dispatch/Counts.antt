-- ===== src/Host/Dispatch/Counts.antt =====
-- The counts of dispatch_metrics.rs, and how they are published.
use wasm_platform.Base.{
  ℕ, ◌+◌, ◌-◌, ◌^◌, min, Bool, false, List, [], Option, none, some, if◌then◌else◌, ◌==◌, ltb,
}

-- `WORK_STATES`.
pub data WorkState : Type 0 where
  queued tracked completed_uncollected running terminating : WorkState

-- `CAPACITIES`.
pub data Capacity : Type 0 where
  queue execution tasks : Capacity

-- `OUTCOMES`, `QUEUE_OUTCOMES` and the labels of `reaped`.
pub data Outcome : Type 0 where
  success timeout error panic cancelled rejected other : Outcome

pub data QueueOutcome : Type 0 where
  admitted expired unknown_route module_unavailable failed shutdown unknown : QueueOutcome

pub data Reaped : Type 0 where
  joined panicked aborted unnamed : Reaped

pub record Counts : Type 0 where
  pub queued : ℕ
  pub tracked : ℕ
  pub completed_uncollected : ℕ
  pub running : ℕ
  pub terminating : ℕ

pub record Limits : Type 0 where
  pub queue : ℕ
  pub execution : ℕ
  pub tasks : ℕ

pub record Inner : Type 0 where
  pub counts : Counts
  pub limits : Option Limits
  pub high_water : Limits
  pub stopped_at : Option ℕ
  pub drain_finished : Bool
  pub work : Counts
  pub breaches : Limits
  pub errors : ℕ
  pub admissions_after_stop : ℕ
  pub finished : List Outcome
  pub reaped : List Reaped
  pub queue_exits : List QueueOutcome
  pub queue_wait : List ℕ
  pub execution_duration : List ℕ
  pub cancellation_to_exit : List ℕ
  pub drain_duration : List ℕ
  pub draining : ℕ

abbrev pub no_counts : Counts
no_counts = record {
  queued = 0;
  tracked = 0;
  completed_uncollected = 0;
  running = 0;
  terminating = 0;
}

abbrev pub no_limits : Limits
no_limits = record { queue = 0; execution = 0; tasks = 0 }

-- `DispatchMetrics::new`, less the registration of its metrics.
abbrev pub new : Inner
new = record {
  counts = no_counts;
  limits = none;
  high_water = no_limits;
  stopped_at = none;
  drain_finished = false;
  work = no_counts;
  breaches = no_limits;
  errors = 0;
  admissions_after_stop = 0;
  finished = [];
  reaped = [];
  queue_exits = [];
  queue_wait = [];
  execution_duration = [];
  cancellation_to_exit = [];
  drain_duration = [];
  draining = 0;
}

abbrev pub as_gauge : ℕ → ℕ
as_gauge value = min value (2 ^ 63 - 1)

abbrev pub gauges_of : Counts → Counts
gauges_of c = record {
  queued = as_gauge c.queued;
  tracked = as_gauge c.tracked;
  completed_uncollected = as_gauge c.completed_uncollected;
  running = as_gauge c.running;
  terminating = as_gauge c.terminating;
}

unfoldable pub publish_counts : Inner → Inner
publish_counts m = record m { work = gauges_of m.counts }

abbrev pub occupancy : Capacity → Counts → ℕ
occupancy queue c = c.queued
occupancy execution c = c.running + c.terminating
occupancy tasks c = c.tracked

abbrev pub of_kind : Capacity → Limits → ℕ
of_kind queue l = l.queue
of_kind execution l = l.execution
of_kind tasks l = l.tasks

abbrev pub set_kind : Capacity → ℕ → Limits → Limits
set_kind queue n l = record l { queue = n }
set_kind execution n l = record l { execution = n }
set_kind tasks n l = record l { tasks = n }

abbrev pub exceeds : Capacity → ℕ → Option Limits → Bool
exceeds kind value none = false
exceeds kind value (some limits) = ltb (of_kind kind limits) value

unfoldable pub record_capacity : Capacity → Inner → Inner
record_capacity kind m =
    let value = occupancy kind m.counts in
    record m {
      high_water =
          if ltb (of_kind kind m.high_water) value
          then set_kind kind value m.high_water
          else m.high_water;
      breaches =
          if exceeds kind value m.limits
          then set_kind kind (of_kind kind m.breaches + 1) m.breaches
          else m.breaches;
    }

abbrev pub breach_at : Capacity → Limits → Counts → Limits → Limits
breach_at kind limits c b =
    if ltb (of_kind kind limits) (occupancy kind c) then set_kind kind (of_kind kind b + 1) b else b

unfoldable pub configure : ℕ → ℕ → ℕ → Inner → Inner
configure queue_limit execution_limit task_limit m =
    let limits : Limits = record {
      queue = queue_limit;
      execution = execution_limit;
      tasks = task_limit;
    } in
    record m {
      limits = some limits;
      breaches =
          breach_at tasks limits m.counts
            (breach_at execution limits m.counts (breach_at queue limits m.counts m.breaches));
    }

abbrev pub accounting_error : Inner → Inner
accounting_error m = record m { errors = m.errors + 1 }

abbrev pub read : WorkState → Counts → ℕ
read queued c = c.queued
read tracked c = c.tracked
read completed_uncollected c = c.completed_uncollected
read running c = c.running
read terminating c = c.terminating

abbrev pub write : WorkState → ℕ → Counts → Counts
write queued n c = record c { queued = n }
write tracked n c = record c { tracked = n }
write completed_uncollected n c = record c { completed_uncollected = n }
write running n c = record c { running = n }
write terminating n c = record c { terminating = n }

unfoldable pub decrement : WorkState → Inner → Inner
decrement state m =
    if read state m.counts == 0
    then accounting_error m
    else record m { counts = write state (read state m.counts - 1) m.counts }

abbrev pub increment : WorkState → Inner → Inner
increment state m = record m { counts = write state (read state m.counts + 1) m.counts }
