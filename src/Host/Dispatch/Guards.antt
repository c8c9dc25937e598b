-- ===== src/Host/Dispatch/Guards.antt =====
-- The guards of dispatch_metrics.rs: queued messages, task records and executions, with their drops.
use wasm_platform.Base.{ℕ, ◌+◌, ◌-◌, Bool, true, false, not, ◌∷◌, Option, none, some, if◌then◌else◌}
use wasm_platform.Host.Dispatch.Counts.{
  Inner, Outcome, QueueOutcome, Reaped, completed_uncollected, decrement, execution, increment,
  panic, publish_counts, queue, queued, record_capacity, running, shutdown, tasks, terminating,
  tracked,
}

-- `QueuedWork`, and its drop.
pub record QueuedWork : Type 0 where
  pub started_at : ℕ
  pub outcome : QueueOutcome

unfoldable pub enqueue : ℕ → Inner → Inner × QueuedWork
enqueue now m = (
  record_capacity queue (publish_counts (increment queued m)),
  record { started_at = now; outcome = shutdown },
)

unfoldable pub drop_queued : ℕ → QueuedWork → Inner → Inner
drop_queued now q m =
    let m' = publish_counts (decrement queued m) in
    record m' {
      queue_wait = (now - q.started_at) ∷ m'.queue_wait;
      queue_exits = q.outcome ∷ m'.queue_exits;
    }

abbrev pub is_stopped : Inner → Bool
is_stopped m = elim m.stopped_at [ none ↦ false | some _ ↦ true ]

-- The new record's outcome is `cancelled`.
unfoldable pub task_started : Inner → Inner
task_started m =
    let m' = increment tracked m in
    record_capacity tasks (
      publish_counts (record m' {
        admissions_after_stop =
            if is_stopped m then m.admissions_after_stop + 1 else m.admissions_after_stop;
      }))

-- The drop of a `TaskRecord`.
unfoldable pub drop_task : Bool → Outcome → Inner → Inner
drop_task panicking outcome m =
    let m' = publish_counts (increment completed_uncollected m) in
    record m' { finished = (if panicking then panic else outcome) ∷ m'.finished }

unfoldable pub task_reaped : Reaped → Inner → Inner
task_reaped outcome m =
    let m' = publish_counts (decrement completed_uncollected (decrement tracked m)) in
    record m' { reaped = outcome ∷ m'.reaped }

pub record Execution : Type 0 where
  pub started_at : ℕ
  pub terminating_at : Option ℕ

unfoldable pub execution_started : ℕ → Inner → Inner × Execution
execution_started now m = (
  record_capacity execution (publish_counts (increment running m)),
  record { started_at = now; terminating_at = none },
)

-- `Execution::terminating`.
unfoldable pub terminate : ℕ → Inner → Execution → Inner × Execution
terminate now m e = elim e.terminating_at [
  | some _ ↦ (m, e)
  | none ↦ (
    publish_counts (increment terminating (decrement running m)),
    record e { terminating_at = some now },
  )
]

unfoldable pub drop_execution : ℕ → Execution → Inner → Inner
drop_execution now e m =
    let m' = publish_counts (elim e.terminating_at [
      | none ↦ decrement running m
      | some at ↦
          decrement terminating
            (record m { cancellation_to_exit = (now - at) ∷ m.cancellation_to_exit })
    ]) in
    record m' { execution_duration = (now - e.started_at) ∷ m'.execution_duration }

unfoldable pub dispatch_stopped : ℕ → Inner → Inner
dispatch_stopped now m = elim m.stopped_at [
  | some _ ↦ m
  | none ↦ record m { stopped_at = some now; draining = 1 }
]

unfoldable pub drain_finished : ℕ → Inner → Inner
drain_finished now m = elim m.stopped_at [
  | none ↦ m
  | some at ↦
      if not m.drain_finished
      then record m {
        drain_finished = true;
        drain_duration = (now - at) ∷ m.drain_duration;
        draining = 0;
      }
      else m
]
