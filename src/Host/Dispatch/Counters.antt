-- ===== src/Host/Dispatch/Counters.antt =====
-- What dispatch_metrics.rs reports: the high-water marks, and the end of a host.
use wasm_platform.Base.{◌+◌, ◌≤◌, ◌≡◌, false, not, ◌&&◌, if◌then◌else◌, length, arith}
use wasm_platform.Host.Dispatch.Counts.{
  Inner, configure, publish_counts, record_capacity, decrement,
}
use wasm_platform.Host.Dispatch.Guards.{
  enqueue, drop_queued, task_started, drop_task, task_reaped, execution_started, terminate,
  drop_execution, drain_finished, dispatch_stopped, is_stopped,
}
use wasm_platform.Host.Dispatch.Balance.{
  Op, configures, enqueues, dequeues, starts_task, ends_task, reaps, executes, terminates, exits,
  stops, drains, apply, Live, Balanced, Allowed, Reaches, started, next, Reaches-Balanced,
}

-- The marks are at least what is occupied, a drain is reported once and only after a stop, and the host
-- shows as draining from the stop to that report.
pub record Reported (m : Inner) : Type 0 where
  pub queue_mark : m.counts.queued ≤ m.high_water.queue
  pub execution_mark : m.counts.running + m.counts.terminating ≤ m.high_water.execution
  pub tasks_mark : m.counts.tracked ≤ m.high_water.tasks
  pub drained : length m.drain_duration ≡ (if m.drain_finished then 1 else 0)
  pub in_order : (m.drain_finished && not (is_stopped m)) ≡ false
  pub draining : m.draining ≡ (if is_stopped m && not m.drain_finished then 1 else 0)

apply-Reported :
    (op : Op) (m : Inner) (l : Live)
    → Balanced m l
    → Allowed op l
    → Reported m
    → Reported (apply op m)
unfolding apply configure enqueue drop_queued task_started drop_task task_reaped execution_started
    terminate drop_execution dispatch_stopped drain_finished publish_counts record_capacity
    decrement
apply-Reported (configures q e t) m l b a r = ground arith
apply-Reported (enqueues now) m l b a r = ground arith
apply-Reported (dequeues now q) m l b a r = ground arith
apply-Reported starts_task m l b a r = ground arith
apply-Reported (ends_task panicking o) m l b a r = ground arith
apply-Reported (reaps o) m l b a r = ground arith
apply-Reported (executes now) m l b a r = ground arith
apply-Reported (terminates now e) m l b a r = ground arith
apply-Reported (exits now e) m l b a r = ground arith
apply-Reported (stops now) m l b a r = ground arith
apply-Reported (drains now) m l b a r = ground arith

-- In every state that a host reaches, the high-water marks are at least what is occupied, a drain was
-- reported at most once and only after a stop, and the host shows as draining from the stop until then.
pub Reaches-Reported : {m : Inner} {l : Live} → Reaches m l → Reported m
Reaches-Reported started = ground arith
Reaches-Reported (next {m} {l} op r a) =
    apply-Reported op m l (Reaches-Balanced r) a (Reaches-Reported r)
