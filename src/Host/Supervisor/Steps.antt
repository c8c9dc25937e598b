-- ===== src/Host/Supervisor/Steps.antt =====
-- The tasks of invocation_supervisor.rs and their collection, the drain, and the steps of the whole.
pub mod Totals
pub mod Steady
pub mod Shape
pub mod Moves
pub mod Invariant
pub mod Intake
pub mod Admission
pub mod Reached
pub mod Draining
pub mod Drained
pub mod Revoking
use wasm_platform.Base.{
  ℕ, ◌+◌, Bool, true, false, not, ◌&&◌, Bytes, List, ◌∷◌, [], Option, none, some, Result, ok, err,
  if◌then◌else◌, length, ℕ_discrete,
}
use wasm_platform.Base.Map.{get, insert, remove}
use wasm_platform.Host.Dispatch.Counts.{Inner, new as new_metrics}
use wasm_platform.Host.Dispatch.Guards.{drain_finished}
use wasm_platform.Host.Invocation.{JoinError, Work, check}
use wasm_platform.Host.Supervisor.Jobs.{
  Job, executing, executed, replying, replied, ReplyEnd, published, unwinds, aborts, end_execution,
  end_reply, collect, Readings,
}
use wasm_platform.Host.Supervisor.Loop.{
  InvocationSupervisor, Phase, draining, finished, new, is_closing, is_draining, reserve, receive,
  spawn, discard, shut_down, authority_changed, take_message, Lookup, admit,
}

-- Whether the task of a job has its result.
abbrev pub has_ended : Job → Bool
has_ended (executing i revoked target) = false
has_ended (executed i revoked target r) = true
has_ended (replying label outcome told target reply) = false
has_ended (replied label r) = true

-- Whether a task can end so: it is aborted only if it was told to.
abbrev pub can_end : ReplyEnd → Bool → Bool
can_end (published answer) told = true
can_end unwinds told = true
can_end aborts told = told

abbrev pub put : ℕ → Job × Inner → InvocationSupervisor → InvocationSupervisor
put id r s = record s { jobs = insert ℕ_discrete id r.0 s.jobs; metrics = r.1 }

-- The execution of a task ends, and its permit is free.
unfoldable pub finish_execution :
    ℕ
    → ℕ
    → Readings
    → Work (Option Bytes)
    → List (Result JoinError (Unit {0}))
    → InvocationSupervisor
    → InvocationSupervisor
finish_execution id ended at work cleanup s = elim (get ℕ_discrete id s.jobs) [
  | none ↦ s
  | some job ↦ elim job [
    | executing i revoked target ↦
        put id (end_execution ended at work cleanup i revoked target s.metrics)
          (record s { slots = s.slots + 1 })
    | executed i revoked target r ↦ s
    | replying label outcome told target reply ↦ s
    | replied label r ↦ s
  ]
]

-- The check of a running execution, which cancels it once its budget is over.
unfoldable pub check_execution : ℕ → ℕ → InvocationSupervisor → InvocationSupervisor
check_execution id now s = elim (get ℕ_discrete id s.jobs) [
  | none ↦ s
  | some job ↦ elim job [
    | executing i revoked target ↦
        let c = check now i s.metrics in put id (executing c.0.0 revoked target, c.0.1) s
    | executed i revoked target r ↦ s
    | replying label outcome told target reply ↦ s
    | replied label r ↦ s
  ]
]

unfoldable pub finish_reply : ℕ → ReplyEnd → InvocationSupervisor → InvocationSupervisor
finish_reply id end s = elim (get ℕ_discrete id s.jobs) [
  | none ↦ s
  | some job ↦ elim job [
    | executing i revoked target ↦ s
    | executed i revoked target r ↦ s
    | replying label outcome told target reply ↦
        if can_end end told
        then put id (end_reply end label outcome target reply s.metrics) s
        else s
    | replied label r ↦ s
  ]
]

-- `join_next_with_id` and `collect`.
unfoldable pub join_next : ℕ → InvocationSupervisor → InvocationSupervisor
join_next id s = elim (get ℕ_discrete id s.jobs) [
  | none ↦ s
  | some job ↦
      let r = collect job s.metrics in
      let s' = record s { jobs = remove ℕ_discrete id s.jobs; metrics = r.1 } in
      if has_ended job then (elim r.0 [ none ↦ s' | some next ↦ spawn next s' ]) else s
]

unfoldable pub end_intake : InvocationSupervisor → InvocationSupervisor
end_intake s = record s { intake = false; reserved = false }

-- The intake gives its place back, where another branch of its `select!` goes first.
unfoldable pub release : InvocationSupervisor → InvocationSupervisor
release s = record s { reserved = false }

-- The rest of `stop_and_drain`: after the intake, and after the last job.
unfoldable pub drain : ℕ → InvocationSupervisor → InvocationSupervisor
drain now s =
    if is_closing s.phase && not s.intake
    then record s {
      messages = [];
      metrics = discard now (λ q. q) s.messages s.metrics;
      phase = draining;
    }
    else s

unfoldable pub finish_drain : ℕ → InvocationSupervisor → InvocationSupervisor
finish_drain now s = elim s.jobs [
  | [] ↦
      if is_draining s.phase
      then record s { metrics = drain_finished now s.metrics; phase = finished }
      else s
  | _ ∷ _ ↦ s
]

pub data Event : Type 0 where
  reserves releases ends_intake : Event
  receives : ℕ → ℕ → Bool → Event
  shuts_down : ℕ → Event
  changes_authority takes : ℕ → Bool → Event
  admits : ℕ → ℕ → Bool → Bool → Lookup → Event
  ends_execution :
      ℕ → ℕ → Readings → Work (Option Bytes) → List (Result JoinError (Unit {0})) → Event
  ends_reply : ℕ → ReplyEnd → Event
  checks : ℕ → ℕ → Event
  joins : ℕ → Event
  drains finishes : ℕ → Event

unfoldable pub step : Event → InvocationSupervisor → InvocationSupervisor
step reserves s = reserve s
step releases s = release s
step ends_intake s = end_intake s
step (receives now budget reply) s = receive now budget reply s
step (shuts_down now) s = shut_down now s
step (changes_authority now alive) s = authority_changed now alive s
step (takes now trusted) s = take_message now trusted s
step (admits now at client trusted lookup) s = admit now at client trusted lookup s
step (ends_execution id ended at work cleanup) s = finish_execution id ended at work cleanup s
step (ends_reply id end) s = finish_reply id end s
step (checks id now) s = check_execution id now s
step (joins id) s = join_next id s
step (drains now) s = drain now s
step (finishes now) s = finish_drain now s

-- The states that a supervisor reaches.
pub data Reaches (max_concurrent capacity : ℕ) : InvocationSupervisor → Type 0 where
  started : Reaches max_concurrent capacity (new max_concurrent capacity new_metrics)
  next :
      {s : InvocationSupervisor} (e : Event)
      → Reaches max_concurrent capacity s
      → Reaches max_concurrent capacity (step e s)
