-- ===== src/Host/Supervisor/Loop.antt =====
-- The loop of invocation_supervisor.rs, its shutdown and its drain, with the intake that feeds it. A
-- step is what one branch of a `select!` does, or what a task or the intake does on its own; a step
-- that the code does not have in a state leaves it as it is. The authority is an argument of the steps
-- that read it, and so is what the registries answer.
use wasm_platform.Base.{
  ℕ, ◌+◌, ◌-◌, Bool, true, false, ◌&&◌, Bytes, ascii, List, ◌∷◌, [], ◌++◌, Option, none, some,
  if◌then◌else◌, ltb, ◌==◌, length, ℕ_discrete,
}
use wasm_platform.Base.Map.{insert}
use wasm_platform.Host.Dispatch.Counts.{Inner, configure, joined, timeout}
use wasm_platform.Host.Dispatch.Guards.{
  QueuedWork, enqueue, drop_queued, task_started, dispatch_stopped,
}
use wasm_platform.Host.Dispatch.Labels.{set_outcome}
use wasm_platform.Host.Invocation.{Invocation, with_metrics, cancel, run, start_execution}
use wasm_platform.Host.Supervisor.Jobs.{error_response, Job, executing, replying, cancel_job}

-- `InvocationMessage`; of the message, whether it names a reply subject.
pub record InvocationMessage : Type 0 where
  pub reply : Bool
  pub invocation : Invocation
  pub queued : QueuedWork

-- Where `run` and `stop_and_drain` are: `closing` waits for the intake, `draining` for the jobs.
pub data Phase : Type 0 where
  dispatching closing draining finished : Phase

-- `InvocationSupervisor`, with the message that `run` took and has no permit for. `reserved` is a place
-- that the intake has in the channel, `slots` are the free permits, `next_id` is the id of the next task.
pub record InvocationSupervisor : Type 0 where
  pub messages : List InvocationMessage
  pub reserved : Bool
  pub intake : Bool
  pub pending : Option InvocationMessage
  pub capacity : ℕ
  pub slots : ℕ
  pub jobs : List (ℕ × Job)
  pub next_id : ℕ
  pub metrics : Inner
  pub max_tracked : ℕ
  pub phase : Phase

unfoldable pub new : ℕ → ℕ → Inner → InvocationSupervisor
new max_concurrent capacity m = record {
  messages = [];
  reserved = false;
  intake = true;
  pending = none;
  capacity = capacity;
  slots = max_concurrent;
  jobs = [];
  next_id = 0;
  metrics = configure (capacity + 1) max_concurrent max_concurrent m;
  max_tracked = max_concurrent;
  phase = dispatching;
}

abbrev pub is_dispatching : Phase → Bool
is_dispatching dispatching = true
is_dispatching _ = false

abbrev pub is_closing : Phase → Bool
is_closing closing = true
is_closing _ = false

abbrev pub is_draining : Phase → Bool
is_draining draining = true
is_draining _ = false

abbrev pub places : Bool → ℕ
places reserved = if reserved then 1 else 0

-- The intake of nats.rs has a place in the open channel, and sends.
unfoldable pub reserve : InvocationSupervisor → InvocationSupervisor
reserve s =
    if (s.intake && is_dispatching s.phase)
      && ltb (length s.messages + places s.reserved) s.capacity
    then record s { reserved = true }
    else s

unfoldable pub receive : ℕ → ℕ → Bool → InvocationSupervisor → InvocationSupervisor
receive now budget reply s =
    let e = enqueue now s.metrics in
    if s.reserved
    then record s {
      messages =
          s.messages
          ++ record { reply = reply; invocation = with_metrics now budget; queued = e.1 } ∷ [];
      reserved = false;
      metrics = e.0;
    }
    else s

-- `spawn_execution` and `spawn_reply` insert a job under the id of its task.
unfoldable pub spawn : Job → InvocationSupervisor → InvocationSupervisor
spawn job s = record s { jobs = insert ℕ_discrete s.next_id job s.jobs; next_id = s.next_id + 1 }

-- The loops of `cancel_untrusted_work`.
unfoldable pub cancel_jobs : ℕ → List (ℕ × Job) → Inner → List (ℕ × Job) × Inner
cancel_jobs now [] m = ([], m)
cancel_jobs now ((id, job) ∷ jobs) m =
    let c = cancel_job now job m in
    let rest = cancel_jobs now jobs c.1 in ((id, c.0) ∷ rest.0, rest.1)

unfoldable pub discard : ℕ → (QueuedWork → QueuedWork) → List InvocationMessage → Inner → Inner
discard now label [] m = m
discard now label (x ∷ messages) m =
    discard now label messages (drop_queued now (label x.queued) (cancel now x.invocation m).1)

unfoldable pub cancel_untrusted_work : ℕ → InvocationSupervisor → InvocationSupervisor
cancel_untrusted_work now s =
    let c = cancel_jobs now s.jobs s.metrics in
    record s {
      messages = [];
      jobs = c.0;
      metrics = discard now (set_outcome (ascii "error")) s.messages c.1;
    }

-- The message that is waiting for a permit, cancelled and dropped.
unfoldable pub give_up : ℕ → (QueuedWork → QueuedWork) → InvocationSupervisor → InvocationSupervisor
give_up now label s = elim s.pending [
  | none ↦ s
  | some x ↦ record s { pending = none; metrics = discard now label (x ∷ []) s.metrics }
]

-- The start of `stop_and_drain`.
unfoldable pub stop : ℕ → InvocationSupervisor → InvocationSupervisor
stop now s = record s { phase = closing; metrics = dispatch_stopped now s.metrics }

unfoldable pub shut_down : ℕ → InvocationSupervisor → InvocationSupervisor
shut_down now s = if is_dispatching s.phase then stop now (give_up now (λ q. q) s) else s

-- `synced_rx.changed()`, where `alive` is that it is no error.
unfoldable pub authority_changed : ℕ → Bool → InvocationSupervisor → InvocationSupervisor
authority_changed now alive s =
    let s' = give_up now (set_outcome (ascii "error")) (cancel_untrusted_work now s) in
    if is_dispatching s.phase then (if alive then s' else stop now s') else s

unfoldable pub take_message : ℕ → Bool → InvocationSupervisor → InvocationSupervisor
take_message now trusted s = elim s.pending [
  | some _ ↦ s
  | none ↦
      if is_dispatching s.phase && ltb (length s.jobs) s.max_tracked
      then (elim s.messages [
        | [] ↦ if s.intake then s else stop now s
        | x ∷ messages ↦
            if trusted then record s { messages = messages; pending = some x } else record s {
              messages = messages;
              metrics = discard now (set_outcome (ascii "error")) (x ∷ []) s.metrics;
            }
      ])
      else s
]

-- What the two registries answer.
pub data Lookup : Type 0 where
  found no_route no_module lookup_failed : Lookup

-- The message is dropped, and its permit with it.
unfoldable pub dismiss : ℕ → Bytes → InvocationMessage → InvocationSupervisor → InvocationSupervisor
dismiss at outcome x s = record s {
  metrics = drop_queued at (set_outcome outcome x.queued) s.metrics;
}

unfoldable pub accept : ℕ → Bool → InvocationMessage → InvocationSupervisor → InvocationSupervisor
accept at client x s =
    let d = dismiss at (ascii "admitted") x s in
    let e = start_execution at x.invocation (task_started d.metrics) in
    spawn (executing e.0 false (record { subject = x.reply; client = client }))
      (record d { slots = d.slots - 1; metrics = e.1 })

unfoldable pub expire : ℕ → Bool → InvocationMessage → InvocationSupervisor → InvocationSupervisor
expire at client x s =
    let d = dismiss at (ascii "expired") x s in
    spawn
      (replying joined timeout false (record { subject = x.reply; client = client })
        (error_response 504 (ascii "invocation timed out")))
      (record d { metrics = task_started d.metrics })

unfoldable pub dispatch :
    ℕ → Bool → Bool → Lookup → InvocationMessage → InvocationSupervisor → InvocationSupervisor
dispatch at client trusted found x s =
    if trusted
    then accept at client x s
    else record s { metrics = discard at (set_outcome (ascii "error")) (x ∷ []) s.metrics }
dispatch at client trusted no_route x s = dismiss at (ascii "unknown_route") x s
dispatch at client trusted no_module x s = dismiss at (ascii "module_unavailable") x s
dispatch at client trusted lookup_failed x s = dismiss at (ascii "error") x s

-- The end of `acquire_permit`, which waits from `now` until `at`, and what follows it.
unfoldable pub admit : ℕ → ℕ → Bool → Bool → Lookup → InvocationSupervisor → InvocationSupervisor
admit now at client trusted lookup s = elim s.pending [
  | none ↦ s
  | some x ↦
      let permit : Option (Unit {0}) = if s.slots == 0 then none else some tt in
      let r = run now at permit x.invocation s.metrics in
      let s' = record s { pending = none; metrics = r.0.1 } in
      let x' = record x { invocation = r.0.0 } in
      elim r.1 [ none ↦ expire at client x' s' | some _ ↦ dispatch at client trusted lookup x' s' ]
]
