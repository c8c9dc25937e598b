-- ===== src/Host/Supervisor/Steps/Totals.antt =====
-- What the messages and the jobs of invocation_supervisor.rs add to the accounting, and the sums of it.
use wasm_platform.Base.{
  ℕ, ◌+◌, ◌≤◌, ◌≡◌, refl, List, ◌∷◌, [], Option, none, some, arith, length, ℕ_discrete,
}
use wasm_platform.Base.Map.{get, insert, remove, total, Distinct, total-remove, length-remove}
use wasm_platform.Host.Dispatch.Balance.{Live}
use wasm_platform.Host.Invocation.Ending.{plus}
use wasm_platform.Host.Supervisor.Jobs.{Job, executing, executed, replying, replied}
use wasm_platform.Host.Supervisor.Loop.{InvocationSupervisor, InvocationMessage}

abbrev pub a_task : Live
a_task = record { messages = 0; tasks = 1; ended = 0; executing = 0; stopping = 0 }

-- What a job adds.
abbrev pub share : Job → Live
share (executing i revoked target) = plus a_task i.execution
share (executed i revoked target r) = plus a_task i.execution
share (replying label outcome told target reply) = a_task
share (replied label r) = record { messages = 0; tasks = 0; ended = 1; executing = 0; stopping = 0 }

abbrev pub has_permit : Job → ℕ
has_permit (executing i revoked target) = 1
has_permit (executed i revoked target r) = 0
has_permit (replying label outcome told target reply) = 0
has_permit (replied label r) = 0

abbrev pub add : Live → Live → Live
add a b = record {
  messages = a.messages + b.messages;
  tasks = a.tasks + b.tasks;
  ended = a.ended + b.ended;
  executing = a.executing + b.executing;
  stopping = a.stopping + b.stopping;
}

-- What the jobs add together.
abbrev pub shares : List (ℕ × Job) → Live
shares jobs = record {
  messages = 0;
  tasks = total (λ (j : Job). (share j).tasks) jobs;
  ended = total (λ (j : Job). (share j).ended) jobs;
  executing = total (λ (j : Job). (share j).executing) jobs;
  stopping = total (λ (j : Job). (share j).stopping) jobs;
}

abbrev pub permits : List (ℕ × Job) → ℕ
permits jobs = total has_permit jobs

abbrev pub waiting : Option InvocationMessage → ℕ
waiting none = 0
waiting (some x) = 1

-- What is alive in a supervisor.
abbrev pub live : InvocationSupervisor → Live
live s = record (shares s.jobs) { messages = length s.messages + waiting s.pending }

-- A job whose execution ended has no guard.
abbrev pub IsIdle : Job → Type 0
IsIdle (executing i revoked target) = Unit {0}
IsIdle (executed i revoked target r) = i.execution ≡ none
IsIdle (replying label outcome told target reply) = Unit {0}
IsIdle (replied label r) = Unit {0}

-- A job is tracked until it is collected, and executes only with a permit.
pub share-tracked : (j : Job) → (share j).tasks + (share j).ended ≡ 1
share-tracked (executing i revoked target) = refl
share-tracked (executed i revoked target r) = refl
share-tracked (replying label outcome told target reply) = refl
share-tracked (replied label r) = refl

pub share-messages : (j : Job) → (share j).messages ≡ 0
share-messages (executing i revoked target) = refl
share-messages (executed i revoked target r) = refl
share-messages (replying label outcome told target reply) = refl
share-messages (replied label r) = refl

pub share-permit : (j : Job) → IsIdle j → (share j).executing + (share j).stopping ≤ has_permit j
share-permit (executing i revoked target) h = ground arith
share-permit (executed i revoked target r) h = ground arith
share-permit (replying label outcome told target reply) h = ground arith
share-permit (replied label r) h = ground arith

pub shares-tracked :
    (jobs : List (ℕ × Job)) → (shares jobs).tasks + (shares jobs).ended ≡ length jobs
unfolding total
shares-tracked [] = refl
shares-tracked ((id, j) ∷ jobs) = omega (arith, share-tracked j, shares-tracked jobs)

-- A job apart from the others.
pub record Apart (jobs others : List (ℕ × Job)) (j : Job) : Type 0 where
  pub tasks : (shares others).tasks + (share j).tasks ≡ (shares jobs).tasks
  pub ended : (shares others).ended + (share j).ended ≡ (shares jobs).ended
  pub executing : (shares others).executing + (share j).executing ≡ (shares jobs).executing
  pub stopping : (shares others).stopping + (share j).stopping ≡ (shares jobs).stopping
  pub permits : permits others + has_permit j ≡ permits jobs
  pub length : length others + 1 ≡ length jobs

pub remove-Apart :
    (id : ℕ) (j : Job) (jobs : List (ℕ × Job))
    → Distinct ℕ_discrete jobs
    → get ℕ_discrete id jobs ≡ some j
    → Apart jobs (remove ℕ_discrete id jobs) j
remove-Apart id j jobs d h = record {
  tasks = total-remove ℕ_discrete (λ (j : Job). (share j).tasks) id j jobs d h;
  ended = total-remove ℕ_discrete (λ (j : Job). (share j).ended) id j jobs d h;
  executing = total-remove ℕ_discrete (λ (j : Job). (share j).executing) id j jobs d h;
  stopping = total-remove ℕ_discrete (λ (j : Job). (share j).stopping) id j jobs d h;
  permits = total-remove ℕ_discrete has_permit id j jobs d h;
  length = length-remove ℕ_discrete id j jobs d h;
}

-- `insert` of a job that replaces another.
pub insert-Apart :
    (id : ℕ) (j : Job) (jobs : List (ℕ × Job))
    → Apart (insert ℕ_discrete id j jobs) (remove ℕ_discrete id jobs) j
unfolding insert total
insert-Apart id j jobs = record {
  tasks = ground arith;
  ended = ground arith;
  executing = ground arith;
  stopping = ground arith;
  permits = ground arith;
  length = ground arith;
}
