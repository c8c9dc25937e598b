-- ===== src/Host/Supervisor/Steps/Shape.antt =====
-- The bounds and the ids of the state of invocation_supervisor.rs, apart from its accounting.
use wasm_platform.Base.{
  ℕ, ◌+◌, ◌≤◌, ◌<◌, ◌≡◌, Bool, true, false, List, ◌∷◌, [], Option, none, some, arith, length,
  ℕ_discrete, Option-cases, inl, inr,
}
use wasm_platform.Base.Map.{
  get, insert, remove, Each, Distinct, remove-Each, get-Each, remove-Distinct, insert-Distinct,
  remove_absent,
}
use wasm_platform.Host.Dispatch.Counts.{Inner}
use wasm_platform.Host.Supervisor.Jobs.{Job}
use wasm_platform.Host.Supervisor.Loop.{
  InvocationSupervisor, InvocationMessage, Phase, dispatching, closing, draining, finished, places,
  spawn,
}
use wasm_platform.Host.Supervisor.Steps.Totals.{
  IsIdle, permits, waiting, has_permit, remove-Apart, insert-Apart,
}

-- No message that waits executes.
abbrev pub Waits : List InvocationMessage → Type 0
Waits [] = Unit {0}
Waits (x ∷ messages) = (x.invocation.execution ≡ none) × Waits messages

abbrev pub WaitsFor : Option InvocationMessage → Type 0
WaitsFor none = Unit {0}
WaitsFor (some x) = x.invocation.execution ≡ none

-- What a phase leaves.
abbrev pub Left : InvocationSupervisor → Phase → Type 0
Left s dispatching = Unit {0}
Left s closing = s.pending ≡ none
Left s draining = (s.pending ≡ none) × (s.messages ≡ []) × (s.reserved ≡ false) × (s.intake ≡ false)
Left s finished =
    (s.pending ≡ none)
    × (s.messages ≡ [])
    × (s.reserved ≡ false)
    × (s.intake ≡ false)
    × (s.jobs ≡ [])

abbrev pub is_finished : Phase → Bool
is_finished finished = true
is_finished _ = false

abbrev pub IsOwned : ℕ → ℕ → Job → Type 0
IsOwned next_id id j = (id < next_id) × IsIdle j

pub record Shape (max_concurrent capacity : ℕ) (s : InvocationSupervisor) : Type 0 where
  pub limit : s.max_tracked ≡ max_concurrent
  pub channel : s.capacity ≡ capacity
  pub queue_bound : length s.messages + places s.reserved ≤ capacity
  pub placed : s.intake ≡ false → s.reserved ≡ false
  pub permit_bound : s.slots + permits s.jobs ≡ max_concurrent
  pub tracked_bound : length s.jobs + waiting s.pending ≤ max_concurrent
  pub distinct : Distinct ℕ_discrete s.jobs
  pub owned : Each (IsOwned s.next_id) s.jobs
  pub queued : Waits s.messages
  pub pending_waits : WaitsFor s.pending
  pub ends : Left s s.phase

weaken-Each : (n : ℕ) (jobs : List (ℕ × Job)) → Each (IsOwned n) jobs → Each (IsOwned (n + 1)) jobs
weaken-Each n [] e = tt
weaken-Each n ((id, j) ∷ jobs) e = (((omega (arith, e.0.0)), e.0.1), weaken-Each n jobs e.1)

pub absent : (n : ℕ) (jobs : List (ℕ × Job)) → Each (IsOwned n) jobs → get ℕ_discrete n jobs ≡ none
absent n jobs e = elim (Option-cases (get ℕ_discrete n jobs)) [
  | inl h ↦ h
  | inr (j, h) ↦ absurd (omega (arith, (get-Each ℕ_discrete (IsOwned n) n j jobs e h).0))
]

module _ (max_concurrent capacity : ℕ) (s : InvocationSupervisor)
    (v : Shape max_concurrent capacity s) where
  -- A job changes, with the permits.
  pub replace-Shape :
      (id : ℕ) (j j' : Job) (m : Inner) (slots : ℕ)
      → get ℕ_discrete id s.jobs ≡ some j
      → IsIdle j'
      → slots + has_permit j' ≡ s.slots + has_permit j
      → Shape max_concurrent capacity
          (record s { jobs = insert ℕ_discrete id j' s.jobs; metrics = m; slots = slots })
  unfolding insert
  replace-Shape id j j' m slots h idle p =
      let a = remove-Apart id j s.jobs v.distinct h in
      let b = insert-Apart id j' s.jobs in
      record {
        limit = v.limit;
        channel = v.channel;
        queue_bound = v.queue_bound;
        placed = v.placed;
        permit_bound = omega (arith, a.permits, b.permits, p, v.permit_bound);
        tracked_bound = omega (arith, a.length, b.length, v.tracked_bound);
        distinct = insert-Distinct ℕ_discrete id j' s.jobs v.distinct;
        owned = (
          ((get-Each ℕ_discrete (IsOwned s.next_id) id j s.jobs v.owned h).0, idle),
          remove-Each ℕ_discrete (IsOwned s.next_id) id s.jobs v.owned,
        );
        queued = v.queued;
        pending_waits = v.pending_waits;
        ends = ground (arith, v.ends);
      }

  -- A job without a permit goes.
  pub remove-Shape :
      (id : ℕ) (j : Job) (m : Inner)
      → get ℕ_discrete id s.jobs ≡ some j
      → has_permit j ≡ 0
      → Shape max_concurrent capacity (record s { jobs = remove ℕ_discrete id s.jobs; metrics = m })
  remove-Shape id j m h p =
      let a = remove-Apart id j s.jobs v.distinct h in
      record {
        limit = v.limit;
        channel = v.channel;
        queue_bound = v.queue_bound;
        placed = v.placed;
        permit_bound = omega (arith, a.permits, p, v.permit_bound);
        tracked_bound = omega (arith, a.length, v.tracked_bound);
        distinct = remove-Distinct ℕ_discrete id s.jobs v.distinct;
        owned = remove-Each ℕ_discrete (IsOwned s.next_id) id s.jobs v.owned;
        queued = v.queued;
        pending_waits = v.pending_waits;
        ends = ground (arith, v.ends);
      }

  -- A task starts, with a permit or without.
  pub spawn-Shape :
      (j : Job) (m : Inner) (slots : ℕ)
      → IsIdle j
      → slots + has_permit j ≡ s.slots
      → length s.jobs + waiting s.pending + 1 ≤ max_concurrent
      → is_finished s.phase ≡ false
      → Shape max_concurrent capacity (spawn j (record s { metrics = m; slots = slots }))
  unfolding spawn insert
  spawn-Shape j m slots idle p room running =
      let gone = remove_absent ℕ_discrete s.next_id s.jobs (absent s.next_id s.jobs v.owned) in
      let b = insert-Apart s.next_id j s.jobs in
      record {
        limit = v.limit;
        channel = v.channel;
        queue_bound = v.queue_bound;
        placed = v.placed;
        permit_bound = ground (arith, gone, b.permits, p, v.permit_bound);
        tracked_bound = ground (arith, gone, b.length, room);
        distinct = insert-Distinct ℕ_discrete s.next_id j s.jobs v.distinct;
        owned = (
          ((ground arith), idle),
          remove-Each ℕ_discrete (IsOwned (s.next_id + 1)) s.next_id s.jobs
              (weaken-Each s.next_id s.jobs v.owned),
        );
        queued = v.queued;
        pending_waits = v.pending_waits;
        ends = ground (arith, v.ends);
      }

  -- The message that was taken goes.
  pub drop-Shape :
      (m : Inner) → Shape max_concurrent capacity (record s { pending = none; metrics = m })
  drop-Shape m = record {
    limit = v.limit;
    channel = v.channel;
    queue_bound = v.queue_bound;
    placed = v.placed;
    permit_bound = v.permit_bound;
    tracked_bound = omega (arith, v.tracked_bound);
    distinct = v.distinct;
    owned = v.owned;
    queued = v.queued;
    pending_waits = tt;
    ends = ground (arith, v.ends);
  }
