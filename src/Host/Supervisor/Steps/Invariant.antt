-- ===== src/Host/Supervisor/Steps/Invariant.antt =====
-- The invariant of the supervisor of invocation_supervisor.rs, over its steps.
use wasm_platform.Base.{
  ℕ, ◌+◌, ◌≤◌, ◌≡◌, refl, false, List, Option, none, some, Result, Bytes, arith, length, ℕ_discrete,
  Option-cases, Bool-cases, inl, inr,
}
use wasm_platform.Base.Map.{get, remove, total, get-Each, remove_absent}
use wasm_platform.Host.Dispatch.Counts.{Inner, Limits, configure, new as new_metrics}
use wasm_platform.Host.Dispatch.Balance.{Live}
use wasm_platform.Host.Invocation.{Work, JoinError, check}
use wasm_platform.Host.Supervisor.Jobs.{
  Readings, Job, executing, executed, replying, replied, ReplyEnd, end_execution, end_reply,
  collect,
}
use wasm_platform.Host.Supervisor.Loop.{InvocationSupervisor, new, reserve, spawn}
use wasm_platform.Host.Supervisor.Steps.{
  has_ended, can_end, put, check_execution, finish_execution, finish_reply, join_next, end_intake,
  release,
}
use wasm_platform.Host.Supervisor.Steps.Totals.{
  share, shares, add, has_permit, waiting, live, share-messages, remove-Apart, insert-Apart,
}
use wasm_platform.Host.Supervisor.Steps.Steady.{Steady, recount}
use wasm_platform.Host.Supervisor.Steps.Shape.{
  is_finished, absent, IsOwned, Shape, replace-Shape, remove-Shape, spawn-Shape,
}
use wasm_platform.Host.Supervisor.Steps.Moves.{
  Moved, check-Moved, end_execution-Moved, end_reply-Moved, Followed, collect-Followed,
}

-- One message is beyond the channel's: the one that waits for a permit.
abbrev pub limits_of : ℕ → ℕ → Limits
limits_of max_concurrent capacity = record {
  queue = capacity + 1;
  execution = max_concurrent;
  tasks = max_concurrent;
}

-- The supervisor's bounds hold, and its accounting is what it owns, with no capacity ever exceeded.
pub record IsValid (max_concurrent capacity : ℕ) (s : InvocationSupervisor) : Type 0 where
  pub shape : Shape max_concurrent capacity s
  pub steady : Steady (limits_of max_concurrent capacity) s.metrics (live s)

-- What is alive but one job.
abbrev others : ℕ → InvocationSupervisor → Live
others id s = record (shares (remove ℕ_discrete id s.jobs)) {
  messages = length s.messages + waiting s.pending;
}

module _ (max_concurrent capacity : ℕ) where
  abbrev L : Limits
  L = limits_of max_concurrent capacity

  pub new-IsValid : IsValid max_concurrent capacity (new max_concurrent capacity new_metrics)
  unfolding new configure total
  new-IsValid = record {
    shape = record {
      limit = refl;
      channel = refl;
      queue_bound = omega arith;
      placed = λ h. refl;
      permit_bound = omega arith;
      tracked_bound = omega arith;
      distinct = tt;
      owned = tt;
      queued = tt;
      pending_waits = tt;
      ends = tt;
    };
    steady = record {
      counts = record {
        queue = refl;
        tracking = refl;
        uncollected = refl;
        execution = refl;
        termination = refl;
        shown = refl;
        no_error = refl;
      };
      configured = refl;
      no_breach = ground arith;
    };
  }

  -- A task starts with what is accounted for it.
  pub spawn-IsValid :
      (s : InvocationSupervisor) (j : Job) (m : Inner) (slots : ℕ)
      → Shape max_concurrent capacity s
      → Moved L (live s) (j, m)
      → slots + has_permit j ≡ s.slots
      → length s.jobs + waiting s.pending + 1 ≤ max_concurrent
      → is_finished s.phase ≡ false
      → IsValid max_concurrent capacity (spawn j (record s { metrics = m; slots = slots }))
  unfolding spawn
  spawn-IsValid s j m slots v e p room running =
      let b = insert-Apart s.next_id j s.jobs in
      let gone = remove_absent ℕ_discrete s.next_id s.jobs (absent s.next_id s.jobs v.owned) in
      record {
        shape = spawn-Shape max_concurrent capacity s v j m slots e.idle p room running;
        steady =
            recount L m (add (live s) (share j)) (live (spawn j s)) e.counts
              (omega (arith, share-messages j)) (ground (arith, b.tasks, gone))
              (ground (arith, b.ended, gone)) (ground (arith, b.executing, gone))
              (ground (arith, b.stopping, gone));
      }

  module _ (s : InvocationSupervisor) (v : IsValid max_concurrent capacity s) where
    pub reserve-IsValid : IsValid max_concurrent capacity (reserve s)
    unfolding reserve
    reserve-IsValid = record { shape = ground (arith, v.shape); steady = ground (arith, v.steady) }

    pub end_intake-IsValid : IsValid max_concurrent capacity (end_intake s)
    unfolding end_intake
    end_intake-IsValid = record {
      shape = record {
        limit = v.shape.limit;
        channel = v.shape.channel;
        queue_bound = omega (arith, v.shape.queue_bound);
        placed = λ h. refl;
        permit_bound = v.shape.permit_bound;
        tracked_bound = v.shape.tracked_bound;
        distinct = v.shape.distinct;
        owned = v.shape.owned;
        queued = v.shape.queued;
        pending_waits = v.shape.pending_waits;
        ends = ground (arith, v.shape.ends);
      };
      steady = v.steady;
    }

    pub release-IsValid : IsValid max_concurrent capacity (release s)
    unfolding release
    release-IsValid = record {
      shape = record {
        limit = v.shape.limit;
        channel = v.shape.channel;
        queue_bound = omega (arith, v.shape.queue_bound);
        placed = λ h. refl;
        permit_bound = v.shape.permit_bound;
        tracked_bound = v.shape.tracked_bound;
        distinct = v.shape.distinct;
        owned = v.shape.owned;
        queued = v.shape.queued;
        pending_waits = v.shape.pending_waits;
        ends = ground (arith, v.shape.ends);
      };
      steady = v.steady;
    }

    -- The accounting apart from a job, and with the job that takes its place.
    apart :
        (id : ℕ) (j : Job)
        → get ℕ_discrete id s.jobs ≡ some j
        → Steady L s.metrics (add (others id s) (share j))
    apart id j h =
        let a = remove-Apart id j s.jobs v.shape.distinct h in
        recount L s.metrics (live s) (add (others id s) (share j)) v.steady
          (omega (arith, share-messages j)) (omega (arith, a.tasks)) (omega (arith, a.ended))
          (omega (arith, a.executing)) (omega (arith, a.stopping))

    put-IsValid :
        (id slots : ℕ) (j : Job) (r : Job × Inner)
        → get ℕ_discrete id s.jobs ≡ some j
        → Moved L (others id s) r
        → slots + has_permit r.0 ≡ s.slots + has_permit j
        → IsValid max_concurrent capacity (put id r (record s { slots = slots }))
    put-IsValid id slots j r h e p =
        let b = insert-Apart id r.0 s.jobs in
        record {
          shape = replace-Shape max_concurrent capacity s v.shape id j r.0 r.1 slots h e.idle p;
          steady =
              recount L r.1 (add (others id s) (share r.0)) (live (put id r s)) e.counts
                (omega (arith, share-messages r.0)) (omega (arith, b.tasks))
                (omega (arith, b.ended)) (omega (arith, b.executing)) (omega (arith, b.stopping));
        }

    pub finish_execution-IsValid :
        (id ended : ℕ) (at : Readings) (work : Work (Option Bytes))
        (cleanup : List (Result JoinError (Unit {0})))
        → IsValid max_concurrent capacity (finish_execution id ended at work cleanup s)
    unfolding finish_execution
    finish_execution-IsValid id ended at work cleanup =
        elim (Option-cases (get ℕ_discrete id s.jobs)) [
          | inl h ↦ rw (h, finish_execution) v
          | inr (executing i revoked target, h) ↦
              let e =
                end_execution-Moved L (others id s) ended at work cleanup i revoked target s.metrics
                  (apart id _ h) in
              rw (h, finish_execution)
                (put-IsValid id (s.slots + 1) (executing i revoked target)
                  (end_execution ended at work cleanup i revoked target s.metrics) h e.0
                  (omega (arith, e.1)))
          | inr (executed i revoked target r, h) ↦ rw (h, finish_execution) v
          | inr (replying label outcome told target reply, h) ↦ rw (h, finish_execution) v
          | inr (replied label r, h) ↦ rw (h, finish_execution) v
        ]

    pub check_execution-IsValid :
        (id now : ℕ) → IsValid max_concurrent capacity (check_execution id now s)
    unfolding check_execution
    check_execution-IsValid id now = elim (Option-cases (get ℕ_discrete id s.jobs)) [
      | inl h ↦ rw (h, check_execution) v
      | inr (executing i revoked target, h) ↦
          let e = check-Moved L (others id s) now i revoked target s.metrics (apart id _ h) in
          let c = check now i s.metrics in
          rw (h, check_execution)
            (put-IsValid id s.slots (executing i revoked target)
              (executing c.0.0 revoked target, c.0.1) h e refl)
      | inr (executed i revoked target r, h) ↦ rw (h, check_execution) v
      | inr (replying label outcome told target reply, h) ↦ rw (h, check_execution) v
      | inr (replied label r, h) ↦ rw (h, check_execution) v
    ]

    pub finish_reply-IsValid :
        (id : ℕ) (end : ReplyEnd) → IsValid max_concurrent capacity (finish_reply id end s)
    unfolding finish_reply
    finish_reply-IsValid id end = elim (Option-cases (get ℕ_discrete id s.jobs)) [
      | inl h ↦ rw (h, finish_reply) v
      | inr (executing i revoked target, h) ↦ rw (h, finish_reply) v
      | inr (executed i revoked target r, h) ↦ rw (h, finish_reply) v
      | inr (replying label outcome told target reply, h) ↦
          let e =
            end_reply-Moved L (others id s) end label outcome target reply s.metrics
              (apart id _ h) in
          let put =
            put-IsValid id s.slots (replying label outcome told target reply)
              (end_reply end label outcome target reply s.metrics) h e.0 (omega (arith, e.1)) in
          elim (Bool-cases (can_end end told)) [
            | inl b ↦ rw (h, finish_reply, b) put
            | inr b ↦ rw (h, finish_reply, b) v
          ]
      | inr (replied label r, h) ↦ rw (h, finish_reply) v
    ]

    running : (id : ℕ) (j : Job) → get ℕ_discrete id s.jobs ≡ some j → is_finished s.phase ≡ false
    unfolding get
    running id j h = ground (arith, v.shape.ends)

    collected :
        (id : ℕ) (j : Job) (o : Option Job) (m : Inner)
        → get ℕ_discrete id s.jobs ≡ some j
        → has_permit j ≡ 0
        → Followed L (others id s) o m
        → IsValid max_concurrent capacity (elim o [
          | none ↦ record s { jobs = remove ℕ_discrete id s.jobs; metrics = m }
          | some k ↦ spawn k (record s { jobs = remove ℕ_discrete id s.jobs; metrics = m })
        ])
    collected id j none m h p f = record {
      shape = remove-Shape max_concurrent capacity s v.shape id j m h p;
      steady =
          recount L m (others id s) (live (record s { jobs = remove ℕ_discrete id s.jobs })) f
            (omega arith) refl refl refl refl;
    }
    collected id j (some k) m h p f =
        let s' = record s { jobs = remove ℕ_discrete id s.jobs; metrics = m } in
        let a = remove-Apart id j s.jobs v.shape.distinct h in
        spawn-IsValid s' k m s.slots (remove-Shape max_concurrent capacity s v.shape id j m h p)
          (record {
            counts =
                recount L m (add (others id s) (share k)) (add (live s') (share k)) f.0.counts
                  (omega arith) refl refl refl refl;
            idle = f.0.idle;
          })
          (omega (arith, f.1)) (omega (arith, a.length, v.shape.tracked_bound)) (running id j h)

    pub join_next-IsValid : (id : ℕ) → IsValid max_concurrent capacity (join_next id s)
    unfolding join_next
    join_next-IsValid id = elim (Option-cases (get ℕ_discrete id s.jobs)) [
      | inl h ↦ rw (h, join_next) v
      | inr (j, h) ↦ elim (Bool-cases (has_ended j)) [
        | inl b ↦
            let idle = (get-Each ℕ_discrete (IsOwned s.next_id) id j s.jobs v.shape.owned h).1 in
            let f = collect-Followed L (others id s) j s.metrics (apart id j h) idle b in
            rw (h, join_next, b)
              (collected id j (collect j s.metrics).0 (collect j s.metrics).1 h f.0 f.1)
        | inr b ↦ rw (h, join_next, b) v
      ]
    ]
