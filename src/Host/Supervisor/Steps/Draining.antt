-- ===== src/Host/Supervisor/Steps/Draining.antt =====
-- How many steps the jobs of invocation_supervisor.rs take until none is left.
use wasm_platform.Base.{
  ℕ, ◌+◌, ◌≤◌, ◌≡◌, refl, Bool, true, false, Option, none, some, ok, err, arith, ℕ_discrete,
  Option-cases, inl, inr,
}
use wasm_platform.Base.Map.{get, insert, remove, total, total-remove, remove_absent, remove-Each}
use wasm_platform.Host.Dispatch.Counts.{Inner, Outcome, Reaped}
use wasm_platform.Host.Supervisor.Jobs.{
  Readings, ReplyTarget, Reply, Job, executing, executed, replying, replied, ReplyEnd, published,
  unwinds, aborts, end_execution, end_reply, collect,
}
use wasm_platform.Host.Supervisor.Loop.{InvocationSupervisor, spawn}
use wasm_platform.Host.Supervisor.Steps.{
  has_ended, can_end, put, finish_execution, finish_reply, join_next, Event, step, ends_execution,
  ends_reply, joins,
}
use wasm_platform.Host.Supervisor.Steps.Shape.{absent, IsOwned}
use wasm_platform.Host.Supervisor.Steps.Invariant.{IsValid}

-- The steps that a job has before it.
abbrev pub left_of : Job → ℕ
left_of (executing i revoked target) = 4
left_of (executed i revoked target r) = 3
left_of (replying label outcome told target reply) = 2
left_of (replied label r) = 1

abbrev pub left : InvocationSupervisor → ℕ
left s = total left_of s.jobs

abbrev pub is_executing : Job → Bool
is_executing (executing i revoked target) = true
is_executing (executed i revoked target r) = false
is_executing (replying label outcome told target reply) = false
is_executing (replied label r) = false

abbrev pub can_reply_end : ReplyEnd → Job → Bool
can_reply_end end (executing i revoked target) = false
can_reply_end end (executed i revoked target r) = false
can_reply_end end (replying label outcome told target reply) = can_end end told
can_reply_end end (replied label r) = false

-- Whether an event is one of a job that the supervisor has, at the place where it is.
abbrev pub holds : (Job → Bool) → Option Job → Bool
holds p none = false
holds p (some j) = p j

unfoldable pub advances : Event → InvocationSupervisor → Bool
advances (ends_execution id ended at work cleanup) s = holds is_executing (get ℕ_discrete id s.jobs)
advances (ends_reply id end) s = holds (can_reply_end end) (get ℕ_discrete id s.jobs)
advances (joins id) s = holds has_ended (get ℕ_discrete id s.jobs)
advances _ s = false

-- Only a job that replies follows another.
collect-left :
    (j k : Job) (m : Inner)
    → has_ended j ≡ true
    → (collect j m).0 ≡ some k
    → left_of k + 1 ≤ left_of j
unfolding collect
collect-left (executing i revoked target) k m h e = absurd (ground arith)
collect-left (executed i revoked target r) k m h e = ground arith
collect-left (replying label outcome told target reply) k m h e = absurd (ground arith)
collect-left (replied label (ok u)) k m h e = absurd (ground arith)
collect-left (replied label (err x)) k m h e = absurd (ground arith)

end_reply-left :
    (end : ReplyEnd) (label : Reaped) (outcome : Outcome) (target : ReplyTarget) (reply : Reply)
    (m : Inner)
    → left_of (end_reply end label outcome target reply m).0 + 1 ≤ 2
unfolding end_reply
end_reply-left (published answer) label outcome target reply m = omega arith
end_reply-left unwinds label outcome target reply m = omega arith
end_reply-left aborts label outcome target reply m = omega arith

pub left_of-positive : (j : Job) → 1 ≤ left_of j
left_of-positive (executing i revoked target) = omega arith
left_of-positive (executed i revoked target r) = omega arith
left_of-positive (replying label outcome told target reply) = omega arith
left_of-positive (replied label r) = omega arith

module _ (max_concurrent capacity : ℕ) (s : InvocationSupervisor)
    (v : IsValid max_concurrent capacity s) where
  apart :
      (id : ℕ) (j : Job)
      → get ℕ_discrete id s.jobs ≡ some j
      → total left_of (remove ℕ_discrete id s.jobs) + left_of j ≡ left s
  apart id j h = total-remove ℕ_discrete left_of id j s.jobs v.shape.distinct h

  -- A job's step.
  abbrev pub Advanced : InvocationSupervisor → Type 0
  Advanced s' = (left s' + 1 ≤ left s) × (s'.phase ≡ s.phase)

  put-left :
      (id slots : ℕ) (j : Job) (r : Job × Inner)
      → get ℕ_discrete id s.jobs ≡ some j
      → left_of r.0 + 1 ≤ left_of j
      → Advanced (put id r (record s { slots = slots }))
  unfolding insert total
  put-left id slots j r h l = (omega (arith, apart id j h, l), refl)

  finish_execution-left :
      (id ended : ℕ) (at : Readings) (work : _) (cleanup : _)
      → holds is_executing (get ℕ_discrete id s.jobs) ≡ true
      → Advanced (finish_execution id ended at work cleanup s)
  unfolding finish_execution end_execution
  finish_execution-left id ended at work cleanup b =
      elim (Option-cases (get ℕ_discrete id s.jobs)) [
        | inl h ↦ absurd (ground (arith, h, b))
        | inr (executing i revoked target, h) ↦
            rw (h, finish_execution)
              (put-left id (s.slots + 1) (executing i revoked target)
                (end_execution ended at work cleanup i revoked target s.metrics) h (omega arith))
        | inr (executed i revoked target r, h) ↦ absurd (ground (arith, h, b))
        | inr (replying label outcome told target reply, h) ↦ absurd (ground (arith, h, b))
        | inr (replied label r, h) ↦ absurd (ground (arith, h, b))
      ]

  finish_reply-left :
      (id : ℕ) (end : ReplyEnd)
      → holds (can_reply_end end) (get ℕ_discrete id s.jobs) ≡ true
      → Advanced (finish_reply id end s)
  unfolding finish_reply
  finish_reply-left id end b = elim (Option-cases (get ℕ_discrete id s.jobs)) [
    | inl h ↦ absurd (ground (arith, h, b))
    | inr (executing i revoked target, h) ↦ absurd (ground (arith, h, b))
    | inr (executed i revoked target r, h) ↦ absurd (ground (arith, h, b))
    | inr (replying label outcome told target reply, h) ↦
        let c : can_end end told ≡ true = ground (arith, h, b) in
        rw (h, finish_reply, c)
          (put-left id s.slots (replying label outcome told target reply)
            (end_reply end label outcome target reply s.metrics) h
            (end_reply-left end label outcome target reply s.metrics))
    | inr (replied label r, h) ↦ absurd (ground (arith, h, b))
  ]

  collected-left :
      (id : ℕ) (j : Job) (o : Option Job) (m : Inner)
      → get ℕ_discrete id s.jobs ≡ some j
      → ((k : Job) → o ≡ some k → left_of k + 1 ≤ left_of j)
      → Advanced (elim o [
        | none ↦ record s { jobs = remove ℕ_discrete id s.jobs; metrics = m }
        | some k ↦ spawn k (record s { jobs = remove ℕ_discrete id s.jobs; metrics = m })
      ])
  unfolding spawn insert total
  collected-left id j none m h l = (omega (arith, apart id j h, left_of-positive j), refl)
  collected-left id j (some k) m h l =
      let fresh = remove_absent ℕ_discrete s.next_id (remove ℕ_discrete id s.jobs) (
        absent s.next_id (remove ℕ_discrete id s.jobs)
          (remove-Each ℕ_discrete (IsOwned s.next_id) id s.jobs v.shape.owned)) in
      (ground (arith, fresh, apart id j h, l k refl), refl)

  join_next-left :
      (id : ℕ) → holds has_ended (get ℕ_discrete id s.jobs) ≡ true → Advanced (join_next id s)
  unfolding join_next
  join_next-left id b = elim (Option-cases (get ℕ_discrete id s.jobs)) [
    | inl h ↦ absurd (ground (arith, h, b))
    | inr (j, h) ↦
        let e : has_ended j ≡ true = ground (arith, h, b) in
        rw (h, join_next, e)
          (collected-left id j (collect j s.metrics).0 (collect j s.metrics).1 h
            (λ k q. collect-left j k s.metrics e q))
  ]

  pub step-left : (e : Event) → advances e s ≡ true → Advanced (step e s)
  unfolding advances step
  step-left (ends_execution id ended at work cleanup) b =
      finish_execution-left id ended at work cleanup b
  step-left (ends_reply id end) b = finish_reply-left id end b
  step-left (joins id) b = join_next-left id b
  step-left e b = absurd (ground arith)
