-- ===== src/Host/Supervisor/Steps/Revoking.antt =====
-- The executions of invocation_supervisor.rs whose authority was lost.
use wasm_platform.Base.{
  ℕ, ◌+◌, ◌-◌, ◌≤◌, ◌<◌, ◌≡◌, refl, Bool, true, false, List, ◌∷◌, [], Option, none, some, Result,
  arith, ℕ_discrete, Option-cases, Bool-cases, inl, inr,
}
use wasm_platform.Base.Map.{get, insert, remove, Each, remove-Each, get-Each}
use wasm_platform.Host.Dispatch.Counts.{Inner, Outcome, Reaped}
use wasm_platform.Host.Invocation.{Invocation, JoinError, check}
use wasm_platform.Host.Supervisor.Jobs.{
  Readings, Completion, ReplyTarget, Reply, Job, executing, executed, replying, replied, ReplyEnd,
  published, unwinds, aborts, cancel_job, end_execution, end_reply, collect,
}
use wasm_platform.Host.Supervisor.Loop.{
  InvocationSupervisor, InvocationMessage, is_dispatching, reserve, receive, spawn, cancel_jobs,
  cancel_untrusted_work, give_up, stop, shut_down, authority_changed, take_message, Lookup, found,
  no_route, no_module, lookup_failed, dismiss, accept, expire, dispatch, admit,
}
use wasm_platform.Host.Supervisor.Steps.{
  has_ended, can_end, put, check_execution, finish_execution, finish_reply, join_next, end_intake,
  release, drain, finish_drain, Event, step, reserves, ends_intake, releases, receives, shuts_down,
  changes_authority, takes, admits, ends_execution, ends_reply, checks, joins, drains, finishes,
}
use wasm_platform.Host.Supervisor.Steps.Drained.{run}

-- An execution has lost its authority, and a reply is told to abort.
abbrev pub IsRevoked : Job → Type 0
IsRevoked (executing i revoked target) = revoked ≡ true
IsRevoked (executed i revoked target r) = revoked ≡ true
IsRevoked (replying label outcome told target reply) = told ≡ true
IsRevoked (replied label r) = Unit {0}

-- The jobs of the ids below `n` are revoked, and those that start are above.
abbrev pub Held : ℕ → ℕ → Job → Type 0
Held n id j = id < n → IsRevoked j

pub record Revoked (n : ℕ) (s : InvocationSupervisor) : Type 0 where
  pub held : Each (Held n) s.jobs
  pub later : n ≤ s.next_id

cancel_jobs-Held :
    (n now : ℕ) (jobs : List (ℕ × Job)) (m : Inner) → Each (Held n) (cancel_jobs now jobs m).0
unfolding cancel_jobs cancel_job
cancel_jobs-Held n now [] m = tt
cancel_jobs-Held n now ((id, executing i revoked target) ∷ jobs) m =
    (λ h. refl, cancel_jobs-Held n now jobs _)
cancel_jobs-Held n now ((id, executed i revoked target r) ∷ jobs) m =
    (λ h. refl, cancel_jobs-Held n now jobs _)
cancel_jobs-Held n now ((id, replying label outcome told target reply) ∷ jobs) m =
    (λ h. refl, cancel_jobs-Held n now jobs _)
cancel_jobs-Held n now ((id, replied label r) ∷ jobs) m = (λ h. tt, cancel_jobs-Held n now jobs _)

-- A step that leaves the jobs.
kept :
    (n : ℕ) (s s' : InvocationSupervisor)
    → Revoked n s
    → s'.jobs ≡ s.jobs
    → s'.next_id ≡ s.next_id
    → Revoked n s'
kept n s s' r j k = record { held = ground (arith, j, r.held); later = omega (arith, k, r.later) }

spawned :
    (n : ℕ) (s : InvocationSupervisor) (j : Job) (m : Inner) (slots : ℕ)
    → Revoked n s
    → Revoked n (spawn j (record s { metrics = m; slots = slots }))
unfolding spawn insert
spawned n s j m slots r = record {
  held = (
    λ h. absurd (omega (arith, h, r.later)),
    remove-Each ℕ_discrete (Held n) s.next_id s.jobs r.held,
  );
  later = omega (arith, r.later);
}

replaced :
    (n id slots : ℕ) (s : InvocationSupervisor) (j : Job) (p : Job × Inner)
    → Revoked n s
    → get ℕ_discrete id s.jobs ≡ some j
    → (IsRevoked j → IsRevoked p.0)
    → Revoked n (put id p (record s { slots = slots }))
unfolding insert
replaced n id slots s j p r h k = record {
  held = (
    λ l. k (get-Each ℕ_discrete (Held n) id j s.jobs r.held h l),
    remove-Each ℕ_discrete (Held n) id s.jobs r.held,
  );
  later = r.later;
}

end_reply-IsRevoked :
    (end : ReplyEnd) (label : Reaped) (outcome : Outcome) (target : ReplyTarget) (reply : Reply)
    (m : Inner)
    → IsRevoked (end_reply end label outcome target reply m).0
unfolding end_reply
end_reply-IsRevoked (published answer) label outcome target reply m = tt
end_reply-IsRevoked unwinds label outcome target reply m = tt
end_reply-IsRevoked aborts label outcome target reply m = tt

module _ (n : ℕ) (s : InvocationSupervisor) (r : Revoked n s) where
  give_up-Revoked : (now : ℕ) (label : _) → Revoked n (give_up now label s)
  unfolding give_up
  give_up-Revoked now label = kept n s (give_up now label s) r (ground arith) (ground arith)

  shut_down-Revoked : (now : ℕ) → Revoked n (shut_down now s)
  unfolding shut_down stop give_up
  shut_down-Revoked now = kept n s (shut_down now s) r (ground arith) (ground arith)

  take_message-Revoked : (now : ℕ) (trusted : Bool) → Revoked n (take_message now trusted s)
  unfolding take_message stop
  take_message-Revoked now trusted =
      kept n s (take_message now trusted s) r (ground arith) (ground arith)

  authority_changed-Revoked : (now : ℕ) (alive : Bool) → Revoked n (authority_changed now alive s)
  unfolding authority_changed cancel_untrusted_work stop give_up
  authority_changed-Revoked now alive = record {
    held = ground (arith, r.held, cancel_jobs-Held n now s.jobs s.metrics);
    later = ground (arith, r.later);
  }

  receive-Revoked : (now budget : ℕ) (reply : Bool) → Revoked n (receive now budget reply s)
  unfolding receive
  receive-Revoked now budget reply =
      kept n s (receive now budget reply s) r (ground arith) (ground arith)

  drain-Revoked : (now : ℕ) → Revoked n (drain now s)
  unfolding drain
  drain-Revoked now = kept n s (drain now s) r (ground arith) (ground arith)

  finish_drain-Revoked : (now : ℕ) → Revoked n (finish_drain now s)
  unfolding finish_drain
  finish_drain-Revoked now = kept n s (finish_drain now s) r (ground arith) (ground arith)

  finish_execution-Revoked :
      (id ended : ℕ) (at : Readings) (work : _) (cleanup : _)
      → Revoked n (finish_execution id ended at work cleanup s)
  unfolding finish_execution end_execution
  finish_execution-Revoked id ended at work cleanup =
      elim (Option-cases (get ℕ_discrete id s.jobs)) [
        | inl h ↦ rw (h, finish_execution) r
        | inr (executing i revoked target, h) ↦
            rw (h, finish_execution)
              (replaced n id (s.slots + 1) s (executing i revoked target)
                (end_execution ended at work cleanup i revoked target s.metrics) r h (λ k. k))
        | inr (executed i revoked target x, h) ↦ rw (h, finish_execution) r
        | inr (replying label outcome told target reply, h) ↦ rw (h, finish_execution) r
        | inr (replied label x, h) ↦ rw (h, finish_execution) r
      ]

  check_execution-Revoked : (id now : ℕ) → Revoked n (check_execution id now s)
  unfolding check_execution
  check_execution-Revoked id now = elim (Option-cases (get ℕ_discrete id s.jobs)) [
    | inl h ↦ rw (h, check_execution) r
    | inr (executing i revoked target, h) ↦
        let c = check now i s.metrics in
        rw (h, check_execution)
          (replaced n id s.slots s (executing i revoked target)
            (executing c.0.0 revoked target, c.0.1) r h (λ k. k))
    | inr (executed i revoked target x, h) ↦ rw (h, check_execution) r
    | inr (replying label outcome told target reply, h) ↦ rw (h, check_execution) r
    | inr (replied label x, h) ↦ rw (h, check_execution) r
  ]

  finish_reply-Revoked : (id : ℕ) (end : ReplyEnd) → Revoked n (finish_reply id end s)
  unfolding finish_reply
  finish_reply-Revoked id end = elim (Option-cases (get ℕ_discrete id s.jobs)) [
    | inl h ↦ rw (h, finish_reply) r
    | inr (executing i revoked target, h) ↦ rw (h, finish_reply) r
    | inr (executed i revoked target x, h) ↦ rw (h, finish_reply) r
    | inr (replying label outcome told target reply, h) ↦ elim (Bool-cases (can_end end told)) [
      | inl b ↦
          rw (h, finish_reply, b)
            (replaced n id s.slots s (replying label outcome told target reply)
              (end_reply end label outcome target reply s.metrics) r h
              (λ k. end_reply-IsRevoked end label outcome target reply s.metrics))
      | inr b ↦ rw (h, finish_reply, b) r
    ]
    | inr (replied label x, h) ↦ rw (h, finish_reply) r
  ]

  collected-Revoked :
      (id : ℕ) (j : Job) (o : Option Job) (m : Inner)
      → Revoked n (elim o [
        | none ↦ record s { jobs = remove ℕ_discrete id s.jobs; metrics = m }
        | some k ↦ spawn k (record s { jobs = remove ℕ_discrete id s.jobs; metrics = m })
      ])
  collected-Revoked id j none m = record {
    held = remove-Each ℕ_discrete (Held n) id s.jobs r.held;
    later = r.later;
  }
  collected-Revoked id j (some k) m =
      spawned n (record s { jobs = remove ℕ_discrete id s.jobs; metrics = m }) k m s.slots
        (record { held = remove-Each ℕ_discrete (Held n) id s.jobs r.held; later = r.later })

  join_next-Revoked : (id : ℕ) → Revoked n (join_next id s)
  unfolding join_next
  join_next-Revoked id = elim (Option-cases (get ℕ_discrete id s.jobs)) [
    | inl h ↦ rw (h, join_next) r
    | inr (j, h) ↦ elim (Bool-cases (has_ended j)) [
      | inl b ↦
          rw (h, join_next, b)
            (collected-Revoked id j (collect j s.metrics).0 (collect j s.metrics).1)
      | inr b ↦ rw (h, join_next, b) r
    ]
  ]

  dispatch-Revoked :
      (at : ℕ) (client trusted : Bool) (lookup : Lookup) (x : InvocationMessage) (m : Inner)
      → Revoked n (dispatch at client trusted lookup x (record s { pending = none; metrics = m }))
  unfolding dispatch dismiss accept
  dispatch-Revoked at client true found x m =
      spawned n (record s { pending = none }) _ _ (s.slots - 1)
        (record { held = r.held; later = r.later })
  dispatch-Revoked at client false found x m = record { held = r.held; later = r.later }
  dispatch-Revoked at client trusted no_route x m = record { held = r.held; later = r.later }
  dispatch-Revoked at client trusted no_module x m = record { held = r.held; later = r.later }
  dispatch-Revoked at client trusted lookup_failed x m = record { held = r.held; later = r.later }

  admitted-Revoked :
      (at : ℕ) (client trusted : Bool) (lookup : Lookup) (x : InvocationMessage) (m : Inner)
      (permit : Option (Unit {0}))
      → Revoked n (elim permit [
        | none ↦ expire at client x (record s { pending = none; metrics = m })
        | some _ ↦ dispatch at client trusted lookup x (record s { pending = none; metrics = m })
      ])
  unfolding expire dismiss
  admitted-Revoked at client trusted lookup x m none =
      spawned n (record s { pending = none }) _ _ s.slots
        (record { held = r.held; later = r.later })
  admitted-Revoked at client trusted lookup x m (some u) =
      dispatch-Revoked at client trusted lookup x m

  admit-Revoked :
      (now at : ℕ) (client trusted : Bool) (lookup : Lookup)
      → Revoked n (admit now at client trusted lookup s)
  unfolding admit
  admit-Revoked now at client trusted lookup = elim (Option-cases s.pending) [
    | inl h ↦ rw (h, admit) r
    | inr (x, h) ↦ rw (h, admit) (admitted-Revoked at client trusted lookup _ _ _)
  ]

  step-Revoked : (e : Event) → Revoked n (step e s)
  unfolding step reserve end_intake release
  step-Revoked reserves = record { held = ground (arith, r.held); later = ground (arith, r.later) }
  step-Revoked releases = record { held = r.held; later = r.later }
  step-Revoked ends_intake = record { held = r.held; later = r.later }
  step-Revoked (receives now budget reply) = receive-Revoked now budget reply
  step-Revoked (shuts_down now) = shut_down-Revoked now
  step-Revoked (changes_authority now alive) = authority_changed-Revoked now alive
  step-Revoked (takes now trusted) = take_message-Revoked now trusted
  step-Revoked (admits now at client trusted lookup) = admit-Revoked now at client trusted lookup
  step-Revoked (ends_execution id ended at work cleanup) =
      finish_execution-Revoked id ended at work cleanup
  step-Revoked (ends_reply id end) = finish_reply-Revoked id end
  step-Revoked (checks id now) = check_execution-Revoked id now
  step-Revoked (joins id) = join_next-Revoked id
  step-Revoked (drains now) = drain-Revoked now
  step-Revoked (finishes now) = finish_drain-Revoked now

run-Revoked :
    (n : ℕ) (events : List Event) (s : InvocationSupervisor)
    → Revoked n s
    → Revoked n (run events s)
run-Revoked n [] s r = r
run-Revoked n (e ∷ events) s r = run-Revoked n events (step e s) (step-Revoked n s r e)

run-authority_changed-Revoked :
    (s : InvocationSupervisor) (now : ℕ) (alive : Bool) (events : List Event)
    → is_dispatching s.phase ≡ true
    → Revoked s.next_id (run events (authority_changed now alive s))
unfolding authority_changed cancel_untrusted_work stop give_up
run-authority_changed-Revoked s now alive events d =
    run-Revoked s.next_id events (authority_changed now alive s) (record {
      held = ground (arith, d, cancel_jobs-Held s.next_id now s.jobs s.metrics);
      later = ground (arith, d);
    })

revoked-silent :
    (id : ℕ) (s : InvocationSupervisor) (i : Invocation) (revoked : Bool) (target : ReplyTarget)
    (x : Result JoinError Completion)
    → get ℕ_discrete id s.jobs ≡ some (executed i revoked target x)
    → revoked ≡ true
    → ((join_next id s).jobs ≡ remove ℕ_discrete id s.jobs) × ((join_next id s).next_id ≡ s.next_id)
unfolding join_next collect
revoked-silent id s i revoked target x h k = (rw (h, k, join_next) refl, rw (h, k, join_next) refl)

-- When the authority changes while a supervisor dispatches, no execution that it has then is ever
-- replied to: whatever happens after, when its task has its result and is collected, the job goes and no
-- task starts.
pub authority_changed-join_next :
    (s : InvocationSupervisor) (now : ℕ) (alive : Bool) (events : List Event)
    → (id : ℕ) (i : Invocation) (revoked : Bool) (target : ReplyTarget)
      (x : Result JoinError Completion)
    → is_dispatching s.phase ≡ true
    → id < s.next_id
    → get ℕ_discrete id (run events (authority_changed now alive s)).jobs
      ≡ some (executed i revoked target x)
    → ((join_next id (run events (authority_changed now alive s))).jobs
        ≡ remove ℕ_discrete id (run events (authority_changed now alive s)).jobs)
      × ((join_next id (run events (authority_changed now alive s))).next_id
          ≡ (run events (authority_changed now alive s)).next_id)
authority_changed-join_next s now alive events id i revoked target x d l h =
    let s' = run events (authority_changed now alive s) in
    revoked-silent id s' i revoked target x h (
      get-Each ℕ_discrete (Held s.next_id) id (executed i revoked target x) s'.jobs
        (run-authority_changed-Revoked s now alive events d).held h l)
