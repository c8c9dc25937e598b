-- ===== src/Host/Supervisor/Steps/Drained.antt =====
-- That the jobs of invocation_supervisor.rs end, and the drain with them.
use wasm_platform.Base.{
  ℕ, zero, suc, ◌+◌, ◌*◌, ◌≤◌, ◌≡◌, refl, ◌∙◌, true, List, ◌∷◌, [], none, arith, length,
}
use wasm_platform.Base.Map.{get, total}
use wasm_platform.Host.Supervisor.Jobs.{
  Job, executing, executed, replying, replied, published, accepted,
}
use wasm_platform.Host.Invocation.{returned}
use wasm_platform.Host.Supervisor.Loop.{InvocationSupervisor, draining, finished}
use wasm_platform.Host.Supervisor.Steps.{
  finish_drain, Event, step, Reaches, ends_execution, ends_reply, joins, finishes,
}
use wasm_platform.Host.Supervisor.Steps.Invariant.{IsValid}
use wasm_platform.Host.Supervisor.Steps.Reached.{step-IsValid, Reaches-IsValid}
use wasm_platform.Host.Supervisor.Steps.Draining.{
  left_of, left, advances, left_of-positive, step-left,
}

abbrev pub run : List Event → InvocationSupervisor → InvocationSupervisor
run [] s = s
run (e ∷ events) s = run events (step e s)

abbrev pub EachAdvances : List Event → InvocationSupervisor → Type 0
EachAdvances [] s = Unit {0}
EachAdvances (e ∷ events) s = (advances e s ≡ true) × EachAdvances events (step e s)

left-length : (jobs : List (ℕ × Job)) → total left_of jobs ≤ 4 * length jobs
unfolding total
left-length [] = omega arith
left-length ((id, executing i revoked target) ∷ jobs) = omega (arith, left-length jobs)
left-length ((id, executed i revoked target r) ∷ jobs) = omega (arith, left-length jobs)
left-length ((id, replying label outcome told target reply) ∷ jobs) =
    omega (arith, left-length jobs)
left-length ((id, replied label r) ∷ jobs) = omega (arith, left-length jobs)

module _ (max_concurrent capacity : ℕ) where
  advances-bounded :
      (events : List Event) (s : InvocationSupervisor)
      → IsValid max_concurrent capacity s
      → EachAdvances events s
      → length events ≤ left s
  advances-bounded [] s v a = omega arith
  advances-bounded (e ∷ events) s v a = omega (
    arith,
    (step-left max_concurrent capacity s v e a.0).0,
    advances-bounded events (step e s) (step-IsValid max_concurrent capacity s v e) a.1,
  )

  -- The next step of the first job, or the end.
  abbrev advance : List (ℕ × Job) → Event
  advance [] = finishes 0
  advance ((id, executing i revoked target) ∷ jobs) =
      ends_execution id 0 (record { in_run = 0; checked = 0; read = 0 }) (returned none) []
  advance ((id, executed i revoked target r) ∷ jobs) = joins id
  advance ((id, replying label outcome told target reply) ∷ jobs) =
      ends_reply id (published accepted)
  advance ((id, replied label r) ∷ jobs) = joins id

  advance-advances :
      (id : ℕ) (j : Job) (jobs : List (ℕ × Job)) (s : InvocationSupervisor)
      → s.jobs ≡ (id, j) ∷ jobs
      → advances (advance ((id, j) ∷ jobs)) s ≡ true
  unfolding advances get
  advance-advances id (executing i revoked target) jobs s h = ground (arith, h)
  advance-advances id (executed i revoked target r) jobs s h = ground (arith, h)
  advance-advances id (replying label outcome told target reply) jobs s h = ground (arith, h)
  advance-advances id (replied label r) jobs s h = ground (arith, h)

  -- The steps that end a drain.
  pub record Completes (s : InvocationSupervisor) (n : ℕ) : Type 0 where
    pub events : List Event
    pub bound : length events ≤ n + 1
    pub ends : (run events s).phase ≡ finished

  finish-ends :
      (s : InvocationSupervisor)
      → s.jobs ≡ []
      → s.phase ≡ draining
      → (step (finishes 0) s).phase ≡ finished
  unfolding step finish_drain
  finish-ends s h d = ground (arith, h, d)

  completes :
      (n : ℕ) (s : InvocationSupervisor) (jobs : List (ℕ × Job))
      → s.jobs ≡ jobs
      → IsValid max_concurrent capacity s
      → s.phase ≡ draining
      → left s ≤ n
      → Completes s n
  unfolding total
  completes n s [] h v d l = record {
    events = finishes 0 ∷ [];
    bound = omega arith;
    ends = finish-ends s h d;
  }
  completes zero s ((id, j) ∷ jobs) h v d l = absurd (ground (arith, h, l, left_of-positive j))
  completes (suc n) s ((id, j) ∷ jobs) h v d l =
      let e = advance ((id, j) ∷ jobs) in
      let a = step-left max_concurrent capacity s v e (advance-advances id j jobs s h) in
      let c =
        completes n (step e s) (step e s).jobs refl (step-IsValid max_concurrent capacity s v e)
          (a.1 ∙ d) (omega (arith, a.0, l)) in
      record { events = e ∷ c.events; bound = omega (arith, c.bound); ends = c.ends }

-- However the tasks end, the jobs of a supervisor take at most four steps each, one to collect and one to
-- end for an execution and as many for its reply, so no run of such steps is longer than four times
-- the tasks that it may track.
pub advances-terminate :
    {max_concurrent capacity : ℕ} {s : InvocationSupervisor} (events : List Event)
    → Reaches max_concurrent capacity s
    → EachAdvances events s
    → length events ≤ 4 * max_concurrent
advances-terminate {max_concurrent} {capacity} {s} events r a =
    let v = Reaches-IsValid r in
    omega (
      arith,
      advances-bounded max_concurrent capacity events s v a,
      left-length s.jobs,
      v.shape.tracked_bound,
    )

-- From every state of a drain, at most four steps for each task and one more end it.
pub drain-Completes :
    {max_concurrent capacity : ℕ} {s : InvocationSupervisor}
    → Reaches max_concurrent capacity s
    → s.phase ≡ draining
    → Completes max_concurrent capacity s (4 * max_concurrent)
drain-Completes {max_concurrent} {capacity} {s} r d =
    let v = Reaches-IsValid r in
    completes max_concurrent capacity (4 * max_concurrent) s s.jobs refl v d
      (omega (arith, left-length s.jobs, v.shape.tracked_bound))
