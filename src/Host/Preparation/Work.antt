-- ===== src/Host/Preparation/Work.antt =====
-- The methods and drops of submissions and preparations in preparation_metrics.rs, with their shared
-- `PreparationState`.
use wasm_platform.Base.{
  ℕ, ◌+◌, ◌-◌, Bool, true, false, List, ◌∷◌, Option, none, some, if◌then◌else◌, ◌==◌,
}
use wasm_platform.Host.Preparation.Counts.{
  Inner, PreparationOutcome, SubmissionOutcome, WorkState, accounting_error, admitted, cancelled,
  compilers, compiling, decrement, increment, panic, preparing, publish_counts, queue, queued,
  record_capacity, terminating, tracked, transition,
}

-- `submission`; a `Submission` is the instant that it started at.
unfoldable pub submission : Inner → Inner
submission m =
    publish_counts
      (record m { work = record m.work { admission_wait = m.work.admission_wait + 1 } })

-- `Submission::complete`.
unfoldable pub complete : ℕ → ℕ → SubmissionOutcome → Inner → Inner
complete now started_at outcome m =
    let m' =
      (if m.work.admission_wait == 0
        then accounting_error m
        else record m { work = record m.work { admission_wait = m.work.admission_wait - 1 } }) in
    record m' {
      admission_wait = (now - started_at) ∷ m.admission_wait;
      submissions = outcome ∷ m.submissions;
    }

-- The state of one admitted preparation; `stage` is `none` once it is dropped.
pub record PreparationState : Type 0 where
  pub stage : Option WorkState
  pub queued_at : ℕ
  pub compilation_started_at : Option ℕ
  pub terminating_at : Option ℕ
  pub cancellation : Option PreparationOutcome
  pub outcome : PreparationOutcome

-- `Submission::admitted`.
unfoldable pub admit : ℕ → ℕ → Inner → Inner × PreparationState
admit now started_at m =
    let m' = publish_counts (increment queued (complete now started_at admitted m)) in
    (
      record_capacity tracked (record_capacity queue m'),
      record {
        stage = some queued;
        queued_at = now;
        compilation_started_at = none;
        terminating_at = none;
        cancellation = none;
        outcome = cancelled;
      },
    )

-- The drop of a submission that was not admitted: by its timeout, a closed queue, or its caller.
unfoldable pub drop_submission : ℕ → ℕ → SubmissionOutcome → Inner → Inner
drop_submission now started_at outcome m = publish_counts (complete now started_at outcome m)

abbrev pub or_outcome : Option PreparationOutcome → PreparationOutcome → PreparationOutcome
or_outcome none o = o
or_outcome (some c) o = c

-- The first cancellation of a live preparation counts; a stage that does work becomes `Terminating`.
unfoldable pub terminate_stage :
    WorkState → PreparationOutcome → ℕ → Inner → PreparationState → Inner × PreparationState
terminate_stage queued outcome at m s = (m, record s { cancellation = some outcome })
terminate_stage terminating outcome at m s = (m, record s { cancellation = some outcome })
terminate_stage stage outcome at m s = (
  transition stage terminating m,
  record s { cancellation = some outcome; terminating_at = some at; stage = some terminating },
)

unfoldable pub terminate :
    PreparationOutcome → ℕ → Inner → PreparationState → Inner × PreparationState
terminate outcome at m s = elim s.stage [
  | none ↦ (m, s)
  | some stage ↦ elim s.cancellation [
    | some _ ↦ (m, s)
    | none ↦ terminate_stage stage outcome at m s
  ]
]

abbrev pub observe_overrun : ℕ → Option ℕ → List ℕ → List ℕ
observe_overrun now none h = h
observe_overrun now (some at) h = (now - at) ∷ h

-- `PreparationControl::compilation_finished`.
unfoldable pub finish_compilation :
    ℕ → PreparationOutcome → Inner → PreparationState → Inner × PreparationState
finish_compilation now outcome m s = elim s.compilation_started_at [
  | none ↦ (accounting_error m, s)
  | some started_at ↦
      let m' = record m {
        compilation_duration = (now - started_at) ∷ m.compilation_duration;
        compilation_finished = or_outcome s.cancellation outcome ∷ m.compilation_finished;
        compilation_overrun = observe_overrun now s.terminating_at m.compilation_overrun;
      } in
      (
        publish_counts (
            if m'.compilers == 0
            then accounting_error m'
            else record m' { compilers = m'.compilers - 1 }),
        record s { compilation_started_at = none; terminating_at = none },
      )
]

unfoldable pub activate : ℕ → Inner → PreparationState → Inner × PreparationState
activate now m s = elim s.stage [
  | some queued ↦ (
    transition queued preparing (record m { queue_wait = (now - s.queued_at) ∷ m.queue_wait }),
    record s { stage = some preparing },
  )
  | _ ↦ (accounting_error m, s)
]

abbrev pub is_cancelled : PreparationState → Bool
is_cancelled s = elim s.cancellation [ none ↦ false | some _ ↦ true ]

-- `compiling` once its stage is accepted.
unfoldable pub start_compiler : ℕ → WorkState → Inner → PreparationState → Inner × PreparationState
start_compiler now next m s = (
  record_capacity compilers (publish_counts (record m { compilers = m.compilers + 1 })),
  record s { compilation_started_at = some now; stage = some next },
)

unfoldable pub compile : ℕ → Inner → PreparationState → Inner × PreparationState
compile now m s = elim s.stage [
  | some preparing ↦
      let next = if is_cancelled s then terminating else compiling in
      start_compiler now next (transition preparing next m) s
  | some terminating ↦
      if is_cancelled s then start_compiler now terminating m s else (accounting_error m, s)
  | _ ↦ (accounting_error m, s)
]

-- `PreparationWork::compilation_finished`.
unfoldable pub compilation_finished :
    ℕ → PreparationOutcome → Inner → PreparationState → Inner × PreparationState
compilation_finished now outcome m s =
    let (m', s') = finish_compilation now outcome m s in
    elim s'.stage [
      | some compiling ↦ (transition compiling preparing m', record s' { stage = some preparing })
      | _ ↦ (m', s')
    ]

unfoldable pub finish : PreparationOutcome → PreparationState → PreparationState
finish outcome s = record s { outcome = outcome }

abbrev pub is_queued : WorkState → Bool
is_queued queued = true
is_queued preparing = false
is_queued compiling = false
is_queued terminating = false

-- The drop of a live `PreparationWork`, in its compiler if that has not finished.
unfoldable pub leave :
    ℕ → WorkState → PreparationOutcome → Inner → PreparationState → Inner × PreparationState
leave now stage outcome m s =
    let m' =
      (if is_queued stage
        then record m { queue_wait = (now - s.queued_at) ∷ m.queue_wait }
        else m) in
    let m'' = publish_counts (decrement stage m') in
    (record m'' { finished = outcome ∷ m''.finished }, record s { stage = none })

unfoldable pub drop_work : ℕ → Bool → Inner → PreparationState → Inner × PreparationState
drop_work now panicking m s = elim s.stage [
  | none ↦ (m, s)
  | some stage ↦
      let outcome = or_outcome s.cancellation (if panicking then panic else s.outcome) in
      elim s.compilation_started_at [
        | none ↦ leave now stage outcome m s
        | some _ ↦
            let (m', s') = finish_compilation now outcome m s in leave now stage outcome m' s'
      ]
]
