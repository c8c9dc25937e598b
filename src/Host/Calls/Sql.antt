-- ===== src/Host/Calls/Sql.antt =====
-- components/execution-host/src/host_sql.rs: the statements that a guest may run, and the transaction that
-- owns each of them. The parser of `sqlparser`, the answers of the database and the checks of the
-- invocation are arguments.
use wasm_platform.Base.{
  ap, ℕ, ◌≡◌, ◌≢◌, ◌↔◌, inl, inr, Bool, true, false, not, ◌&&◌, ◌||◌, Bytes, List, ◌∷◌, [], ◌++◌,
  Option, none, some, Result, ok, err, ◌>>◌, if◌then◌else◌, arith, Option-cases, Result-cases,
}

-- `Statement`, by whether the source admits it.
pub data Statement : Type 0 where
  query insert update deletes create_table create_index alter_table drops truncate unsupported :
      Statement

pub data SqlError : Type 0 where
  over_budget no_sql_user not_parsed not_supported database no_backend_pid task_failed
        termination_unconfirmed invalid_result :
      SqlError

abbrev pub is_supported : Statement → Bool
is_supported unsupported = false
is_supported _ = true

unfoldable pub validate_statement :
    (Bytes → Option (List Statement)) → Bytes → Result SqlError (Unit {0})
validate_statement parse_sql sql = elim (parse_sql sql) [
  | none ↦ err not_parsed
  | some [] ↦ err not_supported
  | some (s ∷ []) ↦ if is_supported s then ok tt else err not_supported
  | some (s ∷ t ∷ more) ↦ err not_supported
]

abbrev pub Admitted : (Bytes → Option (List Statement)) → Bytes → Type 0
Admitted parse_sql sql = (s : Statement) × (parse_sql sql ≡ some (s ∷ [])) × (is_supported s ≡ true)

validated :
    (parse_sql : Bytes → Option (List Statement)) (sql : Bytes)
    → validate_statement parse_sql sql ≡ ok tt
    → Admitted parse_sql sql
unfolding validate_statement
validated parse_sql sql h = elim (Option-cases (parse_sql sql)) [
  | inl e ↦ absurd (ground arith)
  | inr ([], e) ↦ absurd (ground arith)
  | inr (s ∷ [], e) ↦ (s, e, ground arith)
  | inr (s ∷ t ∷ more, e) ↦ absurd (ground arith)
]

-- What `invocation.run` of a statement gives: the check before it failed, or it was sent, and then
-- stopped, refused or answered.
pub data Answer {ℓ} (A : Type ℓ) : Type ℓ where
  not_sent stopped refused : Answer A
  answered : A → Answer A

pub data Sent : Type 0 where
  begin setup statement commit rollback terminate : Sent

-- What is sent for a job whose backend is cancelled at the end, or not.
abbrev pub trace_of : Bool → List Sent
trace_of true = begin ∷ setup ∷ statement ∷ commit ∷ []
trace_of false = begin ∷ setup ∷ statement ∷ commit ∷ terminate ∷ []

-- What an invocation and the database do to a job: the answers, and the checks between them.
pub record Course {ℓ} (A : Type ℓ) : Type ℓ where
  pub on_acquire : Answer (Unit {0})
  pub check_begin : Bool
  pub on_begin : Answer (Unit {0})
  pub on_setup : Answer (Option ℕ)
  pub check_statement : Bool
  pub on_statement : Answer A
  pub check_commit : Bool
  pub on_commit : Answer (Unit {0})
  pub check_last : Bool
  pub terminated : Bool
  pub sends_rollback : Bool

abbrev pub is_sent {ℓ} : {A : Type ℓ} → Answer A → Bool
is_sent not_sent = false
is_sent stopped = true
is_sent refused = true
is_sent (answered a) = true

abbrev pub result_of {ℓ} : {A : Type ℓ} → Answer A → Result SqlError A
result_of not_sent = err over_budget
result_of stopped = err over_budget
result_of refused = err database
result_of (answered a) = ok a

abbrev pub sends {ℓ} : {A : Type ℓ} → Answer A → Sent → List Sent → List Sent
sends a s trace = if is_sent a then trace ++ s ∷ [] else trace

-- What the block of `sql_job` leaves: what was sent, `backend_pid`, `commit_submitted`, and its result.
pub record Block {ℓ} (A : Type ℓ) : Type ℓ where
  pub trace : List Sent
  pub backend_pid : Option ℕ
  pub commit_submitted : Bool
  pub result : Result SqlError A

abbrev pub has_pid : Option ℕ → Bool
has_pid none = false
has_pid (some pid) = true

module _ {A : Type 0} where
  abbrev pub stopped_at : List Sent → Option ℕ → SqlError → Block A
  stopped_at trace pid e = record {
    trace = trace;
    backend_pid = pid;
    commit_submitted = false;
    result = err e;
  }

  unfoldable pub commit_block : Course A → ℕ → List Sent → A → Block A
  commit_block c pid trace out = record {
    trace = sends c.on_commit commit trace;
    backend_pid = some pid;
    commit_submitted = is_sent c.on_commit;
    result = do
      result_of c.on_commit
      ok out;
  }

  unfoldable pub statement_block : Course A → ℕ → List Sent → Block A
  statement_block c pid trace =
      let trace' = sends c.on_statement statement trace in
      if not c.check_statement
      then stopped_at trace (some pid) over_budget
      else (elim (result_of c.on_statement) [
        | err e ↦ stopped_at trace' (some pid) e
        | ok out ↦
            if c.check_commit
            then commit_block c pid trace' out
            else stopped_at trace' (some pid) over_budget
      ])

  unfoldable pub setup_block : Course A → List Sent → Block A
  setup_block c trace =
      let trace' = sends c.on_setup setup trace in
      elim (result_of c.on_setup) [
        | err e ↦ stopped_at trace' none e
        | ok none ↦ stopped_at trace' none no_backend_pid
        | ok (some pid) ↦ statement_block c pid trace'
      ]

  unfoldable pub begin_block : Course A → Block A
  begin_block c =
      let trace = sends c.on_begin begin [] in
      if not c.check_begin then stopped_at [] none over_budget else (elim (result_of c.on_begin) [
        | err e ↦ stopped_at trace none e
        | ok _ ↦ setup_block c trace
      ])

  abbrev pub is_err : Result SqlError A → Bool
  is_err (ok a) = false
  is_err (err e) = true

  -- The end of `sql_job`: the backend of a cancelled job is terminated, and a job that failed is rolled
  -- back. The connection is closed in every case.
  unfoldable pub finish_job : Course A → Block A → List Sent × Result SqlError A
  finish_job c b =
      if has_pid b.backend_pid && not c.check_last
      then (
        b.trace ++ terminate ∷ [],
        if c.terminated then b.result else err termination_unconfirmed,
      )
      else (
        (if is_err b.result && c.sends_rollback then b.trace ++ rollback ∷ [] else b.trace),
        b.result,
      )

  unfoldable pub sql_job : Course A → List Sent × Result SqlError A
  sql_job c = elim (result_of c.on_acquire) [
    | err e ↦ ([], err e)
    | ok _ ↦ finish_job c (begin_block c)
  ]

  -- Every statement of a job was answered, and the checks between them passed.
  pub record Committed (c : Course A) (out : A) : Type 0 where
    pub pid : ℕ
    pub acquires : c.on_acquire ≡ answered tt
    pub begins : (c.check_begin ≡ true) × (c.on_begin ≡ answered tt)
    pub sets_up : c.on_setup ≡ answered (some pid)
    pub runs : (c.check_statement ≡ true) × (c.on_statement ≡ answered out)
    pub commits : (c.check_commit ≡ true) × (c.on_commit ≡ answered tt)
    pub ends : (c.check_last || c.terminated) ≡ true

  sql_job-Committed : (c : Course A) (out : A) → (sql_job c).1 ≡ ok out → Committed c out
  unfolding sql_job finish_job begin_block setup_block statement_block commit_block
  sql_job-Committed c out h = elim (Result-cases (result_of c.on_setup)) [
    | inr (e, q) ↦ absurd (ground arith)
    | inl (none, q) ↦ absurd (ground arith)
    | inl (some pid, q) ↦ record {
      pid = pid;
      acquires = ground arith;
      begins = ground arith;
      sets_up = ground arith;
      runs = ground arith;
      commits = ground arith;
      ends = ground arith;
    }
  ]

  -- A job gives an output exactly if each statement of its transaction was answered, every check between
  -- them passed, and the invocation was in its budget then or the backend was confirmed to have ended;
  -- and it has then sent the start, the setup, the statement and the commit, in that order, and after
  -- them only what ends the backend, if the budget was over.
  pub sql_job-ok_iff :
      (c : Course A) (out : A) (trace : List Sent)
      → (sql_job c ≡ (trace, ok out)) ↔ (Committed c out × (trace ≡ trace_of c.check_last))
  unfolding sql_job finish_job begin_block setup_block statement_block commit_block
  sql_job-ok_iff c out trace = (
    (λ h. let k = sql_job-Committed c out (ap (λ r. r.1) h) in (k, ground (arith, k, h))),
    λ k. ground (arith, k.0, k.1),
  )

  -- `run_sql`: a statement that is not one that a transaction can own is never sent; the job goes on
  -- where the guest's call is cancelled, and its result is then lost.
  unfoldable pub run_sql :
      (Bytes → Option (List Statement))
      → Bool
      → Bool
      → Bytes
      → Course A
      → List Sent × Result SqlError A
  run_sql parse_sql in_budget received sql c =
      let job = sql_job c in
      if not in_budget then ([], err over_budget) else (elim (validate_statement parse_sql sql) [
        | err e ↦ ([], err e)
        | ok _ ↦ (job.0, if received then job.1 else err over_budget)
      ])

  -- Nothing is sent to the database but for one statement of a kind that a transaction can own, and an
  -- output is that of a transaction that was committed.
  pub run_sql-Committed :
      (parse_sql : Bytes → Option (List Statement)) (in_budget received : Bool) (sql : Bytes)
      (c : Course A)
      → ((run_sql parse_sql in_budget received sql c).0 ≢ [] → Admitted parse_sql sql)
        × ((out : A)
            → (run_sql parse_sql in_budget received sql c).1 ≡ ok out
            → Admitted parse_sql sql × Committed c out)
  unfolding run_sql
  run_sql-Committed parse_sql in_budget received sql c =
      elim (Result-cases (validate_statement parse_sql sql)) [
        | inr (e, q) ↦ (λ h. absurd (ground (arith, h, q)), λ out h. absurd (ground (arith, h, q)))
        | inl (u, q) ↦ (
          λ h. validated parse_sql sql q,
          λ out h. (validated parse_sql sql q, sql_job-Committed c out (ground (arith, h, q))),
        )
      ]
