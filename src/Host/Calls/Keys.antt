-- ===== src/Host/Calls/Keys.antt =====
-- components/execution-host/src/host_kv.rs: the keys of an application's values.
use wasm_platform.Base.{
  ℤ, ℕ, ◌+◌, ◌≡◌, ◌≢◌, ◌⊎◌, inl, inr, Option-cases, Result-cases, ascii, Bytes, ◌∷◌, [], ◌++◌, Bool,
  true, false, Option, some, Result, ok, err, if◌then◌else◌, arith, All,
}
use wasm_platform.Host.Invocation.{Invocation}
use wasm_platform.Host.Calls.Redis.{
  asked_time, remaining_of, RedisError, Mutation, set, delete, increment, Course, backend_deadline,
  mutate_before_deadline, evaluate, mutate,
}

unfoldable pub full_key : Bytes → Bytes → Bytes → Bytes
full_key app_namespace app_name key = app_namespace ++ b'/' ∷ (app_name ++ b'/' ∷ key)

-- A name has no slash.
abbrev pub IsName : Bytes → Type 0
IsName s = All (λ c. c ≢ b'/') s

split_unique :
    (a b s t : Bytes) → IsName a → IsName b → a ++ b'/' ∷ s ≡ b ++ b'/' ∷ t → (a ≡ b) × (s ≡ t)
split_unique [] [] s t p q h = ground arith
split_unique [] (y ∷ b) s t p q h = absurd (ground (arith, q.0))
split_unique (x ∷ a) [] s t p q h = absurd (ground (arith, p.0))
split_unique (x ∷ a) (y ∷ b) s t p q h =
    let rest = split_unique a b s t p.1 q.1 (ground arith) in ground (arith, rest)

-- Applications whose namespace and name have no slash share no key of the store.
pub full_key_unique :
    (ns ns' app app' key key' : Bytes)
    → IsName ns
    → IsName ns'
    → IsName app
    → IsName app'
    → full_key ns app key ≡ full_key ns' app' key'
    → (ns ≡ ns') × (app ≡ app') × (key ≡ key')
unfolding full_key
full_key_unique ns ns' app app' key key' n n' a a' h =
    let first = split_unique ns ns' (app ++ b'/' ∷ key) (app' ++ b'/' ∷ key') n n' h in
    let second = split_unique app app' key key' a a' first.1 in (first.0, second.0, second.1)

-- What a guest has: its application, whether its budget lasts, and whether Redis is configured, with the
-- calls that were recorded for it.
pub record HostState : Type 0 where
  pub app_namespace : Bytes
  pub app_name : Bytes
  pub in_budget : Bool
  pub configured : Bool
  pub kv_reads : ℕ
  pub kv_writes : ℕ

pub data KvError : Type 0 where
  over_budget not_configured : KvError
  redis : RedisError → KvError

abbrev pub is_increment : Mutation → Bool
is_increment (set value) = false
is_increment delete = false
is_increment (increment delta) = true

abbrev pub from_redis {ℓ} : {A : Type ℓ} → Result RedisError A → Result KvError A
from_redis (ok a) = ok a
from_redis (err e) = err (redis e)

-- The host functions that change a value.
pub data KvCall : Type 0 where
  set_call set_int_call : Bytes → KvCall
  delete_call incr decr : KvCall

abbrev pub mutation_of : KvCall → Mutation
mutation_of (set_call value) = set value
mutation_of (set_int_call digits) = set digits
mutation_of delete_call = delete
mutation_of incr = increment (ascii "1")
mutation_of decr = increment (ascii "-1")

module _ {S : Type 0} (set_command : Bytes → Bytes → S → S) (del_command : Bytes → S → S × ℕ)
    (incrby : Bytes → Bytes → S → Option S) (get_number : Bytes → S → ℤ) where
  unfoldable pub read_kv {ℓ} :
      {A : Type ℓ}
      → (Bytes → S → Result RedisError (Option A))
      → Bytes
      → HostState
      → S
      → HostState × Result KvError (Option A)
  read_kv read key h s =
      if h.in_budget
      then (if h.configured
          then (
            record h { kv_reads = h.kv_reads + 1 },
            from_redis (read (full_key h.app_namespace h.app_name key) s),
          )
          else (h, err not_configured))
      else (h, err over_budget)

  unfoldable pub mutate_kv :
      Invocation → Course → Bytes → Mutation → HostState → S → (HostState × S) × Result KvError ℤ
  mutate_kv i c key m h s =
      let r =
        mutate set_command del_command incrby get_number i c
          (full_key h.app_namespace h.app_name key) m s in
      if h.in_budget
      then (if h.configured
          then (
            (
              record h {
                kv_reads = if is_increment m then h.kv_reads + 1 else h.kv_reads;
                kv_writes = h.kv_writes + 1;
              },
              r.0,
            ),
            from_redis r.1,
          )
          else ((h, s), err not_configured))
      else ((h, s), err over_budget)

  unfoldable pub call :
      Invocation → Course → Bytes → KvCall → HostState → S → (HostState × S) × Result KvError ℤ
  call i c key k h s = mutate_kv i c key (mutation_of k) h s

  module _ {V : Type 0} (lookup : Bytes → S → V)
      (set_frame : (k j v : Bytes) (s : S) → k ≢ j → lookup j (set_command k v s) ≡ lookup j s)
      (del_frame : (k j : Bytes) (s : S) → k ≢ j → lookup j (del_command k s).0 ≡ lookup j s)
      (incr_frame : (k j d : Bytes) (s s' : S)
        → k ≢ j
        → incrby k d s ≡ some s'
        → lookup j s' ≡ lookup j s) where
    script-frame :
        (now deadline : ℕ) (k j : Bytes) (m : Mutation) (s : S)
        → k ≢ j
        → lookup j
            (mutate_before_deadline set_command del_command incrby get_number now deadline k m s).0
          ≡ lookup j s
    unfolding mutate_before_deadline
    script-frame now deadline k j (set value) s n = ground (arith, set_frame k j value s n)
    script-frame now deadline k j delete s n = ground (arith, del_frame k j s n)
    script-frame now deadline k j (increment d) s n = elim (Option-cases (incrby k d s)) [
      | inl e ↦ ground (arith, e)
      | inr (s', e) ↦ ground (arith, e, incr_frame k j d s s' n e)
    ]

    mutate-frame :
        (i : Invocation) (c : Course) (k j : Bytes) (m : Mutation) (s : S)
        → k ≢ j
        → lookup j (mutate set_command del_command incrby get_number i c k m s).0 ≡ lookup j s
    unfolding mutate evaluate
    mutate-frame i c k j m s n = elim (asked_time c.time) [
      | inr (inl t) ↦ ground (arith, t)
      | inr (inr t) ↦ ground (arith, t)
      | inl (seconds, microseconds, t) ↦
          elim (Result-cases (backend_deadline seconds microseconds (remaining_of i c))) [
            | inr (e, d) ↦ ground (arith, t, d)
            | inl (deadline, d) ↦ elim (Option-cases c.runs_at) [
              | inl r ↦ ground (arith, t, d, r)
              | inr (now, r) ↦ ground (arith, t, d, r, script-frame now deadline k j m s n)
            ]
          ]
    ]

    -- If the commands of the server change no key but their own, then whatever an application calls leaves
    -- every value of an application of another name or namespace as it is, the names without a slash.
    pub call-isolated :
        (i : Invocation) (c : Course) (key key' ns' app' : Bytes) (k : KvCall) (h : HostState)
        (s : S)
        → IsName h.app_namespace
        → IsName ns'
        → IsName h.app_name
        → IsName app'
        → (h.app_namespace ≢ ns') ⊎ (h.app_name ≢ app')
        → lookup (full_key ns' app' key') (call i c key k h s).0.1
          ≡ lookup (full_key ns' app' key') s
    unfolding call mutate_kv
    call-isolated i c key key' ns' app' k h s n n' a a' other =
        let distinct : full_key h.app_namespace h.app_name key ≢ full_key ns' app' key' = λ e.
          let same = full_key_unique h.app_namespace ns' h.app_name app' key key' n n' a a' e in
          ground (arith, same, other) in
        let frame =
          mutate-frame i c (full_key h.app_namespace h.app_name key) (full_key ns' app' key')
            (mutation_of k) s distinct in
        ground (arith, frame)
