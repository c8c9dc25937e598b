-- ===== src/Host/Modules/Budget.antt =====
-- The bounds that the registry of modules.rs keeps, and what it answers.
use wasm_platform.Base.{
  ℕ, ◌+◌, ◌-◌, ◌≤◌, ◌<◌, ◌≡◌, refl, ◌⊎◌, ◌↔◌, inl, inr, ite, Bool, true, List, ◌∷◌, [], none, some,
  ok, if◌then◌else◌, length, arith, Option-cases, Result-cases, sym,
}
use wasm_platform.Base.Map.{
  get as map_get, insert as map_insert, contains_key, total, Distinct, get-insert, get-remove,
  insert-Distinct, remove-Distinct, total-remove, length-remove, remove_absent,
}
use wasm_platform.Host.Modules.{
  ModuleKey, key_discrete, RegistryState, RegisteredComponent, PreparedComponent,
  max_retained_components, max_retained_native_bytes, get, register, remove, replaced_bytes, Change,
  registers, removes, step, run, empty,
}

module _ {C : Type 0} where
  abbrev pub size : RegisteredComponent C → ℕ
  size entry = entry.native_bytes

  pub record IsBounded (state : RegistryState C) : Type 0 where
    pub distinct : Distinct key_discrete state.components
    pub counted : state.native_bytes ≡ total size state.components
    pub few : length state.components ≤ max_retained_components
    pub small : state.native_bytes ≤ max_retained_native_bytes

  -- Whether a component is replaced or added, its place is accounted for.
  insert-sizes :
      (key : ModuleKey) (entry : RegisteredComponent C) (state : RegistryState C)
      → IsBounded state
      → (total size (map_insert key_discrete key entry state.components)
          ≡ state.native_bytes - replaced_bytes key state + size entry)
        × (length (map_insert key_discrete key entry state.components)
            ≡ (if contains_key key_discrete key state.components then 0 else 1)
              + length state.components)
  unfolding map_insert total replaced_bytes contains_key
  insert-sizes key entry state b = elim (Option-cases (map_get key_discrete key state.components)) [
    | inl e ↦ ground (arith, remove_absent key_discrete key state.components e, b.counted)
    | inr (old, e) ↦ ground (
      arith,
      b.counted,
      total-remove key_discrete size key old state.components b.distinct e,
      length-remove key_discrete key old state.components b.distinct e,
    )
  ]

  -- The state with the component in its place, with no test made.
  abbrev pub placed : ModuleKey → PreparedComponent C → RegistryState C → RegistryState C
  placed key p state = record {
    components =
        map_insert key_discrete key
          (record { component = p.component; native_bytes = p.native_bytes }) state.components;
    native_bytes = state.native_bytes - replaced_bytes key state + p.native_bytes;
  }

  -- The conditions of a registration.
  pub record Fits (in_time : Bool) (key : ModuleKey) (p : PreparedComponent C)
      (state : RegistryState C) : Type 0 where
    pub on_time : in_time ≡ true
    pub room :
        (contains_key key_discrete key state.components ≡ true)
        ⊎ (length state.components < max_retained_components)
    pub budget :
        state.native_bytes - replaced_bytes key state + p.native_bytes ≤ max_retained_native_bytes

  register_inv :
      (in_time : Bool) (key : ModuleKey) (p : PreparedComponent C) (state after : RegistryState C)
      → register in_time key p state ≡ ok after
      → Fits in_time key p state × (after ≡ placed key p state)
  unfolding register
  register_inv in_time key p state after h = (ground arith, ground arith)

  register-Fits :
      (in_time : Bool) (key : ModuleKey) (p : PreparedComponent C) (state : RegistryState C)
      → Fits in_time key p state
      → register in_time key p state ≡ ok (placed key p state)
  unfolding register
  register-Fits in_time key p state f = ground arith

  -- A component is registered exactly if its deadline has not passed, its function has a component or
  -- fewer than 32 are held, and the native bytes less the replaced ones and with the new ones stay
  -- within 128 MiB; the state then has it in its place.
  pub register-ok_iff :
      (in_time : Bool) (key : ModuleKey) (p : PreparedComponent C) (state after : RegistryState C)
      → (register in_time key p state ≡ ok after)
        ↔ (Fits in_time key p state × (after ≡ placed key p state))
  register-ok_iff in_time key p state after =
      (register_inv in_time key p state after, λ f. rw f.1 (register-Fits in_time key p state f.0))

  placed-IsBounded :
      (in_time : Bool) (key : ModuleKey) (p : PreparedComponent C) (state : RegistryState C)
      → IsBounded state
      → Fits in_time key p state
      → IsBounded (placed key p state)
  placed-IsBounded in_time key p state b f =
      let (bytes, count) =
        insert-sizes key (record { component = p.component; native_bytes = p.native_bytes }) state
          b in
      record {
        distinct = insert-Distinct key_discrete key _ state.components b.distinct;
        counted = sym bytes;
        few = ground arith;
        small = f.budget;
      }

  remove-IsBounded :
      (key : ModuleKey) (state : RegistryState C) → IsBounded state → IsBounded (remove key state)
  unfolding remove
  remove-IsBounded key state b = elim (Option-cases (map_get key_discrete key state.components)) [
    | inl e ↦ rw (e, remove) b
    | inr (old, e) ↦
        rw (e, remove)
          (record {
            distinct = remove-Distinct key_discrete key state.components b.distinct;
            counted = omega (
              arith,
              b.counted,
              total-remove key_discrete size key old state.components b.distinct e,
            );
            few =
                omega
                  (arith, b.few, length-remove key_discrete key old state.components b.distinct e);
            small = omega (arith, b.small);
          })
  ]

  step-IsBounded :
      (c : Change C) (state : RegistryState C) → IsBounded state → IsBounded (step c state)
  unfolding step
  step-IsBounded (removes key) state b = remove-IsBounded key state b
  step-IsBounded (registers in_time key p) state b =
      elim (Result-cases (register in_time key p state)) [
        | inr (x, e) ↦ rw (e, step) b
        | inl (after, e) ↦
            let (f, same) = register_inv in_time key p state after e in
            rw (e, step, same) (placed-IsBounded in_time key p state b f)
      ]

  run_keeps :
      (cs : List (Change C)) (state : RegistryState C) → IsBounded state → IsBounded (run cs state)
  unfolding run
  run_keeps [] state b = b
  run_keeps (c ∷ cs) state b = run_keeps cs (step c state) (step-IsBounded c state b)

  -- After any registrations and evictions from the empty registry, each function has at most one
  -- component, at most 32 are held, the native byte count is the sum of their sizes, and it is at most
  -- 128 MiB.
  pub run-IsBounded : (cs : List (Change C)) → IsBounded (run cs empty)
  unfolding total
  run-IsBounded cs =
      run_keeps cs empty
        (record { distinct = tt; counted = refl; few = omega arith; small = omega arith })

  -- What `get` finds after a registration or an eviction: for the function itself the new component or
  -- none, and for another function what it found before.
  pub get-step :
      (in_time : Bool) (key other : ModuleKey) (p : PreparedComponent C)
      (state after : RegistryState C)
      → register in_time key p state ≡ ok after
      → (get other after ≡ ite (key_discrete key other) (some p.component) (get other state))
        × (get other (remove key state) ≡ ite (key_discrete key other) none (get other state))
  unfolding get remove
  get-step in_time key other p state after h = (
    ground (
      arith,
      (register_inv in_time key p state after h).1,
      get-insert key_discrete key other
          (record { component = p.component; native_bytes = p.native_bytes }) state.components,
    ),
    ground (arith, get-remove key_discrete key other state.components),
  )
