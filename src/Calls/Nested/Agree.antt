-- ===== src/Calls/Nested/Agree.antt =====
-- Calls in runtime/src/contract.ts with the same provider and two ways to run the circuits.
use compact.Base.{
  ℕ, ◌≡◌, refl, ap, String, false, List, ◌∷◌, Option, none, some, Bool-cases, inl, inr,
}
use compact.Base.Names.{lookup, member}
use compact.Context.{
  Ledger, World, CircuitContext, State, Outcome, returned, thrown, M, follow, ◌>>=◌, pure, or_else,
}
use compact.Context.Steps.{Keeps, required-Keeps}
use compact.Calls.Resolve.{Module, ProviderReply, resolve_module}
use compact.Calls.Check.{ProvableCircuit, CrossContractCallOptions, Setting, resolution_context}
use compact.Calls.Cross.{
  cross_contract_call, run_circuit, run_callee, call_callee, claim_call, set_active,
  assert_no_reentrancy, guarded_call, finally, remove_active, call_inherited,
}
use compact.Calls.Active.{enter-KeepsActive}
use compact.Calls.Nested.{map_some, map_module, Caller, provider_with, setting_with}
use compact.Calls.Nested.Replies.{
  lookup-map_circuits, map_found, identified, identify_callee-nested, identified-eq-returned,
  check_call_site-nested, map_unit,
}

module _ {l : Ledger} where
  -- The same outcome and the same state, wherever these contracts are active.
  record Agree {B : Type 0} (active : List String) (m n : M l B) : Type 0 where
    same : (s : State l) → s.world.active_contracts ≡ active → m s ≡ n s

  follow-Agree :
      {B C : Type 0} (active : List String) (r : Outcome B × State l) (f g : B → M l C)
      → r.1.world.active_contracts ≡ active
      → ((b : B) → Agree active (f b) (g b))
      → follow r f ≡ follow r g
  follow-Agree active (returned b, s) f g h agree = (agree b).same s h
  follow-Agree active (thrown t, s) f g h agree = refl

  >>=-Agree :
      {B C : Type 0} (active : List String) (m : M l B) (f g : B → M l C)
      → Keeps (λ s. s.world.active_contracts ≡ active) m
      → ((b : B) → Agree active (f b) (g b))
      → Agree active (m >>= f) (m >>= g)
  unfolding ◌>>=◌
  >>=-Agree active m f g keeps agree = record {
    same = λ s h. follow-Agree active (m s) f g (keeps s h) agree;
  }

  -- The first steps agree, and the same follows.
  first-Agree :
      {B C : Type 0} (active : List String) (m n : M l B) (f : B → M l C)
      → Agree active m n
      → Agree active (m >>= f) (n >>= f)
  unfolding ◌>>=◌
  first-Agree active m n f agree = record { same = λ s h. ap (λ r. follow r f) (agree.same s h) }

  missing-same :
      {B C : Type 0} (r : Outcome ⊥ × State l) (next next' : B → M l C)
      → follow (follow r (λ x. absurd x)) next ≡ follow (follow r (λ x. absurd x)) next'
  missing-same (returned x, t) next next' = absurd x
  missing-same (thrown e, t) next next' = refl

  -- A value in two forms, or a step that throws.
  or_else-Agree :
      {Code B C : Type 0} (active : List String) (o : Option Code) (missing : M l ⊥)
      (f g : Code → B) (next next' : B → M l C)
      → ((code : Code) → Agree active (next (f code)) (next' (g code)))
      → Agree active
          (or_else (map_some f o) missing >>= next)
          (or_else (map_some g o) missing >>= next')
  unfolding ◌>>=◌
  or_else-Agree active none missing f g next next' agree = record {
    same = λ s h. missing-same (missing s) next next';
  }
  or_else-Agree active (some code) missing f g next next' agree = record {
    same = λ s h. (agree code).same s h;
  }

module _ {l : Ledger} {A R Code : Type 0} (e : Setting l A R)
    (replies : String → ProviderReply Code)
    (run : Caller l A R → Code → ProvableCircuit l A R) where
  -- The circuits leave the same, where these contracts are active.
  abbrev pub SameRuns : List String → Caller l A R → Caller l A R → Type 0
  SameRuns active call call' =
      (code : Code) (args : A) (c : CircuitContext l) (w : World l)
      → w.active_contracts ≡ active
      → run call code args c w ≡ run call' code args c w

  module _ (options : CrossContractCallOptions A) (active : List String) (call call' : Caller l A R)
      (same : SameRuns active call call') where
    abbrev with_call : Setting l A R
    with_call = setting_with e replies run call

    abbrev with_call' : Setting l A R
    with_call' = setting_with e replies run call'

    run_circuit-Agree :
        (code : Code)
        → Agree active
            (run_circuit with_call options (run call code))
            (run_circuit with_call' options (run call' code))
    run_circuit-Agree code = record {
      same = λ s h.
          ap (λ r. (r.0, record s { world = r.1 })) (same code options.args s.context s.world h);
    }

    run_callee-Agree :
        (m : Module Code) (place : ℕ)
        → Agree active
            (run_callee with_call options (map_module (run call) m) place)
            (run_callee with_call' options (map_module (run call') m) place)
    unfolding run_callee call_inherited
    run_callee-Agree m place =
        rw
          (
            lookup-map_circuits (run call) options.callee_circuit_id m.provable_circuits,
            lookup-map_circuits (run call') options.callee_circuit_id m.provable_circuits,
          )
          (>>=-Agree active _ _ _ (λ s h. h)
            λ _.
              or_else-Agree active (lookup options.callee_circuit_id m.provable_circuits) _
                (run call) (run call') _ _
                λ code.
                  >>=-Agree active _ _ _ (λ s h. h)
                    λ s.
                      >>=-Agree active _ _ _ (λ s h. h)
                        λ gas.
                          >>=-Agree active _ _ _
                            (required-Keeps (λ s. s.world.active_contracts ≡ active) _ _)
                            λ zswap.
                              >>=-Agree active _ _ _ (λ s h. h)
                                λ _.
                                  >>=-Agree active _ _ _ (λ s h. h)
                                    λ s. first-Agree active _ _ _ (run_circuit-Agree code))

    claim_call-same : claim_call with_call options ≡ claim_call with_call' options
    unfolding claim_call
    claim_call-same = refl

    entered-Agree :
        (m : Module Code) (place : ℕ)
        → Agree active
            (run_callee with_call options (map_module (run call) m) place >>= λ r.
              claim_call with_call options >>= λ _. pure r)
            (run_callee with_call' options (map_module (run call') m) place >>= λ r.
              claim_call with_call' options >>= λ _. pure r)
    entered-Agree m place = rw claim_call-same (first-Agree active _ _ _ (run_callee-Agree m place))

  -- The callee's module is looked at before the callee runs.
  read-Agree :
      {P B : Type 0} (active : List String) (call call' : Caller l A R)
      (o : Outcome (P × Module Code)) (next next' : P × Module (ProvableCircuit l A R) → M l B)
      (s : State l)
      → s.world.active_contracts ≡ active
      → ((p : P) (m : Module Code)
          → o ≡ returned (p, m)
          → Agree active (next (p, map_module (run call) m)) (next' (p, map_module (run call') m)))
      → follow (map_found (run call) o, s) next ≡ follow (map_found (run call') o, s) next'
  read-Agree active call call' (thrown t) next next' s h agree = refl
  read-Agree active call call' (returned (p, m)) next next' s h agree = (agree p m refl).same s h

  module _ (options : CrossContractCallOptions A) (call call' : Caller l A R) where
    -- The circuits that a call may run leave the same within it.
    abbrev pub SameWithin : State l → List String → Type 0
    SameWithin s active =
        (m : Module Code)
        → resolve_module (resolution_context e options s.context) (replies options.callee_address)
          ≡ returned m
        → SameRuns active call call'

    call_callee-same :
        (s : State l)
        → SameWithin s s.world.active_contracts
        → call_callee (setting_with e replies run call) options (provider_with e replies run call) s
          ≡ call_callee
              (setting_with e replies run call')
              options
              (provider_with e replies run call')
              s
    unfolding call_callee ◌>>=◌
    call_callee-same s within =
        let active = s.world.active_contracts in
        rw
          (
            identify_callee-nested e replies run options s.context call,
            identify_callee-nested e replies run options s.context call',
          )
          (read-Agree active call call' (identified e replies run options s.context) _ _ s refl
            λ p m found.
              >>=-Agree active _ _ _ (enter-KeepsActive e options options.callee_address p active)
                λ place.
                  entered-Agree options active call call'
                    (within m (identified-eq-returned e replies run options s.context found)) m
                    place)

    guarded :
        (o : Outcome (Unit {0})) (s : State l)
        → (member options.callee_address s.world.active_contracts ≡ false
            → SameWithin s (options.callee_address ∷ s.world.active_contracts))
        → follow
            (map_unit (provider_with e replies run call) o, s)
            (λ provider. assert_no_reentrancy options.callee_address >>= λ _.
              guarded_call (setting_with e replies run call) options provider)
          ≡ follow
              (map_unit (provider_with e replies run call') o, s)
              (λ provider. assert_no_reentrancy options.callee_address >>= λ _.
                guarded_call (setting_with e replies run call') options provider)
    unfolding ◌>>=◌ assert_no_reentrancy
    guarded (thrown t) s within = refl
    guarded (returned u) s within =
        let callee = options.callee_address in
        elim (Bool-cases (member callee s.world.active_contracts)) [
          | inl at ↦ rw at refl
          | inr off ↦ rw off (
              ap (finally (remove_active callee))
                (call_callee-same (set_active (callee ∷ s.world.active_contracts) s) (within off)))
        ]

    pub cross_contract_call-same :
        (s : State l)
        → (member options.callee_address s.world.active_contracts ≡ false
            → SameWithin s (options.callee_address ∷ s.world.active_contracts))
        → cross_contract_call (setting_with e replies run call) options s
          ≡ cross_contract_call (setting_with e replies run call') options s
    unfolding cross_contract_call ◌>>=◌
    cross_contract_call-same s within =
        let (o, x, y) = check_call_site-nested e replies run options s.context call call' in
        rw (x, y) (guarded o s within)
