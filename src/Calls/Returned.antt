-- ===== src/Calls/Returned.antt =====
-- `crossContractCall` of runtime/src/contract.ts where the callee returns.
use compact.Base.{ℕ, ◌≡◌, ◌∙◌, sym, ap, String, Option, none, some}
use compact.Base.Names.{same, lookup}
use compact.Zswap.{EncodedZswapLocalState}
use compact.Context.{
  ◌>>◌, modify, pure, Ledger, RunningCost, CircuitContext, World, State, returned, ◌>>=◌,
}
use compact.Context.Steps.{
  defined-eq-returned, lift-eq-returned, get->>=, modify->>=, >>=-eq-returned, or_else-eq-returned,
}
use compact.Calls.Resolve.Keys.{returned-injective}
use compact.Calls.Resolve.{Module}
use compact.Calls.Enter.{cost_or_bug, resolve_gas_cost, setup_call_context, restore_circuit_context}
use compact.Calls.Check.{ProvableCircuit, CrossContractCallOptions, Setting}
use compact.Calls.Cross.{set_context, run_circuit, run_callee}

module _ {l : Ledger} {A R : Type 0} (e : Setting l A R)
    (options : CrossContractCallOptions A) where
  -- The context in which the callee runs.
  abbrev pub callee_context :
      ℕ → RunningCost → EncodedZswapLocalState → CircuitContext l → CircuitContext l
  callee_context place gas z c =
      setup_call_context e.coins options.callee_circuit_id options.callee_address place gas
        z.coin_public_key c

  -- The state in which the callee leaves the caller.
  abbrev pub after_callee : CircuitContext l → CircuitContext l → World l → State l → State l
  after_callee c d v s = record s {
    world = v;
    context = restore_circuit_context c s.context.call_context d;
  }

  ran-eq-returned :
      (circuit : ProvableCircuit l A R) (c : CircuitContext l) (s : State l) {r : R} {t : State l}
      → (run_circuit e options circuit >>= λ (r, d).
            modify (set_context (restore_circuit_context c s.context.call_context d)) >> pure r)
          (set_context c s)
        ≡ (returned r, t)
      → (d : CircuitContext l) × (v : World l) × (circuit options.args c s.world
          ≡ (returned (r, d), v))
        × (t ≡ after_callee c d v s)
  ran-eq-returned circuit c s h =
      let ((r, d), u, ran, h) =
        >>=-eq-returned (run_circuit e options circuit) _ (set_context c s) h in
      let h = sym (modify->>= _ _ u) ∙ h in
      let same = ap (λ x. returned (x, d)) (returned-injective (ap (λ p. p.0) h)) in
      let v = (circuit options.args c s.world).1 in
      (
        d,
        v,
        ap (λ x. (x, v)) (ap (λ p. p.0) ran ∙ same),
        sym (ap (λ p. p.1) h)
            ∙ ap (λ u. set_context (restore_circuit_context c s.context.call_context d) u)
                (sym (ap (λ p. p.1) ran)),
      )

  pub run_callee-eq-returned :
      (m : Module (ProvableCircuit l A R)) (place : ℕ) (s : State l) {r : R} {t : State l}
      → run_callee e options m place s ≡ (returned r, t)
      → (circuit : ProvableCircuit l A R) × (gas : RunningCost) × (z : EncodedZswapLocalState)
        × (d : CircuitContext l) × (v : World l) × (lookup options.callee_circuit_id
              m.provable_circuits
            ≡ some circuit)
        × (resolve_gas_cost s.context options.callee_address ≡ returned gas)
        × (circuit options.args (callee_context place gas z s.context) s.world
            ≡ (returned (r, d), v))
        × (t ≡ after_callee (callee_context place gas z s.context) d v s)
  unfolding run_callee
  run_callee-eq-returned m place s h =
      let (_, _, h) = lift-eq-returned m.construction _ s h in
      let (circuit, found, h) =
        or_else-eq-returned (lookup options.callee_circuit_id m.provable_circuits) _ _ s h in
      let h = sym (get->>= _ s) ∙ h in
      let (gas, cost, h) =
        lift-eq-returned (resolve_gas_cost s.context options.callee_address) _ s h in
      let (z, _, h) =
        defined-eq-returned s.context.call_context.current_zswap_local_state _ _ s h in
      let c = callee_context place gas z s.context in
      let h = sym (modify->>= _ _ s) ∙ h in
      let (d, v, result, same) =
        ran-eq-returned circuit c s (sym (get->>= _ (set_context c s)) ∙ h) in
      (circuit, gas, z, d, v, found, cost, result, same)

  pub cost_or_bug-eq-returned :
      (callee : String) (o : Option RunningCost) {gas : RunningCost}
      → cost_or_bug callee o ≡ returned gas
      → o ≡ some gas
  cost_or_bug-eq-returned callee none h = absurd (cc h)
  cost_or_bug-eq-returned callee (some cost) h = ap some (returned-injective h)
