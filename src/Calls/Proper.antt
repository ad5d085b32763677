-- ===== src/Calls/Proper.antt =====
-- The invariant of the circuit context across `crossContractCall` of runtime/src/contract.ts.
use mathlib.Core.Path.{subst}
use compact.Base.{List, ℕ, ◌≡◌, ◌≢◌, ◌∙◌, sym, ap, String, true, false, ◌∷◌, some}
use compact.Base.Names.{same, lookup, member, delete, delete-cons}
use compact.Zswap.{EncodedZswapLocalState}
use compact.Resolution.{ModuleResolutionContext}
use compact.Context.{Ledger, RunningCost, CallContext, CircuitContext, World, State, returned}
use compact.Context.Steps.{>>=-eq-returned, checked-eq-returned}
use compact.Context.Query.Invariant.{IsRunning}
use compact.Calls.Resolve.{Module, ProviderReply, resolve_module}
use compact.Calls.Enter.{
  resolve_gas_cost, setup_call_context, restore_circuit_context, enter_query_context,
}
use compact.Calls.Entered.{IsEntered, enter_query_context-IsEntered}
use compact.Calls.Check.{
  ProvableCircuit, CrossContractCallOptions, Setting, check_call_site, identify_callee,
}
use compact.Calls.Kept.{claim_call-Keeps}
use compact.Calls.Trusted.{
  identify_callee-IsTrusted, check_call_site-eq-returned, assert_no_reentrancy-eq-returned,
  finally-eq-returned,
}
use compact.Calls.Cross.{
  assert_no_reentrancy, set_active, remove_active, run_callee, claim_call, guarded_call,
  call_callee, cross_contract_call,
}
use compact.Calls.Running.{
  still, itself, IsContinued, IsInside, advance-IsInside, commit-IsInside, activate-IsRunning,
  reached_kept, deactivate-IsRunning,
}
use compact.Calls.Returned.{
  callee_context, after_callee, run_callee-eq-returned, cost_or_bug-eq-returned,
}

module _ {l : Ledger} {A R : Type 0} (e : Setting l A R)
    (options : CrossContractCallOptions A) where
  -- A circuit that keeps the invariant for the arguments of the call, where it runs with these
  -- contracts active.
  abbrev pub IsProper : List String → ProvableCircuit l A R → Type 0
  IsProper active circuit =
      (c : CircuitContext l) (w : World l) (r : R) (d : CircuitContext l) (v : World l)
      → w.active_contracts ≡ active
      → IsRunning w c
      → circuit options.args c w ≡ (returned (r, d), v)
      → IsContinued w c v d

  pub callee_context-IsRunning :
      (place : ℕ) (gas : RunningCost) (z : EncodedZswapLocalState) (s : State l)
      → IsRunning s.world s.context
      → member options.callee_address s.world.active_contracts ≡ true
      → lookup options.callee_address s.context.query_contexts ≡ some place
      → resolve_gas_cost s.context options.callee_address ≡ returned gas
      → IsRunning s.world (callee_context e options place gas z s.context)
  unfolding setup_call_context resolve_gas_cost
  callee_context-IsRunning place gas z s (_, places, paired) active placed cost = (
    (
      active,
      placed,
      cost_or_bug-eq-returned e options options.callee_address
          (lookup options.callee_address s.context.gas_costs) cost,
    ),
    places,
    paired,
  )

  -- The callee has been entered from `s` in `u` and has left `d` and `v`.
  pub after_callee-IsInside :
      (s u : State l) (place : ℕ) (gas : RunningCost) (z : EncodedZswapLocalState)
      (d : CircuitContext l) (v : World l)
      → s.context.call_context.contract_address ≢ options.callee_address
      → member options.callee_address s.world.active_contracts ≡ false
      → IsEntered options.callee_address
          (set_active (options.callee_address ∷ s.world.active_contracts) s)
          u
          place
      → IsContinued u.world (callee_context e options place gas z u.context) v d
      → let t = after_callee e options (callee_context e options place gas z u.context) d v u in
        IsInside options.callee_address s t.world t.context
  unfolding setup_call_context restore_circuit_context
  after_callee-IsInside s u place gas z d v ne inactive x h =
      let callee = options.callee_address in
      let a = u.context.call_context.contract_address in
      let same = ap (λ (c : CallContext l). c.contract_address) x.same_call in
      let (active, here, cost) = x.running.0 in
      let (place, gas) = h.others a active (λ e. ne (sym same ∙ e)) in
      record {
        running = (
          (ap (member a) h.same_active ∙ active, place ∙ here, gas ∙ cost),
          h.running.1,
          h.running.2,
        );
        active = h.same_active ∙ x.same_active;
        same_address = same;
        others = λ k active _.
            let off = (λ (e : k ≡ callee).
              absurd (cc (ap (λ j. member j s.world.active_contracts) e, active, inactive))) in
            let (place_1, gas_1) =
              h.others k
                (ap (member k) x.same_active ∙ still callee k s.world.active_contracts active)
                off in
            let (place_2, gas_2) = x.others k off in (place_1 ∙ place_2, gas_1 ∙ gas_2);
        kept = λ k y. h.kept k (x.still_kept k y);
        entered = h.kept callee x.kept;
      }

  IsInside-IsContinued :
      (s t : State l)
      → s.context.call_context.contract_address ≢ options.callee_address
      → member options.callee_address s.world.active_contracts ≡ false
      → IsInside options.callee_address s t.world t.context
      → let u = remove_active options.callee_address t in
        IsContinued s.world s.context u.world u.context
  IsInside-IsContinued s t ne inactive h = record {
    running =
        deactivate-IsRunning options.callee_address s.world.active_contracts t h.running h.active
          inactive (λ e. ne (sym h.same_address ∙ e)) h.entered;
    same_active =
        ap (delete options.callee_address) h.active
        ∙ delete-cons options.callee_address s.world.active_contracts inactive;
    same_address = h.same_address;
    others = h.others;
    kept = h.kept;
  }

  -- The circuit that is called is proper, with the callee active.
  abbrev pub ProvidesProper : State l → (String → ProviderReply (ProvableCircuit l A R)) → Type 0
  ProvidesProper s provider =
      (context : ModuleResolutionContext) (m : Module (ProvableCircuit l A R))
      (circuit : ProvableCircuit l A R)
      → resolve_module context (provider options.callee_address) ≡ returned m
      → lookup options.callee_circuit_id m.provable_circuits ≡ some circuit
      → IsProper (options.callee_address ∷ s.world.active_contracts) circuit

  -- The rest of the call, from the state that entering leaves.
  entered-IsInside :
      (provider : String → ProviderReply (ProvableCircuit l A R))
      (m : Module (ProvableCircuit l A R)) (context : ModuleResolutionContext) (s u : State l)
      (place : ℕ) {r : R} {t : State l}
      → ProvidesProper s provider
      → resolve_module context (provider options.callee_address) ≡ returned m
      → s.context.call_context.contract_address ≢ options.callee_address
      → member options.callee_address s.world.active_contracts ≡ false
      → IsEntered options.callee_address
          (set_active (options.callee_address ∷ s.world.active_contracts) s)
          u
          place
      → run_callee e options m place u ≡ (returned r, t)
      → IsInside options.callee_address s t.world t.context
  entered-IsInside provider m context s u place proper provided ne inactive x h =
      let callee = options.callee_address in
      let (circuit, gas, z, d, v, found, cost, ran, same) =
        run_callee-eq-returned e options m place u h in
      let active = ap (member callee) x.same_active ∙ itself callee s.world.active_contracts in
      let runs = callee_context-IsRunning place gas z u x.running active x.placed cost in
      let continued =
        proper context m circuit provided found (callee_context e options place gas z u.context)
          u.world _ d v x.same_active runs ran in
      subst (λ t. IsInside callee s t.world t.context) (sym same)
        (after_callee-IsInside s u place gas z d v ne inactive x continued)

  call_callee-IsInside :
      (provider : String → ProviderReply (ProvableCircuit l A R)) (s : State l) {r : R}
      {t : State l}
      → ProvidesProper s provider
      → IsRunning s.world s.context
      → s.context.call_context.contract_address ≢ options.callee_address
      → member options.callee_address s.world.active_contracts ≡ false
      → call_callee e options provider
          (set_active (options.callee_address ∷ s.world.active_contracts) s)
        ≡ (returned r, t)
      → IsInside options.callee_address s t.world t.context
  unfolding call_callee
  call_callee-IsInside provider s proper h ne inactive q =
      let callee = options.callee_address in
      let o = set_active (callee ∷ s.world.active_contracts) s in
      let ((state, m), known, q) =
        checked-eq-returned (λ s. identify_callee e options s.context provider) _ o q in
      let (place, u, entered, q) = >>=-eq-returned (enter_query_context e.vm callee state) _ o q in
      let (r, v, ran, q) = >>=-eq-returned (run_callee e options m place) _ u q in
      let (_, t, claimed, q) = >>=-eq-returned (claim_call e options) _ v q in
      let inside =
        entered-IsInside provider m _ s u place proper
          (identify_callee-IsTrusted e options s.context provider known).provided ne inactive
          (enter_query_context-IsEntered e.vm callee state o (activate-IsRunning callee s h) ne
            (reached_kept callee s h inactive) entered)
          ran in
      subst (λ t. IsInside callee s t.world t.context) (ap (λ p. p.1) claimed ∙ ap (λ p. p.1) q)
        (claim_call-Keeps (λ t. IsInside callee s t.world t.context) (advance-IsInside callee s)
          (λ ops s h. h) (λ v s h. h) (commit-IsInside callee s) e options v inside)

  -- If the invariant holds where a circuit calls another contract, and the circuit that the
  -- provider loads for the callee, started with the invariant where the callee is active too,
  -- keeps on return the invariant, the active contracts, the cells of the other active contracts
  -- and the kept states, then a call that returns does so too, and the caller's address stays. The
  -- invariant of a running circuit is that its address is active, that the maps have its live
  -- query context and cost under its address, that every query context they name exists, and that
  -- every address reached has a cost and is active or has its deployed state kept.
  pub cross_contract_call-IsContinued :
      (s : State l) {r : R} {t : State l}
      → ((provider : String → ProviderReply (ProvableCircuit l A R))
          → e.module_provider ≡ some provider
          → ProvidesProper s provider)
      → IsRunning s.world s.context
      → cross_contract_call e options s ≡ (returned r, t)
      → IsContinued s.world s.context t.world t.context
  unfolding cross_contract_call
  cross_contract_call-IsContinued s proper h q =
      let callee = options.callee_address in
      let (provider, found, q) =
        checked-eq-returned (λ s. check_call_site e options s.context) _ s q in
      let (_, u, entered, q) = >>=-eq-returned (assert_no_reentrancy callee) _ s q in
      let (inactive, same) = assert_no_reentrancy-eq-returned e options callee s entered in
      let ne = λ (x : s.context.call_context.contract_address ≡ callee).
        absurd (cc (ap (λ j. member j s.world.active_contracts) x, h.0.0, inactive)) in
      let q = ap (guarded_call e options provider) (sym same) ∙ q in
      let o = set_active (callee ∷ s.world.active_contracts) s in
      let inner =
        finally-eq-returned e options (remove_active callee) (call_callee e options provider o) q in
      subst (λ t. IsContinued s.world s.context t.world t.context) (ap (λ p. p.1) q)
        (IsInside-IsContinued s (call_callee e options provider o).1 ne inactive (
          call_callee-IsInside provider s
            (proper provider (check_call_site-eq-returned e options s.context found)) h ne inactive
            inner))
