-- ===== src/Calls/Progress/Returning.antt =====
-- `crossContractCall` of runtime/src/contract.ts where all checks pass and the callee returns.
use Prim.Native.String
use compact.Base.{
  ◌<◌, zero, suc, length, [], ℕ, ◌≡◌, ◌≢◌, refl, ap, ◌∙◌, arith, String, false, List, ◌∷◌, none,
  some, get_elem?, expected_defined, Option, sym, ok,
}
use compact.Calls.Progress.{
  Returns, >>=-Returns, lift-Returns, defined-Returns, get-Returns, modify-Returns,
  enter_query_context-Returns, step-Returns, or_else-Returns,
}
use compact.Calls.Check.{
  ProvableCircuit, CrossContractCallOptions, Setting, identify_callee, check_call_site,
}
use compact.Context.{
  ◌>>=◌, Ledger, CircuitContext, State, World, CallProofData, returned, RunningCost, CallContext,
  ContractState, thrown, Outcome, QueryContext, GatherResult, queried,
}
use compact.Calls.Running.{IsContinued, itself, activate-IsRunning, reached_kept}
use compact.Calls.Proper.{callee_context-IsRunning, after_callee-IsInside}
use compact.Calls.Returned.{callee_context, after_callee}
use compact.Calls.Cross.{
  last, run_callee, set_active, cross_contract_call, call_callee, assert_no_reentrancy, run_circuit,
  set_context, remove_active, finally, object_prototype,
}
use compact.Context.Query.Invariant.{IsRunning}
use compact.Calls.Entered.{IsEntered}
use compact.Calls.Enter.{
  resolve_gas_cost, restore_circuit_context, cost_or_bug, setup_call_context, enter_query_context,
  enter_at,
}
use compact.Base.Names.{has-lookup, lookup-has, lookup, member, quoted}
use compact.Calls.Resolve.{Module, ProviderReply}
use compact.Zswap.{EncodedZswapLocalState}
use compact.Calls.Trusted.{identify_callee-IsTrusted}
use compact.Resolution.{error}
use compact.Calls.Progress.Claiming.{Claimable, claim_call-Returns}
use compact.Aligned.{AlignedValue}
use compact.Calls.Claim.{fr_hex_to_aligned_value, call_claim, claim_program}

get_elem?-lt {ℓ} :
    {B : Type ℓ} (xs : List B) (i : ℕ) → i < length xs → (x : B) × (get_elem? xs i ≡ some x)
get_elem?-lt [] i h = absurd (omega arith)
get_elem?-lt (x ∷ xs) zero h = (x, refl)
get_elem?-lt (x ∷ xs) (suc i) h = get_elem?-lt xs i (omega arith)

module _ {l : Ledger} {A R : Type 0} (e : Setting l A R)
    (options : CrossContractCallOptions A) where
  -- A call from `s` completes: the callee's circuit, started in this context, returns and leaves what
  -- a circuit may, with the entry of its run in the trace; the texts of its claim are encoded; and the
  -- virtual machine takes the program of the claim at the caller's query context and its limits.
  pub record Completes (s : State l) (w : World l) (c : CircuitContext l)
      (circuit : ProvableCircuit l A R) : Type 0 where
    pub result : R
    pub left : CircuitContext l
    pub world : World l
    pub entry : CallProofData l
    pub returns : circuit options.args c w ≡ (returned (result, left), world)
    pub continued : IsContinued w c world left
    pub traced : last left.call_proof_data_trace ≡ some entry
    pub randomness : AlignedValue
    pub encoded : fr_hex_to_aligned_value e.platform e.randomness ≡ ok randomness
    pub index : AlignedValue
    pub claim : AlignedValue
    pub claimed :
        call_claim e.platform e.ocrt options.callee_address options.callee_circuit_id (
          e.platform.communication_commitment entry.proof_data.input entry.proof_data.output
            e.randomness)
        ≡ ok (index, claim)
    pub accepted :
        (q : QueryContext l)
        → get_elem? world.objects s.context.call_context.current_query_context ≡ some q
        → (after : QueryContext l) × (gas : RunningCost) × (events : List (GatherResult l))
          × (e.vm.query q
                (claim_program e.platform index claim)
                s.context.cost_model
                s.context.gas_limit
              ≡ queried after gas events)

  -- The state in which the callee is entered.
  abbrev pub activated : State l → State l
  activated s = set_active (options.callee_address ∷ s.world.active_contracts) s

  -- It completes from the one context in which the call starts the callee, where the invariant holds.
  abbrev pub CompletesFrom :
      State l → ContractState l → EncodedZswapLocalState → ProvableCircuit l A R → Type 0
  CompletesFrom s state z circuit =
      (u : State l) (place : ℕ) (gas : RunningCost)
      → enter_query_context e.vm options.callee_address state (activated s) ≡ (returned place, u)
      → resolve_gas_cost u.context options.callee_address ≡ returned gas
      → IsRunning u.world (callee_context e options place gas z u.context)
      → Completes s u.world (callee_context e options place gas z u.context) circuit

  -- The callee has been entered from `s` in `u`.
  abbrev pub Entered : State l → State l → ℕ → Type 0
  Entered s u place =
      IsEntered options.callee_address
        (set_active (options.callee_address ∷ s.world.active_contracts) s) u place

  cost_of_Entered :
      (s u : State l) (place : ℕ)
      → Entered s u place
      → (gas : RunningCost) × (resolve_gas_cost u.context options.callee_address ≡ returned gas)
  unfolding resolve_gas_cost
  cost_of_Entered s u place x =
      let callee = options.callee_address in
      let reached = has-lookup callee u.context.query_contexts x.placed in
      let (gas, cost) = lookup-has callee u.context.gas_costs (x.running.2 callee reached).0 in
      (gas, ap (cost_or_bug callee) cost)

  enter_at-settings :
      (state : ContractState l) (o : Option ℕ) (hash : Option String) (s : State l)
      → let t = (enter_at e.vm options.callee_address state o hash s).1 in
        (t.context.cost_model ≡ s.context.cost_model) × (t.context.gas_limit ≡ s.context.gas_limit)
  enter_at-settings state (some place) hash s = (refl, refl)
  enter_at-settings state none none s = (refl, refl)
  enter_at-settings state none (some hash) s = (refl, refl)

  enter-settings :
      (state : ContractState l) (s u : State l) (place : ℕ)
      → enter_query_context e.vm options.callee_address state s ≡ (returned place, u)
      → (u.context.cost_model ≡ s.context.cost_model) × (u.context.gas_limit ≡ s.context.gas_limit)
  unfolding enter_query_context
  enter-settings state s u place x =
      let callee = options.callee_address in
      let (model, limit) =
        enter_at-settings state (lookup callee s.context.query_contexts)
          s.context.call_context.parent_block_hash s in
      (
        ap (λ (r : Outcome ℕ × State l). r.1.context.cost_model) (sym x) ∙ model,
        ap (λ (r : Outcome ℕ × State l). r.1.context.gas_limit) (sym x) ∙ limit,
      )

  -- What the callee's return leaves can be claimed.
  after-Claimable :
      (s u : State l) (place : ℕ) (gas : RunningCost) (z : EncodedZswapLocalState)
      (circuit : ProvableCircuit l A R)
      → s.context.call_context.contract_address ≢ options.callee_address
      → member options.callee_address s.world.active_contracts ≡ false
      → Entered s u place
      → (u.context.cost_model ≡ s.context.cost_model) × (u.context.gas_limit ≡ s.context.gas_limit)
      → (ran : Completes s u.world (callee_context e options place gas z u.context) circuit)
      → Claimable e options (
          after_callee e options
            (callee_context e options place gas z u.context)
            ran.left
            ran.world
            u)
  unfolding restore_circuit_context setup_call_context
  after-Claimable s u place gas z circuit ne inactive x (model, limit) ran =
      let inside =
        after_callee-IsInside e options s u place gas z ran.left ran.world ne inactive x
          ran.continued in
      let ((_, at, _), places, _) = inside.running in
      let (q, here) =
        get_elem?-lt ran.world.objects u.context.call_context.current_query_context
          (places u.context.call_context.contract_address _ at) in
      let same = ap (λ (call : CallContext l). call.current_query_context) x.same_call in
      let (after, cost, events, runs) =
        ran.accepted q (ap (get_elem? ran.world.objects) (sym same) ∙ here) in
      record {
        entry = ran.entry;
        traced = ran.traced;
        randomness = ran.randomness;
        encoded = ran.encoded;
        index = ran.index;
        claim = ran.claim;
        claimed = ran.claimed;
        live = q;
        here = here;
        accepted = (after, cost, events, rw (model, limit) runs);
      }

  run_callee-Returns :
      (m : Module (ProvableCircuit l A R)) (circuit : ProvableCircuit l A R) (s u : State l)
      (state : ContractState l) (place : ℕ) (z : EncodedZswapLocalState)
      → m.construction ≡ returned tt
      → lookup options.callee_circuit_id m.provable_circuits ≡ some circuit
      → CompletesFrom s state z circuit
      → s.context.call_context.contract_address ≢ options.callee_address
      → member options.callee_address s.world.active_contracts ≡ false
      → s.context.call_context.current_zswap_local_state ≡ some z
      → enter_query_context e.vm options.callee_address state (activated s) ≡ (returned place, u)
      → Entered s u place
      → Returns (λ r t. Claimable e options t) (run_callee e options m place) u
  unfolding run_callee restore_circuit_context
  run_callee-Returns m circuit s u state place z made found completes ne inactive there entered x =
      let callee = options.callee_address in
      let (gas, cost) = cost_of_Entered s u place x in
      let active = ap (member callee) x.same_active ∙ itself callee s.world.active_contracts in
      let c = callee_context e options place gas z u.context in
      let ran =
        completes u place gas entered cost
          (callee_context-IsRunning e options place gas z u x.running active x.placed cost) in
      let settings = enter-settings state (activated s) u place entered in
      let zs = ap (λ (call : CallContext l). call.current_zswap_local_state) x.same_call ∙ there in
      lift-Returns _ _ _ u tt made (
        or_else-Returns _ (lookup options.callee_circuit_id m.provable_circuits) _ _ u circuit found
          (get-Returns _ _ u (
            lift-Returns _ _ _ u gas cost (
              defined-Returns _ _ _ _ u z zs (
                modify-Returns _ _ _ u (
                  get-Returns _ _ _ (
                    step-Returns _ (run_circuit e options circuit) _ (set_context c u)
                      (ran.result, ran.left) (record (set_context c u) { world = ran.world })
                      (ap (λ r. (r.0, record (set_context c u) { world = r.1 })) ran.returns)
                      (modify-Returns _ _ _ _ (record {
                        value = ran.result;
                        final = after_callee e options c ran.left ran.world u;
                        gives = refl;
                        holds = after-Claimable s u place gas z circuit ne inactive x settings ran;
                      })))))))))

  call_callee-Returns :
      (provider : String → ProviderReply (ProvableCircuit l A R)) (s : State l)
      (state : ContractState l) (m : Module (ProvableCircuit l A R))
      (circuit : ProvableCircuit l A R) (z : EncodedZswapLocalState)
      → IsRunning s.world s.context
      → member options.callee_address s.world.active_contracts ≡ false
      → s.context.call_context.contract_address ≢ options.callee_address
      → identify_callee e options s.context provider ≡ returned (state, m)
      → m.construction ≡ returned tt
      → lookup options.callee_circuit_id m.provable_circuits ≡ some circuit
      → CompletesFrom s state z circuit
      → s.context.call_context.current_zswap_local_state ≡ some z
      → Returns (λ _ _. Unit {0}) (call_callee e options provider) (activated s)
  unfolding call_callee
  call_callee-Returns provider s state m circuit z h inactive ne known made found completes there =
      let callee = options.callee_address in
      let o = activated s in
      let x =
        enter_query_context-Returns e.vm callee state o (activate-IsRunning callee s h) ne
          (reached_kept callee s h inactive)
          (identify_callee-IsTrusted e options s.context provider known).deployed in
      get-Returns _ _ o (
        lift-Returns _ _ _ o (state, m) known
          (step-Returns _ (enter_query_context e.vm callee state) _ o x.value x.final x.gives (
            >>=-Returns (λ r t. Claimable e options t) _ _ _ x.final
              (run_callee-Returns m circuit s x.final state x.value z made found completes ne
                inactive there x.gives x.holds)
              λ r t back.
                >>=-Returns (λ _ _. Unit {0}) _ _ _ t (claim_call-Returns e options t back)
                  λ _ v _. record { value = r; final = v; gives = refl; holds = tt })))

  -- If the invariant of a running circuit holds, the checks of the call site pass, the callee is
  -- not active, its state and module are identified, the module's constructor returns with the
  -- circuit, the caller has coins, and the call completes from the one context in which it starts
  -- that circuit, then crossContractCall returns. It completes if the circuit returns from that
  -- context, with its entry in the trace and what a circuit may leave, the texts of the claim of
  -- that entry are encoded, and the virtual machine takes the program of that claim at the
  -- caller's query context, with the caller's cost model and gas limit. That the callee is entered
  -- and has a cost, and that the caller still has its query context, follow.
  pub cross_contract_call_returns :
      (s : State l) {provider : String → ProviderReply (ProvableCircuit l A R)}
      {state : ContractState l} {m : Module (ProvableCircuit l A R)}
      {circuit : ProvableCircuit l A R} {z : EncodedZswapLocalState}
      → IsRunning s.world s.context
      → check_call_site e options s.context ≡ returned provider
      → member options.callee_address s.world.active_contracts ≡ false
      → identify_callee e options s.context provider ≡ returned (state, m)
      → m.construction ≡ returned tt
      → lookup options.callee_circuit_id m.provable_circuits ≡ some circuit
      → s.context.call_context.current_zswap_local_state ≡ some z
      → CompletesFrom s state z circuit
      → (r : R) × (t : State l) × (cross_contract_call e options s ≡ (returned r, t))
  unfolding cross_contract_call ◌>>=◌ assert_no_reentrancy
  cross_contract_call_returns s {provider} {state} {m} {circuit} {z} h site inactive known made
        found there completes =
      let callee = options.callee_address in
      let ne = λ (x : s.context.call_context.contract_address ≡ callee).
        absurd (cc (ap (λ j. member j s.world.active_contracts) x, h.0.0, inactive)) in
      let ran =
        call_callee-Returns provider s state m circuit z h inactive ne known made found completes
          there in
      (
        ran.value,
        remove_active callee ran.final,
        rw (site, inactive) (ap (finally (remove_active callee)) ran.gives),
      )

  run_callee_missing :
      (m : Module (ProvableCircuit l A R)) (place : ℕ) (u : State l)
      → m.construction ≡ returned tt
      → lookup options.callee_circuit_id m.provable_circuits ≡ none
      → member options.callee_circuit_id object_prototype ≡ false
      → run_callee e options m place u ≡ (
        thrown (
            error (
              expected_defined (
                String.◌++◌
                  (quoted "" options.callee_circuit_id)
                  (quoted " for callee " options.callee_address)))),
        u,
      )
  unfolding run_callee ◌>>=◌
  run_callee_missing m place u made missing plain = rw (made, missing, plain) refl

  -- If the invariant of a running circuit holds, the checks of the call site pass, the callee is
  -- not active, its state and module are identified, the module's constructor returns without such
  -- a circuit, and a plain object inherits no member of that name, then crossContractCall throws
  -- the error that names the circuit; it has entered the callee by then, and leaves that state
  -- less the callee in the active contracts.
  pub cross_contract_call_no_circuit :
      (s : State l) {provider : String → ProviderReply (ProvableCircuit l A R)}
      {state : ContractState l} {m : Module (ProvableCircuit l A R)}
      → IsRunning s.world s.context
      → check_call_site e options s.context ≡ returned provider
      → member options.callee_address s.world.active_contracts ≡ false
      → identify_callee e options s.context provider ≡ returned (state, m)
      → m.construction ≡ returned tt
      → lookup options.callee_circuit_id m.provable_circuits ≡ none
      → member options.callee_circuit_id object_prototype ≡ false
      → (u : State l) × (place : ℕ) × Entered s u place
        × (cross_contract_call e options s ≡ (
          thrown (
              error (
                expected_defined (
                  String.◌++◌
                    (quoted "" options.callee_circuit_id)
                    (quoted " for callee " options.callee_address)))),
          remove_active options.callee_address u,
        ))
  unfolding cross_contract_call call_callee ◌>>=◌ assert_no_reentrancy
  cross_contract_call_no_circuit s {provider} {state} {m} h site inactive known made missing plain =
      let callee = options.callee_address in
      let o = set_active (callee ∷ s.world.active_contracts) s in
      let ne = λ (x : s.context.call_context.contract_address ≡ callee).
        absurd (cc (ap (λ j. member j s.world.active_contracts) x, h.0.0, inactive)) in
      let x =
        enter_query_context-Returns e.vm callee state o (activate-IsRunning callee s h) ne
          (reached_kept callee s h inactive)
          (identify_callee-IsTrusted e options s.context provider known).deployed in
      let ran = run_callee_missing m x.value x.final made missing plain in
      (x.final, x.value, x.holds, rw (site, inactive, known, x.gives, ran) refl)
