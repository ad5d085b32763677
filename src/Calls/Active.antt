-- ===== src/Calls/Active.antt =====
-- The set of active contracts in `crossContractCall` of runtime/src/contract.ts.
use compact.Base.{
  true, false, ℕ, ◌≡◌, ◌∙◌, inl, inr, refl, ap, String, List, ◌∷◌, Option, none, some, Bool-cases,
  Bool, if◌then◌else◌,
}
use compact.Base.Names.{Dict, member, delete, delete-cons, lookup}
use compact.Resolution.{ModuleResolutionContext, Thrown}
use compact.Context.{Ledger, World, CircuitContext, ContractState, State, returned, M, ◌>>=◌, throw}
use compact.Context.Steps.{
  Keeps, >>=-Keeps, read-Keeps, required-Keeps, checked-Keeps, or_else-Keeps,
}
use compact.Calls.Resolve.{Module, ProviderReply, resolve_module}
use compact.Calls.Enter.{enter_at, enter_query_context}
use compact.Calls.Trusted.{identify_callee-IsTrusted, check_call_site-eq-returned}
use compact.Calls.Kept.{claim_call-Keeps}
use compact.Calls.Check.{ProvableCircuit, CrossContractCallOptions, Setting, check_call_site}
use compact.Calls.Cross.{
  assert_no_reentrancy, set_active, guarded_call, call_callee, cross_contract_call, run_circuit,
  run_callee, claim_call, call_inherited, object_prototype,
}

module _ {l : Ledger} {A R : Type 0} (e : Setting l A R)
    (options : CrossContractCallOptions A) where
  -- The circuit leaves the active contracts as they are, whatever it comes to.
  abbrev pub IsBalanced : ProvableCircuit l A R → Type 0
  IsBalanced circuit =
      (args : A) (c : CircuitContext l) (w : World l)
      → (circuit args c w).1.active_contracts ≡ w.active_contracts

  abbrev pub HasBalanced : Dict (ProvableCircuit l A R) → Type 0
  HasBalanced circuits =
      (k : String) (circuit : ProvableCircuit l A R)
      → lookup k circuits ≡ some circuit
      → IsBalanced circuit

  abbrev pub KeepsActive : {B : Type 0} → M l B → Type 0
  KeepsActive m = (a : List String) → Keeps (λ s. s.world.active_contracts ≡ a) m

  keep-entered :
      (callee : String) (st : ContractState l) (a : List String)
      → (place : Option ℕ) (hash : Option String)
      → Keeps (λ s. s.world.active_contracts ≡ a) (enter_at e.vm callee st place hash)
  keep-entered callee st a (some place) hash s h = h
  keep-entered callee st a none none s h = h
  keep-entered callee st a none (some hash) s h = h

  pub enter-KeepsActive :
      (callee : String) (st : ContractState l) → KeepsActive (enter_query_context e.vm callee st)
  unfolding enter_query_context
  enter-KeepsActive callee st a s h =
      keep-entered callee st a (lookup callee s.context.query_contexts)
        s.context.call_context.parent_block_hash s h

  run_circuit-KeepsActive :
      (circuit : ProvableCircuit l A R)
      → IsBalanced circuit
      → KeepsActive (run_circuit e options circuit)
  run_circuit-KeepsActive circuit balanced a s h = balanced options.args s.context s.world ∙ h

  claim_call-KeepsActive : KeepsActive (claim_call e options)
  claim_call-KeepsActive a =
      claim_call-Keeps (λ s. s.world.active_contracts ≡ a) (λ q gas events s h. h) (λ ops s h. h)
        (λ v s h. h) (λ d s h. h) e options

  -- Every module that the provider loads has balanced circuits.
  abbrev pub ProvidesBalanced : (String → ProviderReply (ProvableCircuit l A R)) → Type 0
  ProvidesBalanced provider =
      (context : ModuleResolutionContext) (address : String) (m : Module (ProvableCircuit l A R))
      → resolve_module context (provider address) ≡ returned m
      → HasBalanced m.provable_circuits

  no_circuit-KeepsActive :
      (inherits : Bool) (place : ℕ) (t : Thrown)
      → KeepsActive (if inherits then call_inherited e options place else throw t)
  unfolding call_inherited
  no_circuit-KeepsActive false place t a = λ s h. h
  no_circuit-KeepsActive true place t a =
      let P = λ (s : State l). s.world.active_contracts ≡ a in
      >>=-Keeps P _ _ (λ s h. h)
        λ s.
          >>=-Keeps P _ _ (λ s h. h)
            λ gas.
              >>=-Keeps P _ _ (required-Keeps P _ _) λ zswap. >>=-Keeps P _ _ (λ s h. h) λ _ s h. h

  run_callee-KeepsActive :
      (m : Module (ProvableCircuit l A R)) (place : ℕ)
      → HasBalanced m.provable_circuits
      → KeepsActive (run_callee e options m place)
  unfolding run_callee
  run_callee-KeepsActive m place balanced a =
      let P = λ (s : State l). s.world.active_contracts ≡ a in
      >>=-Keeps P _ _ (λ s h. h)
        λ _.
          or_else-Keeps P (lookup options.callee_circuit_id m.provable_circuits) _ _
            (no_circuit-KeepsActive (member options.callee_circuit_id object_prototype) place _ a)
            λ circuit x.
              >>=-Keeps P _ _ (λ s h. h)
                λ s.
                  >>=-Keeps P _ _ (λ s h. h)
                    λ gas. >>=-Keeps P _ _ (required-Keeps P _ _) λ zswap.
                      >>=-Keeps P _ _ (λ s h. h)
                        λ _.
                          >>=-Keeps P _ _ (λ s h. h)
                            λ s.
                              >>=-Keeps P _ _
                                (run_circuit-KeepsActive circuit
                                  (balanced options.callee_circuit_id circuit x) a)
                                λ r. >>=-Keeps P _ _ (λ s h. h) λ _ s h. h

  call_callee-KeepsActive :
      (provider : String → ProviderReply (ProvableCircuit l A R))
      → ProvidesBalanced provider
      → KeepsActive (call_callee e options provider)
  unfolding call_callee
  call_callee-KeepsActive provider balanced a =
      let P = λ (s : State l). s.world.active_contracts ≡ a in
      checked-Keeps P _ _ λ s (st, m) x.
        >>=-Keeps P _ _ (enter-KeepsActive options.callee_address st a) λ place.
          >>=-Keeps P _ _
            (run_callee-KeepsActive m place
              (balanced _ options.callee_address m
                (identify_callee-IsTrusted e options s.context provider x).provided)
              a)
            λ r. >>=-Keeps P _ _ (claim_call-KeepsActive a) λ _ s h. h

  guarded_call-active :
      (provider : String → ProviderReply (ProvableCircuit l A R))
      → ProvidesBalanced provider
      → (s : State l)
      → (guarded_call e options provider s).1.world.active_contracts
        ≡ delete options.callee_address s.world.active_contracts
  guarded_call-active provider balanced s =
      ap (delete options.callee_address)
        (call_callee-KeepsActive provider balanced s.world.active_contracts s refl)

  entered_call-active :
      (provider : String → ProviderReply (ProvableCircuit l A R))
      → ProvidesBalanced provider
      → (s : State l)
      → ((assert_no_reentrancy options.callee_address >>= λ _. guarded_call e options provider)
          s).1.world.active_contracts
        ≡ s.world.active_contracts
  unfolding ◌>>=◌ assert_no_reentrancy
  entered_call-active provider balanced s =
      let callee = options.callee_address in
      let active = s.world.active_contracts in
      elim (Bool-cases (member callee active)) [
        | inl at ↦ rw at refl
        | inr off ↦ rw off (
            guarded_call-active provider balanced (set_active (callee ∷ active) s)
            ∙ delete-cons callee active off)
      ]

  -- If every circuit that the provider loads leaves the active contracts as they are, so does
  -- crossContractCall, whether it returns or throws.
  pub cross_contract_call-active :
      (s : State l)
      → ((provider : String → ProviderReply (ProvableCircuit l A R))
          → e.module_provider ≡ some provider
          → ProvidesBalanced provider)
      → (cross_contract_call e options s).1.world.active_contracts ≡ s.world.active_contracts
  unfolding cross_contract_call ◌>>=◌
  cross_contract_call-active s balanced =
      read-Keeps (λ t. t.world.active_contracts ≡ s.world.active_contracts)
        (check_call_site e options s.context) _ s refl
        λ provider x.
          entered_call-active provider
            (balanced provider (check_call_site-eq-returned e options s.context x)) s
