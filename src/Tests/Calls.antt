-- ===== src/Tests/Calls.antt =====
-- Calls between the two contracts of the small ledger.
use mathlib.Core.Path.{subst}
use compact.Base.{
  get_elem?, ◌≢◌, if◌then◌else◌, ℕ, ◌≡◌, ◌↔◌, ◌∙◌, refl, ap, arith, String, Bool, true, false, [],
  ◌∷◌, Option, none, some, inl, no_contract_address, List,
}
use compact.Base.Names.{same, Dict, same_iff, lookup, member}
use compact.Resolution.{error, ModuleResolutionContext, verifier_key_hash_of, as_verifier_key_hash}
use compact.Codec.Scalar.{compact_type_bytes, compact_type_unsigned_integer}
use compact.Codec.Field.{compact_type_field}
use compact.Context.{
  ContractState, ◌>>=◌, CircuitContext, State, Outcome, returned, thrown, QueryContext,
}
use compact.Context.Create.{empty_running_cost}
use compact.Context.Query.{query_ledger_state}
use compact.Context.Query.Invariant.{IsRunning}
use compact.Conformance.{check_conformance, first_unreadable_tag, signature_types_equal}
use compact.Calls.Resolve.{
  Module, ProviderReply, resolve_module, deployed_hash, check_implementation,
  check_module_conformance, recorded_hash,
}
use compact.Calls.Resolve.Keys.{IsDeployed, OthersAgree, check_implementation_iff}
use compact.Calls.Enter.{
  resolve_deployed_state, enter_query_context, resolve_gas_cost, setup_call_context,
  restore_circuit_context,
}
use compact.Calls.Claim.{
  call_claim, contract_address_to_value, circuit_id_to_value, kernel_claim_contract_call,
  fr_hex_to_aligned_value, create_comm_comm_data,
}
use compact.Calls.Check.{
  is_contract_address, assert_is_contract_address, assert_not_default_contract_address,
  ProvableCircuit, CrossContractCallOptions, check_call_site, identify_callee,
}
use compact.Calls.Cross.{
  run_callee, claim_call, call_callee, assert_no_reentrancy, cross_contract_call,
}
use compact.Calls.Guard.{at_call_site, cross_contract_call_refused}
use compact.Calls.Active.{IsBalanced, cross_contract_call-active}
use compact.Calls.Trusted.{IsTrusted, cross_contract_call-IsTrusted}
use compact.Calls.Entered.{enter_query_context_again, IsUsedAgain}
use compact.Calls.Running.{IsContinued}
use compact.Calls.Proper.{IsProper, cross_contract_call-IsContinued}
use compact.Tests.Chain.{
  vm, ledger, deployed, inc, provider, setting, options, callee_address, key_hash, context, state,
  query_context,
}

-- The call returns 7.
after : State ledger
unfolding cross_contract_call
after = (cross_contract_call setting options state).1

call_returns : (cross_contract_call setting options state).0 ≡ returned 7
unfolding cross_contract_call ◌>>=◌ check_call_site assert_is_contract_address is_contract_address
    assert_not_default_contract_address assert_no_reentrancy identify_callee resolve_deployed_state
    resolve_module check_module_conformance check_conformance first_unreadable_tag
    signature_types_equal check_implementation deployed_hash verifier_key_hash_of
    as_verifier_key_hash recorded_hash enter_query_context resolve_gas_cost setup_call_context
    restore_circuit_context fr_hex_to_aligned_value create_comm_comm_data kernel_claim_contract_call
    call_claim query_ledger_state run_callee claim_call call_callee contract_address_to_value
    circuit_id_to_value compact_type_bytes compact_type_unsigned_integer compact_type_field
call_returns = refl

returns : cross_contract_call setting options state ≡ (returned 7, after)
unfolding after
returns = ap (λ o. (o, (cross_contract_call setting options state).1)) call_returns

pub state-IsRunning : IsRunning state.world state.context
state-IsRunning = (
  (refl, refl, refl),
  λ k p h. ground (arith, same_iff k "a"),
  λ k h. (ground (arith, same_iff k "a"), inl (ground (arith, same_iff k "a"))),
)

abbrev pub provider_of :
    Option (String → ProviderReply (ProvableCircuit ledger (Unit {0}) ℕ))
    → String
    → ProviderReply (ProvableCircuit ledger (Unit {0}) ℕ)
provider_of none = provider
provider_of (some f) = f

abbrev pub circuits_of :
    Outcome (Module (ProvableCircuit ledger (Unit {0}) ℕ))
    → Dict (ProvableCircuit ledger (Unit {0}) ℕ)
circuits_of (returned m) = m.provable_circuits
circuits_of (thrown e) = []

abbrev pub circuit_or :
    Option (ProvableCircuit ledger (Unit {0}) ℕ) → ProvableCircuit ledger (Unit {0}) ℕ
circuit_or none = inc
circuit_or (some circuit) = circuit

abbrev pub context_or :
    CircuitContext ledger → Outcome (ℕ × CircuitContext ledger) → CircuitContext ledger
context_or c (returned p) = p.1
context_or c (thrown e) = c

if_some :
    (b : Bool) (circuit : ProvableCircuit ledger (Unit {0}) ℕ)
    → (if b then some inc else none) ≡ some circuit
    → inc ≡ circuit
if_some true circuit h = ap circuit_or h
if_some false circuit h = absurd (cc h)

-- Every circuit that the provider loads is the one of its module.
sole_circuit :
    (f : String → ProviderReply (ProvableCircuit ledger (Unit {0}) ℕ))
    → some provider ≡ some f
    → (context : ModuleResolutionContext) (address k : String)
      (m : Module (ProvableCircuit ledger (Unit {0}) ℕ))
      (circuit : ProvableCircuit ledger (Unit {0}) ℕ)
    → resolve_module context (f address) ≡ returned m
    → lookup k m.provable_circuits ≡ some circuit
    → inc ≡ circuit
unfolding resolve_module
sole_circuit f e context address k m circuit h found =
    let same_provider = ap (λ o. resolve_module context (provider_of o address)) e in
    let same_circuits = ap circuits_of (same_provider ∙ h) in
    if_some (same k "inc") circuit (ap (lookup k) same_circuits ∙ found)

inc-IsProper : (active : List String) → IsProper setting options active inc
inc-IsProper active c w r d v _ h e =
    let same_context = ap (λ p. context_or c p.0) e in
    let same_world = ap (λ p. p.1) e in
    subst (λ x. IsContinued w c x d) same_world
      (subst (λ x. IsContinued w c w x) same_context
        (record {
          running = h;
          same_active = refl;
          same_address = refl;
          others = λ k active ne. (refl, refl);
          kept = λ k kept. kept;
        }))

cross_contract_call-IsContinued_example :
    IsContinued state.world state.context after.world after.context
cross_contract_call-IsContinued_example =
    cross_contract_call-IsContinued setting options state
      (λ f e context m circuit h found.
        subst (IsProper setting options (callee_address ∷ "a" ∷ []))
          (sole_circuit f e context callee_address "inc" m circuit h found)
          (inc-IsProper (callee_address ∷ "a" ∷ [])))
      state-IsRunning returns

cross_contract_call-active_example : after.world.active_contracts ≡ "a" ∷ []
unfolding after
cross_contract_call-active_example =
    cross_contract_call-active setting options state (λ f e context address m h k circuit found.
      subst (IsBalanced setting options) (sole_circuit f e context address k m circuit h found)
        (λ args c w. refl))

cross_contract_call-IsTrusted_example :
    (member callee_address ("a" ∷ []) ≡ false)
    × ((f : String → ProviderReply (ProvableCircuit ledger (Unit {0}) ℕ))
        × (deployed_state : ContractState ledger) × (m : Module
            (ProvableCircuit ledger (Unit {0}) ℕ))
        × (some provider ≡ some f)
        × IsTrusted setting options context f deployed_state m)
cross_contract_call-IsTrusted_example = cross_contract_call-IsTrusted setting options state returns

-- A call to an address that is no address.
abbrev to_nowhere : CrossContractCallOptions (Unit {0})
to_nowhere = record options { callee_address = "abc" }

refused : check_call_site setting to_nowhere context ≡ thrown (error (no_contract_address "abc"))
unfolding check_call_site assert_is_contract_address is_contract_address
refused = refl

cross_contract_call_refused_example :
    cross_contract_call setting to_nowhere state
    ≡ (thrown (error (no_contract_address "abc")), state)
cross_contract_call_refused_example =
    cross_contract_call_refused setting to_nowhere state (error (no_contract_address "abc"))
      (at_call_site refused)

abbrev resolution : ModuleResolutionContext
resolution = record {
  callee_address = callee_address;
  callee_circuit_id = "inc";
  interface_name = "T";
  caller_address = "a";
}

check_implementation_iff_example :
    (check_implementation (λ key. key_hash) deployed resolution (("inc", key_hash) ∷ []) "inc"
      ≡ returned tt)
    ↔ (((hash : String) × (lookup "inc" (("inc", key_hash) ∷ []) ≡ some hash)
          × IsDeployed (λ key. key_hash) deployed "inc" hash)
        × OthersAgree (λ key. key_hash) deployed "inc" (("inc", key_hash) ∷ []))
check_implementation_iff_example =
    check_implementation_iff (λ key. key_hash) deployed resolution (("inc", key_hash) ∷ []) "inc"

-- A context in which the callee was called before.
abbrev again : CircuitContext ledger
again = record context {
  query_contexts = ("a", 0) ∷ (callee_address, 1) ∷ [];
  gas_costs = ("a", empty_running_cost) ∷ (callee_address, empty_running_cost) ∷ [];
  contract_states = (callee_address, deployed) ∷ [];
}

abbrev called_before : State ledger
called_before = record state {
  world = record state.world {
    objects = query_context 3 "a" ∷ query_context 4 callee_address ∷ [];
  };
  context = again;
}

enter_query_context_again_example :
    let r = enter_query_context vm callee_address deployed called_before in
    (r.0 ≡ returned 1)
    × (r.1.context ≡ again)
    × ((used : QueryContext ledger) × (get_elem? r.1.world.objects 1 ≡ some used)
        × IsUsedAgain "a" (query_context 4 callee_address) used)
    × ((i : ℕ) → 1 ≢ i → get_elem? r.1.world.objects i ≡ get_elem? called_before.world.objects i)
enter_query_context_again_example =
    enter_query_context_again vm callee_address deployed called_before refl refl
