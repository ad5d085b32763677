-- ===== src/Tests/Runs.antt =====
-- A run of a circuit that queries its ledger and calls the other contract.
use compact.Base.{
  true, false, refl, String, [], ℕ, ◌≡◌, some, ◌∷◌, ap, Bool, if◌then◌else◌, none, ◌∙◌,
}
use compact.Calls.Runs.{queried, called, here, next, Run, run}
use compact.Tests.Chain.{
  ledger, bytes_2, signatures, key_hash, setting, options, state, context, callee_address,
}
use compact.Tests.Calls.{state-IsRunning, context_or, circuit_or, provider_of, circuits_of}
use compact.Context.{
  ◌>>=◌, CircuitContext, State, ProofData, Outcome, World, returned, thrown, swap,
}
use compact.Context.Create.{finalize_call_proof_data}
use compact.Calls.Check.{
  Setting, ProvableCircuit, check_call_site, assert_is_contract_address, is_contract_address,
  assert_not_default_contract_address, identify_callee,
}
use compact.Coins.{CoinPlatform}
use compact.Calls.Resolve.{
  ProviderReply, thunk, loaded, resolve_module, Module, check_module_conformance,
  check_implementation, deployed_hash, recorded_hash,
}
use compact.Context.Query.{query_ledger_state}
use compact.Calls.Cross.{
  cross_contract_call, assert_no_reentrancy, run_callee, claim_call, call_callee,
}
use compact.Calls.Running.{IsContinued}
use compact.Resolution.{ModuleResolutionContext, verifier_key_hash_of, as_verifier_key_hash}
use compact.Calls.Runs.Proper.{circuit_run-IsContinued}
use compact.Base.Names.{lookup, same}
use compact.Calls.Enter.{
  resolve_deployed_state, enter_query_context, resolve_gas_cost, setup_call_context,
  restore_circuit_context,
}
use compact.Conformance.{check_conformance, first_unreadable_tag, signature_types_equal}
use compact.Calls.Claim.{
  fr_hex_to_aligned_value, create_comm_comm_data, kernel_claim_contract_call, call_claim,
  contract_address_to_value, circuit_id_to_value,
}
use compact.Codec.Scalar.{compact_type_bytes, compact_type_unsigned_integer}
use compact.Codec.Field.{compact_type_field}

abbrev pub proof_data : ProofData ledger
proof_data = record {
  input = bytes_2;
  output = bytes_2;
  public_transcript = [];
  private_transcript_outputs = [];
}

abbrev pub started : CircuitContext ledger → World ledger → State ledger
started c w = record { world = w; context = c; proof = state.proof }

-- The callee's circuit ends at once, with its entry of the trace.
abbrev pub ended :
    Outcome (Unit {0}) × State ledger → Outcome (ℕ × CircuitContext ledger) × World ledger
ended (returned u, t) = (returned (7, t.context), t.world)
ended (thrown x, t) = (thrown x, t.world)

unfoldable pub closing : ProvableCircuit ledger (Unit {0}) ℕ
unfolding finalize_call_proof_data
closing args c w = ended (finalize_call_proof_data proof_data (started c w))

abbrev pub closing_provider : String → ProviderReply (ProvableCircuit ledger (Unit {0}) ℕ)
closing_provider address = thunk (
    loaded (record {
      construction = returned tt;
      provable_circuits = some (("inc", closing) ∷ []);
      circuit_signatures = some signatures;
      expected_vk = some (("inc", key_hash) ∷ []);
    }))

abbrev pub with_closing : Setting ledger (Unit {0}) ℕ
with_closing = record setting { module_provider = some closing_provider }

abbrev platform : CoinPlatform
platform = record { runtime_coin_commitment = λ a b. a; to_hex = λ b. "" }

ended_run :
    (c : CircuitContext ledger) (w : World ledger) (r : Outcome (Unit {0}) × State ledger) {n : ℕ}
    {d : CircuitContext ledger} {v : World ledger}
    → finalize_call_proof_data proof_data (started c w) ≡ r
    → ended r ≡ (returned (n, d), v)
    → Run with_closing platform w c v d
ended_run c w (returned u, t) same h =
    run state.proof proof_data here same (ap (λ p. p.1) h) (ap (λ p. context_or c p.0) h)
ended_run c w (thrown x, t) same h = absurd (cc (ap (λ p. p.0) h))

closing_run :
    (c : CircuitContext ledger) (w : World ledger) {n : ℕ} {d : CircuitContext ledger}
    {v : World ledger}
    → closing tt c w ≡ (returned (n, d), v)
    → Run with_closing platform w c v d
unfolding closing
closing_run c w h = ended_run c w (finalize_call_proof_data proof_data (started c w)) refl h

if_closing :
    (b : Bool) (circuit : ProvableCircuit ledger (Unit {0}) ℕ)
    → (if b then some closing else none) ≡ some circuit
    → closing ≡ circuit
if_closing true circuit h = ap circuit_or h
if_closing false circuit h = absurd (cc h)

sole_closing :
    (f : String → ProviderReply (ProvableCircuit ledger (Unit {0}) ℕ))
    → some closing_provider ≡ some f
    → (context : ModuleResolutionContext) (address k : String)
      (m : Module (ProvableCircuit ledger (Unit {0}) ℕ))
      (circuit : ProvableCircuit ledger (Unit {0}) ℕ)
    → resolve_module context (f address) ≡ returned m
    → lookup k m.provable_circuits ≡ some circuit
    → closing ≡ circuit
unfolding resolve_module
sole_closing f e context address k m circuit h found =
    let same_provider = ap (λ o. resolve_module context (provider_of o address)) e in
    let same_circuits = ap circuits_of (same_provider ∙ h) in
    if_closing (same k "inc") circuit (ap (lookup k) same_circuits ∙ found)

-- After the query, the call and the end.
after_query : State ledger
after_query = (query_ledger_state with_closing.vm (swap 0 ∷ []) state).1

after_call : State ledger
after_call = (cross_contract_call with_closing options after_query).1

after_end : State ledger
after_end = (finalize_call_proof_data proof_data after_call).1

call_returns : (cross_contract_call with_closing options after_query).0 ≡ returned 7
unfolding after_query closing cross_contract_call ◌>>=◌ check_call_site assert_is_contract_address
    is_contract_address assert_not_default_contract_address assert_no_reentrancy identify_callee
    resolve_deployed_state resolve_module check_module_conformance check_conformance
    first_unreadable_tag signature_types_equal check_implementation deployed_hash
    verifier_key_hash_of as_verifier_key_hash recorded_hash enter_query_context resolve_gas_cost
    setup_call_context restore_circuit_context fr_hex_to_aligned_value create_comm_comm_data
    kernel_claim_contract_call call_claim query_ledger_state run_callee claim_call call_callee
    contract_address_to_value circuit_id_to_value compact_type_bytes compact_type_unsigned_integer
    compact_type_field
call_returns = refl

end_returns : (finalize_call_proof_data proof_data after_call).0 ≡ returned tt
unfolding after_call after_query closing cross_contract_call ◌>>=◌ check_call_site
    assert_is_contract_address is_contract_address assert_not_default_contract_address
    assert_no_reentrancy identify_callee resolve_deployed_state resolve_module
    check_module_conformance check_conformance first_unreadable_tag signature_types_equal
    check_implementation deployed_hash verifier_key_hash_of as_verifier_key_hash recorded_hash
    enter_query_context resolve_gas_cost setup_call_context restore_circuit_context
    fr_hex_to_aligned_value create_comm_comm_data kernel_claim_contract_call call_claim
    query_ledger_state run_callee claim_call call_callee contract_address_to_value
    circuit_id_to_value compact_type_bytes compact_type_unsigned_integer compact_type_field
    finalize_call_proof_data
end_returns = refl

main_run : Run with_closing platform state.world state.context after_end.world after_end.context
unfolding after_query after_call after_end
main_run =
    run state.proof proof_data
      (next (next here (queried (swap 0 ∷ []) refl)) (
        called options
          (λ f context m circuit c w r d v given resolved found active ran. closing_run c w (
            ap (λ g. g tt c w)
              (sole_closing f given context callee_address "inc" m circuit resolved found)
            ∙ ran))
          (ap (λ o. (o, after_call)) call_returns)))
      (ap (λ o. (o, after_end)) end_returns) refl refl

circuit_run-IsContinued_example :
    IsContinued state.world state.context after_end.world after_end.context
circuit_run-IsContinued_example =
    circuit_run-IsContinued with_closing platform main_run state-IsRunning
