-- ===== src/Tests/Inherited.antt =====
-- Calls of circuits that the callee's module does not have, in runtime/src/contract.ts, by the names of
-- members that plain objects inherit.
use compact.Base.{ℕ, ◌≡◌, refl, String, [], ◌∷◌, some, native_type_error, true}
use compact.Resolution.{error, verifier_key_hash_of, as_verifier_key_hash}
use compact.Context.{ContractState, State, Outcome, returned, thrown, ◌>>=◌}
use compact.Signature.{signature, SignatureType}
use compact.Conformance.{check_conformance, first_unreadable_tag, signature_types_equal}
use compact.Calls.Resolve.{
  ProviderReply, thunk, loaded, resolve_module, deployed_hash, check_implementation,
  check_module_conformance, recorded_hash,
}
use compact.Calls.Enter.{
  resolve_deployed_state, enter_query_context, resolve_gas_cost, setup_call_context,
}
use compact.Calls.Check.{
  is_contract_address, assert_is_contract_address, assert_not_default_contract_address,
  ProvableCircuit, CrossContractCallOptions, check_call_site, identify_callee,
}
use compact.Calls.Cross.{
  run_callee, call_callee, call_inherited, assert_no_reentrancy, cross_contract_call,
}
use compact.Tests.Chain.{ledger, deployed, setting, options, key_hash, context, state}

abbrev named_provider : String → String → ProviderReply (ProvableCircuit ledger (Unit {0}) ℕ)
named_provider name address = thunk (
    loaded (record {
      construction = returned tt;
      provable_circuits = some [];
      circuit_signatures = some (
          (
            name,
            signature (record {
              argument_types = [];
              result_type = SignatureType.bytes 3;
              provable = true;
            }),
          )
          ∷ []);
      expected_vk = some ((name, key_hash) ∷ []);
    }))

abbrev named_options : String → CrossContractCallOptions (Unit {0})
named_options name = record options {
  declaration = (name, record { argument_types = []; result_type = SignatureType.bytes 3 }) ∷ [];
  callee_circuit_id = name;
}

abbrev with_key : String → ContractState ledger
with_key name = record deployed { verifier_keys = (name, 5 ∷ []) ∷ [] }

abbrev named_state : String → State ledger
named_state name = record state {
  context = record context { state_provider = some (λ hash address. some (with_key name)) };
}

called : String → Outcome ℕ × State ledger
unfolding cross_contract_call
called name =
    cross_contract_call (record setting { module_provider = some (named_provider name) })
      (named_options name) (named_state name)

-- The function returns, and the caller's call context is restored before the missing context of its
-- result is read.
returning_member :
    ((called "toString").0 ≡ thrown (error native_type_error))
    × ((called "toString").1.context.call_context ≡ context.call_context)
unfolding called cross_contract_call ◌>>=◌ check_call_site assert_is_contract_address
    is_contract_address assert_not_default_contract_address assert_no_reentrancy identify_callee
    resolve_deployed_state resolve_module check_module_conformance check_conformance
    first_unreadable_tag signature_types_equal check_implementation deployed_hash
    verifier_key_hash_of as_verifier_key_hash recorded_hash enter_query_context resolve_gas_cost
    setup_call_context call_callee run_callee call_inherited
returning_member = (refl, refl)

-- The function throws, and the call context stays as it was set up for the callee.
throwing_member :
    ((called "valueOf").0 ≡ thrown (error native_type_error))
    × ((called "valueOf").1.context.call_context.circuit_id ≡ "valueOf")
unfolding called cross_contract_call ◌>>=◌ check_call_site assert_is_contract_address
    is_contract_address assert_not_default_contract_address assert_no_reentrancy identify_callee
    resolve_deployed_state resolve_module check_module_conformance check_conformance
    first_unreadable_tag signature_types_equal check_implementation deployed_hash
    verifier_key_hash_of as_verifier_key_hash recorded_hash enter_query_context resolve_gas_cost
    setup_call_context call_callee run_callee call_inherited
throwing_member = (refl, refl)
