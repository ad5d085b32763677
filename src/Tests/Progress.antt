-- ===== src/Tests/Progress.antt =====
-- A call between the two contracts of the small ledger that returns, and one that finds no circuit.
use Prim.Native.String
use compact.Base.{refl, ℕ, ◌≡◌, List, ◌∷◌, [], ◌++◌, some, expected_defined}
use compact.Tests.Chain.{
  ledger, signatures, key_hash, setting, options, callee_address, state, deployed, context, zswap,
}
use compact.Tests.Calls.{state-IsRunning}
use compact.Tests.Runs.{closing, closing_provider, with_closing}
use compact.Context.Create.{finalize_call_proof_data}
use compact.Context.{◌>>=◌, returned, State, thrown}
use compact.Calls.Enter.{setup_call_context, resolve_deployed_state}
use compact.Calls.Progress.Returning.{
  CompletesFrom, cross_contract_call_returns, Entered, cross_contract_call_no_circuit,
}
use compact.Calls.Check.{
  check_call_site, identify_callee, ProvableCircuit, assert_is_contract_address,
  is_contract_address, assert_not_default_contract_address, Setting,
}
use compact.Calls.Claim.{
  fr_hex_to_aligned_value, call_claim, contract_address_to_value, circuit_id_to_value,
}
use compact.Calls.Resolve.{
  Module, resolve_module, check_module_conformance, check_implementation, deployed_hash,
  recorded_hash, ProviderReply, thunk, loaded,
}
use compact.Conformance.{check_conformance, first_unreadable_tag, signature_types_equal}
use compact.Codec.Scalar.{compact_type_bytes, compact_type_unsigned_integer}
use compact.Codec.Field.{compact_type_field}
use compact.Calls.Cross.{last, cross_contract_call, remove_active}
use compact.Resolution.{verifier_key_hash_of, as_verifier_key_hash, error}
use Prim.Native.String.{String}
use compact.Base.Names.{quoted}

last-append_one {ℓ} : {A : Type ℓ} (l : List A) (a : A) → last (l ++ a ∷ []) ≡ some a
last-append_one [] a = refl
last-append_one (x ∷ []) a = refl
last-append_one (x ∷ y ∷ l) a = last-append_one (y ∷ l) a

-- A call of the circuit that ends at once, from the context that the call sets up.
closing-CompletesFrom : CompletesFrom with_closing options state deployed zswap closing
unfolding closing finalize_call_proof_data ◌>>=◌ setup_call_context fr_hex_to_aligned_value
    call_claim contract_address_to_value circuit_id_to_value compact_type_bytes
    compact_type_unsigned_integer compact_type_field
closing-CompletesFrom u place gas entered cost h = record {
  result = 7;
  left = _;
  world = u.world;
  entry = _;
  returns = refl;
  continued = record {
    running = h;
    same_active = refl;
    same_address = refl;
    others = λ k active ne. (refl, refl);
    kept = λ k kept. kept;
  };
  traced = last-append_one u.context.call_proof_data_trace _;
  randomness = _;
  encoded = refl;
  index = _;
  claim = _;
  claimed = refl;
  accepted = λ q here. (_, _, _, refl);
}

abbrev closing_module : Module (ProvableCircuit ledger (Unit {0}) ℕ)
closing_module = record {
  construction = returned tt;
  provable_circuits = ("inc", closing) ∷ [];
  circuit_signatures = signatures;
  expected_vk = ("inc", key_hash) ∷ [];
}

site : check_call_site with_closing options context ≡ returned closing_provider
unfolding check_call_site assert_is_contract_address is_contract_address
    assert_not_default_contract_address
site = refl

identified :
    identify_callee with_closing options context closing_provider
    ≡ returned (deployed, closing_module)
unfolding identify_callee resolve_deployed_state resolve_module check_module_conformance
    check_conformance first_unreadable_tag signature_types_equal check_implementation deployed_hash
    verifier_key_hash_of as_verifier_key_hash recorded_hash
identified = refl

cross_contract_call_returns_example :
    (r : ℕ) × (t : State ledger) × (cross_contract_call with_closing options state
      ≡ (returned r, t))
cross_contract_call_returns_example =
    cross_contract_call_returns with_closing options state state-IsRunning site refl identified refl
      refl refl closing-CompletesFrom

-- The same module without its circuit.
abbrev empty_provider : String → ProviderReply (ProvableCircuit ledger (Unit {0}) ℕ)
empty_provider address = thunk (
    loaded (record {
      construction = returned tt;
      provable_circuits = some [];
      circuit_signatures = some signatures;
      expected_vk = some (("inc", key_hash) ∷ []);
    }))

abbrev without_circuit : Setting ledger (Unit {0}) ℕ
without_circuit = record setting { module_provider = some empty_provider }

empty_site : check_call_site without_circuit options context ≡ returned empty_provider
unfolding check_call_site assert_is_contract_address is_contract_address
    assert_not_default_contract_address
empty_site = refl

empty_identified :
    identify_callee without_circuit options context empty_provider
    ≡ returned (deployed, record closing_module { provable_circuits = [] })
unfolding identify_callee resolve_deployed_state resolve_module check_module_conformance
    check_conformance first_unreadable_tag signature_types_equal check_implementation deployed_hash
    verifier_key_hash_of as_verifier_key_hash recorded_hash
empty_identified = refl

cross_contract_call_no_circuit_example :
    (u : State ledger) × (place : ℕ) × Entered without_circuit options state u place
    × (cross_contract_call without_circuit options state ≡ (
      thrown (
          error (
            expected_defined
              (String.◌++◌ (quoted "" "inc") (quoted " for callee " callee_address)))),
      remove_active callee_address u,
    ))
cross_contract_call_no_circuit_example =
    cross_contract_call_no_circuit without_circuit options state state-IsRunning empty_site refl
      empty_identified refl refl refl
