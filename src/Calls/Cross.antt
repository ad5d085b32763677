-- ===== src/Calls/Cross.antt =====
-- `crossContractCall` of runtime/src/contract.ts, with its address checks and the guard against
-- re-entrancy.
use Prim.Native.String
use compact.Base.{
  ℕ, String, List, [], ◌∷◌, ◌++◌, Option, none, some, if◌then◌else◌, reentrancy_detected,
  native_type_error, Result, ok, err, expected_defined,
}
use compact.Base.Names.{quoted, lookup, member, add, delete}
use compact.Aligned.{AlignedValue}
use compact.Resolution.{error}
use compact.Context.{
  Ledger, CommunicationCommitmentData, CircuitContext, State, Outcome, returned, thrown, M, pure,
  get, modify, ◌>>=◌, ◌>>◌, assert_defined, throw, or_else,
}
use compact.Calls.Resolve.{Module, ProviderReply}
use compact.Calls.Enter.{
  enter_query_context, resolve_gas_cost, setup_call_context, restore_circuit_context,
}
use compact.Calls.Claim.{fr_hex_to_aligned_value, kernel_claim_contract_call, create_comm_comm_data}
use compact.Calls.Check.{
  ProvableCircuit, CrossContractCallOptions, Setting, callee, check_call_site, identify_callee,
}

-- `trace[trace.length - 1]`, and a change of it
abbrev pub last {ℓ} : {A : Type ℓ} → List A → Option A
last [] = none
last (x ∷ []) = some x
last (x ∷ y ∷ l) = last (y ∷ l)

abbrev pub alter_last {ℓ} : {A : Type ℓ} → (A → A) → List A → List A
alter_last f [] = []
alter_last f (x ∷ []) = f x ∷ []
alter_last f (x ∷ y ∷ l) = x ∷ alter_last f (y ∷ l)

abbrev pub of_result : {A : Type 0} → Result A → Outcome A
of_result (err e) = thrown (error e)
of_result (ok a) = returned a

abbrev pub last_of {ℓ} : {A : Type ℓ} → Option A → Outcome A
last_of none = thrown (error native_type_error)
last_of (some a) = returned a

-- The members that every plain object inherits, and those of them that return when they are called
-- with no object of their own.
abbrev pub object_prototype : List String
object_prototype =
    "constructor" ∷ "toString" ∷ "toLocaleString" ∷ "valueOf" ∷ "hasOwnProperty" ∷ "isPrototypeOf"
    ∷ "propertyIsEnumerable" ∷ "__defineGetter__" ∷ "__defineSetter__" ∷ "__lookupGetter__"
    ∷ "__lookupSetter__" ∷ "__proto__" ∷ []

abbrev pub returning_members : List String
returning_members = "constructor" ∷ "toString" ∷ []

module _ {l : Ledger} where
  abbrev pub lift : {A : Type 0} → Outcome A → M l A
  lift o s = (o, s)

  abbrev pub set_active : List String → State l → State l
  set_active active s = record s { world = record s.world { active_contracts = active } }

  unfoldable pub assert_no_reentrancy : String → M l (Unit {0})
  assert_no_reentrancy callee s =
      if member callee s.world.active_contracts
      then (thrown (error (reentrancy_detected callee)), s)
      else (returned tt, set_active (add callee s.world.active_contracts) s)

  -- `finally`
  abbrev pub finally :
      {A : Type 0} → (State l → State l) → Outcome A × State l → Outcome A × State l
  finally f (o, s) = (o, f s)

  abbrev pub remove_active : String → State l → State l
  remove_active callee s = set_active (delete callee s.world.active_contracts) s

  abbrev pub set_context : CircuitContext l → State l → State l
  set_context c s = record s { context = c }

  abbrev pub push_private : AlignedValue → State l → State l
  push_private v s = record s {
    proof = record s.proof {
      private_transcript_outputs = s.proof.private_transcript_outputs ++ v ∷ [];
    };
  }

  abbrev pub set_comm_comm_data : CommunicationCommitmentData → State l → State l
  set_comm_comm_data d s =
      set_context
        (record s.context {
          call_proof_data_trace =
              alter_last (λ t. record t { comm_comm_data = some d })
                s.context.call_proof_data_trace;
        })
        s

module _ {l : Ledger} {A R : Type 0} (e : Setting l A R)
    (options : CrossContractCallOptions A) where
  -- The callee runs in a context of its own.
  abbrev pub run_circuit : ProvableCircuit l A R → M l (R × CircuitContext l)
  run_circuit circuit s =
      let (o, w) = circuit options.args s.context s.world in (o, record s { world = w })

  -- What a member that a plain object inherits leads to: it is called like a circuit, and what it
  -- throws, or the missing context of its result, which is read after the caller's call context has
  -- been restored, is a TypeError.
  unfoldable pub call_inherited : ℕ → M l ⊥
  call_inherited place = do
    s ← get
    gas ← lift (resolve_gas_cost s.context options.callee_address)
    let call = s.context.call_context
    zswap ←
        assert_defined call.current_zswap_local_state
          (quoted "Zswap local state for calling contract " call.contract_address)
    let c =
        setup_call_context e.coins options.callee_circuit_id options.callee_address place gas
          zswap.coin_public_key s.context
    modify (
        set_context (
          if member options.callee_circuit_id returning_members
          then record c { call_context = call }
          else c))
    throw (error native_type_error)

  -- A circuit that the callee's module does not have.
  abbrev pub no_circuit : ℕ → M l ⊥
  no_circuit place =
      if member options.callee_circuit_id object_prototype
      then call_inherited place
      else throw (
          error (
            expected_defined (
              String.◌++◌ (quoted "" options.callee_circuit_id)
                (quoted " for callee " options.callee_address))))

  -- Step 9 up to the return of the callee.
  unfoldable pub run_callee : Module (ProvableCircuit l A R) → ℕ → M l R
  run_callee callee_module place = do
    let address = options.callee_address
    constructed ← lift callee_module.construction
    circuit ←
        or_else (lookup options.callee_circuit_id callee_module.provable_circuits)
          (no_circuit place)
    s ← get
    gas ← lift (resolve_gas_cost s.context address)
    let call = s.context.call_context
    zswap ←
        assert_defined call.current_zswap_local_state
          (quoted "Zswap local state for calling contract " call.contract_address)
    modify (
        set_context (
          setup_call_context e.coins options.callee_circuit_id address place gas
            zswap.coin_public_key s.context))
    s ← get
    (result, callee_context) ← run_circuit circuit
    modify (set_context (restore_circuit_context s.context call callee_context))
    pure result

  -- The rest of step 9.
  unfoldable pub claim_call : M l (Unit {0})
  claim_call = do
    s ← get
    trace ← lift (last_of (last s.context.call_proof_data_trace))
    let d =
        create_comm_comm_data e.platform e.randomness trace.proof_data.input trace.proof_data.output
    modify (set_comm_comm_data d)
    modify (push_private trace.proof_data.output)
    r ← lift (of_result (fr_hex_to_aligned_value e.platform d.comm_comm_rand))
    modify (push_private r)
    _ ←
        kernel_claim_contract_call e.platform e.ocrt e.vm options.callee_address
          options.callee_circuit_id d.comm_comm
    pure tt

  -- The body of `try`.
  unfoldable pub call_callee : (String → ProviderReply (ProvableCircuit l A R)) → M l R
  unfolding run_callee claim_call
  call_callee provider = do
    s ← get
    (deployed_state, callee_module) ← lift (identify_callee e options s.context provider)
    place ← enter_query_context e.vm options.callee_address deployed_state
    result ← run_callee callee_module place
    claim_call
    pure result

  abbrev pub guarded_call : (String → ProviderReply (ProvableCircuit l A R)) → M l R
  guarded_call provider s = finally (remove_active options.callee_address) (call_callee provider s)

  unfoldable pub cross_contract_call : M l R
  unfolding call_callee
  cross_contract_call = do
    s ← get
    provider ← lift (check_call_site e options s.context)
    assert_no_reentrancy options.callee_address
    guarded_call provider
