-- ===== src/Calls/Enter.antt =====
-- The state of a callee in runtime/src/contract.ts: where it is found, and how the circuit context
-- is handed to the callee and back.
use compact.Base.{
  ℕ, String, [], ◌∷◌, ◌++◌, Option, none, some, length, alter, expected_defined, gas_cost_not_found,
}
use compact.Base.Names.{quoted, lookup, insert}
use compact.Zswap.{
  EncodedBytes, EncodedZswapLocalState, CoinEncoding, encoded, empty_zswap_local_state,
}
use compact.Resolution.{error}
use compact.Context.{
  Ledger, RunningCost, QueryContext, ContractState, contract_state, Vm, CallContext, CircuitContext,
  State, Outcome, returned, thrown, M,
}
use compact.Context.Create.{empty_running_cost, create_initial_query_context}

abbrev pub require : {A : Type 0} → Option A → String → Outcome A
require none name = thrown (error (expected_defined name))
require (some a) name = returned a

abbrev pub cost_or_bug : String → Option RunningCost → Outcome RunningCost
cost_or_bug callee none = thrown (error (gas_cost_not_found callee))
cost_or_bug callee (some cost) = returned cost

abbrev pub zswap_state_or :
    CoinEncoding → EncodedBytes → Option EncodedZswapLocalState → EncodedZswapLocalState
zswap_state_or e key none = empty_zswap_local_state e (encoded key)
zswap_state_or e key (some state) = state

module _ {l : Ledger} where
  abbrev pub fetch_state : CircuitContext l → String → Outcome (ContractState l)
  fetch_state c callee = elim (c.state_provider) [
    | none ↦ thrown (error (expected_defined (quoted "state provider for call to " callee)))
    | some get_contract_state ↦ elim (c.call_context.parent_block_hash) [
      | none ↦
          thrown (
            error (expected_defined (quoted "parent block hash to fetch state for callee " callee)))
      | some hash ↦
          require (get_contract_state hash callee) (quoted "contract state for callee " callee)
    ]
  ]

  unfoldable pub resolve_deployed_state : CircuitContext l → String → Outcome (ContractState l)
  resolve_deployed_state c callee = elim (lookup callee c.query_contexts) [
    | some place ↦
        require (lookup callee c.contract_states)
          (quoted "deployed contract state for callee " callee)
    | none ↦ fetch_state c callee
  ]

  -- The context of an earlier call, for the next caller and with no effects.
  abbrev pub renew : String → QueryContext l → QueryContext l
  renew caller q = record q {
    block = record q.block { caller = some caller };
    effects = l.no_effects;
  }

  -- The object itself is changed.
  abbrev pub reuse_query_context : ℕ → State l → State l
  reuse_query_context place s = record s {
    world = record s.world {
      objects = alter (renew s.context.call_context.contract_address) s.world.objects place;
    };
  }

  module _ (vm : Vm l) where
    abbrev pub add_query_context : String → ContractState l → String → State l → State l
    add_query_context callee deployed_state hash s =
        let c = s.context in
        let place = length s.world.objects in
        let q =
          create_initial_query_context vm (contract_state deployed_state) callee c.call_context.time
            (some hash) (some c.call_context.contract_address) in
        record s {
          world = record s.world { objects = s.world.objects ++ q ∷ [] };
          context = record c {
            contract_states = insert callee deployed_state c.contract_states;
            query_contexts = insert callee place c.query_contexts;
            gas_costs = insert callee empty_running_cost c.gas_costs;
          };
        }

    abbrev pub enter_at :
        String → ContractState l → Option ℕ → Option String → State l → Outcome ℕ × State l
    enter_at callee deployed_state (some place) hash s =
        (returned place, reuse_query_context place s)
    enter_at callee deployed_state none none s =
        (thrown (error (expected_defined (quoted "parent block hash to enter callee " callee))), s)
    enter_at callee deployed_state none (some hash) s =
        (returned (length s.world.objects), add_query_context callee deployed_state hash s)

    unfoldable pub enter_query_context : String → ContractState l → M l ℕ
    enter_query_context callee deployed_state s =
        enter_at callee deployed_state (lookup callee s.context.query_contexts)
          s.context.call_context.parent_block_hash s

  unfoldable pub resolve_gas_cost : CircuitContext l → String → Outcome RunningCost
  resolve_gas_cost c callee = cost_or_bug callee (lookup callee c.gas_costs)

  -- `??=`: an assignment of the value that is there changes nothing.
  unfoldable pub setup_call_context :
      CoinEncoding
      → String
      → String
      → ℕ
      → RunningCost
      → EncodedBytes
      → CircuitContext l
      → CircuitContext l
  setup_call_context e circuit_id contract_address place cost caller_coin_public_key c =
      let zswap =
        zswap_state_or e caller_coin_public_key (lookup contract_address c.zswap_local_states) in
      record c {
        zswap_local_states = insert contract_address zswap c.zswap_local_states;
        call_context = record c.call_context {
          circuit_id = circuit_id;
          contract_address = contract_address;
          initial_query_context = place;
          current_query_context = place;
          current_gas_cost = cost;
          current_private_state = none;
          current_zswap_local_state = some zswap;
        };
      }

  -- `restoreCallContext` takes over all fields of the call context.
  unfoldable pub restore_circuit_context :
      CircuitContext l → CallContext l → CircuitContext l → CircuitContext l
  restore_circuit_context caller caller_call_context callee = record caller {
    call_context = caller_call_context;
    query_contexts = callee.query_contexts;
    gas_costs = callee.gas_costs;
    zswap_local_states = callee.zswap_local_states;
    contract_states = callee.contract_states;
    call_proof_data_trace = callee.call_proof_data_trace;
    events = callee.events;
  }
