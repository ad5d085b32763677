-- ===== src/Context/Create.antt =====
-- The construction of the state in runtime/src/circuit-context.ts.
use compact.Base.{ℕ, ◌+◌, String, [], ◌∷◌, ◌++◌, Option, none, some, if◌then◌else◌}
use compact.Base.Names.{same, quoted}
use compact.Zswap.{
  EncodedZswapLocalState, ZswapLocalState, CoinEncoding, CoinPublicKey, empty_zswap_local_state,
  encode_zswap_local_state,
}
use compact.Context.{
  Ledger, RunningCost, QueryContext, ContractState, AnyState, contract_state, state_value,
  charged_state, Vm, ProofData, CallContext, CircuitContext, World, M, get, modify, assert_defined,
  ◌>>=◌,
}

unfoldable pub empty_running_cost : RunningCost
empty_running_cost = record {
  read_time = 0;
  compute_time = 0;
  bytes_written = 0;
  bytes_deleted = 0;
}

unfoldable pub add_running_cost : RunningCost → RunningCost → RunningCost
add_running_cost a b = record {
  read_time = a.read_time + b.read_time;
  compute_time = a.compute_time + b.compute_time;
  bytes_written = a.bytes_written + b.bytes_written;
  bytes_deleted = a.bytes_deleted + b.bytes_deleted;
}

-- `coinPublicKeyOrZswapState`
pub data ZswapInput : Type 0 where
  zswap_local_state : ZswapLocalState → ZswapInput
  encoded_zswap_local_state : EncodedZswapLocalState → ZswapInput
  coin_public_key : CoinPublicKey → ZswapInput

module _ {l : Ledger} (vm : Vm l) where
  abbrev pub coerce_to_charged_state : AnyState l → l.ChargedState
  coerce_to_charged_state (contract_state s) = s.data_state
  coerce_to_charged_state (state_value v) = vm.charge v
  coerce_to_charged_state (charged_state s) = s

  abbrev pub balance_of : AnyState l → l.Balance
  balance_of (contract_state s) = s.balance
  balance_of _ = l.no_balance

  -- `if (parentBlockHash) ...`: neither `undefined` nor the empty text is taken.
  abbrev pub or_given : Option String → Option String → Option String
  or_given default none = default
  or_given default (some hash) = if same hash "" then default else some hash

  abbrev pub or_caller : Option String → Option String → Option String
  or_caller default none = default
  or_caller default (some caller) = some caller

  unfoldable pub create_initial_query_context :
      AnyState l → String → ℕ → Option String → Option String → QueryContext l
  create_initial_query_context state address time parent_block_hash caller =
      let q = vm.new_query_context (coerce_to_charged_state state) address in
      record q {
        block = record {
          balance = balance_of state;
          own_address = address;
          seconds_since_epoch = time;
          parent_block_hash = or_given q.block.parent_block_hash parent_block_hash;
          caller = or_caller q.block.caller caller;
        };
      }

  abbrev pub initial_zswap : CoinEncoding → ZswapInput → EncodedZswapLocalState
  initial_zswap e (zswap_local_state s) = encode_zswap_local_state e s
  initial_zswap e (encoded_zswap_local_state s) = s
  initial_zswap e (coin_public_key k) = empty_zswap_local_state e k

  pub record CircuitContextOptions : Type 0 where
    pub circuit_id : String
    pub contract_address : String
    pub zswap_input : ZswapInput
    pub state : AnyState l
    pub private_state : l.PrivateState
    pub gas_limit : Option RunningCost
    pub cost_model : l.CostModel
    pub time : ℕ
    pub parent_block_hash : Option String
    pub state_provider : Option (String → String → Option (ContractState l))

  -- `createCallContext` with no caller. The new query context takes the next place.
  unfoldable pub create_call_context : CoinEncoding → CircuitContextOptions → ℕ → CallContext l
  create_call_context e options place = record {
    circuit_id = options.circuit_id;
    contract_address = options.contract_address;
    initial_query_context = place;
    current_query_context = place;
    current_gas_cost = empty_running_cost;
    current_private_state = some options.private_state;
    current_zswap_local_state = some (initial_zswap e options.zswap_input);
    parent_block_hash = options.parent_block_hash;
    time = options.time;
  }

  unfoldable pub create_circuit_context :
      CoinEncoding → CircuitContextOptions → World l × CircuitContext l
  unfolding create_call_context
  create_circuit_context e options =
      let call = create_call_context e options 0 in
      (
        record {
          objects =
              create_initial_query_context options.state options.contract_address options.time
                options.parent_block_hash none
              ∷ [];
          active_contracts = options.contract_address ∷ [];
        },
        record {
          call_context = call;
          query_contexts = (options.contract_address, call.current_query_context) ∷ [];
          gas_costs = (options.contract_address, call.current_gas_cost) ∷ [];
          zswap_local_states = (options.contract_address, initial_zswap e options.zswap_input) ∷ [];
          contract_states = [];
          cost_model = options.cost_model;
          call_proof_data_trace = [];
          gas_limit = options.gas_limit;
          state_provider = options.state_provider;
          events = [];
        },
      )

module _ {l : Ledger} where
  -- One more entry of the trace, for the circuit that ends.
  unfoldable pub finalize_call_proof_data : ProofData l → M l (Unit {0})
  finalize_call_proof_data proof_data = do
    s ← get
    let call = s.context.call_context
    zswap ←
        assert_defined call.current_zswap_local_state
          (quoted "Zswap local state for contract " call.contract_address)
    modify λ s. record s {
      context = record s.context {
        call_proof_data_trace =
            s.context.call_proof_data_trace
            ++ record {
              proof_data = proof_data;
              circuit_id = call.circuit_id;
              contract_address = call.contract_address;
              initial_query_context = call.initial_query_context;
              final_query_context = call.current_query_context;
              zswap_local_state = zswap;
              comm_comm_data = none;
            }
              ∷ [];
      };
    }

-- runtime/src/constructor-context.ts
pub record ConstructorContext (PrivateState : Type 0) : Type 0 where
  pub initial_private_state : PrivateState
  pub initial_zswap_local_state : EncodedZswapLocalState

pub create_constructor_context :
    {PrivateState : Type 0}
    → CoinEncoding
    → PrivateState
    → CoinPublicKey
    → ConstructorContext PrivateState
create_constructor_context e initial_private_state key = record {
  initial_private_state = initial_private_state;
  initial_zswap_local_state = empty_zswap_local_state e key;
}
