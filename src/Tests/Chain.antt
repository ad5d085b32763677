-- ===== src/Tests/Chain.antt =====
-- A small ledger with two contracts.
use compact.Base.{ℕ, ◌+◌, String, true, List, [], ◌∷◌, ◌++◌, none, some, ok}
use compact.Base.Names.{member}
use compact.Codec.{atom, bytes}
use compact.Codec.Ocrt.{Ocrt}
use compact.Aligned.{AlignedValue}
use compact.Signature.{signature, CircuitSignatures, DeclaredInterface, SignatureType}
use compact.Zswap.{EncodedShieldedCoinInfo, EncodedZswapLocalState, CoinEncoding}
use compact.Context.{
  Ledger, Block, QueryContext, ContractState, queried, Vm, CallProofData, CallContext,
  CircuitContext, State, returned,
}
use compact.Context.Create.{empty_running_cost}
use compact.Calls.Resolve.{loaded, ProviderReply, thunk}
use compact.Calls.Claim.{CallPlatform}
use compact.Calls.Check.{ProvableCircuit, CrossContractCallOptions, Setting}

abbrev pub ledger : Ledger
ledger = record {
  ChargedState = ℕ;
  StateValue = ℕ;
  Balance = ℕ;
  no_balance = 0;
  Effects = ℕ;
  no_effects = 0;
  Commitments = List String;
  CostModel = Unit {0};
  PrivateState = ℕ;
  LogContent = ℕ;
  PopEq = ℕ;
  Operation = ℕ;
}

abbrev pub block : String → Block ledger
block address = record {
  balance = 0;
  own_address = address;
  seconds_since_epoch = 5;
  parent_block_hash = some "p";
  caller = none;
}

abbrev pub query_context : ℕ → String → QueryContext ledger
query_context state address = record {
  state = state;
  block = block address;
  effects = 0;
  com_indices = [];
}

-- A query counts as one effect, and returns no events.
abbrev pub vm : Vm ledger
vm = record {
  query =
      λ q program model limit. queried (record q { effects = q.effects + 1 }) empty_running_cost [];
  charge = λ v. v;
  new_query_context = query_context;
  insert_commitment = λ q hex i. record q { com_indices = hex ∷ q.com_indices };
  has_commitment = λ q hex. member hex q.com_indices;
}

abbrev pub bytes_2 : AlignedValue
bytes_2 = record { value = (1 ∷ 2 ∷ []) ∷ []; alignment = atom (bytes 2) ∷ [] }

abbrev pub small_ocrt : Ocrt
small_ocrt = record {
  max_field = 100;
  big_int_to_value = λ z. ok ((3 ∷ []) ∷ []);
  value_to_big_int = λ v. ok 3;
}

abbrev pub platform : CallPlatform
platform = record {
  from_hex = λ s. 1 ∷ 2 ∷ 0 ∷ [];
  encode_contract_address = λ s. 9 ∷ [];
  entry_point_hash = λ s. s;
  dummy_contract_address = "dummy";
  communication_commitment = λ input output randomness. randomness;
}

abbrev pub coin : EncodedShieldedCoinInfo
coin = record { nonce = []; color = []; value = 7 }

abbrev pub coins : CoinEncoding
coins = record {
  encode_coin_public_key = λ s. [];
  decode_coin_public_key = λ b. "";
  encode_contract_address = λ s. [];
  decode_contract_address = λ b. "";
  encode_shielded_coin_info = λ c. coin;
  decode_shielded_coin_info = λ c. record { color = ""; nonce = ""; value = 0 };
  encode_qualified_shielded_coin_info = λ c. record { coin = coin; mt_index = 0 };
  decode_qualified_shielded_coin_info =
      λ c. record { coin = record { color = ""; nonce = ""; value = 0 }; mt_index = 0 };
}

abbrev pub callee_address : String
callee_address = "00112233445566778899aabbccddeeff00112233445566778899aabbccddeeff"

abbrev pub key_hash : String
key_hash = "0123456789abcdef0123456789abcdef0123456789abcdef0123456789abcdef"

abbrev pub deployed : ContractState ledger
deployed = record { data_state = 4; balance = 2; verifier_keys = ("inc", 5 ∷ []) ∷ [] }

abbrev pub zswap : EncodedZswapLocalState
zswap = record {
  coin_public_key = record { bytes = 8 ∷ [] };
  current_index = 0;
  inputs = [];
  outputs = [];
}

-- The circuit adds an entry to the trace and returns 7.
abbrev pub traced : CallProofData ledger
traced = record {
  proof_data = record {
    input = bytes_2;
    output = bytes_2;
    public_transcript = [];
    private_transcript_outputs = [];
  };
  circuit_id = "inc";
  contract_address = callee_address;
  initial_query_context = 0;
  final_query_context = 0;
  zswap_local_state = zswap;
  comm_comm_data = none;
}

abbrev pub with_trace : CircuitContext ledger → CircuitContext ledger
with_trace c = record c { call_proof_data_trace = c.call_proof_data_trace ++ traced ∷ [] }

abbrev pub inc : ProvableCircuit ledger (Unit {0}) ℕ
inc args c w = (returned (7, with_trace c), w)

abbrev pub signatures : CircuitSignatures
signatures =
    (
      "inc",
      signature
          (record { argument_types = []; result_type = SignatureType.bytes 3; provable = true }),
    )
    ∷ []

abbrev pub declaration : DeclaredInterface
declaration = ("inc", record { argument_types = []; result_type = SignatureType.bytes 3 }) ∷ []

abbrev pub provider : String → ProviderReply (ProvableCircuit ledger (Unit {0}) ℕ)
provider address = thunk (
    loaded (record {
      construction = returned tt;
      provable_circuits = some (("inc", inc) ∷ []);
      circuit_signatures = some signatures;
      expected_vk = some (("inc", key_hash) ∷ []);
    }))

abbrev pub setting : Setting ledger (Unit {0}) ℕ
setting = record {
  vm = vm;
  ocrt = small_ocrt;
  platform = platform;
  coins = coins;
  hex_of_sha256 = λ key. key_hash;
  module_provider = some provider;
  randomness = "r";
}

abbrev pub options : CrossContractCallOptions (Unit {0})
options = record {
  interface_name = "T";
  declaration = declaration;
  callee_circuit_id = "inc";
  callee_address = callee_address;
  args = tt;
}

abbrev pub call_context : CallContext ledger
call_context = record {
  circuit_id = "main";
  contract_address = "a";
  initial_query_context = 0;
  current_query_context = 0;
  current_gas_cost = empty_running_cost;
  current_private_state = none;
  current_zswap_local_state = some zswap;
  parent_block_hash = some "p";
  time = 5;
}

abbrev pub context : CircuitContext ledger
context = record {
  call_context = call_context;
  query_contexts = ("a", 0) ∷ [];
  gas_costs = ("a", empty_running_cost) ∷ [];
  zswap_local_states = ("a", zswap) ∷ [];
  contract_states = [];
  cost_model = tt;
  call_proof_data_trace = [];
  gas_limit = none;
  state_provider = some (λ hash address. some deployed);
  events = [];
}

abbrev pub state : State ledger
state = record {
  world = record { objects = query_context 3 "a" ∷ []; active_contracts = "a" ∷ [] };
  context = context;
  proof = record { input = bytes_2; public_transcript = []; private_transcript_outputs = [] };
}
