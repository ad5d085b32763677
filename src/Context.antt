-- ===== src/Context.antt =====
-- runtime/src/circuit-context.ts and runtime/src/proof-data.ts: the state that the circuits of one
-- transaction share.
--
-- A query context is an object of the onchain runtime that several places of the state refer to and
-- that a call changes in place. It is therefore a number here, a place in the list of all query
-- contexts; so is the set of active contracts, which the whole call tree shares. The two make up
-- the `World`; all else is copied before it is changed.
pub mod Create
pub mod Query
pub mod Steps
use compact.Base.{
  ℕ, zero, suc, ◌+◌, String, Bool, List, [], ◌∷◌, ◌++◌, Option, none, some, length, get_elem?, set,
  Error, message, expected_defined, native_type_error,
}
use compact.Base.Names.{Dict, lookup, insert}
use compact.Aligned.{AlignedValue}
use compact.Resolution.{Thrown, error}
use compact.Zswap.{
  EncodedBytes, EncodedZswapLocalState, ZswapLocalState, CoinEncoding, CoinPublicKey, plain,
  encoded, empty_zswap_local_state, encode_zswap_local_state,
}

pub record RunningCost : Type 0 where
  pub read_time : ℕ
  pub compute_time : ℕ
  pub bytes_written : ℕ
  pub bytes_deleted : ℕ

-- The types of the onchain runtime and of the application that are only passed on.
pub record Ledger : Type 1 where
  pub ChargedState : Type 0
  pub StateValue : Type 0
  pub Balance : Type 0
  pub no_balance : Balance
  pub Effects : Type 0
  pub no_effects : Effects
  pub Commitments : Type 0
  pub CostModel : Type 0
  pub PrivateState : Type 0
  pub LogContent : Type 0
  pub PopEq : Type 0
  pub Operation : Type 0

-- The block context of a query context, with the fields that the runtime sets.
pub record Block (l : Ledger) : Type 0 where
  pub balance : l.Balance
  pub own_address : String
  pub seconds_since_epoch : ℕ
  pub parent_block_hash : Option String
  pub caller : Option String

pub record QueryContext (l : Ledger) : Type 0 where
  pub state : l.ChargedState
  pub block : Block l
  pub effects : l.Effects
  pub com_indices : l.Commitments

-- `ocrt.ContractState | ocrt.StateValue | ocrt.ChargedState`
pub record ContractState (l : Ledger) : Type 0 where
  pub data_state : l.ChargedState
  pub balance : l.Balance
  -- `operation(circuitId)?.verifierKey`
  pub verifier_keys : Dict (List ℕ)

pub data AnyState (l : Ledger) : Type 0 where
  contract_state : ContractState l → AnyState l
  state_value : l.StateValue → AnyState l
  charged_state : l.ChargedState → AnyState l

-- An operation of a program. Those that a call itself issues stand out; a path is a list of keys.
pub data Op (l : Ledger) : Type 0 where
  popeq : l.PopEq → Op l
  swap dup concat ins : ℕ → Op l
  idx : List AlignedValue → Op l
  size push_null : Op l
  push_cell : AlignedValue → Op l
  other : l.Operation → Op l

-- An operation of a transcript: a `popeq` has its result.
pub data TranscriptOp (l : Ledger) : Type 0 where
  plain_op : Op l → TranscriptOp l
  popeq_result : l.PopEq → AlignedValue → TranscriptOp l

pub data GatherResult (l : Ledger) : Type 0 where
  read : AlignedValue → GatherResult l
  log : l.LogContent → GatherResult l

pub data QueryReply (l : Ledger) : Type 0 where
  failed : String → QueryReply l
  queried : QueryContext l → RunningCost → List (GatherResult l) → QueryReply l

-- The functions of the onchain runtime that work on query contexts.
pub record Vm (l : Ledger) : Type 0 where
  pub query : QueryContext l → List (Op l) → l.CostModel → Option RunningCost → QueryReply l
  -- `new ocrt.ChargedState(value)`
  pub charge : l.StateValue → l.ChargedState
  -- `new ocrt.QueryContext(state, address)`
  pub new_query_context : l.ChargedState → String → QueryContext l
  -- `insertCommitment`, and `comIndices.has`
  pub insert_commitment : QueryContext l → String → ℕ → QueryContext l
  pub has_commitment : QueryContext l → String → Bool

pub record CommunicationCommitmentData : Type 0 where
  pub comm_comm : String
  pub comm_comm_rand : String

pub record ProofData (l : Ledger) : Type 0 where
  pub input : AlignedValue
  pub output : AlignedValue
  pub public_transcript : List (TranscriptOp l)
  pub private_transcript_outputs : List AlignedValue

-- `ProofData` while the circuit runs, with no output yet
pub record PartialProofData (l : Ledger) : Type 0 where
  pub input : AlignedValue
  pub public_transcript : List (TranscriptOp l)
  pub private_transcript_outputs : List AlignedValue

-- The query contexts are places in the world.
pub record CallProofData (l : Ledger) : Type 0 where
  pub proof_data : ProofData l
  pub circuit_id : String
  pub contract_address : String
  pub initial_query_context : ℕ
  pub final_query_context : ℕ
  pub zswap_local_state : EncodedZswapLocalState
  pub comm_comm_data : Option CommunicationCommitmentData

pub record CallContext (l : Ledger) : Type 0 where
  pub circuit_id : String
  pub contract_address : String
  pub initial_query_context : ℕ
  pub current_query_context : ℕ
  pub current_gas_cost : RunningCost
  pub current_private_state : Option l.PrivateState
  pub current_zswap_local_state : Option EncodedZswapLocalState
  pub parent_block_hash : Option String
  pub time : ℕ

pub record LogEvent (l : Ledger) : Type 0 where
  pub content : l.LogContent
  pub address : String

-- The module provider, which nothing writes, is an argument of the functions that use it.
pub record CircuitContext (l : Ledger) : Type 0 where
  pub call_context : CallContext l
  pub query_contexts : Dict ℕ
  pub gas_costs : Dict RunningCost
  pub zswap_local_states : Dict EncodedZswapLocalState
  pub contract_states : Dict (ContractState l)
  pub cost_model : l.CostModel
  pub call_proof_data_trace : List (CallProofData l)
  pub gas_limit : Option RunningCost
  -- `getContractState(parentBlockHash, address)`
  pub state_provider : Option (String → String → Option (ContractState l))
  pub events : List (LogEvent l)

-- What is shared by reference.
pub record World (l : Ledger) : Type 0 where
  pub objects : List (QueryContext l)
  pub active_contracts : List String

-- The state of one circuit: the world, its context and its proof data.
pub record State (l : Ledger) : Type 0 where
  pub world : World l
  pub context : CircuitContext l
  pub proof : PartialProofData l

-- What a function that may throw leaves: its result or what it throws, and the state in both cases.
pub data Outcome {ℓ} (A : Type ℓ) : Type ℓ where
  returned : A → Outcome A
  thrown : Thrown → Outcome A

abbrev pub M : Ledger → Type 0 → Type 0
M l A = State l → Outcome A × State l

module _ {l : Ledger} where
  abbrev pub pure : {A : Type 0} → A → M l A
  pure a s = (returned a, s)

  abbrev pub throw : {A : Type 0} → Thrown → M l A
  throw e s = (thrown e, s)

  -- What comes after a call, unless it threw.
  abbrev pub follow : {A B : Type 0} → Outcome A × State l → (A → M l B) → Outcome B × State l
  follow (returned a, t) f = f a t
  follow (thrown e, t) f = (thrown e, t)

  infixl 5 ◌>>=◌ ◌>>◌
  unfoldable pub ◌>>=◌ : {A B : Type 0} → M l A → (A → M l B) → M l B
  ◌>>=◌ m f s = follow (m s) f

  abbrev pub ◌>>◌ : {B : Type 0} → M l (Unit {0}) → M l B → M l B
  m >> k = m >>= λ _. k

  abbrev pub get : M l (State l)
  get s = (returned s, s)

  abbrev pub modify : (State l → State l) → M l (Unit {0})
  modify f s = (returned tt, f s)

  -- A value, or where it is missing a step that throws.
  abbrev pub or_else : {A : Type 0} → Option A → M l ⊥ → M l A
  or_else none missing s = follow (missing s) (λ x. absurd x)
  or_else (some a) missing s = (returned a, s)

  -- `assertDefined(t, name)`
  abbrev pub assert_defined : {A : Type 0} → Option A → String → M l A
  assert_defined none name = throw (error (expected_defined name))
  assert_defined (some a) name = pure a
