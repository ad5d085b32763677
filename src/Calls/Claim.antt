-- ===== src/Calls/Claim.antt =====
-- The claim of a call on the caller's transcript in runtime/src/contract.ts, the kernel's
-- `claimContractCall`.
use compact.Base.{ℕ, String, List, [], ◌∷◌, Option, length, take, message, Result, ok, err, ◌>>=◌}
use compact.Base.Int.{pos}
use compact.Codec.{atom, field, CompactType}
use compact.Codec.Ocrt.{Ocrt}
use compact.Codec.Scalar.{trim_end, compact_type_bytes, compact_type_unsigned_integer}
use compact.Aligned.{AlignedValue, aligned_concat}
use compact.Resolution.{error}
use compact.Context.{
  Ledger, Op, swap, dup, concat, ins, idx, size, push_null, push_cell, Vm,
  CommunicationCommitmentData, M, thrown,
}
use compact.Context.Query.{query_ledger_state}

-- The functions of `ocrt` and of the platform that a call uses.
pub record CallPlatform : Type 0 where
  -- `Buffer.from(s, 'hex')`
  pub from_hex : String → List ℕ
  pub encode_contract_address : String → List ℕ
  pub entry_point_hash : String → String
  pub dummy_contract_address : String
  pub communication_commitment : AlignedValue → AlignedValue → String → String

-- `{ value: type.toValue(x), alignment: type.alignment() }`
abbrev pub aligned_of : {A : Type 0} → CompactType A → A → Result AlignedValue
aligned_of type x = do
  value ← type.to_value x
  ok (record { value = value; alignment = type.alignment })

module _ (p : CallPlatform) where
  unfoldable pub contract_address_to_value : String → Result AlignedValue
  contract_address_to_value address =
      aligned_of (compact_type_bytes 32) (p.encode_contract_address address)

  unfoldable pub circuit_id_to_value : String → Result AlignedValue
  circuit_id_to_value circuit_id =
      aligned_of (compact_type_bytes 32) (p.from_hex (p.entry_point_hash circuit_id))

  -- The bytes after the marker, with no zeros at their end.
  abbrev pub field_atom : List ℕ → Result AlignedValue
  field_atom [] = err (message "empty Fr hex encoding")
  field_atom (marker ∷ le_bytes) = ok (record {
    value = take (trim_end le_bytes (length le_bytes)) le_bytes ∷ [];
    alignment = atom field ∷ [];
  })

  unfoldable pub fr_hex_to_aligned_value : String → Result AlignedValue
  fr_hex_to_aligned_value fr_hex = field_atom (p.from_hex fr_hex)

  -- The operations, with the index of the kernel's state and the claim.
  abbrev pub claim_program : {l : Ledger} → AlignedValue → AlignedValue → List (Op l)
  claim_program index claim =
      swap 0
      ∷ idx (index ∷ [])
      ∷ dup 0
      ∷ size
      ∷ push_cell claim
      ∷ concat 160
      ∷ push_null
      ∷ ins 2
      ∷ swap 0
      ∷ []

  unfoldable pub call_claim : Ocrt → String → String → String → Result (AlignedValue × AlignedValue)
  unfolding contract_address_to_value circuit_id_to_value fr_hex_to_aligned_value
  call_claim o callee_address callee_circuit_id comm_comm = do
    index ← aligned_of (compact_type_unsigned_integer o 255 1) (pos 3)
    address ← contract_address_to_value callee_address
    circuit_id ← circuit_id_to_value callee_circuit_id
    commitment ← fr_hex_to_aligned_value comm_comm
    ok (index, aligned_concat (address ∷ circuit_id ∷ commitment ∷ []))

  abbrev pub query_claim :
      {l : Ledger} → Vm l → Result (AlignedValue × AlignedValue) → M l (Option AlignedValue)
  query_claim vm (err e) s = (thrown (error e), s)
  query_claim vm (ok (index, claim)) s = query_ledger_state vm (claim_program index claim) s

  unfoldable pub kernel_claim_contract_call :
      {l : Ledger} → Ocrt → Vm l → String → String → String → M l (Option AlignedValue)
  unfolding call_claim
  kernel_claim_contract_call o vm callee_address callee_circuit_id comm_comm =
      query_claim vm (call_claim o callee_address callee_circuit_id comm_comm)

  unfoldable pub create_comm_comm_data :
      String → AlignedValue → AlignedValue → CommunicationCommitmentData
  create_comm_comm_data randomness input output = record {
    comm_comm = p.communication_commitment input output randomness;
    comm_comm_rand = randomness;
  }
