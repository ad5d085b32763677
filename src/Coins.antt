-- ===== src/Coins.antt =====
-- runtime/src/zswap.ts: the operations on shielded coins of a circuit that runs.
pub mod Descriptors
pub mod Outputs
use compact.Base.{
  ℕ, ◌+◌, String, Bool, List, [], ◌∷◌, ◌++◌, Option, none, some, length, get_elem?, message,
  native_type_error, Result, ok, err, ◌>>=◌,
}
use compact.Base.Int.{ℤ, pos, negsuc}
use compact.Base.Names.{quoted, insert}
use compact.Codec.{CompactType}
use compact.Codec.Ocrt.{Ocrt}
use compact.Codec.Scalar.{compact_type_boolean, compact_type_bytes, compact_type_unsigned_integer}
use compact.Aligned.{AlignedValue}
use compact.Zswap.{
  EncodedBytes, EncodedShieldedCoinInfo, EncodedQualifiedShieldedCoinInfo, EncodedRecipient,
  EncodedZswapLocalState, EncodedZswapOutput,
}
use compact.Resolution.{error}
use compact.Context.{
  Ledger, QueryContext, Vm, CircuitContext, World, State, Outcome, returned, thrown, M,
}

-- A number that the unsigned type has decoded.
abbrev pub natural : ℤ → ℕ
natural (pos n) = n
natural (negsuc n) = 0

-- `ZswapCoinPublicKeyDescriptor` and `ContractAddressDescriptor`
unfoldable pub encoded_bytes_descriptor : CompactType EncodedBytes
encoded_bytes_descriptor = record {
  alignment = (compact_type_bytes 32).alignment;
  to_value = λ value. (compact_type_bytes 32).to_value value.bytes;
  from_value = λ value. do
    (bytes, rest) ← (compact_type_bytes 32).from_value value
    ok (record { bytes = bytes }, rest);
}

unfoldable pub shielded_coin_recipient_descriptor : CompactType EncodedRecipient
unfolding encoded_bytes_descriptor
shielded_coin_recipient_descriptor = record {
  alignment =
      compact_type_boolean.alignment
      ++ (encoded_bytes_descriptor.alignment ++ encoded_bytes_descriptor.alignment);
  to_value = λ value. do
    is_left ← compact_type_boolean.to_value value.is_left
    left ← encoded_bytes_descriptor.to_value value.left
    right ← encoded_bytes_descriptor.to_value value.right
    ok (is_left ++ (left ++ right));
  from_value = λ value. do
    (is_left, value) ← compact_type_boolean.from_value value
    (left, value) ← encoded_bytes_descriptor.from_value value
    (right, rest) ← encoded_bytes_descriptor.from_value value
    ok (record { is_left = is_left; left = left; right = right }, rest);
}

module _ (o : Ocrt) where
  -- `MaxUint8Descriptor`
  abbrev pub max_uint8_descriptor : CompactType ℤ
  max_uint8_descriptor = compact_type_unsigned_integer o 18446744073709551615 8

  unfoldable pub shielded_coin_info_descriptor : CompactType EncodedShieldedCoinInfo
  shielded_coin_info_descriptor = record {
    alignment =
        (compact_type_bytes 32).alignment
        ++ ((compact_type_bytes 32).alignment ++ max_uint8_descriptor.alignment);
    to_value = λ value. do
      nonce ← (compact_type_bytes 32).to_value value.nonce
      color ← (compact_type_bytes 32).to_value value.color
      amount ← max_uint8_descriptor.to_value (pos value.value)
      ok (nonce ++ (color ++ amount));
    from_value = λ value. do
      (nonce, value) ← (compact_type_bytes 32).from_value value
      (color, value) ← (compact_type_bytes 32).from_value value
      (amount, rest) ← max_uint8_descriptor.from_value value
      ok (record { nonce = nonce; color = color; value = natural amount }, rest);
  }

-- `ocrt.runtimeCoinCommitment`, and `toHex`, which is `Buffer.from(s).toString('hex')`.
pub record CoinPlatform : Type 0 where
  pub runtime_coin_commitment : AlignedValue → AlignedValue → AlignedValue
  pub to_hex : List ℕ → String

module _ (o : Ocrt) (p : CoinPlatform) where
  unfoldable pub create_coin_commitment :
      EncodedShieldedCoinInfo → EncodedRecipient → Result AlignedValue
  create_coin_commitment coin_info recipient = do
    coin ← (shielded_coin_info_descriptor o).to_value coin_info
    to ← shielded_coin_recipient_descriptor.to_value recipient
    ok (
        p.runtime_coin_commitment
          (record { value = coin; alignment = (shielded_coin_info_descriptor o).alignment })
          (record { value = to; alignment = shielded_coin_recipient_descriptor.alignment }))

  -- The commitment in hexadecimal, under which a query context has it.
  unfoldable pub commitment_hex : EncodedShieldedCoinInfo → EncodedRecipient → Result String
  unfolding create_coin_commitment
  commitment_hex coin_info recipient = do
    commitment ← create_coin_commitment coin_info recipient
    (bytes, rest) ← (compact_type_bytes 32).from_value commitment.value
    ok (p.to_hex bytes)

module _ {l : Ledger} where
  abbrev pub no_zswap_local_state : {B : Type 0} → State l → Outcome B × State l
  no_zswap_local_state s = (
    thrown (
        error (
          message (
            quoted "Zswap local state is undefined for contract "
              s.context.call_context.contract_address))),
    s,
  )

  -- Both the live cell and the one of the address.
  unfoldable pub set_current_zswap_local_state : EncodedZswapLocalState → State l → State l
  set_current_zswap_local_state next s =
      let c = s.context in
      record s {
        context = record c {
          call_context = record c.call_context { current_zswap_local_state = some next };
          zswap_local_states = insert c.call_context.contract_address next c.zswap_local_states;
        };
      }

  unfoldable pub set_current_query_context : QueryContext l → State l → State l
  set_current_query_context next s =
      let c = s.context in
      let place = length s.world.objects in
      record s {
        world = record s.world { objects = s.world.objects ++ next ∷ [] };
        context = record c {
          call_context = record c.call_context { current_query_context = place };
          query_contexts = insert c.call_context.contract_address place c.query_contexts;
        };
      }

  abbrev pub add_input :
      EncodedQualifiedShieldedCoinInfo → Option EncodedZswapLocalState → M l (Unit {0})
  add_input coin none s = no_zswap_local_state s
  add_input coin (some z) s =
      (returned tt, set_current_zswap_local_state (record z { inputs = z.inputs ++ coin ∷ [] }) s)

  unfoldable pub create_zswap_input : EncodedQualifiedShieldedCoinInfo → M l (Unit {0})
  unfolding set_current_zswap_local_state
  create_zswap_input coin s = add_input coin s.context.call_context.current_zswap_local_state s

  abbrev own_key : Option EncodedZswapLocalState → M l EncodedBytes
  own_key none s = no_zswap_local_state s
  own_key (some z) s = (returned z.coin_public_key, s)

  unfoldable pub own_public_key : M l EncodedBytes
  own_public_key s = own_key s.context.call_context.current_zswap_local_state s

  abbrev pub record_output :
      Vm l
      → EncodedShieldedCoinInfo
      → EncodedRecipient
      → EncodedZswapLocalState
      → Result String
      → Option (QueryContext l)
      → M l (Unit {0})
  record_output vm coin_info recipient z (err e) q s = (thrown (error e), s)
  record_output vm coin_info recipient z (ok hex) none s = (thrown (error native_type_error), s)
  record_output vm coin_info recipient z (ok hex) (some q) s = (
    returned tt,
    set_current_zswap_local_state
        (record z {
          current_index = z.current_index + 1;
          outputs = z.outputs ++ record { coin_info = coin_info; recipient = recipient } ∷ [];
        })
        (set_current_query_context (vm.insert_commitment q hex z.current_index) s),
  )

  -- The live query context.
  abbrev pub current : State l → Option (QueryContext l)
  current s = get_elem? s.world.objects s.context.call_context.current_query_context

  module _ (o : Ocrt) (p : CoinPlatform) (vm : Vm l) where
    abbrev pub add_output :
        EncodedShieldedCoinInfo → EncodedRecipient → Option EncodedZswapLocalState → M l (Unit {0})
    add_output coin_info recipient none s = no_zswap_local_state s
    add_output coin_info recipient (some z) s =
        record_output vm coin_info recipient z (commitment_hex o p coin_info recipient) (current s)
          s

    unfoldable pub create_zswap_output : EncodedShieldedCoinInfo → EncodedRecipient → M l (Unit {0})
    unfolding set_current_zswap_local_state set_current_query_context
    create_zswap_output coin_info recipient s =
        add_output coin_info recipient s.context.call_context.current_zswap_local_state s

    abbrev pub look_up_commitment : Result String → Option (QueryContext l) → Outcome Bool
    look_up_commitment (err e) q = thrown (error e)
    look_up_commitment (ok hex) none = thrown (error native_type_error)
    look_up_commitment (ok hex) (some q) = returned (vm.has_commitment q hex)

    unfoldable pub has_coin_commitment : EncodedShieldedCoinInfo → EncodedRecipient → M l Bool
    has_coin_commitment coin_info recipient s =
        (look_up_commitment (commitment_hex o p coin_info recipient) (current s), s)
