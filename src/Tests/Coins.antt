-- ===== src/Tests/Coins.antt =====
-- Coins of the small ledger.
use compact.Base.{ℕ, ◌≡◌, refl, arith, true, List, some, ok, replicate}
use compact.Base.Names.{lookup, same_iff}
use compact.Codec.{Value}
use compact.Codec.Laws.{Encodes}
use compact.Codec.Field.{compact_type_field}
use compact.Codec.Scalar.{
  compact_type_boolean, compact_type_bytes, compact_type_unsigned_integer, trim_end,
}
use compact.Zswap.{EncodedShieldedCoinInfo, EncodedRecipient}
use compact.Context.{returned}
use compact.Coins.{
  CoinPlatform, shielded_coin_info_descriptor, shielded_coin_recipient_descriptor,
  encoded_bytes_descriptor, create_coin_commitment, commitment_hex, current, create_zswap_output,
  has_coin_commitment,
}
use compact.Coins.Descriptors.{coin_descriptor-Encodes}
use compact.Coins.Outputs.{with_output, create_zswap_output_lem}
use compact.Tests.Runtime.{runtime, runtime-IsOcrt}
use compact.Tests.Chain.{vm, small_ocrt, bytes_2, coin, zswap, state, query_context}

abbrev thirty_two : List ℕ
thirty_two = replicate 32 1

abbrev full_coin : EncodedShieldedCoinInfo
full_coin = record { nonce = thirty_two; color = thirty_two; value = 7 }

coin_descriptor-Encodes_example :
    (v : Value) × Encodes (shielded_coin_info_descriptor runtime) full_coin v
coin_descriptor-Encodes_example =
    coin_descriptor-Encodes runtime-IsOcrt (omega (arith, runtime-IsOcrt.wide)) full_coin
      (ground arith, refl) (ground arith, refl) (omega arith)

abbrev recipient : EncodedRecipient
recipient = record {
  is_left = true;
  left = record { bytes = thirty_two };
  right = record { bytes = thirty_two };
}

abbrev platform : CoinPlatform
platform = record { runtime_coin_commitment = λ a b. bytes_2; to_hex = λ b. "c" }

committed : commitment_hex small_ocrt platform coin recipient ≡ ok "c"
unfolding commitment_hex create_coin_commitment shielded_coin_info_descriptor
    shielded_coin_recipient_descriptor encoded_bytes_descriptor compact_type_boolean
    compact_type_bytes compact_type_unsigned_integer compact_type_field trim_end
committed = refl

create_zswap_output_example :
    let r = create_zswap_output small_ocrt platform vm coin recipient state in
    (r.0 ≡ returned tt)
    × (current r.1 ≡ some (vm.insert_commitment (query_context 3 "a") "c" 0))
    × (r.1.context.call_context.current_zswap_local_state
        ≡ some (with_output small_ocrt platform vm coin recipient zswap))
    × (lookup "a" r.1.context.zswap_local_states
        ≡ some (with_output small_ocrt platform vm coin recipient zswap))
    × (has_coin_commitment small_ocrt platform vm coin recipient r.1 ≡ (returned true, r.1))
create_zswap_output_example =
    create_zswap_output_lem small_ocrt platform vm (λ q hex i. ground (arith, same_iff hex hex))
      coin recipient state zswap (query_context 3 "a") "c" refl refl committed
