-- ===== src/Zswap.antt =====
-- runtime/src/zswap.ts: the shielded coins of a call, as the ledger's types hold them and encoded as
-- bytes for the circuits.
pub mod Encoding
use compact.Base.{ℕ, String, Bool, List, [], map, Result, ok, ◌>>=◌}

pub record Recipient : Type 0 where
  pub is_left : Bool
  pub left : String
  pub right : String

-- Coins as the ledger's types hold them.
pub record ShieldedCoinInfo : Type 0 where
  pub color : String
  pub nonce : String
  pub value : ℕ

pub record QualifiedShieldedCoinInfo : Type 0 where
  pub coin : ShieldedCoinInfo
  pub mt_index : ℕ

pub record ZswapOutput : Type 0 where
  pub coin_info : ShieldedCoinInfo
  pub recipient : Recipient

pub record ZswapLocalState : Type 0 where
  pub coin_public_key : String
  pub current_index : ℕ
  pub inputs : List QualifiedShieldedCoinInfo
  pub outputs : List ZswapOutput

-- `EncodedCoinPublicKey` and `EncodedContractAddress`
pub record EncodedBytes : Type 0 where
  pub bytes : List ℕ

pub record EncodedShieldedCoinInfo : Type 0 where
  pub nonce : List ℕ
  pub color : List ℕ
  pub value : ℕ

pub record EncodedQualifiedShieldedCoinInfo : Type 0 where
  pub coin : EncodedShieldedCoinInfo
  pub mt_index : ℕ

pub record EncodedRecipient : Type 0 where
  pub is_left : Bool
  pub left : EncodedBytes
  pub right : EncodedBytes

pub record EncodedZswapOutput : Type 0 where
  pub coin_info : EncodedShieldedCoinInfo
  pub recipient : EncodedRecipient

pub record EncodedZswapLocalState : Type 0 where
  pub coin_public_key : EncodedBytes
  pub current_index : ℕ
  pub inputs : List EncodedQualifiedShieldedCoinInfo
  pub outputs : List EncodedZswapOutput

-- `ocrt.encodeCoinPublicKey`, `ocrt.encodeContractAddress`, `ocrt.encodeShieldedCoinInfo`,
-- `ocrt.encodeQualifiedShieldedCoinInfo` and their inverses.
pub record CoinEncoding : Type 0 where
  pub encode_coin_public_key : String → List ℕ
  pub decode_coin_public_key : List ℕ → String
  pub encode_contract_address : String → List ℕ
  pub decode_contract_address : List ℕ → String
  pub encode_shielded_coin_info : ShieldedCoinInfo → EncodedShieldedCoinInfo
  pub decode_shielded_coin_info : EncodedShieldedCoinInfo → ShieldedCoinInfo
  pub encode_qualified_shielded_coin_info :
      QualifiedShieldedCoinInfo → EncodedQualifiedShieldedCoinInfo
  pub decode_qualified_shielded_coin_info :
      EncodedQualifiedShieldedCoinInfo → QualifiedShieldedCoinInfo

-- `ocrt.CoinPublicKey | EncodedCoinPublicKey`
pub data CoinPublicKey : Type 0 where
  plain : String → CoinPublicKey
  encoded : EncodedBytes → CoinPublicKey

module _ (e : CoinEncoding) where
  abbrev pub encode_key : CoinPublicKey → EncodedBytes
  encode_key (plain key) = record { bytes = e.encode_coin_public_key key }
  encode_key (encoded key) = key

  unfoldable pub empty_zswap_local_state : CoinPublicKey → EncodedZswapLocalState
  empty_zswap_local_state key = record {
    coin_public_key = encode_key key;
    current_index = 0;
    inputs = [];
    outputs = [];
  }

  unfoldable pub encode_recipient : Recipient → EncodedRecipient
  encode_recipient r = record {
    is_left = r.is_left;
    left = record { bytes = e.encode_coin_public_key r.left };
    right = record { bytes = e.encode_contract_address r.right };
  }

  unfoldable pub decode_recipient : EncodedRecipient → Recipient
  decode_recipient r = record {
    is_left = r.is_left;
    left = e.decode_coin_public_key r.left.bytes;
    right = e.decode_contract_address r.right.bytes;
  }

  encode_output : ZswapOutput → EncodedZswapOutput
  unfolding encode_recipient
  encode_output o = record {
    coin_info = e.encode_shielded_coin_info o.coin_info;
    recipient = encode_recipient o.recipient;
  }

  decode_output : EncodedZswapOutput → ZswapOutput
  unfolding decode_recipient
  decode_output o = record {
    coin_info = e.decode_shielded_coin_info o.coin_info;
    recipient = decode_recipient o.recipient;
  }

  unfoldable pub encode_zswap_local_state : ZswapLocalState → EncodedZswapLocalState
  unfolding encode_output
  encode_zswap_local_state state = record {
    coin_public_key = record { bytes = e.encode_coin_public_key state.coin_public_key };
    current_index = state.current_index;
    inputs = map e.encode_qualified_shielded_coin_info state.inputs;
    outputs = map encode_output state.outputs;
  }

  unfoldable pub decode_zswap_local_state : EncodedZswapLocalState → ZswapLocalState
  unfolding decode_output
  decode_zswap_local_state state = record {
    coin_public_key = e.decode_coin_public_key state.coin_public_key.bytes;
    current_index = state.current_index;
    inputs = map e.decode_qualified_shielded_coin_info state.inputs;
    outputs = map decode_output state.outputs;
  }
