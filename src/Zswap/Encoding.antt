-- ===== src/Zswap/Encoding.antt =====
-- The encoding of the Zswap local state in runtime/src/zswap.ts.
use compact.Base.{◌≡◌, refl, String, List, [], ◌∷◌, map}
use compact.Zswap.{
  Recipient, ShieldedCoinInfo, QualifiedShieldedCoinInfo, ZswapOutput, ZswapLocalState,
  CoinEncoding, encode_recipient, decode_recipient, encode_output, decode_output,
  encode_zswap_local_state, decode_zswap_local_state,
}

-- What is documented of the encodings: each decoding inverts its encoding.
pub record IsCoinEncoding (e : CoinEncoding) : Type 0 where
  pub key : (k : String) → e.decode_coin_public_key (e.encode_coin_public_key k) ≡ k
  pub address : (a : String) → e.decode_contract_address (e.encode_contract_address a) ≡ a
  pub coin :
      (c : ShieldedCoinInfo) → e.decode_shielded_coin_info (e.encode_shielded_coin_info c) ≡ c
  pub qualified_coin :
      (c : QualifiedShieldedCoinInfo)
      → e.decode_qualified_shielded_coin_info (e.encode_qualified_shielded_coin_info c) ≡ c

map-map_id :
    {A B : Type 0} (f : A → B) (g : B → A) (l : List A)
    → ((x : A) → g (f x) ≡ x)
    → map g (map f l) ≡ l
map-map_id f g [] h = refl
map-map_id f g (x ∷ l) h = cc (h x, map-map_id f g l h)

module _ {e : CoinEncoding} (l : IsCoinEncoding e) where
  recipient_round_trip : (r : Recipient) → decode_recipient e (encode_recipient e r) ≡ r
  unfolding decode_recipient encode_recipient
  recipient_round_trip r = cc (l.key r.left, l.address r.right)

  output_round_trip : (o : ZswapOutput) → decode_output e (encode_output e o) ≡ o
  unfolding decode_output encode_output
  output_round_trip o = rw (l.coin o.coin_info, recipient_round_trip o.recipient) refl

  pub zswap_local_state_round_trip :
      (s : ZswapLocalState) → decode_zswap_local_state e (encode_zswap_local_state e s) ≡ s
  unfolding decode_zswap_local_state encode_zswap_local_state
  zswap_local_state_round_trip s =
      rw
        (
          l.key s.coin_public_key,
          map-map_id e.encode_qualified_shielded_coin_info e.decode_qualified_shielded_coin_info
              s.inputs l.qualified_coin,
          map-map_id (encode_output e) (decode_output e) s.outputs output_round_trip,
        )
        refl
