-- ===== src/Coins/Descriptors.antt =====
-- The descriptors of runtime/src/zswap.ts.
use compact.Base.{ℕ, ◌≤◌, ◌≡◌, refl, arith, List, ◌++◌, append_assoc, length}
use compact.Base.Bytes.{IsBytes}
use compact.Base.Int.{pos}
use compact.Codec.{Value}
use compact.Codec.Ocrt.{Ocrt, IsOcrt}
use compact.Codec.Laws.{Encodes, Fits-append}
use compact.Codec.Scalar.{compact_type_boolean, compact_type_bytes}
use compact.Codec.Scalar.Boolean.{boolean-IsCodec}
use compact.Codec.Scalar.Bytes.{compact_type_bytes-IsCodec}
use compact.Codec.Scalar.Unsigned.{unsigned-IsCodec}
use compact.Zswap.{EncodedBytes, EncodedShieldedCoinInfo, EncodedRecipient}
use compact.Coins.{
  encoded_bytes_descriptor, shielded_coin_recipient_descriptor, max_uint8_descriptor,
  shielded_coin_info_descriptor,
}

-- The 32 bytes of a key or of an address, or of a nonce or a color.
abbrev pub IsBytes32 : List ℕ → Type 0
IsBytes32 b = IsBytes b × (length b ≡ 32)

encoded_bytes-Encodes :
    (b : EncodedBytes) → IsBytes32 b.bytes → (v : Value) × Encodes encoded_bytes_descriptor b v
unfolding encoded_bytes_descriptor
encoded_bytes-Encodes b h =
    let (v, w) = (compact_type_bytes-IsCodec 32).encodes b.bytes h in
    (v, record { gives = w.gives; fits = w.fits; back = λ rest. rw (w.back rest) refl })

-- The descriptor of recipients encodes each whose key and address have 32 bytes, and decodes its
-- encoding.
pub recipient_descriptor-Encodes :
    (r : EncodedRecipient)
    → IsBytes32 r.left.bytes
    → IsBytes32 r.right.bytes
    → (v : Value) × Encodes shielded_coin_recipient_descriptor r v
unfolding shielded_coin_recipient_descriptor
recipient_descriptor-Encodes r hl hr =
    let (v, ev) = boolean-IsCodec.encodes r.is_left tt in
    let (x, ex) = encoded_bytes-Encodes r.left hl in
    let (y, ey) = encoded_bytes-Encodes r.right hr in
    let bytes = encoded_bytes_descriptor.alignment in
    (
      v ++ (x ++ y),
      record {
        gives = rw (ev.gives, ex.gives, ey.gives) refl;
        fits =
            Fits-append v (x ++ y) compact_type_boolean.alignment (bytes ++ bytes) ev.fits
              (Fits-append x y bytes bytes ex.fits ey.fits);
        back = λ rest.
            rw
              (
                append_assoc v (x ++ y) rest,
                append_assoc x y rest,
                ev.back (x ++ (y ++ rest)),
                ex.back (y ++ rest),
                ey.back rest,
              )
              refl;
      },
    )

-- With an encoding of field elements that has the documented laws and whose largest element has at
-- least 64 bits, the descriptor of shielded coins encodes each coin whose nonce and color have 32
-- bytes and whose value has 64 bits, to atoms that fit its alignment, and reads it back off the
-- front of any value.
pub coin_descriptor-Encodes :
    {o : Ocrt} (l : IsOcrt o) (large : 18446744073709551615 ≤ o.max_field)
    (c : EncodedShieldedCoinInfo)
    → IsBytes32 c.nonce
    → IsBytes32 c.color
    → c.value ≤ 18446744073709551615
    → (v : Value) × Encodes (shielded_coin_info_descriptor o) c v
unfolding shielded_coin_info_descriptor
coin_descriptor-Encodes {o} l large c hn hc hv =
    let bytes = compact_type_bytes 32 in
    let (v, ev) = (compact_type_bytes-IsCodec 32).encodes c.nonce hn in
    let (x, ex) = (compact_type_bytes-IsCodec 32).encodes c.color hc in
    let (y, ey) =
      (unsigned-IsCodec l 18446744073709551615 8 (omega arith) large).0.encodes (pos c.value)
        (c.value, refl, hv) in
    let amount = (max_uint8_descriptor o).alignment in
    (
      v ++ (x ++ y),
      record {
        gives = rw (ev.gives, ex.gives, ey.gives) refl;
        fits =
            Fits-append v (x ++ y) bytes.alignment (bytes.alignment ++ amount) ev.fits
              (Fits-append x y bytes.alignment amount ex.fits ey.fits);
        back = λ rest.
            rw
              (
                append_assoc v (x ++ y) rest,
                append_assoc x y rest,
                ev.back (x ++ (y ++ rest)),
                ex.back (y ++ rest),
                ey.back rest,
              )
              refl;
      },
    )
