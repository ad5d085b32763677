-- ===== src/Codec/Scalar/Opaque.antt =====
-- The opaque types of runtime/src/compact-types.ts; strings go through the platform's UTF-8.
use mathlib.Core.Path.{subst}
use compact.Base.{ℕ, ◌≡◌, refl, arith, String, List, [], ◌∷◌, ok}
use compact.Base.Bytes.{IsBytes}
use compact.Codec.{Value}
use compact.Codec.Laws.{IsCodec, HasBytes}
use compact.Codec.Scalar.{TextCoder, compact_type_opaque_uint8_array, compact_type_opaque_string}

opaque_uint8_array-decodes :
    (v rest : Value) (a : List ℕ)
    → HasBytes v
    → compact_type_opaque_uint8_array.from_value v ≡ ok (a, rest)
    → IsBytes a × HasBytes rest
unfolding compact_type_opaque_uint8_array
opaque_uint8_array-decodes [] rest a bs h = cc
opaque_uint8_array-decodes (b ∷ v) rest a (hb, bs) h =
    let a-eq : b ≡ a = ground arith in
    let rest-eq : v ≡ rest = ground arith in (subst IsBytes a-eq hb, subst HasBytes rest-eq bs)

-- `Opaque<'Uint8Array'>`: the decoder inverts the encoder on byte arrays.
pub opaque_uint8_array-IsCodec : IsCodec compact_type_opaque_uint8_array IsBytes
unfolding compact_type_opaque_uint8_array
opaque_uint8_array-IsCodec = record {
  encodes = λ a h. (a ∷ [], record { gives = refl; fits = (h, tt); back = λ rest. refl });
  decodes = opaque_uint8_array-decodes;
}

-- What the platform documents of UTF-8: encoded text is bytes, and decodes to itself.
pub record IsTextCoder (t : TextCoder) : Type 0 where
  pub is_bytes : (s : String) → IsBytes (t.encode s)
  pub decodes : (s : String) → t.decode (t.encode s) ≡ s

opaque_string-decodes :
    (t : TextCoder) (v rest : Value) (s : String)
    → HasBytes v
    → (compact_type_opaque_string t).from_value v ≡ ok (s, rest)
    → Unit {0} × HasBytes rest
unfolding compact_type_opaque_string
opaque_string-decodes t [] rest s bs h = cc
opaque_string-decodes t (b ∷ v) rest s (_, bs) h =
    let rest-eq : v ≡ rest = ground arith in (tt, subst HasBytes rest-eq bs)

-- `Opaque<'string'>`: the decoder inverts the encoder.
pub opaque_string-IsCodec :
    (t : TextCoder) → IsTextCoder t → IsCodec (compact_type_opaque_string t) (λ _. Unit {0})
unfolding compact_type_opaque_string
opaque_string-IsCodec t l = record {
  encodes = λ s _. (
    t.encode s ∷ [],
    record { gives = refl; fits = (l.is_bytes s, tt); back = λ rest. rw (l.decodes s) refl },
  );
  decodes = opaque_string-decodes t;
}
