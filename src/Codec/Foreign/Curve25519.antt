-- ===== src/Codec/Foreign/Curve25519.antt =====
-- `CompactTypeCurve25519Scalar` of runtime/src/compact-types.ts.
use mathlib.Core.Path.{subst}
use compact.Base.{
  ℕ, ◌-◌, ◌*◌, ◌/◌, ◌^◌, ◌≤◌, ◌<◌, ◌≡◌, refl, arith, bit_and, bit_or, [], ◌∷◌, ltb-false, ok,
  >>=-eq-ok,
}
use compact.Base.Bits.{bit_and-mask}
use compact.Base.Int.{ℤ, pos, negsuc}
use compact.Codec.{Value}
use compact.Codec.Ocrt.{Ocrt, IsOcrt, atom_of, atom_fits}
use compact.Codec.Laws.{IsCodec, Encodes, Accepts, HasBytes}
use compact.Codec.Foreign.{compact_type_curve25519_scalar}
use compact.Codec.Foreign.Limbs.{less_one, plus_one, plus_one-less_one, less_one-le, join_limbs}
use compact.Constants.{max_curve25519_scalar}
use compact.Codec.Foreign.Laws.{UpTo}

abbrev max : ℕ
max = max_curve25519_scalar

module _ {o : Ocrt} (l : IsOcrt o) where
  curve25519_scalar-Encodes :
      (x : ℕ) → x ≤ max → (v : Value) × Encodes (compact_type_curve25519_scalar o) (pos x) v
  unfolding compact_type_curve25519_scalar
  curve25519_scalar-Encodes x h =
      let w : ℕ = less_one max x in
      let w-le : w ≤ max = less_one-le max x h in
      let low-lt : bit_and w (2 ^ 204 - 1) < 2 ^ 204 = omega (arith, bit_and-mask 204 w) in
      let (a, low) = atom_of l (bit_and w (2 ^ 204 - 1)) (omega (arith, l.wide)) in
      let (b, high) = atom_of l (w / 2 ^ 204) (omega (arith, l.wide)) in
      (
        a ∷ b ∷ [],
        record {
          gives = rw (ltb-false max x h, low.gives, high.gives) refl;
          fits = (
            (low.is_bytes, low.is_normal, atom_fits 26 low (omega arith)),
            ((high.is_bytes, high.is_normal, atom_fits 7 high (omega arith)), tt),
          );
          back = λ rest.
              rw (low.reads, high.reads)
                (ground (arith, join_limbs 204 w, plus_one-less_one max x h, low-lt));
        },
      )

  curve25519_scalar-decodes :
      (v rest : Value) (z : ℤ)
      → HasBytes v
      → (compact_type_curve25519_scalar o).from_value v ≡ ok (z, rest)
      → UpTo max z × HasBytes rest
  unfolding compact_type_curve25519_scalar
  curve25519_scalar-decodes [] rest z _ h = cc
  curve25519_scalar-decodes (a ∷ []) rest z _ h = cc
  curve25519_scalar-decodes (a ∷ b ∷ v) rest z (_, (_, bs)) h =
      let (low, _, h') = >>=-eq-ok (o.value_to_big_int (a ∷ [])) _ h in
      let (high, _, k) = >>=-eq-ok (o.value_to_big_int (b ∷ [])) _ h' in
      let rest-eq : v ≡ rest = ground arith in
      (
        (plus_one max (bit_or (high * 2 ^ 204) low), ground arith, ground arith),
        subst HasBytes rest-eq bs,
      )

  curve25519_scalar-accepts :
      (z : ℤ) (v : Value) → (compact_type_curve25519_scalar o).to_value z ≡ ok v → UpTo max z
  unfolding compact_type_curve25519_scalar
  curve25519_scalar-accepts (negsuc n) v h = cc
  curve25519_scalar-accepts (pos x) v h = (x, refl, ground arith)

  -- CompactTypeCurve25519Scalar is a codec of the numbers from 0 to the largest scalar, with an
  -- encoding of field elements that has the documented laws: each is written as two atoms within
  -- 26 and 7 bytes and read back as itself; the decoder reads no other number, and the encoder
  -- throws on any other.
  pub curve25519_scalar-IsCodec :
      IsCodec (compact_type_curve25519_scalar o) (UpTo max)
      × Accepts (compact_type_curve25519_scalar o) (UpTo max)
  curve25519_scalar-IsCodec = (
    record {
      encodes = λ z h. rw h.1 (curve25519_scalar-Encodes h.0 h.2);
      decodes = curve25519_scalar-decodes;
    },
    curve25519_scalar-accepts,
  )
