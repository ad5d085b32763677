-- ===== src/Codec/Scalar/Unsigned.antt =====
-- `CompactTypeUnsignedInteger` of runtime/src/compact-types.ts.
use mathlib.Core.Path.{subst}
use native.Mathlib.Numerals.{towards_suc}
use compact.Base.{ℕ, ◌+◌, ◌*◌, ◌^◌, ◌≤◌, ◌<◌, ◌≡◌, refl, ap, ◌∙◌, arith, [], ◌∷◌, ltb-false, ok}
use compact.Base.Bytes.{le_value}
use compact.Base.Int.{ℤ, pos, negsuc}
use compact.Codec.{Value, Atom}
use compact.Codec.Ocrt.{Ocrt, IsOcrt, atom_of, atom_fits}
use compact.Codec.Field.{compact_type_field}
use compact.Codec.Foreign.Laws.{UpTo}
use compact.Codec.Laws.{IsCodec, Encodes, Accepts, HasBytes}
use compact.Codec.Scalar.{unsigned_sum, compact_type_unsigned_integer}

-- The weight of the next byte.
pub weight_suc : (i : ℕ) → 2 ^ (8 * (i + 1)) ≡ 256 * 2 ^ (8 * i)
weight_suc i =
    let more : 8 * (i + 1) ≡ 8 * i + 8 = omega arith in rw more (simp towards_suc (omega arith))

unsigned_sum_lem : (res i : ℕ) (a : Atom) → unsigned_sum res i a ≡ res + 2 ^ (8 * i) * le_value a
unfolding unsigned_sum
unsigned_sum_lem res i [] = omega arith
unsigned_sum_lem res i (b ∷ a) =
    unsigned_sum_lem (res + 2 ^ (8 * i) * b) (i + 1) a
    ∙ omega (arith, ap (λ (t : ℕ). t * le_value a) (weight_suc i))

unsigned_sum-le_value : (a : Atom) → unsigned_sum 0 0 a ≡ le_value a
unsigned_sum-le_value a = unsigned_sum_lem 0 0 a ∙ omega arith

module _ {o : Ocrt} (l : IsOcrt o) (max len : ℕ) (fits : max < 256 ^ len)
    (small : max ≤ o.max_field) where
  unsigned-Encodes :
      (x : ℕ) → x ≤ max → (v : Value) × Encodes (compact_type_unsigned_integer o max len) (pos x) v
  unfolding compact_type_unsigned_integer compact_type_field
  unsigned-Encodes x h =
      let (a, w) = atom_of l x (omega arith) in
      let read : unsigned_sum 0 0 a ≡ x = unsigned_sum-le_value a ∙ w.value in
      (
        a ∷ [],
        record {
          gives = rw (ltb-false max x h) w.gives;
          fits = ((w.is_bytes, w.is_normal, atom_fits len w (omega arith)), tt);
          back = λ rest. ground (arith, read);
        },
      )

  unsigned-decodes :
      (v rest : Value) (z : ℤ)
      → HasBytes v
      → (compact_type_unsigned_integer o max len).from_value v ≡ ok (z, rest)
      → UpTo max z × HasBytes rest
  unfolding compact_type_unsigned_integer
  unsigned-decodes [] rest z b h = cc
  unsigned-decodes (a ∷ v) rest z (_, b) h =
      let rest-eq : v ≡ rest = ground arith in
      ((unsigned_sum 0 0 a, ground arith, ground arith), subst HasBytes rest-eq b)

  unsigned-accepts : Accepts (compact_type_unsigned_integer o max len) (UpTo max)
  unfolding compact_type_unsigned_integer
  unsigned-accepts (negsuc n) v h = cc
  unsigned-accepts (pos x) v h = (x, refl, ground arith)

  -- CompactTypeUnsignedInteger is a codec of the integers from 0 to its maximum, where the maximum
  -- is a field element and fits into the length of the type, with an encoding of field elements
  -- that has the documented laws: the decoder reads no other number, and the encoder throws on any
  -- other.
  pub unsigned-IsCodec :
      IsCodec (compact_type_unsigned_integer o max len) (UpTo max)
      × Accepts (compact_type_unsigned_integer o max len) (UpTo max)
  unsigned-IsCodec = (
    record { encodes = λ z h. rw h.1 (unsigned-Encodes h.0 h.2); decodes = unsigned-decodes },
    unsigned-accepts,
  )
