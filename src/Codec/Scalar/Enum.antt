-- ===== src/Codec/Scalar/Enum.antt =====
-- `CompactTypeEnum` of runtime/src/compact-types.ts, whose decoder shifts 32-bit integers.
use mathlib.Core.Path.{subst}
use compact.Base.{ℕ, ◌*◌, ◌^◌, ◌≤◌, ◌<◌, ◌≡◌, refl, ◌∙◌, arith, [], ◌∷◌, ltb-false, ok, length}
use compact.Base.Bytes.{le_value}
use compact.Base.Int.{pos, negsuc}
use compact.Codec.{Value, Atom}
use compact.Codec.Ocrt.{Ocrt, IsOcrt, atom_of, atom_fits}
use compact.Codec.Field.{compact_type_field}
use compact.Codec.Laws.{IsCodec, Encodes, Accepts, HasBytes}
use compact.Codec.Scalar.{Number, integer, fraction, enum_sum, compact_type_enum}

enum_sum-le_value : (a : Atom) → length a ≤ 4 → enum_sum 0 0 a ≡ le_value a
unfolding enum_sum
enum_sum-le_value [] h = refl
enum_sum-le_value (p ∷ []) h = omega arith
enum_sum-le_value (p ∷ q ∷ []) h = omega arith
enum_sum-le_value (p ∷ q ∷ r ∷ []) h = omega arith
enum_sum-le_value (p ∷ q ∷ r ∷ s ∷ []) h = omega arith
enum_sum-le_value (p ∷ q ∷ r ∷ s ∷ t ∷ a) h = absurd (omega arith)

abbrev pub EnumUpTo : ℕ → Number → Type 0
EnumUpTo max n = (x : ℕ) × (n ≡ integer (pos x)) × (x ≤ max)

module _ {o : Ocrt} (l : IsOcrt o) (max len : ℕ) (fits : max < 256 ^ len)
    (small : max < 2 ^ 32) where
  enum-Encodes :
      (x : ℕ) → x ≤ max → (v : Value) × Encodes (compact_type_enum o max len) (integer (pos x)) v
  unfolding compact_type_enum compact_type_field
  enum-Encodes x h =
      let (a, w) = atom_of l x (omega (arith, l.wide)) in
      let read : enum_sum 0 0 a ≡ x = enum_sum-le_value a (atom_fits 4 w (omega arith)) ∙ w.value in
      (
        a ∷ [],
        record {
          gives = rw (ltb-false max x h) w.gives;
          fits = ((w.is_bytes, w.is_normal, atom_fits len w (omega arith)), tt);
          back = λ rest. ground (arith, read);
        },
      )

  enum-decodes :
      (v rest : Value) (n : Number)
      → HasBytes v
      → (compact_type_enum o max len).from_value v ≡ ok (n, rest)
      → EnumUpTo max n × HasBytes rest
  unfolding compact_type_enum
  enum-decodes [] rest n b h = cc
  enum-decodes (a ∷ v) rest n (_, b) h =
      let rest-eq : v ≡ rest = ground arith in
      ((enum_sum 0 0 a, ground arith, ground arith), subst HasBytes rest-eq b)

  enum-accepts : Accepts (compact_type_enum o max len) (EnumUpTo max)
  unfolding compact_type_enum
  enum-accepts fraction v h = cc
  enum-accepts (integer (negsuc n)) v h = cc
  enum-accepts (integer (pos x)) v h = (x, refl, ground arith)

  -- CompactTypeEnum is a codec of the integers from 0 to its maximum, where the maximum is below 2
  -- ^ 32 and fits into the length of the type, with an encoding of field elements that has the
  -- documented laws: the decoder reads no other number, and the encoder throws on any other.
  pub enum-IsCodec :
      IsCodec (compact_type_enum o max len) (EnumUpTo max)
      × Accepts (compact_type_enum o max len) (EnumUpTo max)
  enum-IsCodec = (
    record { encodes = λ n h. rw h.1 (enum-Encodes h.0 h.2); decodes = enum-decodes },
    enum-accepts,
  )

-- An atom of four bytes 0 and a fifth byte x up to the maximum, whose number is x * 2 ^ 32, is
-- read as x by the enum's decoder.
pub enum_five_bytes :
    (o : Ocrt) (max len x : ℕ) (rest : Value)
    → x ≤ max
    → (le_value (0 ∷ 0 ∷ 0 ∷ 0 ∷ x ∷ []) ≡ x * 2 ^ 32)
      × ((compact_type_enum o max len).from_value ((0 ∷ 0 ∷ 0 ∷ 0 ∷ x ∷ []) ∷ rest)
          ≡ ok (integer (pos x), rest))
unfolding compact_type_enum
enum_five_bytes o max len x rest h = (omega arith, ground arith)
