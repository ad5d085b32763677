-- ===== src/Codec/Foreign/Laws.antt =====
-- `ForeignField8_24` of runtime/src/compact-types.ts.
use mathlib.Core.Path.{subst}
use compact.Base.{
  ℕ, ◌-◌, ◌*◌, ◌/◌, ◌^◌, ◌≤◌, ◌<◌, ◌≡◌, refl, arith, bit_and, bit_or, String, [], ◌∷◌, ltb-false,
  ok, >>=-eq-ok,
}
use compact.Base.Bits.{bit_and-mask}
use compact.Base.Int.{ℤ, pos, negsuc}
use compact.Codec.{Value}
use compact.Codec.Ocrt.{Ocrt, IsOcrt, atom_of, atom_fits}
use compact.Codec.Laws.{IsCodec, Encodes, Accepts, HasBytes}
use compact.Codec.Foreign.{foreign_field}
use compact.Codec.Foreign.Limbs.{less_one, plus_one, plus_one-less_one, less_one-le, join_limbs}

-- The values of a type with a maximum.
abbrev pub UpTo : ℕ → ℤ → Type 0
UpTo max z = (x : ℕ) × (z ≡ pos x) × (x ≤ max)

module _ {o : Ocrt} (l : IsOcrt o) (max : ℕ) (name : String) (bound : max < 2 ^ 256) where
  foreign-Encodes : (x : ℕ) → x ≤ max → (v : Value) × Encodes (foreign_field o max name) (pos x) v
  unfolding foreign_field
  foreign-Encodes x h =
      let w : ℕ = less_one max x in
      let w-le : w ≤ max = less_one-le max x h in
      let low-lt : bit_and w (2 ^ 192 - 1) < 2 ^ 192 = omega (arith, bit_and-mask 192 w) in
      let (a, low) = atom_of l (bit_and w (2 ^ 192 - 1)) (omega (arith, l.wide)) in
      let (b, high) = atom_of l (w / 2 ^ 192) (omega (arith, l.wide)) in
      (
        a ∷ b ∷ [],
        record {
          gives = rw (ltb-false max x h, low.gives, high.gives) refl;
          fits = (
            (low.is_bytes, low.is_normal, atom_fits 24 low low-lt),
            ((high.is_bytes, high.is_normal, atom_fits 8 high (omega arith)), tt),
          );
          back = λ rest.
              rw (low.reads, high.reads)
                (ground (arith, join_limbs 192 w, plus_one-less_one max x h, low-lt));
        },
      )

  foreign-decodes :
      (v rest : Value) (z : ℤ)
      → HasBytes v
      → (foreign_field o max name).from_value v ≡ ok (z, rest)
      → UpTo max z × HasBytes rest
  unfolding foreign_field
  foreign-decodes [] rest z _ h = cc
  foreign-decodes (a ∷ []) rest z _ h = cc
  foreign-decodes (a ∷ b ∷ v) rest z (_, (_, bs)) h =
      let (low, _, h') = >>=-eq-ok (o.value_to_big_int (a ∷ [])) _ h in
      let (high, _, k) = >>=-eq-ok (o.value_to_big_int (b ∷ [])) _ h' in
      let rest-eq : v ≡ rest = ground arith in
      (
        (plus_one max (bit_or (high * 2 ^ 192) low), ground arith, ground arith),
        subst HasBytes rest-eq bs,
      )

  foreign-accepts : (z : ℤ) (v : Value) → (foreign_field o max name).to_value z ≡ ok v → UpTo max z
  unfolding foreign_field
  foreign-accepts (negsuc n) v h = cc
  foreign-accepts (pos x) v h = (x, refl, ground arith)

  -- ForeignField8_24 with a maximum below 2 ^ 256 is a codec of the numbers from 0 to the maximum,
  -- with an encoding of field elements that has the documented laws: each is written as two atoms
  -- within 24 and 8 bytes, which the decoder takes off the front of any value and reads as that
  -- number; the decoder reads no other number, and the encoder throws on any other.
  pub foreign_field-IsCodec :
      IsCodec (foreign_field o max name) (UpTo max) × Accepts (foreign_field o max name) (UpTo max)
  foreign_field-IsCodec = (
    record { encodes = λ z h. rw h.1 (foreign-Encodes h.0 h.2); decodes = foreign-decodes },
    foreign-accepts,
  )
