-- ===== src/Codec/Field.antt =====
-- The runtime types of one field element.
use mathlib.Core.Path.{subst}
use compact.Base.{
  ℕ, ◌≤◌, ◌≡◌, refl, [], ◌∷◌, Result, ok, err, Error, expected, ◌>>=◌, arith, >>=-eq-ok,
}
use compact.Base.Int.{ℤ, pos}
use compact.Codec.{Value, Atom, atom, field, CompactType}
use compact.Codec.Ocrt.{Ocrt, IsOcrt, IsFieldElement, atom_of, atom_fits}
use compact.Codec.Laws.{IsCodec, Encodes, Accepts, HasBytes}

-- `value.shift()` with the check for `undefined`.
abbrev pub shift : Error → Value → Result (Atom × Value)
shift e [] = err e
shift e (a ∷ rest) = ok (a, rest)

unfoldable pub compact_type_field : Ocrt → CompactType ℤ
compact_type_field o = record {
  alignment = atom field ∷ [];
  to_value = λ value. o.big_int_to_value value;
  from_value = λ value. do
    (val, rest) ← shift (expected "Field") value
    x ← o.value_to_big_int (val ∷ [])
    ok (pos x, rest);
}

module _ {o : Ocrt} (l : IsOcrt o) where
  field-Encodes : (x : ℕ) → x ≤ o.max_field → (v : Value) × Encodes (compact_type_field o) (pos x) v
  unfolding compact_type_field
  field-Encodes x h =
      let (a, w) = atom_of l x h in
      (
        a ∷ [],
        record {
          gives = w.gives;
          fits = ((w.is_bytes, w.is_normal, atom_fits 32 w (omega (arith, l.narrow))), tt);
          back = λ rest. rw w.reads refl;
        },
      )

  field-decodes :
      (v rest : Value) (z : ℤ)
      → HasBytes v
      → (compact_type_field o).from_value v ≡ ok (z, rest)
      → IsFieldElement o z × HasBytes rest
  unfolding compact_type_field
  field-decodes [] rest z b h = cc
  field-decodes (a ∷ v) rest z (_, b) h =
      let (x, read, same) = >>=-eq-ok (o.value_to_big_int (a ∷ [])) _ h in
      let z-eq : z ≡ pos x = ground arith in
      let rest-eq : v ≡ rest = ground arith in
      ((x, z-eq, l.decodes_only (a ∷ []) x read), subst HasBytes rest-eq b)

  -- CompactTypeField is a codec of the field elements, with an encoding of field elements that has
  -- the documented laws, and its encoder throws on any other number.
  pub field-IsCodec :
      IsCodec (compact_type_field o) (IsFieldElement o)
      × Accepts (compact_type_field o) (IsFieldElement o)
  unfolding compact_type_field
  field-IsCodec = (
    record { encodes = λ z h. rw h.1 (field-Encodes h.0 h.2); decodes = field-decodes },
    l.encodes_only,
  )
