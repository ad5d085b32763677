-- ===== src/Codec/Point/Laws.antt =====
-- The types of points with an identity flag in runtime/src/compact-types.ts.
use mathlib.Core.Path.{subst}
use compact.Base.{
  ◌&&◌, ◌==◌, ℕ, ◌≤◌, ◌≡◌, refl, ap, ◌∙◌, arith, String, Bool, true, false, if◌then◌else◌, List, [],
  ◌∷◌, ◌++◌, append_assoc, length, length-append, ltb, ltb-false, Result, ok, >>=-eq-ok, Error,
  if_err-eq-ok, expected, not,
}
use compact.Base.Int.{ℤ, pos}
use compact.Codec.{Value, CompactType, atom, field, Atom}
use compact.Codec.Ocrt.{Ocrt, IsOcrt, IsAtomOf, atom_of, atom_fits}
use compact.Codec.Laws.{IsCodec, Encodes, Fits, Fits-append, HasBytes, length-Fits}
use compact.Codec.Foreign.{foreign_field, compact_type_secp256k1_base, compact_type_secp256r1_base}
use compact.Codec.Foreign.Laws.{UpTo, foreign_field-IsCodec}
use compact.Codec.Point.{
  FlaggedPoint, flagged_point, compact_type_secp256k1_point, compact_type_secp256r1_point, shift,
}
use compact.Constants.{max_secp256k1_base, max_secp256r1_base}

shift-HasBytes :
    (e : Error) (v : Value) {a : Atom} {rest : Value}
    → HasBytes v
    → shift e v ≡ ok (a, rest)
    → HasBytes rest
shift-HasBytes e [] b h = cc
shift-HasBytes e (x ∷ v) {rest} (_, b) h = let rest-eq : v ≡ rest = cc in subst HasBytes rest-eq b

returned :
    {x y : ℤ} {b : Bool} {v rest : Value} {p : FlaggedPoint}
    → ◌≡◌ {A = Result (FlaggedPoint × Value)}
        (ok (record { x = x; y = y; identity = b }, v))
        (ok (p, rest))
    → (x ≡ p.x) × (y ≡ p.y) × (v ≡ rest)
returned h = ground arith

-- What is left of a point: the identity has the coordinates 0.
abbrev pub canonical : FlaggedPoint → FlaggedPoint
canonical p = record {
  x = if p.identity then pos 0 else p.x;
  y = if p.identity then pos 0 else p.y;
  identity = p.identity;
}

module _ {o : Ocrt} (l : IsOcrt o) {max : ℕ} (base : CompactType ℤ) (c : IsCodec base (UpTo max))
    (two : length base.alignment ≡ 2) (name : String) where
  coordinate : (b : Bool) (z : ℤ) → UpTo max z → UpTo max (if b then pos 0 else z)
  coordinate true z h = (0, refl, omega arith)
  coordinate false z h = h

  flag_atom : (b : Bool) → (a : List ℕ) × IsAtomOf o a (if b then 1 else 0)
  flag_atom true = atom_of l 1 (omega (arith, l.wide))
  flag_atom false = atom_of l 0 (omega arith)

  -- Two encodings and the atom of a flag, read back.
  module _ {x y : ℤ} {v w : Value} (ex : Encodes base x v) (ey : Encodes base y w) (a : List ℕ)
      (rest : Value) where
    whole : (v ++ (w ++ a ∷ [])) ++ rest ≡ v ++ (w ++ a ∷ rest)
    whole = append_assoc v (w ++ a ∷ []) rest ∙ ap (λ t. v ++ t) (append_assoc w (a ∷ []) rest)

    long : ltb (length (v ++ (w ++ a ∷ rest))) 5 ≡ false
    long = ltb-false _ 5 (
        omega (
          arith,
          length-append v (w ++ a ∷ rest),
          length-append w (a ∷ rest),
          length-Fits v base.alignment ex.fits,
          length-Fits w base.alignment ey.fits,
        ))

    flagged_read :
        (b : Bool)
        → IsAtomOf o a (if b then 1 else 0)
        → (flagged_point o base name).from_value ((v ++ (w ++ a ∷ [])) ++ rest)
          ≡ ok (record { x = x; y = y; identity = b }, rest)
    unfolding flagged_point
    flagged_read true ea =
        rw (whole, long, ex.back (w ++ a ∷ rest), ey.back (a ∷ rest), ea.reads) refl
    flagged_read false ea =
        rw (whole, long, ex.back (w ++ a ∷ rest), ey.back (a ∷ rest), ea.reads) refl

  flag_gives :
      (b : Bool) {a : List ℕ}
      → IsAtomOf o a (if b then 1 else 0)
      → o.big_int_to_value (if b then pos 1 else pos 0) ≡ ok (a ∷ [])
  flag_gives true e = e.gives
  flag_gives false e = e.gives

  flag_fits : (b : Bool) {a : List ℕ} → IsAtomOf o a (if b then 1 else 0) → length a ≤ 32
  flag_fits true e = atom_fits 32 e (omega arith)
  flag_fits false e = atom_fits 32 e (omega arith)

  pub flagged-Encodes :
      (p : FlaggedPoint)
      → UpTo max p.x
      → UpTo max p.y
      → (v : Value) × ((flagged_point o base name).to_value p ≡ ok v)
        × Fits v (flagged_point o base name).alignment
        × ((rest : Value)
            → (flagged_point o base name).from_value (v ++ rest) ≡ ok (canonical p, rest))
  unfolding flagged_point
  flagged-Encodes p hx hy =
      let (v, ex) = c.encodes (canonical p).x (coordinate p.identity p.x hx) in
      let (w, ey) = c.encodes (canonical p).y (coordinate p.identity p.y hy) in
      let (a, ea) = flag_atom p.identity in
      let last : Fits (a ∷ []) (atom field ∷ []) =
        ((ea.is_bytes, ea.is_normal, flag_fits p.identity ea), tt) in
      (
        v ++ (w ++ a ∷ []),
        rw (ex.gives, ey.gives, flag_gives p.identity ea) refl,
        Fits-append v (w ++ a ∷ []) _ _ ex.fits (Fits-append w (a ∷ []) _ _ ey.fits last),
        λ rest. flagged_read ex ey a rest p.identity ea,
      )

  pub flagged-decodes :
      (v rest : Value) (p : FlaggedPoint)
      → HasBytes v
      → (flagged_point o base name).from_value v ≡ ok (p, rest)
      → UpTo max p.x × UpTo max p.y × HasBytes rest
  unfolding flagged_point
  flagged-decodes v rest p b h =
      let (_, h_0) = if_err-eq-ok (ltb (length v) 5) (expected name) _ h in
      let ((x, v_1), read_x, h_1) = >>=-eq-ok (base.from_value v) _ h_0 in
      let ((y, v_2), read_y, h_2) = >>=-eq-ok (base.from_value v_1) _ h_1 in
      let ((a, v_3), shifted, h_3) = >>=-eq-ok (shift (expected name) v_2) _ h_2 in
      let (flag, _, h_4) = >>=-eq-ok (o.value_to_big_int (a ∷ [])) _ h_3 in
      let (_, h_5) = if_err-eq-ok (not (flag == 0) && not (flag == 1)) (expected name) _ h_4 in
      let (valid_x, b_1) = c.decodes v v_1 x b read_x in
      let (valid_y, b_2) = c.decodes v_1 v_2 y b_1 read_y in
      let (x-eq, y-eq, rest-eq) = returned h_5 in
      (
        subst (UpTo max) x-eq valid_x,
        subst (UpTo max) y-eq valid_y,
        subst HasBytes rest-eq (shift-HasBytes (expected name) v_2 b_2 shifted),
      )

module _ {o : Ocrt} (l : IsOcrt o) where
  two_limbs : (max : ℕ) (name : String) → length (foreign_field o max name).alignment ≡ 2
  unfolding foreign_field
  two_limbs max name = refl

  -- A secp256k1 point with coordinates in the base field is written to atoms that fit the
  -- alignment of its type, and they are read back off the front of any value as the point, the
  -- identity with the coordinates 0, with an encoding of field elements that has the documented
  -- laws.
  pub secp256k1_point_round_trip :
      (p : FlaggedPoint)
      → UpTo max_secp256k1_base p.x
      → UpTo max_secp256k1_base p.y
      → (v : Value) × ((compact_type_secp256k1_point o).to_value p ≡ ok v)
        × Fits v (compact_type_secp256k1_point o).alignment
        × ((rest : Value)
            → (compact_type_secp256k1_point o).from_value (v ++ rest) ≡ ok (canonical p, rest))
  unfolding compact_type_secp256k1_point compact_type_secp256k1_base
  secp256k1_point_round_trip =
      flagged-Encodes l (compact_type_secp256k1_base o)
        (foreign_field-IsCodec l max_secp256k1_base "Secp256k1Base" (omega arith)).0
        (two_limbs max_secp256k1_base "Secp256k1Base") "Secp256k1Point"

  -- A secp256r1 point with coordinates in the base field is written to atoms that fit the
  -- alignment of its type, and they are read back off the front of any value as the point, the
  -- identity with the coordinates 0, with an encoding of field elements that has the documented
  -- laws.
  pub secp256r1_point_round_trip :
      (p : FlaggedPoint)
      → UpTo max_secp256r1_base p.x
      → UpTo max_secp256r1_base p.y
      → (v : Value) × ((compact_type_secp256r1_point o).to_value p ≡ ok v)
        × Fits v (compact_type_secp256r1_point o).alignment
        × ((rest : Value)
            → (compact_type_secp256r1_point o).from_value (v ++ rest) ≡ ok (canonical p, rest))
  unfolding compact_type_secp256r1_point compact_type_secp256r1_base
  secp256r1_point_round_trip =
      flagged-Encodes l (compact_type_secp256r1_base o)
        (foreign_field-IsCodec l max_secp256r1_base "Secp256r1Base" (omega arith)).0
        (two_limbs max_secp256r1_base "Secp256r1Base") "Secp256r1Point"

  -- Every secp256k1 point that the decoder reads off a value of bytes has both coordinates in the
  -- base field, and what is left of the value is bytes, with an encoding of field elements that
  -- has the documented laws.
  pub secp256k1_point_decodes :
      (v rest : Value) (p : FlaggedPoint)
      → HasBytes v
      → (compact_type_secp256k1_point o).from_value v ≡ ok (p, rest)
      → UpTo max_secp256k1_base p.x × UpTo max_secp256k1_base p.y × HasBytes rest
  unfolding compact_type_secp256k1_point compact_type_secp256k1_base
  secp256k1_point_decodes =
      flagged-decodes l (compact_type_secp256k1_base o)
        (foreign_field-IsCodec l max_secp256k1_base "Secp256k1Base" (omega arith)).0
        (two_limbs max_secp256k1_base "Secp256k1Base") "Secp256k1Point"
