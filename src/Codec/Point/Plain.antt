-- ===== src/Codec/Point/Plain.antt =====
-- The types of points without a flag in runtime/src/compact-types.ts.
use mathlib.Core.Path.{subst}
use compact.Base.{
  ◌≡◌, refl, arith, [], ◌∷◌, ◌++◌, append_assoc, length, length-append, ltb, ltb-false, ok,
  expected, >>=-eq-ok, if_err-eq-ok,
}
use compact.Base.Int.{pos}
use compact.Codec.{Value}
use compact.Codec.Ocrt.{Ocrt, IsOcrt, IsFieldElement, atom_of, atom_fits}
use compact.Codec.Laws.{IsCodec, Encodes, Fits-append, HasBytes, length-Fits}
use compact.Codec.Foreign.{foreign_field, compact_type_curve25519_base}
use compact.Codec.Foreign.Laws.{UpTo, foreign_field-IsCodec}
use compact.Codec.Point.{Point, compact_type_jubjub_point, compact_type_curve25519_point}
use compact.Constants.{max_curve25519_base}

abbrev pub IsFieldPoint : Ocrt → Point → Type 0
IsFieldPoint o p = IsFieldElement o p.x × IsFieldElement o p.y

abbrev pub IsCurvePoint : Point → Type 0
IsCurvePoint p = UpTo max_curve25519_base p.x × UpTo max_curve25519_base p.y

module _ {o : Ocrt} (l : IsOcrt o) where
  jubjub-Encodes :
      (p : Point) → IsFieldPoint o p → (v : Value) × Encodes (compact_type_jubjub_point o) p v
  unfolding compact_type_jubjub_point
  jubjub-Encodes p ((x, x-eq, hx), (y, y-eq, hy)) =
      let (a, w) = atom_of l x hx in
      let (b, u) = atom_of l y hy in
      (
        a ∷ b ∷ [],
        record {
          gives = rw (x-eq, y-eq, w.gives, u.gives) refl;
          fits = (
            (w.is_bytes, w.is_normal, atom_fits 32 w (omega (arith, l.narrow))),
            ((u.is_bytes, u.is_normal, atom_fits 32 u (omega (arith, l.narrow))), tt),
          );
          back = λ rest. rw (w.reads, u.reads) (ground arith);
        },
      )

  jubjub-decodes :
      (v rest : Value) (p : Point)
      → HasBytes v
      → (compact_type_jubjub_point o).from_value v ≡ ok (p, rest)
      → IsFieldPoint o p × HasBytes rest
  unfolding compact_type_jubjub_point
  jubjub-decodes [] rest p _ h = cc
  jubjub-decodes (a ∷ []) rest p _ h = cc
  jubjub-decodes (a ∷ b ∷ v) rest p (_, (_, bs)) h =
      let (x, read_x, h') = >>=-eq-ok (o.value_to_big_int (a ∷ [])) _ h in
      let (y, read_y, same) = >>=-eq-ok (o.value_to_big_int (b ∷ [])) _ h' in
      let x-eq : p.x ≡ pos x = ground arith in
      let y-eq : p.y ≡ pos y = ground arith in
      let rest-eq : v ≡ rest = cc in
      (
        ((x, x-eq, l.decodes_only (a ∷ []) x read_x), (y, y-eq, l.decodes_only (b ∷ []) y read_y)),
        subst HasBytes rest-eq bs,
      )

  -- CompactTypeJubjubPoint is a codec of the points whose coordinates are field elements, with an
  -- encoding of field elements that has the documented laws.
  pub jubjub_point-IsCodec : IsCodec (compact_type_jubjub_point o) (IsFieldPoint o)
  jubjub_point-IsCodec = record { encodes = jubjub-Encodes; decodes = jubjub-decodes }

  base-IsCodec : IsCodec (compact_type_curve25519_base o) (UpTo max_curve25519_base)
  unfolding compact_type_curve25519_base
  base-IsCodec = (foreign_field-IsCodec l max_curve25519_base "Curve25519Base" (omega arith)).0

  length-base : length (compact_type_curve25519_base o).alignment ≡ 2
  unfolding compact_type_curve25519_base foreign_field
  length-base = refl

  curve25519-Encodes :
      (p : Point) → IsCurvePoint p → (v : Value) × Encodes (compact_type_curve25519_point o) p v
  unfolding compact_type_curve25519_point
  curve25519-Encodes p (hx, hy) =
      let (v, ex) = base-IsCodec.encodes p.x hx in
      let (w, ey) = base-IsCodec.encodes p.y hy in
      let enough = λ (rest : Value). ltb-false (length (v ++ (w ++ rest))) 4 (
        omega (
          arith,
          length-append v (w ++ rest),
          length-append w rest,
          length-base,
          length-Fits v _ ex.fits,
          length-Fits w _ ey.fits,
        )) in
      (
        v ++ w,
        record {
          gives = rw (ex.gives, ey.gives) refl;
          fits = Fits-append v w _ _ ex.fits ey.fits;
          back = λ rest.
              rw (append_assoc v w rest, enough rest, ex.back (w ++ rest), ey.back rest) refl;
        },
      )

  curve25519-decodes :
      (v rest : Value) (p : Point)
      → HasBytes v
      → (compact_type_curve25519_point o).from_value v ≡ ok (p, rest)
      → IsCurvePoint p × HasBytes rest
  unfolding compact_type_curve25519_point
  curve25519-decodes v rest p b h =
      let base = compact_type_curve25519_base o in
      let (_, h_0) = if_err-eq-ok (ltb (length v) 4) (expected "Curve25519Point") _ h in
      let ((x, v_1), read_x, h_1) = >>=-eq-ok (base.from_value v) _ h_0 in
      let ((y, v_2), read_y, h_2) = >>=-eq-ok (base.from_value v_1) _ h_1 in
      let (valid_x, b_1) = base-IsCodec.decodes v v_1 x b read_x in
      let (valid_y, b_2) = base-IsCodec.decodes v_1 v_2 y b_1 read_y in
      let rest-eq : v_2 ≡ rest = cc in
      (
        (
          subst (UpTo max_curve25519_base) (ground arith) valid_x,
          subst (UpTo max_curve25519_base) (ground arith) valid_y,
        ),
        subst HasBytes rest-eq b_2,
      )

  -- CompactTypeCurve25519Point is a codec of the points with coordinates in the base field, with
  -- an encoding of field elements that has the documented laws.
  pub curve25519_point-IsCodec : IsCodec (compact_type_curve25519_point o) IsCurvePoint
  curve25519_point-IsCodec = record { encodes = curve25519-Encodes; decodes = curve25519-decodes }
