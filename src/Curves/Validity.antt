-- ===== src/Curves/Validity.antt =====
-- The tests for secp256 points in runtime/src/utils.ts, and the points that the recovery of public
-- keys returns.
use compact.Curves.Library.{Curve, IsCurve}
use compact.Curves.Affine.{flagged_cases, flagged_identity}
use compact.Curves.Checks.{
  PointChecks, bigint, boolean, other_property, Unknown, no_object, null, object, out_of_field,
  succeeds, is_on_curve, is_valid_flagged_point, is_valid_secp256k1_point, is_valid_secp256r1_point,
}
use compact.Curves.{flagged_from_projective}
use compact.Codec.Point.{FlaggedPoint}
use compact.Base.{
  if◌then◌else◌, refl, Bool, ◌≡◌, ℕ, ◌<◌, true, ◌||◌, false, arith, ◌≢◌, ◌⊎◌, ok, Result, inl, inr,
  ◌>>=◌, err, ◌∙◌, ap, sym, ◌↔◌, leb,
}
use compact.Base.Int.{ℤ, pos, negsuc}
use compact.Constants.{secp256r1_base_modulus, secp256k1_base_modulus}

-- What is documented of the checks: affine coordinates are field elements, the identity is the only
-- point that is refused, and what is lifted from coordinates in the field and passes has these
-- coordinates. Of other coordinates nothing is said: `fromAffine` may take them.
pub record IsChecked (c : Curve) (checks : PointChecks c) (m : ℕ) : Type 0 where
  pub in_field :
      (p : c.Projective) → (x : ℕ) × (y : ℕ) × (x < m) × (y < m) × (c.to_affine p ≡ (pos x, pos y))
  pub passes : (p : c.Projective) → p ≢ c.identity → checks.assert_validity p ≡ ok tt
  pub lifted :
      (x y : ℕ) (p : c.Projective)
      → x < m
      → y < m
      → c.from_affine (pos x) (pos y) ≡ ok p
      → checks.assert_validity p ≡ ok tt
      → (c.to_affine p ≡ (pos x, pos y)) × (p ≢ c.identity)

-- A point as an object.
abbrev pub as_object : FlaggedPoint → Unknown
as_object p = object (bigint p.x) (bigint p.y) (boolean p.identity)

pub in_field_cases : (m : ℕ) (z : ℤ) → out_of_field m z ≡ false → (n : ℕ) × (z ≡ pos n) × (n < m)
in_field_cases m (pos n) h = (n, refl, ground arith)
in_field_cases m (negsuc n) h = absurd (cc h)

pub or_false : (a b : Bool) → (a || b) ≡ false → (a ≡ false) × (b ≡ false)
or_false a b h = ground arith

-- A test that comes after a refusal was reached.
pub tested :
    (out : Bool) {rest : Bool}
    → (if out then false else rest) ≡ true
    → (out ≡ false) × (rest ≡ true)
tested true h = absurd (cc h)
tested false h = (refl, h)

pub in_field_test : (m n : ℕ) → n < m → leb m n ≡ false
in_field_test m n h = ground arith

passed : (r : Result (Unit {0})) → succeeds (r >>= λ _. ok true) ≡ true → r ≡ ok tt
passed (ok u) h = refl
passed (err e) h = absurd (cc h)

on_curve_cases :
    {P : Type 0} (o : Result P) (check : P → Result (Unit {0}))
    → succeeds (o >>= λ p. check p >>= λ _. ok true) ≡ true
    → (p : P) × (o ≡ ok p) × (check p ≡ ok tt)
on_curve_cases (ok p) check h = (p, refl, passed (check p) h)
on_curve_cases (err e) check h = absurd (cc h)

-- A point with the flag or one of the curve.
abbrev pub IsPoint : Curve → ℕ → Unknown → Type 0
IsPoint c m v =
    (x : ℕ) × (y : ℕ) × (flag : Bool) × (x < m)
    × (y < m)
    × (v ≡ object (bigint (pos x)) (bigint (pos y)) (boolean flag))
    × ((flag ≡ true)
        ⊎ ((p : c.Projective) × (flagged_from_projective c p
              ≡ record { x = pos x; y = pos y; identity = flag })))

module _ {c : Curve} {checks : PointChecks c} {order m : ℕ} (l : IsCurve c order 0 0)
    (k : IsChecked c checks m) where
  -- The form of a point that is lifted from coordinates.
  form_of :
      (x y : ℕ) (p : c.Projective)
      → x < m
      → y < m
      → c.from_affine (pos x) (pos y) ≡ ok p
      → checks.assert_validity p ≡ ok tt
      → flagged_from_projective c p ≡ record { x = pos x; y = pos y; identity = false }
  form_of x y p in_x in_y from passes =
      let (at, ne) = k.lifted x y p in_x in_y from passes in
      elim (flagged_cases l p) [
        | inl (same, _) ↦ absurd (ne same)
        | inr (_, form) ↦ form ∙ ap (λ q. record { x = q.0; y = q.1; identity = false }) at
      ]

  on_curve_form :
      (x y : ℕ) (flag : Bool)
      → x < m
      → y < m
      → (if flag then true else is_on_curve c checks (pos x) (pos y)) ≡ true
      → (flag ≡ true)
        ⊎ ((p : c.Projective) × (flagged_from_projective c p
              ≡ record { x = pos x; y = pos y; identity = flag }))
  on_curve_form x y true in_x in_y h = inl refl
  on_curve_form x y false in_x in_y h =
      let (p, from, passes) =
        on_curve_cases (c.from_affine (pos x) (pos y)) checks.assert_validity h in
      inr (p, form_of x y p in_x in_y from passes)

  valid_object :
      (x y : ℤ) (flag : Bool)
      → is_valid_flagged_point c checks m (object (bigint x) (bigint y) (boolean flag)) ≡ true
      → IsPoint c m (object (bigint x) (bigint y) (boolean flag))
  unfolding is_valid_flagged_point
  valid_object x y flag h =
      let (inside, h) = tested (out_of_field m x || out_of_field m y) h in
      let (in_x, in_y) = or_false (out_of_field m x) (out_of_field m y) inside in
      let (a, x-eq, a-lt) = in_field_cases m x in_x in
      let (b, y-eq, b-lt) = in_field_cases m y in_y in
      let h =
        ap (λ z. if flag then true else is_on_curve c checks (pos a) z) (sym y-eq)
        ∙ ap (λ z. if flag then true else is_on_curve c checks z y) (sym x-eq)
        ∙ h in
      (
        a,
        b,
        flag,
        a-lt,
        b-lt,
        ap (λ z. object (bigint z) (bigint y) (boolean flag)) x-eq
            ∙ ap (λ z. object (bigint (pos a)) (bigint z) (boolean flag)) y-eq,
        on_curve_form a b flag a-lt b-lt h,
      )

  valid-IsPoint : (v : Unknown) → is_valid_flagged_point c checks m v ≡ true → IsPoint c m v
  unfolding is_valid_flagged_point
  valid-IsPoint no_object h = absurd (cc h)
  valid-IsPoint null h = absurd (cc h)
  valid-IsPoint (object (bigint x) (bigint y) (boolean flag)) h = valid_object x y flag h
  valid-IsPoint (object (bigint x) (bigint y) (bigint z)) h = absurd (cc h)
  valid-IsPoint (object (bigint x) (bigint y) other_property) h = absurd (cc h)
  valid-IsPoint (object (bigint x) (boolean b) i) h = absurd (cc h)
  valid-IsPoint (object (bigint x) other_property i) h = absurd (cc h)
  valid-IsPoint (object (boolean b) y i) h = absurd (cc h)
  valid-IsPoint (object other_property y i) h = absurd (cc h)

  -- The other direction.
  lifted_on_curve :
      (x y : ℕ) (p : c.Projective)
      → flagged_from_projective c p ≡ record { x = pos x; y = pos y; identity = false }
      → is_on_curve c checks (pos x) (pos y) ≡ true
  lifted_on_curve x y p form = elim (flagged_cases l p) [
    | inl (_, at) ↦ absurd (cc (ap (λ (q : FlaggedPoint). q.identity) (sym at ∙ form)))
    | inr (from, off) ↦
        let x-eq = ap (λ (q : FlaggedPoint). q.x) (sym off ∙ form) in
        let y-eq = ap (λ (q : FlaggedPoint). q.y) (sym off ∙ form) in
        let ne = λ (same : p ≡ c.identity). absurd (
          cc (
            ap (λ (q : FlaggedPoint). q.identity)
              (sym (flagged_identity l) ∙ ap (flagged_from_projective c) (sym same) ∙ form))) in
        rw (sym x-eq, sym y-eq, from, k.passes p ne) refl
  ]

  point_object :
      (x y : ℕ) (flag : Bool)
      → x < m
      → y < m
      → (flag ≡ true)
        ⊎ ((p : c.Projective) × (flagged_from_projective c p
              ≡ record { x = pos x; y = pos y; identity = flag }))
      → is_valid_flagged_point c checks m (object (bigint (pos x)) (bigint (pos y)) (boolean flag))
        ≡ true
  unfolding is_valid_flagged_point
  point_object x y true in_x in_y at = rw (in_field_test m x in_x, in_field_test m y in_y) refl
  point_object x y false in_x in_y (inl h) = absurd (cc h)
  point_object x y false in_x in_y (inr (p, form)) =
      rw (in_field_test m x in_x, in_field_test m y in_y) (lifted_on_curve x y p form)

  pub flagged_valid_iff :
      (v : Unknown) → (is_valid_flagged_point c checks m v ≡ true) ↔ IsPoint c m v
  flagged_valid_iff v = (
    valid-IsPoint v,
    λ (x, y, flag, in_x, in_y, same, at).
        ap (is_valid_flagged_point c checks m) same ∙ point_object x y flag in_x in_y at,
  )

  -- The form of every point of the library passes the test.
  pub from_projective_valid :
      (p : c.Projective)
      → is_valid_flagged_point c checks m (as_object (flagged_from_projective c p)) ≡ true
  from_projective_valid p =
      let valid = λ (q : FlaggedPoint). is_valid_flagged_point c checks m (as_object q) in
      let (x, y, in_x, in_y, at) = k.in_field p in
      elim (flagged_cases l p) [
        | inl (_, form) ↦
            ap valid form ∙ point_object 0 0 true (omega arith) (omega arith) (inl refl)
        | inr (_, form) ↦
            let form' = form ∙ ap (λ q. record { x = q.0; y = q.1; identity = false }) at in
            ap valid form' ∙ point_object x y false in_x in_y (inr (p, form'))
      ]

module _ {c : Curve} {checks : PointChecks c} {order : ℕ} (l : IsCurve c order 0 0) where
  -- Where the identity of the library's curve has no other coordinates than (0, 0) and no other
  -- point has them, its checks accept just the other points, whose coordinates are in the field,
  -- and a point that is lifted from coordinates in the field and accepted has these coordinates,
  -- isValidSecp256k1Point holds of a value exactly if it is an object whose coordinates are
  -- bigints in the field and whose identity is a Boolean, and either the identity is true or the
  -- object is the affine form of a point of the library.
  pub secp256k1_valid_iff :
      IsChecked c checks secp256k1_base_modulus
      → (v : Unknown)
      → (is_valid_secp256k1_point c checks v ≡ true) ↔ IsPoint c secp256k1_base_modulus v
  unfolding is_valid_secp256k1_point
  secp256k1_valid_iff k = flagged_valid_iff l k

  pub secp256r1_valid_iff :
      IsChecked c checks secp256r1_base_modulus
      → (v : Unknown)
      → (is_valid_secp256r1_point c checks v ≡ true) ↔ IsPoint c secp256r1_base_modulus v
  unfolding is_valid_secp256r1_point
  secp256r1_valid_iff k = flagged_valid_iff l k
