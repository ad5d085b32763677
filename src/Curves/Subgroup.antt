-- ===== src/Curves/Subgroup.antt =====
-- The test for Curve25519 points in runtime/src/utils.ts.
use compact.Base.{
  ℕ, Bool, true, false, Bool-cases, ◌||◌, if◌then◌else◌, ◌≡◌, ◌↔◌, ◌<◌, refl, sym, ap, ◌∙◌, inl,
  inr, Result, ok, err, ◌>>=◌,
}
use compact.Base.Int.{ℤ, pos}
use compact.Constants.{curve25519_base_modulus}
use compact.Codec.Point.{Point}
use compact.Curves.{curve25519_from_projective}
use compact.Curves.Library.{Curve, IsCurve}
use compact.Curves.Affine.{is_at, is_at_sound, not_identity, curve25519_identity}
use compact.Curves.Checks.{
  PointChecks, Property, bigint, boolean, other_property, Unknown, no_object, null, object,
  out_of_field, succeeds, is_in_subgroup, is_valid_curve25519_point,
}
use compact.Curves.Validity.{IsChecked, or_false, tested, in_field_cases, in_field_test}

-- An object with the affine coordinates of a point in the subgroup.
abbrev pub IsSubgroupPoint : (c : Curve) → PointChecks c → Unknown → Type 0
IsSubgroupPoint c checks v =
    (x : ℕ) × (y : ℕ) × (other : Property) × (x < curve25519_base_modulus)
    × (y < curve25519_base_modulus)
    × (v ≡ object (bigint (pos x)) (bigint (pos y)) other)
    × ((p : c.Projective) × (checks.is_torsion_free p ≡ true)
        × (curve25519_from_projective c p ≡ record { x = pos x; y = pos y }))

passed :
    (r : Result (Unit {0})) (b : Bool)
    → succeeds (r >>= λ _. ok b) ≡ true
    → (r ≡ ok tt) × (b ≡ true)
passed (ok u) b h = (refl, h)
passed (err e) b h = absurd (cc h)

subgroup_cases :
    {P : Type 0} (o : Result P) (check : P → Result (Unit {0})) (free : P → Bool)
    → succeeds (o >>= λ p. check p >>= λ _. ok (free p)) ≡ true
    → (p : P) × (o ≡ ok p) × (check p ≡ ok tt) × (free p ≡ true)
subgroup_cases (ok p) check free h =
    let (passes, frees) = passed (check p) (free p) h in (p, refl, passes, frees)
subgroup_cases (err e) check free h = absurd (cc h)

module _ {c : Curve} {checks : PointChecks c} {order : ℕ} (l : IsCurve c order 0 1)
    (k : IsChecked c checks curve25519_base_modulus)
    (identity_free : checks.is_torsion_free c.identity ≡ true) where
  accepted :
      (x y : ℕ)
      → x < curve25519_base_modulus
      → y < curve25519_base_modulus
      → (if is_at (pos x, pos y) 0 1 then true else is_in_subgroup c checks (pos x) (pos y)) ≡ true
      → (p : c.Projective) × (checks.is_torsion_free p ≡ true)
        × (curve25519_from_projective c p ≡ record { x = pos x; y = pos y })
  unfolding curve25519_from_projective
  accepted x y in_x in_y h = elim (Bool-cases (is_at (pos x, pos y) 0 1)) [
    | inl at ↦
        let (at_x, at_y) = is_at_sound (pos x, pos y) 0 1 at in
        (
          c.identity,
          identity_free,
          curve25519_identity l
              ∙ ap (λ z. record { x = z; y = pos 1 }) (sym at_x)
              ∙ ap (λ z. record { x = pos x; y = z }) (sym at_y),
        )
    | inr off ↦
        let inside =
          sym (ap (λ b. if b then true else is_in_subgroup c checks (pos x) (pos y)) off) ∙ h in
        let (p, from, passes, free) =
          subgroup_cases (c.from_affine (pos x) (pos y)) checks.assert_validity
            checks.is_torsion_free inside in
        let (at, _) = k.lifted x y p in_x in_y from passes in
        (p, free, ap (λ q. record { x = q.0; y = q.1 }) at)
  ]

  -- The coordinates that the test lets through are in the field.
  valid_coordinates :
      (x y : ℤ) (other : Property)
      → is_valid_curve25519_point c checks (object (bigint x) (bigint y) other) ≡ true
      → IsSubgroupPoint c checks (object (bigint x) (bigint y) other)
  unfolding is_valid_curve25519_point
  valid_coordinates x y other h =
      let m = curve25519_base_modulus in
      let (inside, h) = tested (out_of_field m x || out_of_field m y) h in
      let (in_x, in_y) = or_false (out_of_field m x) (out_of_field m y) inside in
      let (a, x-eq, a-lt) = in_field_cases m x in_x in
      let (b, y-eq, b-lt) = in_field_cases m y in_y in
      let inner = λ (x y : ℤ). if is_at (x, y) 0 1 then true else is_in_subgroup c checks x y in
      let h = ap (inner (pos a)) (sym y-eq) ∙ ap (λ z. inner z y) (sym x-eq) ∙ h in
      (
        a,
        b,
        other,
        a-lt,
        b-lt,
        ap (λ z. object (bigint z) (bigint y) other) x-eq
            ∙ ap (λ z. object (bigint (pos a)) (bigint z) other) y-eq,
        accepted a b a-lt b-lt h,
      )

  valid-IsSubgroupPoint :
      (v : Unknown) → is_valid_curve25519_point c checks v ≡ true → IsSubgroupPoint c checks v
  unfolding is_valid_curve25519_point
  valid-IsSubgroupPoint no_object h = absurd (cc h)
  valid-IsSubgroupPoint null h = absurd (cc h)
  valid-IsSubgroupPoint (object (bigint x) (bigint y) other) h = valid_coordinates x y other h
  valid-IsSubgroupPoint (object (bigint x) (boolean b) other) h = absurd (cc h)
  valid-IsSubgroupPoint (object (bigint x) other_property other) h = absurd (cc h)
  valid-IsSubgroupPoint (object (boolean b) y other) h = absurd (cc h)
  valid-IsSubgroupPoint (object other_property y other) h = absurd (cc h)

  -- The other direction.
  reached :
      (x y : ℕ) (p : c.Projective)
      → checks.is_torsion_free p ≡ true
      → curve25519_from_projective c p ≡ record { x = pos x; y = pos y }
      → is_at (pos x, pos y) 0 1 ≡ false
      → is_in_subgroup c checks (pos x) (pos y) ≡ true
  unfolding curve25519_from_projective
  reached x y p free form off =
      let x-eq = ap (λ (q : Point). q.x) form in
      let y-eq = ap (λ (q : Point). q.y) form in
      let away : is_at (c.to_affine p) 0 1 ≡ false = rw (x-eq, y-eq) off in
      let ne = λ (same : p ≡ c.identity). not_identity l same away in
      rw (sym x-eq, sym y-eq, l.from_to_affine p ne, k.passes p ne) free

  subgroup_object :
      (x y : ℕ) (other : Property) (p : c.Projective)
      → x < curve25519_base_modulus
      → y < curve25519_base_modulus
      → checks.is_torsion_free p ≡ true
      → curve25519_from_projective c p ≡ record { x = pos x; y = pos y }
      → is_valid_curve25519_point c checks (object (bigint (pos x)) (bigint (pos y)) other) ≡ true
  unfolding is_valid_curve25519_point
  subgroup_object x y other p in_x in_y free form =
      let m = curve25519_base_modulus in
      elim (Bool-cases (is_at (pos x, pos y) 0 1)) [
        | inl at ↦ rw (in_field_test m x in_x, in_field_test m y in_y, at) refl
        | inr off ↦
            rw (in_field_test m x in_x, in_field_test m y in_y, off) (reached x y p free form off)
      ]

  -- Where the identity of the library's curve has no other coordinates than (0, 1) and no other
  -- point has them, its checks accept just the other points, whose coordinates are in the field, a
  -- point that is lifted from coordinates in the field and accepted has these coordinates, and the
  -- library finds the identity in the subgroup, isValidCurve25519Point holds of a value exactly if
  -- it is an object whose coordinates are bigints in the field and the affine form of a point of
  -- the library in its prime-order subgroup; other fields of the object are not read.
  pub curve25519_valid_iff :
      (v : Unknown) → (is_valid_curve25519_point c checks v ≡ true) ↔ IsSubgroupPoint c checks v
  curve25519_valid_iff v = (
    valid-IsSubgroupPoint v,
    λ (x, y, other, in_x, in_y, same, (p, free, form)).
        ap (is_valid_curve25519_point c checks) same
        ∙ subgroup_object x y other p in_x in_y free form,
  )
