-- ===== src/Tests/Curves.antt =====
-- The curve operations at a curve of two points.
use compact.Base.{
  ℕ, zero, suc, ◌≡◌, ◌≢◌, refl, ap, arith, Bool, true, false, not, Result, ok, err, message, ◌>>=◌,
}
use compact.Base.Int.{ℤ, pos, negsuc, eq_ℤ, pos-injective}
use compact.Codec.Point.{Point, FlaggedPoint}
use compact.Curves.{
  flagged_from_projective, flagged_add, flagged_mul, flagged_mul_generator,
  curve25519_from_projective, curve25519_add,
}
use compact.Curves.Library.{Curve, IsCurve, multiple}
use compact.Curves.Group.{
  IsFlagged, flagged_identity_point, flagged_repeated, flagged_add_group,
  flagged_mul-flagged_repeated,
}
use compact.Curves.Edwards.{IsEdwards, curve25519_identity_point, curve25519_add_group}

-- The group of two elements.
abbrev xor : Bool → Bool → Bool
xor false q = q
xor true q = not q

abbrev times : ℕ → Bool → Bool
times zero p = false
times (suc n) p = xor p (times n p)

-- The identity has the coordinates (0, y_0), the other point (7, 9).
abbrev coordinates : ℕ → Bool → ℤ × ℤ
coordinates y_0 false = (pos 0, pos y_0)
coordinates y_0 true = (pos 7, pos 9)

abbrev scaled : Bool → ℤ → Result Bool
scaled p (pos n) = ok (times n p)
scaled p (negsuc n) = err (message "scalar out of range")

abbrev pub two_points : ℕ → Curve
two_points y_0 = record {
  Projective = Bool;
  identity = false;
  generator = true;
  from_affine = λ x y. ok (not (eq_ℤ x (pos 0)));
  to_affine = coordinates y_0;
  add = xor;
  multiply_unsafe = scaled;
}

xor_comm : (p q : Bool) → xor p q ≡ xor q p
xor_comm false false = refl
xor_comm false true = refl
xor_comm true false = refl
xor_comm true true = refl

xor_assoc : (p q r : Bool) → xor (xor p q) r ≡ xor p (xor q r)
xor_assoc false q r = refl
xor_assoc true false r = refl
xor_assoc true true false = refl
xor_assoc true true true = refl

times-multiple : (y_0 n : ℕ) (p : Bool) → times n p ≡ multiple (two_points y_0) n p
times-multiple y_0 zero p = refl
times-multiple y_0 (suc n) p = ap (xor p) (times-multiple y_0 n p)

origin_only : (y_0 : ℕ) (p : Bool) → (coordinates y_0 p).0 ≡ pos 0 → p ≡ false
origin_only y_0 false h = refl
origin_only y_0 true h = absurd (omega (arith, pos-injective h))

lifts : (y_0 : ℕ) (p : Bool) → p ≢ false → not (eq_ℤ (coordinates y_0 p).0 (pos 0)) ≡ p
lifts y_0 false h = absurd (h refl)
lifts y_0 true h = refl

pub two_points-IsCurve : (y_0 : ℕ) → IsCurve (two_points y_0) 5 0 y_0
two_points-IsCurve y_0 = record {
  add_comm = xor_comm;
  add_assoc = xor_assoc;
  identity_add = λ p. refl;
  multiplies = λ p n h. ap ok (times-multiple y_0 n p);
  identity_x = refl;
  identity_y = refl;
  only_identity = λ p h k. origin_only y_0 p h;
  from_to_affine = λ p h. ap ok (lifts y_0 p h);
}

abbrev flagged : FlaggedPoint
flagged = record { x = pos 7; y = pos 9; identity = false }

flagged-IsFlagged : IsFlagged (two_points 0) flagged
unfolding flagged_from_projective
flagged-IsFlagged = (true, refl)

flagged_add_group_example :
    (flagged_add (two_points 0) flagged flagged ≡ flagged_add (two_points 0) flagged flagged)
    × ((flagged_add (two_points 0) flagged flagged >>= λ s. flagged_add (two_points 0) s flagged)
        ≡ (flagged_add (two_points 0) flagged flagged >>= λ s.
            flagged_add (two_points 0) flagged s))
    × (flagged_add (two_points 0) flagged_identity_point flagged ≡ ok flagged)
    × ((s : FlaggedPoint) × (flagged_add (two_points 0) flagged flagged ≡ ok s)
        × IsFlagged (two_points 0) s)
flagged_add_group_example =
    flagged_add_group (two_points-IsCurve 0) flagged flagged flagged flagged-IsFlagged
      flagged-IsFlagged flagged-IsFlagged

flagged_mul-flagged_repeated_example :
    (flagged_mul (two_points 0) flagged (pos 3) ≡ flagged_repeated (two_points 0) 3 flagged)
    × (flagged_mul_generator (two_points 0) (pos 3)
        ≡ flagged_repeated (two_points 0) 3 (flagged_from_projective (two_points 0) true))
flagged_mul-flagged_repeated_example =
    flagged_mul-flagged_repeated (two_points-IsCurve 0) flagged 3 flagged-IsFlagged (omega arith)

abbrev plain : Point
plain = record { x = pos 7; y = pos 9 }

plain-IsEdwards : IsEdwards (two_points 1) plain
unfolding curve25519_from_projective
plain-IsEdwards = (true, refl)

curve25519_add_group_example :
    (curve25519_add (two_points 1) plain plain ≡ curve25519_add (two_points 1) plain plain)
    × ((curve25519_add (two_points 1) plain plain >>= λ s. curve25519_add (two_points 1) s plain)
        ≡ (curve25519_add (two_points 1) plain plain >>= λ s.
            curve25519_add (two_points 1) plain s))
    × (curve25519_add (two_points 1) curve25519_identity_point plain ≡ ok plain)
    × ((s : Point) × (curve25519_add (two_points 1) plain plain ≡ ok s)
        × IsEdwards (two_points 1) s)
curve25519_add_group_example =
    curve25519_add_group (two_points-IsCurve 1) plain plain plain plain-IsEdwards plain-IsEdwards
      plain-IsEdwards
