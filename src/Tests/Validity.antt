-- ===== src/Tests/Validity.antt =====
-- The tests for points at a curve of two points.
use compact.Codec.Scalar.{integer}
use compact.Curves.{flagged_from_projective, flagged_to_projective}
use compact.Curves.Recovery.{secp256k1_recovered}
use compact.Base.{
  zero, suc, refl, length, ◌∙◌, List, Bool, Result, ℕ, true, err, ◌<◌, replicate, ◌≢◌, ◌≡◌, ap, ok,
  if◌then◌else◌, false, arith, message, ◌≤◌, ◌↔◌, ◌&&◌, ◌+◌, ◌||◌,
}
use compact.Base.Int.{ℤ, pos, eq_ℤ}
use compact.Curves.Library.{Curve, IsCurve, multiple}
use compact.Curves.Checks.{
  PointChecks, Ecdsa, EcdsaSignature, object, bigint, boolean, is_valid_secp256k1_point,
  secp256k1_ecdsa_recover, is_valid_curve25519_point, other_property,
}
use compact.Tests.Curves.{two_points, two_points-IsCurve}
use compact.Curves.Validity.{IsChecked, IsPoint, secp256k1_valid_iff, as_object}
use compact.Codec.Point.{FlaggedPoint}
use compact.Constants.{secp256k1_base_modulus, curve25519_base_modulus}
use compact.Curves.Subgroup.{IsSubgroupPoint, curve25519_valid_iff}

-- The same curve, with a lift of the coordinates of its points only; where its identity is at
-- (0, 1), the lift takes the first coordinate beyond the field too.
abbrev other_form : ℕ → ℕ
other_form zero = 7
other_form (suc y_0) = curve25519_base_modulus + 7

abbrev lift_point : ℕ → ℤ → ℤ → Result Bool
lift_point y_0 x y =
    if (eq_ℤ x (pos 7) || eq_ℤ x (pos (other_form y_0))) && eq_ℤ y (pos 9)
    then ok true
    else err (message "bad point")

abbrev strict : ℕ → Curve
strict y_0 = record (two_points y_0) { from_affine = lift_point y_0 }

lifts_points :
    (y_0 : ℕ) (p : Bool)
    → p ≢ false
    → lift_point y_0 ((strict y_0).to_affine p).0 ((strict y_0).to_affine p).1 ≡ ok p
lifts_points y_0 false h = absurd (h refl)
lifts_points y_0 true h = refl

multiple-strict : (y_0 n : ℕ) (p : Bool) → multiple (two_points y_0) n p ≡ multiple (strict y_0) n p
multiple-strict y_0 zero p = refl
multiple-strict y_0 (suc n) p = ap ((strict y_0).add p) (multiple-strict y_0 n p)

strict-IsCurve : (y_0 : ℕ) → IsCurve (strict y_0) 5 0 y_0
strict-IsCurve y_0 =
    let l = two_points-IsCurve y_0 in
    record {
      add_comm = l.add_comm;
      add_assoc = l.add_assoc;
      identity_add = l.identity_add;
      multiplies = λ p n h. l.multiplies p n h ∙ ap ok (multiple-strict y_0 n p);
      identity_x = refl;
      identity_y = refl;
      only_identity = l.only_identity;
      from_to_affine = lifts_points y_0;
    }

abbrev asserted : Bool → Result (Unit {0})
asserted false = err (message "bad point: ZERO")
asserted true = ok tt

abbrev checks : (y_0 : ℕ) → PointChecks (strict y_0)
checks y_0 = record { assert_validity = asserted; is_torsion_free = λ p. true }

coordinates_in_field :
    (y_0 m : ℕ)
    → y_0 < m
    → 9 < m
    → (p : Bool)
    → (x : ℕ) × (y : ℕ) × (x < m) × (y < m) × ((strict y_0).to_affine p ≡ (pos x, pos y))
coordinates_in_field y_0 m h k false = (0, y_0, omega arith, h, refl)
coordinates_in_field y_0 m h k true = (7, 9, omega arith, k, refl)

asserted_others : (p : Bool) → p ≢ false → asserted p ≡ ok tt
asserted_others false h = absurd (h refl)
asserted_others true h = refl

-- What is lifted from coordinates in the field is at these coordinates.
AreLifted : ℕ → ℕ → Type 0
AreLifted y_0 m =
    (x y : ℕ) (p : Bool)
    → x < m
    → y < m
    → lift_point y_0 (pos x) (pos y) ≡ ok p
    → asserted p ≡ ok tt
    → ((strict y_0).to_affine p ≡ (pos x, pos y)) × (p ≢ false)

secp256k1_lifted : AreLifted 0 secp256k1_base_modulus
unfolding AreLifted
secp256k1_lifted x y false h k from passes = absurd (cc passes)
secp256k1_lifted x y true h k from passes = (ground arith, λ e. cc e)

curve25519_lifted : AreLifted 1 curve25519_base_modulus
unfolding AreLifted
curve25519_lifted x y false h k from passes = absurd (cc passes)
curve25519_lifted x y true h k from passes = (ground arith, λ e. cc e)

strict-IsChecked :
    (y_0 m : ℕ) → y_0 < m → 9 < m → AreLifted y_0 m → IsChecked (strict y_0) (checks y_0) m
unfolding AreLifted
strict-IsChecked y_0 m h k lifted = record {
  in_field = coordinates_in_field y_0 m h k;
  passes = asserted_others;
  lifted = lifted;
}

secp256k1-IsChecked : IsChecked (strict 0) (checks 0) secp256k1_base_modulus
secp256k1-IsChecked =
    strict-IsChecked 0 secp256k1_base_modulus (omega arith) (omega arith) secp256k1_lifted

curve25519-IsChecked : IsChecked (strict 1) (checks 1) curve25519_base_modulus
curve25519-IsChecked =
    strict-IsChecked 1 curve25519_base_modulus (omega arith) (omega arith) curve25519_lifted

curve25519_valid_iff_example :
    (is_valid_curve25519_point
        (strict 1)
        (checks 1)
        (object (bigint (pos 7)) (bigint (pos 9)) other_property)
      ≡ true)
    ↔ IsSubgroupPoint
        (strict 1)
        (checks 1)
        (object (bigint (pos 7)) (bigint (pos 9)) other_property)
curve25519_valid_iff_example =
    curve25519_valid_iff (strict-IsCurve 1) curve25519-IsChecked refl
      (object (bigint (pos 7)) (bigint (pos 9)) other_property)

secp256k1_valid_iff_example :
    (is_valid_secp256k1_point
        (strict 0)
        (checks 0)
        (object (bigint (pos 7)) (bigint (pos 9)) (boolean false))
      ≡ true)
    ↔ IsPoint
        (strict 0)
        secp256k1_base_modulus
        (object (bigint (pos 7)) (bigint (pos 9)) (boolean false))
secp256k1_valid_iff_example =
    secp256k1_valid_iff (strict-IsCurve 0) secp256k1-IsChecked
      (object (bigint (pos 7)) (bigint (pos 9)) (boolean false))

abbrev ecdsa : Ecdsa (strict 0)
ecdsa = record {
  Signature = ℕ;
  new_signature = λ r s id. ok 3;
  recover_public_key = λ n msg_hash. ok true;
}

abbrev hash_32 : List ℕ
hash_32 = replicate 32 5

abbrev sig : EcdsaSignature
sig = record { r = pos 1; s = pos 2 }

abbrev recovered_point : FlaggedPoint
recovered_point = record { x = pos 7; y = pos 9; identity = false }

recovers :
    secp256k1_ecdsa_recover (strict 0) ecdsa hash_32 sig (integer (pos 1)) ≡ ok recovered_point
unfolding secp256k1_ecdsa_recover flagged_from_projective
recovers = refl

secp256k1_recovered_example :
    (length hash_32 ≡ 32)
    × ((n : ℕ) × (n ≤ 3) × (integer (pos 1) ≡ integer (pos n)))
    × ((signature : ℕ) × (p : Bool) × (◌≡◌ {A = Result ℕ} (ok 3) (ok signature))
        × (◌≡◌ {A = Result Bool} (ok true) (ok p))
        × (flagged_to_projective (strict 0) recovered_point ≡ ok p))
    × (is_valid_secp256k1_point (strict 0) (checks 0) (as_object recovered_point) ≡ true)
secp256k1_recovered_example =
    secp256k1_recovered (strict-IsCurve 0) secp256k1-IsChecked ecdsa hash_32 sig (integer (pos 1))
      recovers
