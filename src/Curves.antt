-- ===== src/Curves.antt =====
-- The curve operations of runtime/src/built-ins.ts, with the conversions of runtime/src/utils.ts to
-- the points of `@noble/curves` and back. The code is the same for the two secp256 curves, so it
-- stands once with the curve as a parameter.
pub mod Library
pub mod Affine
pub mod Group
pub mod Edwards
pub mod Coordinates
pub mod Checks
pub mod Validity
pub mod Subgroup
pub mod Recovery
use compact.Base.{Bool, ◌&&◌, true, false, if◌then◌else◌, Result, ok, err, message, ◌>>=◌, String}
use compact.Base.Int.{ℤ, pos, eq_ℤ}
use compact.Codec.Point.{Point, FlaggedPoint}
use Library.{Curve}

module _ (c : Curve) where
  unfoldable pub flagged_to_projective : FlaggedPoint → Result c.Projective
  flagged_to_projective p = if p.identity then ok c.identity else c.from_affine p.x p.y

  unfoldable pub flagged_from_projective : c.Projective → FlaggedPoint
  flagged_from_projective p =
      let (x, y) = c.to_affine p in
      if eq_ℤ x (pos 0) && eq_ℤ y (pos 0)
      then record { x = pos 0; y = pos 0; identity = true }
      else record { x = x; y = y; identity = false }

  unfoldable pub flagged_add : FlaggedPoint → FlaggedPoint → Result FlaggedPoint
  flagged_add a b = do
    p ← flagged_to_projective a
    q ← flagged_to_projective b
    ok (flagged_from_projective (c.add p q))

  unfoldable pub flagged_mul : FlaggedPoint → ℤ → Result FlaggedPoint
  flagged_mul a b = do
    p ← flagged_to_projective a
    q ← c.multiply_unsafe p b
    ok (flagged_from_projective q)

  unfoldable pub flagged_mul_generator : ℤ → Result FlaggedPoint
  flagged_mul_generator b = do q ← c.multiply_unsafe c.generator b; ok (flagged_from_projective q)

  -- The Curve25519 functions. The identity is the point (0, 1).
  unfoldable pub curve25519_to_projective : Point → Result c.Projective
  curve25519_to_projective p =
      if eq_ℤ p.x (pos 0) && eq_ℤ p.y (pos 1) then ok c.identity else c.from_affine p.x p.y

  unfoldable pub curve25519_from_projective : c.Projective → Point
  curve25519_from_projective p = let (x, y) = c.to_affine p in record { x = x; y = y }

  unfoldable pub curve25519_add : Point → Point → Result Point
  curve25519_add a b = do
    p ← curve25519_to_projective a
    q ← curve25519_to_projective b
    ok (curve25519_from_projective (c.add p q))

  unfoldable pub curve25519_mul : Point → ℤ → Result Point
  curve25519_mul a b = do
    p ← curve25519_to_projective a
    q ← c.multiply_unsafe p b
    ok (curve25519_from_projective q)

  unfoldable pub curve25519_mul_generator : ℤ → Result Point
  curve25519_mul_generator b = do
    q ← c.multiply_unsafe c.generator b
    ok (curve25519_from_projective q)

unfoldable pub secp256k1_point_x : FlaggedPoint → Result ℤ
secp256k1_point_x pt =
    if pt.identity
    then err (message "cannot extract the x-coordinate of the secp256k1 identity point")
    else ok pt.x

unfoldable pub secp256k1_point_y : FlaggedPoint → Result ℤ
secp256k1_point_y pt =
    if pt.identity
    then err (message "cannot extract the y-coordinate of the secp256k1 identity point")
    else ok pt.y

unfoldable pub secp256r1_point_x : FlaggedPoint → Result ℤ
secp256r1_point_x pt =
    if pt.identity
    then err (message "cannot extract the x-coordinate of the secp256r1 identity point")
    else ok pt.x

unfoldable pub secp256r1_point_y : FlaggedPoint → Result ℤ
secp256r1_point_y pt =
    if pt.identity
    then err (message "cannot extract the y-coordinate of the secp256r1 identity point")
    else ok pt.y
