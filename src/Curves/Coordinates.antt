-- ===== src/Curves/Coordinates.antt =====
-- The coordinates of the points of the secp256 curves.
use compact.Base.{ℕ, ◌≡◌, refl, ◌⊎◌, inl, inr, ok, IsErr}
use compact.Base.Int.{ℤ}
use compact.Curves.{
  flagged_from_projective, secp256k1_point_x, secp256k1_point_y, secp256r1_point_x,
  secp256r1_point_y,
}
use compact.Curves.Library.{Curve, IsCurve}
use compact.Curves.Affine.{flagged_cases}

module _ {c : Curve} {order : ℕ} (l : IsCurve c order 0 0) where
  -- Where the identity of the library's curve has no other coordinates than (0, 0) and no other
  -- point has them, both coordinates of the affine form of a point can be extracted and convert
  -- back to the point, or the point is the identity and both secp256k1PointX and secp256k1PointY
  -- throw.
  pub secp256k1_coordinates :
      (p : c.Projective)
      → ((p ≡ c.identity)
          × IsErr (secp256k1_point_x (flagged_from_projective c p))
          × IsErr (secp256k1_point_y (flagged_from_projective c p)))
        ⊎ ((x : ℤ) × (y : ℤ) × (secp256k1_point_x (flagged_from_projective c p) ≡ ok x)
            × (secp256k1_point_y (flagged_from_projective c p) ≡ ok y)
            × (c.from_affine x y ≡ ok p))
  unfolding secp256k1_point_x secp256k1_point_y
  secp256k1_coordinates p = elim (flagged_cases l p) [
    | inl (same, form) ↦ inl (same, rw form tt, rw form tt)
    | inr (lifted, form) ↦
        inr ((c.to_affine p).0, (c.to_affine p).1, rw form refl, rw form refl, lifted)
  ]

  -- Where the identity of the library's curve has no other coordinates than (0, 0) and no other
  -- point has them, both coordinates of the affine form of a point can be extracted and convert
  -- back to the point, or the point is the identity and both secp256r1PointX and secp256r1PointY
  -- throw.
  pub secp256r1_coordinates :
      (p : c.Projective)
      → ((p ≡ c.identity)
          × IsErr (secp256r1_point_x (flagged_from_projective c p))
          × IsErr (secp256r1_point_y (flagged_from_projective c p)))
        ⊎ ((x : ℤ) × (y : ℤ) × (secp256r1_point_x (flagged_from_projective c p) ≡ ok x)
            × (secp256r1_point_y (flagged_from_projective c p) ≡ ok y)
            × (c.from_affine x y ≡ ok p))
  unfolding secp256r1_point_x secp256r1_point_y
  secp256r1_coordinates p = elim (flagged_cases l p) [
    | inl (same, form) ↦ inl (same, rw form tt, rw form tt)
    | inr (lifted, form) ↦
        inr ((c.to_affine p).0, (c.to_affine p).1, rw form refl, rw form refl, lifted)
  ]
