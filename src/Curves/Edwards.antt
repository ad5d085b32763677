-- ===== src/Curves/Edwards.antt =====
-- The Curve25519 operations of runtime/src/built-ins.ts on affine points.
use compact.Base.{ℕ, zero, suc, ◌<◌, ◌≡◌, refl, sym, ap, ◌∙◌, Result, ok, ◌>>=◌}
use compact.Base.Int.{pos}
use compact.Codec.Point.{Point}
use compact.Curves.{
  curve25519_from_projective, curve25519_add, curve25519_mul, curve25519_mul_generator,
}
use compact.Curves.Library.{Curve, IsCurve, multiple}
use compact.Curves.Affine.{curve25519_add-from, curve25519_mul-from, curve25519_identity}

-- The affine form of a point of the curve.
abbrev pub IsEdwards : Curve → Point → Type 0
IsEdwards c a = (p : c.Projective) × (a ≡ curve25519_from_projective c p)

abbrev pub curve25519_identity_point : Point
curve25519_identity_point = record { x = pos 0; y = pos 1 }

-- A point added to the identity a number of times.
abbrev pub curve25519_repeated : Curve → ℕ → Point → Result Point
curve25519_repeated c zero a = ok curve25519_identity_point
curve25519_repeated c (suc n) a = curve25519_repeated c n a >>= λ s. curve25519_add c a s

module _ {c : Curve} {order : ℕ} (l : IsCurve c order 0 1) where
  affine : c.Projective → Result Point
  affine p = ok (curve25519_from_projective c p)

  -- Where the points of the library are a commutative group with the identity at no other
  -- coordinates than (0, 1), the addition of affine Curve25519 points that come from points of the
  -- curve is commutative and associative, has (0, 1) as its identity, and returns such a point.
  pub curve25519_add_group :
      (a b d : Point)
      → IsEdwards c a
      → IsEdwards c b
      → IsEdwards c d
      → (curve25519_add c a b ≡ curve25519_add c b a)
        × ((curve25519_add c a b >>= λ s. curve25519_add c s d)
            ≡ (curve25519_add c b d >>= λ s. curve25519_add c a s))
        × (curve25519_add c curve25519_identity_point a ≡ ok a)
        × ((s : Point) × (curve25519_add c a b ≡ ok s) × IsEdwards c s)
  unfolding affine
  curve25519_add_group a b d (p, a-eq) (q, b-eq) (r, d-eq) =
      rw
        (
          a-eq,
          b-eq,
          d-eq,
          sym (curve25519_identity l),
          curve25519_add-from l p q,
          curve25519_add-from l q p,
        )
        (
          ap affine (l.add_comm p q),
          rw
              (
                curve25519_add-from l q r,
                curve25519_add-from l (c.add p q) r,
                curve25519_add-from l p (c.add q r),
              )
              (ap affine (l.add_assoc p q r)),
          curve25519_add-from l c.identity p ∙ ap affine (l.identity_add p),
          (curve25519_from_projective c (c.add p q), refl, (c.add p q, refl)),
        )

  multiple-curve25519_repeated :
      (n : ℕ) (p : c.Projective)
      → curve25519_repeated c n (curve25519_from_projective c p)
        ≡ ok (curve25519_from_projective c (multiple c n p))
  multiple-curve25519_repeated zero p = ap ok (sym (curve25519_identity l))
  multiple-curve25519_repeated (suc n) p =
      rw (multiple-curve25519_repeated n p) (curve25519_add-from l p (multiple c n p))

  -- Where the points of the library are a commutative group with the identity at no other
  -- coordinates than (0, 1), and its multiplication by a scalar below the order is repeated
  -- addition, multiplying an affine Curve25519 point of the curve, or the generator, by such a
  -- scalar is adding it to (0, 1) that number of times with the source's addition.
  pub curve25519_mul-curve25519_repeated :
      (a : Point) (n : ℕ)
      → IsEdwards c a
      → n < order
      → (curve25519_mul c a (pos n) ≡ curve25519_repeated c n a)
        × (curve25519_mul_generator c (pos n)
            ≡ curve25519_repeated c n (curve25519_from_projective c c.generator))
  unfolding curve25519_mul_generator
  curve25519_mul-curve25519_repeated a n (p, a-eq) h = (
    rw a-eq (curve25519_mul-from l p n h ∙ sym (multiple-curve25519_repeated n p)),
    rw (l.multiplies c.generator n h) (sym (multiple-curve25519_repeated n c.generator)),
  )
