-- ===== src/Curves/Group.antt =====
-- The operations of the secp256 curves in runtime/src/built-ins.ts on affine points.
use compact.Base.{ℕ, zero, suc, ◌<◌, ◌≡◌, refl, sym, ap, ◌∙◌, Result, ok, ◌>>=◌, true}
use compact.Base.Int.{pos}
use compact.Codec.Point.{FlaggedPoint}
use compact.Curves.{flagged_from_projective, flagged_add, flagged_mul, flagged_mul_generator}
use compact.Curves.Library.{Curve, IsCurve, multiple}
use compact.Curves.Affine.{flagged_add-from, flagged_mul-from, flagged_identity}

-- The affine form of a point of the curve.
abbrev pub IsFlagged : Curve → FlaggedPoint → Type 0
IsFlagged c a = (p : c.Projective) × (a ≡ flagged_from_projective c p)

abbrev pub flagged_identity_point : FlaggedPoint
flagged_identity_point = record { x = pos 0; y = pos 0; identity = true }

-- A point added to the identity a number of times.
abbrev pub flagged_repeated : Curve → ℕ → FlaggedPoint → Result FlaggedPoint
flagged_repeated c zero a = ok flagged_identity_point
flagged_repeated c (suc n) a = flagged_repeated c n a >>= λ s. flagged_add c a s

module _ {c : Curve} {order : ℕ} (l : IsCurve c order 0 0) where
  affine : c.Projective → Result FlaggedPoint
  affine p = ok (flagged_from_projective c p)

  -- Where the points of the library are a commutative group with the identity at no other
  -- coordinates than (0, 0), the addition of affine secp256k1 points that come from points of the
  -- curve is commutative and associative, has the flagged point (0, 0) as its identity, and
  -- returns such a point.
  pub flagged_add_group :
      (a b d : FlaggedPoint)
      → IsFlagged c a
      → IsFlagged c b
      → IsFlagged c d
      → (flagged_add c a b ≡ flagged_add c b a)
        × ((flagged_add c a b >>= λ s. flagged_add c s d)
            ≡ (flagged_add c b d >>= λ s. flagged_add c a s))
        × (flagged_add c flagged_identity_point a ≡ ok a)
        × ((s : FlaggedPoint) × (flagged_add c a b ≡ ok s) × IsFlagged c s)
  unfolding affine
  flagged_add_group a b d (p, a-eq) (q, b-eq) (r, d-eq) =
      rw
        (a-eq, b-eq, d-eq, sym (flagged_identity l), flagged_add-from l p q, flagged_add-from l q p)
        (
          ap affine (l.add_comm p q),
          rw
              (
                flagged_add-from l q r,
                flagged_add-from l (c.add p q) r,
                flagged_add-from l p (c.add q r),
              )
              (ap affine (l.add_assoc p q r)),
          flagged_add-from l c.identity p ∙ ap affine (l.identity_add p),
          (flagged_from_projective c (c.add p q), refl, (c.add p q, refl)),
        )

  multiple-flagged_repeated :
      (n : ℕ) (p : c.Projective)
      → flagged_repeated c n (flagged_from_projective c p)
        ≡ ok (flagged_from_projective c (multiple c n p))
  multiple-flagged_repeated zero p = ap ok (sym (flagged_identity l))
  multiple-flagged_repeated (suc n) p =
      rw (multiple-flagged_repeated n p) (flagged_add-from l p (multiple c n p))

  -- Where the points of the library are a commutative group with the identity at no other
  -- coordinates than (0, 0), and its multiplication by a scalar below the order is repeated
  -- addition, multiplying an affine secp256k1 point of the curve, or the generator, by such a
  -- scalar is adding it to the identity point that number of times with the source's addition.
  pub flagged_mul-flagged_repeated :
      (a : FlaggedPoint) (n : ℕ)
      → IsFlagged c a
      → n < order
      → (flagged_mul c a (pos n) ≡ flagged_repeated c n a)
        × (flagged_mul_generator c (pos n)
            ≡ flagged_repeated c n (flagged_from_projective c c.generator))
  unfolding flagged_mul_generator
  flagged_mul-flagged_repeated a n (p, a-eq) h = (
    rw a-eq (flagged_mul-from l p n h ∙ sym (multiple-flagged_repeated n p)),
    rw (l.multiplies c.generator n h) (sym (multiple-flagged_repeated n c.generator)),
  )
