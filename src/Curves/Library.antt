-- ===== src/Curves/Library.antt =====
-- A curve of `@noble/curves`, as a parameter, and what is documented of it.
use compact.Base.{ℕ, zero, suc, ◌<◌, ◌≡◌, ◌≢◌, Result, ok}
use compact.Base.Int.{ℤ, pos}

pub record Curve : Type 1 where
  pub Projective : Type 0
  -- `Point.ZERO` and `Point.BASE`
  pub identity : Projective
  pub generator : Projective
  pub from_affine : ℤ → ℤ → Result Projective
  pub to_affine : Projective → ℤ × ℤ
  pub add : Projective → Projective → Projective
  pub multiply_unsafe : Projective → ℤ → Result Projective

module _ (c : Curve) where
  -- A multiple of a point, as a sum.
  abbrev pub multiple : ℕ → c.Projective → c.Projective
  multiple zero p = c.identity
  multiple (suc n) p = c.add p (multiple n p)

-- The points are a commutative group, `order` bounds the scalars, and `(x_0, y_0)` are the affine
-- coordinates of the identity and of no other point.
pub record IsCurve (c : Curve) (order x_0 y_0 : ℕ) : Type 0 where
  pub add_comm : (p q : c.Projective) → c.add p q ≡ c.add q p
  pub add_assoc : (p q r : c.Projective) → c.add (c.add p q) r ≡ c.add p (c.add q r)
  pub identity_add : (p : c.Projective) → c.add c.identity p ≡ p
  pub multiplies :
      (p : c.Projective) (n : ℕ) → n < order → c.multiply_unsafe p (pos n) ≡ ok (multiple c n p)
  pub identity_x : (c.to_affine c.identity).0 ≡ pos x_0
  pub identity_y : (c.to_affine c.identity).1 ≡ pos y_0
  pub only_identity :
      (p : c.Projective)
      → (c.to_affine p).0 ≡ pos x_0
      → (c.to_affine p).1 ≡ pos y_0
      → p ≡ c.identity
  pub from_to_affine :
      (p : c.Projective) → p ≢ c.identity → c.from_affine (c.to_affine p).0 (c.to_affine p).1 ≡ ok p
