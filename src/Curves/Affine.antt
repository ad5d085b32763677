-- ===== src/Curves/Affine.antt =====
-- The conversions of runtime/src/utils.ts between affine and projective points.
use compact.Base.{
  ℕ, ◌<◌, ◌≡◌, refl, ap, ◌∙◌, arith, Bool, true, false, ◌&&◌, Bool-cases, inl, inr, ok, sym, ◌⊎◌,
}
use compact.Base.Int.{ℤ, pos, eq_ℤ, eq_ℤ_iff}
use compact.Curves.{
  flagged_to_projective, flagged_from_projective, flagged_add, flagged_mul,
  curve25519_to_projective, curve25519_from_projective, curve25519_add, curve25519_mul,
}
use compact.Curves.Library.{Curve, IsCurve, multiple}

-- The test for the coordinates of the identity.
abbrev pub is_at : ℤ × ℤ → ℕ → ℕ → Bool
is_at (x, y) m n = eq_ℤ x (pos m) && eq_ℤ y (pos n)

pub is_at_sound : (k : ℤ × ℤ) (m n : ℕ) → is_at k m n ≡ true → (k.0 ≡ pos m) × (k.1 ≡ pos n)
is_at_sound (x, y) m n h = ground (arith, eq_ℤ_iff x (pos m), eq_ℤ_iff y (pos n))

module _ {c : Curve} {order m n : ℕ} (l : IsCurve c order m n) where
  pub not_identity : {p : c.Projective} → p ≡ c.identity → is_at (c.to_affine p) m n ≡ false → ⊥
  not_identity {p} same off =
      let k = c.to_affine c.identity in
      let at : is_at k m n ≡ true =
        ground (arith, l.identity_x, l.identity_y, eq_ℤ_iff k.0 (pos m), eq_ℤ_iff k.1 (pos n)) in
      let there : is_at (c.to_affine p) m n ≡ true =
        ap (λ q. is_at (c.to_affine q) m n) same ∙ at in
      cc (sym there ∙ off)

  -- The test holds of the identity and of no other point.
  identity_cases :
      (p : c.Projective)
      → ((is_at (c.to_affine p) m n ≡ true) × (p ≡ c.identity))
        ⊎ ((is_at (c.to_affine p) m n ≡ false)
            × (c.from_affine (c.to_affine p).0 (c.to_affine p).1 ≡ ok p))
  identity_cases p = elim (Bool-cases (is_at (c.to_affine p) m n)) [
    | inl at ↦
        let (at_x, at_y) = is_at_sound (c.to_affine p) m n at in
        inl (at, l.only_identity p at_x at_y)
    | inr off ↦ inr (off, l.from_to_affine p (λ same. not_identity same off))
  ]

module _ {c : Curve} {order : ℕ} (l : IsCurve c order 0 0) where
  pub flagged_round_trip :
      (p : c.Projective) → flagged_to_projective c (flagged_from_projective c p) ≡ ok p
  unfolding flagged_to_projective flagged_from_projective
  flagged_round_trip p = elim (identity_cases l p) [
    | inl (at, same) ↦ rw at (ap ok (sym same))
    | inr (off, lifted) ↦ rw off lifted
  ]

  -- The affine form of the identity, and of any other point.
  pub flagged_cases :
      (p : c.Projective)
      → ((p ≡ c.identity)
          × (flagged_from_projective c p ≡ record { x = pos 0; y = pos 0; identity = true }))
        ⊎ ((c.from_affine (c.to_affine p).0 (c.to_affine p).1 ≡ ok p)
            × (flagged_from_projective c p
                ≡ record { x = (c.to_affine p).0; y = (c.to_affine p).1; identity = false }))
  unfolding flagged_from_projective
  flagged_cases p = elim (identity_cases l p) [
    | inl (at, same) ↦ inl (same, rw at refl)
    | inr (off, lifted) ↦ inr (lifted, rw off refl)
  ]

  pub flagged_add-from :
      (p q : c.Projective)
      → flagged_add c (flagged_from_projective c p) (flagged_from_projective c q)
        ≡ ok (flagged_from_projective c (c.add p q))
  unfolding flagged_add
  flagged_add-from p q = rw (flagged_round_trip p, flagged_round_trip q) refl

  pub flagged_mul-from :
      (p : c.Projective) (k : ℕ)
      → k < order
      → flagged_mul c (flagged_from_projective c p) (pos k)
        ≡ ok (flagged_from_projective c (multiple c k p))
  unfolding flagged_mul
  flagged_mul-from p k h = rw (flagged_round_trip p, l.multiplies p k h) refl

  pub flagged_identity :
      flagged_from_projective c c.identity ≡ record { x = pos 0; y = pos 0; identity = true }
  unfolding flagged_from_projective
  flagged_identity = elim (identity_cases l c.identity) [
    | inl (at, same) ↦ rw at refl
    | inr (off, lifted) ↦ absurd (not_identity l refl off)
  ]

module _ {c : Curve} {order : ℕ} (l : IsCurve c order 0 1) where
  pub curve25519_round_trip :
      (p : c.Projective) → curve25519_to_projective c (curve25519_from_projective c p) ≡ ok p
  unfolding curve25519_to_projective curve25519_from_projective
  curve25519_round_trip p = elim (identity_cases l p) [
    | inl (at, same) ↦ rw at (ap ok (sym same))
    | inr (off, lifted) ↦ rw off lifted
  ]

  pub curve25519_add-from :
      (p q : c.Projective)
      → curve25519_add c (curve25519_from_projective c p) (curve25519_from_projective c q)
        ≡ ok (curve25519_from_projective c (c.add p q))
  unfolding curve25519_add
  curve25519_add-from p q = rw (curve25519_round_trip p, curve25519_round_trip q) refl

  pub curve25519_mul-from :
      (p : c.Projective) (k : ℕ)
      → k < order
      → curve25519_mul c (curve25519_from_projective c p) (pos k)
        ≡ ok (curve25519_from_projective c (multiple c k p))
  unfolding curve25519_mul
  curve25519_mul-from p k h = rw (curve25519_round_trip p, l.multiplies p k h) refl

  pub curve25519_identity :
      curve25519_from_projective c c.identity ≡ record { x = pos 0; y = pos 1 }
  unfolding curve25519_from_projective
  curve25519_identity = rw (l.identity_x, l.identity_y) refl
