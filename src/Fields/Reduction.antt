-- ===== src/Fields/Reduction.antt =====
-- The conditional additions and subtractions of the modulus in runtime/src/built-ins.ts.
use native.Mathlib.Nat.{mod-eq_of_lt, mod-eq-sub-mod}
use compact.Base.{
  ◌+◌, ℕ, ◌*◌, ◌≤◌, ◌<◌, ◌≡◌, if◌then◌else◌, Bool-cases, inl, inr, ltb, ltb→lt, ◌-◌, ◌%◌, arith,
  ◌∙◌,
}
use compact.Base.Int.{pos, ◌+ℤ◌, ◌-ℤ◌, ◌*ℤ◌, ◌%ℤ◌, ltb_ℤ, leb_ℤ, eq_ℤ}

-- A number below twice the modulus is reduced by at most one subtraction.
pub reduce_once : (m x : ℕ) → x < m + m → x % m ≡ (if ltb x m then x else x - m)
reduce_once m x h = elim (Bool-cases (ltb x m)) [
  | inl small ↦ rw small (mod-eq_of_lt (ltb→lt x m small))
  | inr large ↦
      let enough : m ≤ x = ground arith in
      rw large (mod-eq-sub-mod enough ∙ mod-eq_of_lt (omega arith))
]

module _ (m a b : ℕ) (ha : a < m) (hb : b < m) where
  pub add_reduces :
      (if ltb_ℤ (pos a +ℤ pos b) (pos m) then pos a +ℤ pos b else pos a +ℤ pos b -ℤ pos m)
      ≡ pos ((a + b) % m)
  unfolding ◌+ℤ◌ ◌-ℤ◌
  add_reduces = ground (arith, reduce_once m (a + b) (omega arith))

  pub sub_reduces :
      (if leb_ℤ (pos 0) (pos a -ℤ pos b) then pos a -ℤ pos b else pos a -ℤ pos b +ℤ pos m)
      ≡ pos ((a + m - b) % m)
  unfolding ◌+ℤ◌ ◌-ℤ◌
  sub_reduces = ground (arith, reduce_once m (a + m - b) (omega arith))

  pub mul_reduces : pos a *ℤ pos b %ℤ m ≡ pos (a * b % m)
  unfolding ◌*ℤ◌ ◌%ℤ◌
  mul_reduces = ground arith

  pub neg_reduces : (if eq_ℤ (pos a) (pos 0) then pos a else pos m -ℤ pos a) ≡ pos ((m - a) % m)
  unfolding ◌-ℤ◌
  neg_reduces = ground (arith, reduce_once m (m - a) (omega arith))
