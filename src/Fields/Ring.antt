-- ===== src/Fields/Ring.antt =====
-- The operations of the foreign fields in runtime/src/built-ins.ts together.
use native.Mathlib.Nat.{
  mod-lt, mod-eq_of_lt, mod-eq-sub-mod, div-add-mod, add-mul-mod_self_left, add-mod-mod,
  add-mod_right, mod_self,
}
use compact.Base.{
  ℕ, ◌+◌, ◌-◌, ◌*◌, ◌/◌, ◌%◌, ◌≤◌, ◌<◌, ◌≡◌, sym, ap, ◌∙◌, arith, ok, Bool-cases, inl, inr, ltb,
  ltb→lt,
}
use compact.Base.Int.{pos}
use compact.Fields.{add, neg, sub, mul, inv}
use compact.Fields.Foreign.{
  ForeignField, modulus, Noble, IsInverse, secp256k1_base, secp256k1_scalar, secp256r1_base,
  secp256r1_scalar, curve25519_base, curve25519_scalar,
}
use compact.Fields.Laws.{add_lem, sub_lem, mul_lem, neg_lem}

modulus_big : (f : ForeignField) → 1 < modulus f
modulus_big secp256k1_base = omega arith
modulus_big secp256k1_scalar = omega arith
modulus_big secp256r1_base = omega arith
modulus_big secp256r1_scalar = omega arith
modulus_big curve25519_base = omega arith
modulus_big curve25519_scalar = omega arith

pub mod-mul : (m a b : ℕ) → a % m * b % m ≡ a * b % m
mod-mul m a b =
    let distributed : a % m * b + m * (a / m * b) ≡ (m * (a / m) + a % m) * b = grind arith in
    sym (add-mul-mod_self_left (a % m * b) m (a / m * b))
    ∙ ap (λ t. t % m) (distributed ∙ ap (λ t. t * b) (div-add-mod a m))

mod_sub-add : (m a b : ℕ) → a < m → b < m → ((a + b) % m + m - b) % m ≡ a
mod_sub-add m a b ha hb = elim (Bool-cases (ltb (a + b) m)) [
  | inl small ↦
      let below : a + b < m = ltb→lt (a + b) m small in
      ap (λ t. (t + m - b) % m) (mod-eq_of_lt below)
      ∙ ap (λ t. t % m) (omega arith)
      ∙ add-mod_right a m
      ∙ mod-eq_of_lt ha
  | inr large ↦
      let above : m ≤ a + b = ground arith in
      ap (λ t. (t + m - b) % m) (mod-eq-sub-mod above ∙ mod-eq_of_lt (omega arith))
      ∙ ap (λ t. t % m) (omega arith)
      ∙ mod-eq_of_lt ha
]

mod_add-neg : (m a : ℕ) → a < m → (a + (m - a) % m) % m ≡ 0
mod_add-neg m a ha = add-mod-mod a (m - a) m ∙ ap (λ t. t % m) {y = m} (omega arith) ∙ mod_self m

inv_nonzero : (f : ForeignField) (n : Noble) (x : ℕ) → 0 < x → inv f n (pos x) ≡ n.inv f (pos x)
unfolding inv
inv_nonzero secp256k1_base n x h = ground arith
inv_nonzero secp256k1_scalar n x h = ground arith
inv_nonzero secp256r1_base n x h = ground arith
inv_nonzero secp256r1_scalar n x h = ground arith
inv_nonzero curve25519_base n x h = ground arith
inv_nonzero curve25519_scalar n x h = ground arith

-- On numbers below the modulus of any of the six foreign fields, subtracting b undoes adding b,
-- and a number and its negation have the sum 0.
pub sub-add :
    (f : ForeignField) (a b : ℕ)
    → a < modulus f
    → b < modulus f
    → (sub f (add f (pos a) (pos b)) (pos b) ≡ pos a) × (add f (pos a) (neg f (pos a)) ≡ pos 0)
sub-add f a b ha hb =
    let big = modulus_big f in
    let sum_small = mod-lt (a + b) (omega arith) in
    let neg_small = mod-lt (modulus f - a) (omega arith) in
    (
      ap (λ s. sub f s (pos b)) (add_lem f a b ha hb)
          ∙ sub_lem f ((a + b) % modulus f) b sum_small hb
          ∙ ap pos (mod_sub-add (modulus f) a b ha hb),
      ap (add f (pos a)) (neg_lem f a ha)
          ∙ add_lem f a ((modulus f - a) % modulus f) ha neg_small
          ∙ ap pos (mod_add-neg (modulus f) a ha),
    )

mod_unit : (m a x y : ℕ) → a < m → x * y % m ≡ 1 → a * x % m * y % m ≡ a
mod_unit m a x y ha unit =
    mod-mul m (a * x) y
    ∙ ap (λ t. t % m) {y = x * y * a} (grind arith)
    ∙ sym (mod-mul m (x * y) a)
    ∙ ap (λ t. t * a % m) unit
    ∙ ap (λ t. t % m) {y = a} (omega arith)
    ∙ mod-eq_of_lt ha

-- Where the library returns an inverse y of a number x of the field that is not 0, the source's
-- inversion returns it, and multiplying by y undoes multiplying by x.
pub mul-inv :
    (n : Noble) (f : ForeignField) (a x y : ℕ)
    → a < modulus f
    → 0 < x
    → x < modulus f
    → IsInverse n f x y
    → (inv f n (pos x) ≡ ok (pos y)) × (mul f (mul f (pos a) (pos x)) (pos y) ≡ pos a)
mul-inv n f a x y ha hx hm (gives, small, unit) =
    let m = modulus f in
    let big = modulus_big f in
    let product : mul f (mul f (pos a) (pos x)) (pos y) ≡ pos (a * x % m * y % m) =
      ap (λ t. mul f t (pos y)) (mul_lem f a x ha hm)
      ∙ mul_lem f (a * x % m) y (mod-lt (a * x) (omega arith)) small in
    (inv_nonzero f n x hx ∙ gives, product ∙ ap pos (mod_unit m a x y ha unit))
