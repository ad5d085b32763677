-- ===== src/Fields/Foreign.antt =====
-- The six foreign fields, and the inverses that `@noble/curves` computes in them, as a parameter.
use compact.Base.{ℕ, ◌*◌, ◌%◌, ◌<◌, ◌≡◌, Result, ok}
use compact.Base.Int.{ℤ, pos}
use compact.Constants.{
  secp256k1_base_modulus, secp256k1_scalar_modulus, secp256r1_base_modulus,
  secp256r1_scalar_modulus, curve25519_base_modulus, curve25519_scalar_modulus,
}

pub data ForeignField : Type 0 where
  secp256k1_base secp256k1_scalar secp256r1_base : ForeignField
  secp256r1_scalar curve25519_base curve25519_scalar : ForeignField

abbrev pub modulus : ForeignField → ℕ
modulus secp256k1_base = secp256k1_base_modulus
modulus secp256k1_scalar = secp256k1_scalar_modulus
modulus secp256r1_base = secp256r1_base_modulus
modulus secp256r1_scalar = secp256r1_scalar_modulus
modulus curve25519_base = curve25519_base_modulus
modulus curve25519_scalar = curve25519_scalar_modulus

-- `Point.Fp.inv` and `Point.Fn.inv` of the three curves
pub record Noble : Type 0 where
  pub inv : ForeignField → ℤ → Result ℤ

-- What is documented of a call with a number that is not 0: `y` is the inverse of `x`.
abbrev pub IsInverse : Noble → ForeignField → ℕ → ℕ → Type 0
IsInverse n f x y = (n.inv f (pos x) ≡ ok (pos y)) × (y < modulus f) × (x * y % modulus f ≡ 1)
