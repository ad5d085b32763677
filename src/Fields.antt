-- ===== src/Fields.antt =====
-- runtime/src/built-ins.ts: arithmetic in the native field and in the six foreign fields.
pub mod Foreign
pub mod Secp256k1
pub mod Secp256r1
pub mod Curve25519
pub mod Reduction
pub mod Laws
pub mod Ring
pub mod Native
use compact.Base.{Result}
use compact.Base.Int.{ℤ}
use Foreign.{
  Noble, ForeignField, secp256k1_base, secp256k1_scalar, secp256r1_base, secp256r1_scalar,
  curve25519_base, curve25519_scalar,
}
use Secp256k1.{
  secp256k1_base_add, secp256k1_base_neg, secp256k1_base_sub, secp256k1_base_mul,
  secp256k1_base_inv, secp256k1_scalar_add, secp256k1_scalar_neg, secp256k1_scalar_sub,
  secp256k1_scalar_mul, secp256k1_scalar_inv,
}
use Secp256r1.{
  secp256r1_base_add, secp256r1_base_neg, secp256r1_base_sub, secp256r1_base_mul,
  secp256r1_base_inv, secp256r1_scalar_add, secp256r1_scalar_neg, secp256r1_scalar_sub,
  secp256r1_scalar_mul, secp256r1_scalar_inv,
}
use Curve25519.{
  curve25519_base_add, curve25519_base_neg, curve25519_base_sub, curve25519_base_mul,
  curve25519_base_inv, curve25519_scalar_add, curve25519_scalar_neg, curve25519_scalar_sub,
  curve25519_scalar_mul, curve25519_scalar_inv,
}

-- The operations of a field, as the field is named.
unfoldable pub add : ForeignField → ℤ → ℤ → ℤ
unfolding secp256k1_base_add secp256k1_scalar_add secp256r1_base_add secp256r1_scalar_add
    curve25519_base_add curve25519_scalar_add
add secp256k1_base = secp256k1_base_add
add secp256k1_scalar = secp256k1_scalar_add
add secp256r1_base = secp256r1_base_add
add secp256r1_scalar = secp256r1_scalar_add
add curve25519_base = curve25519_base_add
add curve25519_scalar = curve25519_scalar_add

unfoldable pub neg : ForeignField → ℤ → ℤ
unfolding secp256k1_base_neg secp256k1_scalar_neg secp256r1_base_neg secp256r1_scalar_neg
    curve25519_base_neg curve25519_scalar_neg
neg secp256k1_base = secp256k1_base_neg
neg secp256k1_scalar = secp256k1_scalar_neg
neg secp256r1_base = secp256r1_base_neg
neg secp256r1_scalar = secp256r1_scalar_neg
neg curve25519_base = curve25519_base_neg
neg curve25519_scalar = curve25519_scalar_neg

unfoldable pub sub : ForeignField → ℤ → ℤ → ℤ
unfolding secp256k1_base_sub secp256k1_scalar_sub secp256r1_base_sub secp256r1_scalar_sub
    curve25519_base_sub curve25519_scalar_sub
sub secp256k1_base = secp256k1_base_sub
sub secp256k1_scalar = secp256k1_scalar_sub
sub secp256r1_base = secp256r1_base_sub
sub secp256r1_scalar = secp256r1_scalar_sub
sub curve25519_base = curve25519_base_sub
sub curve25519_scalar = curve25519_scalar_sub

unfoldable pub mul : ForeignField → ℤ → ℤ → ℤ
unfolding secp256k1_base_mul secp256k1_scalar_mul secp256r1_base_mul secp256r1_scalar_mul
    curve25519_base_mul curve25519_scalar_mul
mul secp256k1_base = secp256k1_base_mul
mul secp256k1_scalar = secp256k1_scalar_mul
mul secp256r1_base = secp256r1_base_mul
mul secp256r1_scalar = secp256r1_scalar_mul
mul curve25519_base = curve25519_base_mul
mul curve25519_scalar = curve25519_scalar_mul

unfoldable pub inv : ForeignField → Noble → ℤ → Result ℤ
unfolding secp256k1_base_inv secp256k1_scalar_inv secp256r1_base_inv secp256r1_scalar_inv
    curve25519_base_inv curve25519_scalar_inv
inv secp256k1_base = secp256k1_base_inv
inv secp256k1_scalar = secp256k1_scalar_inv
inv secp256r1_base = secp256r1_base_inv
inv secp256r1_scalar = secp256r1_scalar_inv
inv curve25519_base = curve25519_base_inv
inv curve25519_scalar = curve25519_scalar_inv
