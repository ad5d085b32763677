-- ===== src/Fields/Laws.antt =====
-- The operations of the fields in runtime/src/built-ins.ts, one by one.
use compact.Base.{arith, ◌%◌, ℕ, ◌+◌, ◌-◌, ◌*◌, ◌≤◌, ◌<◌, ◌≡◌}
use compact.Constants.{
  secp256k1_base_modulus, secp256k1_scalar_modulus, secp256r1_base_modulus,
  secp256r1_scalar_modulus, curve25519_base_modulus, curve25519_scalar_modulus,
}
use compact.Base.Int.{pos}
use compact.Fields.{add, neg, sub, mul}
use compact.Fields.Foreign.{
  ForeignField, modulus, secp256k1_base, secp256k1_scalar, secp256r1_base, secp256r1_scalar,
  curve25519_base, curve25519_scalar,
}
use compact.Codec.Ocrt.{Ocrt}
use compact.Fields.Native.{field_modulus, add_field, sub_field, mul_field}
use compact.Fields.Reduction.{add_reduces, sub_reduces, mul_reduces, neg_reduces}

pub add_lem :
    (f : ForeignField) (a b : ℕ)
    → a < modulus f
    → b < modulus f
    → add f (pos a) (pos b) ≡ pos ((a + b) % modulus f)
unfolding add
add_lem secp256k1_base a b ha hb = add_reduces secp256k1_base_modulus a b ha hb
add_lem secp256k1_scalar a b ha hb = add_reduces secp256k1_scalar_modulus a b ha hb
add_lem secp256r1_base a b ha hb = add_reduces secp256r1_base_modulus a b ha hb
add_lem secp256r1_scalar a b ha hb = add_reduces secp256r1_scalar_modulus a b ha hb
add_lem curve25519_base a b ha hb = add_reduces curve25519_base_modulus a b ha hb
add_lem curve25519_scalar a b ha hb = add_reduces curve25519_scalar_modulus a b ha hb

pub sub_lem :
    (f : ForeignField) (a b : ℕ)
    → a < modulus f
    → b < modulus f
    → sub f (pos a) (pos b) ≡ pos ((a + modulus f - b) % modulus f)
unfolding sub
sub_lem secp256k1_base a b ha hb = sub_reduces secp256k1_base_modulus a b ha hb
sub_lem secp256k1_scalar a b ha hb = sub_reduces secp256k1_scalar_modulus a b ha hb
sub_lem secp256r1_base a b ha hb = sub_reduces secp256r1_base_modulus a b ha hb
sub_lem secp256r1_scalar a b ha hb = sub_reduces secp256r1_scalar_modulus a b ha hb
sub_lem curve25519_base a b ha hb = sub_reduces curve25519_base_modulus a b ha hb
sub_lem curve25519_scalar a b ha hb = sub_reduces curve25519_scalar_modulus a b ha hb

pub mul_lem :
    (f : ForeignField) (a b : ℕ)
    → a < modulus f
    → b < modulus f
    → mul f (pos a) (pos b) ≡ pos (a * b % modulus f)
unfolding mul
mul_lem secp256k1_base a b ha hb = mul_reduces secp256k1_base_modulus a b ha hb
mul_lem secp256k1_scalar a b ha hb = mul_reduces secp256k1_scalar_modulus a b ha hb
mul_lem secp256r1_base a b ha hb = mul_reduces secp256r1_base_modulus a b ha hb
mul_lem secp256r1_scalar a b ha hb = mul_reduces secp256r1_scalar_modulus a b ha hb
mul_lem curve25519_base a b ha hb = mul_reduces curve25519_base_modulus a b ha hb
mul_lem curve25519_scalar a b ha hb = mul_reduces curve25519_scalar_modulus a b ha hb

pub neg_lem :
    (f : ForeignField) (a : ℕ) → a < modulus f → neg f (pos a) ≡ pos ((modulus f - a) % modulus f)
unfolding neg
neg_lem secp256k1_base a ha = neg_reduces secp256k1_base_modulus a a ha ha
neg_lem secp256k1_scalar a ha = neg_reduces secp256k1_scalar_modulus a a ha ha
neg_lem secp256r1_base a ha = neg_reduces secp256r1_base_modulus a a ha ha
neg_lem secp256r1_scalar a ha = neg_reduces secp256r1_scalar_modulus a a ha ha
neg_lem curve25519_base a ha = neg_reduces curve25519_base_modulus a a ha ha
neg_lem curve25519_scalar a ha = neg_reduces curve25519_scalar_modulus a a ha ha

-- On numbers below the modulus, in each of the six foreign fields, the sum, the difference, the
-- product and the negation are those of the residues of the modulus.
pub operations_are_residues :
    (f : ForeignField) (a b : ℕ)
    → a < modulus f
    → b < modulus f
    → (add f (pos a) (pos b) ≡ pos ((a + b) % modulus f))
      × (sub f (pos a) (pos b) ≡ pos ((a + modulus f - b) % modulus f))
      × (mul f (pos a) (pos b) ≡ pos (a * b % modulus f))
      × (neg f (pos a) ≡ pos ((modulus f - a) % modulus f))
operations_are_residues f a b ha hb =
    (add_lem f a b ha hb, sub_lem f a b ha hb, mul_lem f a b ha hb, neg_lem f a ha)

-- On field elements, addField, subField and mulField compute the sum, the difference and the
-- product of the residues of the field's modulus.
pub native_operations_are_residues :
    (o : Ocrt) (a b : ℕ)
    → a ≤ o.max_field
    → b ≤ o.max_field
    → (add_field o (pos a) (pos b) ≡ pos ((a + b) % field_modulus o))
      × (sub_field o (pos a) (pos b) ≡ pos ((a + field_modulus o - b) % field_modulus o))
      × (mul_field o (pos a) (pos b) ≡ pos (a * b % field_modulus o))
unfolding add_field sub_field mul_field
native_operations_are_residues o a b ha hb =
    let m = o.max_field + 1 in
    let (la, lb) : (a < m) × (b < m) = (omega arith, omega arith) in
    (add_reduces m a b la lb, sub_reduces m a b la lb, mul_reduces m a b la lb)
