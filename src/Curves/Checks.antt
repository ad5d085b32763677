-- ===== src/Curves/Checks.antt =====
-- The tests for points in runtime/src/utils.ts, and the recovery of public keys there. The code is
-- the same for the two secp256 curves but for the base field.
use compact.Base.{
  ℕ, Bool, ◌&&◌, ◌||◌, true, false, not, if◌then◌else◌, List, length, ltb, leb, ◌==◌, Result, ok,
  err, message, ◌>>=◌,
}
use compact.Base.Int.{ℤ, pos, negsuc, eq_ℤ}
use compact.Constants.{secp256k1_base_modulus, secp256r1_base_modulus, curve25519_base_modulus}
use compact.Codec.Scalar.{Number, integer, fraction}
use compact.Codec.Point.{FlaggedPoint}
use compact.Curves.{flagged_from_projective}
use compact.Curves.Library.{Curve}

-- The functions of a point of the library that the tests call.
pub record PointChecks (c : Curve) : Type 0 where
  pub assert_validity : c.Projective → Result (Unit {0})
  pub is_torsion_free : c.Projective → Bool

-- A field of an object, `undefined` included, and a value of the type `unknown`, with the fields
-- that the tests read.
pub data Property : Type 0 where
  bigint : ℤ → Property
  boolean : Bool → Property
  other_property : Property

pub data Unknown : Type 0 where
  no_object null : Unknown
  object : (x y identity : Property) → Unknown

-- `z < 0n || z >= m`
abbrev pub out_of_field : ℕ → ℤ → Bool
out_of_field m (pos n) = leb m n
out_of_field m (negsuc n) = true

-- `try { ...; } catch { return false; }`
abbrev pub succeeds : Result Bool → Bool
succeeds (ok b) = b
succeeds (err e) = false

module _ (c : Curve) (checks : PointChecks c) where
  abbrev pub is_on_curve : ℤ → ℤ → Bool
  is_on_curve x y = succeeds do p ← c.from_affine x y; _ ← checks.assert_validity p; ok true

  unfoldable pub is_valid_flagged_point : ℕ → Unknown → Bool
  is_valid_flagged_point m (object (bigint x) (bigint y) (boolean identity)) =
      if out_of_field m x || out_of_field m y
      then false
      else if identity
      then true
      else is_on_curve x y
  is_valid_flagged_point m v = false

  unfoldable pub is_valid_secp256k1_point : Unknown → Bool
  unfolding is_valid_flagged_point
  is_valid_secp256k1_point v = is_valid_flagged_point secp256k1_base_modulus v

  unfoldable pub is_valid_secp256r1_point : Unknown → Bool
  unfolding is_valid_flagged_point
  is_valid_secp256r1_point v = is_valid_flagged_point secp256r1_base_modulus v

  abbrev pub is_in_subgroup : ℤ → ℤ → Bool
  is_in_subgroup x y =
      succeeds do p ← c.from_affine x y; _ ← checks.assert_validity p; ok (checks.is_torsion_free p)

  -- The object may have a field `identity`, which is not read.
  unfoldable pub is_valid_curve25519_point : Unknown → Bool
  is_valid_curve25519_point (object (bigint x) (bigint y) _) =
      if out_of_field curve25519_base_modulus x || out_of_field curve25519_base_modulus y
      then false
      else if eq_ℤ x (pos 0) && eq_ℤ y (pos 1)
      then true
      else is_in_subgroup x y
  is_valid_curve25519_point v = false

-- The signatures of the library.
pub record Ecdsa (c : Curve) : Type 1 where
  pub Signature : Type 0
  pub new_signature : ℤ → ℤ → Number → Result Signature
  pub recover_public_key : Signature → List ℕ → Result c.Projective

pub record EcdsaSignature : Type 0 where
  pub r : ℤ
  pub s : ℤ

-- `!Number.isInteger(id) || id < 0 || id > 3`
abbrev pub no_recovery_id : Number → Bool
no_recovery_id (integer (pos n)) = ltb 3 n
no_recovery_id (integer (negsuc n)) = true
no_recovery_id fraction = true

module _ (c : Curve) (ecdsa : Ecdsa c) where
  unfoldable pub ecdsa_recover : List ℕ → EcdsaSignature → Number → Result FlaggedPoint
  ecdsa_recover msg_hash sig recovery_id =
      if not (length msg_hash == 32)
      then err (message "expected a 32-byte message hash")
      else if no_recovery_id recovery_id
      then err (message "expected a recovery id in the range [0, 3]")
      else (ecdsa.new_signature sig.r sig.s recovery_id >>= λ signature.
          ecdsa.recover_public_key signature msg_hash >>= λ p. ok (flagged_from_projective c p))

  unfoldable pub secp256k1_ecdsa_recover : List ℕ → EcdsaSignature → Number → Result FlaggedPoint
  unfolding ecdsa_recover
  secp256k1_ecdsa_recover msg_hash sig recovery_id = ecdsa_recover msg_hash sig recovery_id

  unfoldable pub secp256r1_ecdsa_recover : List ℕ → EcdsaSignature → Number → Result FlaggedPoint
  unfolding ecdsa_recover
  secp256r1_ecdsa_recover msg_hash sig recovery_id = ecdsa_recover msg_hash sig recovery_id
