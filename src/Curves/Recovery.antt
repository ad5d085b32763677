-- ===== src/Curves/Recovery.antt =====
-- The recovery of public keys from ECDSA signatures in runtime/src/utils.ts.
use compact.Curves.Affine.{flagged_round_trip}
use compact.Codec.Scalar.{Number, integer, fraction}
use compact.Curves.{flagged_to_projective}
use compact.Curves.Library.{Curve, IsCurve}
use compact.Curves.Validity.{IsChecked, as_object, from_projective_valid}
use compact.Curves.Checks.{
  PointChecks, no_recovery_id, is_valid_secp256k1_point, ecdsa_recover, Ecdsa,
  secp256k1_ecdsa_recover, EcdsaSignature, is_valid_flagged_point,
}
use compact.Base.{
  refl, ℕ, ◌≡◌, false, List, ◌≤◌, ok, arith, length, true, if_err-eq-ok, not, ◌==◌, >>=-eq-ok,
  ok-injective, ap, sym, ◌∙◌,
}
use compact.Constants.{secp256k1_base_modulus}
use compact.Base.Int.{pos, negsuc}
use compact.Codec.Point.{FlaggedPoint}

recovery_id_of :
    (id : Number) → no_recovery_id id ≡ false → (n : ℕ) × (n ≤ 3) × (id ≡ integer (pos n))
recovery_id_of (integer (pos n)) h = (n, ground arith, refl)
recovery_id_of (integer (negsuc n)) h = absurd (cc h)
recovery_id_of fraction h = absurd (cc h)

module _ {c : Curve} {checks : PointChecks c} {order m : ℕ} (l : IsCurve c order 0 0)
    (k : IsChecked c checks m) where
  pub recovered :
      (ecdsa : Ecdsa c) (msg_hash : List ℕ) (sig : EcdsaSignature) (id : Number) {s : FlaggedPoint}
      → ecdsa_recover c ecdsa msg_hash sig id ≡ ok s
      → (length msg_hash ≡ 32)
        × ((n : ℕ) × (n ≤ 3) × (id ≡ integer (pos n)))
        × ((signature : ecdsa.Signature) × (p : c.Projective) × (ecdsa.new_signature sig.r sig.s id
              ≡ ok signature)
            × (ecdsa.recover_public_key signature msg_hash ≡ ok p)
            × (flagged_to_projective c s ≡ ok p))
        × (is_valid_flagged_point c checks m (as_object s) ≡ true)
  unfolding ecdsa_recover
  recovered ecdsa msg_hash sig id h =
      let (long, h) = if_err-eq-ok (not (length msg_hash == 32)) _ _ h in
      let (ranged, h) = if_err-eq-ok (no_recovery_id id) _ _ h in
      let (signature, new, h) = >>=-eq-ok (ecdsa.new_signature sig.r sig.s id) _ h in
      let (p, recovers, h) = >>=-eq-ok (ecdsa.recover_public_key signature msg_hash) _ h in
      let form = ok-injective h in
      (
        ground (arith, long),
        recovery_id_of id ranged,
        (
          signature,
          p,
          new,
          recovers,
          ap (flagged_to_projective c) (sym form) ∙ flagged_round_trip l p,
        ),
        ap (λ s. is_valid_flagged_point c checks m (as_object s)) (sym form)
            ∙ from_projective_valid l k p,
      )

module _ {c : Curve} {checks : PointChecks c} {order : ℕ} (l : IsCurve c order 0 0) where
  -- Where the identity of the library's curve has no other coordinates than (0, 0) and no other
  -- point has them, its checks accept just the other points, whose coordinates are in the field,
  -- and a point that is lifted from coordinates in the field and accepted has these coordinates, a
  -- point that secp256k1EcdsaRecover returns is valid and converts to the key that the library
  -- recovers, and the message hash had 32 bytes and the recovery id was an integer from 0 to 3.
  pub secp256k1_recovered :
      IsChecked c checks secp256k1_base_modulus
      → (ecdsa : Ecdsa c) (msg_hash : List ℕ) (sig : EcdsaSignature) (id : Number)
        {s : FlaggedPoint}
      → secp256k1_ecdsa_recover c ecdsa msg_hash sig id ≡ ok s
      → (length msg_hash ≡ 32)
        × ((n : ℕ) × (n ≤ 3) × (id ≡ integer (pos n)))
        × ((signature : ecdsa.Signature) × (p : c.Projective) × (ecdsa.new_signature sig.r sig.s id
              ≡ ok signature)
            × (ecdsa.recover_public_key signature msg_hash ≡ ok p)
            × (flagged_to_projective c s ≡ ok p))
        × (is_valid_secp256k1_point c checks (as_object s) ≡ true)
  unfolding is_valid_secp256k1_point secp256k1_ecdsa_recover
  secp256k1_recovered k = recovered l k
