-- ===== src/Schnorr/Verified.antt =====
-- Signing and verifying in runtime/src/utils.ts.
use compact.Base.{ℕ, ◌+◌, ◌*◌, ◌%◌, ◌<◌, ◌≡◌, ◌∙◌, refl, ap, arith, true, ◌&&◌, ◌++◌, ok}
use compact.Base.Int.{pos, ◌+ℤ◌, ◌*ℤ◌, ◌%ℤ◌, eq_ℤ, eq_ℤ_iff}
use compact.Constants.{jubjub_scalar_modulus}
use compact.Casts.{convert_numeric_to_jubjub_scalar}
use compact.Codec.{Value, Alignment, CompactType}
use compact.Codec.Ocrt.{Ocrt, IsOcrt}
use compact.Codec.Point.{Point, compact_type_jubjub_point}
use compact.Codec.Point.Plain.{jubjub_point-IsCodec}
use compact.Hashes.{Hashes}
use compact.Schnorr.{
  EmbeddedCurve, JubjubSchnorrSignature, ec_mul_generator, jubjub_schnorr_verifying_key,
  jubjub_sample_scalar, challenge, jubjub_schnorr_sign, jubjub_schnorr_verify,
}
use compact.Schnorr.Laws.{
  IsEmbeddedCurve, ec_mul_generator_multiple, ec_add_multiple, ec_mul_multiple,
}

-- The transient hash of any value is the atom of a number.
abbrev pub HashesToNumbers : Ocrt → Hashes → Type 0
HashesToNumbers o h =
    (a : Alignment) (v : Value)
    → (digest : Value) × (n : ℕ) × (h.transient_hash a v ≡ ok digest)
      × (o.value_to_big_int digest ≡ ok n)

scalar_lem : (n : ℕ) → convert_numeric_to_jubjub_scalar (pos n) ≡ pos (n % jubjub_scalar_modulus)
unfolding convert_numeric_to_jubjub_scalar ◌%ℤ◌
scalar_lem n = refl

response_lem :
    (r c s : ℕ)
    → convert_numeric_to_jubjub_scalar (pos r +ℤ pos c *ℤ pos s)
      ≡ pos ((r + c * s) % jubjub_scalar_modulus)
unfolding convert_numeric_to_jubjub_scalar ◌%ℤ◌ ◌+ℤ◌ ◌*ℤ◌
response_lem r c s = ground arith

reduced_lem :
    (r s c : ℕ)
    → (r + s * c % jubjub_scalar_modulus) % jubjub_scalar_modulus
      ≡ (r + c * s) % jubjub_scalar_modulus
reduced_lem r s c = omega arith

small_lem : (n : ℕ) → n < jubjub_scalar_modulus → n % jubjub_scalar_modulus ≡ n
small_lem n h = omega arith

same_point : (p : Point) → (eq_ℤ p.x p.x && eq_ℤ p.y p.y) ≡ true
same_point p = rw ((eq_ℤ_iff p.x p.x).1 refl, (eq_ℤ_iff p.y p.y).1 refl) refl

module _ {o : Ocrt} {j : EmbeddedCurve} (h : Hashes) (l : IsOcrt o) (k : IsEmbeddedCurve o j)
    (hashes : HashesToNumbers o h) {A : Type 0} (rt_type : CompactType A) (msg : A) {v : Value}
    (encoded : rt_type.to_value msg ≡ ok v) where
  verifying_key_lem :
      (s : ℕ)
      → s < jubjub_scalar_modulus
      → jubjub_schnorr_verifying_key o j (pos s) ≡ ok (k.multiple s)
  unfolding jubjub_schnorr_verifying_key
  verifying_key_lem s hs =
      ap (ec_mul_generator o j) (scalar_lem s ∙ ap pos (small_lem s hs))
      ∙ ec_mul_generator_multiple l k s hs

  challenge_lem :
      (m n : ℕ)
      → (c : ℕ) × (c < jubjub_scalar_modulus)
        × (challenge o j h rt_type msg (k.multiple m) (k.multiple n) ≡ ok (pos c))
  unfolding challenge
  challenge_lem m n =
      let point = compact_type_jubjub_point o in
      let (a, ea) = (jubjub_point-IsCodec l).encodes (k.multiple m) (k.in_field m) in
      let (b, eb) = (jubjub_point-IsCodec l).encodes (k.multiple n) (k.in_field n) in
      let (digest, c, hashed, reads) =
        hashes (point.alignment ++ point.alignment ++ rt_type.alignment) (a ++ b ++ v) in
      (
        c % jubjub_scalar_modulus,
        omega arith,
        rw (ea.gives, eb.gives, encoded, hashed, reads, scalar_lem c) refl,
      )

  -- Where the onchain runtime encodes field elements and computes on the multiples of the
  -- generator, a cyclic group whose order is the modulus of the scalars, as documented, and
  -- transient hashes are numbers: for a message that its type encodes, a nonce and a signing key
  -- below the modulus, jubjubSchnorrVerifyingKey and jubjubSchnorrSign return, and
  -- jubjubSchnorrVerify returns true on their results.
  pub jubjub_schnorr_sign_verifies :
      (sampled : Value) (r s : ℕ)
      → o.value_to_big_int sampled ≡ ok r
      → r < jubjub_scalar_modulus
      → s < jubjub_scalar_modulus
      → (verifying_key : Point) × (sig : JubjubSchnorrSignature) × (jubjub_schnorr_verifying_key o j
            (pos s)
          ≡ ok verifying_key)
        × (jubjub_schnorr_sign o j h rt_type msg sampled (pos s) ≡ ok sig)
        × (jubjub_schnorr_verify o j h rt_type msg verifying_key sig ≡ ok true)
  unfolding jubjub_schnorr_verifying_key jubjub_schnorr_sign jubjub_schnorr_verify
      jubjub_sample_scalar
  jubjub_schnorr_sign_verifies sampled r s sample hr hs =
      let (c, hc, challenged) = challenge_lem r s in
      let q = jubjub_scalar_modulus in
      let announced = ec_mul_generator_multiple l k r hr in
      let key = ec_mul_generator_multiple l k s hs in
      let left = ec_mul_generator_multiple l k ((r + c * s) % q) (omega arith) in
      let product = ec_mul_multiple l k s c hc in
      let right = ec_add_multiple l k r ((s * c) % q) in
      let equal : (r + (s * c) % q) % q ≡ (r + c * s) % q = reduced_lem r s c in
      (
        k.multiple s,
        record { announcement = k.multiple r; response = pos ((r + c * s) % q) },
        verifying_key_lem s hs,
        rw (sample, announced, key, challenged, response_lem r c s) refl,
        rw (challenged, left, product, right, equal)
            (ap ok (same_point (k.multiple ((r + c * s) % q)))),
      )
