-- ===== src/Schnorr.antt =====
-- The JubJub operations of runtime/src/built-ins.ts and the Schnorr signatures of
-- runtime/src/utils.ts that use them.
pub mod Laws
pub mod Verified
use compact.Base.{ℕ, ◌-◌, Bool, ◌&&◌, ◌++◌, if◌then◌else◌, Result, ok, ◌>>=◌}
use compact.Base.Int.{ℤ, pos, ◌+ℤ◌, ◌-ℤ◌, ◌*ℤ◌, eq_ℤ}
use compact.Casts.{convert_numeric_to_jubjub_scalar}
use compact.Codec.{Value, Alignment, CompactType}
use compact.Codec.Ocrt.{Ocrt}
use compact.Codec.Point.{Point, compact_type_jubjub_point}
use compact.Hashes.{Hashes}

-- The functions of `@midnightntwrk/onchain-runtime-v4` on the embedded curve.
pub record EmbeddedCurve : Type 0 where
  pub hash_to_curve : Alignment → Value → Result Value
  pub ec_add : Value → Value → Result Value
  pub ec_mul : Value → Value → Result Value
  pub ec_mul_generator : Value → Result Value

unfoldable pub construct_jubjub_point : ℤ → ℤ → Point
construct_jubjub_point x y = record { x = x; y = y }

pub record JubjubSchnorrSignature : Type 0 where
  pub announcement : Point
  pub response : ℤ

module _ (o : Ocrt) (j : EmbeddedCurve) where
  -- `CompactTypeJubjubPoint.fromValue`, with what it leaves dropped
  abbrev pub point_of : Value → Result Point
  point_of v = do (p, rest) ← (compact_type_jubjub_point o).from_value v; ok p

  unfoldable pub hash_to_curve : {A : Type 0} → CompactType A → A → Result Point
  hash_to_curve rt_type x = do
    v ← rt_type.to_value x
    u ← j.hash_to_curve rt_type.alignment v
    point_of u

  unfoldable pub ec_add : Point → Point → Result Point
  ec_add a b = do
    v ← (compact_type_jubjub_point o).to_value a
    w ← (compact_type_jubjub_point o).to_value b
    u ← j.ec_add v w
    point_of u

  -- `FIELD_MODULUS` is the largest field element and one.
  unfoldable pub ec_neg : Point → Point
  unfolding construct_jubjub_point
  ec_neg a =
      construct_jubjub_point (if eq_ℤ a.x (pos 0) then pos 0 else pos (ℕ.suc o.max_field) -ℤ a.x)
        a.y

  unfoldable pub ec_mul : Point → ℤ → Result Point
  ec_mul a b = do
    v ← (compact_type_jubjub_point o).to_value a
    w ← o.big_int_to_value b
    u ← j.ec_mul v w
    point_of u

  unfoldable pub ec_mul_generator : ℤ → Result Point
  ec_mul_generator b = do w ← o.big_int_to_value b; u ← j.ec_mul_generator w; point_of u

  unfoldable pub jubjub_schnorr_verifying_key : ℤ → Result Point
  unfolding ec_mul_generator
  jubjub_schnorr_verifying_key signing_key =
      ec_mul_generator (convert_numeric_to_jubjub_scalar signing_key)

  -- `sampled` is what `ocrt.jubjubSampleScalar()` returns.
  unfoldable pub jubjub_sample_scalar : Value → Result ℤ
  jubjub_sample_scalar sampled = do n ← o.value_to_big_int sampled; ok (pos n)

  module _ (h : Hashes) {A : Type 0} (rt_type : CompactType A) (msg : A) where
    -- The challenge, which both functions compute in the same way.
    unfoldable pub challenge : Point → Point → Result ℤ
    challenge announcement verifying_key = do
      a ← (compact_type_jubjub_point o).to_value announcement
      k ← (compact_type_jubjub_point o).to_value verifying_key
      v ← rt_type.to_value msg
      digest ←
          h.transient_hash
            ((compact_type_jubjub_point o).alignment
              ++ (compact_type_jubjub_point o).alignment
              ++ rt_type.alignment)
            (a ++ k ++ v)
      n ← o.value_to_big_int digest
      ok (convert_numeric_to_jubjub_scalar (pos n))

    unfoldable pub jubjub_schnorr_sign : Value → ℤ → Result JubjubSchnorrSignature
    unfolding jubjub_sample_scalar ec_mul_generator challenge
    jubjub_schnorr_sign sampled signing_key = do
      r ← jubjub_sample_scalar sampled
      announcement ← ec_mul_generator r
      verifying_key ← ec_mul_generator signing_key
      c ← challenge announcement verifying_key
      ok (record {
        announcement = announcement;
        response = convert_numeric_to_jubjub_scalar (r +ℤ c *ℤ signing_key);
      })

    unfoldable pub jubjub_schnorr_verify : Point → JubjubSchnorrSignature → Result Bool
    unfolding challenge ec_mul_generator ec_mul ec_add
    jubjub_schnorr_verify verifying_key sig = do
      c ← challenge sig.announcement verifying_key
      lhs ← ec_mul_generator sig.response
      p ← ec_mul verifying_key c
      rhs ← ec_add sig.announcement p
      ok (eq_ℤ lhs.x rhs.x && eq_ℤ lhs.y rhs.y)
