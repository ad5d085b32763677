-- ===== src/Schnorr/Laws.antt =====
-- What is documented of the embedded curve, and the operations of runtime/src/built-ins.ts on the
-- multiples of its generator.
use compact.Base.{ℕ, ◌+◌, ◌*◌, ◌%◌, ◌<◌, ◌≡◌, refl, arith, [], ok}
use compact.Base.Int.{pos}
use compact.Constants.{jubjub_scalar_modulus}
use compact.Codec.{Value}
use compact.Codec.Ocrt.{Ocrt, IsOcrt}
use compact.Codec.Point.{Point, compact_type_jubjub_point}
use compact.Codec.Point.Plain.{IsFieldPoint, jubjub_point-IsCodec}
use compact.Schnorr.{EmbeddedCurve, ec_add, ec_mul, ec_mul_generator}

-- The multiples of the generator are a cyclic group whose order is the modulus of the scalars.
pub record IsEmbeddedCurve (o : Ocrt) (j : EmbeddedCurve) : Type 0 where
  pub multiple : ℕ → Point
  pub in_field : (n : ℕ) → IsFieldPoint o (multiple n)
  pub generates :
      (n : ℕ) (w : Value)
      → n < jubjub_scalar_modulus
      → o.big_int_to_value (pos n) ≡ ok w
      → (u : Value) × (j.ec_mul_generator w ≡ ok u)
        × ((compact_type_jubjub_point o).from_value u ≡ ok (multiple n, []))
  pub adds :
      (m n : ℕ) (v w : Value)
      → (compact_type_jubjub_point o).to_value (multiple m) ≡ ok v
      → (compact_type_jubjub_point o).to_value (multiple n) ≡ ok w
      → (u : Value) × (j.ec_add v w ≡ ok u)
        × ((compact_type_jubjub_point o).from_value u
            ≡ ok (multiple ((m + n) % jubjub_scalar_modulus), []))
  pub multiplies :
      (m n : ℕ) (v w : Value)
      → n < jubjub_scalar_modulus
      → (compact_type_jubjub_point o).to_value (multiple m) ≡ ok v
      → o.big_int_to_value (pos n) ≡ ok w
      → (u : Value) × (j.ec_mul v w ≡ ok u)
        × ((compact_type_jubjub_point o).from_value u
            ≡ ok (multiple ((m * n) % jubjub_scalar_modulus), []))

module _ {o : Ocrt} {j : EmbeddedCurve} (l : IsOcrt o) (k : IsEmbeddedCurve o j) where
  pub ec_mul_generator_multiple :
      (n : ℕ) → n < jubjub_scalar_modulus → ec_mul_generator o j (pos n) ≡ ok (k.multiple n)
  unfolding ec_mul_generator
  ec_mul_generator_multiple n h =
      let (a, gives, _, _, _) = l.encodes n (omega (arith, l.wide)) in
      let (u, made, reads) = k.generates n _ h gives in rw (gives, made, reads) refl

  pub ec_add_multiple :
      (m n : ℕ)
      → ec_add o j (k.multiple m) (k.multiple n) ≡ ok (k.multiple ((m + n) % jubjub_scalar_modulus))
  unfolding ec_add
  ec_add_multiple m n =
      let (v, ev) = (jubjub_point-IsCodec l).encodes (k.multiple m) (k.in_field m) in
      let (w, ew) = (jubjub_point-IsCodec l).encodes (k.multiple n) (k.in_field n) in
      let (u, made, reads) = k.adds m n v w ev.gives ew.gives in
      rw (ev.gives, ew.gives, made, reads) refl

  pub ec_mul_multiple :
      (m n : ℕ)
      → n < jubjub_scalar_modulus
      → ec_mul o j (k.multiple m) (pos n) ≡ ok (k.multiple ((m * n) % jubjub_scalar_modulus))
  unfolding ec_mul
  ec_mul_multiple m n h =
      let (v, ev) = (jubjub_point-IsCodec l).encodes (k.multiple m) (k.in_field m) in
      let (a, gives, _, _, _) = l.encodes n (omega (arith, l.wide)) in
      let (u, made, reads) = k.multiplies m n v _ h ev.gives gives in
      rw (ev.gives, gives, made, reads) refl
