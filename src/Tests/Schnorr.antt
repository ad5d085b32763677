-- ===== src/Tests/Schnorr.antt =====
-- A signature on a curve whose points are the scalars.
use compact.Base.{
  ℕ, ◌+◌, ◌*◌, ◌%◌, ◌<◌, ◌≡◌, ◌∙◌, refl, sym, ap, arith, true, [], ◌∷◌, append-nil, Result, ok,
  ◌>>=◌, ok-injective,
}
use compact.Base.Int.{pos, pos_part}
use compact.Constants.{jubjub_scalar_modulus}
use compact.Codec.{Value}
use compact.Codec.Ocrt.{atom_of}
use compact.Codec.Field.{compact_type_field}
use compact.Codec.Point.{Point, compact_type_jubjub_point}
use compact.Codec.Point.Plain.{IsFieldPoint, jubjub_point-IsCodec}
use compact.Fields.Ring.{mod-mul}
use compact.Hashes.{Hashes}
use compact.Schnorr.{
  EmbeddedCurve, JubjubSchnorrSignature, jubjub_schnorr_verifying_key, jubjub_schnorr_sign,
  jubjub_schnorr_verify,
}
use compact.Schnorr.Laws.{IsEmbeddedCurve}
use compact.Schnorr.Verified.{jubjub_schnorr_sign_verifies}
use compact.Tests.Runtime.{digits, encode_field, decode_field, runtime, runtime-IsOcrt}

abbrev scalar : ℕ → Point
scalar n = record { x = pos (n % jubjub_scalar_modulus); y = pos 0 }

abbrev write : ℕ → Result Value
write n = (compact_type_jubjub_point runtime).to_value (scalar n)

abbrev scalars : EmbeddedCurve
scalars = record {
  hash_to_curve = λ a v. write 1;
  ec_add = λ v w. do
    (p, _) ← (compact_type_jubjub_point runtime).from_value v
    (r, _) ← (compact_type_jubjub_point runtime).from_value w
    write (pos_part p.x + pos_part r.x);
  ec_mul = λ v w. do
    (p, _) ← (compact_type_jubjub_point runtime).from_value v
    n ← runtime.value_to_big_int w
    write (pos_part p.x * n);
  ec_mul_generator = λ w. do
    n ← runtime.value_to_big_int w
    write n;
}

scalar-IsFieldPoint : (n : ℕ) → IsFieldPoint runtime (scalar n)
scalar-IsFieldPoint n = (
  (n % jubjub_scalar_modulus, refl, omega (arith, runtime-IsOcrt.wide)),
  (0, refl, omega (arith, runtime-IsOcrt.wide)),
)

reads_point :
    (n : ℕ) (v : Value)
    → write n ≡ ok v
    → (compact_type_jubjub_point runtime).from_value v ≡ ok (scalar n, [])
reads_point n v h =
    let (u, e) = (jubjub_point-IsCodec runtime-IsOcrt).encodes (scalar n) (scalar-IsFieldPoint n) in
    ap (compact_type_jubjub_point runtime).from_value
      (sym (ok-injective (sym e.gives ∙ h)) ∙ sym (append-nil u))
    ∙ e.back []

-- What is written can be read.
written :
    (n : ℕ)
    → (v : Value) × (write n ≡ ok v)
      × ((compact_type_jubjub_point runtime).from_value v ≡ ok (scalar n, []))
written n =
    let (u, e) = (jubjub_point-IsCodec runtime-IsOcrt).encodes (scalar n) (scalar-IsFieldPoint n) in
    (u, e.gives, reads_point n u e.gives)

reads_scalar :
    (n : ℕ) (w : Value)
    → n < jubjub_scalar_modulus
    → runtime.big_int_to_value (pos n) ≡ ok w
    → runtime.value_to_big_int w ≡ ok n
reads_scalar n w h e =
    let (a, i) = atom_of runtime-IsOcrt n (omega (arith, runtime-IsOcrt.wide)) in
    ap runtime.value_to_big_int (ok-injective (sym e ∙ i.gives)) ∙ i.reads

sum_reduced :
    (m n : ℕ)
    → (m % jubjub_scalar_modulus + n % jubjub_scalar_modulus) % jubjub_scalar_modulus
      ≡ ((m + n) % jubjub_scalar_modulus) % jubjub_scalar_modulus
sum_reduced m n = omega arith

reduced_twice :
    (n : ℕ) → n % jubjub_scalar_modulus ≡ n % jubjub_scalar_modulus % jubjub_scalar_modulus
reduced_twice n = omega arith

scalars-IsEmbeddedCurve : IsEmbeddedCurve runtime scalars
scalars-IsEmbeddedCurve = record {
  multiple = scalar;
  in_field = scalar-IsFieldPoint;
  generates =
      λ n w h e. let (u, gives, reads) = written n in (u, rw (reads_scalar n w h e) gives, reads);
  adds = λ m n v w ev ew.
      let (u, gives, reads) = written (m % jubjub_scalar_modulus + n % jubjub_scalar_modulus) in
      (
        u,
        rw (reads_point m v ev, reads_point n w ew) gives,
        reads ∙ ap (λ x. ok (record { x = pos x; y = pos 0 }, [])) (sum_reduced m n),
      );
  multiplies = λ m n v w h ev e.
      let (u, gives, reads) = written (m % jubjub_scalar_modulus * n) in
      (
        u,
        rw (reads_point m v ev, reads_scalar n w h e) gives,
        reads
            ∙ ap (λ x. ok (record { x = pos x; y = pos 0 }, []))
                (mod-mul jubjub_scalar_modulus m n ∙ reduced_twice (m * n)),
      );
}

-- Every transient hash is 9.
abbrev hashes : Hashes
hashes = record {
  transient_hash = λ a v. runtime.big_int_to_value (pos 9);
  transient_commit = λ a v w. ok v;
  persistent_hash = λ a v. ok v;
  persistent_commit = λ a v w. ok v;
  degrade_to_transient = λ v. ok v;
  upgrade_from_transient = λ v. ok v;
  keccak_256 = λ b. b;
  sha512 = λ b. b;
}

writes_nine : runtime.big_int_to_value (pos 9) ≡ ok ((9 ∷ []) ∷ [])
unfolding runtime encode_field digits
writes_nine = refl

reads_nine : runtime.value_to_big_int ((9 ∷ []) ∷ []) ≡ ok 9
unfolding runtime decode_field
reads_nine = refl

reads_seven : runtime.value_to_big_int ((7 ∷ []) ∷ []) ≡ ok 7
unfolding runtime decode_field
reads_seven = refl

message_encoded : (compact_type_field runtime).to_value (pos 5) ≡ ok ((5 ∷ []) ∷ [])
unfolding compact_type_field runtime encode_field digits
message_encoded = refl

-- The message 5, the nonce 7 and the key 3.
jubjub_schnorr_sign_verifies_example :
    (verifying_key : Point) × (sig : JubjubSchnorrSignature) × (jubjub_schnorr_verifying_key runtime
        scalars
        (pos 3)
      ≡ ok verifying_key)
    × (jubjub_schnorr_sign runtime scalars hashes
          (compact_type_field runtime)
          (pos 5)
          ((7 ∷ []) ∷ [])
          (pos 3)
        ≡ ok sig)
    × (jubjub_schnorr_verify runtime scalars hashes
          (compact_type_field runtime)
          (pos 5)
          verifying_key
          sig
        ≡ ok true)
jubjub_schnorr_sign_verifies_example =
    jubjub_schnorr_sign_verifies hashes runtime-IsOcrt scalars-IsEmbeddedCurve
      (λ a v. ((9 ∷ []) ∷ [], 9, writes_nine, reads_nine)) (compact_type_field runtime) (pos 5)
      message_encoded ((7 ∷ []) ∷ []) 7 3 reads_seven (omega arith) (omega arith)
