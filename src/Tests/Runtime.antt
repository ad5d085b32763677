-- ===== src/Tests/Runtime.antt =====
-- A concrete field encoding with the documented laws of `@midnightntwrk/onchain-runtime-v4`, for
-- the tests.
use native.Mathlib.Nat.{pow-suc}
use compact.Base.{
  ℕ, zero, suc, ◌/◌, ◌%◌, ◌^◌, ◌≤◌, ◌<◌, ◌≡◌, refl, arith, List, [], ◌∷◌, leb, ◌==◌, if◌then◌else◌,
  Bool-cases, inl, inr, Result, ok, err, message,
}
use compact.Base.Bytes.{le_value, IsBytes, IsNormal}
use compact.Base.Int.{ℤ, pos, negsuc}
use compact.Codec.Ocrt.{Ocrt, IsOcrt, IsFieldElement}

-- The digits in base 256, with fuel for as many bytes as a field element has.
unfoldable pub digits : ℕ → ℕ → List ℕ
digits zero x = []
digits (suc n) x = let rest = digits n (x / 256) in if x == 0 then [] else x % 256 ∷ rest

digits_lem :
    (n x : ℕ)
    → x < 256 ^ n
    → IsBytes (digits n x) × IsNormal (digits n x) × (le_value (digits n x) ≡ x)
unfolding digits
digits_lem zero x h = (tt, tt, omega arith)
digits_lem (suc n) x h =
    let (is_bytes, is_normal, value) = digits_lem n (x / 256) (omega (arith, pow-suc 256 n)) in
    elim (Bool-cases (x == 0)) [
      | inl none ↦ rw none (tt, tt, ground arith)
      | inr some ↦ rw some ((omega arith, is_bytes), (ground arith, is_normal), omega arith)
    ]

abbrev modulus_less_one : ℕ
modulus_less_one = 0x73eda753299d7d483339d80809a1d80553bda402fffe5bfeffffffff00000000

unfoldable pub encode_field : ℤ → Result (List (List ℕ))
encode_field (pos x) =
    if leb x modulus_less_one then ok (digits 32 x ∷ []) else err (message "out of range")
encode_field (negsuc n) = err (message "negative")

unfoldable pub decode_field : List (List ℕ) → Result ℕ
decode_field (a ∷ []) =
    if leb (le_value a) modulus_less_one then ok (le_value a) else err (message "out of range")
decode_field [] = err (message "no atom")
decode_field (a ∷ b ∷ v) = err (message "several atoms")

unfoldable pub runtime : Ocrt
runtime = record {
  max_field = modulus_less_one;
  big_int_to_value = encode_field;
  value_to_big_int = decode_field;
}

encode_field-only : (z : ℤ) (v : List (List ℕ)) → encode_field z ≡ ok v → IsFieldElement runtime z
unfolding runtime encode_field
encode_field-only (pos x) v h = elim (Bool-cases (leb x modulus_less_one)) [
  | inl fits ↦ (x, refl, ground arith)
  | inr over ↦ ground arith
]
encode_field-only (negsuc n) v h = cc

decode_field-only : (v : List (List ℕ)) (x : ℕ) → decode_field v ≡ ok x → x ≤ modulus_less_one
unfolding decode_field
decode_field-only [] x h = cc
decode_field-only (a ∷ []) x h = ground arith
decode_field-only (a ∷ b ∷ v) x h = cc

pub runtime-IsOcrt : IsOcrt runtime
unfolding runtime encode_field decode_field
runtime-IsOcrt = record {
  encodes = λ x h.
      let (is_bytes, is_normal, value) = digits_lem 32 x (omega arith) in
      (digits 32 x, ground arith, is_bytes, is_normal, value);
  encodes_only = encode_field-only;
  decodes = λ a h k. ground arith;
  decodes_only = decode_field-only;
  wide = omega arith;
  narrow = omega arith;
}
