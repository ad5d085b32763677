-- ===== src/Codec/Foreign.antt =====
-- The runtime types of foreign field values: two limbs of the value less 1 (in the field).
mod Limbs
pub mod Laws
pub mod Curve25519
use compact.Base.{
  ℕ, ◌+◌, ◌-◌, ◌*◌, ◌/◌, ◌^◌, bit_and, bit_or, String, List, [], ◌∷◌, ◌++◌, ltb, leb, ◌==◌,
  if◌then◌else◌, Result, ok, err, Error, expected, ◌>>=◌,
}
use compact.Base.Int.{ℤ, pos, negsuc}
use compact.Codec.{Value, Atom, atom, bytes, CompactType}
use compact.Codec.Ocrt.{Ocrt}
use compact.Constants.{
  max_secp256k1_base, max_secp256k1_scalar, max_secp256r1_base, max_secp256r1_scalar,
  max_curve25519_base, max_curve25519_scalar,
}

-- `value.splice(0, 2)` with the checks before it
abbrev pub splice2 : Error → Value → Result (Atom × Atom × Value)
splice2 e (a ∷ b ∷ rest) = ok (a, b, rest)
splice2 e (a ∷ []) = err e
splice2 e [] = err e

module _ (o : Ocrt) where
  unfoldable pub foreign_field_to_value : ℕ → String → ℤ → Result Value
  foreign_field_to_value max name (negsuc n) = err (expected name)
  foreign_field_to_value max name (pos value) = if ltb max value then err (expected name) else do
    let v = if value == 0 then max else value - 1
    low ← o.big_int_to_value (pos (bit_and v (2 ^ 192 - 1)))
    high ← o.big_int_to_value (pos (v / 2 ^ 192))
    ok (low ++ high)

  unfoldable pub foreign_field_from_value : ℕ → String → Value → Result (ℤ × Value)
  foreign_field_from_value max name value = do
    (limb_0, limb_1, rest) ← splice2 (expected name) value
    low192 ← o.value_to_big_int (limb_0 ∷ [])
    high64 ← o.value_to_big_int (limb_1 ∷ [])
    if leb (2 ^ 192) low192 then err (expected name) else do
      let res = bit_or (high64 * 2 ^ 192) low192
      let res' = if res == max then 0 else res + 1
      if ltb max res' then err (expected name) else ok (pos res', rest)

  -- `ForeignField8_24`
  unfoldable pub foreign_field : ℕ → String → CompactType ℤ
  unfolding foreign_field_to_value foreign_field_from_value
  foreign_field max name = record {
    alignment = atom (bytes 24) ∷ atom (bytes 8) ∷ [];
    to_value = foreign_field_to_value max name;
    from_value = foreign_field_from_value max name;
  }

  unfoldable pub compact_type_secp256k1_base : CompactType ℤ
  compact_type_secp256k1_base = foreign_field max_secp256k1_base "Secp256k1Base"

  unfoldable pub compact_type_secp256k1_scalar : CompactType ℤ
  compact_type_secp256k1_scalar = foreign_field max_secp256k1_scalar "Secp256k1Scalar"

  unfoldable pub compact_type_secp256r1_base : CompactType ℤ
  compact_type_secp256r1_base = foreign_field max_secp256r1_base "Secp256r1Base"

  unfoldable pub compact_type_secp256r1_scalar : CompactType ℤ
  compact_type_secp256r1_scalar = foreign_field max_secp256r1_scalar "Secp256r1Scalar"

  unfoldable pub compact_type_curve25519_base : CompactType ℤ
  compact_type_curve25519_base = foreign_field max_curve25519_base "Curve25519Base"

  unfoldable pub curve25519_scalar_to_value : ℤ → Result Value
  curve25519_scalar_to_value (negsuc n) = err (expected "Curve25519Scalar")
  curve25519_scalar_to_value (pos value) =
      if ltb max_curve25519_scalar value then err (expected "Curve25519Scalar") else do
        let v = if value == 0 then max_curve25519_scalar else value - 1
        low ← o.big_int_to_value (pos (bit_and v (2 ^ 204 - 1)))
        high ← o.big_int_to_value (pos (v / 2 ^ 204))
        ok (low ++ high)

  unfoldable pub curve25519_scalar_from_value : Value → Result (ℤ × Value)
  curve25519_scalar_from_value value = do
    (limb_0, limb_1, rest) ← splice2 (expected "Curve25519Scalar") value
    low204 ← o.value_to_big_int (limb_0 ∷ [])
    high51 ← o.value_to_big_int (limb_1 ∷ [])
    if leb (2 ^ 204) low204 then err (expected "Curve25519Scalar") else do
      let res = bit_or (high51 * 2 ^ 204) low204
      let res' = if res == max_curve25519_scalar then 0 else res + 1
      if ltb max_curve25519_scalar res' then err (expected "Curve25519") else ok (pos res', rest)

  unfoldable pub compact_type_curve25519_scalar : CompactType ℤ
  unfolding curve25519_scalar_to_value curve25519_scalar_from_value
  compact_type_curve25519_scalar = record {
    alignment = atom (bytes 26) ∷ atom (bytes 7) ∷ [];
    to_value = curve25519_scalar_to_value;
    from_value = curve25519_scalar_from_value;
  }
