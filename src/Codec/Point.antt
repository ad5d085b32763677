-- ===== src/Codec/Point.antt =====
-- The runtime types of points of elliptic curves.
pub mod Laws
pub mod Plain
use compact.Base.{
  ℕ, ◌+◌, String, Bool, true, false, not, ◌&&◌, List, [], ◌∷◌, ◌++◌, ltb, ◌==◌, if◌then◌else◌,
  length, Result, ok, err, expected, ◌>>=◌,
}
use compact.Base.Int.{ℤ, pos}
use compact.Codec.{Value, atom, field, CompactType}
use compact.Codec.Ocrt.{Ocrt}
use compact.Codec.Field.{shift}
use compact.Codec.Foreign.{
  splice2, compact_type_secp256k1_base, compact_type_secp256r1_base, compact_type_curve25519_base,
}

-- `JubjubPoint` and `Curve25519Point`
pub record Point : Type 0 where
  pub x : ℤ
  pub y : ℤ

-- `Secp256k1Point` and `Secp256r1Point`
pub record FlaggedPoint : Type 0 where
  pub x : ℤ
  pub y : ℤ
  pub identity : Bool

module _ (o : Ocrt) where
  unfoldable pub compact_type_jubjub_point : CompactType Point
  compact_type_jubjub_point = record {
    alignment = atom field ∷ atom field ∷ [];
    to_value = λ value. do
      x ← o.big_int_to_value value.x
      y ← o.big_int_to_value value.y
      ok (x ++ y);
    from_value = λ value. do
      (coordinate_0, coordinate_1, rest) ← splice2 (expected "JubjubPoint") value
      x ← o.value_to_big_int (coordinate_0 ∷ [])
      y ← o.value_to_big_int (coordinate_1 ∷ [])
      ok (record { x = pos x; y = pos y }, rest);
  }

  -- The two secp256 types have the same code over their base fields.
  unfoldable pub flagged_point : CompactType ℤ → String → CompactType FlaggedPoint
  flagged_point base name = record {
    alignment = base.alignment ++ (base.alignment ++ (atom field ∷ []));
    to_value = λ value. do
      x ← base.to_value (if value.identity then pos 0 else value.x)
      y ← base.to_value (if value.identity then pos 0 else value.y)
      flag ← o.big_int_to_value (if value.identity then pos 1 else pos 0)
      ok (x ++ (y ++ flag));
    from_value = λ value. if ltb (length value) 5 then err (expected name) else do
      (x, value_1) ← base.from_value value
      (y, value_2) ← base.from_value value_1
      (identity, rest) ← shift (expected name) value_2
      flag ← o.value_to_big_int (identity ∷ [])
      if not (flag == 0) && not (flag == 1)
          then err (expected name)
          else ok (record { x = x; y = y; identity = flag == 1 }, rest);
  }

  unfoldable pub compact_type_secp256k1_point : CompactType FlaggedPoint
  unfolding flagged_point
  compact_type_secp256k1_point = flagged_point (compact_type_secp256k1_base o) "Secp256k1Point"

  unfoldable pub compact_type_secp256r1_point : CompactType FlaggedPoint
  unfolding flagged_point
  compact_type_secp256r1_point = flagged_point (compact_type_secp256r1_base o) "Secp256r1Point"

  unfoldable pub compact_type_curve25519_point : CompactType Point
  compact_type_curve25519_point =
      let base = compact_type_curve25519_base o in
      record {
        alignment = base.alignment ++ base.alignment;
        to_value = λ value. do
          x ← base.to_value value.x
          y ← base.to_value value.y
          ok (x ++ y);
        from_value = λ value. if ltb (length value) 4 then err (expected "Curve25519Point") else do
          (x, value_1) ← base.from_value value
          (y, rest) ← base.from_value value_1
          ok (record { x = x; y = y }, rest);
      }
