-- ===== src/Codec/Scalar.antt =====
-- The runtime types whose values are one atom of bytes: enums, unsigned integers, booleans, byte
-- arrays and opaque values.
pub mod Enum
pub mod Unsigned
pub mod Boolean
pub mod Bytes
pub mod Opaque
use compact.Base.{
  ℕ, zero, suc, ◌+◌, ◌-◌, ◌*◌, ◌%◌, ◌^◌, String, Bool, true, false, List, [], ◌∷◌, ◌++◌, ltb, leb,
  ◌==◌, not, ◌&&◌, ◌||◌, if◌then◌else◌, length, take, get_elem?, replicate, none, some, Result, ok,
  err, Error, expected, expected_enum, expected_unsigned_integer, expected_bytes, ◌>>=◌,
}
use compact.Base.Int.{ℤ, pos, negsuc}
use compact.Codec.{Value, Atom, atom, bytes, compress, CompactType}
use compact.Codec.Ocrt.{Ocrt}
use compact.Codec.Field.{shift, compact_type_field}

-- The loop of `CompactTypeEnum.fromValue` from index i on. `1 << (8 * i)` is an operation on
-- 32-bit integers: it takes the shift count modulo 32.
enum_sum : ℕ → ℕ → Atom → ℕ
enum_sum res i [] = res
enum_sum res i (b ∷ val) = enum_sum (res + 2 ^ (8 * i % 32) * b) (i + 1) val

-- `CompactTypeEnum`. Its values are JavaScript numbers; `none` is one that is no integer.
pub data Number : Type 0 where
  integer : ℤ → Number
  fraction : Number

module _ (o : Ocrt) (max_value len : ℕ) where
  enum_to_value : Number → Result Value
  unfolding compact_type_field
  enum_to_value fraction = err (expected_enum max_value)
  enum_to_value (integer (negsuc n)) = err (expected_enum max_value)
  enum_to_value (integer (pos value)) =
      if ltb max_value value
      then err (expected_enum max_value)
      else (compact_type_field o).to_value (pos value)

  unfoldable pub compact_type_enum : CompactType Number
  unfolding enum_sum enum_to_value
  compact_type_enum = record {
    alignment = atom (bytes len) ∷ [];
    to_value = enum_to_value;
    from_value = λ value. do
      (val, rest) ← shift (expected_enum max_value) value
      let res = enum_sum 0 0 val
      if ltb max_value res then err (expected_enum max_value) else ok (integer (pos res), rest);
  }

-- The loop of `CompactTypeUnsignedInteger.fromValue` from index i on.
unsigned_sum : ℕ → ℕ → Atom → ℕ
unsigned_sum res i [] = res
unsigned_sum res i (b ∷ val) = unsigned_sum (res + 2 ^ (8 * i) * b) (i + 1) val

module _ (o : Ocrt) (max_value len : ℕ) where
  unsigned_to_value : ℤ → Result Value
  unfolding compact_type_field
  unsigned_to_value (negsuc n) = err (expected_unsigned_integer max_value)
  unsigned_to_value (pos value) =
      if ltb max_value value
      then err (expected_unsigned_integer max_value)
      else (compact_type_field o).to_value (pos value)

  unfoldable pub compact_type_unsigned_integer : CompactType ℤ
  unfolding unsigned_sum unsigned_to_value
  compact_type_unsigned_integer = record {
    alignment = atom (bytes len) ∷ [];
    to_value = unsigned_to_value;
    from_value = λ value. do
      (val, rest) ← shift (expected_unsigned_integer max_value) value
      let res = unsigned_sum 0 0 val
      if ltb max_value res then err (expected_unsigned_integer max_value) else ok (pos res, rest);
  }

-- `val.length > 1 || (val.length == 1 && val[0] != 1)`
no_boolean : Atom → Bool
no_boolean [] = false
no_boolean (b ∷ []) = not (b == 1)
no_boolean (b ∷ c ∷ val) = true

unfoldable pub compact_type_boolean : CompactType Bool
unfolding no_boolean
compact_type_boolean = record {
  alignment = atom (bytes 1) ∷ [];
  to_value = λ value. if value then ok ((1 ∷ []) ∷ []) else ok ([] ∷ []);
  from_value = λ value. do
    (val, rest) ← shift (expected "Boolean") value
    if no_boolean val then err (expected "Boolean") else ok (length val == 1, rest);
}

-- The loop `while (end > 0 && value[end - 1] == 0) end -= 1`
unfoldable pub trim_end : Atom → ℕ → ℕ
trim_end value zero = zero
trim_end value (suc end) = elim (get_elem? value end) [
  | none ↦ suc end
  | some b ↦ if b == 0 then trim_end value end else suc end
]

module _ (len : ℕ) where
  unfoldable pub compact_type_bytes : CompactType (List ℕ)
  unfolding trim_end
  compact_type_bytes = record {
    alignment = atom (bytes len) ∷ [];
    to_value = λ value.
        if ltb len (length value)
        then err (expected_bytes len)
        else ok (take (trim_end value (length value)) value ∷ []);
    from_value = λ value. do
      (val, rest) ← shift (expected_bytes len) value
      if ltb len (length val)
          then err (expected_bytes len)
          else ok (val ++ replicate (len - length val) 0, rest);
  }

-- `Opaque["Uint8Array"]`
unfoldable pub compact_type_opaque_uint8_array : CompactType (List ℕ)
compact_type_opaque_uint8_array = record {
  alignment = atom compress ∷ [];
  to_value = λ value. ok (value ∷ []);
  from_value = λ value. shift (expected "Opaque<'Uint8Array'>") value;
}

-- The platform's UTF-8 `TextEncoder` and `TextDecoder`, on strings of code points.
pub record TextCoder : Type 0 where
  pub encode : String → List ℕ
  pub decode : List ℕ → String

-- `Opaque["string"]`
unfoldable pub compact_type_opaque_string : TextCoder → CompactType String
compact_type_opaque_string t = record {
  alignment = atom compress ∷ [];
  to_value = λ value. ok (t.encode value ∷ []);
  from_value = λ value. do
    (val, rest) ← shift (expected "Opaque<'string'>") value
    ok (t.decode val, rest);
}
