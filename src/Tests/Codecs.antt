-- ===== src/Tests/Codecs.antt =====
-- runtime/src/compact-types.ts at concrete inputs.
use compact.Base.{
  ℕ, ◌^◌, ◌<◌, ◌≡◌, refl, arith, Bool, true, false, List, [], ◌∷◌, ◌++◌, length, ok, All,
}
use compact.Base.Bytes.{le_value, IsBytes}
use compact.Base.Int.{pos}
use compact.Constants.{max_secp256k1_base}
use compact.Codec.{Value}
use compact.Codec.Laws.{Encodes, Fits}
use compact.Codec.Foreign.{
  foreign_field, compact_type_secp256k1_base, compact_type_curve25519_scalar,
}
use compact.Codec.Foreign.Laws.{foreign_field-IsCodec}
use compact.Codec.Foreign.Curve25519.{curve25519_scalar-IsCodec}
use compact.Codec.Scalar.{
  integer, compact_type_enum, compact_type_unsigned_integer, compact_type_bytes,
}
use compact.Codec.Scalar.Enum.{enum-IsCodec, enum_five_bytes}
use compact.Codec.Scalar.Unsigned.{unsigned-IsCodec}
use compact.Codec.Scalar.Bytes.{compact_type_bytes-IsCodec}
use compact.Codec.Point.{FlaggedPoint, compact_type_secp256k1_point, flagged_point}
use compact.Codec.Point.Laws.{secp256k1_point_round_trip}
use compact.Codec.Composite.{MerkleTreePath, compact_type_vector, compact_type_merkle_tree_path}
use compact.Codec.Composite.Vector.{vector-IsCodec}
use compact.Codec.Composite.Merkle.{compact_type_merkle_tree_path-IsCodec}
use compact.Codec.Binary.{to_binary_repr}
use compact.Codec.Binary.Laws.{to_binary_repr_lem}
use compact.Codec.Binary.Injective.{to_binary_repr-injective}
use compact.Tests.Runtime.{runtime, runtime-IsOcrt}

foreign_field-IsCodec_example :
    (v : Value) × Encodes (foreign_field runtime max_secp256k1_base "Secp256k1Base") (pos 0) v
foreign_field-IsCodec_example =
    (foreign_field-IsCodec runtime-IsOcrt max_secp256k1_base "Secp256k1Base"
        (omega arith)).0.encodes
      (pos 0) (0, refl, omega arith)

curve25519_scalar-IsCodec_example :
    (v : Value) × Encodes (compact_type_curve25519_scalar runtime) (pos (2 ^ 250)) v
curve25519_scalar-IsCodec_example =
    (curve25519_scalar-IsCodec runtime-IsOcrt).0.encodes (pos (2 ^ 250))
      (2 ^ 250, refl, omega arith)

enum-IsCodec_example : (v : Value) × Encodes (compact_type_enum runtime 300 2) (integer (pos 258)) v
enum-IsCodec_example =
    (enum-IsCodec runtime-IsOcrt 300 2 (omega arith) (omega arith)).0.encodes (integer (pos 258))
      (258, refl, omega arith)

enum_five_bytes_example :
    (le_value (0 ∷ 0 ∷ 0 ∷ 0 ∷ 1 ∷ []) ≡ 2 ^ 32)
    × ((compact_type_enum runtime 2 1).from_value ((0 ∷ 0 ∷ 0 ∷ 0 ∷ 1 ∷ []) ∷ [])
        ≡ ok (integer (pos 1), []))
enum_five_bytes_example = enum_five_bytes runtime 2 1 1 [] (omega arith)

unsigned-IsCodec_example :
    (v : Value) × Encodes (compact_type_unsigned_integer runtime 65535 2) (pos 4660) v
unsigned-IsCodec_example =
    (unsigned-IsCodec runtime-IsOcrt 65535 2 (omega arith)
        (omega (arith, runtime-IsOcrt.wide))).0.encodes
      (pos 4660) (4660, refl, omega arith)

compact_type_bytes-IsCodec_example : (v : Value) × Encodes (compact_type_bytes 3) (1 ∷ 2 ∷ 0 ∷ []) v
compact_type_bytes-IsCodec_example =
    (compact_type_bytes-IsCodec 3).encodes (1 ∷ 2 ∷ 0 ∷ [])
      ((omega arith, (omega arith, (omega arith, tt))), refl)

abbrev flagged : Bool → FlaggedPoint
flagged identity = record { x = pos 3; y = pos 5; identity = identity }

secp256k1_point_round_trip_example :
    (v : Value) × ((compact_type_secp256k1_point runtime).to_value (flagged true) ≡ ok v)
    × Fits v (compact_type_secp256k1_point runtime).alignment
    × ((rest : Value)
        → (compact_type_secp256k1_point runtime).from_value (v ++ rest)
          ≡ ok (record { x = pos 0; y = pos 0; identity = true }, rest))
secp256k1_point_round_trip_example =
    secp256k1_point_round_trip runtime-IsOcrt (flagged true) (3, refl, omega arith)
      (5, refl, omega arith)

-- Two rows of two bytes.
abbrev rows : List (List ℕ)
rows = (1 ∷ 0 ∷ []) ∷ (0 ∷ 3 ∷ []) ∷ []

two_bytes :
    (a b : ℕ) → a < 256 → b < 256 → All (λ c. c < 256) (a ∷ b ∷ []) × (length (a ∷ b ∷ []) ≡ 2)
two_bytes a b h k = ((h, (k, tt)), refl)

rows-IsValid : All (λ r. All (λ c. c < 256) r × (length r ≡ 2)) rows × (length rows ≡ 2)
rows-IsValid = (
  (two_bytes 1 0 (omega arith) (omega arith), (two_bytes 0 3 (omega arith) (omega arith), tt)),
  refl,
)

vector-IsCodec_example : (v : Value) × Encodes (compact_type_vector (compact_type_bytes 2) 2) rows v
vector-IsCodec_example =
    (vector-IsCodec (compact_type_bytes 2) (compact_type_bytes-IsCodec 2) 2).encodes rows
      rows-IsValid

abbrev branch : MerkleTreePath (List ℕ)
branch = record {
  leaf = 1 ∷ 0 ∷ [];
  path = record { sibling = record { digest = pos 9 }; goes_left = true } ∷ [];
}

compact_type_merkle_tree_path-IsCodec_example :
    (v : Value) × Encodes (compact_type_merkle_tree_path runtime 1 (compact_type_bytes 2)) branch v
compact_type_merkle_tree_path-IsCodec_example =
    (compact_type_merkle_tree_path-IsCodec runtime-IsOcrt (compact_type_bytes 2)
        (compact_type_bytes-IsCodec 2) 1).encodes
      branch
      (
        two_bytes 1 0 (omega arith) (omega arith),
        ((9, refl, omega (arith, runtime-IsOcrt.wide)), tt),
        refl,
      )

to_binary_repr_lem_example :
    to_binary_repr (compact_type_vector (compact_type_bytes 2) 2) rows ≡ ok (1 ∷ 0 ∷ 0 ∷ 3 ∷ [])
unfolding compact_type_vector compact_type_bytes
to_binary_repr_lem_example =
    to_binary_repr_lem (compact_type_vector (compact_type_bytes 2) 2) rows
      ((1 ∷ []) ∷ (0 ∷ 3 ∷ []) ∷ []) refl (ground arith) tt

to_binary_repr-injective_example : rows ≡ rows
unfolding compact_type_vector compact_type_bytes
to_binary_repr-injective_example =
    to_binary_repr-injective (compact_type_vector (compact_type_bytes 2) 2)
      (vector-IsCodec (compact_type_bytes 2) (compact_type_bytes-IsCodec 2) 2) tt rows rows
      rows-IsValid rows-IsValid refl

-- The five atoms of the point (3, 5): each coordinate has a low limb and an empty high one.
abbrev encoded : Value
encoded = (2 ∷ []) ∷ [] ∷ (4 ∷ []) ∷ [] ∷ [] ∷ []

decodes_small :
    (a : List ℕ)
    → IsBytes a
    → le_value a < 256
    → runtime.value_to_big_int (a ∷ []) ≡ ok (le_value a)
decodes_small a h k = runtime-IsOcrt.decodes a h (omega (arith, runtime-IsOcrt.wide))

encoded-decodes : (compact_type_secp256k1_point runtime).from_value encoded ≡ ok (flagged false, [])
unfolding compact_type_secp256k1_point compact_type_secp256k1_base foreign_field flagged_point
encoded-decodes =
    let none = decodes_small [] tt (omega arith) in
    let two = decodes_small (2 ∷ []) (ground arith) (omega arith) in
    let four = decodes_small (4 ∷ []) (ground arith) (omega arith) in
    rw (two, none, four, none, none) refl
