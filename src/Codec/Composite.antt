-- ===== src/Codec/Composite.antt =====
-- The runtime types made of others: vectors, and the digests, entries and paths of Merkle trees.
pub mod Vector
pub mod Merkle
use compact.Base.{
  ℕ, zero, suc, String, Bool, not, List, [], ◌∷◌, ◌++◌, ◌==◌, if◌then◌else◌, length, Result, ok,
  err, expected, expected_array, ◌>>=◌,
}
use compact.Base.Int.{ℤ, pos}
use compact.Codec.{Value, Alignment, atom, field, CompactType}
use compact.Codec.Ocrt.{Ocrt}
use compact.Codec.Field.{shift}
use compact.Codec.Scalar.{compact_type_boolean}

module _ {A : Type 0} (type : CompactType A) where
  -- The loops of `CompactTypeVector`, with the number of rounds to go.
  vector_alignment : ℕ → Alignment
  vector_alignment zero = []
  vector_alignment (suc n) = type.alignment ++ vector_alignment n

  vector_from : ℕ → Value → Result (List A × Value)
  vector_from zero value = ok ([], value)
  vector_from (suc n) value = do
    (x, value_1) ← type.from_value value
    (xs, rest) ← vector_from n value_1
    ok (x ∷ xs, rest)

  vector_to : List A → Result Value
  vector_to [] = ok []
  vector_to (x ∷ xs) = do v ← type.to_value x; w ← vector_to xs; ok (v ++ w)

  unfoldable pub compact_type_vector : ℕ → CompactType (List A)
  unfolding vector_alignment vector_from vector_to
  compact_type_vector len = record {
    alignment = vector_alignment len;
    to_value =
        λ value. if not (length value == len) then err (expected_array len) else vector_to value;
    from_value = vector_from len;
  }

pub record MerkleTreeDigest : Type 0 where
  pub digest : ℤ

pub record MerkleTreePathEntry : Type 0 where
  pub sibling : MerkleTreeDigest
  pub goes_left : Bool

pub record MerkleTreePath (A : Type 0) : Type 0 where
  pub leaf : A
  pub path : List MerkleTreePathEntry

module _ (o : Ocrt) where
  unfoldable pub compact_type_merkle_tree_digest : CompactType MerkleTreeDigest
  compact_type_merkle_tree_digest = record {
    alignment = atom field ∷ [];
    to_value = λ value. o.big_int_to_value value.digest;
    from_value = λ value. do
      (val, rest) ← shift (expected "MerkleTreeDigest") value
      x ← o.value_to_big_int (val ∷ [])
      ok (record { digest = pos x }, rest);
  }

  unfoldable pub compact_type_merkle_tree_path_entry : CompactType MerkleTreePathEntry
  compact_type_merkle_tree_path_entry = record {
    alignment = compact_type_merkle_tree_digest.alignment ++ compact_type_boolean.alignment;
    to_value = λ value. do
      v ← compact_type_merkle_tree_digest.to_value value.sibling
      w ← compact_type_boolean.to_value value.goes_left
      ok (v ++ w);
    from_value = λ value. do
      (sibling, value_1) ← compact_type_merkle_tree_digest.from_value value
      (goes_left, rest) ← compact_type_boolean.from_value value_1
      ok (record { sibling = sibling; goes_left = goes_left }, rest);
  }

  unfoldable pub compact_type_merkle_tree_path :
      {A : Type 0} → ℕ → CompactType A → CompactType (MerkleTreePath A)
  compact_type_merkle_tree_path n leaf =
      let path = compact_type_vector compact_type_merkle_tree_path_entry n in
      record {
        alignment = leaf.alignment ++ path.alignment;
        to_value = λ value. do
          v ← leaf.to_value value.leaf
          w ← path.to_value value.path
          ok (v ++ w);
        from_value = λ value. do
          (l, value_1) ← leaf.from_value value
          (p, rest) ← path.from_value value_1
          ok (record { leaf = l; path = p }, rest);
      }
