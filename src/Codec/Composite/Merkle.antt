-- ===== src/Codec/Composite/Merkle.antt =====
-- The types of digests, entries and paths of Merkle trees in runtime/src/compact-types.ts.
use mathlib.Core.Path.{subst}
use compact.Base.{ℕ, ◌≡◌, refl, arith, [], ◌∷◌, ◌++◌, append_assoc, length, All, ok, >>=-eq-ok}
use compact.Base.Int.{pos}
use compact.Codec.{Value, CompactType}
use compact.Codec.Ocrt.{Ocrt, IsOcrt, IsFieldElement, atom_of, atom_fits}
use compact.Codec.Laws.{IsCodec, Encodes, Fits-append, HasBytes}
use compact.Codec.Scalar.{compact_type_boolean}
use compact.Codec.Scalar.Boolean.{boolean-IsCodec}
use compact.Codec.Composite.{
  MerkleTreeDigest, MerkleTreePathEntry, MerkleTreePath, compact_type_merkle_tree_digest,
  compact_type_merkle_tree_path_entry, compact_type_merkle_tree_path, compact_type_vector,
}
use compact.Codec.Composite.Vector.{vector-IsCodec}

module _ {o : Ocrt} (l : IsOcrt o) where
  abbrev IsDigest : MerkleTreeDigest → Type 0
  IsDigest d = IsFieldElement o d.digest

  digest-Encodes :
      (d : MerkleTreeDigest)
      → IsDigest d
      → (v : Value) × Encodes (compact_type_merkle_tree_digest o) d v
  unfolding compact_type_merkle_tree_digest
  digest-Encodes d (x, d-eq, h) =
      let (a, w) = atom_of l x h in
      (
        a ∷ [],
        record {
          gives = rw d-eq w.gives;
          fits = ((w.is_bytes, w.is_normal, atom_fits 32 w (omega (arith, l.narrow))), tt);
          back = λ rest. rw w.reads (ground arith);
        },
      )

  compact_type_merkle_tree_digest-decodes :
      (v rest : Value) (d : MerkleTreeDigest)
      → HasBytes v
      → (compact_type_merkle_tree_digest o).from_value v ≡ ok (d, rest)
      → IsDigest d × HasBytes rest
  unfolding compact_type_merkle_tree_digest
  compact_type_merkle_tree_digest-decodes [] rest d b h = cc
  compact_type_merkle_tree_digest-decodes (a ∷ v) rest d (_, b) h =
      let (x, read, same) = >>=-eq-ok (o.value_to_big_int (a ∷ [])) _ h in
      let d-eq : d.digest ≡ pos x = ground arith in
      let rest-eq : v ≡ rest = cc in
      ((x, d-eq, l.decodes_only (a ∷ []) x read), subst HasBytes rest-eq b)

  compact_type_merkle_tree_digest-IsCodec : IsCodec (compact_type_merkle_tree_digest o) IsDigest
  compact_type_merkle_tree_digest-IsCodec = record {
    encodes = digest-Encodes;
    decodes = compact_type_merkle_tree_digest-decodes;
  }

  entry-Encodes :
      (e : MerkleTreePathEntry)
      → IsDigest e.sibling
      → (v : Value) × Encodes (compact_type_merkle_tree_path_entry o) e v
  unfolding compact_type_merkle_tree_path_entry
  entry-Encodes e h =
      let (v, d) = compact_type_merkle_tree_digest-IsCodec.encodes e.sibling h in
      let (w, b) = boolean-IsCodec.encodes e.goes_left tt in
      (
        v ++ w,
        record {
          gives = rw (d.gives, b.gives) refl;
          fits = Fits-append v w _ _ d.fits b.fits;
          back = λ rest. rw (append_assoc v w rest, d.back (w ++ rest), b.back rest) refl;
        },
      )

  entry-decodes :
      (v rest : Value) (e : MerkleTreePathEntry)
      → HasBytes v
      → (compact_type_merkle_tree_path_entry o).from_value v ≡ ok (e, rest)
      → IsDigest e.sibling × HasBytes rest
  unfolding compact_type_merkle_tree_path_entry
  entry-decodes v rest e b h =
      let ((s, v_1), read, h') = >>=-eq-ok ((compact_type_merkle_tree_digest o).from_value v) _ h in
      let ((g, rest'), more, same) = >>=-eq-ok (compact_type_boolean.from_value v_1) _ h' in
      let (valid, b') = compact_type_merkle_tree_digest-decodes v v_1 s b read in
      let (_, b'') = boolean-IsCodec.decodes v_1 rest' g b' more in
      let s-eq : s ≡ e.sibling = ground arith in
      let rest-eq : rest' ≡ rest = cc in (subst IsDigest s-eq valid, subst HasBytes rest-eq b'')

  abbrev IsEntry : MerkleTreePathEntry → Type 0
  IsEntry e = IsFieldElement o e.sibling.digest

  compact_type_merkle_tree_path_entry-IsCodec :
      IsCodec (compact_type_merkle_tree_path_entry o) IsEntry
  compact_type_merkle_tree_path_entry-IsCodec = record {
    encodes = entry-Encodes;
    decodes = entry-decodes;
  }

-- A path is valid if its leaf is, its length is the type's, and its digests are field elements.
abbrev pub IsPath : (o : Ocrt) {A : Type 0} → (A → Type 0) → ℕ → MerkleTreePath A → Type 0
IsPath o IsLeaf n p =
    IsLeaf p.leaf × All (λ e. IsFieldElement o e.sibling.digest) p.path × (length p.path ≡ n)

module _ {o : Ocrt} (l : IsOcrt o) {A : Type 0} {IsLeaf : A → Type 0} (leaf : CompactType A)
    (c : IsCodec leaf IsLeaf) (n : ℕ) where
  path-Encodes :
      (p : MerkleTreePath A)
      → IsPath o IsLeaf n p
      → (v : Value) × Encodes (compact_type_merkle_tree_path o n leaf) p v
  unfolding compact_type_merkle_tree_path
  path-Encodes p (valid, entries, len) =
      let (v, d) = c.encodes p.leaf valid in
      let (w, b) =
        (vector-IsCodec _ (compact_type_merkle_tree_path_entry-IsCodec l) n).encodes p.path
          (entries, len) in
      (
        v ++ w,
        record {
          gives = rw (d.gives, b.gives) refl;
          fits = Fits-append v w _ _ d.fits b.fits;
          back = λ rest. rw (append_assoc v w rest, d.back (w ++ rest), b.back rest) refl;
        },
      )

  compact_type_merkle_tree_path-decodes :
      (v rest : Value) (p : MerkleTreePath A)
      → HasBytes v
      → (compact_type_merkle_tree_path o n leaf).from_value v ≡ ok (p, rest)
      → IsPath o IsLeaf n p × HasBytes rest
  unfolding compact_type_merkle_tree_path
  compact_type_merkle_tree_path-decodes v rest p b h =
      let entries = compact_type_vector (compact_type_merkle_tree_path_entry o) n in
      let ((x, v_1), read, h') = >>=-eq-ok (leaf.from_value v) _ h in
      let ((es, rest'), more, same) = >>=-eq-ok (entries.from_value v_1) _ h' in
      let (valid, b') = c.decodes v v_1 x b read in
      let ((all, len), b'') =
        (vector-IsCodec _ (compact_type_merkle_tree_path_entry-IsCodec l) n).decodes v_1 rest' es b'
          more in
      let p-eq : record { leaf = x; path = es } ≡ p = ground arith in
      let rest-eq : rest' ≡ rest = cc in
      (subst (IsPath o IsLeaf n) p-eq (valid, all, len), subst HasBytes rest-eq b'')

  -- CompactTypeMerkleTreePath of length n over a codec of the leaf is a codec of the paths with a
  -- valid leaf and n entries whose digests are field elements, with an encoding of field elements
  -- that has the documented laws.
  pub compact_type_merkle_tree_path-IsCodec :
      IsCodec (compact_type_merkle_tree_path o n leaf) (IsPath o IsLeaf n)
  compact_type_merkle_tree_path-IsCodec = record {
    encodes = path-Encodes;
    decodes = compact_type_merkle_tree_path-decodes;
  }
