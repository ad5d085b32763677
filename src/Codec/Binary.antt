-- ===== src/Codec/Binary.antt =====
-- `toBinaryRepr` of runtime/src/compact-types.ts: the bytes that the hash functions are given.
pub mod Laws
pub mod Injective
use compact.Base.{
  ℕ, zero, suc, ◌+◌, ◌-◌, List, [], ◌∷◌, ◌++◌, Option, none, some, ltb, if◌then◌else◌, length,
  get_elem?, take, drop, replicate, Result, ok, err, message, unexpected_segment, native_type_error,
  native_range_error, ◌>>=◌,
}
use compact.Codec.{
  Atom, Value, AlignmentAtom, compress, field, bytes, AlignmentSegment, atom, tagged, Alignment,
  CompactType,
}

-- `if (extra > 0) arrays.push(new Uint8Array(extra))`
push_zeros : ℕ → List Atom
push_zeros zero = []
push_zeros (suc extra) = replicate (suc extra) 0 ∷ []

-- One round of the first loop: the arrays that it pushes and what it adds to the length. `none` is
-- a read past the end of the value, whose length is then read.
segment_arrays : AlignmentSegment → Option Atom → Result (List Atom × ℕ)
segment_arrays (tagged tag) a = err (unexpected_segment tag)
segment_arrays (atom compress) a = err (message "cannot convert JS opaque values in toBinaryRepr")
segment_arrays (atom field) none = err native_type_error
segment_arrays (atom field) (some a) = ok (a ∷ push_zeros (32 - length a), 32)
segment_arrays (atom (bytes n)) none = err native_type_error
segment_arrays (atom (bytes n)) (some a) =
    ok ((if ltb 0 (length a) then a ∷ [] else []) ++ push_zeros (n - length a), n)

-- The first loop from segment i on.
gather : Alignment → ℕ → Value → Result (List Atom × ℕ)
gather [] i value = ok ([], 0)
gather (s ∷ alignment) i value = do
  (arrays, len) ← segment_arrays s (get_elem? value i)
  (more, rest) ← gather alignment (suc i) value
  ok (arrays ++ more, len + rest)

-- The second loop: `result.set(a, index)` throws if it would write past the end.
write_arrays : List Atom → ℕ → List ℕ → Result (List ℕ)
write_arrays [] index result = ok result
write_arrays (a ∷ arrays) index result =
    if ltb (length result) (index + length a)
    then err native_range_error
    else write_arrays arrays (index + length a)
        (take index result ++ (a ++ drop (index + length a) result))

unfoldable pub to_binary_repr : {A : Type 0} → CompactType A → A → Result (List ℕ)
unfolding push_zeros segment_arrays gather write_arrays
to_binary_repr rt_type value = do
  ocrt_value ← rt_type.to_value value
  (arrays, len) ← gather rt_type.alignment 0 ocrt_value
  write_arrays arrays 0 (replicate len 0)
