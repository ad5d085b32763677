-- ===== src/Tests/Aligned.antt =====
-- `alignedConcat` at a concrete input.
use compact.Base.{[], ◌∷◌, List, arith, ◌≡◌}
use compact.Codec.{atom, bytes, field}
use compact.Aligned.{AlignedValue, aligned_concat, IsAligned, aligned_concat-IsAligned}

abbrev two_values : List AlignedValue
two_values =
    record { value = (1 ∷ 2 ∷ []) ∷ []; alignment = atom (bytes 3) ∷ [] }
    ∷ record { value = [] ∷ (7 ∷ []) ∷ []; alignment = atom field ∷ atom (bytes 1) ∷ [] }
    ∷ []

aligned_concat-IsAligned_example :
    ((aligned_concat two_values).value ≡ (1 ∷ 2 ∷ []) ∷ [] ∷ (7 ∷ []) ∷ [])
    × ((aligned_concat two_values).alignment ≡ atom (bytes 3) ∷ atom field ∷ atom (bytes 1) ∷ [])
    × IsAligned (aligned_concat two_values)
aligned_concat-IsAligned_example = aligned_concat-IsAligned two_values (ground arith)
