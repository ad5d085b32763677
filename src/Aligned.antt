-- ===== src/Aligned.antt =====
-- `alignedConcat` of runtime/src/built-ins.ts.
use compact.Base.{◌≡◌, sym, ◌∙◌, append-nil, append_assoc, List, [], ◌∷◌, ◌++◌, All}
use compact.Codec.{Value, Alignment}
use compact.Codec.Laws.{Fits, Fits-append}

-- `ocrt.AlignedValue`
pub record AlignedValue : Type 0 where
  pub value : Value
  pub alignment : Alignment

-- The loop, from the result that it has so far.
concat_loop : AlignedValue → List AlignedValue → AlignedValue
concat_loop res [] = res
concat_loop res (v ∷ values) =
    concat_loop (record { value = res.value ++ v.value; alignment = res.alignment ++ v.alignment })
      values

unfoldable pub aligned_concat : List AlignedValue → AlignedValue
unfolding concat_loop
aligned_concat values = concat_loop (record { value = []; alignment = [] }) values

-- The value has an atom for each segment of its own alignment.
abbrev pub IsAligned : AlignedValue → Type 0
IsAligned v = Fits v.value v.alignment

-- All atoms, and all segments, in order.
abbrev pub all_atoms : List AlignedValue → Value
all_atoms [] = []
all_atoms (v ∷ values) = v.value ++ all_atoms values

abbrev pub all_segments : List AlignedValue → Alignment
all_segments [] = []
all_segments (v ∷ values) = v.alignment ++ all_segments values

concat_loop_lem :
    (res : AlignedValue) (values : List AlignedValue)
    → ((concat_loop res values).value ≡ res.value ++ all_atoms values)
      × ((concat_loop res values).alignment ≡ res.alignment ++ all_segments values)
unfolding concat_loop
concat_loop_lem res [] = (sym (append-nil res.value), sym (append-nil res.alignment))
concat_loop_lem res (v ∷ values) =
    let (atoms, segments) =
      concat_loop_lem
        (record { value = res.value ++ v.value; alignment = res.alignment ++ v.alignment })
        values in
    (
      atoms ∙ append_assoc res.value v.value (all_atoms values),
      segments ∙ append_assoc res.alignment v.alignment (all_segments values),
    )

all_atoms-Fits :
    (values : List AlignedValue)
    → All IsAligned values
    → Fits (all_atoms values) (all_segments values)
all_atoms-Fits [] h = tt
all_atoms-Fits (v ∷ values) (hv, h) =
    Fits-append v.value (all_atoms values) v.alignment (all_segments values) hv
      (all_atoms-Fits values h)

-- For aligned values each of which has an atom for each segment of its alignment, one that fits
-- the segment, alignedConcat returns all their atoms and all their segments in order, and its
-- result is aligned in the same way.
pub aligned_concat-IsAligned :
    (values : List AlignedValue)
    → All IsAligned values
    → ((aligned_concat values).value ≡ all_atoms values)
      × ((aligned_concat values).alignment ≡ all_segments values)
      × IsAligned (aligned_concat values)
unfolding aligned_concat
aligned_concat-IsAligned values h =
    let (atoms, segments) = concat_loop_lem (record { value = []; alignment = [] }) values in
    (atoms, segments, rw (atoms, segments) (all_atoms-Fits values h))
