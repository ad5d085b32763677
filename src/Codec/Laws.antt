-- ===== src/Codec/Laws.antt =====
-- What makes a pair of an encoder and a decoder a codec: the interface that composite types take,
-- and that the theorem of each type fills.
use compact.Base.{◌≤◌, ◌≡◌, refl, ap, suc, [], ◌∷◌, ◌++◌, ok, length, All}
use compact.Base.Bytes.{IsBytes, IsNormal}
use compact.Codec.{
  Atom, Value, AlignmentAtom, compress, field, bytes, AlignmentSegment, atom, tagged, Alignment,
  CompactType,
}

abbrev pub FitsAtom : Atom → AlignmentAtom → Type 0
FitsAtom a compress = IsBytes a
FitsAtom a field = IsBytes a × IsNormal a × (length a ≤ 32)
FitsAtom a (bytes n) = IsBytes a × IsNormal a × (length a ≤ n)

abbrev pub FitsSegment : Atom → AlignmentSegment → Type 0
FitsSegment a (atom s) = FitsAtom a s
FitsSegment a (tagged s) = ⊥

-- The value has an atom for each segment, no longer than the segment, with no trailing zero.
abbrev pub Fits : Value → Alignment → Type 0
Fits [] [] = Unit {0}
Fits (a ∷ v) (s ∷ l) = FitsSegment a s × Fits v l
Fits _ _ = ⊥

pub Fits-append : (v w : Value) (l m : Alignment) → Fits v l → Fits w m → Fits (v ++ w) (l ++ m)
Fits-append [] w [] m h k = k
Fits-append (a ∷ v) w (s ∷ l) m (p, h) k = (p, Fits-append v w l m h k)
Fits-append [] w (s ∷ l) m h k = elim h [ ]
Fits-append (a ∷ v) w [] m h k = elim h [ ]

-- An encoding has an atom for each segment.
pub length-Fits : (v : Value) (l : Alignment) → Fits v l → length v ≡ length l
length-Fits [] [] h = refl
length-Fits (a ∷ v) (s ∷ l) (_, h) = ap suc (length-Fits v l h)
length-Fits [] (s ∷ l) h = elim h [ ]
length-Fits (a ∷ v) [] h = elim h [ ]

-- `v` is the encoding of `a`: the encoder gives it, it fits the alignment, and the decoder takes
-- exactly it off the front of any value.
pub record Encodes {A : Type 0} (t : CompactType A) (a : A) (v : Value) : Type 0 where
  pub gives : t.to_value a ≡ ok v
  pub fits : Fits v t.alignment
  pub back : (rest : Value) → t.from_value (v ++ rest) ≡ ok (a, rest)

-- The bytes of a value are bytes, as they are in every `Uint8Array`.
abbrev pub HasBytes : Value → Type 0
HasBytes v = All IsBytes v

pub record IsCodec {A : Type 0} (t : CompactType A) (IsValid : A → Type 0) : Type 0 where
  -- Every valid value has an encoding.
  pub encodes : (a : A) → IsValid a → (v : Value) × Encodes t a v
  -- Whatever the decoder reads is valid.
  pub decodes :
      (v rest : Value) (a : A)
      → HasBytes v
      → t.from_value v ≡ ok (a, rest)
      → IsValid a × HasBytes rest

-- The encoder refuses what is not valid.
abbrev pub Accepts : {A : Type 0} → CompactType A → (A → Type 0) → Type 0
Accepts {A} t IsValid = (a : A) (v : Value) → t.to_value a ≡ ok v → IsValid a
