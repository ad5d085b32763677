-- ===== src/Codec/Binary/Injective.antt =====
-- `toBinaryRepr` of runtime/src/compact-types.ts as a function of the value.
use compact.Base.{
  ℕ, ◌+◌, ◌≡◌, refl, sym, ap, ◌∙◌, arith, List, [], ◌∷◌, ◌++◌, length, length-append, Result, ok,
}
use compact.Base.Bytes.{
  le_value, IsBytes, IsNormal, normal-injective, pad, le_value-pad, length-pad,
}
use compact.Codec.{
  Atom, Value, compress, field, bytes, AlignmentSegment, atom, tagged, Alignment, CompactType,
}
use compact.Codec.Laws.{Fits, FitsSegment, IsCodec}
use compact.Codec.Binary.{to_binary_repr}
use compact.Codec.Binary.Laws.{
  width, IsTransparent, IsTransparent-parts, padded, to_binary_repr_lem,
}

append-injective : (a b c d : List ℕ) → length a ≡ length b → a ++ c ≡ b ++ d → (a ≡ b) × (c ≡ d)
append-injective [] [] c d n e = (refl, e)
append-injective [] (y ∷ b) c d n e = absurd (omega arith)
append-injective (x ∷ a) [] c d n e = absurd (omega arith)
append-injective (x ∷ a) (y ∷ b) c d n e =
    let head : x ≡ y = cc in
    let (same, more) = append-injective a b c d (omega arith) (cc) in (cc, more)

pad-injective :
    (n : ℕ) (a b : List ℕ)
    → IsBytes a
    → IsBytes b
    → IsNormal a
    → IsNormal b
    → pad n a ≡ pad n b
    → a ≡ b
pad-injective n a b ha hb na nb e =
    normal-injective a b ha hb na nb (sym (le_value-pad n a) ∙ ap le_value e ∙ le_value-pad n b)

segment-injective :
    (s : AlignmentSegment) (a b : Atom)
    → FitsSegment a s
    → FitsSegment b s
    → IsTransparent (s ∷ [])
    → pad (width s) a ≡ pad (width s) b
    → a ≡ b
segment-injective (atom field) a b (ha, na, _) (hb, nb, _) t e = pad-injective 32 a b ha hb na nb e
segment-injective (atom (bytes n)) a b (ha, na, _) (hb, nb, _) t e =
    pad-injective n a b ha hb na nb e
segment-injective (atom compress) a b h k t e = elim t [ ]
segment-injective (tagged x) a b h k t e = elim t [ ]

segment-length :
    (s : AlignmentSegment) (a : Atom)
    → FitsSegment a s
    → IsTransparent (s ∷ [])
    → length (pad (width s) a) ≡ width s
segment-length (atom field) a (_, _, h) t = length-pad 32 a h
segment-length (atom (bytes n)) a (_, _, h) t = length-pad n a h
segment-length (atom compress) a h t = elim t [ ]
segment-length (tagged x) a h t = elim t [ ]

padded-injective :
    (l : Alignment) (v w : Value)
    → Fits v l
    → Fits w l
    → IsTransparent l
    → padded v l ≡ padded w l
    → v ≡ w
padded-injective [] [] [] h k t e = refl
padded-injective [] (a ∷ v) w h k t e = elim h [ ]
padded-injective [] [] (b ∷ w) h k t e = elim k [ ]
padded-injective (s ∷ l) [] w h k t e = elim h [ ]
padded-injective (s ∷ l) (a ∷ v) [] h k t e = elim k [ ]
padded-injective (s ∷ l) (a ∷ v) (b ∷ w) (h, hs) (k, ks) t e =
    let (t_s, t_l) = IsTransparent-parts s l t in
    let (first, more) =
      append-injective (pad (width s) a) (pad (width s) b) (padded v l) (padded w l)
        (segment-length s a h t_s ∙ sym (segment-length s b k t_s)) e in
    let same : a ≡ b = segment-injective s a b h k t_s first in
    let rest : v ≡ w = padded-injective l v w hs ks t_l more in cc

-- The length of the binary representation of a type.
abbrev pub total_width : Alignment → ℕ
total_width [] = 0
total_width (s ∷ l) = width s + total_width l

length-padded :
    (l : Alignment) (v : Value) → Fits v l → IsTransparent l → length (padded v l) ≡ total_width l
length-padded [] [] h t = refl
length-padded [] (a ∷ v) h t = elim h [ ]
length-padded (s ∷ l) [] h t = elim h [ ]
length-padded (s ∷ l) (a ∷ v) (h, hs) t =
    let (t_s, t_l) = IsTransparent-parts s l t in
    omega (
      arith,
      length-append (pad (width s) a) (padded v l),
      segment-length s a h t_s,
      length-padded l v hs t_l,
    )

ok-injective : {a b : List ℕ} → ◌≡◌ {A = Result (List ℕ)} (ok a) (ok b) → a ≡ b
ok-injective h = cc

module _ {A : Type 0} {IsValid : A → Type 0} (t : CompactType A) (c : IsCodec t IsValid)
    (transparent : IsTransparent t.alignment) where
  -- Two valid values of a type with the same binary representation are equal, for every type whose
  -- encoder and decoder are a codec and whose alignment has no opaque segment: what a hash
  -- function is given determines the value.
  pub to_binary_repr-injective :
      (x y : A) → IsValid x → IsValid y → to_binary_repr t x ≡ to_binary_repr t y → x ≡ y
  to_binary_repr-injective x y hx hy e =
      let (v, ex) = c.encodes x hx in
      let (w, ey) = c.encodes y hy in
      let out_x = to_binary_repr_lem t x v ex.gives ex.fits transparent in
      let out_y = to_binary_repr_lem t y w ey.gives ey.fits transparent in
      let same : v ≡ w =
        padded-injective t.alignment v w ex.fits ey.fits transparent
          (ok-injective (sym out_x ∙ e ∙ out_y)) in
      decoded x y v w same (ex.back []) (ey.back [])
    where
      decoded :
          (x y : A) (v w : Value)
          → v ≡ w
          → t.from_value (v ++ []) ≡ ok (x, [])
          → t.from_value (w ++ []) ≡ ok (y, [])
          → x ≡ y
      decoded x y v w same h k = cc

  -- toBinaryRepr returns on every valid value of a codec whose alignment has no opaque segment,
  -- and the length of what it returns is the sum of the widths of the segments.
  pub to_binary_repr_total :
      (x : A)
      → IsValid x
      → (out : List ℕ) × (to_binary_repr t x ≡ ok out) × (length out ≡ total_width t.alignment)
  to_binary_repr_total x h =
      let (v, e) = c.encodes x h in
      (
        padded v t.alignment,
        to_binary_repr_lem t x v e.gives e.fits transparent,
        length-padded t.alignment v e.fits transparent,
      )
