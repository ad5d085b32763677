-- ===== src/Codec/Binary/Laws.antt =====
-- The two loops of `toBinaryRepr` in runtime/src/compact-types.ts.
use compact.Base.{
  ℕ, zero, suc, ◌+◌, ◌-◌, ◌≤◌, ◌≡◌, refl, sym, ap, ◌∙◌, arith, List, [], ◌∷◌, ◌++◌, append_assoc,
  append-nil, some, ltb, ltb-false, length, length-append, length-replicate, get_elem?-append, take,
  drop, take-append, drop-append, replicate, replicate-append, ok, true, length-snoc, false,
}
use compact.Base.Bytes.{pad, length-pad}
use compact.Codec.{
  Atom, Value, compress, field, bytes, AlignmentSegment, atom, tagged, Alignment, CompactType,
}
use compact.Codec.Laws.{Fits, FitsSegment}
use compact.Codec.Binary.{push_zeros, segment_arrays, gather, write_arrays, to_binary_repr}

abbrev pub width : AlignmentSegment → ℕ
width (atom field) = 32
width (atom (bytes n)) = n
width _ = 0

-- No segment is opaque.
abbrev pub IsTransparent : Alignment → Type 0
IsTransparent [] = Unit {0}
IsTransparent (atom field ∷ l) = IsTransparent l
IsTransparent (atom (bytes n) ∷ l) = IsTransparent l
IsTransparent (_ ∷ l) = ⊥

abbrev pub padded : Value → Alignment → List ℕ
padded (a ∷ v) (s ∷ l) = pad (width s) a ++ padded v l
padded _ _ = []

abbrev joined : List Atom → List ℕ
joined [] = []
joined (a ∷ l) = a ++ joined l

joined-append : (l m : List Atom) → joined (l ++ m) ≡ joined l ++ joined m
joined-append [] m = refl
joined-append (a ∷ l) m =
    ap (λ t. a ++ t) (joined-append l m) ∙ sym (append_assoc a (joined l) (joined m))

joined-push_zeros : (n : ℕ) → joined (push_zeros n) ≡ replicate n 0
unfolding push_zeros
joined-push_zeros zero = refl
joined-push_zeros (suc n) = append-nil (replicate (suc n) 0)

-- What a loop has gathered: the padded atoms, and their length.
record Gathered (r : List Atom × ℕ) (out : List ℕ) : Type 0 where
  bytes_of_arrays : joined r.0 ≡ out
  count : r.1 ≡ length out

module _ (n : ℕ) (a : Atom) (short : length a ≤ n) where
  pushed : joined (a ∷ push_zeros (n - length a)) ≡ pad n a
  pushed = ap (λ t. a ++ t) (joined-push_zeros (n - length a))

  counted : n ≡ length (pad n a)
  counted = sym (length-pad n a short)

bytes_arrays :
    (n : ℕ) (a : Atom)
    → length a ≤ n
    → (r : List Atom × ℕ) × (segment_arrays (atom (bytes n)) (some a) ≡ ok r) × Gathered r (pad n a)
unfolding segment_arrays
bytes_arrays n [] h = (_, refl, record { bytes_of_arrays = pushed n [] h; count = counted n [] h })
bytes_arrays n (x ∷ a) h =
    let some_bytes : ltb 0 (suc (length a)) ≡ true = ground arith in
    (
      _,
      refl,
      record { bytes_of_arrays = rw some_bytes (pushed n (x ∷ a) h); count = counted n (x ∷ a) h },
    )

field_arrays :
    (a : Atom)
    → length a ≤ 32
    → (r : List Atom × ℕ) × (segment_arrays (atom field) (some a) ≡ ok r) × Gathered r (pad 32 a)
unfolding segment_arrays
field_arrays a h = (_, refl, record { bytes_of_arrays = pushed 32 a h; count = counted 32 a h })

segment_arrays-Gathered :
    (s : AlignmentSegment) (a : Atom)
    → FitsSegment a s
    → IsTransparent (s ∷ [])
    → (r : List Atom × ℕ) × (segment_arrays s (some a) ≡ ok r) × Gathered r (pad (width s) a)
segment_arrays-Gathered (atom field) a (_, _, h) t = field_arrays a h
segment_arrays-Gathered (atom (bytes n)) a (_, _, h) t = bytes_arrays n a h
segment_arrays-Gathered (atom compress) a h t = elim t [ ]
segment_arrays-Gathered (tagged x) a h t = elim h [ ]

pub IsTransparent-parts :
    (s : AlignmentSegment) (l : Alignment)
    → IsTransparent (s ∷ l)
    → IsTransparent (s ∷ []) × IsTransparent l
IsTransparent-parts (atom field) l h = (tt, h)
IsTransparent-parts (atom (bytes n)) l h = (tt, h)
IsTransparent-parts (atom compress) l h = elim h [ ]
IsTransparent-parts (tagged x) l h = elim h [ ]

Gathered-append :
    (r q : List Atom × ℕ) (b c : List ℕ)
    → Gathered r b
    → Gathered q c
    → Gathered (r.0 ++ q.0, r.1 + q.1) (b ++ c)
Gathered-append r q b c g h = record {
  bytes_of_arrays = joined-append r.0 q.0 ∙ rw (g.bytes_of_arrays, h.bytes_of_arrays) refl;
  count = omega (arith, g.count, h.count, length-append b c);
}

gather_next :
    (l : Alignment) (done : Value) (a : Atom) (v : Value)
    → gather l (suc (length done)) (done ++ a ∷ v)
      ≡ gather l (length (done ++ a ∷ [])) ((done ++ a ∷ []) ++ v)
gather_next l done a v = cc (length-snoc done a, append_assoc done (a ∷ []) v)

gather-Gathered :
    (l : Alignment) (done v : Value)
    → Fits v l
    → IsTransparent l
    → (r : List Atom × ℕ) × (gather l (length done) (done ++ v) ≡ ok r) × Gathered r (padded v l)
unfolding gather
gather-Gathered [] done [] h t = (_, refl, record { bytes_of_arrays = refl; count = refl })
gather-Gathered [] done (a ∷ v) h t = elim h [ ]
gather-Gathered (s ∷ l) done [] h t = elim h [ ]
gather-Gathered (s ∷ l) done (a ∷ v) (h, hs) t =
    let (t_s, t_l) = IsTransparent-parts s l t in
    let (r, e, g) = segment_arrays-Gathered s a h t_s in
    let (q, es, gs) = gather-Gathered l (done ++ a ∷ []) v hs t_l in
    (
      (r.0 ++ q.0, r.1 + q.1),
      rw (get_elem?-append done a v, e) rw (gather_next l done a v, es) refl,
      Gathered-append r q (pad (width s) a) (padded v l) g gs,
    )

-- What the loop leaves behind the place where it writes.
drop_written :
    (done a rest : List ℕ)
    → drop (length done + length a) (done ++ (replicate (length a) 0 ++ rest)) ≡ rest
drop_written done a rest =
    let front : List ℕ = done ++ replicate (length a) 0 in
    let place : length done + length a ≡ length front =
      omega (
        arith,
        length-append done (replicate (length a) 0),
        length-replicate {A = ℕ} (length a) 0,
      ) in
    ap (λ n. drop n (done ++ (replicate (length a) 0 ++ rest))) place
    ∙ ap (drop (length front)) (sym (append_assoc done (replicate (length a) 0) rest))
    ∙ drop-append front rest

write_next :
    (arrays : List Atom) (done a rest : List ℕ)
    → write_arrays arrays (length done + length a) (
        take (length done) (done ++ (replicate (length a) 0 ++ rest))
        ++ (a ++ drop (length done + length a) (done ++ (replicate (length a) 0 ++ rest))))
      ≡ write_arrays arrays (length (done ++ a)) ((done ++ a) ++ rest)
write_next arrays done a rest = cc (
  take-append done (replicate (length a) 0 ++ rest),
  drop_written done a rest,
  append_assoc done a rest,
  length-append done a,
)

zeros_split :
    (a : Atom) (m : List ℕ)
    → replicate {A = ℕ} (length (a ++ m)) 0 ≡ replicate (length a) 0 ++ replicate (length m) 0
zeros_split a m =
    ap (λ n. replicate n 0) (length-append a m) ∙ sym (replicate-append (length a) (length m) 0)

room :
    (done a : List ℕ) (rest : List ℕ)
    → ltb (length (done ++ (replicate (length a) 0 ++ rest))) (length done + length a) ≡ false
room done a rest = ltb-false _ _ (
    omega (
      arith,
      length-append done (replicate (length a) 0 ++ rest),
      length-append (replicate {A = ℕ} (length a) 0) rest,
      length-replicate {A = ℕ} (length a) 0,
    ))

write_arrays_lem :
    (arrays : List Atom) (done : List ℕ)
    → write_arrays arrays (length done) (done ++ replicate (length (joined arrays)) 0)
      ≡ ok (done ++ joined arrays)
unfolding write_arrays
write_arrays_lem [] done = refl
write_arrays_lem (a ∷ arrays) done =
    let rest : List ℕ = replicate (length (joined arrays)) 0 in
    rw (zeros_split a (joined arrays), room done a rest)
      (write_next arrays done a rest
        ∙ write_arrays_lem arrays (done ++ a)
        ∙ ap ok (append_assoc done a (joined arrays)))

-- Where the encoding of a value fits an alignment with no opaque segment, toBinaryRepr returns the
-- atoms one after the other, each filled up with zeros to the width of its segment.
pub to_binary_repr_lem :
    {A : Type 0} (t : CompactType A) (x : A) (v : Value)
    → t.to_value x ≡ ok v
    → Fits v t.alignment
    → IsTransparent t.alignment
    → to_binary_repr t x ≡ ok (padded v t.alignment)
unfolding to_binary_repr
to_binary_repr_lem t x v e h transparent =
    let (r, gathered, g) = gather-Gathered t.alignment [] v h transparent in
    rw (e, gathered, g.count, ← g.bytes_of_arrays) (write_arrays_lem r.0 [])
