-- ===== src/Codec/Composite/Vector.antt =====
-- `CompactTypeVector` of runtime/src/compact-types.ts.
use mathlib.Core.Path.{subst}
use compact.Base.{
  ℕ, zero, suc, ◌≡◌, refl, ap, arith, List, [], ◌∷◌, ◌++◌, append_assoc, length, ◌==◌, true, All,
  ok, >>=-eq-ok,
}
use compact.Codec.{Value, CompactType}
use compact.Codec.Laws.{IsCodec, Encodes, Fits, Fits-append, HasBytes}
use compact.Codec.Composite.{vector_alignment, vector_from, vector_to, compact_type_vector}

module _ {A : Type 0} {IsValid : A → Type 0} (type : CompactType A) (c : IsCodec type IsValid) where
  -- An encoding of the elements, as in `Encodes`, without the check of the length.
  record EncodesAll (xs : List A) (v : Value) : Type 0 where
    gives : vector_to type xs ≡ ok v
    fits : Fits v (vector_alignment type (length xs))
    back : (rest : Value) → vector_from type (length xs) (v ++ rest) ≡ ok (xs, rest)

  vector_to-EncodesAll : (xs : List A) → All IsValid xs → (v : Value) × EncodesAll xs v
  unfolding vector_to vector_from vector_alignment
  vector_to-EncodesAll [] h = ([], record { gives = refl; fits = tt; back = λ rest. refl })
  vector_to-EncodesAll (x ∷ xs) (p, h) =
      let (v, e) = c.encodes x p in
      let (w, es) = vector_to-EncodesAll xs h in
      (
        v ++ w,
        record {
          gives = rw (e.gives, es.gives) refl;
          fits = Fits-append v w type.alignment (vector_alignment type (length xs)) e.fits es.fits;
          back = λ rest. rw (append_assoc v w rest, e.back (w ++ rest), es.back rest) refl;
        },
      )

  vector_from-decodes :
      (n : ℕ) (v rest : Value) (xs : List A)
      → HasBytes v
      → vector_from type n v ≡ ok (xs, rest)
      → (All IsValid xs × (length xs ≡ n)) × HasBytes rest
  unfolding vector_from
  vector_from-decodes zero v rest xs b h =
      let xs-eq : [] ≡ xs = cc in
      let rest-eq : v ≡ rest = cc in
      (subst (λ l. All IsValid l × (length l ≡ 0)) xs-eq (tt, refl), subst HasBytes rest-eq b)
  vector_from-decodes (suc n) v rest xs b h =
      let ((x, v_1), read, h') = >>=-eq-ok (type.from_value v) _ h in
      let ((ys, rest'), more, same) = >>=-eq-ok (vector_from type n v_1) _ h' in
      let (valid, b') = c.decodes v v_1 x b read in
      let ((valids, len), b'') = vector_from-decodes n v_1 rest' ys b' more in
      let xs-eq : x ∷ ys ≡ xs = cc in
      let rest-eq : rest' ≡ rest = cc in
      (
        subst (λ l. All IsValid l × (length l ≡ suc n)) xs-eq ((valid, valids), ap suc len),
        subst HasBytes rest-eq b'',
      )

  vector-Encodes :
      (xs : List A)
      → All IsValid xs
      → (v : Value) × Encodes (compact_type_vector type (length xs)) xs v
  unfolding compact_type_vector
  vector-Encodes xs h =
      let (v, e) = vector_to-EncodesAll xs h in
      let same : (length xs == length xs) ≡ true = ground arith in
      (v, record { gives = rw same e.gives; fits = e.fits; back = e.back })

  -- CompactTypeVector of length n over a codec is a codec of the arrays of n valid elements.
  pub vector-IsCodec :
      (n : ℕ) → IsCodec (compact_type_vector type n) (λ xs. All IsValid xs × (length xs ≡ n))
  unfolding compact_type_vector
  vector-IsCodec n = record {
    encodes = λ xs h.
        subst (λ k. (v : Value) × Encodes (compact_type_vector type k) xs v) h.1
          (vector-Encodes xs h.0);
    decodes = vector_from-decodes n;
  }
