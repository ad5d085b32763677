-- ===== src/Codec/Scalar/Bytes.antt =====
-- `CompactTypeBytes` of runtime/src/compact-types.ts.
use mathlib.Core.Path.{subst}
use compact.Base.{
  ℕ, zero, suc, ◌+◌, ◌-◌, ◌≤◌, ◌<◌, ◌≡◌, refl, ap, ◌∙◌, arith, List, [], ◌∷◌, ◌++◌, append_assoc,
  ltb-false, if◌then◌else◌, append-nil, ◌==◌, Bool-cases, inl, inr, ok, err, expected_bytes, length,
  take, take-suc, take-all, length-take-le, get_elem?-lt, replicate, replicate-snoc, All-take,
  get_elem?, sym, some, replicate-append,
}
use compact.Base.Bytes.{IsBytes, IsNormal, append-IsNormal, pad, length-pad, pad-IsBytes}
use compact.Codec.{Value, Atom}
use compact.Codec.Laws.{IsCodec, Encodes, HasBytes}
use compact.Codec.Scalar.{trim_end, compact_type_bytes}

-- What the loop leaves of the first `end` bytes: no trailing zero, and the rest is zeros.
record IsTrimmed (a : Atom) (end r : ℕ) : Type 0 where
  within : r ≤ end
  zeros : take end a ≡ take r a ++ replicate (end - r) 0
  normal : IsNormal (take r a)

trim_zero :
    (a : Atom) (end r : ℕ)
    → take (suc end) a ≡ take end a ++ 0 ∷ []
    → IsTrimmed a end r
    → IsTrimmed a (suc end) r
trim_zero a end r last t = record {
  within = omega (arith, t.within);
  zeros =
      let count : suc end - r ≡ suc (end - r) = omega (arith, t.within) in
      last
      ∙ ap (λ l. l ++ 0 ∷ []) t.zeros
      ∙ append_assoc (take r a) (replicate (end - r) 0) (0 ∷ [])
      ∙ ap (λ l. take r a ++ l) (replicate-snoc (end - r) 0)
      ∙ ap (λ n. take r a ++ replicate n 0) (sym count);
  normal = t.normal;
}

trim_end_zero : (a : Atom) → trim_end a 0 ≡ 0
unfolding trim_end
trim_end_zero a = refl

trim_end-suc :
    (a : Atom) (end : ℕ) {b : ℕ}
    → get_elem? a end ≡ some b
    → trim_end a (suc end) ≡ (if b == 0 then trim_end a end else suc end)
unfolding trim_end
trim_end-suc a end e = rw (e, trim_end) refl

trim_end-IsTrimmed : (a : Atom) (end : ℕ) → end ≤ length a → IsTrimmed a end (trim_end a end)
trim_end-IsTrimmed a zero h =
    rw (trim_end_zero a) (record { within = omega arith; zeros = refl; normal = tt })
trim_end-IsTrimmed a (suc end) h =
    let (b, e) = get_elem?-lt a end h in
    elim (Bool-cases (b == 0)) [
      | inl is_zero ↦
          let b-eq : b ≡ 0 = ground arith in
          let same : trim_end a (suc end) ≡ trim_end a end =
            trim_end-suc a end e ∙ rw is_zero refl in
          rw same (
            trim_zero a end (trim_end a end)
              (take-suc a end e ∙ ap (λ x. take end a ++ x ∷ []) b-eq)
              (trim_end-IsTrimmed a end (omega arith)))
      | inr not_zero ↦
          let same : trim_end a (suc end) ≡ suc end = trim_end-suc a end e ∙ rw not_zero refl in
          rw same (record {
            within = omega arith;
            zeros =
                let none_left : suc end - suc end ≡ 0 = omega arith in
                rw none_left (sym (append-nil (take (suc end) a)));
            normal = rw (take-suc a end e) (append-IsNormal (take end a) b (ground arith)).1;
          })
    ]

-- What is written for `a`: without the zeros at the end, which padding gives back.
trimmed : Atom → Atom
trimmed a = take (trim_end a (length a)) a

length-trimmed : (a : Atom) → length (trimmed a) ≡ trim_end a (length a)
unfolding trimmed
length-trimmed a =
    length-take-le (trim_end a (length a)) a (trim_end-IsTrimmed a (length a) (omega arith)).within

trimmed-zeros : (a : Atom) → trimmed a ++ replicate (length a - length (trimmed a)) 0 ≡ a
trimmed-zeros a =
    rw (length-trimmed a)
      (unfold trimmed in (sym (trim_end-IsTrimmed a (length a) (omega arith)).zeros ∙ take-all a))

trimmed-le : (a : Atom) → length (trimmed a) ≤ length a
trimmed-le a =
    omega (arith, length-trimmed a, (trim_end-IsTrimmed a (length a) (omega arith)).within)

trimmed-IsNormal : (a : Atom) → IsNormal (trimmed a)
unfolding trimmed
trimmed-IsNormal a = (trim_end-IsTrimmed a (length a) (omega arith)).normal

trimmed-IsBytes : (a : Atom) → IsBytes a → IsBytes (trimmed a)
unfolding trimmed
trimmed-IsBytes a h = All-take (λ b. b < 256) (trim_end a (length a)) a h

no_zeros : (m n : ℕ) → n ≡ m → m - n ≡ 0
no_zeros m n h = omega arith

pad-trimmed : (len : ℕ) (a : Atom) → length a ≤ len → pad len (trimmed a) ≡ pad len a
pad-trimmed len a h =
    let t : Atom = trimmed a in
    let count : len - length t ≡ length a - length t + (len - length a) =
      omega (arith, trimmed-le a) in
    ap (λ n. t ++ replicate n 0) count
    ∙ ap (λ l. t ++ l) (sym (replicate-append (length a - length t) (len - length a) 0))
    ∙ sym (append_assoc t (replicate (length a - length t) 0) (replicate (len - length a) 0))
    ∙ ap (λ l. l ++ replicate (len - length a) 0) (trimmed-zeros a)

module _ (len : ℕ) where
  bytes_written :
      (a : List ℕ) → length a ≤ len → (compact_type_bytes len).to_value a ≡ ok (trimmed a ∷ [])
  unfolding compact_type_bytes trimmed
  bytes_written a h = rw (ltb-false len (length a) h) refl

  bytes_read :
      (a : List ℕ) (rest : Value)
      → length a ≤ len
      → (compact_type_bytes len).from_value (trimmed a ∷ rest) ≡ ok (pad len a, rest)
  unfolding compact_type_bytes
  bytes_read a rest h =
      rw (ltb-false len (length (trimmed a)) (omega (arith, trimmed-le a)))
        (ap (λ l. ok (l, rest)) (pad-trimmed len a h))

  -- An array that is no longer than its Bytes type is written, and is read back with zeros up to
  -- the length of the type.
  pub bytes_padded :
      (a : List ℕ)
      → length a ≤ len
      → (v : Value) × ((compact_type_bytes len).to_value a ≡ ok v)
        × ((rest : Value) → (compact_type_bytes len).from_value (v ++ rest) ≡ ok (pad len a, rest))
  bytes_padded a h = (trimmed a ∷ [], bytes_written a h, λ rest. bytes_read a rest h)

  bytes-Encodes :
      (a : List ℕ) → IsBytes a → length a ≡ len → (v : Value) × Encodes (compact_type_bytes len) a v
  unfolding compact_type_bytes
  bytes-Encodes a b h =
      let short : length a ≤ len = omega arith in
      let whole : pad len a ≡ a =
        ap (λ n. a ++ replicate n 0) (no_zeros len (length a) h) ∙ append-nil a in
      (
        trimmed a ∷ [],
        record {
          gives = bytes_written a short;
          fits = ((trimmed-IsBytes a b, trimmed-IsNormal a, omega (arith, trimmed-le a)), tt);
          back = λ rest. bytes_read a rest short ∙ ap (λ l. ok (l, rest)) whole;
        },
      )

  compact_type_bytes-decodes :
      (v rest : Value) (a : List ℕ)
      → HasBytes v
      → (compact_type_bytes len).from_value v ≡ ok (a, rest)
      → (IsBytes a × (length a ≡ len)) × HasBytes rest
  unfolding compact_type_bytes
  compact_type_bytes-decodes [] rest a b h = cc
  compact_type_bytes-decodes (x ∷ v) rest a (hb, bs) h =
      let rest-eq : v ≡ rest = ground arith in
      let a-eq : pad len x ≡ a = ground arith in
      let short : length x ≤ len = ground arith in
      (
        subst (λ l. IsBytes l × (length l ≡ len)) a-eq
            (pad-IsBytes len x hb, length-pad len x short),
        subst HasBytes rest-eq bs,
      )

  -- CompactTypeBytes is a codec of the byte arrays of its length: they are written as one atom
  -- with no trailing zero, which is read back as the whole array.
  pub compact_type_bytes-IsCodec :
      IsCodec (compact_type_bytes len) (λ a. IsBytes a × (length a ≡ len))
  compact_type_bytes-IsCodec = record {
    encodes = λ a h. bytes-Encodes a h.0 h.1;
    decodes = compact_type_bytes-decodes;
  }

  -- An array that is longer than the type is refused.
  pub bytes_long :
      (a : List ℕ) → len < length a → (compact_type_bytes len).to_value a ≡ err (expected_bytes len)
  unfolding compact_type_bytes
  bytes_long a h = ground arith
