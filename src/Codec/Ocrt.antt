-- ===== src/Codec/Ocrt.antt =====
-- The functions of `@midnightntwrk/onchain-runtime-v4` that the codecs call, as a parameter, and
-- what its documentation says of them.
use compact.Base.{ℕ, ◌^◌, ◌≤◌, ◌<◌, ◌≡◌, List, [], ◌∷◌, Result, ok, length, ap, ◌∙◌, arith}
use compact.Base.Int.{ℤ, pos}
use compact.Base.Bytes.{le_value, IsBytes, IsNormal, normal-length}

pub record Ocrt : Type 0 where
  -- `maxField()`
  pub max_field : ℕ
  -- `bigIntToValue`
  pub big_int_to_value : ℤ → Result (List (List ℕ))
  -- `valueToBigInt`, whose results are not negative
  pub value_to_big_int : List (List ℕ) → Result ℕ

abbrev pub IsFieldElement : Ocrt → ℤ → Type 0
IsFieldElement o z = (x : ℕ) × (z ≡ pos x) × (x ≤ o.max_field)

pub record IsOcrt (o : Ocrt) : Type 0 where
  -- A field element becomes one atom, its bytes least significant first with no trailing zero.
  pub encodes :
      (x : ℕ)
      → x ≤ o.max_field
      → (a : List ℕ) × (o.big_int_to_value (pos x) ≡ ok (a ∷ []))
        × IsBytes a
        × IsNormal a
        × (le_value a ≡ x)
  -- What is no field element is refused.
  pub encodes_only : (z : ℤ) (v : List (List ℕ)) → o.big_int_to_value z ≡ ok v → IsFieldElement o z
  -- An atom whose number is a field element is read as that number.
  pub decodes :
      (a : List ℕ)
      → IsBytes a
      → le_value a ≤ o.max_field
      → o.value_to_big_int (a ∷ []) ≡ ok (le_value a)
  -- Only field elements are read.
  pub decodes_only : (v : List (List ℕ)) (x : ℕ) → o.value_to_big_int v ≡ ok x → x ≤ o.max_field
  -- The scalar field of BLS12-381 has 255 bits.
  pub wide : 2 ^ 254 ≤ o.max_field
  pub narrow : o.max_field < 256 ^ 32

-- `a` is the atom of the number `x`: written for it, read as it, with no trailing zero.
pub record IsAtomOf (o : Ocrt) (a : List ℕ) (x : ℕ) : Type 0 where
  pub gives : o.big_int_to_value (pos x) ≡ ok (a ∷ [])
  pub reads : o.value_to_big_int (a ∷ []) ≡ ok x
  pub is_bytes : IsBytes a
  pub is_normal : IsNormal a
  pub value : le_value a ≡ x

module _ {o : Ocrt} (l : IsOcrt o) where
  pub atom_of : (x : ℕ) → x ≤ o.max_field → (a : List ℕ) × IsAtomOf o a x
  atom_of x h =
      let (a, gives, is_bytes, is_normal, value) = l.encodes x h in
      (
        a,
        record {
          gives = gives;
          reads = l.decodes a is_bytes (omega arith) ∙ ap ok value;
          is_bytes = is_bytes;
          is_normal = is_normal;
          value = value;
        },
      )

-- The atom of a number below 256 ^ n has at most n bytes.
pub atom_fits :
    {o : Ocrt} {a : List ℕ} {x : ℕ} (n : ℕ) → IsAtomOf o a x → x < 256 ^ n → length a ≤ n
atom_fits {a} n w h = normal-length n a w.is_normal (omega (arith, w.value))
