-- ===== src/Hashes/Collisions.antt =====
-- `keccak256` and `sha512` of runtime/src/built-ins.ts as functions of the value.
use compact.Base.{
  ℕ, ◌≡◌, ◌≢◌, ◌⊎◌, inl, inr, refl, ap, ◌∙◌, sym, List, [], ◌∷◌, ◌==◌, ==_iff, Bool-cases, false,
  ◌>>=◌, Result, ok, ok-injective,
}
use compact.Codec.{CompactType}
use compact.Codec.Laws.{IsCodec}
use compact.Codec.Binary.{to_binary_repr}
use compact.Codec.Binary.Laws.{IsTransparent}
use compact.Codec.Binary.Injective.{to_binary_repr-injective, to_binary_repr_total}
use compact.Hashes.{Hashes, keccak256, sha512}

head_differs : {x y : ℕ} → x == y ≡ false → x ≡ y → ⊥
head_differs {x} {y} off same = cc (sym ((==_iff x y).1 same) ∙ off)

same_or_different : (a b : List ℕ) → (a ≡ b) ⊎ (a ≢ b)
same_or_different [] [] = inl refl
same_or_different [] (y ∷ b) = inr cc
same_or_different (x ∷ a) [] = inr cc
same_or_different (x ∷ a) (y ∷ b) = elim (Bool-cases (x == y)) [
  | inl at ↦ elim (same_or_different a b) [
    | inl same ↦ inl (cc ((==_iff x y).0 at, same))
    | inr different ↦ inr (λ h. different (cc h))
  ]
  | inr off ↦ inr (λ h. head_differs off (cc h))
]

-- The binary representations of the two values are a collision.
abbrev pub IsCollision : {A : Type 0} → CompactType A → A → A → (List ℕ → List ℕ) → Type 0
IsCollision t x y hash =
    (a : List ℕ) × (b : List ℕ) × (to_binary_repr t x ≡ ok a)
    × (to_binary_repr t y ≡ ok b)
    × (a ≢ b)
    × (hash a ≡ hash b)

hashed :
    (hash : List ℕ → List ℕ) (a : List ℕ) {m : Result (List ℕ)}
    → m ≡ ok a
    → ok (hash a) ≡ (m >>= λ bytes. ok (hash bytes))
hashed hash a e = rw e refl

module _ (h : Hashes) {A : Type 0} {IsValid : A → Type 0} (t : CompactType A)
    (c : IsCodec t IsValid) (transparent : IsTransparent t.alignment) (x y : A)
    (valid_x : IsValid x) (valid_y : IsValid y) where
  equal_or_Collision :
      (hash : List ℕ → List ℕ)
      → (to_binary_repr t x >>= λ bytes. ok (hash bytes))
        ≡ (to_binary_repr t y >>= λ bytes. ok (hash bytes))
      → (x ≡ y) ⊎ IsCollision t x y hash
  equal_or_Collision hash e =
      let (a, ea, _) = to_binary_repr_total t c transparent x valid_x in
      let (b, eb, _) = to_binary_repr_total t c transparent y valid_y in
      elim (same_or_different a b) [
        | inl same ↦
            let equal = ea ∙ ap ok same ∙ sym eb in
            inl (to_binary_repr-injective t c transparent x y valid_x valid_y equal)
        | inr different ↦
            inr (
              a,
              b,
              ea,
              eb,
              different,
              ok-injective (hashed hash a ea ∙ e ∙ sym (hashed hash b eb)),
            )
      ]

  -- Two valid values of a type whose encoder and decoder are a codec and whose alignment has no
  -- opaque segment, with the same Keccak-256 hash, are equal, or their binary representations
  -- exist, differ and are a collision of the library's hash function.
  pub keccak256-Collision :
      keccak256 h t x ≡ keccak256 h t y → (x ≡ y) ⊎ IsCollision t x y h.keccak_256
  unfolding keccak256
  keccak256-Collision = equal_or_Collision h.keccak_256

  -- Two valid values of a type whose encoder and decoder are a codec and whose alignment has no
  -- opaque segment, with the same SHA-512 hash, are equal, or two different byte arrays are a
  -- collision of the library's hash function.
  pub sha512-Collision : sha512 h t x ≡ sha512 h t y → (x ≡ y) ⊎ IsCollision t x y h.sha512
  unfolding sha512
  sha512-Collision = equal_or_Collision h.sha512
