-- ===== src/Conformance/Reflexive.antt =====
-- `signatureTypesEqual` of runtime/src/conformance.ts on a type and itself.
use compact.Base.{
  ℕ, zero, suc, ◌≡◌, refl, arith, String, Bool, true, false, List, [], ◌∷◌, some, ◌==◌, ==_iff,
}
use compact.Base.Names.{same, same_iff}
use compact.Signature.{
  ScalarTag, SignatureType, scalar, uint, bytes, opaque, vector, tuple, enumeration, struct, alias,
  contract, malformed, unknown, damaged, SignatureTypes, no_types, type, NamedSignatureTypes,
  no_fields, named, InterfaceDescriptor, no_circuits, circuit, no_circuit,
}
use compact.Conformance.{
  signature_types_equal, elements_equal, types_equal, fields_equal, circuits_equal, all_below,
  types_length, types_at, circuit_count, find_circuit, names_equal, tags_equal, tag-discrete,
}

-- No circuit of the descriptor has this name.
abbrev pub IsFresh : String → InterfaceDescriptor → Type 0
IsFresh k no_circuits = Unit {0}
IsFresh k (circuit name args result d) = (same k name ≡ false) × IsFresh k d
IsFresh k (no_circuit name d) = (same k name ≡ false) × IsFresh k d

-- A type as a compiler writes it: all of it is readable, and the names of the circuits of a
-- contract type are distinct, as the keys of an object are.
unfoldable mutual
  pub IsReadable : SignatureType → Type 0
  IsReadable (scalar t) = Unit {0}
  IsReadable (uint m) = Unit {0}
  IsReadable (bytes n) = Unit {0}
  IsReadable (opaque s) = Unit {0}
  IsReadable (vector n t) = IsReadable t
  IsReadable (tuple ts) = AreReadable ts
  IsReadable (enumeration name l) = Unit {0}
  IsReadable (struct name fs) = HasReadable fs
  IsReadable (alias name t) = IsReadable t
  IsReadable (contract name d) = IsReadableDescriptor d
  IsReadable malformed = ⊥
  IsReadable (unknown tag) = ⊥
  IsReadable (damaged tag) = ⊥

  pub AreReadable : SignatureTypes → Type 0
  AreReadable no_types = Unit {0}
  AreReadable (type t ts) = IsReadable t × AreReadable ts

  pub HasReadable : NamedSignatureTypes → Type 0
  HasReadable no_fields = Unit {0}
  HasReadable (named name t fs) = IsReadable t × HasReadable fs

  pub IsReadableDescriptor : InterfaceDescriptor → Type 0
  IsReadableDescriptor no_circuits = Unit {0}
  IsReadableDescriptor (circuit name args result d) =
      IsFresh name d × AreReadable args × IsReadable result × IsReadableDescriptor d
  IsReadableDescriptor (no_circuit name d) = ⊥

-- Each circuit of the first descriptor is what the second has under its name.
abbrev IsWithin : InterfaceDescriptor → InterfaceDescriptor → Type 0
IsWithin no_circuits e = Unit {0}
IsWithin (circuit name args result d) e = (find_circuit name e ≡ some (args, result)) × IsWithin d e
IsWithin (no_circuit name d) e = ⊥

same_refl : (a : String) → same a a ≡ true
same_refl a = (same_iff a a).1 refl

different : (a b : String) → same a b ≡ false → same b a ≡ false
different a b h = ground (arith, same_iff a b, same_iff b a)

-- A circuit of a new name in front hides none of the others.
IsWithin-circuit :
    (d e : InterfaceDescriptor) (name : String) (args : SignatureTypes) (result : SignatureType)
    → IsFresh name d
    → IsWithin d e
    → IsWithin d (circuit name args result e)
IsWithin-circuit no_circuits e name args result f h = tt
IsWithin-circuit (circuit k a r d) e name args result (new, f) (found, h) =
    (rw (different name k new) found, IsWithin-circuit d e name args result f h)
IsWithin-circuit (no_circuit k d) e name args result f h = elim h [ ]

mutual
  unfolding IsReadable

  IsWithin-refl : (d : InterfaceDescriptor) → IsReadableDescriptor d → IsWithin d d
  IsWithin-refl no_circuits h = tt
  IsWithin-refl (circuit name args result d) (fresh, _, _, h) =
      (rw (same_refl name) refl, IsWithin-circuit d d name args result fresh (IsWithin-refl d h))
  IsWithin-refl (no_circuit name d) h = elim h [ ]

all_below-true : (n : ℕ) (test : ℕ → Bool) → ((i : ℕ) → test i ≡ true) → all_below n test ≡ true
all_below-true zero test h = refl
all_below-true (suc n) test h = rw (h zero) (all_below-true n (λ i. test (suc i)) (λ i. h (suc i)))

==_refl : (n : ℕ) → (n == n) ≡ true
==_refl n = (==_iff n n).1 refl

names_equal_refl : (l : List String) → names_equal l l ≡ true
names_equal_refl [] = refl
names_equal_refl (a ∷ l) = rw (same_refl a) (names_equal_refl l)

decided :
    {t : ScalarTag} (d : Dec (t ≡ t))
    → (elim d as (λ _. Bool) [ yes _ ↦ true | no _ ↦ false ]) ≡ true
decided (yes _) = refl
decided (no h) = absurd (h refl)

tags_equal_refl : (t : ScalarTag) → tags_equal t t ≡ true
tags_equal_refl t = decided (tag-discrete t t)

mutual
  unfolding signature_types_equal IsReadable

  pub signature_types_equal_refl :
      (t : SignatureType) → IsReadable t → signature_types_equal t t ≡ true
  signature_types_equal_refl (scalar t) h = tags_equal_refl t
  signature_types_equal_refl (uint m) h = same_refl m
  signature_types_equal_refl (bytes n) h = ==_refl n
  signature_types_equal_refl (opaque s) h = same_refl s
  signature_types_equal_refl (vector n t) h =
      rw (==_refl n) (all_below-true n _ (λ i. signature_types_equal_refl t h))
  signature_types_equal_refl (tuple ts) h =
      rw (==_refl (types_length ts)) (elements_equal_refl ts h)
  signature_types_equal_refl (enumeration name l) h = rw (same_refl name) (names_equal_refl l)
  signature_types_equal_refl (struct name fs) h = rw (same_refl name) (fields_equal_refl fs h)
  signature_types_equal_refl (alias name t) h = rw (same_refl name) (signature_types_equal_refl t h)
  signature_types_equal_refl (contract name d) h =
      rw (==_refl (circuit_count d)) (circuits_equal-IsWithin d d h (IsWithin-refl d h))
  signature_types_equal_refl malformed h = elim h [ ]
  signature_types_equal_refl (unknown tag) h = elim h [ ]
  signature_types_equal_refl (damaged tag) h = elim h [ ]

  elements_equal_refl :
      (ts : SignatureTypes) → AreReadable ts → elements_equal ts (types_at ts) ≡ true
  elements_equal_refl no_types h = refl
  elements_equal_refl (type t ts) (ht, h) =
      rw (signature_types_equal_refl t ht) (elements_equal_refl ts h)

  types_equal_refl : (ts : SignatureTypes) → AreReadable ts → types_equal ts ts ≡ true
  types_equal_refl no_types h = refl
  types_equal_refl (type t ts) (ht, h) =
      rw (signature_types_equal_refl t ht) (types_equal_refl ts h)

  fields_equal_refl : (fs : NamedSignatureTypes) → HasReadable fs → fields_equal fs fs ≡ true
  fields_equal_refl no_fields h = refl
  fields_equal_refl (named name t fs) (ht, h) =
      rw (same_refl name, signature_types_equal_refl t ht) (fields_equal_refl fs h)

  circuits_equal-IsWithin :
      (d e : InterfaceDescriptor)
      → IsReadableDescriptor d
      → IsWithin d e
      → circuits_equal d e ≡ true
  circuits_equal-IsWithin no_circuits e h w = refl
  circuits_equal-IsWithin (circuit name args result d) e (_, ha, hr, h) (found, w) =
      rw (found, types_equal_refl args ha, signature_types_equal_refl result hr, circuits_equal)
        (circuits_equal-IsWithin d e h w)
  circuits_equal-IsWithin (no_circuit name d) e h w = elim h [ ]
