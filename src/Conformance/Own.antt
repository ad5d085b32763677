-- ===== src/Conformance/Own.antt =====
-- `checkConformance` of runtime/src/conformance.ts on a module and the contract type that it was
-- written for.
use compact.Base.{◌≡◌, refl, true, List, [], ◌∷◌, some, none, All}
use compact.Base.Names.{lookup}
use compact.Signature.{
  SignatureType, scalar, uint, bytes, opaque, vector, tuple, enumeration, struct, alias, contract,
  malformed, unknown, damaged, SignatureTypes, no_types, type, NamedSignatureTypes, no_fields,
  named, InterfaceDescriptor, no_circuits, circuit, no_circuit, signature, CircuitSignatures,
  DeclaredInterface,
}
use compact.Conformance.{
  conformant, first_unreadable_tag, first_unreadable, first_unreadable_field,
  first_unreadable_in_descriptor, check_conformance,
}
use compact.Conformance.Reflexive.{
  IsReadable, AreReadable, HasReadable, IsReadableDescriptor, signature_types_equal_refl,
}
use compact.Conformance.Outcome.{AllMatch, Matches, ImplementsAll, check_conformance_iff}

mutual
  unfolding first_unreadable_tag IsReadable

  first_unreadable_tag-IsReadable :
      (t : SignatureType) → IsReadable t → first_unreadable_tag t ≡ none
  first_unreadable_tag-IsReadable (scalar t) h = refl
  first_unreadable_tag-IsReadable (uint m) h = refl
  first_unreadable_tag-IsReadable (bytes n) h = refl
  first_unreadable_tag-IsReadable (opaque s) h = refl
  first_unreadable_tag-IsReadable (vector n t) h = first_unreadable_tag-IsReadable t h
  first_unreadable_tag-IsReadable (tuple ts) h = first_unreadable-AreReadable ts h
  first_unreadable_tag-IsReadable (enumeration name l) h = refl
  first_unreadable_tag-IsReadable (struct name fs) h = first_unreadable_field-HasReadable fs h
  first_unreadable_tag-IsReadable (alias name t) h = first_unreadable_tag-IsReadable t h
  first_unreadable_tag-IsReadable (contract name d) h =
      first_unreadable_in_descriptor-IsReadableDescriptor d h
  first_unreadable_tag-IsReadable malformed h = elim h [ ]
  first_unreadable_tag-IsReadable (unknown tag) h = elim h [ ]
  first_unreadable_tag-IsReadable (damaged tag) h = elim h [ ]

  first_unreadable-AreReadable : (ts : SignatureTypes) → AreReadable ts → first_unreadable ts ≡ none
  first_unreadable-AreReadable no_types h = refl
  first_unreadable-AreReadable (type t ts) (ht, h) =
      rw (first_unreadable_tag-IsReadable t ht) (first_unreadable-AreReadable ts h)

  first_unreadable_field-HasReadable :
      (fs : NamedSignatureTypes) → HasReadable fs → first_unreadable_field fs ≡ none
  first_unreadable_field-HasReadable no_fields h = refl
  first_unreadable_field-HasReadable (named name t fs) (ht, h) =
      rw (first_unreadable_tag-IsReadable t ht) (first_unreadable_field-HasReadable fs h)

  first_unreadable_in_descriptor-IsReadableDescriptor :
      (d : InterfaceDescriptor) → IsReadableDescriptor d → first_unreadable_in_descriptor d ≡ none
  first_unreadable_in_descriptor-IsReadableDescriptor no_circuits h = refl
  first_unreadable_in_descriptor-IsReadableDescriptor (circuit name args result d) (_, ha, hr, h) =
      rw (first_unreadable-AreReadable args ha, first_unreadable_tag-IsReadable result hr)
        (first_unreadable_in_descriptor-IsReadableDescriptor d h)
  first_unreadable_in_descriptor-IsReadableDescriptor (no_circuit name d) h = elim h [ ]

-- Every declared circuit is one that the module implements, with a proof, at the very types of the
-- declaration, which are readable.
abbrev pub IsOwnInterface : DeclaredInterface → CircuitSignatures → Type 0
IsOwnInterface [] implementation = Unit {0}
IsOwnInterface ((k, d) ∷ declaration) implementation =
    (lookup k implementation
      ≡ some (
          signature (record {
            argument_types = d.argument_types;
            result_type = d.result_type;
            provable = true;
          })))
    × All IsReadable d.argument_types
    × IsReadable d.result_type
    × IsOwnInterface declaration implementation

matches_itself : (t : SignatureType) → IsReadable t → Matches t t
matches_itself t h = (first_unreadable_tag-IsReadable t h, signature_types_equal_refl t h)

all_match_themselves : (l : List SignatureType) → All IsReadable l → AllMatch l l
all_match_themselves [] h = tt
all_match_themselves (t ∷ l) (ht, h) = (matches_itself t ht, all_match_themselves l h)

own-ImplementsAll :
    (declaration : DeclaredInterface) (implementation : CircuitSignatures)
    → IsOwnInterface declaration implementation
    → ImplementsAll declaration implementation
own-ImplementsAll [] implementation h = tt
own-ImplementsAll ((k, d) ∷ declaration) implementation (found, arguments, result, h) = (
  rw found
      (refl, all_match_themselves d.argument_types arguments, matches_itself d.result_type result),
  own-ImplementsAll declaration implementation h,
)

-- A declaration each of whose circuits a module implements with a proof at the very same types
-- conforms, if these types can be read and the circuits of the contract types in them have
-- different names.
pub check_conformance-IsOwnInterface :
    (declaration : DeclaredInterface) (implementation : CircuitSignatures)
    → IsOwnInterface declaration implementation
    → check_conformance declaration implementation ≡ conformant
check_conformance-IsOwnInterface declaration implementation h =
    (check_conformance_iff declaration implementation).1
      (own-ImplementsAll declaration implementation h)
