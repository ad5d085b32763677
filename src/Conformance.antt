-- ===== src/Conformance.antt =====
-- runtime/src/conformance.ts: whether a module implements the contract type that its caller
-- declared.
pub mod Reflexive
pub mod Outcome
pub mod Own
use compact.Base.{
  ℕ, zero, suc, ◌+◌, String, Bool, true, false, ◌&&◌, not, List, [], ◌∷◌, Option, none, some, ◌==◌,
  if◌then◌else◌, length,
}
use compact.Base.Names.{same, lookup, has}
use compact.Signature.{
  ScalarTag, SignatureType, scalar, uint, bytes, opaque, vector, tuple, enumeration, struct, alias,
  contract, malformed, unknown, damaged, SignatureTypes, no_types, type, NamedSignatureTypes,
  no_fields, named, InterfaceDescriptor, no_circuits, circuit, no_circuit,
  InterfaceCircuitDeclaration, CircuitSignature, ImplementedCircuit, signature, unsigned,
  CircuitSignatures, DeclaredInterface,
}

pub data ConformanceCheck : Type 0 where
  existence provability arity argument_type result_type : ConformanceCheck

-- The circuit, the check and the argument, or the circuit, the tag and the argument.
pub data ConformanceResult : Type 0 where
  conformant : ConformanceResult
  violation : String → ConformanceCheck → Option ℕ → ConformanceResult
  unreadable : String → String → Option ℕ → ConformanceResult

-- The first of two searches that finds something.
abbrev pub or_else {ℓ} : {A : Type ℓ} → Option A → Option A → Option A
or_else (some a) b = some a
or_else none b = b

unfoldable mutual
  pub first_unreadable_tag : SignatureType → Option String
  first_unreadable_tag (scalar t) = none
  first_unreadable_tag (uint m) = none
  first_unreadable_tag (bytes n) = none
  first_unreadable_tag (opaque s) = none
  first_unreadable_tag (enumeration name es) = none
  first_unreadable_tag (alias name t) = first_unreadable_tag t
  first_unreadable_tag (vector n t) = first_unreadable_tag t
  first_unreadable_tag (tuple ts) = first_unreadable ts
  first_unreadable_tag (struct name fs) = first_unreadable_field fs
  first_unreadable_tag (contract name d) = first_unreadable_in_descriptor d
  first_unreadable_tag malformed = some "(malformed)"
  first_unreadable_tag (unknown tag) = some tag
  first_unreadable_tag (damaged tag) = some tag

  first_unreadable : SignatureTypes → Option String
  first_unreadable no_types = none
  first_unreadable (type t ts) = or_else (first_unreadable_tag t) (first_unreadable ts)

  first_unreadable_field : NamedSignatureTypes → Option String
  first_unreadable_field no_fields = none
  first_unreadable_field (named name t fs) =
      or_else (first_unreadable_tag t) (first_unreadable_field fs)

  first_unreadable_in_descriptor : InterfaceDescriptor → Option String
  first_unreadable_in_descriptor no_circuits = none
  first_unreadable_in_descriptor (no_circuit name d) = some "(malformed)"
  first_unreadable_in_descriptor (circuit name args result d) =
      or_else (or_else (first_unreadable args) (first_unreadable_tag result))
        (first_unreadable_in_descriptor d)

-- The length of a list of types, and the type at an index.
abbrev pub types_length : SignatureTypes → ℕ
types_length no_types = 0
types_length (type t ts) = suc (types_length ts)

abbrev pub types_at : SignatureTypes → ℕ → SignatureType
types_at no_types i = malformed
types_at (type t ts) zero = t
types_at (type t ts) (suc i) = types_at ts i

pub record SequenceView : Type 0 where
  pub len : ℕ
  pub at : ℕ → SignatureType

abbrev pub sequence_elements : SignatureType → Option SequenceView
sequence_elements (vector n t) = some (record { len = n; at = λ i. t })
sequence_elements (tuple ts) = some (record { len = types_length ts; at = types_at ts })
sequence_elements _ = none

-- `for (let index = 0; index < length; index += 1)` with the comparison at each index.
abbrev pub all_below : ℕ → (ℕ → Bool) → Bool
all_below zero test = true
all_below (suc n) test = if test zero then all_below n (λ i. test (suc i)) else false

-- The number of circuits of a descriptor, and the circuit of a name.
abbrev pub circuit_count : InterfaceDescriptor → ℕ
circuit_count no_circuits = 0
circuit_count (circuit name args result d) = suc (circuit_count d)
circuit_count (no_circuit name d) = suc (circuit_count d)

abbrev pub find_circuit : String → InterfaceDescriptor → Option (SignatureTypes × SignatureType)
find_circuit k no_circuits = none
find_circuit k (circuit name args result d) =
    if same k name then some (args, result) else find_circuit k d
find_circuit k (no_circuit name d) = if same k name then none else find_circuit k d

abbrev pub names_equal : List String → List String → Bool
names_equal [] [] = true
names_equal (a ∷ l) (b ∷ m) = if same a b then names_equal l m else false
names_equal _ _ = false

pub tag-discrete : Discrete ScalarTag
tag-discrete = hlevel

abbrev pub tags_equal : ScalarTag → ScalarTag → Bool
tags_equal a b = elim (tag-discrete a b) [ yes _ ↦ true | no _ ↦ false ]

unfoldable mutual
  pub signature_types_equal : SignatureType → SignatureType → Bool
  signature_types_equal (vector n t) b = elim (sequence_elements b) [
    | none ↦ false
    | some seq ↦
        if n == seq.len then all_below n (λ i. signature_types_equal t (seq.at i)) else false
  ]
  signature_types_equal (tuple ts) b = elim (sequence_elements b) [
    | none ↦ false
    | some seq ↦ if types_length ts == seq.len then elements_equal ts seq.at else false
  ]
  signature_types_equal (scalar s) (scalar t) = tags_equal s t
  signature_types_equal (uint m) (uint n) = same m n
  signature_types_equal (bytes m) (bytes n) = m == n
  signature_types_equal (opaque s) (opaque t) = same s t
  signature_types_equal (enumeration name l) (enumeration name' m) =
      same name name' && names_equal l m
  signature_types_equal (struct name fs) (struct name' gs) = same name name' && fields_equal fs gs
  signature_types_equal (alias name t) (alias name' u) =
      same name name' && signature_types_equal t u
  signature_types_equal (contract name d) (contract name' e) =
      circuit_count d == circuit_count e && circuits_equal d e
  signature_types_equal _ _ = false

  -- The loop over the elements of a tuple.
  elements_equal : SignatureTypes → (ℕ → SignatureType) → Bool
  elements_equal no_types at = true
  elements_equal (type t ts) at =
      if signature_types_equal t (at zero) then elements_equal ts (λ i. at (suc i)) else false

  types_equal : SignatureTypes → SignatureTypes → Bool
  types_equal no_types no_types = true
  types_equal (type t ts) (type u us) =
      if signature_types_equal t u then types_equal ts us else false
  types_equal _ _ = false

  fields_equal : NamedSignatureTypes → NamedSignatureTypes → Bool
  fields_equal no_fields no_fields = true
  fields_equal (named name t fs) (named name' u gs) =
      if same name name' && signature_types_equal t u then fields_equal fs gs else false
  fields_equal _ _ = false

  -- Each circuit of the first descriptor is in the second, with equal types.
  circuits_equal : InterfaceDescriptor → InterfaceDescriptor → Bool
  circuits_equal no_circuits e = true
  circuits_equal (no_circuit name d) e = false
  circuits_equal (circuit name args result d) e = elim (find_circuit name e) [
    | none ↦ false
    | some (args', result') ↦
        if types_equal args args' && signature_types_equal result result'
        then circuits_equal d e
        else false
  ]

-- The arguments of a circuit from index i on: the first that is unreadable or differs.
check_arguments : String → ℕ → List SignatureType → List SignatureType → Option ConformanceResult
check_arguments circuit_id i (t ∷ declared) (u ∷ implemented) = elim (first_unreadable_tag u) [
  | some tag ↦ some (unreadable circuit_id tag (some i))
  | none ↦
      if signature_types_equal t u
      then check_arguments circuit_id (suc i) declared implemented
      else some (violation circuit_id argument_type (some i))
]
check_arguments circuit_id i _ _ = none

check_result : String → SignatureType → SignatureType → Option ConformanceResult
check_result circuit_id t u = elim (first_unreadable_tag u) [
  | some tag ↦ some (unreadable circuit_id tag none)
  | none ↦ if signature_types_equal t u then none else some (violation circuit_id result_type none)
]

-- One round of the loop: what it returns, if it returns.
check_circuit :
    String → InterfaceCircuitDeclaration → Option ImplementedCircuit → Option ConformanceResult
unfolding check_arguments check_result
check_circuit circuit_id declared none = some (violation circuit_id existence none)
check_circuit circuit_id declared (some unsigned) = some (unreadable circuit_id "(malformed)" none)
check_circuit circuit_id declared (some (signature implemented)) =
    if not implemented.provable
    then some (violation circuit_id provability none)
    else if not (length declared.argument_types == length implemented.argument_types)
    then some (violation circuit_id arity none)
    else or_else (check_arguments circuit_id 0 declared.argument_types implemented.argument_types)
        (check_result circuit_id declared.result_type implemented.result_type)

unfoldable pub check_conformance : DeclaredInterface → CircuitSignatures → ConformanceResult
unfolding check_circuit
check_conformance [] implementation = conformant
check_conformance ((circuit_id, declared) ∷ declaration) implementation =
    elim (check_circuit circuit_id declared (lookup circuit_id implementation)) [
      | some failure ↦ failure
      | none ↦ check_conformance declaration implementation
    ]
