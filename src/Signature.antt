-- ===== src/Signature.antt =====
-- runtime/src/interface-descriptor.ts: the types of circuits as a generated module exports them.
use compact.Base.{ℕ, String, List, Bool}
use compact.Base.Names.{Dict}

-- The tags that carry nothing else.
pub data ScalarTag : Type 0 where
  boolean field jubjub_scalar jubjub_point : ScalarTag
  secp256k1_base secp256k1_scalar secp256k1_point : ScalarTag
  secp256r1_base secp256r1_scalar secp256r1_point : ScalarTag
  curve25519_base curve25519_scalar curve25519_point : ScalarTag

-- A value at a place where a type is expected. The last three constructors are what a module of
-- another compiler may hold there: no readable tag, a tag that is not known, and a known tag whose
-- payload is not of that tag.
mutual
  pub data SignatureType : Type 0 where
    scalar : ScalarTag → SignatureType
    uint : String → SignatureType
    bytes : ℕ → SignatureType
    opaque : String → SignatureType
    vector : ℕ → SignatureType → SignatureType
    tuple : SignatureTypes → SignatureType
    enumeration : String → List String → SignatureType
    struct : String → NamedSignatureTypes → SignatureType
    alias : String → SignatureType → SignatureType
    contract : String → InterfaceDescriptor → SignatureType
    malformed : SignatureType
    unknown : String → SignatureType
    damaged : String → SignatureType

  pub data SignatureTypes : Type 0 where
    no_types : SignatureTypes
    type : SignatureType → SignatureTypes → SignatureTypes

  pub data NamedSignatureTypes : Type 0 where
    no_fields : NamedSignatureTypes
    named : String → SignatureType → NamedSignatureTypes → NamedSignatureTypes

  -- An object from the name of a circuit to its argument types and result type. The last
  -- constructor is an entry whose argument types are not an array.
  pub data InterfaceDescriptor : Type 0 where
    no_circuits : InterfaceDescriptor
    circuit : String → SignatureTypes → SignatureType → InterfaceDescriptor → InterfaceDescriptor
    no_circuit : String → InterfaceDescriptor → InterfaceDescriptor

-- One circuit as declared.
pub record InterfaceCircuitDeclaration : Type 0 where
  pub argument_types : List SignatureType
  pub result_type : SignatureType

-- One circuit as implemented.
pub record CircuitSignature : Type 0 where
  pub argument_types : List SignatureType
  pub result_type : SignatureType
  pub provable : Bool

-- What is found under a circuit's name in a module's `circuitSignatures`: a signature, or an entry
-- whose argument types are not an array.
pub data ImplementedCircuit : Type 0 where
  signature : CircuitSignature → ImplementedCircuit
  unsigned : ImplementedCircuit

abbrev pub CircuitSignatures : Type 0
CircuitSignatures = Dict ImplementedCircuit

-- The caller's `declaredInterfaces[T]`.
abbrev pub DeclaredInterface : Type 0
DeclaredInterface = Dict InterfaceCircuitDeclaration
