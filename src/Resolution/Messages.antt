-- ===== src/Resolution/Messages.antt =====
-- The texts of runtime/src/module-resolution.ts that describe why a call could not be bound.
use Prim.Native.String
use compact.Base.{
  ℕ, zero, suc, ◌/◌, ◌%◌, ◌+◌, String, List, [], ◌∷◌, Option, none, some, ltb, if◌then◌else◌,
}
use compact.Conformance.{
  ConformanceCheck, existence, provability, arity, argument_type, result_type,
}
use compact.Resolution.{
  ModuleExport, contract_export, circuit_signatures_export, expected_vk_export,
  ModuleResolutionFailure, module_provider_absent, operation_absent, unsupported_implementation,
  provider_threw, nonconformant_implementation, unreadable_module, malformed_verifier_key_hash,
  implementation_mismatch, module_load_rejected, incomplete_module, ModuleResolutionContext,
}

-- Parts of a template, one after the other.
abbrev pub template : List String → String
template [] = ""
template (s ∷ []) = s
template (s ∷ t ∷ parts) = String.◌++◌ s (template (t ∷ parts))

-- A number in a template; the rounds are more than its digits.
abbrev decimal : ℕ → ℕ → String
decimal zero n = ""
decimal (suc rounds) n =
    let rest = decimal rounds (n / 10) in
    let digit = String.slice "0123456789" (n % 10) (n % 10 + 1) in
    if ltb n 10 then digit else String.◌++◌ rest digit

abbrev index_text : Option ℕ → String
index_text none = "undefined"
index_text (some n) = decimal (suc n) n

abbrev export_name : ModuleExport → String
export_name contract_export = "Contract"
export_name circuit_signatures_export = "circuitSignatures"
export_name expected_vk_export = "expectedVk"

-- `missing.join(', ')`
abbrev pub join_names : List ModuleExport → String
join_names [] = ""
join_names (m ∷ []) = export_name m
join_names (m ∷ n ∷ missing) =
    String.◌++◌ (export_name m) (String.◌++◌ ", " (join_names (n ∷ missing)))

abbrev pub describe_conformance : String → ConformanceCheck → Option ℕ → String
describe_conformance circuit_id existence i =
    template ("it does not implement circuit '" ∷ circuit_id ∷ "'" ∷ [])
describe_conformance circuit_id provability i = template (
    "circuit '" ∷ circuit_id
    ∷ "' is not among the module's provable circuits, so it has no proof to match the call" ∷ [])
describe_conformance circuit_id arity i =
    template ("circuit '" ∷ circuit_id ∷ "' takes a different number of arguments" ∷ [])
describe_conformance circuit_id argument_type i =
    template
      ("circuit '" ∷ circuit_id ∷ "' argument " ∷ index_text i ∷ " has a different type" ∷ [])
describe_conformance circuit_id result_type i =
    template ("circuit '" ∷ circuit_id ∷ "' returns a different type" ∷ [])

abbrev pub unreadable_place : String → Option ℕ → String
unreadable_place circuit_id none = template ("the result type of circuit '" ∷ circuit_id ∷ "'" ∷ [])
unreadable_place circuit_id (some i) =
    template ("argument " ∷ index_text (some i) ∷ " of circuit '" ∷ circuit_id ∷ "'" ∷ [])

unfoldable pub describe_failure : ModuleResolutionFailure → String
describe_failure module_provider_absent = "the circuit context carries no module provider"
describe_failure operation_absent =
    "the deployed contract has no operation for this circuit, or its operation carries no verifier key"
describe_failure unsupported_implementation = "the module provider has no binding for this address"
describe_failure (provider_threw cause) =
    "the module provider threw, or returned something that is neither a thunk nor undefined"
describe_failure (nonconformant_implementation circuit_id check argument_index) = template (
    "the resolved module does not implement the contract type: "
    ∷ describe_conformance circuit_id check argument_index
    ∷ [])
describe_failure (unreadable_module circuit_id unreadable_tag argument_index) = template (
    "it uses a type constructor this runtime does not know, '"
    ∷ unreadable_tag
    ∷ "', in "
    ∷ unreadable_place circuit_id argument_index
    ∷ "; the module was probably built by a newer compiler"
    ∷ [])
describe_failure (malformed_verifier_key_hash circuit_id recorded) = template (
    "the module records '" ∷ recorded ∷ "' as the verifier key fingerprint for circuit '"
    ∷ circuit_id ∷ "', which is not 64 lowercase hex digits" ∷ [])
describe_failure (implementation_mismatch circuit_id none actual) = template (
    "the resolved module carries no verifier key fingerprint for circuit '" ∷ circuit_id
    ∷ "', but the deployed contract's is '" ∷ actual ∷ "'" ∷ [])
describe_failure (implementation_mismatch circuit_id (some expected) actual) = template (
    "the verifier key for circuit '" ∷ circuit_id ∷ "' is '" ∷ expected
    ∷ "' in the resolved module but '" ∷ actual ∷ "' on chain" ∷ [])
describe_failure (module_load_rejected cause) = "loading the resolved module rejected"
describe_failure (incomplete_module missing) = template (
    "the resolved module does not export "
    ∷ join_names missing
    ∷ "; it was built before dynamic resolution"
    ∷ [])

-- The message of a `ModuleResolutionError`.
unfoldable pub resolution_message : ModuleResolutionContext → ModuleResolutionFailure → String
resolution_message context failure = template (
    "Cross-contract call from '"
    ∷ context.caller_address
    ∷ "' to '"
    ∷ context.callee_circuit_id
    ∷ "' at '"
    ∷ context.callee_address
    ∷ "' through contract type '"
    ∷ context.interface_name
    ∷ "' could not be bound to an implementation: "
    ∷ describe_failure failure
    ∷ "."
    ∷ [])
