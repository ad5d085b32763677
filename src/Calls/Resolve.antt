-- ===== src/Calls/Resolve.antt =====
-- The module of a callee in runtime/src/contract.ts: how it is loaded, and its comparison with the
-- declared contract type and with the deployed keys.
pub mod Keys
use compact.Base.{
  ℕ, String, List, [], ◌∷◌, ◌++◌, Option, none, some, if◌then◌else◌, Result, ok, err,
}
use compact.Base.Names.{same, Dict, lookup}
use compact.Signature.{CircuitSignatures, DeclaredInterface}
use compact.Conformance.{ConformanceResult, conformant, violation, unreadable, check_conformance}
use compact.Resolution.{
  ModuleExport, contract_export, circuit_signatures_export, expected_vk_export,
  ModuleResolutionFailure, operation_absent, unsupported_implementation, provider_threw,
  nonconformant_implementation, unreadable_module, malformed_verifier_key_hash,
  implementation_mismatch, module_load_rejected, incomplete_module, ModuleResolutionContext, Thrown,
  error, resolution_error, is_verifier_key_hash, verifier_key_hash_of,
}
use compact.Context.{Ledger, ContractState, Outcome, returned, thrown}

-- What comes after a step, unless it threw.
infixl 5 ◌>>=◌ ◌>>◌
abbrev pub ◌>>=◌ {ℓ κ} : {A : Type ℓ} {B : Type κ} → Outcome A → (A → Outcome B) → Outcome B
returned a >>= next = next a
thrown e >>= next = thrown e

abbrev pub ◌>>◌ {κ} : {B : Type κ} → Outcome (Unit {0}) → Outcome B → Outcome B
first >> second = first >>= λ _. second

abbrev pub fail_resolution {ℓ} :
    {A : Type ℓ} → ModuleResolutionContext → ModuleResolutionFailure → Outcome A
fail_resolution context failure = thrown (resolution_error context failure)

-- A module with the exports that a call reads. For the constructor `Contract` stands what it comes
-- to, `construction`, and the circuits of what it makes.
pub record Module {ℓ} (Circuit : Type ℓ) : Type ℓ where
  pub construction : Outcome (Unit {0})
  pub provable_circuits : Dict Circuit
  pub circuit_signatures : CircuitSignatures
  pub expected_vk : Dict String

-- The same of a module as it is loaded, of which any may be missing.
pub record ModuleExports {ℓ} (Circuit : Type ℓ) : Type ℓ where
  pub construction : Outcome (Unit {0})
  pub provable_circuits : Option (Dict Circuit)
  pub circuit_signatures : Option CircuitSignatures
  pub expected_vk : Option (Dict String)

-- What the promise of a thunk comes to, and what `resolve` of the provider does.
pub data LoadedModule {ℓ} (Circuit : Type ℓ) : Type ℓ where
  rejected : (cause : String) → LoadedModule Circuit
  null_or_undefined : (cause : String) → LoadedModule Circuit
  loaded : ModuleExports Circuit → LoadedModule Circuit

pub data ProviderReply {ℓ} (Circuit : Type ℓ) : Type ℓ where
  threw : (cause : String) → ProviderReply Circuit
  undefined_thunk : ProviderReply Circuit
  no_function : (cause : String) → ProviderReply Circuit
  thunk : LoadedModule Circuit → ProviderReply Circuit

abbrev missing_export {κ} : {A : Type κ} → ModuleExport → Option A → List ModuleExport
missing_export name none = name ∷ []
missing_export name (some a) = []

module _ {ℓ} {Circuit : Type ℓ} (context : ModuleResolutionContext) where
  abbrev pub assemble :
      Outcome (Unit {0})
      → Option (Dict Circuit)
      → Option CircuitSignatures
      → Option (Dict String)
      → Outcome (Module Circuit)
  assemble construction (some circuits) (some signatures) (some keys) = returned (record {
    construction = construction;
    provable_circuits = circuits;
    circuit_signatures = signatures;
    expected_vk = keys;
  })
  assemble construction circuits signatures keys = fail_resolution context (
      incomplete_module (
        missing_export contract_export circuits
        ++ missing_export circuit_signatures_export signatures
        ++ missing_export expected_vk_export keys))

  unfoldable pub resolve_module : ProviderReply Circuit → Outcome (Module Circuit)
  resolve_module (threw cause) = fail_resolution context (provider_threw cause)
  resolve_module undefined_thunk = fail_resolution context unsupported_implementation
  resolve_module (no_function cause) = fail_resolution context (provider_threw cause)
  resolve_module (thunk (rejected cause)) = fail_resolution context (module_load_rejected cause)
  resolve_module (thunk (null_or_undefined cause)) = fail_resolution context (provider_threw cause)
  resolve_module (thunk (loaded exports)) =
      assemble exports.construction exports.provable_circuits exports.circuit_signatures
        exports.expected_vk

module _ (context : ModuleResolutionContext) where
  abbrev pub report_conformance : ConformanceResult → Outcome (Unit {0})
  report_conformance conformant = returned tt
  report_conformance (violation circuit_id check argument_index) =
      fail_resolution context (nonconformant_implementation circuit_id check argument_index)
  report_conformance (unreadable circuit_id tag argument_index) =
      fail_resolution context (unreadable_module circuit_id tag argument_index)

  unfoldable pub check_module_conformance :
      DeclaredInterface → CircuitSignatures → Outcome (Unit {0})
  check_module_conformance declaration signatures =
      report_conformance (check_conformance declaration signatures)

  unfoldable pub recorded_hash : String → String → Outcome String
  recorded_hash circuit_id recorded =
      if is_verifier_key_hash recorded
      then returned recorded
      else fail_resolution context (malformed_verifier_key_hash circuit_id recorded)

abbrev pub of_hash : Result String → Outcome (Option String)
of_hash (ok hash) = returned (some hash)
of_hash (err e) = thrown (error e)

-- `hex_of_sha256` is `bytesToHex(sha256(key))` of `@noble/hashes`.
abbrev pub hash_of_key : (List ℕ → String) → Option (List ℕ) → Outcome (Option String)
hash_of_key hex_of_sha256 none = returned none
hash_of_key hex_of_sha256 (some []) = returned none
hash_of_key hex_of_sha256 (some (b ∷ key)) = of_hash (verifier_key_hash_of hex_of_sha256 (b ∷ key))

module _ (context : ModuleResolutionContext) where
  abbrev pub compare : String → String → String → Outcome (Unit {0})
  compare circuit_id expected deployed =
      if same expected deployed
      then returned tt
      else fail_resolution context (implementation_mismatch circuit_id (some expected) deployed)

  -- The called circuit, with its fingerprint on the chain and the one that is recorded.
  abbrev pub check_called : String → Option String → Option String → Outcome (Unit {0})
  check_called circuit_id none recorded = fail_resolution context operation_absent
  check_called circuit_id (some deployed) none =
      fail_resolution context (implementation_mismatch circuit_id none deployed)
  check_called circuit_id (some deployed) (some recorded) = do
    expected ← recorded_hash context circuit_id recorded
    compare circuit_id expected deployed

  abbrev pub check_other : String → String → Option String → Outcome (Unit {0})
  check_other circuit_id recorded none = returned tt
  check_other circuit_id recorded (some deployed) = do
    expected ← recorded_hash context circuit_id recorded
    compare circuit_id expected deployed

module _ {l : Ledger} (hex_of_sha256 : List ℕ → String) (deployed_state : ContractState l) where
  unfoldable pub deployed_hash : String → Outcome (Option String)
  deployed_hash circuit_id =
      hash_of_key hex_of_sha256 (lookup circuit_id deployed_state.verifier_keys)

  module _ (context : ModuleResolutionContext) where
    abbrev pub check_others : String → Dict String → Outcome (Unit {0})
    check_others callee_circuit_id [] = returned tt
    check_others callee_circuit_id ((circuit_id, recorded) ∷ expected_vk) =
        if same circuit_id callee_circuit_id
        then check_others callee_circuit_id expected_vk
        else (deployed_hash circuit_id >>= check_other context circuit_id recorded >>= λ _.
            check_others callee_circuit_id expected_vk)

    unfoldable pub check_implementation : Dict String → String → Outcome (Unit {0})
    check_implementation expected_vk callee_circuit_id =
        deployed_hash callee_circuit_id
        >>= (λ deployed.
            check_called context callee_circuit_id deployed (lookup callee_circuit_id expected_vk))
        >>= λ _. check_others callee_circuit_id expected_vk
