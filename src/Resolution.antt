-- ===== src/Resolution.antt =====
-- runtime/src/module-resolution.ts and runtime/src/verifier-key-hash.ts: the failures of binding a
-- call to an implementation, and the fingerprints of verifier keys.
pub mod Messages
pub mod Kinds
use Prim.Native.Char.{code}
use Prim.Native.String.{String}
use compact.Base.{
  ℕ, Bool, ◌&&◌, ◌||◌, List, [], ◌∷◌, Option, leb, ◌==◌, if◌then◌else◌, length, Error, message,
  expected_verifier_key_hash, Result, ok, err,
}
use compact.Conformance.{ConformanceCheck}

-- The exports of a module that a call reads.
pub data ModuleExport : Type 0 where
  contract_export circuit_signatures_export expected_vk_export : ModuleExport

-- What is thrown by the application, `cause`, is kept as a text.
pub data ModuleResolutionFailure : Type 0 where
  module_provider_absent operation_absent unsupported_implementation : ModuleResolutionFailure
  provider_threw : (cause : String) → ModuleResolutionFailure
  nonconformant_implementation :
      (circuit_id : String)
      → ConformanceCheck
      → (argument_index : Option ℕ) → ModuleResolutionFailure
  unreadable_module :
      (circuit_id unreadable_tag : String) → (argument_index : Option ℕ) → ModuleResolutionFailure
  malformed_verifier_key_hash : (circuit_id recorded : String) → ModuleResolutionFailure
  implementation_mismatch :
      (circuit_id : String)
      → (expected : Option String) → (actual : String) → ModuleResolutionFailure
  module_load_rejected : (cause : String) → ModuleResolutionFailure
  incomplete_module : (missing : List ModuleExport) → ModuleResolutionFailure

pub record ModuleResolutionContext : Type 0 where
  pub callee_address : String
  pub callee_circuit_id : String
  pub interface_name : String
  pub caller_address : String

-- What a call throws.
pub data Thrown : Type 0 where
  error : Error → Thrown
  resolution_error : ModuleResolutionContext → ModuleResolutionFailure → Thrown

abbrev pub codes : String → List ℕ
codes String.[] = []
codes (String.◌∷◌ c s) = code c ∷ codes s

-- The digits 0 to 9 and the letters a to f.
abbrev pub is_lower_hex : ℕ → Bool
is_lower_hex c = (leb 48 c && leb c 57) || (leb 97 c && leb c 102)

abbrev pub all {ℓ} : {A : Type ℓ} → (A → Bool) → List A → Bool
all test [] = Bool.true
all test (x ∷ l) = test x && all test l

-- `/^[0-9a-f]{64}$/.test(x)`
abbrev pub is_verifier_key_hash : String → Bool
is_verifier_key_hash x = length (codes x) == 64 && all is_lower_hex (codes x)

unfoldable pub as_verifier_key_hash : String → Result String
as_verifier_key_hash hex =
    if is_verifier_key_hash hex then ok hex else err (expected_verifier_key_hash hex)

-- `bytesToHex(sha256(key))` of `@noble/hashes` is the parameter.
unfoldable pub verifier_key_hash_of : (List ℕ → String) → List ℕ → Result String
unfolding as_verifier_key_hash
verifier_key_hash_of hex_of_sha256 [] = err (message "Cannot fingerprint an empty verifier key")
verifier_key_hash_of hex_of_sha256 (b ∷ key) = as_verifier_key_hash (hex_of_sha256 (b ∷ key))
