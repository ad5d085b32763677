-- ===== src/Calls/Check.antt =====
-- The checks of `crossContractCall` in runtime/src/contract.ts that come before it changes the
-- circuit context.
use Prim.Native.String
use compact.Base.{
  ℕ, String, Bool, true, false, ◌&&◌, ◌||◌, List, [], ◌∷◌, Option, none, some, if◌then◌else◌, leb,
  ◌==◌, length, message, no_contract_address,
}
use compact.Base.Names.{same, quoted, lookup}
use compact.Signature.{DeclaredInterface}
use compact.Codec.Ocrt.{Ocrt}
use compact.Zswap.{CoinEncoding}
use compact.Resolution.{codes, ModuleResolutionContext, module_provider_absent, error}
use compact.Context.{Ledger, Vm, CircuitContext, World, Outcome, returned, thrown, ContractState}
use compact.Calls.Resolve.{
  ◌>>=◌, ◌>>◌, fail_resolution, Module, ProviderReply, resolve_module, check_module_conformance,
  check_implementation,
}
use compact.Calls.Enter.{require, resolve_deployed_state}
use compact.Calls.Claim.{CallPlatform}

abbrev pub is_hex : ℕ → Bool
is_hex c = (leb 48 c && leb c 57) || (leb 65 c && leb c 70) || (leb 97 c && leb c 102)

-- `HEX_REGEX_NO_PREFIX`, on the codes of a string
abbrev pub hex_pairs : List ℕ → Bool
hex_pairs [] = true
hex_pairs (c ∷ []) = false
hex_pairs (c ∷ d ∷ s) = is_hex c && is_hex d && hex_pairs s

-- A string that is matched has as many UTF-16 units as code points.
unfoldable pub is_contract_address : String → Bool
is_contract_address x = length (codes x) == 64 && hex_pairs (codes x)

unfoldable pub assert_is_contract_address : String → Outcome (Unit {0})
assert_is_contract_address x =
    if is_contract_address x then returned tt else thrown (error (no_contract_address x))

unfoldable pub assert_not_default_contract_address : String → String → Outcome (Unit {0})
assert_not_default_contract_address dummy address =
    if same address dummy
    then thrown (error (message "Cannot perform cross-contract call to default contract address"))
    else returned tt

-- A provable circuit of another module: its arguments, the context, which it copies, and what is
-- shared; it leaves its result with its context, or throws, and the shared part.
abbrev pub ProvableCircuit : Ledger → Type 0 → Type 0 → Type 0
ProvableCircuit l A R = A → CircuitContext l → World l → Outcome (R × CircuitContext l) × World l

pub record CrossContractCallOptions (A : Type 0) : Type 0 where
  pub interface_name : String
  pub declaration : DeclaredInterface
  pub callee_circuit_id : String
  pub callee_address : String
  pub args : A

-- What the call depends on: the libraries, the context's module provider, and the random text that
-- `communicationCommitmentRandomness` returns.
pub record Setting (l : Ledger) (A R : Type 0) : Type 0 where
  pub vm : Vm l
  pub ocrt : Ocrt
  pub platform : CallPlatform
  pub coins : CoinEncoding
  pub hex_of_sha256 : List ℕ → String
  pub module_provider : Option (String → ProviderReply (ProvableCircuit l A R))
  pub randomness : String

module _ {l : Ledger} {A R : Type 0} (e : Setting l A R)
    (options : CrossContractCallOptions A) where
  abbrev pub callee : String
  callee = options.callee_address

  abbrev pub resolution_context : CircuitContext l → ModuleResolutionContext
  resolution_context c = record {
    callee_address = callee;
    callee_circuit_id = options.callee_circuit_id;
    interface_name = options.interface_name;
    caller_address = c.call_context.contract_address;
  }

  abbrev pub given_provider :
      CircuitContext l
      → Option (String → ProviderReply (ProvableCircuit l A R))
      → Outcome (String → ProviderReply (ProvableCircuit l A R))
  given_provider c none = fail_resolution (resolution_context c) module_provider_absent
  given_provider c (some provider) = returned provider

  -- Steps 1 and 2.
  unfoldable pub check_call_site :
      CircuitContext l → Outcome (String → ProviderReply (ProvableCircuit l A R))
  unfolding assert_is_contract_address assert_not_default_contract_address
  check_call_site c = do
    declared ← require (lookup options.callee_circuit_id options.declaration) (
        String.◌++◌ (quoted "declaration of circuit " options.callee_circuit_id)
          (quoted " on contract type " options.interface_name))
    assert_is_contract_address callee
    assert_not_default_contract_address e.platform.dummy_contract_address callee
    given_provider c e.module_provider

  -- Steps 4 to 7.
  unfoldable pub identify_callee :
      CircuitContext l
      → (String → ProviderReply (ProvableCircuit l A R))
      → Outcome (ContractState l × Module (ProvableCircuit l A R))
  identify_callee c provider = do
    let context = resolution_context c
    deployed_state ← resolve_deployed_state c callee
    callee_module ← resolve_module context (provider callee)
    check_module_conformance context options.declaration callee_module.circuit_signatures
    check_implementation e.hex_of_sha256 deployed_state context callee_module.expected_vk
        options.callee_circuit_id
    returned (deployed_state, callee_module)
