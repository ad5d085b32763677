-- ===== src/Calls/Nested.antt =====
-- Calls within calls in runtime/src/contract.ts: a callee's circuit calls crossContractCall in turn.
pub mod Replies
pub mod Agree
pub mod Settled
use compact.Base.{ℕ, zero, suc, ◌+◌, String, List, [], ◌∷◌, none, some, if◌then◌else◌, Option}
use compact.Base.Names.{Dict, member}
use compact.Context.{Ledger, M}
use compact.Calls.Resolve.{
  Module, ModuleExports, LoadedModule, rejected, null_or_undefined, loaded, ProviderReply, threw,
  undefined_thunk, no_function, thunk,
}
use compact.Calls.Check.{ProvableCircuit, CrossContractCallOptions, Setting}
use compact.Calls.Cross.{cross_contract_call}

-- The same module with other circuits.
module _ {ℓ κ} {A : Type ℓ} {B : Type κ} (f : A → B) where
  abbrev pub map_circuits : Dict A → Dict B
  map_circuits [] = []
  map_circuits ((k, a) ∷ d) = (k, f a) ∷ map_circuits d

  abbrev pub map_some : Option A → Option B
  map_some none = none
  map_some (some a) = some (f a)

  abbrev pub map_module : Module A → Module B
  map_module m = record {
    construction = m.construction;
    provable_circuits = map_circuits m.provable_circuits;
    circuit_signatures = m.circuit_signatures;
    expected_vk = m.expected_vk;
  }

  abbrev pub map_given : Option (Dict A) → Option (Dict B)
  map_given none = none
  map_given (some d) = some (map_circuits d)

  abbrev pub map_loaded : LoadedModule A → LoadedModule B
  map_loaded (rejected cause) = rejected cause
  map_loaded (null_or_undefined cause) = null_or_undefined cause
  map_loaded (loaded m) = loaded (record {
    construction = m.construction;
    provable_circuits = map_given m.provable_circuits;
    circuit_signatures = m.circuit_signatures;
    expected_vk = m.expected_vk;
  })

  abbrev pub map_reply : ProviderReply A → ProviderReply B
  map_reply (threw cause) = threw cause
  map_reply undefined_thunk = undefined_thunk
  map_reply (no_function cause) = no_function cause
  map_reply (thunk m) = thunk (map_loaded m)

-- How many of the addresses are not active.
abbrev pub remaining : List String → List String → ℕ
remaining [] active = 0
remaining (k ∷ addresses) active = (if member k active then 0 else 1) + remaining addresses active

-- A call that a circuit makes.
abbrev pub Caller : Ledger → Type 0 → Type 0 → Type 0
Caller l A R = CrossContractCallOptions A → M l R

-- The provider is that of the whole execution: the code of a circuit is run with the calls that it
-- makes, whose provider is the same.
module _ {l : Ledger} {A R Code : Type 0} (e : Setting l A R)
    (replies : String → ProviderReply Code)
    (run : Caller l A R → Code → ProvableCircuit l A R) where
  abbrev pub provider_with : Caller l A R → String → ProviderReply (ProvableCircuit l A R)
  provider_with call address = map_reply (run call) (replies address)

  abbrev pub setting_with : Caller l A R → Setting l A R
  setting_with call = record e { module_provider = some (provider_with call) }

  -- Calls that are nested to a depth; deeper ones are those of `bottom`.
  unfoldable pub nested : Caller l A R → ℕ → Caller l A R
  nested bottom zero = bottom
  nested bottom (suc n) = cross_contract_call (setting_with (nested bottom n))
