-- ===== src/Calls/Guard.antt =====
-- The guard against re-entrancy of runtime/src/contract.ts, and the calls that it or the checks
-- before it refuse.
use compact.Base.{◌≡◌, refl, String, true, false, reentrancy_detected}
use compact.Base.Names.{member, delete-cons}
use compact.Resolution.{Thrown, error}
use compact.Context.{◌>>=◌, Ledger, State, returned, thrown}
use compact.Calls.Resolve.{ProviderReply}
use compact.Calls.Check.{
  ProvableCircuit, CrossContractCallOptions, Setting, check_call_site, identify_callee,
}
use compact.Calls.Cross.{assert_no_reentrancy, call_callee, cross_contract_call}

module _ {l : Ledger} {A R : Type 0} (e : Setting l A R)
    (options : CrossContractCallOptions A) where
  -- What the call is refused for, in the state in which it is made: its call site or the address,
  -- the address being active, or the callee's module.
  pub data IsRefused (s : State l) (t : Thrown) : Type 0 where
    at_call_site : check_call_site e options s.context ≡ thrown t → IsRefused s t
    active :
        {provider : String → ProviderReply (ProvableCircuit l A R)}
        → check_call_site e options s.context ≡ returned provider
        → member options.callee_address s.world.active_contracts ≡ true
        → t ≡ error (reentrancy_detected options.callee_address)
        → IsRefused s t
    unidentified :
        {provider : String → ProviderReply (ProvableCircuit l A R)}
        → check_call_site e options s.context ≡ returned provider
        → member options.callee_address s.world.active_contracts ≡ false
        → identify_callee e options s.context provider ≡ thrown t
        → IsRefused s t

  -- If the checks of the call site and of the address throw, or they pass and the callee is
  -- active, or they pass, it is not active, and the callee's state or module is refused, then
  -- crossContractCall throws that error, for an active callee the re-entrancy error, and leaves
  -- the whole state as it was.
  pub cross_contract_call_refused :
      (s : State l) (t : Thrown) → IsRefused s t → cross_contract_call e options s ≡ (thrown t, s)
  unfolding ◌>>=◌ cross_contract_call assert_no_reentrancy call_callee
  cross_contract_call_refused s t (at_call_site h) = rw h refl
  cross_contract_call_refused s t (active h m r) = rw (h, m, r) refl
  cross_contract_call_refused s t (unidentified h m i) =
      rw (h, m, i, delete-cons options.callee_address s.world.active_contracts m) refl
