-- ===== src/Calls/Trusted.antt =====
-- What `crossContractCall` of runtime/src/contract.ts knows of a callee before it runs it.
use mathlib.Core.Path.{subst}
use compact.Base.{
  ◌∷◌, sym, Bool, true, false, if◌then◌else◌, reentrancy_detected, ◌≡◌, refl, ap, String, Option,
  none, some,
}
use compact.Base.Names.{lookup, member}
use compact.Signature.{DeclaredInterface, CircuitSignatures}
use compact.Conformance.{ConformanceResult, conformant, violation, unreadable, check_conformance}
use compact.Conformance.Outcome.{ImplementsAll, check_conformance_iff}
use compact.Resolution.{error, ModuleResolutionContext}
use compact.Context.{Ledger, ContractState, CircuitContext, State, Outcome, returned, thrown}
use compact.Context.Steps.{>>=-eq-returned, checked-eq-returned}
use compact.Calls.Resolve.{
  ◌>>=◌, Module, ProviderReply, resolve_module, report_conformance, check_module_conformance,
  check_implementation,
}
use compact.Calls.Resolve.Keys.{
  IsDeployed, OthersAgree, returned-injective, check_implementation_iff,
}
use compact.Calls.Enter.{require, resolve_deployed_state}
use compact.Calls.Check.{
  ProvableCircuit, CrossContractCallOptions, Setting, resolution_context,
  assert_is_contract_address, assert_not_default_contract_address, given_provider, check_call_site,
  identify_callee,
}
use compact.Calls.Cross.{
  call_callee, guarded_call, finally, remove_active, set_active, assert_no_reentrancy,
  cross_contract_call,
}

pub bind-eq-returned {ℓ κ} :
    {A : Type ℓ} {B : Type κ} (o : Outcome A) (f : A → Outcome B) {b : B}
    → (o >>= f) ≡ returned b
    → (a : A) × (o ≡ returned a) × (f a ≡ returned b)
bind-eq-returned (returned a) f e = (a, refl, e)
bind-eq-returned (thrown t) f e = absurd (cc e)

is_conformant :
    (context : ModuleResolutionContext) (r : ConformanceResult)
    → report_conformance context r ≡ returned tt
    → r ≡ conformant
is_conformant context conformant e = refl
is_conformant context (violation k c i) e = absurd (cc e)
is_conformant context (unreadable k t i) e = absurd (cc e)

check_module_conformance-eq-returned :
    (context : ModuleResolutionContext) (declaration : DeclaredInterface)
    (signatures : CircuitSignatures)
    → check_module_conformance context declaration signatures ≡ returned tt
    → ImplementsAll declaration signatures
unfolding check_module_conformance
check_module_conformance-eq-returned context declaration signatures e =
    (check_conformance_iff declaration signatures).0
      (is_conformant context (check_conformance declaration signatures) e)

module _ {l : Ledger} {A R : Type 0} (e : Setting l A R)
    (options : CrossContractCallOptions A) where
  -- The callee's state and module are those that the context and the provider have, the module
  -- implements the declaration, and the called circuit's key and all shared keys are the deployed.
  pub record IsTrusted (c : CircuitContext l)
      (provider : String → ProviderReply (ProvableCircuit l A R)) (state : ContractState l)
      (m : Module (ProvableCircuit l A R)) : Type 0 where
    pub deployed : resolve_deployed_state c options.callee_address ≡ returned state
    pub provided :
        resolve_module (resolution_context e options c) (provider options.callee_address)
        ≡ returned m
    pub conforms : ImplementsAll options.declaration m.circuit_signatures
    pub called :
        (hash : String) × (lookup options.callee_circuit_id m.expected_vk ≡ some hash)
        × IsDeployed e.hex_of_sha256 state options.callee_circuit_id hash
    pub others : OthersAgree e.hex_of_sha256 state options.callee_circuit_id m.expected_vk

  pub identify_callee-IsTrusted :
      (c : CircuitContext l) (provider : String → ProviderReply (ProvableCircuit l A R))
      {p : ContractState l × Module (ProvableCircuit l A R)}
      → identify_callee e options c provider ≡ returned p
      → IsTrusted c provider p.0 p.1
  unfolding identify_callee
  identify_callee-IsTrusted c provider h =
      let context = resolution_context e options c in
      let (state, deployed, h) =
        bind-eq-returned (resolve_deployed_state c options.callee_address) _ h in
      let (m, provided, h) =
        bind-eq-returned (resolve_module context (provider options.callee_address)) _ h in
      let (_, conforms, h) =
        bind-eq-returned (check_module_conformance context options.declaration m.circuit_signatures)
          _ h in
      let (_, agrees, h) =
        bind-eq-returned
          (check_implementation e.hex_of_sha256 state context m.expected_vk
            options.callee_circuit_id)
          _ h in
      let (called, others) =
        (check_implementation_iff e.hex_of_sha256 state context m.expected_vk
            options.callee_circuit_id).0
          agrees in
      subst (λ p. IsTrusted c provider p.0 p.1) (returned-injective h)
        (record {
          deployed = deployed;
          provided = provided;
          conforms =
              check_module_conformance-eq-returned context options.declaration m.circuit_signatures
                conforms;
          called = called;
          others = others;
        })

  is_given :
      (c : CircuitContext l) (o : Option (String → ProviderReply (ProvableCircuit l A R)))
      {provider : String → ProviderReply (ProvableCircuit l A R)}
      → given_provider e options c o ≡ returned provider
      → o ≡ some provider
  is_given c none h = absurd (cc h)
  is_given c (some provider) h = ap some (returned-injective h)

  pub check_call_site-eq-returned :
      (c : CircuitContext l) {provider : String → ProviderReply (ProvableCircuit l A R)}
      → check_call_site e options c ≡ returned provider
      → e.module_provider ≡ some provider
  unfolding check_call_site
  check_call_site-eq-returned c h =
      let (_, _, h) =
        bind-eq-returned (require (lookup options.callee_circuit_id options.declaration) _) _ h in
      let (_, _, h) = bind-eq-returned (assert_is_contract_address options.callee_address) _ h in
      let (_, _, h) =
        bind-eq-returned
          (assert_not_default_contract_address e.platform.dummy_contract_address
            options.callee_address)
          _ h in
      is_given c e.module_provider h

  pub finally-eq-returned :
      (f : State l → State l) (r : Outcome R × State l) {a : R} {t : State l}
      → finally f r ≡ (returned a, t)
      → r ≡ (returned a, r.1)
  finally-eq-returned f (o, s) h = ap (λ x. (x, s)) (ap (λ p. p.0) h)

  guarded_call-IsTrusted :
      (provider : String → ProviderReply (ProvableCircuit l A R)) (s : State l) {r : R}
      {t : State l}
      → guarded_call e options provider s ≡ (returned r, t)
      → (state : ContractState l) × (m : Module (ProvableCircuit l A R)) × IsTrusted s.context
          provider state m
  unfolding call_callee
  guarded_call-IsTrusted provider s h =
      let h =
        finally-eq-returned (remove_active options.callee_address)
          (call_callee e options provider s) h in
      let ((state, m), h, _) =
        checked-eq-returned (λ s. identify_callee e options s.context provider) _ s h in
      (state, m, identify_callee-IsTrusted s.context provider h)

  if_active :
      {callee : String} {s t : State l} (b : Bool) {active : Bool}
      → active ≡ b
      → ◌≡◌ {A = Outcome (Unit {0}) × State l}
          (if b then (thrown (error (reentrancy_detected callee)), s) else (
            returned tt,
            set_active
                (if b then s.world.active_contracts else callee ∷ s.world.active_contracts)
                s,
          ))
          (returned tt, t)
      → (active ≡ false) × (t ≡ set_active (callee ∷ s.world.active_contracts) s)
  if_active true x h = absurd (cc (ap (λ p. p.0) h))
  if_active false x h = (x, sym (ap (λ p. p.1) h))

  pub assert_no_reentrancy-eq-returned :
      (callee : String) (s : State l) {t : State l}
      → assert_no_reentrancy callee s ≡ (returned tt, t)
      → (member callee s.world.active_contracts ≡ false)
        × (t ≡ set_active (callee ∷ s.world.active_contracts) s)
  unfolding assert_no_reentrancy
  assert_no_reentrancy-eq-returned callee s h =
      if_active (member callee s.world.active_contracts) refl h

  -- If crossContractCall returns, the callee was not active before, and the module that the
  -- context's provider loads for it implements the declared contract type, records for the called
  -- circuit the fingerprint of the key in the callee's state, and agrees with that state on every
  -- other circuit that has a key there and a record.
  pub cross_contract_call-IsTrusted :
      (s : State l) {r : R} {t : State l}
      → cross_contract_call e options s ≡ (returned r, t)
      → (member options.callee_address s.world.active_contracts ≡ false)
        × ((provider : String → ProviderReply (ProvableCircuit l A R)) × (state : ContractState l)
            × (m : Module (ProvableCircuit l A R)) × (e.module_provider ≡ some provider)
            × IsTrusted s.context provider state m)
  unfolding cross_contract_call
  cross_contract_call-IsTrusted s h =
      let (provider, found, h) =
        checked-eq-returned (λ s. check_call_site e options s.context) _ s h in
      let (_, u, entered, h) =
        >>=-eq-returned (assert_no_reentrancy options.callee_address) _ s h in
      let (inactive, same) = assert_no_reentrancy-eq-returned options.callee_address s entered in
      let (state, m, trusted) = guarded_call-IsTrusted provider u h in
      (
        inactive,
        (
          provider,
          state,
          m,
          check_call_site-eq-returned s.context found,
          subst (λ c. IsTrusted c provider state m) (ap (λ u. u.context) same) trusted,
        ),
      )
