-- ===== src/Calls/Nested/Replies.antt =====
-- Modules in runtime/src/contract.ts that differ in their circuits only: what a call finds before it
-- runs the callee's circuit.
use Prim.Native.String
use compact.Base.{◌≡◌, refl, ap, ◌∙◌, inl, inr, String, [], ◌∷◌, Option, none, some, Bool-cases}
use compact.Base.Names.{Dict, same, quoted, lookup}
use compact.Resolution.{ModuleResolutionContext}
use compact.Signature.{CircuitSignatures}
use compact.Context.{Ledger, ContractState, CircuitContext, Outcome, returned, thrown}
use compact.Calls.Resolve.{
  ◌>>=◌, ◌>>◌, Module, rejected, null_or_undefined, loaded, ProviderReply, threw, undefined_thunk,
  no_function, thunk, assemble, resolve_module, check_module_conformance, check_implementation,
}
use compact.Calls.Resolve.Keys.{returned-injective}
use compact.Calls.Enter.{require, resolve_deployed_state}
use compact.Calls.Trusted.{bind-eq-returned}
use compact.Calls.Check.{
  ProvableCircuit, CrossContractCallOptions, Setting, resolution_context, identify_callee,
  assert_is_contract_address, assert_not_default_contract_address, check_call_site,
}
use compact.Calls.Nested.{
  map_circuits, map_some, map_module, map_given, map_reply, Caller, provider_with, setting_with,
}

module _ {A B : Type 0} (f : A → B) where
  abbrev pub map_outcome : Outcome (Module A) → Outcome (Module B)
  map_outcome (returned m) = returned (map_module f m)
  map_outcome (thrown t) = thrown t

  pub lookup-map_circuits :
      (k : String) (d : Dict A) → lookup k (map_circuits f d) ≡ map_some f (lookup k d)
  lookup-map_circuits k [] = refl
  lookup-map_circuits k ((j, a) ∷ d) = elim (Bool-cases (same k j)) [
    | inl at ↦ rw at refl
    | inr off ↦ rw off (lookup-map_circuits k d)
  ]

  assembled :
      (context : ModuleResolutionContext) (made : Outcome (Unit {0})) (circuits : Option (Dict A))
      (signatures : Option CircuitSignatures) (keys : Option (Dict String))
      → assemble context made (map_given f circuits) signatures keys
        ≡ map_outcome (assemble context made circuits signatures keys)
  assembled context made (some circuits) (some signatures) (some keys) = refl
  assembled context made (some circuits) (some signatures) none = refl
  assembled context made (some circuits) none (some keys) = refl
  assembled context made (some circuits) none none = refl
  assembled context made none (some signatures) (some keys) = refl
  assembled context made none (some signatures) none = refl
  assembled context made none none (some keys) = refl
  assembled context made none none none = refl

  pub resolve_module-map_reply :
      (context : ModuleResolutionContext) (r : ProviderReply A)
      → resolve_module context (map_reply f r) ≡ map_outcome (resolve_module context r)
  unfolding resolve_module
  resolve_module-map_reply context (threw cause) = refl
  resolve_module-map_reply context undefined_thunk = refl
  resolve_module-map_reply context (no_function cause) = refl
  resolve_module-map_reply context (thunk (rejected cause)) = refl
  resolve_module-map_reply context (thunk (null_or_undefined cause)) = refl
  resolve_module-map_reply context (thunk (loaded m)) =
      assembled context m.construction m.provable_circuits m.circuit_signatures m.expected_vk

-- The steps by which a callee is identified.
abbrev pub identify {ℓ} :
    {Place : Type 0} {Circuit : Type ℓ}
    → Outcome Place
    → Outcome (Module Circuit)
    → (CircuitSignatures → Outcome (Unit {0}))
    → (Place → Dict String → Outcome (Unit {0}))
    → Outcome (Place × Module Circuit)
identify place resolved conforms agrees = do
  p ← place
  m ← resolved
  conforms m.circuit_signatures
  agrees p m.expected_vk
  returned (p, m)

module _ {Place A B : Type 0} (f : A → B) where
  abbrev pub map_found : Outcome (Place × Module A) → Outcome (Place × Module B)
  map_found (returned (p, m)) = returned (p, map_module f m)
  map_found (thrown t) = thrown t

  checks_map :
      (p : Place) (m : Module A) (first second : Outcome (Unit {0}))
      → (first >>= λ _. second >>= λ _. returned (p, map_module f m))
        ≡ map_found (first >>= λ _. second >>= λ _. returned (p, m))
  checks_map p m (thrown t) second = refl
  checks_map p m (returned u) (thrown t) = refl
  checks_map p m (returned u) (returned v) = refl

  pub identify-map :
      (place : Outcome Place) (o : Outcome (Module A))
      (conforms : CircuitSignatures → Outcome (Unit {0}))
      (agrees : Place → Dict String → Outcome (Unit {0}))
      → identify place (map_outcome f o) conforms agrees
        ≡ map_found (identify place o conforms agrees)
  identify-map (thrown t) o conforms agrees = refl
  identify-map (returned p) (thrown t) conforms agrees = refl
  identify-map (returned p) (returned m) conforms agrees =
      checks_map p m (conforms m.circuit_signatures) (agrees p m.expected_vk)

module _ {l : Ledger} {A R Code : Type 0} (e : Setting l A R)
    (replies : String → ProviderReply Code) (run : Caller l A R → Code → ProvableCircuit l A R)
    (options : CrossContractCallOptions A) (c : CircuitContext l) where
  -- What a call finds, whichever way the circuits are run.
  abbrev pub identified : Outcome (ContractState l × Module Code)
  identified =
      let context = resolution_context e options c in
      identify (resolve_deployed_state c options.callee_address)
        (resolve_module context (replies options.callee_address))
        (check_module_conformance context options.declaration)
        (λ state keys.
          check_implementation e.hex_of_sha256 state context keys options.callee_circuit_id)

  pub identify_callee-nested :
      (call : Caller l A R)
      → identify_callee
          (setting_with e replies run call)
          options
          c
          (provider_with e replies run call)
        ≡ map_found (run call) identified
  unfolding identify_callee
  identify_callee-nested call =
      let context = resolution_context e options c in
      rw (resolve_module-map_reply (run call) context (replies options.callee_address)) (
        identify-map (run call) (resolve_deployed_state c options.callee_address)
          (resolve_module context (replies options.callee_address))
          (check_module_conformance context options.declaration)
          (λ state keys.
            check_implementation e.hex_of_sha256 state context keys options.callee_circuit_id))

  -- The module that is found is the one that the provider loads.
  pub identified-eq-returned :
      {state : ContractState l} {m : Module Code}
      → identified ≡ returned (state, m)
      → resolve_module (resolution_context e options c) (replies options.callee_address)
        ≡ returned m
  identified-eq-returned {m} h =
      let context = resolution_context e options c in
      let (p, _, h) = bind-eq-returned (resolve_deployed_state c options.callee_address) _ h in
      let (n, found, h) =
        bind-eq-returned (resolve_module context (replies options.callee_address)) _ h in
      let (_, _, h) =
        bind-eq-returned (check_module_conformance context options.declaration n.circuit_signatures)
          _ h in
      let (_, _, h) =
        bind-eq-returned
          (check_implementation e.hex_of_sha256 p context n.expected_vk options.callee_circuit_id) _
          h in
      found ∙ ap (λ q. returned q.1) (returned-injective h)

-- The checks of a call site with the provider that they return.
abbrev pub map_unit {ℓ} : {P : Type ℓ} → P → Outcome (Unit {0}) → Outcome P
map_unit p (returned u) = returned p
map_unit p (thrown t) = thrown t

site_map {ℓ} :
    {P : Type ℓ} (p : P) {A : Type 0} (first : Outcome A) (second third : Outcome (Unit {0}))
    → (first >>= λ _. second >>= λ _. third >>= λ _. returned p)
      ≡ map_unit p (first >>= λ _. second >>= λ _. third)
site_map p (thrown t) second third = refl
site_map p (returned a) (thrown t) third = refl
site_map p (returned a) (returned u) (thrown t) = refl
site_map p (returned a) (returned u) (returned v) = refl

module _ {l : Ledger} {A R Code : Type 0} (e : Setting l A R)
    (replies : String → ProviderReply Code) (run : Caller l A R → Code → ProvableCircuit l A R)
    (options : CrossContractCallOptions A) (c : CircuitContext l) where
  -- The outcome of the checks is that of any caller, and the provider is its own.
  pub check_call_site-nested :
      (call call' : Caller l A R)
      → (o : Outcome (Unit {0})) × (check_call_site (setting_with e replies run call) options c
          ≡ map_unit (provider_with e replies run call) o)
        × (check_call_site (setting_with e replies run call') options c
            ≡ map_unit (provider_with e replies run call') o)
  unfolding check_call_site
  check_call_site-nested call call' =
      let first = require (lookup options.callee_circuit_id options.declaration) (
        String.◌++◌ (quoted "declaration of circuit " options.callee_circuit_id)
          (quoted " on contract type " options.interface_name)) in
      let second = assert_is_contract_address options.callee_address in
      let third =
        assert_not_default_contract_address e.platform.dummy_contract_address
          options.callee_address in
      (
        first >>= λ _. second >>= λ _. third,
        site_map (provider_with e replies run call) first second third,
        site_map (provider_with e replies run call') first second third,
      )
