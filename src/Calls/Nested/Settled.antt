-- ===== src/Calls/Nested/Settled.antt =====
-- The depth of nested calls in runtime/src/contract.ts.
use mathlib.Core.Path.{subst}
use compact.Base.{
  ℕ, zero, suc, ◌≤◌, ◌<◌, ◌≡◌, refl, ap, ◌∙◌, sym, arith, String, true, false, List, [], ◌∷◌,
  Option, none, some, Bool-cases, inl, inr,
}
use compact.Base.Names.{same, same_iff, lookup, member}
use compact.Context.{Ledger, World, CircuitContext, State, Outcome, returned, thrown}
use compact.Resolution.{ModuleResolutionContext}
use compact.Calls.Resolve.{Module, ProviderReply, resolve_module}
use compact.Calls.Check.{ProvableCircuit, CrossContractCallOptions, Setting}
use compact.Calls.Active.{cross_contract_call-active, ProvidesBalanced}
use compact.Calls.Nested.{
  map_some, map_module, remaining, Caller, provider_with, setting_with, nested,
}
use compact.Calls.Nested.Replies.{lookup-map_circuits, resolve_module-map_reply, map_outcome}
use mathlib.Core.Option.{some-injective}
use compact.Calls.Resolve.Keys.{returned-injective}
use compact.Calls.Nested.Agree.{SameRuns, cross_contract_call-same}

-- A callee that was not active is counted before the call and not within it.
remaining-cons-le :
    (callee : String) (addresses active : List String)
    → remaining addresses (callee ∷ active) ≤ remaining addresses active
remaining-cons-le callee [] active = omega arith
remaining-cons-le callee (k ∷ addresses) active =
    ground (arith, remaining-cons-le callee addresses active)

remaining-cons :
    (callee : String) (addresses active : List String)
    → member callee addresses ≡ true
    → member callee active ≡ false
    → remaining addresses (callee ∷ active) < remaining addresses active
remaining-cons callee [] active h off = cc
remaining-cons callee (k ∷ addresses) active h off = elim (Bool-cases (same callee k)) [
  | inl at ↦
      let e = (same_iff callee k).0 at in
      ground (arith, same_iff k callee, remaining-cons-le callee addresses active)
  | inr far ↦
      ground (arith, same_iff k callee, same_iff callee k, remaining-cons callee addresses active)
]

module _ {l : Ledger} {A R Code : Type 0} (e : Setting l A R)
    (replies : String → ProviderReply Code)
    (run : Caller l A R → Code → ProvableCircuit l A R) where
  -- A call leaves the active contracts as they are.
  abbrev pub IsBalancedCaller : Caller l A R → Type 0
  IsBalancedCaller call =
      (options : CrossContractCallOptions A) (s : State l)
      → (call options s).1.world.active_contracts ≡ s.world.active_contracts

  -- What the code of a circuit does depends on the calls it may make, those with the contracts
  -- active that are active when it starts.
  pub record IsUniform : Type 0 where
    pub balances :
        (call : Caller l A R)
        → IsBalancedCaller call
        → (code : Code) (args : A) (c : CircuitContext l) (w : World l)
        → (run call code args c w).1.active_contracts ≡ w.active_contracts
    pub depends :
        (active : List String) (call call' : Caller l A R)
        → IsBalancedCaller call
        → IsBalancedCaller call'
        → ((options : CrossContractCallOptions A) (s : State l)
            → s.world.active_contracts ≡ active
            → call options s ≡ call' options s)
        → SameRuns e replies run active call call'

  -- The provider has modules for these addresses only.
  abbrev pub ProvidesOnly : List String → Type 0
  ProvidesOnly addresses =
      (context : ModuleResolutionContext) (address : String) (m : Module Code)
      → resolve_module context (replies address) ≡ returned m
      → member address addresses ≡ true

  module _ (u : IsUniform) where
    -- The circuits that the provider loads are the codes, run.
    code_of :
        (call : Caller l A R) (o : Option Code) {circuit : ProvableCircuit l A R}
        → map_some (run call) o ≡ some circuit
        → (code : Code) × (run call code ≡ circuit)
    code_of call none h = absurd (cc h)
    code_of call (some code) h =
        (code, ap (λ o. elim (o) [ none ↦ run call code | some circuit ↦ circuit ]) h)

    module_of :
        (call : Caller l A R) (o : Outcome (Module Code)) {m : Module (ProvableCircuit l A R)}
        → map_outcome (run call) o ≡ returned m
        → (n : Module Code) × (o ≡ returned n) × (map_module (run call) n ≡ m)
    module_of call (returned n) h = (n, refl, returned-injective h)
    module_of call (thrown t) h = absurd (cc h)

    provides :
        (options : CrossContractCallOptions A) (call : Caller l A R)
        → IsBalancedCaller call
        → ProvidesBalanced e options (provider_with e replies run call)
    provides options call balanced context address m h k circuit found args c w =
        let (n, _, same) =
          module_of call (resolve_module context (replies address))
            (sym (resolve_module-map_reply (run call) context (replies address)) ∙ h) in
        let (code, ran) = code_of call (lookup k n.provable_circuits) (
          sym (lookup-map_circuits (run call) k n.provable_circuits)
          ∙ ap (λ m. lookup k m.provable_circuits) same
          ∙ found) in
        subst (λ f. (f args c w).1.active_contracts ≡ w.active_contracts) ran
          (u.balances call balanced code args c w)

    nested-IsBalanced :
        (bottom : Caller l A R)
        → IsBalancedCaller bottom
        → (n : ℕ) → IsBalancedCaller (nested e replies run bottom n)
    unfolding nested
    nested-IsBalanced bottom balanced zero options s = balanced options s
    nested-IsBalanced bottom balanced (suc n) options s =
        let call = nested e replies run bottom n in
        let inner = nested-IsBalanced bottom balanced n in
        cross_contract_call-active (setting_with e replies run call) options s (λ provider given.
          subst (ProvidesBalanced e options) (some-injective _ _ given)
            (provides options call inner))

    -- If the provider has modules for the given addresses only, and the code of a circuit depends
    -- on the calls it may make from its own active contracts and leaves these alone if the calls
    -- do, then calls nested to two depths above the number of the given addresses that are not
    -- active have the same outcome and state, whatever stands for the calls below those depths and
    -- leaves the active contracts alone: no nesting goes deeper.
    pub nested_settled :
        (addresses : List String)
        → ProvidesOnly addresses
        → (bottom bottom' : Caller l A R) → IsBalancedCaller bottom
        → IsBalancedCaller bottom'
        → (m n : ℕ) (options : CrossContractCallOptions A) (s : State l)
        → remaining addresses s.world.active_contracts < m
        → remaining addresses s.world.active_contracts < n
        → nested e replies run bottom m options s ≡ nested e replies run bottom' n options s
    unfolding nested
    nested_settled addresses only bottom bottom' bal bal' zero n options s h h' =
        absurd (omega arith)
    nested_settled addresses only bottom bottom' bal bal' (suc m) zero options s h h' =
        absurd (omega arith)
    nested_settled addresses only bottom bottom' bal bal' (suc m) (suc n) options s h h' =
        let call = nested e replies run bottom m in
        let call' = nested e replies run bottom' n in
        let callee = options.callee_address in
        let active = s.world.active_contracts in
        cross_contract_call-same e replies run options call call' s λ off m_0 found.
          u.depends (callee ∷ active) call call' (nested-IsBalanced bottom bal m)
            (nested-IsBalanced bottom' bal' n)
            λ next t same.
              let fewer : remaining addresses t.world.active_contracts
                  < remaining addresses active =
                subst (λ a. remaining addresses a < remaining addresses active) (sym same)
                  (remaining-cons callee addresses active (only _ callee m_0 found) off) in
              nested_settled addresses only bottom bottom' bal bal' m n next t (omega arith)
                (omega arith)
