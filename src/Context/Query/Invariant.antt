-- ===== src/Context/Query/Invariant.antt =====
-- What holds of the state of a circuit that runs, between the queries that
-- runtime/src/circuit-context.ts makes for it.
use compact.Base.{
  ℕ, suc, ◌<◌, ◌≡◌, refl, sym, ap, ◌∙◌, arith, inl, inr, ◌⊎◌, String, true, List, [], ◌∷◌, ◌++◌,
  some, length, Bool-cases,
}
use compact.Base.Names.{
  same, same_iff, Dict, lookup, insert, has, has-insert, lookup-insert, lookup-insert_ne, member,
  has-lookup,
}
use compact.Zswap.{CoinEncoding}
use compact.Context.{
  Ledger, RunningCost, QueryContext, Op, GatherResult, Vm, CircuitContext, World, State,
}
use compact.Context.Create.{add_running_cost, CircuitContextOptions, create_circuit_context}
use compact.Context.Query.Kept.{query_ledger_state-Keeps}
use compact.Context.Query.{cost_of, advance, query_ledger_state}

length-append_one {ℓ} : {A : Type ℓ} (l : List A) (a : A) → length (l ++ a ∷ []) ≡ suc (length l)
length-append_one [] a = refl
length-append_one (x ∷ l) a = ap suc (length-append_one l a)

module _ {l : Ledger} where
  -- The maps agree with the call context at the address that runs, which is active, and its query
  -- context is there. Every address that was reached has a place and a cost, and either is active
  -- or has its deployed state kept.
  abbrev pub PlacesExist : World l → Dict ℕ → Type 0
  PlacesExist w places = (k : String) (p : ℕ) → lookup k places ≡ some p → p < length w.objects

  abbrev pub IsPaired : List String → CircuitContext l → Type 0
  IsPaired active c =
      (k : String)
      → has k c.query_contexts ≡ true
      → (has k c.gas_costs ≡ true) × ((member k active ≡ true) ⊎ (has k c.contract_states ≡ true))

  abbrev pub IsLive : World l → CircuitContext l → Type 0
  IsLive w c =
      let call = c.call_context in
      (member call.contract_address w.active_contracts ≡ true)
      × (lookup call.contract_address c.query_contexts ≡ some call.current_query_context)
      × (lookup call.contract_address c.gas_costs ≡ some call.current_gas_cost)

  abbrev pub IsRunning : World l → CircuitContext l → Type 0
  IsRunning w c = IsLive w c × PlacesExist w c.query_contexts × IsPaired w.active_contracts c

  pub insert-PlacesExist :
      (w : World l) (q : QueryContext l) (k : String) (places : Dict ℕ)
      → PlacesExist w places
      → PlacesExist
          (record w { objects = w.objects ++ q ∷ [] })
          (insert k (length w.objects) places)
  insert-PlacesExist w q k places h i p e = elim (Bool-cases (same i k)) [
    | inl at ↦
        rw (length-append_one w.objects q)
          (ground (arith, same_iff i k, lookup-insert k (length w.objects) places))
    | inr off ↦
        let old = h i p (
          sym (lookup-insert_ne i k (length w.objects) places (λ x. ground (arith, same_iff i k)))
          ∙ e) in
        rw (length-append_one w.objects q) (omega arith)
  ]

  pub advance-IsRunning :
      (q : QueryContext l) (gas : RunningCost) (events : List (GatherResult l)) (s : State l)
      → IsRunning s.world s.context
      → let t = advance q gas events s in IsRunning t.world t.context
  advance-IsRunning q gas events s ((active, here, cost), places, paired) =
      let c = s.context in
      let a = c.call_context.contract_address in
      let n = length s.world.objects in
      let g = add_running_cost (cost_of (lookup a c.gas_costs)) gas in
      (
        (
          active,
          lookup-insert a n c.query_contexts,
          lookup-insert a g c.gas_costs ∙ ap (λ o. some (add_running_cost (cost_of o) gas)) cost,
        ),
        insert-PlacesExist s.world q a c.query_contexts places,
        λ k h.
            let old = has-lookup a c.query_contexts here in
            let both = paired k (ground (arith, same_iff k a, has-insert k a n c.query_contexts)) in
            (rw (has-insert k a g c.gas_costs, both.0) (ground arith), both.1),
      )

  -- queryLedgerState keeps the invariant of a running circuit, whether it returns or throws.
  pub query_ledger_state-IsRunning :
      (vm : Vm l) (program : List (Op l)) (s : State l)
      → IsRunning s.world s.context
      → let t = query_ledger_state vm program s in IsRunning t.1.world t.1.context
  query_ledger_state-IsRunning =
      query_ledger_state-Keeps (λ s. IsRunning s.world s.context) advance-IsRunning (λ ops s h. h)

  pub create_circuit_context-IsRunning :
      (vm : Vm l) (e : CoinEncoding) (options : CircuitContextOptions vm)
      → let (w, c) = create_circuit_context vm e options in IsRunning w c
  unfolding create_circuit_context
  create_circuit_context-IsRunning vm e options =
      let a = options.contract_address in
      (
        (ground (arith, same_iff a a), ground (arith, same_iff a a), ground (arith, same_iff a a)),
        λ k p h. ground (arith, same_iff k a),
        λ k h. (ground (arith, same_iff k a), inl (ground (arith, same_iff k a))),
      )
