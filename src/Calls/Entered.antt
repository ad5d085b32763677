-- ===== src/Calls/Entered.antt =====
-- `resolveDeployedState` and `enterQueryContext` of runtime/src/contract.ts in the state of a
-- circuit that runs.
use mathlib.Core.Path.{subst}
use compact.Base.{
  ℕ, ◌≡◌, ◌≢◌, ◌⊎◌, ◌∙◌, refl, ap, arith, inl, inr, String, Bool, true, false, Option, none, some,
  length, length-alter, get_elem?, get_elem?-alter, get_elem?-alter_ne, Bool-cases,
}
use compact.Base.Names.{
  same, lookup, insert, lookup-insert, lookup-insert_ne, has, has-insert, has-lookup, lookup-has,
  member,
}
use compact.Context.{
  Ledger, QueryContext, ContractState, Vm, CircuitContext, World, State, Outcome, returned, thrown,
}
use compact.Context.Create.{empty_running_cost}
use compact.Context.Query.Invariant.{PlacesExist, IsPaired, IsRunning, insert-PlacesExist}
use compact.Calls.Enter.{
  resolve_deployed_state, renew, reuse_query_context, add_query_context, enter_at,
  enter_query_context,
}

other_side {κ} : {B : Type κ} (b : Bool) → (b ≡ true) ⊎ B → b ≡ false → B
other_side b (inl on) off = absurd (cc (on, off))
other_side b (inr h) off = h

module _ {l : Ledger} where
  abbrev entry : Outcome ℕ × State l → ℕ × State l
  entry (returned place, t) = (place, t)
  entry (thrown e, t) = (0, t)

  -- Under the invariant of a running circuit, for a callee that was reached before and is not
  -- active, resolveDeployedState finds the state that was kept for it and returns it: its
  -- assertion does not fail.
  pub resolve_deployed_state_reached :
      (w : World l) (c : CircuitContext l) (callee : String)
      → IsRunning w c
      → member callee w.active_contracts ≡ false
      → has callee c.query_contexts ≡ true
      → (state : ContractState l) × (lookup callee c.contract_states ≡ some state)
        × (resolve_deployed_state c callee ≡ returned state)
  unfolding resolve_deployed_state
  resolve_deployed_state_reached w c callee (_, _, paired) inactive reached =
      let (place, p) = lookup-has callee c.query_contexts reached in
      let (state, e) =
        lookup-has callee c.contract_states
          (other_side (member callee w.active_contracts) (paired callee reached).1 inactive) in
      (state, e, rw (p, resolve_deployed_state, e) refl)

  -- A query context for another caller: no effects, and all else but the caller as it was.
  pub record IsUsedAgain (caller : String) (q used : QueryContext l) : Type 0 where
    pub no_effects : used.effects ≡ l.no_effects
    pub called_by : used.block.caller ≡ some caller
    pub same_state : used.state ≡ q.state
    pub same_commitments : used.com_indices ≡ q.com_indices
    pub same_balance : used.block.balance ≡ q.block.balance
    pub same_own_address : used.block.own_address ≡ q.block.own_address
    pub same_time : used.block.seconds_since_epoch ≡ q.block.seconds_since_epoch
    pub same_parent : used.block.parent_block_hash ≡ q.block.parent_block_hash

  -- If the callee was reached before and its query context exists, enterQueryContext returns that
  -- query context, changed in place: it has no effects, its caller is the contract that calls, and
  -- its state, its commitments and the rest of its block are as they were. No other query context
  -- changes, and nothing in the circuit context.
  pub enter_query_context_again :
      (vm : Vm l) (callee : String) (deployed_state : ContractState l) (s : State l) {place : ℕ}
      {q : QueryContext l}
      → lookup callee s.context.query_contexts ≡ some place
      → get_elem? s.world.objects place ≡ some q
      → let r = enter_query_context vm callee deployed_state s in
        (r.0 ≡ returned place)
        × (r.1.context ≡ s.context)
        × ((used : QueryContext l) × (get_elem? r.1.world.objects place ≡ some used)
            × IsUsedAgain s.context.call_context.contract_address q used)
        × ((i : ℕ) → place ≢ i → get_elem? r.1.world.objects i ≡ get_elem? s.world.objects i)
  unfolding enter_query_context
  enter_query_context_again vm callee deployed_state s {place} {q} p e = rw p (
    refl,
    refl,
    (
      renew s.context.call_context.contract_address q,
      get_elem?-alter (renew s.context.call_context.contract_address) s.world.objects place e,
      record {
        no_effects = refl;
        called_by = refl;
        same_state = refl;
        same_commitments = refl;
        same_balance = refl;
        same_own_address = refl;
        same_time = refl;
        same_parent = refl;
      },
    ),
    λ i h.
        get_elem?-alter_ne (renew s.context.call_context.contract_address) s.world.objects place i
          h,
  )

  reuse-PlacesExist :
      (place : ℕ) (s : State l)
      → PlacesExist s.world s.context.query_contexts
      → let t = reuse_query_context place s in PlacesExist t.world t.context.query_contexts
  reuse-PlacesExist place s h k p e =
      rw (length-alter (renew s.context.call_context.contract_address) s.world.objects place)
        (h k p e)

  -- What entering leaves of a state in which the caller runs.
  pub record IsEntered (callee : String) (s t : State l) (place : ℕ) : Type 0 where
    pub running : IsRunning t.world t.context
    pub same_call : t.context.call_context ≡ s.context.call_context
    pub same_active : t.world.active_contracts ≡ s.world.active_contracts
    pub placed : lookup callee t.context.query_contexts ≡ some place
    pub kept : has callee t.context.contract_states ≡ true
    pub still_kept :
        (k : String)
        → has k s.context.contract_states ≡ true
        → has k t.context.contract_states ≡ true
    pub others :
        (k : String)
        → k ≢ callee
        → (lookup k t.context.query_contexts ≡ lookup k s.context.query_contexts)
          × (lookup k t.context.gas_costs ≡ lookup k s.context.gas_costs)

  reuse-IsEntered :
      (callee : String) (place : ℕ) (s : State l)
      → IsRunning s.world s.context
      → lookup callee s.context.query_contexts ≡ some place
      → has callee s.context.contract_states ≡ true
      → IsEntered callee s (reuse_query_context place s) place
  reuse-IsEntered callee place s (live, places, paired) here kept = record {
    running = (live, reuse-PlacesExist place s places, paired);
    same_call = refl;
    same_active = refl;
    placed = here;
    kept = kept;
    still_kept = λ k h. h;
    others = λ k h. (refl, refl);
  }

  module _ (vm : Vm l) (callee : String) (deployed_state : ContractState l) (hash : String)
      (s : State l) where
    add-IsPaired :
        IsPaired s.world.active_contracts s.context
        → IsPaired s.world.active_contracts
            (add_query_context vm callee deployed_state hash s).context
    add-IsPaired paired k h = elim (Bool-cases (same k callee)) [
      | inl at ↦ (
        rw (has-insert k callee empty_running_cost s.context.gas_costs, at) refl,
        inr (rw (has-insert k callee deployed_state s.context.contract_states, at) refl),
      )
      | inr off ↦
          let n = length s.world.objects in
          let (cost, state) =
            paired k (ground (arith, has-insert k callee n s.context.query_contexts)) in
          (
            rw (has-insert k callee empty_running_cost s.context.gas_costs, off) cost,
            rw (has-insert k callee deployed_state s.context.contract_states, off) state,
          )
    ]

    add-IsEntered :
        IsRunning s.world s.context
        → s.context.call_context.contract_address ≢ callee
        → IsEntered callee s
            (add_query_context vm callee deployed_state hash s)
            (length s.world.objects)
    add-IsEntered ((active, here, cost), places, paired) ne =
        let c = s.context in
        let a = c.call_context.contract_address in
        let n = length s.world.objects in
        record {
          running = (
            (
              active,
              lookup-insert_ne a callee n c.query_contexts ne ∙ here,
              lookup-insert_ne a callee empty_running_cost c.gas_costs ne ∙ cost,
            ),
            insert-PlacesExist s.world _ callee c.query_contexts places,
            add-IsPaired paired,
          );
          same_call = refl;
          same_active = refl;
          placed = lookup-insert callee n c.query_contexts;
          kept =
              has-lookup callee (insert callee deployed_state c.contract_states)
                (lookup-insert callee deployed_state c.contract_states);
          still_kept =
              λ k h. rw (has-insert k callee deployed_state c.contract_states) (ground (arith, h));
          others = λ k h. (
            lookup-insert_ne k callee n c.query_contexts h,
            lookup-insert_ne k callee empty_running_cost c.gas_costs h,
          );
        }

  enter_at-IsEntered :
      (vm : Vm l) (callee : String) (deployed_state : ContractState l) (s : State l) (o : Option ℕ)
      (hash : Option String) {place : ℕ} {t : State l}
      → IsRunning s.world s.context
      → s.context.call_context.contract_address ≢ callee
      → (has callee s.context.query_contexts ≡ true → has callee s.context.contract_states ≡ true)
      → lookup callee s.context.query_contexts ≡ o
      → enter_at vm callee deployed_state o hash s ≡ (returned place, t)
      → IsEntered callee s t place
  enter_at-IsEntered vm callee st s (some p) hash h ne kept here e =
      subst (λ r. IsEntered callee s r.1 r.0) (ap entry e)
        (reuse-IsEntered callee p s h here (kept (has-lookup callee s.context.query_contexts here)))
  enter_at-IsEntered vm callee st s none none h ne kept here e = absurd (cc (ap (λ r. r.0) e))
  enter_at-IsEntered vm callee st s none (some hash) h ne kept here e =
      subst (λ r. IsEntered callee s r.1 r.0) (ap entry e) (add-IsEntered vm callee st hash s h ne)

  pub enter_query_context-IsEntered :
      (vm : Vm l) (callee : String) (deployed_state : ContractState l) (s : State l) {place : ℕ}
      {t : State l}
      → IsRunning s.world s.context
      → s.context.call_context.contract_address ≢ callee
      → (has callee s.context.query_contexts ≡ true → has callee s.context.contract_states ≡ true)
      → enter_query_context vm callee deployed_state s ≡ (returned place, t)
      → IsEntered callee s t place
  unfolding enter_query_context
  enter_query_context-IsEntered vm callee st s h ne kept e =
      enter_at-IsEntered vm callee st s (lookup callee s.context.query_contexts)
        s.context.call_context.parent_block_hash h ne kept refl e
