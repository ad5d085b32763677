-- ===== src/Calls/Progress.antt =====
-- The steps of `crossContractCall` of runtime/src/contract.ts that return.
pub mod Claiming
pub mod Returning
use compact.Base.{
  ℕ, zero, suc, ◌<◌, ◌≡◌, refl, ap, ◌∙◌, sym, arith, inl, inr, ◌⊎◌, String, true, List, [], ◌∷◌,
  Option, none, some, length, get_elem?, Result, ok, ◌≢◌, Option-cases,
}
use compact.Base.Names.{lookup, has, has-lookup, lookup-has}
use compact.Aligned.{AlignedValue}
use compact.Context.{
  Ledger, RunningCost, QueryContext, ContractState, GatherResult, QueryReply, queried, Vm,
  CallProofData, CommunicationCommitmentData, CircuitContext, World, State, Outcome, returned,
  thrown, M, follow, get, modify, assert_defined, ◌>>=◌, or_else,
}
use compact.Context.Query.{query_ledger_state}
use compact.Context.Query.Invariant.{IsRunning}
use compact.Calls.Resolve.Keys.{returned-injective}
use compact.Calls.Enter.{
  require, fetch_state, resolve_deployed_state, enter_query_context, resolve_gas_cost,
}
use compact.Calls.Entered.{IsEntered, enter_query_context-IsEntered}
use compact.Calls.Claim.{claim_program, query_claim}

module _ {l : Ledger} where
  -- The step returns, with a property of what it returns and of the state that it leaves.
  pub record Returns {A : Type 0} (P : A → State l → Type 0) (m : M l A) (s : State l)
      : Type 0 where
    pub value : A
    pub final : State l
    pub gives : m s ≡ (returned value, final)
    pub holds : P value final

  pub >>=-Returns :
      {A B : Type 0} (P : A → State l → Type 0) (Q : B → State l → Type 0) (m : M l A)
      (f : A → M l B) (s : State l)
      → Returns P m s
      → ((a : A) (t : State l) → P a t → Returns Q (f a) t)
      → Returns Q (m >>= f) s
  unfolding ◌>>=◌
  >>=-Returns P Q m f s first next =
      let rest = next first.value first.final first.holds in
      record {
        value = rest.value;
        final = rest.final;
        gives = ap (λ r. follow r f) first.gives ∙ rest.gives;
        holds = rest.holds;
      }

  -- A step whose outcome is known.
  pub step-Returns :
      {A B : Type 0} (Q : B → State l → Type 0) (m : M l A) (f : A → M l B) (s : State l) (a : A)
      (t : State l)
      → m s ≡ (returned a, t)
      → Returns Q (f a) t
      → Returns Q (m >>= f) s
  unfolding ◌>>=◌
  step-Returns Q m f s a t x rest = record {
    value = rest.value;
    final = rest.final;
    gives = ap (λ r. follow r f) x ∙ rest.gives;
    holds = rest.holds;
  }

  -- A read of the state, a value that is there, a look at the state, and a change of it.
  pub lift-Returns :
      {A B : Type 0} (Q : B → State l → Type 0) (o : Outcome A) (f : A → M l B) (s : State l)
      (a : A)
      → o ≡ returned a
      → Returns Q (f a) s
      → Returns Q ((λ t. (o, t)) >>= f) s
  unfolding ◌>>=◌
  lift-Returns Q o f s a x rest = record {
    value = rest.value;
    final = rest.final;
    gives = ap (λ o. follow (o, s) f) x ∙ rest.gives;
    holds = rest.holds;
  }

  pub defined-Returns :
      {A B : Type 0} (Q : B → State l → Type 0) (o : Option A) (name : String) (f : A → M l B)
      (s : State l) (a : A)
      → o ≡ some a
      → Returns Q (f a) s
      → Returns Q (assert_defined o name >>= f) s
  unfolding ◌>>=◌
  defined-Returns Q o name f s a x rest = record {
    value = rest.value;
    final = rest.final;
    gives = ap (λ o. follow (assert_defined o name s) f) x ∙ rest.gives;
    holds = rest.holds;
  }

  pub or_else-Returns :
      {A B : Type 0} (Q : B → State l → Type 0) (o : Option A) (missing : M l ⊥) (f : A → M l B)
      (s : State l) (a : A)
      → o ≡ some a
      → Returns Q (f a) s
      → Returns Q (or_else o missing >>= f) s
  unfolding ◌>>=◌
  or_else-Returns Q o missing f s a x rest = record {
    value = rest.value;
    final = rest.final;
    gives = ap (λ o. follow (or_else o missing s) f) x ∙ rest.gives;
    holds = rest.holds;
  }

  pub get-Returns :
      {B : Type 0} (Q : B → State l → Type 0) (f : State l → M l B) (s : State l)
      → Returns Q (f s) s
      → Returns Q (get >>= f) s
  unfolding ◌>>=◌
  get-Returns Q f s rest = record {
    value = rest.value;
    final = rest.final;
    gives = rest.gives;
    holds = rest.holds;
  }

  pub modify-Returns :
      {B : Type 0} (Q : B → State l → Type 0) (g : State l → State l) (f : Unit {0} → M l B)
      (s : State l)
      → Returns Q (f tt) (g s)
      → Returns Q (modify g >>= f) s
  unfolding ◌>>=◌
  modify-Returns Q g f s rest = record {
    value = rest.value;
    final = rest.final;
    gives = rest.gives;
    holds = rest.holds;
  }

  -- A state that was fetched was fetched at a parent block.
  fetched_at :
      (c : CircuitContext l) (callee : String) (state : ContractState l)
      → fetch_state c callee ≡ returned state
      → (hash : String) × (c.call_context.parent_block_hash ≡ some hash)
  fetched_at c callee state h = elim (Option-cases c.state_provider) [
    | inl none_given ↦ absurd (ground (arith, none_given))
    | inr (get_state, given) ↦ elim (Option-cases c.call_context.parent_block_hash) [
      | inl no_hash ↦ absurd (ground (arith, given, no_hash))
      | inr (hash, at) ↦ (hash, at)
    ]
  ]

  resolve_new :
      (c : CircuitContext l) (callee : String)
      → lookup callee c.query_contexts ≡ none
      → resolve_deployed_state c callee ≡ fetch_state c callee
  unfolding resolve_deployed_state
  resolve_new c callee new = rw (new, resolve_deployed_state) refl

  resolved_at :
      (c : CircuitContext l) (callee : String) {state : ContractState l}
      → resolve_deployed_state c callee ≡ returned state
      → ((place : ℕ) × (lookup callee c.query_contexts ≡ some place))
        ⊎ ((lookup callee c.query_contexts ≡ none)
            × ((hash : String) × (c.call_context.parent_block_hash ≡ some hash)))
  resolved_at c callee {state} h = elim (Option-cases (lookup callee c.query_contexts)) [
    | inl new ↦ inr (new, fetched_at c callee state (sym (resolve_new c callee new) ∙ h))
    | inr (place, at) ↦ inl (place, at)
  ]

  pub enter_query_context-Returns :
      (vm : Vm l) (callee : String) (deployed_state : ContractState l) (s : State l)
      {state : ContractState l}
      → IsRunning s.world s.context
      → s.context.call_context.contract_address ≢ callee
      → (has callee s.context.query_contexts ≡ true → has callee s.context.contract_states ≡ true)
      → resolve_deployed_state s.context callee ≡ returned state
      → Returns
          (λ place t. IsEntered callee s t place)
          (enter_query_context vm callee deployed_state)
          s
  unfolding enter_query_context
  enter_query_context-Returns vm callee deployed_state s h ne kept resolved =
      elim (resolved_at s.context callee resolved) [
        | inl (place, at) ↦ enters place (rw at refl)
        | inr (new, (hash, given)) ↦ enters (length s.world.objects) (rw (new, given) refl)
      ]
    where
      enters :
          (place : ℕ)
          → (enter_query_context vm callee deployed_state s).0 ≡ returned place
          → Returns
              (λ place t. IsEntered callee s t place)
              (enter_query_context vm callee deployed_state)
              s
      enters place x =
          let t = (enter_query_context vm callee deployed_state s).1 in
          let gives = ap (λ o. (o, t)) x in
          record {
            value = place;
            final = t;
            gives = gives;
            holds = enter_query_context-IsEntered vm callee deployed_state s h ne kept gives;
          }
