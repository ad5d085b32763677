-- ===== src/Calls/Running.antt =====
-- The states of a call in runtime/src/contract.ts, before and after the callee runs.
use mathlib.Core.Path.{subst}
use compact.Base.{
  ◌≡◌, ◌≢◌, ◌⊎◌, ◌∙◌, sym, ap, arith, inl, inr, String, true, false, List, ◌∷◌, Bool-cases,
}
use compact.Base.Names.{
  has-lookup, same, same_iff, lookup, lookup-insert_ne, has, member, delete, delete-cons,
}
use compact.Context.{
  CommunicationCommitmentData, Ledger, RunningCost, QueryContext, GatherResult, CircuitContext,
  World, State,
}
use compact.Context.Query.{advance}
use compact.Context.Query.Invariant.{IsRunning, advance-IsRunning}
use compact.Calls.Entered.{resolve_deployed_state_reached}
use compact.Calls.Cross.{set_comm_comm_data, set_active, remove_active}

-- Membership in a set with one name more.
pub still :
    (j k : String) (active : List String) → member k active ≡ true → member k (j ∷ active) ≡ true
still j k active h = ground arith

pub itself : (k : String) (active : List String) → member k (k ∷ active) ≡ true
itself k active = ground (arith, same_iff k k)

pub member-cons_ne :
    (j k : String) (active : List String) → k ≢ j → member k (j ∷ active) ≡ member k active
member-cons_ne j k active h = ground (arith, same_iff k j)

either {κ} :
    {B : Type κ} (j k : String) (active : List String)
    → (member k active ≡ true) ⊎ B
    → (member k (j ∷ active) ≡ true) ⊎ B
either j k active (inl h) = inl (still j k active h)
either j k active (inr h) = inr h

remaining {κ} :
    {B : Type κ} (k : String) (active less : List String)
    → member k less ≡ member k active
    → (member k active ≡ true) ⊎ B
    → (member k less ≡ true) ⊎ B
remaining k active less e (inl h) = inl (e ∙ h)
remaining k active less e (inr h) = inr h

module _ {l : Ledger} where
  -- What a circuit that started at `c` in `w` leaves for its caller.
  pub record IsContinued (w : World l) (c : CircuitContext l) (v : World l) (d : CircuitContext l)
      : Type 0 where
    pub running : IsRunning v d
    pub same_active : v.active_contracts ≡ w.active_contracts
    pub same_address : d.call_context.contract_address ≡ c.call_context.contract_address
    -- The cells of the other active contracts.
    pub others :
        (k : String)
        → member k w.active_contracts ≡ true
        → k ≢ c.call_context.contract_address
        → (lookup k d.query_contexts ≡ lookup k c.query_contexts)
          × (lookup k d.gas_costs ≡ lookup k c.gas_costs)
    pub kept : (k : String) → has k c.contract_states ≡ true → has k d.contract_states ≡ true

  -- The same for the state in which the callee has run and is still active.
  pub record IsInside (callee : String) (s : State l) (w : World l) (c : CircuitContext l)
      : Type 0 where
    pub running : IsRunning w c
    pub active : w.active_contracts ≡ callee ∷ s.world.active_contracts
    pub same_address : c.call_context.contract_address ≡ s.context.call_context.contract_address
    pub others :
        (k : String)
        → member k s.world.active_contracts ≡ true
        → k ≢ s.context.call_context.contract_address
        → (lookup k c.query_contexts ≡ lookup k s.context.query_contexts)
          × (lookup k c.gas_costs ≡ lookup k s.context.gas_costs)
    pub kept :
        (k : String) → has k s.context.contract_states ≡ true → has k c.contract_states ≡ true
    pub entered : has callee c.contract_states ≡ true

  -- One more query of the circuit.
  pub advance-IsInside :
      (callee : String) (o : State l) (q : QueryContext l) (gas : RunningCost)
      (events : List (GatherResult l)) (s : State l)
      → IsInside callee o s.world s.context
      → let t = advance q gas events s in IsInside callee o t.world t.context
  advance-IsInside callee o q gas events s h =
      let a = s.context.call_context.contract_address in
      record {
        running = advance-IsRunning q gas events s h.running;
        active = h.active;
        same_address = h.same_address;
        others = λ k active ne.
            let ne' = (λ (e : k ≡ a). ne (e ∙ h.same_address)) in
            let (place, cost) = h.others k active ne in
            (
              lookup-insert_ne k a _ s.context.query_contexts ne' ∙ place,
              lookup-insert_ne k a _ s.context.gas_costs ne' ∙ cost,
            );
        kept = h.kept;
        entered = h.entered;
      }

  pub commit-IsInside :
      (callee : String) (o : State l) (d : CommunicationCommitmentData) (s : State l)
      → IsInside callee o s.world s.context
      → let t = set_comm_comm_data d s in IsInside callee o t.world t.context
  commit-IsInside callee o d s h = record {
    running = h.running;
    active = h.active;
    same_address = h.same_address;
    others = h.others;
    kept = h.kept;
    entered = h.entered;
  }

  pub activate-IsRunning :
      (callee : String) (s : State l)
      → IsRunning s.world s.context
      → let t = set_active (callee ∷ s.world.active_contracts) s in IsRunning t.world t.context
  activate-IsRunning callee s ((active, here, cost), places, paired) = (
    (
      still callee s.context.call_context.contract_address s.world.active_contracts active,
      here,
      cost,
    ),
    places,
    λ k h. ((paired k h).0, either callee k s.world.active_contracts (paired k h).1),
  )

  -- A callee that was reached before has its state kept.
  pub reached_kept :
      (callee : String) (s : State l)
      → IsRunning s.world s.context
      → member callee s.world.active_contracts ≡ false
      → has callee s.context.query_contexts ≡ true
      → has callee s.context.contract_states ≡ true
  reached_kept callee s h inactive reached =
      let (state, e, _) =
        resolve_deployed_state_reached s.world s.context callee h inactive reached in
      has-lookup callee s.context.contract_states e

  pub deactivate-IsRunning :
      (callee : String) (active : List String) (s : State l)
      → IsRunning s.world s.context
      → s.world.active_contracts ≡ callee ∷ active
      → member callee active ≡ false
      → s.context.call_context.contract_address ≢ callee
      → has callee s.context.contract_states ≡ true
      → let t = remove_active callee s in IsRunning t.world t.context
  deactivate-IsRunning callee active s ((live, here, cost), places, paired) e inactive ne kept =
      let less = ap (delete callee) e ∙ delete-cons callee active inactive in
      let a = s.context.call_context.contract_address in
      let remains = (λ (k : String) (h : k ≢ callee).
        ap (member k) less ∙ sym (member-cons_ne callee k active h) ∙ ap (member k) (sym e)) in
      (
        (remains a ne ∙ live, here, cost),
        places,
        λ k h. (
          (paired k h).0,
          elim (Bool-cases (same k callee)) [
            | inl at ↦ inr (
                subst (λ x. has x s.context.contract_states ≡ true) (sym ((same_iff k callee).0 at))
                  kept)
            | inr off ↦
                remaining k _ _ (remains k (λ x. ground (arith, same_iff k callee))) (paired k h).1
          ],
        ),
      )
