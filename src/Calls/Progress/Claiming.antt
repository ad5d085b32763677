-- ===== src/Calls/Progress/Claiming.antt =====
-- The claim of a call in runtime/src/contract.ts, the last step of `crossContractCall`, where the
-- texts are encoded.

use compact.Base.{◌≡◌, refl, ap, List, some, ok, get_elem?}
use compact.Calls.Progress.{Returns, >>=-Returns, lift-Returns, get-Returns, modify-Returns}
use compact.Calls.Check.{CrossContractCallOptions, Setting}
use compact.Context.{Ledger, State, QueryContext, CallProofData, RunningCost, GatherResult, queried}
use compact.Calls.Cross.{claim_call, last, last_of, of_result}
use compact.Calls.Claim.{
  fr_hex_to_aligned_value, call_claim, claim_program, kernel_claim_contract_call,
  create_comm_comm_data, query_claim,
}
use compact.Aligned.{AlignedValue}
use compact.Context.Query.{query_ledger_state, sole_read}

module _ {l : Ledger} {A R : Type 0} (e : Setting l A R)
    (options : CrossContractCallOptions A) where
  -- A state from which the call is claimed: the callee's entry of the trace, the encoded texts, and
  -- the virtual machine's reply to the program of the claim.
  pub record Claimable (t : State l) : Type 0 where
    pub entry : CallProofData l
    pub traced : last t.context.call_proof_data_trace ≡ some entry
    pub randomness : AlignedValue
    pub encoded : fr_hex_to_aligned_value e.platform e.randomness ≡ ok randomness
    pub index : AlignedValue
    pub claim : AlignedValue
    pub claimed :
        call_claim e.platform e.ocrt options.callee_address options.callee_circuit_id (
          e.platform.communication_commitment entry.proof_data.input entry.proof_data.output
            e.randomness)
        ≡ ok (index, claim)
    pub live : QueryContext l
    pub here : get_elem? t.world.objects t.context.call_context.current_query_context ≡ some live
    pub accepted :
        (after : QueryContext l) × (gas : RunningCost) × (events : List (GatherResult l))
        × (e.vm.query live
              (claim_program e.platform index claim)
              t.context.cost_model
              t.context.gas_limit
            ≡ queried after gas events)

  claimed-Returns :
      (t : State l) (q : QueryContext l) (index claim : AlignedValue) (after : QueryContext l)
      (gas : RunningCost) (events : List (GatherResult l))
      → get_elem? t.world.objects t.context.call_context.current_query_context ≡ some q
      → e.vm.query q (claim_program e.platform index claim) t.context.cost_model t.context.gas_limit
        ≡ queried after gas events
      → Returns (λ _ _. Unit {0}) (query_claim e.platform e.vm (ok (index, claim))) t
  unfolding query_ledger_state
  claimed-Returns t q index claim after gas events here runs = record {
    value = sole_read events;
    final = (query_claim e.platform e.vm (ok (index, claim)) t).1;
    gives =
        ap (λ o. (o, (query_claim e.platform e.vm (ok (index, claim)) t).1))
          (rw (here, query_ledger_state, runs) refl);
    holds = tt;
  }

  pub claim_call-Returns :
      (t : State l) → Claimable t → Returns (λ _ _. Unit {0}) (claim_call e options) t
  unfolding claim_call create_comm_comm_data kernel_claim_contract_call
  claim_call-Returns t c =
      let (after, gas, events, runs) = c.accepted in
      get-Returns _ _ t (
        lift-Returns _ _ _ t c.entry (ap last_of c.traced) (
          modify-Returns _ _ _ t (
            modify-Returns _ _ _ _ (
              lift-Returns _ _ _ _ c.randomness (ap of_result c.encoded) (
                modify-Returns _ _ _ _ (
                  >>=-Returns (λ _ _. Unit {0}) _ _ _ _
                    (rw c.claimed
                      (claimed-Returns _ c.live c.index c.claim after gas events c.here runs))
                    (λ a t _. record { value = tt; final = t; gives = refl; holds = tt })))))))
