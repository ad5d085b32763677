-- ===== src/Calls/Kept.antt =====
-- Properties of the state that the claim of a call in runtime/src/contract.ts keeps.
use compact.Base.{String, List, Result, ok, err}
use compact.Aligned.{AlignedValue}
use compact.Context.{
  Ledger, RunningCost, QueryContext, TranscriptOp, GatherResult, CommunicationCommitmentData, State,
}
use compact.Context.Steps.{Keeps, >>=-Keeps}
use compact.Context.Query.{advance, extend_transcript}
use compact.Context.Query.Kept.{query_ledger_state-Keeps}
use compact.Calls.Claim.{query_claim, claim_program, call_claim, kernel_claim_contract_call}
use compact.Calls.Check.{CrossContractCallOptions, Setting}
use compact.Calls.Cross.{push_private, set_comm_comm_data, claim_call}

module _ {κ} {l : Ledger} {A R : Type 0} (P : State l → Type κ)
    (next : (q : QueryContext l) (gas : RunningCost) (events : List (GatherResult l)) (s : State l)
      → P s
      → P (advance q gas events s))
    (longer : (ops : List (TranscriptOp l)) (s : State l) → P s → P (extend_transcript ops s))
    (more : (v : AlignedValue) (s : State l) → P s → P (push_private v s))
    (committed : (d : CommunicationCommitmentData) (s : State l) → P s → P (set_comm_comm_data d s))
    (e : Setting l A R) (options : CrossContractCallOptions A) where
  query_claim-Keeps :
      (claim : Result (AlignedValue × AlignedValue)) → Keeps P (query_claim e.platform e.vm claim)
  query_claim-Keeps (err x) s h = h
  query_claim-Keeps (ok (index, claim)) s h =
      query_ledger_state-Keeps P next longer e.vm (claim_program e.platform index claim) s h

  kernel_claim-Keeps :
      (address circuit_id comm_comm : String)
      → Keeps P (kernel_claim_contract_call e.platform e.ocrt e.vm address circuit_id comm_comm)
  unfolding kernel_claim_contract_call
  kernel_claim-Keeps address circuit_id comm_comm =
      query_claim-Keeps (call_claim e.platform e.ocrt address circuit_id comm_comm)

  pub claim_call-Keeps : Keeps P (claim_call e options)
  unfolding claim_call
  claim_call-Keeps =
      >>=-Keeps P _ _ (λ s h. h)
        λ s.
          >>=-Keeps P _ _ (λ s h. h)
            λ trace. >>=-Keeps P _ _ (committed _) λ _. >>=-Keeps P _ _ (more _) λ _.
              >>=-Keeps P _ _ (λ s h. h)
                λ r.
                  >>=-Keeps P _ _ (more r)
                    λ _. >>=-Keeps P _ _ (kernel_claim-Keeps _ _ _) λ _ s h. h
