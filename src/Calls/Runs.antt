-- ===== src/Calls/Runs.antt =====
-- The runs of circuits: sequences of the operations of runtime/src that the generated code calls,
-- queries, coin operations and calls of other contracts, each with the run of its callee.
pub mod Kept
pub mod Proper
use compact.Context.{
  Ledger, State, Op, PartialProofData, CircuitContext, World, returned, ProofData,
}
use compact.Calls.Check.{Setting, CrossContractCallOptions, ProvableCircuit}
use compact.Coins.{CoinPlatform, create_zswap_input, create_zswap_output}
use compact.Base.{List, ◌≡◌, Option, String, some, ◌∷◌}
use compact.Context.Query.{query_ledger_state}
use compact.Zswap.{EncodedQualifiedShieldedCoinInfo, EncodedShieldedCoinInfo, EncodedRecipient}
use compact.Calls.Resolve.{ProviderReply, Module, resolve_module}
use compact.Resolution.{ModuleResolutionContext}
use compact.Base.Names.{lookup}
use compact.Calls.Cross.{cross_contract_call}
use compact.Context.Create.{finalize_call_proof_data}

module _ {l : Ledger} {A R : Type 0} (e : Setting l A R) (p : CoinPlatform) where
  mutual
    -- What a circuit does to its state in one step.
    pub data Step : State l → State l → Type 0 where
      queried :
          {s t : State l} (program : List (Op l))
          → (query_ledger_state e.vm program s).1 ≡ t
          → Step s t
      received :
          {s t : State l} (coin : EncodedQualifiedShieldedCoinInfo)
          → (create_zswap_input coin s).1 ≡ t
          → Step s t
      sent :
          {s t : State l} (coin_info : EncodedShieldedCoinInfo) (recipient : EncodedRecipient)
          → (create_zswap_output e.ocrt p e.vm coin_info recipient s).1 ≡ t
          → Step s t
      -- What the circuit notes of a witness: its proof data, and the contract's private state.
      noted :
          {s t : State l} (proof : PartialProofData l) (private_state : Option l.PrivateState)
          → record s {
            context = record s.context {
              call_context = record s.context.call_context {
                current_private_state = private_state;
              };
            };
            proof = proof;
          }
            ≡ t
          → Step s t
      called :
          {s t : State l} {r : R} (options : CrossContractCallOptions A)
          → ((provider : String → ProviderReply (ProvableCircuit l A R))
                (context : ModuleResolutionContext) (m : Module (ProvableCircuit l A R))
                (circuit : ProvableCircuit l A R) (c : CircuitContext l) (w : World l) (r : R)
                (d : CircuitContext l) (v : World l)
              → e.module_provider ≡ some provider
              → resolve_module context (provider options.callee_address) ≡ returned m
              → lookup options.callee_circuit_id m.provable_circuits ≡ some circuit
              → w.active_contracts ≡ options.callee_address ∷ s.world.active_contracts
              → circuit options.args c w ≡ (returned (r, d), v)
              → Run w c v d)
          → cross_contract_call e options s ≡ (returned r, t)
          → Step s t

    pub data Reach : State l → State l → Type 0 where
      here : {s : State l} → Reach s s
      next : {s t u : State l} → Reach s t → Step t u → Reach s u

    -- A circuit that returns: it starts with its own proof data and ends with an entry of the trace.
    pub data Run : World l → CircuitContext l → World l → CircuitContext l → Type 0 where
      run :
          {w v : World l} {c d : CircuitContext l} {t u : State l} (proof : PartialProofData l)
          (proof_data : ProofData l)
          → Reach (record { world = w; context = c; proof = proof }) t
          → finalize_call_proof_data proof_data t ≡ (returned tt, u)
          → u.world ≡ v
          → u.context ≡ d
          → Run w c v d
