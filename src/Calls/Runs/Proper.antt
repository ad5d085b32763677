-- ===== src/Calls/Runs/Proper.antt =====
-- Every run of a circuit keeps the invariant of the state in runtime/src/circuit-context.ts.
use mathlib.Core.Path.{subst}
use compact.Base.{refl, ◌≡◌, sym, ◌∙◌, ap}
use compact.Calls.Runs.{Step, queried, received, sent, noted, called, Reach, here, next, Run, run}
use compact.Calls.Running.{IsContinued}
use compact.Context.{Ledger, State, ProofData, World, returned, CircuitContext}
use compact.Calls.Runs.Kept.{
  Goes, IsContinued-refl, IsContinued-trans, queried-Goes, received-Goes, sent-Goes, noted-Goes,
}
use compact.Calls.Check.{Setting}
use compact.Context.Create.{finalize_call_proof_data}
use compact.Coins.{CoinPlatform}
use compact.Context.Query.Invariant.{IsRunning}
use compact.Calls.Proper.{cross_contract_call-IsContinued}
use compact.Context.Steps.{defined-eq-returned, get->>=}

module _ {l : Ledger} where
  -- The end of a run adds to the trace only.
  finalized-Goes :
      (proof_data : ProofData l) (s t : State l)
      → IsRunning s.world s.context
      → finalize_call_proof_data proof_data s ≡ (returned tt, t)
      → Goes s t
  unfolding finalize_call_proof_data
  finalized-Goes proof_data s t h ended =
      let (z, _, ended) =
        defined-eq-returned s.context.call_context.current_zswap_local_state _ _ s
          (sym (get->>= _ s) ∙ ended) in
      subst (Goes s) (ap (λ q. q.1) ended) (record {
        running = h;
        same_active = refl;
        same_address = refl;
        others = λ k active ne. (refl, refl);
        kept = λ k h. h;
      })

module _ {l : Ledger} {A R : Type 0} (e : Setting l A R) (p : CoinPlatform) where
  mutual
    Step-Goes : {s t : State l} → Step e p s t → IsRunning s.world s.context → Goes s t
    Step-Goes {s} {t} (queried program same) h = subst (Goes s) same (queried-Goes e.vm program s h)
    Step-Goes {s} {t} (received coin same) h = subst (Goes s) same (received-Goes coin s h)
    Step-Goes {s} {t} (sent coin_info recipient same) h =
        subst (Goes s) same (sent-Goes e.ocrt p e.vm coin_info recipient s h)
    Step-Goes {s} {t} (noted proof private_state same) h =
        subst (Goes s) same (noted-Goes proof private_state s h)
    Step-Goes {s} {t} (called options callee returns) h =
        cross_contract_call-IsContinued e options s
          (λ provider given context m circuit resolved found c w r d v active running ran.
            run-IsContinued
              (callee provider context m circuit c w r d v given resolved found active ran) running)
          h returns

    Reach-Goes : {s u : State l} → Reach e p s u → IsRunning s.world s.context → Goes s u
    Reach-Goes {s} here h = IsContinued-refl s.world s.context h
    Reach-Goes {s} {u} (next {t = t} r step) h =
        let g = Reach-Goes r h in
        IsContinued-trans s.world t.world u.world s.context t.context u.context g
          (Step-Goes step g.running)

    run-IsContinued :
        {w v : World l} {c d : CircuitContext l}
        → Run e p w c v d
        → IsRunning w c
        → IsContinued w c v d
    run-IsContinued {w} {v} {c} {d} (run {t = t} {u = u} proof proof_data r ended world context) h =
        let g = Reach-Goes r h in
        let last = finalized-Goes proof_data t u g.running ended in
        subst (λ v. IsContinued w c v d) world
          (subst (λ d. IsContinued w c u.world d) context
            (IsContinued-trans w t.world u.world c t.context u.context g last))

  -- Every run of a circuit that starts with the invariant keeps the invariant, the active
  -- contracts, the address of the circuit, the cells of the other active contracts, and every kept
  -- deployed state. A run is a sequence, of any length, of queries, coin inputs, coin outputs,
  -- notes of witnesses, and calls of other contracts that return and whose callees do runs in
  -- turn; finalizeCallProofData ends it. The invariant of a running circuit is that its address is
  -- active, that the maps have its live query context and cost under its address, that every query
  -- context they name exists, and that every address reached has a cost and is active or has its
  -- deployed state kept.
  pub circuit_run-IsContinued :
      {w v : World l} {c d : CircuitContext l}
      → Run e p w c v d
      → IsRunning w c
      → IsContinued w c v d
  circuit_run-IsContinued r h = run-IsContinued r h
