-- ===== src/Calls/Runs/Kept.antt =====
-- What every run of a circuit keeps of the state in runtime/src/circuit-context.ts.
use compact.Calls.Running.{IsContinued}
use compact.Context.{
  Ledger, State, World, QueryContext, Vm, RunningCost, CircuitContext, Op, GatherResult,
  PartialProofData,
}
use compact.Base.{none, some, List, ◌∙◌, ap, refl, Option, Result, String, err, ok}
use compact.Context.Query.Invariant.{IsRunning, advance-IsRunning}
use compact.Context.Query.{advance, query_ledger_state}
use compact.Base.Names.{member, lookup-insert_ne}
use compact.Context.Query.Kept.{query_ledger_state-Keeps}
use compact.Codec.Ocrt.{Ocrt}
use compact.Coins.{
  create_zswap_input, set_current_zswap_local_state, CoinPlatform, set_current_query_context,
  add_input, add_output, create_zswap_output, commitment_hex, record_output, current,
}
use compact.Zswap.{
  EncodedQualifiedShieldedCoinInfo, EncodedZswapLocalState, EncodedShieldedCoinInfo,
  EncodedRecipient,
}
use compact.Coins.Outputs.{recorded-IsRunning}

module _ {l : Ledger} where
  pub IsContinued-refl : (w : World l) (c : CircuitContext l) → IsRunning w c → IsContinued w c w c
  IsContinued-refl w c h = record {
    running = h;
    same_active = refl;
    same_address = refl;
    others = λ k active ne. (refl, refl);
    kept = λ k h. h;
  }

  pub IsContinued-trans :
      (w v u : World l) (c d f : CircuitContext l)
      → IsContinued w c v d
      → IsContinued v d u f
      → IsContinued w c u f
  IsContinued-trans w v u c d f h g = record {
    running = g.running;
    same_active = g.same_active ∙ h.same_active;
    same_address = g.same_address ∙ h.same_address;
    others = λ k active ne.
        let (place, gas) = h.others k active ne in
        let (place', gas') =
          g.others k (ap (member k) h.same_active ∙ active) (λ x. ne (x ∙ h.same_address)) in
        (place' ∙ place, gas' ∙ gas);
    kept = λ k x. g.kept k (h.kept k x);
  }

  -- The state goes on from `s`.
  abbrev pub Goes : State l → State l → Type 0
  Goes s t = IsContinued s.world s.context t.world t.context

  advance-Goes :
      (q : QueryContext l) (gas : RunningCost) (events : List (GatherResult l)) (s : State l)
      → IsRunning s.world s.context
      → Goes s (advance q gas events s)
  advance-Goes q gas events s h =
      let a = s.context.call_context.contract_address in
      record {
        running = advance-IsRunning q gas events s h;
        same_active = refl;
        same_address = refl;
        others = λ k active ne. (
          lookup-insert_ne k a _ s.context.query_contexts ne,
          lookup-insert_ne k a _ s.context.gas_costs ne,
        );
        kept = λ k h. h;
      }

  pub queried-Goes :
      (vm : Vm l) (program : List (Op l)) (s : State l)
      → IsRunning s.world s.context
      → Goes s (query_ledger_state vm program s).1
  queried-Goes vm program s h =
      query_ledger_state-Keeps (λ t. Goes s t)
        (λ q gas events t g.
          IsContinued-trans s.world t.world _ s.context t.context _ g
            (advance-Goes q gas events t g.running))
        (λ ops t g. g) vm program s (IsContinued-refl s.world s.context h)

  received_over :
      (z : EncodedZswapLocalState) (s : State l)
      → IsRunning s.world s.context
      → Goes s (set_current_zswap_local_state z s)
  unfolding set_current_zswap_local_state
  received_over z s h = record {
    running = (h.0, h.1, h.2);
    same_active = refl;
    same_address = refl;
    others = λ k active ne. (refl, refl);
    kept = λ k h. h;
  }

  add_input-Goes :
      (coin : EncodedQualifiedShieldedCoinInfo) (z : Option EncodedZswapLocalState) (s : State l)
      → IsRunning s.world s.context
      → Goes s (add_input coin z s).1
  add_input-Goes coin none s h = IsContinued-refl s.world s.context h
  add_input-Goes coin (some z) s h = received_over _ s h

  pub received-Goes :
      (coin : EncodedQualifiedShieldedCoinInfo) (s : State l)
      → IsRunning s.world s.context
      → Goes s (create_zswap_input coin s).1
  unfolding create_zswap_input
  received-Goes coin s h = add_input-Goes coin s.context.call_context.current_zswap_local_state s h

  pub noted-Goes :
      (proof : PartialProofData l) (private_state : Option l.PrivateState) (s : State l)
      → IsRunning s.world s.context
      → Goes s (record s {
        context = record s.context {
          call_context = record s.context.call_context { current_private_state = private_state };
        };
        proof = proof;
      })
  noted-Goes proof private_state s h = record {
    running = h;
    same_active = refl;
    same_address = refl;
    others = λ k active ne. (refl, refl);
    kept = λ k h. h;
  }

  module _ (o : Ocrt) (p : CoinPlatform) (vm : Vm l) (coin_info : EncodedShieldedCoinInfo)
      (recipient : EncodedRecipient) where
    sent_over :
        (q : QueryContext l) (z : EncodedZswapLocalState) (s : State l)
        → IsRunning s.world s.context
        → Goes s (set_current_zswap_local_state z (set_current_query_context q s))
    unfolding set_current_zswap_local_state set_current_query_context
    sent_over q z s h =
        let a = s.context.call_context.contract_address in
        let recorded = recorded-IsRunning o p vm q s h in
        record {
          running = (recorded.0, recorded.1, recorded.2);
          same_active = refl;
          same_address = refl;
          others = λ k active ne. (lookup-insert_ne k a _ s.context.query_contexts ne, refl);
          kept = λ k h. h;
        }

    record_output-Goes :
        (z : EncodedZswapLocalState) (hex : Result String) (q : Option (QueryContext l))
        (s : State l)
        → IsRunning s.world s.context
        → Goes s (record_output vm coin_info recipient z hex q s).1
    record_output-Goes z (err x) q s h = IsContinued-refl s.world s.context h
    record_output-Goes z (ok hex) none s h = IsContinued-refl s.world s.context h
    record_output-Goes z (ok hex) (some q) s h = sent_over _ _ s h

    add_output-Goes :
        (z : Option EncodedZswapLocalState) (s : State l)
        → IsRunning s.world s.context
        → Goes s (add_output o p vm coin_info recipient z s).1
    add_output-Goes none s h = IsContinued-refl s.world s.context h
    add_output-Goes (some z) s h =
        record_output-Goes z (commitment_hex o p coin_info recipient) (current s) s h

    pub sent-Goes :
        (s : State l)
        → IsRunning s.world s.context
        → Goes s (create_zswap_output o p vm coin_info recipient s).1
    unfolding create_zswap_output
    sent-Goes s h = add_output-Goes s.context.call_context.current_zswap_local_state s h
