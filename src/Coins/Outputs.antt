-- ===== src/Coins/Outputs.antt =====
-- Coin outputs in runtime/src/zswap.ts.
use compact.Base.{
  ℕ, ◌+◌, ◌≡◌, refl, arith, String, true, [], ◌∷◌, ◌++◌, Option, none, some, length,
  get_elem?-append, Result, ok, err,
}
use compact.Base.Names.{same_iff, lookup, lookup-insert, has-insert, has-lookup}
use compact.Codec.Ocrt.{Ocrt}
use compact.Zswap.{EncodedShieldedCoinInfo, EncodedRecipient, EncodedZswapLocalState}
use compact.Context.{Ledger, QueryContext, Vm, State, returned}
use compact.Context.Steps.{Keeps}
use compact.Context.Query.Invariant.{IsRunning, insert-PlacesExist}
use compact.Coins.{
  CoinPlatform, commitment_hex, set_current_zswap_local_state, set_current_query_context, current,
  record_output, add_output, create_zswap_output, has_coin_commitment,
}

module _ {l : Ledger} (o : Ocrt) (p : CoinPlatform) (vm : Vm l) where
  -- The state of the coins after one more output.
  abbrev pub with_output :
      EncodedShieldedCoinInfo → EncodedRecipient → EncodedZswapLocalState → EncodedZswapLocalState
  with_output coin_info recipient z = record z {
    current_index = z.current_index + 1;
    outputs = z.outputs ++ record { coin_info = coin_info; recipient = recipient } ∷ [];
  }

  -- A set of commitments that has what was inserted.
  abbrev pub HasInserted : Type 0
  HasInserted =
      (q : QueryContext l) (hex : String) (i : ℕ)
      → vm.has_commitment (vm.insert_commitment q hex i) hex ≡ true

  -- Where a set of commitments has what was inserted, createZswapOutput for a coin with a
  -- commitment, in a state with coins and a query context, returns; it inserts the commitment at
  -- the current index into the live query context, and the coins of the call and of its address
  -- have one more output and the next index; hasCoinCommitment then returns true.
  pub create_zswap_output_lem :
      HasInserted
      → (coin_info : EncodedShieldedCoinInfo) (recipient : EncodedRecipient) (s : State l)
        (z : EncodedZswapLocalState) (q : QueryContext l) (hex : String)
      → s.context.call_context.current_zswap_local_state ≡ some z
      → current s ≡ some q
      → commitment_hex o p coin_info recipient ≡ ok hex
      → let r = create_zswap_output o p vm coin_info recipient s in
        let c = r.1.context in
        let a = s.context.call_context.contract_address in
        (r.0 ≡ returned tt)
        × (current r.1 ≡ some (vm.insert_commitment q hex z.current_index))
        × (c.call_context.current_zswap_local_state ≡ some (with_output coin_info recipient z))
        × (lookup a c.zswap_local_states ≡ some (with_output coin_info recipient z))
        × (has_coin_commitment o p vm coin_info recipient r.1 ≡ (returned true, r.1))
  unfolding create_zswap_output set_current_zswap_local_state set_current_query_context
      has_coin_commitment
  create_zswap_output_lem law coin_info recipient s z q hex hz hq hh =
      let a = s.context.call_context.contract_address in
      let place =
        get_elem?-append s.world.objects (vm.insert_commitment q hex z.current_index) [] in
      rw (hz, hh, hq)
        (
          refl,
          place,
          refl,
          lookup-insert a (with_output coin_info recipient z) s.context.zswap_local_states,
          rw (place, law q hex z.current_index) refl,
        )

  pub recorded-IsRunning :
      (q : QueryContext l) (s : State l)
      → IsRunning s.world s.context
      → let t = set_current_query_context q s in IsRunning t.world t.context
  unfolding set_current_query_context
  recorded-IsRunning q s ((active, here, cost), places, paired) =
      let c = s.context in
      let a = c.call_context.contract_address in
      let n = length s.world.objects in
      (
        (active, lookup-insert a n c.query_contexts, cost),
        insert-PlacesExist s.world q a c.query_contexts places,
        λ k h.
            let old = has-lookup a c.query_contexts here in
            paired k (ground (arith, same_iff k a, has-insert k a n c.query_contexts)),
      )

  record_output-IsRunning :
      (coin_info : EncodedShieldedCoinInfo) (recipient : EncodedRecipient)
      (z : EncodedZswapLocalState) (hex : Result String) (q : Option (QueryContext l))
      → Keeps (λ s. IsRunning s.world s.context) (record_output vm coin_info recipient z hex q)
  unfolding set_current_zswap_local_state
  record_output-IsRunning coin_info recipient z (err e) q s h = h
  record_output-IsRunning coin_info recipient z (ok hex) none s h = h
  record_output-IsRunning coin_info recipient z (ok hex) (some q) s h =
      recorded-IsRunning (vm.insert_commitment q hex z.current_index) s h

  add_output-IsRunning :
      (coin_info : EncodedShieldedCoinInfo) (recipient : EncodedRecipient)
      (z : Option EncodedZswapLocalState)
      → Keeps (λ s. IsRunning s.world s.context) (add_output o p vm coin_info recipient z)
  add_output-IsRunning coin_info recipient none s h = h
  add_output-IsRunning coin_info recipient (some z) s h =
      record_output-IsRunning coin_info recipient z (commitment_hex o p coin_info recipient)
        (current s) s h

  pub create_zswap_output-IsRunning :
      (coin_info : EncodedShieldedCoinInfo) (recipient : EncodedRecipient) (s : State l)
      → IsRunning s.world s.context
      → let t = (create_zswap_output o p vm coin_info recipient s).1 in IsRunning t.world t.context
  unfolding create_zswap_output
  create_zswap_output-IsRunning coin_info recipient s h =
      add_output-IsRunning coin_info recipient s.context.call_context.current_zswap_local_state s h
