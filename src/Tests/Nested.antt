-- ===== src/Tests/Nested.antt =====
-- A contract whose circuit calls itself.
use compact.Base.{
  ℕ, ◌≡◌, refl, ap, arith, String, Bool, true, false, [], ◌∷◌, some, if◌then◌else◌,
  native_type_error, List, ◌∙◌,
}
use compact.Base.Names.{same}
use compact.Resolution.{ModuleResolutionContext, error}
use compact.Context.{CircuitContext, World, State, Outcome, returned, thrown}
use compact.Calls.Resolve.{Module, loaded, ProviderReply, undefined_thunk, thunk, resolve_module}
use compact.Calls.Check.{ProvableCircuit, CrossContractCallOptions}
use compact.Calls.Nested.{Caller, nested}
use compact.Calls.Nested.Agree.{SameRuns}
use compact.Calls.Nested.Settled.{IsUniform, ProvidesOnly, nested_settled, IsBalancedCaller}
use compact.Tests.Chain.{
  ledger, bytes_2, inc, signatures, key_hash, setting, options, callee_address, state, with_trace,
}

-- What the circuit leaves after its call.
abbrev ended : Outcome ℕ × State ledger → Outcome (ℕ × CircuitContext ledger) × World ledger
ended (returned r, s) = (returned (r, with_trace s.context), s.world)
ended (thrown t, s) = (thrown t, s.world)

abbrev started : CircuitContext ledger → World ledger → State ledger
started c w = record {
  world = w;
  context = c;
  proof = record { input = bytes_2; public_transcript = []; private_transcript_outputs = [] };
}

-- The code is a circuit that calls its own contract, or one that calls nothing.
abbrev run : Caller ledger (Unit {0}) ℕ → Bool → ProvableCircuit ledger (Unit {0}) ℕ
run call true args c w = ended (call options (started c w))
run call false args c w = inc args c w

abbrev reply_if : Bool → ProviderReply Bool
reply_if known =
    if known
    then thunk (
        loaded (record {
          construction = returned tt;
          provable_circuits = some (("inc", true) ∷ []);
          circuit_signatures = some signatures;
          expected_vk = some (("inc", key_hash) ∷ []);
        }))
    else undefined_thunk

abbrev replies : String → ProviderReply Bool
replies address = reply_if (same address callee_address)

ended-active :
    (r : Outcome ℕ × State ledger) → (ended r).1.active_contracts ≡ r.1.world.active_contracts
ended-active (returned r, s) = refl
ended-active (thrown t, s) = refl

run-balanced :
    (call : Caller ledger (Unit {0}) ℕ)
    → IsBalancedCaller setting replies run call
    → (code : Bool) (args : Unit {0}) (c : CircuitContext ledger) (w : World ledger)
    → (run call code args c w).1.active_contracts ≡ w.active_contracts
run-balanced call balanced true args c w =
    ended-active (call options (started c w)) ∙ balanced options (started c w)
run-balanced call balanced false args c w = refl

run-depends :
    (active : List String) (call call' : Caller ledger (Unit {0}) ℕ)
    → ((o : CrossContractCallOptions (Unit {0})) (s : State ledger)
        → s.world.active_contracts ≡ active
        → call o s ≡ call' o s)
    → SameRuns setting replies run active call call'
run-depends active call call' agree true args c w h = ap ended (agree options (started c w) h)
run-depends active call call' agree false args c w h = refl

run-IsUniform : IsUniform setting replies run
run-IsUniform = record {
  balances = run-balanced;
  depends = λ active call call' _ _ agree. run-depends active call call' agree;
}

known_only :
    (context : ModuleResolutionContext) (known : Bool) {m : Module Bool}
    → resolve_module context (reply_if known) ≡ returned m
    → known ≡ true
unfolding resolve_module
known_only context true h = refl
known_only context false h = absurd (cc h)

replies-ProvidesOnly : ProvidesOnly setting replies run (callee_address ∷ [])
replies-ProvidesOnly context address m h =
    rw (known_only context (same address callee_address) h) refl

abbrev deepest : Caller ledger (Unit {0}) ℕ
deepest o s = (thrown (error native_type_error), s)

abbrev deepest' : Caller ledger (Unit {0}) ℕ
deepest' o s = (returned 0, s)

nested_settled_example :
    nested setting replies run deepest 2 options state
    ≡ nested setting replies run deepest' 5 options state
nested_settled_example =
    nested_settled setting replies run run-IsUniform (callee_address ∷ []) replies-ProvidesOnly
      deepest deepest' (λ o s. refl) (λ o s. refl) 2 5 options state (omega arith) (omega arith)
