-- ===== src/Tests/Context.antt =====
-- Queries of the circuits of the small ledger.
use compact.Base.{◌≡◌, refl, List, [], ◌∷◌, Option, some, ◌↔◌}
use compact.Context.{
  Op, popeq, swap, TranscriptOp, read, log, queried, Vm, returned, State, GatherResult,
}
use compact.Context.Create.{empty_running_cost}
use compact.Context.Query.{query_ledger_state}
use compact.Context.Query.Invariant.{IsRunning, query_ledger_state-IsRunning}
use compact.Context.Query.Transcript.{IsTranscriptOf, IsRecorded, query_ledger_state_records}
use compact.Tests.Chain.{ledger, vm, bytes_2, state, query_context}
use compact.Tests.Calls.{state-IsRunning}
use compact.Aligned.{AlignedValue}

query_ledger_state-IsRunning_example :
    let t = query_ledger_state vm (swap 0 ∷ []) state in IsRunning t.1.world t.1.context
query_ledger_state-IsRunning_example =
    query_ledger_state-IsRunning vm (swap 0 ∷ []) state state-IsRunning

-- A query that logs 5 and reads two bytes.
abbrev reading : Vm ledger
reading = record vm {
  query = λ q program model limit. queried q empty_running_cost (log 5 ∷ read bytes_2 ∷ []);
}

abbrev program : List (Op ledger)
program = swap 0 ∷ popeq 9 ∷ []

query_ledger_state_records_example :
    (result : Option AlignedValue) × (t : State ledger) × (ops : List (TranscriptOp ledger))
    × (query_ledger_state reading program state ≡ (returned result, t))
    × ((v : AlignedValue)
        → (result ≡ some v)
          ↔ (◌≡◌ {A = List (GatherResult ledger)} (log 5 ∷ read bytes_2 ∷ []) (read v ∷ [])))
    × IsTranscriptOf program (bytes_2 ∷ []) ops
    × IsRecorded state t
        (query_context 3 "a")
        empty_running_cost
        (record { content = 5; address = "a" } ∷ [])
        ops
query_ledger_state_records_example =
    query_ledger_state_records reading program state (query_context 3 "a") (query_context 3 "a")
      empty_running_cost (log 5 ∷ read bytes_2 ∷ []) (bytes_2 ∷ [])
      (record { content = 5; address = "a" } ∷ []) refl refl ([], refl, ([], refl, (refl, refl)))
      refl
