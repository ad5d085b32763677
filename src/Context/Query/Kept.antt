-- ===== src/Context/Query/Kept.antt =====
-- Properties of the state that `queryLedgerState` of runtime/src/circuit-context.ts keeps.
use compact.Base.{List, Option, none, some, get_elem?}
use compact.Aligned.{AlignedValue}
use compact.Context.{
  Ledger, RunningCost, QueryContext, Op, TranscriptOp, GatherResult, QueryReply, failed, queried,
  Vm, State,
}
use compact.Context.Steps.{Keeps}
use compact.Context.Query.{
  fill, reads, sole_read, advance, extend_transcript, record_transcript, record_reply, run_query,
  query_ledger_state,
}

-- A property that a recorded result and a longer transcript leave.
module _ {κ} {l : Ledger} (P : State l → Type κ)
    (next : (q : QueryContext l) (gas : RunningCost) (events : List (GatherResult l)) (s : State l)
      → P s
      → P (advance q gas events s))
    (longer : (ops : List (TranscriptOp l)) (s : State l) → P s → P (extend_transcript ops s)) where
  record_transcript-Keeps :
      (ops : Option (List (TranscriptOp l))) (result : Option AlignedValue)
      → Keeps P (record_transcript ops result)
  record_transcript-Keeps none result s h = h
  record_transcript-Keeps (some ops) result s h = longer ops s h

  record_reply-Keeps : (program : List (Op l)) (r : QueryReply l) → Keeps P (record_reply program r)
  record_reply-Keeps program (failed m) s h = h
  record_reply-Keeps program (queried q gas events) s h =
      record_transcript-Keeps (fill program (reads events)) (sole_read events)
        (advance q gas events s) (next q gas events s h)

  run_query-Keeps :
      (vm : Vm l) (program : List (Op l)) (q : Option (QueryContext l))
      → Keeps P (run_query vm program q)
  run_query-Keeps vm program none s h = h
  run_query-Keeps vm program (some q) s h =
      record_reply-Keeps program (vm.query q program s.context.cost_model s.context.gas_limit) s h

  pub query_ledger_state-Keeps :
      (vm : Vm l) (program : List (Op l)) → Keeps P (query_ledger_state vm program)
  unfolding query_ledger_state
  query_ledger_state-Keeps vm program s h =
      run_query-Keeps vm program
        (get_elem? s.world.objects s.context.call_context.current_query_context) s h
