-- ===== src/Context/Query.antt =====
-- `queryLedgerState` of runtime/src/circuit-context.ts, in the context of a circuit that runs.
pub mod Kept
pub mod Invariant
pub mod Transcript
use mathlib.Core.Option
use compact.Base.{ℕ, String, List, [], ◌∷◌, ◌++◌, Option, none, some, length, get_elem?, message}
use compact.Base.Names.{Dict, lookup, insert}
use compact.Aligned.{AlignedValue}
use compact.Resolution.{error}
use compact.Context.{
  Ledger, RunningCost, QueryContext, Op, popeq, swap, dup, concat, ins, idx, size, push_null,
  push_cell, other, TranscriptOp, plain_op, popeq_result, GatherResult, read, log, QueryReply,
  failed, queried, Vm, LogEvent, CircuitContext, World, State, Outcome, returned, thrown, M, throw,
}
use compact.Context.Create.{empty_running_cost, add_running_cost}

abbrev pub cost_of : Option RunningCost → RunningCost
cost_of none = empty_running_cost
cost_of (some c) = c

module _ {l : Ledger} where
  abbrev pub reads : List (GatherResult l) → List AlignedValue
  reads [] = []
  reads (read v ∷ events) = v ∷ reads events
  reads (log c ∷ events) = reads events

  abbrev pub logs : String → List (GatherResult l) → List (LogEvent l)
  logs address [] = []
  logs address (read v ∷ events) = logs address events
  logs address (log c ∷ events) = record { content = c; address = address } ∷ logs address events

  -- `program.map(...)`: each `popeq` takes the next read, and there may be none left.
  abbrev pub fill : List (Op l) → List AlignedValue → Option (List (TranscriptOp l))
  fill [] values = some []
  fill (popeq p ∷ program) [] = none
  fill (popeq p ∷ program) (v ∷ values) =
      Option.map (λ ops. popeq_result p v ∷ ops) (fill program values)
  fill (op ∷ program) values = Option.map (λ ops. plain_op op ∷ ops) (fill program values)

  abbrev pub sole_read : List (GatherResult l) → Option AlignedValue
  sole_read (read v ∷ []) = some v
  sole_read _ = none

  -- The context that a query leaves, recorded wherever the old one is.
  abbrev pub advance : QueryContext l → RunningCost → List (GatherResult l) → State l → State l
  advance q gas events s =
      let context = s.context in
      let call = context.call_context in
      let place = length s.world.objects in
      let address = call.contract_address in
      record s {
        world = record s.world { objects = s.world.objects ++ q ∷ [] };
        context = record context {
          call_context = record call {
            current_query_context = place;
            current_gas_cost = add_running_cost call.current_gas_cost gas;
          };
          query_contexts = insert address place context.query_contexts;
          gas_costs =
              insert address (add_running_cost (cost_of (lookup address context.gas_costs)) gas)
                context.gas_costs;
          events = context.events ++ logs address events;
        };
      }

  abbrev pub extend_transcript : List (TranscriptOp l) → State l → State l
  extend_transcript ops s = record s {
    proof = record s.proof { public_transcript = s.proof.public_transcript ++ ops };
  }

  abbrev pub record_transcript :
      Option (List (TranscriptOp l)) → Option AlignedValue → M l (Option AlignedValue)
  record_transcript none result s = (
    thrown (error (message "TypeError: Cannot read properties of undefined (reading 'content')")),
    s,
  )
  record_transcript (some ops) result s = (returned result, extend_transcript ops s)

  abbrev pub record_reply : List (Op l) → QueryReply l → M l (Option AlignedValue)
  record_reply program (failed m) s = (thrown (error (message m)), s)
  record_reply program (queried q gas events) s =
      record_transcript (fill program (reads events)) (sole_read events) (advance q gas events s)

  abbrev run_query : Vm l → List (Op l) → Option (QueryContext l) → M l (Option AlignedValue)
  run_query vm program none s = (
    thrown (error (message "TypeError: Cannot read properties of undefined (reading 'query')")),
    s,
  )
  run_query vm program (some q) s =
      record_reply program (vm.query q program s.context.cost_model s.context.gas_limit) s

  unfoldable pub query_ledger_state : Vm l → List (Op l) → M l (Option AlignedValue)
  query_ledger_state vm program s =
      run_query vm program (get_elem? s.world.objects s.context.call_context.current_query_context)
        s
