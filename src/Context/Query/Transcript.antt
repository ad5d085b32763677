-- ===== src/Context/Query/Transcript.antt =====
-- The transcript that `queryLedgerState` of runtime/src/circuit-context.ts writes.
use mathlib.Core.Option
use compact.Base.{
  ℕ, suc, ◌≡◌, refl, ap, arith, String, List, [], ◌∷◌, map, some, length, get_elem?, message, ◌↔◌,
  Option, ◌∙◌, ◌<◌, sym, ◌++◌, ◌+◌, get_elem?-append, get_elem?-append_left,
}
use compact.Aligned.{AlignedValue}
use compact.Resolution.{error}
use compact.Context.{
  Ledger, RunningCost, QueryContext, Op, popeq, swap, dup, concat, ins, idx, size, push_null,
  push_cell, other, TranscriptOp, plain_op, popeq_result, GatherResult, failed, queried, Vm, State,
  returned, thrown, read, LogEvent, log,
}
use compact.Context.Query.{
  fill, reads, advance, extend_transcript, sole_read, run_query, record_reply, query_ledger_state,
  logs, cost_of,
}
use compact.Base.Names.{lookup, lookup-insert}
use compact.Context.Create.{add_running_cost}

-- The costs `a` and `b` together.
abbrev pub IsCostSum : RunningCost → RunningCost → RunningCost → Type 0
IsCostSum a b c =
    (c.read_time ≡ a.read_time + b.read_time)
    × (c.compute_time ≡ a.compute_time + b.compute_time)
    × (c.bytes_written ≡ a.bytes_written + b.bytes_written)
    × (c.bytes_deleted ≡ a.bytes_deleted + b.bytes_deleted)

module _ {l : Ledger} where
  abbrev pub op_of : TranscriptOp l → Op l
  op_of (plain_op op) = op
  op_of (popeq_result p v) = popeq p

  abbrev pub results : List (TranscriptOp l) → List AlignedValue
  results [] = []
  results (plain_op op ∷ ops) = results ops
  results (popeq_result p v ∷ ops) = v ∷ results ops

  abbrev pub popeqs : List (Op l) → ℕ
  popeqs [] = 0
  popeqs (popeq p ∷ program) = suc (popeqs program)
  popeqs (op ∷ program) = popeqs program

  abbrev pub IsTranscriptOf : List (Op l) → List AlignedValue → List (TranscriptOp l) → Type 0
  IsTranscriptOf program values ops = (map op_of ops ≡ program) × (results ops ≡ values)

  abbrev IsFilled : List (Op l) → List AlignedValue → Type 0
  IsFilled program values =
      (ops : List (TranscriptOp l)) × (fill program values ≡ some ops)
      × IsTranscriptOf program values ops

  fill-plain :
      (op : Op l) (program : List (Op l)) (values : List AlignedValue)
      → IsFilled program values
      → (ops : List (TranscriptOp l)) × (Option.map (λ t. plain_op op ∷ t) (fill program values)
          ≡ some ops)
        × IsTranscriptOf (op ∷ program) values ops
  fill-plain op program values (ops, e, same) = (
    plain_op op ∷ ops,
    ap (λ o. Option.map (λ t. plain_op op ∷ t) o) e,
    (ap (λ t. op ∷ t) same.0, same.1),
  )

  fill-IsFilled :
      (program : List (Op l)) (values : List AlignedValue)
      → popeqs program ≡ length values
      → IsFilled program values
  fill-IsFilled [] [] h = ([], refl, (refl, refl))
  fill-IsFilled [] (v ∷ values) h = absurd (omega arith)
  fill-IsFilled (popeq p ∷ program) [] h = absurd (omega arith)
  fill-IsFilled (popeq p ∷ program) (v ∷ values) h =
      let (ops, e, same) = fill-IsFilled program values (omega arith) in
      (
        popeq_result p v ∷ ops,
        ap (λ o. Option.map (λ t. popeq_result p v ∷ t) o) e,
        (ap (λ t. popeq p ∷ t) same.0, ap (λ t. v ∷ t) same.1),
      )
  fill-IsFilled (swap n ∷ program) values h =
      fill-plain (swap n) program values (fill-IsFilled program values h)
  fill-IsFilled (dup n ∷ program) values h =
      fill-plain (dup n) program values (fill-IsFilled program values h)
  fill-IsFilled (concat n ∷ program) values h =
      fill-plain (concat n) program values (fill-IsFilled program values h)
  fill-IsFilled (ins n ∷ program) values h =
      fill-plain (ins n) program values (fill-IsFilled program values h)
  fill-IsFilled (idx path ∷ program) values h =
      fill-plain (idx path) program values (fill-IsFilled program values h)
  fill-IsFilled (size ∷ program) values h =
      fill-plain size program values (fill-IsFilled program values h)
  fill-IsFilled (push_null ∷ program) values h =
      fill-plain push_null program values (fill-IsFilled program values h)
  fill-IsFilled (push_cell v ∷ program) values h =
      fill-plain (push_cell v) program values (fill-IsFilled program values h)
  fill-IsFilled (other op ∷ program) values h =
      fill-plain (other op) program values (fill-IsFilled program values h)

  -- If the query fails, queryLedgerState throws its message and changes nothing.
  pub query_ledger_state_failed :
      (vm : Vm l) (program : List (Op l)) (s : State l) (q : QueryContext l) {m : String}
      → get_elem? s.world.objects s.context.call_context.current_query_context ≡ some q
      → vm.query q program s.context.cost_model s.context.gas_limit ≡ failed m
      → query_ledger_state vm program s ≡ (thrown (error (message m)), s)
  unfolding query_ledger_state
  query_ledger_state_failed vm program s q here reply = rw (here, run_query, reply) refl

  -- The values that events read and the logs that they leave at an address, in order.
  abbrev pub IsGathered :
      String → List (GatherResult l) → List AlignedValue → List (LogEvent l) → Type 0
  IsGathered address [] values logged = (values ≡ []) × (logged ≡ [])
  IsGathered address (read v ∷ events) values logged =
      (rest : List AlignedValue) × (values ≡ v ∷ rest) × IsGathered address events rest logged
  IsGathered address (log c ∷ events) values logged =
      (rest : List (LogEvent l)) × (logged ≡ record { content = c; address = address } ∷ rest)
      × IsGathered address events values rest

  gathered :
      (address : String) (events : List (GatherResult l)) (values : List AlignedValue)
      (logged : List (LogEvent l))
      → IsGathered address events values logged
      → (reads events ≡ values) × (logs address events ≡ logged)
  gathered address [] values logged (no_values, no_logs) = (sym no_values, sym no_logs)
  gathered address (read v ∷ events) values logged (rest, same, h) =
      let (r, k) = gathered address events rest logged h in (ap (λ t. v ∷ t) r ∙ sym same, k)
  gathered address (log c ∷ events) values logged (rest, same, h) =
      let (r, k) = gathered address events values rest h in
      (r, ap (λ t. record { content = c; address = address } ∷ t) k ∙ sym same)

  -- The first element and what follows, or a value where there is none.
  abbrev head_value : AlignedValue → List (GatherResult l) → AlignedValue
  head_value d (read v ∷ events) = v
  head_value d events = d

  sole_read_iff :
      (events : List (GatherResult l)) (v : AlignedValue)
      → (sole_read events ≡ some v) ↔ (events ≡ read v ∷ [])
  sole_read_iff [] v = (λ h. absurd (cc h), λ h. absurd (cc h))
  sole_read_iff (read w ∷ []) v = (
    λ h. ap (λ o. elim o [ Option.none ↦ [] | some x ↦ read x ∷ [] ]) h,
    λ h. ap (λ events. some (head_value w events)) h,
  )
  sole_read_iff (read w ∷ e ∷ events) v = (λ h. absurd (cc h), λ h. absurd (cc h))
  sole_read_iff (log c ∷ events) v = (λ h. absurd (cc h), λ h. absurd (cc h))

  -- What a query that succeeded leaves, in every part of the state that it changes.
  pub record IsRecorded (s t : State l) (r : QueryContext l) (gas : RunningCost)
      (logged : List (LogEvent l)) (ops : List (TranscriptOp l)) : Type 0 where
    pub live : get_elem? t.world.objects t.context.call_context.current_query_context ≡ some r
    pub reachable :
        lookup s.context.call_context.contract_address t.context.query_contexts
        ≡ some t.context.call_context.current_query_context
    pub older :
        (i : ℕ)
        → i < length s.world.objects
        → get_elem? t.world.objects i ≡ get_elem? s.world.objects i
    pub live_cost :
        IsCostSum s.context.call_context.current_gas_cost gas
          t.context.call_context.current_gas_cost
    pub cost :
        (before : RunningCost)
        → lookup s.context.call_context.contract_address s.context.gas_costs ≡ some before
        → (after : RunningCost) × (lookup s.context.call_context.contract_address
              t.context.gas_costs
            ≡ some after)
          × IsCostSum before gas after
    pub logs_appended : t.context.events ≡ s.context.events ++ logged
    pub ops_appended : t.proof.public_transcript ≡ s.proof.public_transcript ++ ops
    pub same_address :
        t.context.call_context.contract_address ≡ s.context.call_context.contract_address
    pub same_active : t.world.active_contracts ≡ s.world.active_contracts

  records :
      (s : State l) (r : QueryContext l) (gas : RunningCost) (events : List (GatherResult l))
      (logged : List (LogEvent l)) (ops : List (TranscriptOp l))
      → logs s.context.call_context.contract_address events ≡ logged
      → IsRecorded s (extend_transcript ops (advance r gas events s)) r gas logged ops
  unfolding add_running_cost
  records s r gas events logged ops same =
      let address = s.context.call_context.contract_address in
      record {
        live = get_elem?-append s.world.objects r [];
        reachable = lookup-insert address (length s.world.objects) s.context.query_contexts;
        older = get_elem?-append_left s.world.objects (r ∷ []);
        live_cost = (refl, refl, refl, refl);
        cost = λ before h. (
          add_running_cost before gas,
          lookup-insert address _ s.context.gas_costs
              ∙ ap (λ o. some (add_running_cost (cost_of o) gas)) h,
          (refl, refl, refl, refl),
        );
        logs_appended = ap (λ t. s.context.events ++ t) same;
        ops_appended = refl;
        same_address = refl;
        same_active = refl;
      }

  -- If the runtime's query succeeds and reads as many values as the program has popeq operations,
  -- queryLedgerState returns, and what it returns is a value just if a read of that value is the
  -- only event. The new query context is the live one, in the map too, and the older ones are as
  -- they were; the live cost, and the cost in the map where it had one, grow by the query's cost
  -- in each part; the logs are appended to the events, each with the contract's address, and to
  -- the transcript the program, in order, with the values as the results of its popeq operations.
  pub query_ledger_state_records :
      (vm : Vm l) (program : List (Op l)) (s : State l) (q r : QueryContext l) (gas : RunningCost)
      (events : List (GatherResult l)) (values : List AlignedValue) (logged : List (LogEvent l))
      → get_elem? s.world.objects s.context.call_context.current_query_context ≡ some q
      → vm.query q program s.context.cost_model s.context.gas_limit ≡ queried r gas events
      → IsGathered s.context.call_context.contract_address events values logged
      → popeqs program ≡ length values
      → (result : Option AlignedValue) × (t : State l) × (ops : List (TranscriptOp l))
        × (query_ledger_state vm program s ≡ (returned result, t))
        × ((v : AlignedValue) → (result ≡ some v) ↔ (events ≡ read v ∷ []))
        × IsTranscriptOf program values ops
        × IsRecorded s t r gas logged ops
  unfolding query_ledger_state
  query_ledger_state_records vm program s q r gas events values logged here reply g enough =
      let (values-eq, logs-eq) = gathered _ events values logged g in
      let (ops, e, transcript) = fill-IsFilled program values enough in
      let e = ap (fill program) values-eq ∙ e in
      (
        sole_read events,
        extend_transcript ops (advance r gas events s),
        ops,
        rw (here, run_query, reply, record_reply, e) refl,
        sole_read_iff events,
        transcript,
        records s r gas events logged ops logs-eq,
      )
