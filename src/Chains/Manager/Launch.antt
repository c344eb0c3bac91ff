-- ===== src/Chains/Manager/Launch.antt =====
-- pkg/gateway/chains/executor.go: startRun as a whole, with the calls by which it stores a run. The
-- words before an error of the store are left out.
use vai_gateway.Prelude.{
  ◌+◌, String, not, Option, none, some, List, [], ◌∷◌, ◌++◌, ◌==◌, texts_comparable,
  numbers_comparable, if◌then◌else◌,
}
use vai_gateway.Prelude.Text.{is_blank}
use vai_gateway.Types.{Json, Message}
use vai_gateway.Types
use vai_gateway.Chains.Model.{
  ChainError, canonical_error, protocol_unknown_frame, tool_result_conflict, ChainDefaults,
  HotChain,
}
use vai_gateway.Chains.Access.{Outcome, done, denied, authorize_chain_mutation}
use vai_gateway.Chains.MemoryStore.Records.{ChainRunRecord}
use vai_gateway.Chains.Manager.{Environment}
use vai_gateway.Chains.Manager.Calls.{
  StoreCall, update_chain_call, attachment_call, append_messages_call, create_run_call,
  initial_items_call, effective_request_call, idempotency_call, StoreLog, call_all,
  writer_attachment,
}
use vai_gateway.Chains.Manager.Start.{RunStart, FreshRun, Begun, begin_run, rollback}

-- The calls by which startRun stores a run; the first is for a lease of the run's own.
unfoldable pub lease_calls : Environment → FreshRun → Begun → List StoreCall
lease_calls env fresh b =
    if b.active.attachment_id == ""
    then []
    else attachment_call (
        writer_attachment env.principal env.mode env.protocol b.active.attachment_id b.run.chain_id
          env.principal.actor_id "" fresh.now)
      ∷ []

unfoldable pub start_calls : Environment → RunStart → FreshRun → Begun → HotChain → List StoreCall
start_calls env start fresh b c =
    lease_calls env fresh b
    ++ update_chain_call c.info
      ∷ append_messages_call b.run.chain_id b.run.id start.input
      ∷ create_run_call b.run
      ∷ initial_items_call b.run.id b.effective start.input
      ∷ effective_request_call b.run.id b.effective b.history
      ∷ idempotency_call (record {
        id = fresh.idempotency_id;
        scope = record {
          org_id = env.principal.org_id;
          principal_id = env.principal.principal_id;
          chain_id = b.run.chain_id;
          operation = "run.start";
          idempotency_key = start.idempotency_key;
        };
        request_hash = start.request_hash;
        result_ref =
            Json.object (Types.Fields.field "run_id" (Json.string b.run.id) Types.Fields.end);
        created_at = fresh.now;
        expires_at = fresh.now + 86400000000000;
      })
      ∷ []

unfoldable pub stored :
    Begun → HotChain → Option ChainError × StoreLog → Outcome ChainRunRecord × HotChain × StoreLog
stored b c (none, calls) = (done b.run, c, calls)
stored b c (some e, calls) = let (c', calls') = rollback b c calls in (denied e, c', calls')

unfoldable pub store_run :
    Environment
    → RunStart
    → FreshRun
    → Outcome Begun × HotChain
    → StoreLog
    → Outcome ChainRunRecord × HotChain × StoreLog
store_run env start fresh (denied e, c) calls = (denied e, c, calls)
store_run env start fresh (done b, c) calls =
    stored b c (call_all (start_calls env start fresh b c) calls)

-- What GetIdempotency finds, and the run that GetRun finds for it.
pub record Recalled : Type 0 where
  pub request_hash : String
  pub run : Option ChainRunRecord

module _ (to_lower : String → String)
    (validate_capability : String → List Message → ChainDefaults → Option ChainError) where
  unfoldable pub start_anew :
      Environment
      → RunStart
      → FreshRun
      → HotChain
      → StoreLog
      → Outcome ChainRunRecord × HotChain × StoreLog
  start_anew env start fresh c calls =
      store_run env start fresh (begin_run to_lower validate_capability env start fresh c) calls

  unfoldable pub start_recalled :
      Environment
      → RunStart
      → FreshRun
      → HotChain
      → StoreLog
      → Option Recalled
      → Outcome ChainRunRecord × HotChain × StoreLog
  start_recalled env start fresh c calls none = start_anew env start fresh c calls
  start_recalled env start fresh c calls (some r) =
      if not (r.request_hash == start.request_hash)
      then (
        denied (canonical_error tool_result_conflict "idempotent request payload conflict"),
        c,
        calls,
      )
      else elim r.run [
        | some run ↦ (done run, c, calls)
        | none ↦ start_anew env start fresh c calls
      ]

  -- startRun for a chain that is in memory, up to the start of executeRun.
  unfoldable pub start_run :
      Environment
      → RunStart
      → FreshRun
      → Option Recalled
      → HotChain
      → StoreLog
      → Outcome ChainRunRecord × HotChain × StoreLog
  start_run env start fresh recalled c calls =
      if is_blank start.idempotency_key
      then (denied (canonical_error protocol_unknown_frame "idempotency_key is required"), c, calls)
      else elim (authorize_chain_mutation c env.principal) [
        | some e ↦ (denied e, c, calls)
        | none ↦ start_recalled env start fresh c calls recalled
      ]
