-- ===== src/Chains/Manager/Calls.antt =====
-- The calls of the store that the manager makes, in their order. The store is an interface: what it
-- answers is a function of the calls before.
use vai_gateway.Prelude.{ℕ, String, Option, none, some, List, [], ◌∷◌, ◌++◌}
use vai_gateway.Types.{Message}
use vai_gateway.Chains.Model.{AttachmentMode, ChainError, Principal, ChainRecord, ChainDefaults}
use vai_gateway.Chains.MemoryStore.Records.{AttachmentRecord, ChainRunRecord, IdempotencyRecord}

pub data StoreCall : Type 0 where
  update_chain_call : ChainRecord → StoreCall
  resume_call : (chain_id hash : String) → StoreCall
  attachment_call : AttachmentRecord → StoreCall
  close_call : (attachment_id reason : String) → StoreCall
  append_messages_call : (chain_id run_id : String) → List Message → StoreCall
  create_run_call : ChainRunRecord → StoreCall
  update_run_call : ChainRunRecord → StoreCall
  initial_items_call : (run_id : String) → ChainDefaults → List Message → StoreCall
  effective_request_call : (run_id : String) → ChainDefaults → List Message → StoreCall
  idempotency_call : IdempotencyRecord → StoreCall

pub record StoreLog : Type 0 where
  pub answer : List StoreCall → StoreCall → Option ChainError
  pub made : List StoreCall

unfoldable pub call : StoreCall → StoreLog → Option ChainError × StoreLog
call x calls = (calls.answer calls.made x, record calls { made = calls.made ++ x ∷ [] })

-- A call whose error is ignored.
unfoldable pub call_ : StoreCall → StoreLog → StoreLog
call_ x calls = record calls { made = calls.made ++ x ∷ [] }

-- StoreLog up to the first error.
unfoldable pub call_all : List StoreCall → StoreLog → Option ChainError × StoreLog
call_all [] calls = (none, calls)
call_all (x ∷ xs) calls =
    let (failed, calls') = call x calls in
    let rest = call_all xs calls' in elim failed [ none ↦ rest | some e ↦ (some e, calls') ]

abbrev pub writer_attachment :
    Principal
    → AttachmentMode
    → (protocol id chain_id actor_id hash : String) → ℕ
    → AttachmentRecord
writer_attachment p mode protocol id chain_id actor_id hash now = record {
  id = id;
  chain_id = chain_id;
  org_id = p.org_id;
  principal_id = p.principal_id;
  principal_type = p.principal_type;
  actor_id = actor_id;
  mode = mode;
  protocol = protocol;
  resume_token_hash = hash;
  close_reason = "";
  started_at = now;
  ended_at = none;
}
