-- ===== src/Chains/MemoryStore/Records.antt =====
-- pkg/gateway/chains/store.go and pkg/core/types/chain_types.go: the records of the store, and its
-- maps. What the store only passes on is one JSON value.
use vai_gateway.Prelude.{ℕ, String, Option, List, []}
use vai_gateway.Prelude.Assoc.{Assoc}
use vai_gateway.Types.{Json, Content, Message}
use vai_gateway.Types.Usage
use vai_gateway.Chains.Model.{ChainRecord, ChainDefaults, RunStatus, AttachmentMode}

pub record SessionRecord : Type 0 where
  pub id : String
  pub org_id : String
  pub external_session_id : String
  pub latest_chain_id : String
  pub updated_at : ℕ
  pub other_fields : Json

pub record ChainMessageRecord : Type 0 where
  pub id : String
  pub chain_id : String
  pub run_id : String
  pub role : String
  pub sequence_in_chain : ℕ
  pub content : Content
  pub created_at : ℕ

pub record ChainRunRecord : Type 0 where
  pub id : String
  pub org_id : String
  pub chain_id : String
  pub session_id : String
  pub rerun_of_run_id : String
  pub idempotency_key : String
  pub provider : String
  pub model : String
  pub status : RunStatus
  pub stop_reason : String
  pub tool_count : ℕ
  pub duration_ms : ℕ
  pub usage : Usage.Usage
  pub effective_config : ChainDefaults
  pub metadata : Json
  pub started_at : ℕ
  pub completed_at : Option ℕ

pub record EffectiveRequest : Type 0 where
  pub run_id : String
  pub request : Json

pub record AttachmentRecord : Type 0 where
  pub id : String
  pub chain_id : String
  pub org_id : String
  pub principal_id : String
  pub principal_type : String
  pub actor_id : String
  pub mode : AttachmentMode
  pub protocol : String
  pub resume_token_hash : String
  pub close_reason : String
  pub started_at : ℕ
  pub ended_at : Option ℕ

pub record IdempotencyScope : Type 0 where
  pub org_id : String
  pub principal_id : String
  pub chain_id : String
  pub operation : String
  pub idempotency_key : String

pub record IdempotencyRecord : Type 0 where
  pub id : String
  pub scope : IdempotencyScope
  pub request_hash : String
  pub result_ref : Json
  pub created_at : ℕ
  pub expires_at : ℕ

pub record MemoryStore : Type 0 where
  pub sessions : Assoc SessionRecord
  pub session_by_external : Assoc String
  pub session_chains : Assoc (List String)
  pub chains : Assoc ChainRecord
  pub chain_history : Assoc (List Message)
  pub chain_messages : Assoc (List ChainMessageRecord)
  pub chain_resume : Assoc String
  pub runs : Assoc ChainRunRecord
  pub chain_runs : Assoc (List String)
  pub run_items : Assoc (List Json)
  pub effective_request : Assoc EffectiveRequest
  pub attachments : Assoc AttachmentRecord
  pub idempotency : Assoc IdempotencyRecord

abbrev pub new_memory_store : MemoryStore
new_memory_store = record {
  sessions = [];
  session_by_external = [];
  session_chains = [];
  chains = [];
  chain_history = [];
  chain_messages = [];
  chain_resume = [];
  runs = [];
  chain_runs = [];
  run_items = [];
  effective_request = [];
  attachments = [];
  idempotency = [];
}
