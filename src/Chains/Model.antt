-- ===== src/Chains/Model.antt =====
-- pkg/gateway/chains/manager.go, pkg/core/types/chain_types.go, chain_ws.go and canonical_errors.go:
-- the state of a chain that is in memory, its events and its errors. Times are numbers.
use vai_gateway.Prelude.{ℕ, String, Bool, Option, none, List}
use vai_gateway.Types.{Json, Content, no_content, Message}
use vai_gateway.RunLoop.Model.{RunEvent}

pub data ReplayStatus : Type 0 where
  full partial none_replayed : ReplayStatus

pub data AttachmentMode : Type 0 where
  turn_ws stateful_http stateful_sse live_ws : AttachmentMode

pub data ChainStatus : Type 0 where
  idle running waiting_for_client_tool closed expired : ChainStatus

pub data RunStatus : Type 0 where
  run_queued run_running run_waiting run_completed run_cancelled run_failed run_timed_out :
      RunStatus

-- The canonical error codes that the chain runtime returns.
pub data ErrorCode : Type 0 where
  auth_credential_scope_denied auth_resume_token_invalid auth_actor_scope_denied : ErrorCode
  auth_chain_access_denied chain_attach_conflict chain_replay_unavailable : ErrorCode
  chain_expired tool_timeout tool_result_conflict transport_client_tools_require_ws : ErrorCode
  transport_backpressure_exceeded protocol_unsupported_capability protocol_unknown_frame : ErrorCode
  protocol_unknown_event quota_rate_limited quota_limit_exceeded asset_payload_too_large : ErrorCode

pub record CanonicalError : Type 0 where
  pub code : ErrorCode
  pub message : String

-- An error of the chain runtime: a canonical one, or one that a store or a tool has returned.
pub data ChainError : Type 0 where
  canonical : CanonicalError → ChainError
  not_found : ChainError
  other : String → ChainError

abbrev pub canonical_error : ErrorCode → String → ChainError
canonical_error code message = canonical (record { code = code; message = message })

pub record Principal : Type 0 where
  pub org_id : String
  pub principal_id : String
  pub principal_type : String
  pub actor_id : String

-- `none` is nil; where nil and the zero value mean the same, the zero value stands for both.
pub record ChainDefaults : Type 0 where
  pub model : String
  pub system : Content
  pub tools : Option Json
  pub gateway_tools : Option (List String)
  pub gateway_tool_config : Option Json
  pub tool_choice : Option Json
  pub max_tokens : ℕ
  pub temperature : Option Json
  pub top_p : Option Json
  pub top_k : Option Json
  pub stop_sequences : Option (List String)
  pub stt_model : String
  pub tts_model : String
  pub output_format : Option Json
  pub output : Option Json
  pub voice : Option Json
  pub extensions : Option Json
  pub metadata : Option Json

abbrev pub no_defaults : ChainDefaults
no_defaults = record {
  model = "";
  system = no_content;
  tools = none;
  gateway_tools = none;
  gateway_tool_config = none;
  tool_choice = none;
  max_tokens = 0;
  temperature = none;
  top_p = none;
  top_k = none;
  stop_sequences = none;
  stt_model = "";
  tts_model = "";
  output_format = none;
  output = none;
  voice = none;
  extensions = none;
  metadata = none;
}

pub record ActiveAttachment : Type 0 where
  pub mode : AttachmentMode
  pub started_at : ℕ

pub record ChainRecord : Type 0 where
  pub id : String
  pub org_id : String
  pub session_id : String
  pub external_session_id : String
  pub parent_chain_id : String
  pub forked_from_run_id : String
  pub created_by_principal_id : String
  pub created_by_principal_type : String
  pub actor_id : String
  pub status : ChainStatus
  pub chain_version : ℕ
  pub message_count_cached : ℕ
  pub defaults : ChainDefaults
  pub metadata : Option Json
  pub active_attachment : Option ActiveAttachment
  pub created_at : ℕ
  pub updated_at : ℕ

-- What the six kinds of server events carry beside their id, version and chain.
pub data EventBody : Type 0 where
  chain_started : (resume_token : String) → EventBody
  chain_attached : (resume_token actor_id : String) → ReplayStatus → EventBody
  chain_updated : ChainDefaults → EventBody
  run_event : (run_id : String) → RunEvent → EventBody
  client_tool_call :
      (run_id execution_id name : String) → (deadline : ℕ) → (input : Json) → EventBody
  chain_error : CanonicalError → EventBody

pub record ServerEvent : Type 0 where
  pub event_id : ℕ
  pub chain_version : ℕ
  pub chain_id : String
  pub body : EventBody

pub record ReplayEntry : Type 0 where
  pub event_id : ℕ
  pub bytes : List ℕ

pub record WriterLease : Type 0 where
  pub id : String
  pub mode : AttachmentMode
  pub principal : Principal
  pub started_at : ℕ
  pub resume_token_hash : String

pub record ActiveRun : Type 0 where
  pub run_id : String
  pub attachment_id : String
  pub ephemeral_writer : Bool

pub record HotChain : Type 0 where
  pub info : ChainRecord
  pub history : List Message
  pub replay : List ReplayEntry
  pub replay_bytes : ℕ
  pub next_event_id : ℕ
  pub org_id : String
  pub actor_id : String
  pub resume_token_hash : String
  pub writer : Option WriterLease
  pub active_run : Option ActiveRun

pub record ManagerConfig : Type 0 where
  pub replay_event_limit : ℕ
  pub replay_byte_limit : ℕ
