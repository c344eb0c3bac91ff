-- ===== src/Chains/Manager/Start.antt =====
-- pkg/gateway/chains/executor.go: startRun up to the release of the chain's lock, and its rollback.
-- `to_lower` is strings.ToLower and `validate_capability` is types.ValidateCapability. The metadata
-- that the gateway adds to that of a run is left out.
use vai_gateway.Prelude.{
  ℕ, ◌+◌, String, Bool, true, false, ◌&&◌, not, Option, none, some, List, [], ◌∷◌, ◌++◌, length,
  ◌==◌, texts_comparable, numbers_comparable, if◌then◌else◌,
}
use vai_gateway.Prelude.Text.{is_blank}
use vai_gateway.Types.{Json, Message}
use vai_gateway.Types.Usage
use vai_gateway.Chains.Model.{
  running, closed, run_running, ChainError, canonical_error, chain_attach_conflict, chain_expired,
  auth_credential_scope_denied, protocol_unsupported_capability, ChainDefaults, ChainRecord,
  ActiveRun, HotChain,
}
use vai_gateway.Chains.Defaults.{merge_defaults}
use vai_gateway.Chains.Access.{
  Outcome, done, denied, provider_from_model, allows_model, allows_gateway_tool,
}
use vai_gateway.Chains.MemoryStore.Records.{ChainRunRecord}
use vai_gateway.Chains.Manager.{Environment, is_request_mode, is_status, acquire, holds}
use vai_gateway.Chains.Manager.Calls.{close_call, StoreLog, call_}

pub record RunStart : Type 0 where
  pub input : List Message
  pub overrides : ChainDefaults
  pub metadata : Json
  pub idempotency_key : String
  pub request_hash : String

-- What is drawn for a run; `now` is the time under the lock. `listed_runs` is how many runs of the
-- chain the store lists, `none` on an error.
pub record FreshRun : Type 0 where
  pub attachment_id : String
  pub run_id : String
  pub idempotency_id : String
  pub now : ℕ
  pub listed_runs : Option ℕ

-- A run that has been entered in the chain, and what its rollback restores.
pub record Begun : Type 0 where
  pub run : ChainRunRecord
  pub active : ActiveRun
  pub effective : ChainDefaults
  pub history : List Message
  pub previous_info : ChainRecord
  pub previous_history : List Message

abbrev pub scope_denied : String → ChainError
scope_denied = canonical_error auth_credential_scope_denied

abbrev pub run_active : ChainError
run_active = canonical_error chain_attach_conflict "chain already has an active run"

unfoldable pub names : Option (List String) → List String
names none = []
names (some ns) = ns

unfoldable pub all_allowed : Environment → List String → Bool
all_allowed env [] = true
all_allowed env (n ∷ ns) = allows_gateway_tool env.scope n && all_allowed env ns

unfoldable pub build_tools : Environment → List String → Option Json → Option ChainError
build_tools env [] config = none
build_tools env (n ∷ ns) config = elim env.build_gateway_tools [
  | none ↦ some (scope_denied "gateway tools are not configured for this attachment")
  | some build ↦ build (n ∷ ns) config
]

unfoldable pub is_running : Option ActiveRun → Bool
is_running none = false
is_running (some r) = true

-- The first run of a forked chain is a rerun of the run that it was forked from.
unfoldable pub rerun_of : String → Option ℕ → String
rerun_of forked_from none = ""
rerun_of forked_from (some n) = if n == 0 then forked_from else ""

abbrev pub run_record : RunStart → FreshRun → ChainDefaults → HotChain → ChainRunRecord
run_record start fresh effective c = record {
  id = fresh.run_id;
  org_id = c.info.org_id;
  chain_id = c.info.id;
  session_id = c.info.session_id;
  rerun_of_run_id = rerun_of c.info.forked_from_run_id fresh.listed_runs;
  idempotency_key = start.idempotency_key;
  provider = provider_from_model effective.model;
  model = effective.model;
  status = run_running;
  stop_reason = "";
  tool_count = 0;
  duration_ms = 0;
  usage = Usage.zero_usage;
  effective_config = effective;
  metadata = start.metadata;
  started_at = fresh.now;
  completed_at = none;
}

-- The run is entered; `attachment_id` is "" if it runs on a socket's attachment.
abbrev pub begun : RunStart → FreshRun → (attachment_id : String) → ChainDefaults → HotChain → Begun
begun start fresh attachment_id effective c = record {
  run = run_record start fresh effective c;
  active = record {
    run_id = fresh.run_id;
    attachment_id = attachment_id;
    ephemeral_writer = not (attachment_id == "");
  };
  effective = effective;
  history = c.history ++ start.input;
  previous_info = c.info;
  previous_history = c.history;
}

abbrev pub entered : FreshRun → Begun → HotChain → HotChain
entered fresh b c = record c {
  history = b.history;
  active_run = some b.active;
  info = record c.info {
    status = running;
    chain_version = c.info.chain_version + 1;
    updated_at = fresh.now;
    message_count_cached = length b.history;
  };
}

unfoldable pub lease_of : Environment → FreshRun → String
lease_of env fresh = if is_request_mode env.mode then fresh.attachment_id else ""

module _ (to_lower : String → String)
    (validate_capability : String → List Message → ChainDefaults → Option ChainError) where
  -- The checks between the lease and the entry of the run, in their order.
  unfoldable pub refusal : Environment → ChainDefaults → List Message → HotChain → Option ChainError
  refusal env effective history c =
      if is_running c.active_run
      then some run_active
      else if is_blank effective.model
      then some (canonical_error protocol_unsupported_capability "model is required")
      else if not (allows_model to_lower env.scope effective.model)
      then some (scope_denied "current credential scope does not allow the requested model")
      else if not (all_allowed env (names effective.gateway_tools))
      then some (scope_denied "current credential scope does not allow the requested gateway tool")
      else elim (build_tools env (names effective.gateway_tools) effective.gateway_tool_config) [
        | some e ↦ some e
        | none ↦ validate_capability effective.model history effective
      ]

  unfoldable pub enter :
      Environment → RunStart → FreshRun → HotChain → Outcome HotChain → Outcome Begun × HotChain
  enter env start fresh c (denied e) = (denied e, c)
  enter env start fresh c (done held) =
      let effective = merge_defaults held.info.defaults start.overrides in
      let b = begun start fresh (lease_of env fresh) effective held in
      elim (refusal env effective b.history held) [
        | some e ↦ (denied e, held)
        | none ↦ (done b, entered fresh b held)
      ]

  -- startRun, from the lock to its release.
  unfoldable pub begin_run : Environment → RunStart → FreshRun → HotChain → Outcome Begun × HotChain
  begin_run env start fresh c =
      if is_status c.info.status closed
      then (denied (canonical_error chain_expired "chain is closed"), c)
      else enter env start fresh c (acquire env fresh.attachment_id fresh.now c)

-- The run is the chain's active one.
unfoldable pub is_active : String → Option ActiveRun → Bool
is_active id none = false
is_active id (some r) = r.run_id == id

-- The state that rollbackStartFailure leaves.
unfoldable pub rolled_back : Begun → HotChain → HotChain
rolled_back b c = record c {
  active_run = if is_active b.active.run_id c.active_run then none else c.active_run;
  writer =
      if not (b.active.attachment_id == "") && holds b.active.attachment_id c.writer
      then none
      else c.writer;
  info = b.previous_info;
  history = b.previous_history;
}

unfoldable pub rollback : Begun → HotChain → StoreLog → HotChain × StoreLog
rollback b c calls = (
  rolled_back b c,
  if b.active.attachment_id == ""
      then calls
      else call_ (close_call b.active.attachment_id "start_failed") calls,
)
