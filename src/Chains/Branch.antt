-- ===== src/Chains/Branch.antt =====
-- pkg/gateway/chains/manager_branch.go: forks of a chain and the regeneration of a run, over the
-- chains that a manager has in memory and the store in memory. The ids that the code adds to an
-- error are left out.
pub mod Loading
pub mod Preview
pub mod Created
pub mod Again
pub mod Cut
pub mod Regenerated
mod Tests
use vai_gateway.Prelude.{
  ℕ, ◌+◌, ◌*◌, String, Bool, ◌||◌, not, Option, none, some, List, [], ◌∷◌, map, length, take, ltb,
  ◌==◌, texts_comparable, numbers_comparable, if◌then◌else◌,
}
use vai_gateway.Prelude.Assoc.{Assoc, lookup, insert}
use vai_gateway.Prelude.Text.{trim_space, is_blank}
use vai_gateway.Types.{
  fields_of, json_at, Json, string, number, object, Fields, field, end, Message,
}
use vai_gateway.Chains.Model.{
  ChainDefaults, ChainRecord, ActiveAttachment, Principal, HotChain, WriterLease, idle, RunStatus,
  run_completed, ChainError, canonical_error, not_found, protocol_unknown_frame,
  tool_result_conflict,
}
use vai_gateway.Chains.Access.{Outcome, done, denied, authorize_chain_mutation}
use vai_gateway.Chains.Defaults.{merge_defaults}
use vai_gateway.Chains.MemoryStore.Records.{
  ChainMessageRecord, ChainRunRecord, IdempotencyScope, IdempotencyRecord, MemoryStore,
}
use vai_gateway.Chains.MemoryStore.{
  get_chain, get_chain_resume_token_hash, get_run, list_chain_messages, get_session, upsert_session,
  save_chain, set_chain_resume_token_hash, get_idempotency, save_idempotency,
}
use vai_gateway.Chains.Branch.Loading.{
  Registry, loaded, load_chain, require_chain, overlay, chain_of,
}
use vai_gateway.Chains.Branch.Preview.{
  ForkPreview, ChainForkRequest, RunRegenerateRequest, value_or_messages, set_field, set_fields,
  merge_metadata, count_of, run_input_message_count, same_time, inferred_run_input_count,
  message_of, messages_from_records, is_of_run, run_messages, before_run, is_outside, input_count,
  fork_preview, preview_found, preview_fork_chain, regenerated, is_completed, preview_messages,
  preview_run, preview_run_found, preview_regenerate_run,
}

pub record ChainForkResponse : Type 0 where
  pub chain_id : String
  pub session_id : String
  pub external_session_id : String
  pub parent_chain_id : String
  pub forked_from_run_id : String
  pub defaults : ChainDefaults
  pub resume_token : String
  pub input : List Message

-- The random ids and the token of a new chain, its token's hash and the time.
pub record FreshFork : Type 0 where
  pub chain_id : String
  pub idempotency_id : String
  pub resume_token : String
  pub resume_token_hash : String
  pub now : ℕ

-- The record of a fork, and its chain in memory.
abbrev pub forked_record : Principal → ForkPreview → FreshFork → ChainRecord
forked_record p preview fresh = record {
  id = fresh.chain_id;
  org_id = preview.source_chain.org_id;
  session_id = preview.source_chain.session_id;
  external_session_id = preview.source_chain.external_session_id;
  parent_chain_id = preview.source_chain.id;
  forked_from_run_id = trim_space preview.forked_from_run_id;
  created_by_principal_id = p.principal_id;
  created_by_principal_type = p.principal_type;
  actor_id =
      if is_blank preview.source_chain.actor_id
      then trim_space p.actor_id
      else trim_space preview.source_chain.actor_id;
  status = idle;
  chain_version = 1;
  message_count_cached = length preview.history;
  defaults = preview.defaults;
  metadata = preview.metadata;
  active_attachment = none;
  created_at = fresh.now;
  updated_at = fresh.now;
}

abbrev pub forked_chain : Principal → ForkPreview → FreshFork → HotChain
forked_chain p preview fresh =
    loaded (forked_record p preview fresh) preview.history (some fresh.resume_token_hash)

-- The session of a fork has it as its latest chain.
unfoldable pub advance_session : ChainRecord → (now : ℕ) → MemoryStore → MemoryStore
advance_session info now s =
    if info.session_id == "" then s else elim (get_session info.session_id s) [
      | none ↦ s
      | some session ↦
          upsert_session (record session { updated_at = now; latest_chain_id = info.id }) s
    ]

abbrev pub response_to : ChainRecord → (resume_token : String) → List Message → ChainForkResponse
response_to info resume_token input = record {
  chain_id = info.id;
  session_id = info.session_id;
  external_session_id = info.external_session_id;
  parent_chain_id = info.parent_chain_id;
  forked_from_run_id = info.forked_from_run_id;
  defaults = info.defaults;
  resume_token = resume_token;
  input = input;
}

unfoldable pub fork_response : String → List Message → Registry → Outcome ChainForkResponse
fork_response chain_id input g = elim (chain_of chain_id g) [
  | none ↦ denied not_found
  | some info ↦ done (response_to info "" input)
]

abbrev pub day : ℕ
day = 24 * 3600 * 1000000000

-- A request for a fork: whose it is, what it is for, and its key and hash.
pub record ForkCall : Type 0 where
  pub scope : IdempotencyScope
  pub request_hash : String

abbrev pub fork_record : ForkCall → FreshFork → IdempotencyRecord
fork_record call fresh = record {
  id = fresh.idempotency_id;
  scope = call.scope;
  request_hash = call.request_hash;
  result_ref = object (field "chain_id" (string fresh.chain_id) end);
  created_at = fresh.now;
  expires_at = fresh.now + day;
}

-- The store once the fork is saved in it.
abbrev pub with_fork : Principal → ForkPreview → FreshFork → MemoryStore → MemoryStore
with_fork p preview fresh s =
    let info = forked_record p preview fresh in
    save_chain fresh.now info preview.history (advance_session info fresh.now s)

unfoldable pub create_forked_chain :
    Principal → ForkPreview → ForkCall → FreshFork → Registry → Outcome ChainForkResponse × Registry
create_forked_chain p preview call fresh g =
    let info = forked_record p preview fresh in
    let saved = with_fork p preview fresh g.store in
    elim (set_chain_resume_token_hash fresh.chain_id fresh.resume_token_hash saved) [
      | none ↦ (denied not_found, record g { store = saved })
      | some s ↦ (
        done (response_to info fresh.resume_token preview.input),
        record g {
          hot = insert fresh.chain_id (forked_chain p preview fresh) g.hot;
          store = save_idempotency (fork_record call fresh) s;
        },
      )
    ]

unfoldable pub chain_id_of : IdempotencyRecord → String
chain_id_of r = elim (json_at "chain_id" (some r.result_ref)) [ some (string id) ↦ id | _ ↦ "" ]

-- The rest of ForkChain and of RegenerateRun, once the key has been looked up.
unfoldable pub fork_once :
    Principal
    → ForkPreview
    → ForkCall
    → FreshFork
    → Registry
    → Option IdempotencyRecord
    → Outcome ChainForkResponse × Registry
fork_once p preview call fresh g none = create_forked_chain p preview call fresh g
fork_once p preview call fresh g (some r) =
    if not (r.request_hash == call.request_hash)
    then (denied (canonical_error tool_result_conflict "idempotent request payload conflict"), g)
    else if chain_id_of r == ""
    then create_forked_chain p preview call fresh g
    else (fork_response (chain_id_of r) preview.input g, g)

abbrev pub scope_of : Principal → (chain_id operation idempotency_key : String) → IdempotencyScope
scope_of p chain_id operation idempotency_key = record {
  org_id = p.org_id;
  principal_id = p.principal_id;
  chain_id = chain_id;
  operation = operation;
  idempotency_key = idempotency_key;
}

unfoldable pub fork_previewed :
    Principal
    → (ForkPreview → ForkCall)
    → FreshFork
    → Outcome ForkPreview × Registry
    → Outcome ChainForkResponse × Registry
fork_previewed p call_of fresh (denied e, g) = (denied e, g)
fork_previewed p call_of fresh (done preview, g) =
    let call = call_of preview in
    fork_once p preview call fresh g (get_idempotency fresh.now call.scope g.store)

unfoldable pub with_key :
    (idempotency_key : String)
    → Registry
    → Outcome ChainForkResponse × Registry
    → Outcome ChainForkResponse × Registry
with_key key g result =
    if is_blank key
    then (denied (canonical_error protocol_unknown_frame "idempotency_key is required"), g)
    else result

unfoldable pub fork_chain :
    (hash : ChainForkRequest → String)
    → FreshFork
    → Principal
    → (source_chain_id : String) → ChainForkRequest
    → (idempotency_key : String) → Registry
    → Outcome ChainForkResponse × Registry
fork_chain hash fresh p id payload key g = with_key key g (
    fork_previewed p
      (λ preview. record { scope = scope_of p id "chain.fork" key; request_hash = hash payload })
      fresh (preview_fork_chain p id payload g))

unfoldable pub regenerate_run :
    (int_of : String → ℕ)
    → (hash : RunRegenerateRequest → String) → FreshFork
    → Principal
    → (run_id : String) → RunRegenerateRequest
    → (idempotency_key : String) → Registry
    → Outcome ChainForkResponse × Registry
regenerate_run int_of hash fresh p run_id payload key g = with_key key g (
    fork_previewed p
      (λ preview. record {
        scope = scope_of p preview.source_chain.id "run.regenerate" key;
        request_hash = hash payload;
      })
      fresh (preview_regenerate_run int_of p run_id payload g))
