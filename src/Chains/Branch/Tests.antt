-- ===== src/Chains/Branch/Tests.antt =====
-- A fork of a chain with a completed run, and the regeneration of this run.
use vai_gateway.Prelude.{
  ℕ, ◌≡◌, refl, String, none, some, [], ◌∷◌, ◌==◌, texts_comparable, numbers_comparable, arith,
  if◌then◌else◌,
}
use vai_gateway.Prelude.Assoc.{lookup}
use vai_gateway.Prelude.Text.{trim_space, is_blank, trim_left, trim_right, is_space, is_empty_text}
use vai_gateway.Types.{fields_of, json_at, field_at, number, object, field, end, str, Message}
use vai_gateway.Types.Usage.{zero_usage}
use vai_gateway.Chains.Model.{Principal, ChainRecord, HotChain, idle, no_defaults, run_completed}
use vai_gateway.Chains.Access.{done, authorize_chain_mutation, authorize_org_access}
use vai_gateway.Chains.Defaults.{merge_defaults}
use vai_gateway.Chains.MemoryStore.Records.{
  ChainMessageRecord, ChainRunRecord, MemoryStore, new_memory_store,
}
use vai_gateway.Chains.MemoryStore.{get_idempotency, get_run, list_chain_messages, listed}
use vai_gateway.Chains.Branch.{
  ChainForkResponse, FreshFork, ForkCall, forked_record, response_to, scope_of, fork_chain,
  with_key, fork_previewed, fork_once, regenerate_run,
}
use vai_gateway.Chains.Branch.Loading.{Registry, require_chain}
use vai_gateway.Chains.Branch.Preview.{
  ForkPreview, ChainForkRequest, RunRegenerateRequest, fork_preview, preview_fork_chain,
  preview_found, value_or_messages, merge_metadata, preview_regenerate_run, preview_run_found,
  preview_run, preview_messages, regenerated, run_messages, before_run, is_of_run, input_count,
  run_input_message_count, count_of, messages_from_records, is_completed,
}
use vai_gateway.Chains.Branch.Created.{forked, create_forked_chain-forked}
use vai_gateway.Chains.Branch.Again.{fork_chain-again}
use vai_gateway.Chains.Branch.Cut.{Authorized}
use vai_gateway.Chains.Branch.Regenerated.{Forks, regenerate_run-Forks}

abbrev principal : Principal
principal = record { org_id = "org"; principal_id = "p"; principal_type = "key"; actor_id = "a" }

abbrev info : ChainRecord
info = record {
  id = "chain_1";
  org_id = "org";
  session_id = "";
  external_session_id = "";
  parent_chain_id = "";
  forked_from_run_id = "";
  created_by_principal_id = "p";
  created_by_principal_type = "key";
  actor_id = "a";
  status = idle;
  chain_version = 1;
  message_count_cached = 3;
  defaults = record no_defaults { model = "openai/m" };
  metadata = none;
  active_attachment = none;
  created_at = 1;
  updated_at = 1;
}

abbrev stored_message : (id run_id role text : String) → ℕ → ChainMessageRecord
stored_message id run_id role text n = record {
  id = id;
  chain_id = "chain_1";
  run_id = run_id;
  role = role;
  sequence_in_chain = n;
  content = str text;
  created_at = n;
}

abbrev message : (role text : String) → Message
message role text = record { role = role; content = str text }

abbrev chain : HotChain
chain = record {
  info = info;
  history = message "system" "be kind" ∷ message "user" "hello" ∷ message "assistant" "hi" ∷ [];
  replay = [];
  replay_bytes = 0;
  next_event_id = 0;
  org_id = "org";
  actor_id = "a";
  resume_token_hash = "token";
  writer = none;
  active_run = none;
}

abbrev finished_run : ChainRunRecord
finished_run = record {
  id = "run_1";
  org_id = "org";
  chain_id = "chain_1";
  session_id = "";
  rerun_of_run_id = "";
  idempotency_key = "key";
  provider = "openai";
  model = "openai/m";
  status = run_completed;
  stop_reason = "end_turn";
  tool_count = 0;
  duration_ms = 0;
  usage = zero_usage;
  effective_config = record no_defaults { model = "openai/m" };
  metadata =
      object (field "chain_runtime" (object (field "input_message_count" (number "1") end)) end);
  started_at = 2;
  completed_at = some 3;
}

abbrev store : MemoryStore
store = record new_memory_store {
  chains = ("chain_1", info) ∷ [];
  chain_history = ("chain_1", chain.history) ∷ [];
  chain_messages =
      (
        "chain_1",
        stored_message "m1" "" "system" "be kind" 1
            ∷ stored_message "m2" "run_1" "user" "hello" 2
            ∷ stored_message "m3" "run_1" "assistant" "hi" 3
            ∷ [],
      )
      ∷ [];
  runs = ("run_1", finished_run) ∷ [];
}

abbrev registry : Registry
registry = record { hot = ("chain_1", chain) ∷ []; store = store }

abbrev fresh : FreshFork
fresh = record {
  chain_id = "chain_2";
  idempotency_id = "idem_1";
  resume_token = "chain_rt_1";
  resume_token_hash = "hash_1";
  now = 9;
}

abbrev later : FreshFork
later = record fresh {
  chain_id = "chain_3";
  idempotency_id = "idem_2";
  resume_token = "chain_rt_2";
  now = 20;
}

abbrev payload : ChainForkRequest
payload = record {
  history = none;
  defaults = no_defaults;
  metadata = none;
  forked_from_run_id = "";
}

abbrev hash : ChainForkRequest → String
hash r = r.forked_from_run_id

abbrev call : ForkCall
call = record { scope = scope_of principal "chain_1" "chain.fork" "key"; request_hash = "" }

abbrev preview : ForkPreview
preview = record {
  source_chain = info;
  history = chain.history;
  input = [];
  defaults = info.defaults;
  metadata = none;
  forked_from_run_id = "";
}

abbrev answer : ChainForkResponse
answer = response_to (forked_record principal preview fresh) fresh.resume_token []

no_key : get_idempotency 9 (scope_of principal "chain_1" "chain.fork" "key") store ≡ none
unfolding get_idempotency lookup
no_key = refl

previewed : preview_fork_chain principal "chain_1" payload registry ≡ (done preview, registry)
unfolding preview_fork_chain preview_found require_chain lookup fork_preview
    authorize_chain_mutation authorize_org_access is_blank is_empty_text trim_space trim_right
    trim_left is_space value_or_messages merge_defaults merge_metadata
previewed = refl

forks :
    fork_chain hash fresh principal "chain_1" payload "key" registry
    ≡ (done answer, forked principal preview call fresh registry)
unfolding fork_chain with_key fork_previewed fork_once is_blank is_empty_text trim_space trim_right
    trim_left is_space
forks = rw (previewed, no_key) (create_forked_chain-forked principal preview call fresh registry)

fork_chain-again_example :
    fork_chain hash later principal "chain_1" payload "key"
      (forked principal preview call fresh registry)
    ≡ (done (record answer { resume_token = "" }), forked principal preview call fresh registry)
fork_chain-again_example =
    fork_chain-again hash fresh later principal "chain_1" payload "key" registry
      (forked principal preview call fresh registry) answer no_key forks refl refl (omega arith)

abbrev again_payload : RunRegenerateRequest
again_payload = record { defaults = no_defaults; metadata = none }

abbrev again_hash : RunRegenerateRequest → String
again_hash r = "hash"

abbrev to_number : String → ℕ
to_number text = if text == "1" then 1 else 0

abbrev again_preview : ForkPreview
again_preview = record {
  source_chain = info;
  history = message "system" "be kind" ∷ [];
  input = message "user" "hello" ∷ [];
  defaults = info.defaults;
  metadata = none;
  forked_from_run_id = "run_1";
}

abbrev again_call : ForkCall
again_call = record {
  scope = scope_of principal "chain_1" "run.regenerate" "key";
  request_hash = "hash";
}

abbrev again_answer : ChainForkResponse
again_answer =
    response_to (forked_record principal again_preview fresh) fresh.resume_token again_preview.input

no_keys :
    (chain_id : String)
    → get_idempotency 9 (scope_of principal chain_id "run.regenerate" "key") store ≡ none
unfolding get_idempotency lookup
no_keys chain_id = refl

again_previewed :
    preview_regenerate_run to_number principal "run_1" again_payload registry
    ≡ (done again_preview, registry)
unfolding preview_regenerate_run preview_run_found get_run lookup preview_found require_chain
    preview_run authorize_chain_mutation authorize_org_access is_blank is_empty_text trim_space
    trim_right trim_left is_space is_completed preview_messages list_chain_messages listed
    before_run count_of field_at fields_of input_count is_of_run json_at merge_metadata
    messages_from_records regenerated run_input_message_count run_messages merge_defaults
again_previewed = refl

again_forks :
    regenerate_run to_number again_hash fresh principal "run_1" again_payload "key" registry
    ≡ (done again_answer, forked principal again_preview again_call fresh registry)
unfolding regenerate_run with_key fork_previewed fork_once is_blank is_empty_text trim_space
    trim_right trim_left is_space
again_forks =
    rw (again_previewed, no_keys "chain_1")
      (create_forked_chain-forked principal again_preview again_call fresh registry)

regenerate_run-Forks_example :
    (run : ChainRunRecord) × (source : HotChain) × (g1 : Registry) × (preview : ForkPreview)
    × (get_run "run_1" store ≡ some run)
    × (require_chain run.chain_id registry ≡ some (source, g1))
    × Authorized principal run source store preview
    × Forks "chain_2" registry preview again_answer
        (forked principal again_preview again_call fresh registry)
regenerate_run-Forks_example =
    regenerate_run-Forks to_number again_hash fresh principal "run_1" again_payload "key" registry
      (forked principal again_preview again_call fresh registry) again_answer "chain_2" no_keys
      again_forks
