-- ===== src/Chains/Manager/Tests.antt =====
-- A chain with a run that a request has started, and one with none.
use vai_gateway.Prelude.{
  ℕ, ◌≡◌, ◌≢◌, refl, String, false, ◌⊎◌, Option, none, some, List, [], ◌∷◌, if◌then◌else◌,
}
use vai_gateway.Types.{Message, Json}
use vai_gateway.Chains.Model.{
  stateful_http, idle, closed, no_defaults, ChainError, ChainDefaults, Principal, ServerEvent,
  HotChain,
}
use vai_gateway.Prelude.Text.{is_space, is_empty_text, trim_left, trim_right, trim_space, is_blank}
use vai_gateway.Chains.Access.{done, authorize_org_access, authorize_actor, authorize_attach}
use vai_gateway.Chains.Access.Laws.{
  SameName, IsActor, authorize_org_access_iff, authorize_attach-done,
}
use vai_gateway.Chains.Defaults.{
  merge_defaults, top_k_field, setting, is_unset, copied, setting-merge_defaults,
}
use vai_gateway.Chains.Manager.{Environment, is_status}
use vai_gateway.Chains.Manager.Calls.{StoreCall, StoreLog}
use vai_gateway.Chains.Manager.Start.{RunStart, FreshRun}
use vai_gateway.Chains.Manager.Launch.{start_run}
use vai_gateway.Chains.Manager.Writer.{begin_action, act, Replaces, act-writer}
use vai_gateway.Chains.Manager.Runs.{ReplacesRun, act-active_run}
use vai_gateway.Chains.Manager.Atomic.{Started, start_run-Started}

abbrev principal : Principal
principal = record { org_id = "org"; principal_id = "p"; principal_type = "key"; actor_id = "a" }

abbrev chain : HotChain
chain = record {
  info = record {
    id = "chain_1";
    org_id = "org";
    session_id = "";
    external_session_id = "";
    parent_chain_id = "";
    forked_from_run_id = "";
    created_by_principal_id = "p";
    created_by_principal_type = "key";
    actor_id = "a";
    status = idle;
    chain_version = 1;
    message_count_cached = 0;
    defaults = record no_defaults { model = "openai/m" };
    metadata = none;
    active_attachment = none;
    created_at = 0;
    updated_at = 0;
  };
  history = [];
  replay = [];
  replay_bytes = 0;
  next_event_id = 3;
  org_id = "org";
  actor_id = "a";
  resume_token_hash = "token";
  writer = none;
  active_run = none;
}

abbrev env : List (String × String) → Environment
env keys = record {
  principal = principal;
  mode = stateful_http;
  protocol = "http";
  scope = record { provider_keys = keys; allowed_gateway_tools = [] };
  build_gateway_tools = none;
}

abbrev start : RunStart
start = record {
  input = [];
  overrides = no_defaults;
  metadata = Json.null;
  idempotency_key = "key";
  request_hash = "hash";
}

abbrev fresh : FreshRun
fresh = record {
  attachment_id = "attach_1";
  run_id = "run_1";
  idempotency_id = "idem_1";
  now = 7;
  listed_runs = some 0;
}

abbrev same : String → String
same s = s

abbrev no_event : List ℕ → Option ServerEvent
no_event bytes = none

abbrev capable : String → List Message → ChainDefaults → Option ChainError
capable model history defaults = none

-- A store that fails on its third call.
abbrev answer : List StoreCall → StoreCall → Option ChainError
answer (a ∷ b ∷ []) call = some (ChainError.other "failed")
answer _ call = none

abbrev log : StoreLog
log = record { answer = answer; made = [] }

abbrev keys : List (String × String)
keys = ("openai", "k") ∷ []

act-writer_example :
    ((act same no_event same capable (begin_action (env keys) start fresh) chain).writer ≡ none)
    ⊎ Replaces same no_event same capable
        (begin_action (env keys) start fresh)
        chain
        (act same no_event same capable (begin_action (env keys) start fresh) chain).writer
act-writer_example =
    act-writer same no_event same capable (begin_action (env keys) start fresh) chain

act-active_run_example :
    ((act same no_event same capable (begin_action (env keys) start fresh) chain).active_run ≡ none)
    ⊎ ReplacesRun
        (begin_action (env keys) start fresh)
        chain
        (act same no_event same capable (begin_action (env keys) start fresh) chain).active_run
act-active_run_example =
    act-active_run same no_event same capable (begin_action (env keys) start fresh) chain

start_run-Started_example :
    Started start fresh none chain
      (start_run same capable (env keys) start fresh none chain log).0
      (start_run same capable (env keys) start fresh none chain log).1
start_run-Started_example = start_run-Started same capable (env keys) start fresh none chain log

not_closed : is_status idle closed ≡ false
unfolding is_status
not_closed = refl

authorize_org_access_iff_example :
    (authorize_org_access " org" "org " ≡ none → SameName "org " " org")
    × (SameName "org " " org" → authorize_org_access " org" "org " ≡ none)
authorize_org_access_iff_example = authorize_org_access_iff " org" "org "

granted : authorize_attach same chain principal "token" ≡ done "a"
unfolding authorize_attach is_blank is_empty_text trim_space trim_right trim_left is_space
    authorize_actor
granted = refl

authorize_attach-done_example :
    SameName "org" "org"
    × (same "token" ≡ chain.resume_token_hash)
    × (chain.resume_token_hash ≢ "")
    × IsActor chain principal "a"
authorize_attach-done_example = authorize_attach-done same chain principal "token" "a" granted

setting-merge_defaults_example :
    setting top_k_field
      (merge_defaults chain.info.defaults (record no_defaults { top_k = some Json.null }))
    ≡ (if is_unset top_k_field (setting top_k_field (record no_defaults { top_k = some Json.null }))
        then setting top_k_field chain.info.defaults
        else copied (setting top_k_field (record no_defaults { top_k = some Json.null })))
setting-merge_defaults_example =
    setting-merge_defaults top_k_field chain.info.defaults
      (record no_defaults { top_k = some Json.null })
