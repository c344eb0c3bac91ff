-- ===== src/Chains/Execution/Tests.antt =====
-- A run on a chain: a turn that calls a tool of the client and one of the gateway, and an answer.
use vai_gateway.Prelude.{
  ℕ, suc, zero, ◌+◌, ◌≡◌, refl, true, false, Option, none, some, List, [], ◌∷◌, ◌++◌, ◌==◌,
  texts_comparable,
}
use vai_gateway.Types.{Json, text, tool_use, str, Message}
use vai_gateway.Types.Usage.{zero_usage}
use vai_gateway.RunLoop.Accumulator.{
  StreamEvent, message_start, content_block_start, message_delta, message_stop, zero_response,
}
use vai_gateway.RunLoop.Model.{ContextError, canceled}
use vai_gateway.RunLoop.Client.{follow}
use vai_gateway.Chains.Model.{running, run_running, no_defaults, ActiveRun, HotChain}
use vai_gateway.Chains.MemoryStore.Records.{ChainRunRecord}
use vai_gateway.Chains.Manager.Calls.{StoreLog}
use vai_gateway.Chains.ClientTools.{submitted, stopped, Wake}
use vai_gateway.Chains.ClientTools.Waiting.{stops}
use vai_gateway.Chains.Execution.{Runner, RunFailure, Progress, Upstream, opened, execute_run}
use vai_gateway.Chains.Execution.Answers.{Turns}
use vai_gateway.Chains.Execution.Outcome.{Told, execute_run-Told, execute_run-Turns}

abbrev question : Message
question = record { role = "user"; content = str "ask" }

abbrev active : ActiveRun
active = record { run_id = "run_1"; attachment_id = "attach_1"; ephemeral_writer = false }

abbrev chain : HotChain
chain = record {
  info = record {
    id = "chain_1";
    org_id = "org";
    session_id = "";
    external_session_id = "";
    parent_chain_id = "";
    forked_from_run_id = "";
    created_by_principal_id = "p";
    created_by_principal_type = "key";
    actor_id = "a";
    status = running;
    chain_version = 1;
    message_count_cached = 1;
    defaults = record no_defaults { model = "openai/m" };
    metadata = none;
    active_attachment = none;
    created_at = 0;
    updated_at = 0;
  };
  history = question ∷ [];
  replay = [];
  replay_bytes = 0;
  next_event_id = 3;
  org_id = "org";
  actor_id = "a";
  resume_token_hash = "token";
  writer = none;
  active_run = some active;
}

abbrev one_run : ChainRunRecord
one_run = record {
  id = "run_1";
  org_id = "org";
  chain_id = "chain_1";
  session_id = "";
  rerun_of_run_id = "";
  idempotency_key = "key";
  provider = "openai";
  model = "openai/m";
  status = run_running;
  stop_reason = "";
  tool_count = 0;
  duration_ms = 0;
  usage = zero_usage;
  effective_config = no_defaults;
  metadata = Json.null;
  started_at = 0;
  completed_at = none;
}

abbrev log : StoreLog
log = record { answer = λ made call. none; made = [] }

abbrev asking : List StreamEvent
asking =
    message_start zero_response
    ∷ content_block_start 0 (tool_use "call_1" "ask" Json.null)
    ∷ content_block_start 1 (tool_use "call_2" "search" Json.null)
    ∷ message_delta "tool_use" zero_usage
    ∷ message_stop
    ∷ []

abbrev answering : List StreamEvent
answering =
    message_start zero_response
    ∷ content_block_start 0 (text "done")
    ∷ message_delta "end_turn" zero_usage
    ∷ []

abbrev streams : ℕ → Upstream
streams zero = opened asking none
streams (suc i) = opened answering none

abbrev ended_by_two : ℕ → Option ContextError
ended_by_two zero = none
ended_by_two (suc zero) = none
ended_by_two (suc (suc i)) = some canceled

abbrev wakes : ℕ → List Wake
wakes i =
    submitted (some "run_1") (record {
      run_id = "run_1";
      execution_id = "call_1";
      content = text "yes" ∷ [];
      is_error = false;
    })
    ∷ stopped canceled
    ∷ []

abbrev runner : Runner
runner = record {
  scope = record { provider_keys = ("openai", "k") ∷ []; allowed_gateway_tools = [] };
  effective = record no_defaults { model = "openai/m" };
  to_lower = λ s. s;
  has_providers = true;
  open_stream = λ i provider model key defaults history. streams i;
  parse_object = λ s. none;
  context_ended = ended_by_two;
  now = λ i. i;
  turn_ms = λ i. 1;
  add_float = λ a b. a + b;
  has_tool = λ name. name == "search";
  execute = λ i u. (text "found" ∷ [], none);
  finish_images = λ content. content;
  allow_client_tools = true;
  announce = λ u. none;
  deadline = λ i. i + 9;
  wakes = wakes;
  hash_payload = λ content is_error. "hash";
  hash_text = λ s. s;
}

stops_always : (i : ℕ) → stops (wakes i) ≡ true
unfolding stops
stops_always i = refl

execute_run-Told_example :
    (q : Progress) × (f : Option RunFailure) × (execute_run 3 runner active 5 chain log one_run
      ≡ some (q, f))
    × (follow chain.history q.events ≡ some q.chain.history)
    × Told f q
execute_run-Told_example =
    execute_run-Told runner 2 canceled active 5 chain log one_run stops_always refl

execute_run-Turns_example :
    (q : Progress) × (f : Option RunFailure) × (added : List Message) × (execute_run 3 runner active
        5 chain log one_run
      ≡ some (q, f))
    × (q.chain.history ≡ chain.history ++ added)
    × Turns added
execute_run-Turns_example =
    execute_run-Turns runner 2 canceled active 5 chain log one_run (λ u. refl) stops_always refl
