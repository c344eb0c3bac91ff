-- ===== src/Chains/Execution.antt =====
-- pkg/gateway/chains/executor.go: executeRun, a turn of the model in it (executeModelTurn) and the
-- end of a run's record (finish). The run's timeline, the replay buffer and the sink of the events
-- are left out: an event takes its id and is logged. A step reads the clock once.
pub mod Answers
pub mod Moves
pub mod Ends
pub mod Outcome
mod Tests
use vai_gateway.Prelude.{
  ℕ, suc, zero, ◌+◌, ◌-◌, ◌/◌, String, Bool, true, false, ◌||◌, not, Option, none, some, List, [],
  ◌∷◌, ◌++◌, map, length, ◌==◌, texts_comparable, if◌then◌else◌,
}
use vai_gateway.Prelude.Assoc.{Assoc}
use vai_gateway.Prelude.Text.{is_empty_text}
use vai_gateway.Types.{Json, ContentBlock, Message, ToolUse, MessageResponse, TypesError, tool_uses}
use vai_gateway.Types.Usage
use vai_gateway.RunLoop.Accumulator.{StreamEvent, apply_all, new_accumulator, response_of}
use vai_gateway.RunLoop.Model.{
  ContextError, GoError, context_error, failure, StopReason, unset, end_turn, max_tool_calls,
  max_turns, max_tokens, timeout, cancelled, error, RunResult, RunEvent, step_start, stream_event,
  tool_call_start, tool_result_event, step_complete, history_delta, run_complete, run_error,
  stop_reason_from_context, assistant, tool_message,
}
use vai_gateway.Chains.Model.{
  RunStatus, run_completed, run_cancelled, run_failed, run_timed_out, ChainStatus, idle, running,
  ChainError, ChainDefaults, ActiveRun, HotChain,
}
use vai_gateway.Chains.MemoryStore.Records.{ChainRunRecord}
use vai_gateway.Chains.Access.{CredentialScope, split_model, provider_key_for}
use vai_gateway.Chains.Manager.Calls.{StoreLog, call_, update_run_call}
use vai_gateway.Chains.Manager.Finish.{commit_history, end_run}
use vai_gateway.Chains.ClientTools.{PendingExecution, Wake}
use vai_gateway.Chains.ClientTools.Batch.{BatchError, Batch, stop_of, gateway_result, resolve_batch}

-- What a provider answers a request with: the events of its stream, and the error that ends it, if
-- it is not the end of the stream.
pub data Upstream : Type 0 where
  refused : GoError → Upstream
  opened : List StreamEvent → Option GoError → Upstream

-- What a run calls and does not implement, and what happens to it. A number is the index of a step.
pub record Runner : Type 0 where
  pub scope : CredentialScope
  pub effective : ChainDefaults
  pub to_lower : String → String
  -- env.NewProvider is set.
  pub has_providers : Bool
  -- NewProvider, and the stream for the request that is built out of the defaults and the history.
  pub open_stream : ℕ → (provider model key : String) → ChainDefaults → List Message → Upstream
  pub parse_object : String → Option Json
  pub context_ended : ℕ → Option ContextError
  pub now : ℕ → ℕ
  pub turn_ms : ℕ → ℕ
  -- The addition of float64, on their bits.
  pub add_float : Usage.Float64 → Usage.Float64 → Usage.Float64
  -- The registry of the gateway's tools.
  pub has_tool : String → Bool
  pub execute : ℕ → ToolUse → List ContentBlock × Option TypesError
  pub finish_images : List ContentBlock → List ContentBlock
  -- The client of the run.
  pub allow_client_tools : Bool
  pub announce : ToolUse → Option ChainError
  pub deadline : ℕ → ℕ
  pub wakes : ℕ → List Wake
  pub hash_payload : List ContentBlock → Bool → String
  pub hash_text : String → String

pub data RunFailure : Type 0 where
  stopped_by : ContextError → RunFailure
  turn_error : GoError → RunFailure
  tool_error : BatchError → RunFailure

-- The variables of executeRun, with the chain, the calls of the store and the run's events.
pub record Progress : Type 0 where
  pub chain : HotChain
  pub calls : StoreLog
  pub events : List RunEvent
  pub pending : Assoc PendingExecution
  pub history : List Message
  pub result : RunResult
  pub run : ChainRunRecord
  pub step_index : ℕ

pub data Pass : Type 0 where
  on : Progress → Pass
  over : Progress → Option RunFailure → Pass

unfoldable pub to_run_status : StopReason → Option RunFailure → RunStatus
to_run_status end_turn e = run_completed
to_run_status cancelled e = run_cancelled
to_run_status timeout e = run_timed_out
to_run_status _ (some e) = run_failed
to_run_status _ none = run_completed

unfoldable pub stop_text : StopReason → String
stop_text unset = ""
stop_text end_turn = "end_turn"
stop_text max_tool_calls = "max_tool_calls"
stop_text max_turns = "max_turns"
stop_text max_tokens = "max_tokens"
stop_text timeout = "timeout"
stop_text cancelled = "cancelled"
stop_text error = "error"

-- emitRunEvent
unfoldable pub log_event : RunEvent → Progress → Progress
log_event ev p = record p {
  events = p.events ++ ev ∷ [];
  chain = record p.chain { next_event_id = p.chain.next_event_id + 1 };
}

unfoldable pub log_events : List RunEvent → Progress → Progress
log_events [] p = p
log_events (ev ∷ evs) p = log_events evs (log_event ev p)

-- finish
unfoldable pub finish_run : StopReason → Option RunFailure → (now : ℕ) → Progress → Progress
finish_run stop e now p =
    let run = record p.run {
      status = to_run_status stop e;
      stop_reason = stop_text stop;
      usage = p.result.usage;
      tool_count = p.result.tool_call_count;
      duration_ms = (now - p.run.started_at) / 1000000;
      completed_at = some now;
    } in
    record p {
      result = record p.result { stop_reason = stop };
      run = run;
      calls = call_ (update_run_call run) p.calls;
    }

-- commitHistory, of the messages that the run's own history gets too.
unfoldable pub commit : ChainStatus → (now : ℕ) → List Message → Progress → Progress
commit status now messages p =
    let (c, calls) = commit_history p.run.id status messages now p.chain p.calls in
    record p { chain = c; calls = calls; history = p.history ++ messages }

-- What the stream of a turn amounts to: its response, or the content so far and an error.
pub data Turn : Type 0 where
  turned : MessageResponse → Turn
  turn_failed : (partial : List ContentBlock) → GoError → Turn

unfoldable pub turn_of : (String → Option Json) → Upstream → Turn
turn_of parse (refused e) = turn_failed [] e
turn_of parse (opened evs none) = turned (response_of parse (apply_all parse new_accumulator evs))
turn_of parse (opened evs (some e)) =
    turn_failed (response_of parse (apply_all parse new_accumulator evs)).content e

unfoldable pub turn_events : Upstream → List RunEvent
turn_events (refused e) = []
turn_events (opened evs e) = map stream_event evs

unfoldable pub open_with : Runner → ℕ → List Message → (provider model key : String) → Upstream
open_with r i history provider model key =
    if is_empty_text key
    then refused (failure "current credential scope does not allow the requested model")
    else r.open_stream i provider model key r.effective history

-- The part of executeModelTurn before the stream is read.
unfoldable pub upstream : Runner → ℕ → List Message → Upstream
upstream r i history = elim (split_model r.effective.model) [
  | none ↦ refused (failure "invalid model")
  | some (provider, model) ↦
      if r.has_providers
      then open_with r i history provider model (provider_key_for r.to_lower r.scope provider)
      else refused (failure "provider factory is not configured")
]

unfoldable pub stop_of_error : GoError → StopReason
stop_of_error e = elim (stop_reason_from_context e) [ none ↦ error | some stop ↦ stop ]

unfoldable pub fail_step : Runner → GoError → Progress → Pass
fail_step r e p =
    over
      (log_event (run_error e)
        (finish_run (stop_of_error e) (some (turn_error e)) (r.now p.step_index) p))
      (some (turn_error e))

unfoldable pub no_uses {ℓ} : {A : Type ℓ} → List A → Bool
no_uses [] = true
no_uses (x ∷ xs) = false

-- The counters after an answer of the model, and the step that it makes.
unfoldable pub count_turn :
    (plus : Usage.Float64 → Usage.Float64 → Usage.Float64) (turn_ms : ℕ)
    → MessageResponse
    → (uses : List ToolUse) → Batch
    → Progress
    → Progress
count_turn plus turn_ms resp uses b p = record p {
  pending = b.pending;
  result = record p.result {
    usage = Usage.add plus p.result.usage resp.usage;
    turn_count = p.result.turn_count + 1;
    tool_call_count = p.result.tool_call_count + length b.results;
    steps =
        p.result.steps
        ++ record {
          index = p.step_index;
          response = resp;
          tool_calls = uses;
          tool_results = b.results;
          duration_ms = turn_ms;
        }
          ∷ [];
  };
}

-- The messages and the response of the run's result.
unfoldable pub with_messages : MessageResponse → StopReason → Progress → Progress
with_messages resp stop p = record p {
  result = record p.result { response = some resp; stop_reason = stop; messages = p.history };
}

abbrev no_batch : Progress → Batch
no_batch p = record { results = []; stop_reason = unset; failure = none; pending = p.pending }

-- The commitment of an answer without tool calls, with which the run ends.
unfoldable pub with_answer : Runner → MessageResponse → Progress → Progress
with_answer r resp p =
    let now = r.now p.step_index in
    finish_run end_turn none now (
      with_messages resp end_turn (
        commit idle now (assistant resp.content ∷ [])
          (count_turn r.add_float (r.turn_ms p.step_index) resp [] (no_batch p) p)))

unfoldable pub end_with_answer : Runner → MessageResponse → Progress → Pass
end_with_answer r resp p =
    let done = with_answer r resp p in
    over
      (log_event (run_complete done.result) (
        log_event (history_delta (length done.history - 1) (assistant resp.content ∷ []))
          (log_event (step_complete p.step_index resp) done)))
      none

-- The events of the gateway's tools in a batch, and the ids that the client's calls take.
unfoldable pub tool_events : Runner → ℕ → List ToolUse → List RunEvent
tool_events r i [] = []
tool_events r i (u ∷ us) =
    let rest = tool_events r i us in
    if r.has_tool u.name
    then tool_call_start u
      ∷ tool_result_event u (
          gateway_result r.has_tool (r.execute i) r.finish_images r.announce r.hash_payload
            r.hash_text u (r.execute i u))
      ∷ rest
    else rest

unfoldable pub announced_ids : Runner → List ToolUse → ℕ
announced_ids r [] = 0
announced_ids r (u ∷ us) =
    let rest = announced_ids r us in
    if r.has_tool u.name then rest else elim (r.announce u) [ none ↦ rest + 1 | some e ↦ 1 ]

unfoldable pub take_ids : ℕ → Progress → Progress
take_ids n p = record p { chain = record p.chain { next_event_id = p.chain.next_event_id + n } }

unfoldable pub with_tool_events : Runner → List ToolUse → Progress → Progress
with_tool_events r uses p =
    take_ids (if r.allow_client_tools then announced_ids r uses else 0)
      (log_events (tool_events r p.step_index uses) p)

-- The run goes on after a batch without an error, and is over after one with an error.
unfoldable pub after_tools :
    Runner → MessageResponse → StopReason → Option BatchError → Progress → Pass
after_tools r resp stop none p = on (record p { step_index = p.step_index + 1 })
after_tools r resp stop (some e) p =
    let done =
      finish_run stop (some (tool_error e)) (r.now p.step_index) (with_messages resp stop p) in
    over (log_event (run_complete done.result) done) (some (tool_error e))

-- The commitment of an answer and of the results of its calls.
unfoldable pub with_results : Runner → MessageResponse → Batch → Progress → Progress
with_results r resp b p =
    commit running (r.now p.step_index) (assistant resp.content ∷ tool_message b.results ∷ [])
      (count_turn r.add_float (r.turn_ms p.step_index) resp (tool_uses resp.content) b p)

-- The same, with the events of the step's end.
unfoldable pub close_step : Runner → MessageResponse → Batch → Progress → Progress
close_step r resp b p =
    let done = with_results r resp b p in
    log_event
      (history_delta (length done.history - 2)
        (assistant resp.content ∷ tool_message b.results ∷ []))
      (log_event (step_complete p.step_index resp) done)

unfoldable pub with_batch : Runner → MessageResponse → Batch → Progress → Pass
with_batch r resp b p =
    after_tools r resp b.stop_reason b.failure
      (close_step r resp b (with_tool_events r (tool_uses resp.content) p))

-- `none` while the run waits for its client after the last of the step's wakes.
unfoldable pub use_tools : Runner → MessageResponse → Progress → Option Pass
use_tools r resp p =
    elim (resolve_batch r.has_tool (r.execute p.step_index) r.finish_images r.announce
      r.hash_payload r.hash_text r.allow_client_tools (r.deadline p.step_index)
      (tool_uses resp.content) (r.wakes p.step_index) p.pending) [
        | none ↦ none
        | some b ↦ some (with_batch r resp b p)
      ]

unfoldable pub after_turn : Runner → Progress → Turn → Option Pass
after_turn r p (turn_failed partial e) = some (fail_step r e p)
after_turn r p (turned resp) =
    if not (resp.stop_reason == "tool_use") || no_uses (tool_uses resp.content)
    then some (end_with_answer r resp p)
    else use_tools r resp p

unfoldable pub begin_step : Runner → Progress → Option Pass
begin_step r p =
    let up = upstream r p.step_index p.history in
    after_turn r (log_events (turn_events up) (log_event (step_start p.step_index) p))
      (turn_of r.parse_object up)

-- A pass of the loop.
unfoldable pub run_step : Runner → Progress → Option Pass
run_step r p = elim (r.context_ended p.step_index) [
  | some e ↦ some (
      over (finish_run (stop_of e) (some (stopped_by e)) (r.now p.step_index) p)
        (some (stopped_by e)))
  | none ↦ begin_step r p
]

unfoldable pub after_step :
    (Progress → Option (Progress × Option RunFailure))
    → Option Pass
    → Option (Progress × Option RunFailure)
after_step go_on none = none
after_step go_on (some (over p e)) = some (p, e)
after_step go_on (some (on p)) = go_on p

-- The loop, for at most so many passes.
unfoldable pub run_steps : ℕ → Runner → Progress → Option (Progress × Option RunFailure)
run_steps zero r p = none
run_steps (suc n) r p = after_step (run_steps n r) (run_step r p)

-- What executeRun defers, after the loop.
unfoldable pub close_run : ActiveRun → (now : ℕ) → Progress → Progress
close_run active now p =
    let (c, calls) = end_run active now p.chain p.calls in record p { chain = c; calls = calls }

-- The variables of executeRun at its start, on the chain whose history its argument is a copy of.
abbrev pub begin_progress : HotChain → StoreLog → ChainRunRecord → Progress
begin_progress c calls run = record {
  chain = c;
  calls = calls;
  events = [];
  pending = [];
  history = c.history;
  result = record {
    response = none;
    steps = [];
    tool_call_count = 0;
    turn_count = 0;
    usage = Usage.zero_usage;
    stop_reason = unset;
    messages = [];
  };
  run = run;
  step_index = 0;
}

unfoldable pub execute_run :
    ℕ
    → Runner
    → ActiveRun
    → (now : ℕ) → HotChain
    → StoreLog
    → ChainRunRecord
    → Option (Progress × Option RunFailure)
execute_run fuel r active now c calls run = elim (run_steps fuel r (begin_progress c calls run)) [
  | none ↦ none
  | some (done, e) ↦ some (close_run active now done, e)
]
