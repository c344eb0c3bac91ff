-- ===== src/RunLoop.antt =====
-- pkg/gateway/runloop/runloop.go: Controller.run, the server-side tool loop. What the provider, the
-- tools and the clock answer is given by step; `emit` hands an event to a sink, which may fail.
-- The request has passed the checks on entry and the transcription of its audio. The audio chunks
-- that a streamed run emits between its text events are left out, and tools run one after another.
pub mod Accumulator
pub mod Model
pub mod Tools
pub mod Client
pub mod History
pub mod Limits
pub mod Totality
pub mod Assembly
pub mod ToolInput
mod Tests
use mathlib.Core.Option
use vai_gateway.Prelude.{
  ℕ, zero, suc, ◌+◌, ◌-◌, ◌≡◌, subst, String, Bool, true, false, ◌&&◌, ◌||◌, not, Option, none,
  some, List, [], ◌∷◌, ◌++◌, ltb, leb, ◌==◌, length, texts_comparable, if◌then◌else◌,
}
use vai_gateway.Prelude.Assoc.{insert}
use vai_gateway.Types.{Json, string, Message, ToolUse, MessageResponse, tool_uses}
use vai_gateway.Types.Usage
use Model.{
  Controller, RunConfig, ContextError, GoError, context_error, StopReason, RunEvent, run_start,
  step_start, step_complete, history_delta, run_complete, run_error, RunStep, RunResult, State,
  Outcome, Next, return, continue, Result, ok, err, stop_reason_from_context, assistant,
  tool_message, Keeps,
}
use Tools.{emit, emit_, model_turn, execute_tools, finalize}

with_transcript : String → MessageResponse → MessageResponse
with_transcript t resp =
    if t == ""
    then resp
    else record resp { metadata = insert "user_transcript" (string t) resp.metadata }

is_nil : List ToolUse → Bool
is_nil [] = true
is_nil (u ∷ us) = false

-- ctx.Err() and the reason to stop that it gives.
context_stop : Option ContextError → Option (StopReason × GoError)
context_stop none = none
context_stop (some e) =
    Option.map (λ reason. (reason, context_error e)) (stop_reason_from_context (context_error e))

abbrev pub initial_result : RunResult
initial_result = record {
  response = none;
  steps = [];
  tool_call_count = 0;
  turn_count = 0;
  usage = Usage.zero_usage;
  stop_reason = StopReason.unset;
  messages = [];
}

abbrev pub initial : List Message → List RunEvent → State
initial messages log = record {
  history = messages;
  result = initial_result;
  step_index = 0;
  log = log;
}

-- The step of a turn that runs no tool.
plain_step : State → ℕ → MessageResponse → RunStep
plain_step s elapsed resp = record {
  index = s.step_index;
  response = resp;
  tool_calls = [];
  tool_results = [];
  duration_ms = elapsed;
}

module _ (c : Controller) (cfg : RunConfig) where
  -- The run stops before a turn, because a limit has been reached.
  limited : StopReason → State → Next
  limited reason s =
      let r = record s.result { stop_reason = reason; messages = s.history } in
      return (record { result = some r; error = none; log = emit_ c (run_complete r) s.log })

  -- The run stops after a turn, and the answer is the last message.
  close_turn : StopReason → RunStep → MessageResponse → State → Next
  close_turn reason step resp s =
      let history = s.history ++ assistant resp.content ∷ [] in
      let r = record s.result {
        response = some resp;
        steps = s.result.steps ++ step ∷ [];
        stop_reason = reason;
        messages = history;
      } in
      let delta = history_delta (length history - 1) (assistant resp.content ∷ []) in
      let log = emit_ c delta (emit_ c (step_complete s.step_index resp) s.log) in
      return (record { result = some r; error = none; log = emit_ c (run_complete r) log })

  stopped : StopReason → GoError → List RunEvent → State → Next
  stopped reason e log s = return (record {
    result = some (record s.result { stop_reason = reason; messages = s.history });
    error = some e;
    log = log;
  })

  -- The turn of the model has failed: an error event, unless the context ended it.
  fail_turn : Option StopReason → GoError → State → Next
  unfolding stopped
  fail_turn (some reason) e s = stopped reason e s.log s
  fail_turn none e s = stopped StopReason.error e (emit_ c (run_error e) s.log) s

  -- The turn's answer, after its voice output.
  spoken : Bool → ℕ → State → Result MessageResponse → Next
  unfolding stopped
  spoken exceeded elapsed s (ok resp) =
      close_turn (if exceeded then StopReason.max_tokens else StopReason.end_turn)
        (plain_step s elapsed resp) resp s
  spoken exceeded elapsed s (err e) = stopped StopReason.error e (emit_ c (run_error e) s.log) s

  speak :
      Option (MessageResponse → Result MessageResponse) → MessageResponse → Result MessageResponse
  speak none resp = ok resp
  speak (some append) resp = append resp

  -- The tools are run, and the answer and their results become two messages.
  run_tools : List ToolUse → ℕ → MessageResponse → State → Next
  run_tools uses elapsed resp s =
      let (ran, log) = execute_tools c s.step_index uses s.log in
      let results = finalize c s.history uses ran in
      let step : RunStep = record {
        index = s.step_index;
        response = resp;
        tool_calls = uses;
        tool_results = results;
        duration_ms = elapsed;
      } in
      let added = assistant resp.content ∷ tool_message results ∷ [] in
      let delta = history_delta (length s.history) added in
      continue (record {
        history = s.history ++ added;
        result = record s.result {
          steps = s.result.steps ++ step ∷ [];
          tool_call_count = s.result.tool_call_count + length ran;
        };
        step_index = s.step_index + 1;
        log = emit_ c delta (emit_ c (step_complete s.step_index resp) log);
      })

  -- The tests on an answer: it asks for no tool, the tokens are spent, there are too many calls.
  choose : (last exceeded too_many : Bool) → List ToolUse → ℕ → MessageResponse → State → Next
  unfolding speak
  choose true exceeded too_many uses elapsed resp s =
      spoken exceeded elapsed s (speak c.append_voice resp)
  choose false true too_many uses elapsed resp s =
      close_turn StopReason.max_tokens (plain_step s elapsed resp) resp s
  choose false false true uses elapsed resp s =
      close_turn StopReason.max_tool_calls (plain_step s elapsed resp) resp s
  choose false false false uses elapsed resp s = run_tools uses elapsed resp s

  -- The model has answered.
  settle : MessageResponse → State → Next
  settle answer s =
      let resp = with_transcript c.user_transcript answer in
      let usage = Usage.add c.add_float s.result.usage resp.usage in
      let uses = tool_uses resp.content in
      choose (not (resp.stop_reason == "tool_use") || is_nil uses)
        (ltb 0 cfg.max_tokens && leb cfg.max_tokens usage.total_tokens)
        (ltb 0 cfg.max_tool_calls
          && ltb cfg.max_tool_calls (s.result.tool_call_count + length uses))
        uses (c.duration s.step_index) resp
        (record s {
          result = record s.result { usage = usage; turn_count = s.result.turn_count + 1 };
        })

  answered : State → Result MessageResponse → Next
  answered s (ok resp) = settle resp s
  answered s (err e) = fail_turn (stop_reason_from_context e) e s

  -- The start of a step has been announced.
  started : State → Option GoError → Next
  started s (some e) = return (record { result = none; error = some e; log = s.log })
  started s none =
      let (answer, log) = model_turn c s.step_index s.history s.log in
      answered (record s { log = log }) answer

  take_turn : State → Next
  take_turn s =
      let (failed, log) = emit c (step_start s.step_index) s.log in
      started (record s { log = log }) failed

  limits : (turns tokens : Bool) → State → Next
  unfolding limited
  limits true tokens s = limited StopReason.max_turns s
  limits false true s = limited StopReason.max_tokens s
  limits false false s = take_turn s

  unless_stopped : State → Option (StopReason × GoError) → Next
  unfolding stopped
  unless_stopped s (some (reason, e)) = stopped reason e s.log s
  unless_stopped s none =
      limits (ltb 0 cfg.max_turns && leb cfg.max_turns s.result.turn_count)
        (ltb 0 cfg.max_tokens && leb cfg.max_tokens s.result.usage.total_tokens) s

  -- One pass of the loop.
  pub pass : State → Next
  pass s = unless_stopped s (context_stop (c.context_err s.step_index))

  -- The loop; `none` if the fuel runs out.
  pub loop : ℕ → State → Option Outcome
  loop zero s = none
  loop (suc fuel) s = elim (pass s) [ return o ↦ some o | continue t ↦ loop fuel t ]

  -- What every pass keeps of the state, or grants of the outcome, the loop grants in the end.
  module _ {P : State → Type 0} {Q : Outcome → Type 0} where
    resume_induction :
        (n : Next) (rest : State → Option Outcome) (o : Outcome)
        → Keeps P Q n
        → ((t : State) → P t → rest t ≡ some o → Q o)
        → (elim n [ return o' ↦ some o' | continue t ↦ rest t ]) ≡ some o
        → Q o
    resume_induction (return o') rest o k ih done = let same : o' ≡ o = cc in subst Q same k.at
    resume_induction (continue t) rest o k ih done = ih t k.at done

    pub loop_induction :
        ((s : State) → P s → Keeps P Q (pass s))
        → (fuel : ℕ) (s : State) (o : Outcome) → P s
        → loop fuel s ≡ some o
        → Q o
    unfolding loop
    loop_induction keeps zero s o h done = cc
    loop_induction keeps (suc fuel) s o h done =
        resume_induction (pass s) (loop fuel) o (keeps s h) (λ t. loop_induction keeps fuel t o)
          done

  -- RunBlocking: `emit` is nil.
  pub run : ℕ → List Message → Option Outcome
  run fuel messages = loop fuel (initial messages [])

  announced : ℕ → List Message → List RunEvent → Option GoError → Option Outcome
  announced fuel messages log (some e) = some (record { result = none; error = some e; log = log })
  announced fuel messages log none = loop fuel (initial messages log)

  run_streamed :
      ℕ → List Message → Option (List RunEvent → RunEvent → Option GoError) → Option Outcome
  unfolding announced
  run_streamed fuel messages none = some (record {
    result = none;
    error = some (GoError.failure "emit function is required");
    log = [];
  })
  run_streamed fuel messages (some sink) =
      let (failed, log) = emit c (run_start c.request_id c.public_model) [] in
      announced fuel messages log failed

  -- RunStream: the start event first, and nothing if it cannot be sent.
  pub run_stream : ℕ → List Message → Option Outcome
  run_stream fuel messages = run_streamed fuel messages c.emit
