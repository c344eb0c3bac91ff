-- ===== src/RunLoop/Tests.antt =====
-- Runs of the tool loop on one request: a turn that asks for a tool, and a turn that ends.
use vai_gateway.Prelude.{
  ℕ, ◌≡◌, ◌==◌, ◌<>◌, refl, texts_comparable, String, false, Option, none, some, List, [], ◌∷◌,
  get_elem?, zero, suc, arith, ◌+◌,
}
use vai_gateway.Prelude.Assoc.{lookup, insert, remove}
use vai_gateway.Types.{Json, string, text, tool_use, str, Message, tool_uses, tool_use_of}
use vai_gateway.Types.Usage
use vai_gateway.Types.Usage.{Usage, zero_usage}
use vai_gateway.RunLoop.Accumulator.{
  text_delta, input_json_delta, StreamEvent, message_start, content_block_start,
  content_block_delta, content_block_stop, message_delta, message_stop, StreamAccumulator,
  zero_response, apply, apply_all, apply_delta, extend_at, extend_block, buffer_delta, buffered,
  apply_tool_input, apply_buffered, store_input, set_input, with_input, ensure_content_index,
  response_of, flush_inputs,
}
use vai_gateway.RunLoop.Model.{Controller, RunConfig, Outcome, RunResult, eof, opened, Answer, ok}
use vai_gateway.RunLoop.{
  run, run_stream, run_streamed, announced, loop, pass, unless_stopped, context_stop, limits,
  take_turn, started, answered, settle, choose, speak, spoken, close_turn, run_tools, plain_step,
  with_transcript, is_nil, initial_result,
}
use vai_gateway.RunLoop.Tools.{
  emit, emit_, deliver, model_turn, stream_answer, stream_events, execute_tools, run_one,
  tool_content, finalize,
}
use vai_gateway.RunLoop.Client.{follow}
use vai_gateway.RunLoop.History.{follow-run_stream}
use vai_gateway.RunLoop.Totality.{run_ends, run_stream_ends}
use vai_gateway.RunLoop.Limits.{EndsWithin}
use vai_gateway.RunLoop.Assembly.{apply_all-text, texts_added}
use vai_gateway.RunLoop.ToolInput.{apply-tool_use, jsons_added, json_added}

abbrev parse_any : String → Option Json
parse_any s = some (string s)

abbrev asking : List StreamEvent
asking =
    message_start zero_response
    ∷ content_block_start 0 (tool_use "tu_1" "vai_web_search" (string ""))
    ∷ content_block_delta 0 (input_json_delta "{}")
    ∷ content_block_stop 0
    ∷ message_delta "tool_use" zero_usage
    ∷ message_stop
    ∷ []

abbrev answering : List StreamEvent
answering =
    message_start zero_response
    ∷ content_block_start 0 (text "")
    ∷ content_block_delta 0 (text_delta "done")
    ∷ content_block_stop 0
    ∷ message_delta "end_turn" zero_usage
    ∷ []

abbrev streams : ℕ → Answer
streams zero = opened asking eof
streams (suc i) = opened answering eof

abbrev controller : Controller
controller = record {
  create_message = λ i h. ok zero_response;
  stream_message = λ i h. streams i;
  execute = λ i tu. (text "found" ∷ [], none);
  finalize_image = λ h bs. bs;
  planner_messages = λ h. h;
  context_err = λ i. none;
  duration = λ i. 5;
  parse_object = parse_any;
  add_float = λ a b. a + b;
  append_voice = none;
  user_transcript = "";
  request_id = "req_1";
  public_model = "m";
  emit = some (λ log ev. none);
}

abbrev config : RunConfig
config = record { max_turns = 3; max_tool_calls = 4; max_tokens = 0 }

abbrev question : List Message
question = record { role = "user"; content = str "?" } ∷ []

abbrev outcome_of : Option Outcome → Outcome
outcome_of none = record { result = none; error = none; log = [] }
outcome_of (some o) = o

abbrev result_of : Option RunResult → RunResult
result_of none = initial_result
result_of (some r) = r

abbrev streamed : Outcome
streamed = outcome_of (run_stream controller config 4 question)

returned : run_stream controller config 4 question ≡ some streamed
unfolding run_stream run_streamed announced loop pass unless_stopped context_stop limits take_turn
    started answered settle choose speak spoken close_turn run_tools plain_step with_transcript
    is_nil emit emit_ deliver model_turn stream_answer stream_events execute_tools run_one
    tool_content finalize apply apply_delta extend_at extend_block buffer_delta buffered
    apply_tool_input apply_buffered store_input set_input with_input ensure_content_index
    response_of flush_inputs lookup insert remove tool_uses tool_use_of
returned = refl

resulted : streamed.result ≡ some (result_of streamed.result)
unfolding run_stream run_streamed announced loop pass unless_stopped context_stop limits take_turn
    started answered settle choose speak spoken close_turn run_tools plain_step with_transcript
    is_nil emit emit_ deliver model_turn stream_answer stream_events execute_tools run_one
    tool_content finalize apply apply_delta extend_at extend_block buffer_delta buffered
    apply_tool_input apply_buffered store_input set_input with_input ensure_content_index
    response_of flush_inputs lookup insert remove tool_uses tool_use_of
resulted = refl

follow-run_stream_example : follow question streamed.log ≡ some (result_of streamed.result).messages
follow-run_stream_example =
    follow-run_stream controller (λ log ev. none) refl question config 4 streamed
      (result_of streamed.result) returned resulted

run_ends_example : (o : Outcome) × (run controller config 4 question ≡ some o) × EndsWithin config o
run_ends_example = run_ends controller config 4 question (omega arith) (omega arith)

run_stream_ends_example :
    (o : Outcome) × (run_stream controller config 4 question ≡ some o) × EndsWithin config o
run_stream_ends_example = run_stream_ends controller config 4 question (omega arith) (omega arith)

abbrev reading : StreamAccumulator
reading = record {
  response = zero_response;
  current_content = text "a" ∷ tool_use "tu_1" "vai_web_search" (string "") ∷ [];
  tool_input_buffers = [];
}

abbrev mixed : List StreamEvent
mixed =
    content_block_delta 0 (text_delta "b")
    ∷ content_block_delta 1 (input_json_delta "{")
    ∷ content_block_delta 0 (text_delta "c")
    ∷ content_block_delta 1 (input_json_delta "}")
    ∷ []

apply_all-text_example :
    get_elem? (apply_all parse_any reading mixed).current_content 0
    ≡ some (text ("a" <> texts_added 0 mixed))
apply_all-text_example =
    apply_all-text parse_any 0 reading mixed "a" (tt, (tt, (tt, (tt, tt)))) refl

fragments_not_empty : (jsons_added 1 mixed == "") ≡ false
unfolding jsons_added json_added
fragments_not_empty = refl

parsed_fragments : parse_any (jsons_added 1 mixed) ≡ some (string "{}")
unfolding jsons_added json_added
parsed_fragments = refl

no_fragment : buffered 1 reading.tool_input_buffers ≡ ""
unfolding buffered lookup
no_fragment = refl

apply-tool_use_example :
    get_elem?
      (apply parse_any (apply_all parse_any reading mixed) (content_block_stop 1)).current_content
      1
    ≡ some (tool_use "tu_1" "vai_web_search" (string "{}"))
apply-tool_use_example =
    apply-tool_use parse_any 1 "tu_1" "vai_web_search" (string "") reading mixed (string "{}")
      (tt, (tt, (tt, (tt, tt)))) refl no_fragment fragments_not_empty parsed_fragments

-- The usage of a turn with a cost, whose total was not reported.
abbrev unreported : Usage
unreported = record zero_usage { input_tokens = 7; output_tokens = 5; cost_usd = some 3 }

abbrev reported : Usage
reported = record zero_usage {
  input_tokens = 1;
  output_tokens = 2;
  total_tokens = 4;
  cache_read_tokens = some 1;
}

abbrev plus : ℕ → ℕ → ℕ
plus a b = a + b
