-- ===== src/RunLoop/Tools.antt =====
-- pkg/gateway/runloop/runloop.go: emission, a turn of the model (streamTurn, without its audio) and
-- the execution of tools (executeTools, one after another).
use vai_gateway.Prelude.{
  ℕ, String, true, false, Option, none, some, List, [], ◌∷◌, ◌++◌, ◌==◌, texts_comparable,
  if◌then◌else◌,
}
use vai_gateway.Types.{ContentBlock, text, Message, ToolUse, MessageResponse, TypesError}
use vai_gateway.RunLoop.Accumulator.{
  StreamEvent, StreamAccumulator, apply, new_accumulator, response_of,
}
use vai_gateway.RunLoop.Model.{
  Controller, GoError, failure, RunEvent, stream_event, tool_call_start, tool_result_event, Ending,
  eof, idle_timeout, broken, Answer, refused, opened, Result, ok, err, RunToolResult,
}

-- The server tool whose results are finished against the registry of images.
abbrev tool_image : String
tool_image = "vai_image"

module _ (c : Controller) where
  -- The event is handed to the sink, if there is one; the error is the sink's.
  unfoldable pub deliver :
      Option (List RunEvent → RunEvent → Option GoError)
      → RunEvent
      → List RunEvent
      → Option GoError × List RunEvent
  deliver none ev log = (none, log)
  deliver (some sink) ev log = (sink log ev, log ++ ev ∷ [])

  unfoldable pub emit : RunEvent → List RunEvent → Option GoError × List RunEvent
  unfolding deliver
  emit ev log = deliver c.emit ev log

  -- `_ = emit(ev)`
  unfoldable pub emit_ : RunEvent → List RunEvent → List RunEvent
  unfolding emit
  emit_ ev log = (emit ev log).1

  -- The loop of streamTurn over the provider's events; an error of the sink ends it.
  unfoldable pub stream_events :
      List StreamEvent
      → Ending
      → StreamAccumulator
      → List RunEvent
      → Result MessageResponse × List RunEvent
  stream_events [] eof acc log = (ok (response_of c.parse_object acc), log)
  stream_events [] idle_timeout acc log = (err (failure "upstream stream idle timeout"), log)
  stream_events [] (broken e) acc log = (err e, log)
  stream_events (ev ∷ evs) ending acc log =
      let (failed, log') = emit (stream_event ev) log in
      let rest = stream_events evs ending (apply c.parse_object acc ev) log' in
      elim failed [ none ↦ rest | some e ↦ (err e, log') ]

  unfoldable pub stream_answer : Answer → List RunEvent → Result MessageResponse × List RunEvent
  unfolding stream_events
  stream_answer (refused e) log = (err e, log)
  stream_answer (opened evs ending) log = stream_events evs ending new_accumulator log

  -- One turn of the model: CreateMessage in a blocking run, streamTurn in a streamed one.
  unfoldable pub model_turn :
      ℕ → List Message → List RunEvent → Result MessageResponse × List RunEvent
  unfolding stream_answer
  model_turn i history log =
      let planned = c.planner_messages history in
      elim c.emit [
        | none ↦ (c.create_message i planned, log)
        | some sink ↦ stream_answer (c.stream_message i planned) log
      ]

  -- A tool that fails with no content gets its error's message, and one that says nothing an empty
  -- text.
  unfoldable pub tool_content : List ContentBlock → Option TypesError → List ContentBlock
  tool_content [] none = text "" ∷ []
  tool_content [] (some e) =
      text (if e.message == "" then "tool execution failed" else e.message) ∷ []
  tool_content (b ∷ bs) e = b ∷ bs

  -- runOne
  unfoldable pub run_one : ℕ → ToolUse → RunToolResult
  unfolding tool_content
  run_one i tu =
      let (content, failed) = c.execute i tu in
      record {
        tool_use_id = tu.id;
        content = tool_content content failed;
        is_error = elim failed [ none ↦ false | some e ↦ true ];
        error_info = failed;
      }

  unfoldable pub execute_tools :
      ℕ → List ToolUse → List RunEvent → List RunToolResult × List RunEvent
  execute_tools i [] log = ([], log)
  execute_tools i (tu ∷ uses) log =
      let r = run_one i tu in
      let (rs, log') =
        execute_tools i uses (emit_ (tool_result_event tu r) (emit_ (tool_call_start tu) log)) in
      (r ∷ rs, log')

  -- The loop over the results that finishes those of the image tool.
  unfoldable pub finalize : List Message → List ToolUse → List RunToolResult → List RunToolResult
  finalize history (tu ∷ uses) (r ∷ rs) =
      (if tu.name == tool_image
        then record r { content = c.finalize_image history r.content }
        else r)
      ∷ finalize history uses rs
  finalize history _ rs = rs
