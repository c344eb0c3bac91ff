-- ===== src/RunLoop/History.antt =====
-- A client that follows a streamed run by the strict history handler holds the run's messages.
use vai_gateway.Prelude.{
  ℕ, ◌-◌, ◌≡◌, ◌∙◌, refl, Bool, true, false, Option, none, some, List, [], ◌∷◌, ◌++◌, length,
  length-append, arith, Option-cases, inl, inr,
}
use vai_gateway.Types.{Message, ToolUse, MessageResponse}
use vai_gateway.RunLoop.Accumulator.{StreamEvent, StreamAccumulator, apply, new_accumulator}
use vai_gateway.RunLoop.Model.{
  Controller, RunConfig, GoError, RunEvent, history_delta, stream_event, tool_call_start,
  tool_result_event, step_start, step_complete, run_start, run_error, State, Outcome, Next,
  StopReason, RunStep, Answer, refused, opened, assistant, Ending, eof, idle_timeout, broken,
  Result, ok, err, Keeps, RunResult,
}
use vai_gateway.RunLoop.{
  close_turn, spoken, run_tools, choose, settle, fail_turn, answered, started, take_turn, limits,
  unless_stopped, pass, announced, run_streamed, loop_induction, run_stream, initial,
}
use vai_gateway.RunLoop.Client.{handle_strict, follow, follow-append, IsSilent, handle_delta}
use vai_gateway.RunLoop.Tools.{
  emit, emit_, stream_events, stream_answer, model_turn, run_one, execute_tools,
}

module _ (c : Controller) (sink : List RunEvent → RunEvent → Option GoError)
    (streamed : c.emit ≡ some sink) (start : List Message) where
  -- The client that has seen this log holds this history.
  abbrev Tracks : List RunEvent → List Message → Type 0
  Tracks log h = follow start log ≡ some h

  emit_eq : (ev : RunEvent) (log : List RunEvent) → (emit c ev log).1 ≡ log ++ ev ∷ []
  unfolding emit
  emit_eq ev log = rw streamed

  Tracks-emit :
      (ev : RunEvent) (log : List RunEvent) (h : List Message)
      → IsSilent ev
      → Tracks log h
      → Tracks (emit c ev log).1 h
  unfolding handle_strict
  Tracks-emit (history_delta n added) log h quiet e = absurd quiet
  Tracks-emit ev log h quiet e = rw (emit_eq ev log) (follow-append start log ev h e)

  Tracks-emit_ :
      (ev : RunEvent) (log : List RunEvent) (h : List Message)
      → IsSilent ev
      → Tracks log h
      → Tracks (emit_ c ev log) h
  unfolding emit_
  Tracks-emit_ ev log h quiet e = Tracks-emit ev log h quiet e

  Tracks-delta :
      (log : List RunEvent) (h added : List Message)
      → Tracks log h
      → Tracks (emit_ c (history_delta (length h) added) log) (h ++ added)
  unfolding emit_
  Tracks-delta log h added e =
      rw (emit_eq (history_delta (length h) added) log)
        (follow-append start log _ h e ∙ handle_delta h added)

  Tracks-stream_events :
      (evs : List StreamEvent) (ending : Ending) (acc : StreamAccumulator) (log : List RunEvent)
      (h : List Message)
      → Tracks log h
      → Tracks (stream_events c evs ending acc log).1 h
  unfolding stream_events
  Tracks-stream_events [] eof acc log h e = e
  Tracks-stream_events [] idle_timeout acc log h e = e
  Tracks-stream_events [] (broken x) acc log h e = e
  Tracks-stream_events (ev ∷ evs) ending acc log h e =
      let sent = Tracks-emit (stream_event ev) log h tt e in
      elim (Option-cases (emit c (stream_event ev) log).0) [
        | inl went ↦
            rw (went, stream_events)
              (Tracks-stream_events evs ending (apply c.parse_object acc ev) _ h sent)
        | inr (x, failed) ↦ rw (failed, stream_events) sent
      ]

  Tracks-execute_tools :
      (i : ℕ) (uses : List ToolUse) (log : List RunEvent) (h : List Message)
      → Tracks log h
      → Tracks (execute_tools c i uses log).1 h
  unfolding execute_tools
  Tracks-execute_tools i [] log h e = e
  Tracks-execute_tools i (tu ∷ uses) log h e = Tracks-execute_tools i uses _ h (
      Tracks-emit_ (tool_result_event tu (run_one c i tu)) _ h tt
        (Tracks-emit_ (tool_call_start tu) log h tt e))

  Tracks-stream_answer :
      (answer : Answer) (log : List RunEvent) (h : List Message)
      → Tracks log h
      → Tracks (stream_answer c answer log).1 h
  unfolding stream_answer
  Tracks-stream_answer (refused x) log h e = e
  Tracks-stream_answer (opened evs ending) log h e =
      Tracks-stream_events evs ending new_accumulator log h e

  Tracks-model_turn :
      (i : ℕ) (history : List Message) (log : List RunEvent) (h : List Message)
      → Tracks log h
      → Tracks (model_turn c i history log).1 h
  unfolding model_turn
  Tracks-model_turn i history log h e =
      rw (streamed, model_turn)
        (Tracks-stream_answer (c.stream_message i (c.planner_messages history)) log h e)

  -- The answer of a turn that ends the run is one more message.
  Tracks-answer :
      (log : List RunEvent) (h : List Message) (m : Message)
      → Tracks log h
      → Tracks (emit_ c (history_delta (length (h ++ m ∷ []) - 1) (m ∷ [])) log) (h ++ m ∷ [])
  Tracks-answer log h m e =
      let same : length (h ++ m ∷ []) - 1 ≡ length h = omega (arith, length-append h (m ∷ [])) in
      rw same (Tracks-delta log h (m ∷ []) e)

  abbrev Followed : State → Type 0
  Followed s = Tracks s.log s.history

  -- A result that is returned holds the messages of the client.
  abbrev Delivered : Outcome → Type 0
  Delivered o = elim o.result [ none ↦ Unit {0} | some r ↦ Tracks o.log r.messages ]

  module _ (cfg : RunConfig) where
    abbrev Follows : Next → Type 0
    Follows = Keeps Followed Delivered

    Follows-close_turn :
        (reason : StopReason) (step : RunStep) (resp : MessageResponse) (s : State)
        → Followed s
        → Follows (close_turn c cfg reason step resp s)
    unfolding close_turn
    Follows-close_turn reason step resp s e = record {
      at = Tracks-emit_ _ _ _ tt (
          Tracks-answer _ s.history (assistant resp.content)
            (Tracks-emit_ (step_complete s.step_index resp) s.log s.history tt e));
    }

    Follows-spoken :
        (exceeded : Bool) (elapsed : ℕ) (s : State) (r : Result MessageResponse)
        → Followed s
        → Follows (spoken c cfg exceeded elapsed s r)
    unfolding spoken
    Follows-spoken exceeded elapsed s (ok resp) e = Follows-close_turn _ _ resp s e
    Follows-spoken exceeded elapsed s (err x) e = record {
      at = Tracks-emit_ (run_error x) s.log s.history tt e;
    }

    Follows-run_tools :
        (uses : List ToolUse) (elapsed : ℕ) (resp : MessageResponse) (s : State)
        → Followed s
        → Follows (run_tools c cfg uses elapsed resp s)
    unfolding run_tools
    Follows-run_tools uses elapsed resp s e = record {
      at = Tracks-delta _ s.history _ (
          Tracks-emit_ (step_complete s.step_index resp) _ s.history tt
            (Tracks-execute_tools s.step_index uses s.log s.history e));
    }

    Follows-choose :
        (last exceeded too_many : Bool) (uses : List ToolUse) (elapsed : ℕ) (resp : MessageResponse)
        (s : State)
        → Followed s
        → Follows (choose c cfg last exceeded too_many uses elapsed resp s)
    unfolding choose
    Follows-choose true exceeded too_many uses elapsed resp s e = Follows-spoken _ _ s _ e
    Follows-choose false true too_many uses elapsed resp s e = Follows-close_turn _ _ resp s e
    Follows-choose false false true uses elapsed resp s e = Follows-close_turn _ _ resp s e
    Follows-choose false false false uses elapsed resp s e = Follows-run_tools uses elapsed resp s e

    Follows-fail_turn :
        (reason : Option StopReason) (x : GoError) (s : State)
        → Followed s
        → Follows (fail_turn c cfg reason x s)
    unfolding fail_turn
    Follows-fail_turn (some reason) x s e = record { at = e }
    Follows-fail_turn none x s e = record { at = Tracks-emit_ (run_error x) s.log s.history tt e }

    Follows-answered :
        (s : State) (r : Result MessageResponse) → Followed s → Follows (answered c cfg s r)
    unfolding answered settle
    Follows-answered s (ok resp) e = Follows-choose _ _ _ _ _ _ _ e
    Follows-answered s (err x) e = Follows-fail_turn _ x s e

    Follows-started :
        (s : State) (failed : Option GoError) → Followed s → Follows (started c cfg s failed)
    unfolding started
    Follows-started s (some x) e = record { at = tt }
    Follows-started s none e =
        Follows-answered _ _ (Tracks-model_turn s.step_index s.history s.log s.history e)

    Follows-limits :
        (turns tokens : Bool) (s : State) → Followed s → Follows (limits c cfg turns tokens s)
    unfolding limits take_turn
    Follows-limits true tokens s e = record { at = Tracks-emit_ _ s.log s.history tt e }
    Follows-limits false true s e = record { at = Tracks-emit_ _ s.log s.history tt e }
    Follows-limits false false s e =
        Follows-started _ _ (Tracks-emit (step_start s.step_index) s.log s.history tt e)

    Follows-unless_stopped :
        (s : State) (over : Option (StopReason × GoError))
        → Followed s
        → Follows (unless_stopped c cfg s over)
    unfolding unless_stopped
    Follows-unless_stopped s (some (reason, x)) e = record { at = e }
    Follows-unless_stopped s none e = Follows-limits _ _ s e

    Follows-pass : (s : State) → Followed s → Follows (pass c cfg s)
    unfolding pass
    Follows-pass s e = Follows-unless_stopped s _ e

    Delivered-announced :
        (fuel : ℕ) (log : List RunEvent) (failed : Option GoError) (o : Outcome)
        → Tracks log start
        → announced c cfg fuel start log failed ≡ some o
        → Delivered o
    unfolding announced
    Delivered-announced fuel log (some x) o e ran = ground arith
    Delivered-announced fuel log none o e ran =
        loop_induction c cfg Follows-pass fuel (initial start log) o e ran

    Delivered-result :
        (o : Outcome) (r : RunResult) → Delivered o → o.result ≡ some r → Tracks o.log r.messages
    Delivered-result o r d e = ground arith

    Delivered-streamed :
        (fuel : ℕ) (to : Option (List RunEvent → RunEvent → Option GoError)) (o : Outcome)
        → run_streamed c cfg fuel start to ≡ some o
        → Delivered o
    unfolding run_streamed follow
    Delivered-streamed fuel none o ran = ground arith
    Delivered-streamed fuel (some to) o ran =
        Delivered-announced fuel _ _ o
          (Tracks-emit (run_start c.request_id c.public_model) [] start tt refl) ran

    -- A client that applies the events of a streamed run to the request's messages, by the strict
    -- handler, never panics on a length and ends with the messages of the run's result, if the run
    -- returns a result, also beside an error.
    pub follow-run_stream :
        (fuel : ℕ) (o : Outcome) (r : RunResult)
        → run_stream c cfg fuel start ≡ some o
        → o.result ≡ some r
        → follow start o.log ≡ some r.messages
    unfolding run_stream
    follow-run_stream fuel o r ran e = Delivered-result o r (Delivered-streamed fuel c.emit o ran) e
