-- ===== src/RunLoop/Limits.antt =====
-- The limits of a run: turns and tool calls stay within them, and the counters count.
use vai_gateway.Prelude.{
  ℕ, ◌+◌, ◌≤◌, ◌<◌, ◌≡◌, refl, Bool, true, false, ◌&&◌, Option, none, some, List, [], ◌∷◌, ◌++◌,
  ltb, leb, length, length-append, arith,
}
use vai_gateway.Types.{Message, ToolUse, MessageResponse}
use vai_gateway.Types.Usage
use vai_gateway.RunLoop.Model.{
  Controller, RunConfig, GoError, RunEvent, State, Outcome, Next, StopReason, RunStep, RunResult,
  RunToolResult, Result, ok, err, Keeps,
}
use vai_gateway.RunLoop.Tools.{execute_tools, finalize}
use vai_gateway.RunLoop.{
  close_turn, plain_step, spoken, run_tools, choose, settle, fail_turn, answered, started,
  take_turn, limits, unless_stopped, pass,
}

-- The tool results of some steps.
unfoldable pub result_count : List RunStep → ℕ
result_count [] = 0
result_count (s ∷ ss) = length s.tool_results + result_count ss

result_count-append :
    (xs : List RunStep) (s : RunStep)
    → result_count (xs ++ s ∷ []) ≡ result_count xs + length s.tool_results
unfolding result_count
result_count-append [] s = omega arith
result_count-append (x ∷ xs) s = omega (arith, result_count-append xs s)

module _ (c : Controller) where
  length-execute_tools :
      (i : ℕ) (uses : List ToolUse) (log : List RunEvent)
      → length (execute_tools c i uses log).0 ≡ length uses
  unfolding execute_tools
  length-execute_tools i [] log = refl
  length-execute_tools i (tu ∷ uses) log = omega (arith, length-execute_tools i uses _)

  length-finalize :
      (h : List Message) (uses : List ToolUse) (rs : List RunToolResult)
      → length (finalize c h uses rs) ≡ length rs
  unfolding finalize
  length-finalize h [] rs = refl
  length-finalize h (tu ∷ uses) [] = refl
  length-finalize h (tu ∷ uses) (r ∷ rs) = omega (arith, length-finalize h uses rs)

module _ (cfg : RunConfig) where
  -- A result within the limits that are on, whose counters count its steps.
  pub record Within (r : RunResult) : Type 0 where
    pub turns : 0 < cfg.max_turns → r.turn_count ≤ cfg.max_turns
    pub calls : 0 < cfg.max_tool_calls → r.tool_call_count ≤ cfg.max_tool_calls
    pub steps : length r.steps ≤ r.turn_count
    pub counted : r.tool_call_count ≡ result_count r.steps

  -- The state after a turn that follows `n` others.
  abbrev pub Turned : ℕ → State → Type 0
  Turned n s = Within s.result × (s.result.turn_count ≡ n + 1)

  abbrev pub EndsWithin : Outcome → Type 0
  EndsWithin o = elim o.result [ none ↦ Unit {0} | some r ↦ Within r ]

  -- A turn has been counted whose step is not yet among the steps.
  record Open (n : ℕ) (s : State) : Type 0 where
    within : Within s.result
    turn : s.result.turn_count ≡ n + 1
    pending : length s.result.steps + 1 ≤ s.result.turn_count

  module _ (c : Controller) (n : ℕ) where
    abbrev pub Spends : Next → Type 0
    Spends = Keeps (Turned n) EndsWithin

    Spends-close_turn :
        (reason : StopReason) (step : RunStep) (resp : MessageResponse) (s : State)
        → length step.tool_results ≡ 0
        → Open n s
        → Spends (close_turn c cfg reason step resp s)
    unfolding close_turn
    Spends-close_turn reason step resp s none_run v = record {
      at = record {
        turns = v.within.turns;
        calls = v.within.calls;
        steps = omega (arith, length-append s.result.steps (step ∷ []), v.pending);
        counted = omega (arith, result_count-append s.result.steps step, v.within.counted);
      };
    }

    Spends-spoken :
        (exceeded : Bool) (elapsed : ℕ) (s : State) (r : Result MessageResponse)
        → Open n s
        → Spends (spoken c cfg exceeded elapsed s r)
    unfolding spoken plain_step
    Spends-spoken exceeded elapsed s (ok resp) v = Spends-close_turn _ _ resp s refl v
    Spends-spoken exceeded elapsed s (err x) v = record {
      at = record {
        turns = v.within.turns;
        calls = v.within.calls;
        steps = v.within.steps;
        counted = v.within.counted;
      };
    }

    Spends-run_tools :
        (uses : List ToolUse) (elapsed : ℕ) (resp : MessageResponse) (s : State)
        → (0 < cfg.max_tool_calls → s.result.tool_call_count + length uses ≤ cfg.max_tool_calls)
        → Open n s
        → Spends (run_tools c cfg uses elapsed resp s)
    unfolding run_tools
    Spends-run_tools uses elapsed resp s room v = record {
      at = (
        record {
          turns = v.within.turns;
          calls = λ on. omega (arith, room on, length-execute_tools c s.step_index uses s.log);
          steps = omega (arith, length-append s.result.steps (_ ∷ []), v.pending);
          counted = rw result_count-append (
              omega (
                arith,
                v.within.counted,
                length-finalize c s.history uses (execute_tools c s.step_index uses s.log).0,
              ));
        },
        v.turn,
      );
    }

    Spends-choose :
        (last exceeded too_many : Bool) (uses : List ToolUse) (elapsed : ℕ) (resp : MessageResponse)
        (s : State)
        → too_many ≡ (
            ltb 0 cfg.max_tool_calls
            && ltb cfg.max_tool_calls (s.result.tool_call_count + length uses))
        → Open n s
        → Spends (choose c cfg last exceeded too_many uses elapsed resp s)
    unfolding choose plain_step
    Spends-choose true exceeded too_many uses elapsed resp s test v = Spends-spoken _ _ s _ v
    Spends-choose false true too_many uses elapsed resp s test v =
        Spends-close_turn _ _ resp s refl v
    Spends-choose false false true uses elapsed resp s test v = Spends-close_turn _ _ resp s refl v
    Spends-choose false false false uses elapsed resp s test v =
        Spends-run_tools uses elapsed resp s (λ on. ground arith) v

    -- Whatever the state, its result is within the limits when the run stops there.
    Spends-stopped :
        (r : StopReason) (x : Option GoError) (log : List RunEvent) (h : List Message) (s : State)
        → Within s.result
        → Spends (
            Next.return (record {
              result = some (record s.result { stop_reason = r; messages = h });
              error = x;
              log = log;
            }))
    Spends-stopped r x log h s v = record {
      at = record { turns = v.turns; calls = v.calls; steps = v.steps; counted = v.counted };
    }

    Spends-fail_turn :
        (reason : Option StopReason) (x : GoError) (s : State)
        → Within s.result
        → Spends (fail_turn c cfg reason x s)
    unfolding fail_turn
    Spends-fail_turn (some reason) x s v = Spends-stopped _ _ _ _ s v
    Spends-fail_turn none x s v = Spends-stopped _ _ _ _ s v

    -- Before a turn there is room for it.
    record Ready (s : State) : Type 0 where
      within : Within s.result
      turn : s.result.turn_count ≡ n
      room : 0 < cfg.max_turns → s.result.turn_count < cfg.max_turns

    Open-settled :
        (s : State) (u : Usage.Usage)
        → Ready s
        → Open n (record s {
          result = record s.result { usage = u; turn_count = s.result.turn_count + 1 };
        })
    Open-settled s u v = record {
      within = record {
        turns = λ on. omega (arith, v.room on);
        calls = v.within.calls;
        steps = omega (arith, v.within.steps);
        counted = v.within.counted;
      };
      turn = omega (arith, v.turn);
      pending = omega (arith, v.within.steps);
    }

    Spends-answered :
        (s : State) (r : Result MessageResponse) → Ready s → Spends (answered c cfg s r)
    unfolding answered settle
    Spends-answered s (ok resp) v = Spends-choose _ _ _ _ _ _ _ refl (Open-settled s _ v)
    Spends-answered s (err x) v = Spends-fail_turn _ x s v.within

    Spends-started :
        (s : State) (failed : Option GoError) → Ready s → Spends (started c cfg s failed)
    unfolding started
    Spends-started s (some x) v = record { at = tt }
    Spends-started s none v =
        Spends-answered _ _ (record { within = v.within; turn = v.turn; room = v.room })

    Spends-limits :
        (turns tokens : Bool) (s : State)
        → turns ≡ (ltb 0 cfg.max_turns && leb cfg.max_turns s.result.turn_count)
        → Within s.result
        → s.result.turn_count ≡ n
        → Spends (limits c cfg turns tokens s)
    unfolding limits take_turn
    Spends-limits true tokens s test v e = Spends-stopped _ _ _ _ s v
    Spends-limits false true s test v e = Spends-stopped _ _ _ _ s v
    Spends-limits false false s test v e =
        Spends-started _ _ (record { within = v; turn = e; room = λ on. ground arith })

    Spends-unless_stopped :
        (s : State) (over : Option (StopReason × GoError))
        → Within s.result
        → s.result.turn_count ≡ n
        → Spends (unless_stopped c cfg s over)
    unfolding unless_stopped
    Spends-unless_stopped s (some (reason, x)) v e = Spends-stopped _ _ _ _ s v
    Spends-unless_stopped s none v e = Spends-limits _ _ s refl v e

  module _ (c : Controller) where
    pub Spends-pass : (s : State) → Within s.result → Spends c s.result.turn_count (pass c cfg s)
    unfolding pass
    Spends-pass s v = Spends-unless_stopped c s.result.turn_count s _ v refl
