-- ===== src/RunLoop/Totality.antt =====
-- A run with a limit on its turns ends, within its limits.
use vai_gateway.Prelude.{ℕ, zero, suc, ◌+◌, ◌<◌, ◌≡◌, refl, Option, none, some, List, [], arith}
use vai_gateway.Types.{Message}
use vai_gateway.RunLoop.Model.{
  Controller, RunConfig, GoError, RunEvent, State, Outcome, Next, return, continue, Keeps,
}
use vai_gateway.RunLoop.Limits.{Within, EndsWithin, Turned, Spends-pass, result_count}
use vai_gateway.RunLoop.{
  pass, loop, run, run_stream, run_streamed, announced, initial, initial_result,
}

module _ (c : Controller) (cfg : RunConfig) where
  -- A run that returns, and ends within its limits.
  abbrev Ends : Option Outcome → Type 0
  Ends r = (o : Outcome) × (r ≡ some o) × EndsWithin cfg o

  Ends-next :
      (n : ℕ) (next : Next) (rest : State → Option Outcome)
      → Keeps (Turned cfg n) (EndsWithin cfg) next
      → ((t : State) → Within cfg t.result → t.result.turn_count ≡ n + 1 → Ends (rest t))
      → Ends (elim next [ return o ↦ some o | continue t ↦ rest t ])
  Ends-next n (return o) rest k ih = (o, refl, k.at)
  Ends-next n (continue t) rest k ih = ih t k.at.0 k.at.1

  Ends-loop :
      (fuel : ℕ) (s : State)
      → 0 < cfg.max_turns
      → cfg.max_turns < fuel + s.result.turn_count
      → Within cfg s.result
      → Ends (loop c cfg fuel s)
  unfolding loop
  Ends-loop zero s on enough v = absurd (omega (arith, v.turns on))
  Ends-loop (suc fuel) s on enough v =
      Ends-next s.result.turn_count (pass c cfg s) (loop c cfg fuel) (Spends-pass cfg c s v)
        λ t w counted. Ends-loop fuel t on (omega (arith, counted)) w

  Within-initial : Within cfg initial_result
  unfolding result_count
  Within-initial = record {
    turns = λ on. omega arith;
    calls = λ on. omega arith;
    steps = omega arith;
    counted = refl;
  }

  -- With a limit on the turns, and fuel above it, a blocking run returns; if it returns a result,
  -- its turns and its tool calls are within the limits that are on, it has no more steps than
  -- turns, and it counts the tool results of its steps.
  pub run_ends :
      (fuel : ℕ) (messages : List Message)
      → 0 < cfg.max_turns
      → cfg.max_turns < fuel
      → (o : Outcome) × (run c cfg fuel messages ≡ some o) × EndsWithin cfg o
  unfolding run
  run_ends fuel messages on enough =
      Ends-loop fuel (initial messages []) on (omega arith) Within-initial

  Ends-announced :
      (fuel : ℕ) (messages : List Message) (log : List RunEvent) (failed : Option GoError)
      → 0 < cfg.max_turns
      → cfg.max_turns < fuel
      → Ends (announced c cfg fuel messages log failed)
  unfolding announced
  Ends-announced fuel messages log (some e) on enough = (_, refl, tt)
  Ends-announced fuel messages log none on enough =
      Ends-loop fuel (initial messages log) on (omega arith) Within-initial

  Ends-streamed :
      (fuel : ℕ) (messages : List Message)
      (emit : Option (List RunEvent → RunEvent → Option GoError))
      → 0 < cfg.max_turns
      → cfg.max_turns < fuel
      → Ends (run_streamed c cfg fuel messages emit)
  unfolding run_streamed
  Ends-streamed fuel messages none on enough = (_, refl, tt)
  Ends-streamed fuel messages (some sink) on enough = Ends-announced fuel messages _ _ on enough

  -- With a limit on the turns, and fuel above it, a streamed run returns, whatever its sink answers;
  -- if it returns a result, its turns and its tool calls are within the limits that are on, it has
  -- no more steps than turns, and it counts the tool results of its steps.
  pub run_stream_ends :
      (fuel : ℕ) (messages : List Message)
      → 0 < cfg.max_turns
      → cfg.max_turns < fuel
      → (o : Outcome) × (run_stream c cfg fuel messages ≡ some o) × EndsWithin cfg o
  unfolding run_stream
  run_stream_ends fuel messages on enough = Ends-streamed fuel messages c.emit on enough
