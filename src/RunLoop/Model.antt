-- ===== src/RunLoop/Model.antt =====
-- pkg/gateway/runloop/runloop.go and pkg/core/types/run.go: the state of the tool loop, its events,
-- and what the loop calls and does not implement.
use vai_gateway.Prelude.{
  ℕ, String, Bool, Option, some, none, List, [], ◌∷◌, ◌≡◌, refl, ◌⊎◌, inl, inr,
}
use vai_gateway.Types.{
  Json, ContentBlock, tool_result, of_list, blocks, Message, ToolUse, MessageResponse, TypesError,
}
use vai_gateway.Types.Usage
use vai_gateway.RunLoop.Accumulator.{StreamEvent}

-- Limits of 0 or less are off; a negative number is 0 here.
pub record RunConfig : Type 0 where
  pub max_turns : ℕ
  pub max_tool_calls : ℕ
  pub max_tokens : ℕ

pub data ContextError : Type 0 where
  canceled deadline_exceeded : ContextError

-- A Go error: one that `errors.Is` finds a context's error in, or another.
pub data GoError : Type 0 where
  context_error : ContextError → GoError
  failure : String → GoError

pub data StopReason : Type 0 where
  unset end_turn max_tool_calls max_turns max_tokens timeout cancelled error : StopReason

pub record RunToolResult : Type 0 where
  pub tool_use_id : String
  pub content : List ContentBlock
  pub is_error : Bool
  pub error_info : Option TypesError

pub record RunStep : Type 0 where
  pub index : ℕ
  pub response : MessageResponse
  pub tool_calls : List ToolUse
  pub tool_results : List RunToolResult
  pub duration_ms : ℕ

pub record RunResult : Type 0 where
  pub response : Option MessageResponse
  pub steps : List RunStep
  pub tool_call_count : ℕ
  pub turn_count : ℕ
  pub usage : Usage.Usage
  pub stop_reason : StopReason
  pub messages : List Message

pub data RunEvent : Type 0 where
  run_start : String → String → RunEvent
  step_start : ℕ → RunEvent
  stream_event : StreamEvent → RunEvent
  tool_call_start : ToolUse → RunEvent
  tool_result_event : ToolUse → RunToolResult → RunEvent
  step_complete : ℕ → MessageResponse → RunEvent
  history_delta : ℕ → List Message → RunEvent
  run_complete : RunResult → RunEvent
  run_error : GoError → RunEvent

-- How a provider's stream ends: by io.EOF, by an error, by the context or by the idle timer.
pub data Ending : Type 0 where
  eof idle_timeout : Ending
  broken : GoError → Ending

pub data Result {ℓ} (A : Type ℓ) : Type ℓ where
  ok : A → Result A
  err : GoError → Result A

pub data Answer : Type 0 where
  refused : GoError → Answer
  opened : List StreamEvent → Ending → Answer

-- What the loop calls and does not implement. The number is the step's. `emit` is nil in a blocking
-- run; otherwise it is a sink that sees the events before this one and this one, and may fail.
pub record Controller : Type 0 where
  pub create_message : ℕ → List Message → Result MessageResponse
  pub stream_message : ℕ → List Message → Answer
  pub execute : ℕ → ToolUse → List ContentBlock × Option TypesError
  pub finalize_image : List Message → List ContentBlock → List ContentBlock
  pub planner_messages : List Message → List Message
  pub context_err : ℕ → Option ContextError
  pub duration : ℕ → ℕ
  pub parse_object : String → Option Json
  -- The addition of float64, on their bits.
  pub add_float : Usage.Float64 → Usage.Float64 → Usage.Float64
  -- `none` if the request asks for no voice output; else AppendVoiceOutputToMessageResponse.
  pub append_voice : Option (MessageResponse → Result MessageResponse)
  pub user_transcript : String
  pub request_id : String
  pub public_model : String
  pub emit : Option (List RunEvent → RunEvent → Option GoError)

pub record State : Type 0 where
  pub history : List Message
  pub result : RunResult
  pub step_index : ℕ
  pub log : List RunEvent

pub record Outcome : Type 0 where
  pub result : Option RunResult
  pub error : Option GoError
  pub log : List RunEvent

pub data Next : Type 0 where
  return : Outcome → Next
  continue : State → Next

unfoldable pub stop_reason_from_context : GoError → Option StopReason
stop_reason_from_context (context_error canceled) = some cancelled
stop_reason_from_context (context_error deadline_exceeded) = some timeout
stop_reason_from_context (failure m) = none

abbrev pub assistant : List ContentBlock → Message
assistant c = record { role = "assistant"; content = blocks c }

unfoldable pub result_blocks : List RunToolResult → List ContentBlock
result_blocks [] = []
result_blocks (r ∷ rs) = tool_result r.tool_use_id (of_list r.content) r.is_error ∷ result_blocks rs

unfoldable pub tool_message : List RunToolResult → Message
unfolding result_blocks
tool_message rs = record { role = "user"; content = blocks (result_blocks rs) }

pub Result-cases {ℓ} :
    {A : Type ℓ} (r : Result A) → ((a : A) × (r ≡ ok a)) ⊎ ((e : GoError) × (r ≡ err e))
Result-cases (ok a) = inl (a, refl)
Result-cases (err e) = inr (e, refl)

-- `Q` of the outcome that a pass returns, or `P` of the state that it goes on from.
abbrev pub KeepsAt : (State → Type 0) → (Outcome → Type 0) → Next → Type 0
KeepsAt P Q (return o) = Q o
KeepsAt P Q (continue t) = P t

pub record Keeps (P : State → Type 0) (Q : Outcome → Type 0) (n : Next) : Type 0 where
  pub at : KeepsAt P Q n
