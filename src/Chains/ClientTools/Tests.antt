-- ===== src/Chains/ClientTools/Tests.antt =====
-- Two calls of a model turn: one of a gateway's tool and one of a client's.
use vai_gateway.Prelude.{
  ◌≡◌, refl, String, Bool, true, false, Option, none, some, List, [], ◌∷◌, ◌++◌, ◌==◌,
  texts_comparable,
}
use vai_gateway.Prelude.Assoc.{Assoc, lookup}
use vai_gateway.Types.{Json, ContentBlock, ToolUse, TypesError}
use vai_gateway.RunLoop.Model.{deadline_exceeded}
use vai_gateway.Chains.Model.{ChainError}
use vai_gateway.Chains.ClientTools.{
  PendingExecution, ClientToolResultFrame, waiting_execution, submit, Wake, submitted, stopped,
  Waited, wait, enqueue,
}
use vai_gateway.Chains.ClientTools.WriteOnce.{
  WritesOnce, submit-WritesOnce, steps, IsAnswered, steps-IsAnswered,
}
use vai_gateway.Chains.ClientTools.Waiting.{Matches, stops, wait-enqueue}
use vai_gateway.Chains.ClientTools.Batch.{
  Batch, resolve_batch, result_ids, gateway_ids, client_ids, resolve_batch-ids,
}

abbrev search_call : ToolUse
search_call = record { id = "call_1"; name = "search"; input = Json.null }

abbrev ask_call : ToolUse
ask_call = record { id = "call_2"; name = "ask"; input = Json.null }

abbrev calls : List ToolUse
calls = ask_call ∷ search_call ∷ []

abbrev is_gateway_tool : String → Bool
is_gateway_tool name = name == "search"

abbrev found_nothing : ToolUse → List ContentBlock × Option TypesError
found_nothing u = ([], none)

abbrev unchanged : List ContentBlock → List ContentBlock
unchanged content = content

abbrev no_error : ToolUse → Option ChainError
no_error u = none

abbrev hash_payload : List ContentBlock → Bool → String
hash_payload [] is_error = "empty"
hash_payload (b ∷ bs) is_error = "full"

abbrev hash_text : String → String
hash_text s = s

abbrev frame : ClientToolResultFrame
frame = record {
  run_id = "run_1";
  execution_id = "call_2";
  content = ContentBlock.text "yes" ∷ [];
  is_error = false;
}

abbrev waiting : Assoc PendingExecution
waiting = ("call_2", waiting_execution ask_call 9 0) ∷ []

submit-WritesOnce_example :
    WritesOnce hash_payload hash_text frame waiting
      (submit hash_payload hash_text (some "run_1") frame waiting)
submit-WritesOnce_example = submit-WritesOnce hash_payload hash_text frame waiting

abbrev answered_call : PendingExecution
answered_call = record (waiting_execution ask_call 9 0) { resolved = true; payload_hash = "empty" }

abbrev wakes : List Wake
wakes = submitted (some "run_1") frame ∷ stopped deadline_exceeded ∷ []

abbrev settled_calls : Assoc PendingExecution
settled_calls = ("call_2", answered_call) ∷ []

settled_call : lookup "call_2" settled_calls ≡ some answered_call
unfolding lookup
settled_call = refl

steps-IsAnswered_example :
    IsAnswered "call_2" answered_call (steps hash_payload hash_text calls wakes settled_calls)
steps-IsAnswered_example =
    steps-IsAnswered hash_payload hash_text calls wakes "call_2" answered_call settled_calls
      (settled_call, refl)

stop_comes : stops wakes ≡ true
unfolding stops
stop_comes = refl

wait-enqueue_example :
    (w : Waited) × (wait hash_payload hash_text calls wakes (enqueue 9 calls []) ≡ some w)
    × Matches calls w.results
wait-enqueue_example = wait-enqueue hash_payload hash_text 9 calls wakes [] stop_comes

all_announced : (u : ToolUse) → no_error u ≡ none
all_announced u = refl

resolve_batch-ids_example :
    (b : Batch) × (resolve_batch is_gateway_tool found_nothing unchanged no_error hash_payload
        hash_text true 9 calls wakes []
      ≡ some b)
    × (result_ids b.results ≡ gateway_ids is_gateway_tool calls ++ client_ids is_gateway_tool calls)
resolve_batch-ids_example =
    resolve_batch-ids is_gateway_tool found_nothing unchanged no_error hash_payload hash_text true 9
      calls wakes [] all_announced stop_comes
