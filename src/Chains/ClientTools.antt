-- ===== src/Chains/ClientTools.antt =====
-- pkg/gateway/chains/executor.go: the tool calls that a run hands to its client, and their results.
-- `hash_payload` is payloadHash of a result's content and error flag, and `hash_text` that of a
-- text. The ids that the code adds to an error are left out.
pub mod WriteOnce
pub mod Waiting
pub mod Batch
mod Tests
use vai_gateway.Prelude.{
  ℕ, ◌+◌, String, Bool, true, false, ◌&&◌, not, Option, none, some, List, [], ◌∷◌, ◌++◌, ◌==◌,
  texts_comparable, if◌then◌else◌,
}
use vai_gateway.Prelude.Assoc.{Assoc, lookup, insert}
use vai_gateway.Types.{Json, ContentBlock, ToolUse}
use vai_gateway.RunLoop.Model.{ContextError, canceled, deadline_exceeded}
use vai_gateway.Chains.Model.{ChainError, canonical_error, tool_result_conflict}

-- EffectClass, which is always unknown, is left out.
pub record PendingExecution : Type 0 where
  pub execution_id : String
  pub name : String
  pub input : Json
  pub deadline_at : ℕ
  pub call_index : ℕ
  pub resolved : Bool
  pub content : List ContentBlock
  pub is_error : Bool
  pub payload_hash : String

pub record ClientToolResultFrame : Type 0 where
  pub run_id : String
  pub execution_id : String
  pub content : List ContentBlock
  pub is_error : Bool

-- normalizeToolResultContent
unfoldable pub normalize : List ContentBlock → List ContentBlock
normalize [] = ContentBlock.text "" ∷ []
normalize (b ∷ bs) = b ∷ bs

abbrev pub conflict : String → ChainError
conflict = canonical_error tool_result_conflict

abbrev pub waiting_execution : ToolUse → (deadline : ℕ) → (call_index : ℕ) → PendingExecution
waiting_execution use_ deadline i = record {
  execution_id = use_.id;
  name = use_.name;
  input = use_.input;
  deadline_at = deadline;
  call_index = i;
  resolved = false;
  content = [];
  is_error = false;
  payload_hash = "";
}

-- The loop of enqueueClientToolCalls from a call on.
unfoldable pub enqueue_from :
    (deadline i : ℕ) → List ToolUse → Assoc PendingExecution → Assoc PendingExecution
enqueue_from deadline i [] pending = pending
enqueue_from deadline i (u ∷ us) pending =
    enqueue_from deadline (i + 1) us (insert u.id (waiting_execution u deadline i) pending)

abbrev pub enqueue : (deadline : ℕ) → List ToolUse → Assoc PendingExecution → Assoc PendingExecution
enqueue deadline = enqueue_from deadline 0

unfoldable pub cause_message : ContextError → String
cause_message deadline_exceeded = "client tool execution timed out"
cause_message canceled = "client tool execution was cancelled"

unfoldable pub listed : Option PendingExecution → List PendingExecution → List PendingExecution
listed none out = out
listed (some x) out = x ∷ out

unfoldable pub is_resolved : Option PendingExecution → Bool
is_resolved none = false
is_resolved (some x) = x.resolved

-- A pass of waitForClientTools: the results, and whether all are there.
unfoldable pub look : List ToolUse → Assoc PendingExecution → Bool × List PendingExecution
look [] pending = (true, [])
look (u ∷ us) pending =
    let (rest, out) = look us pending in
    let found = lookup u.id pending in
    if is_resolved found then (rest, listed found out) else (false, out)

-- What the client and the clock do while the run waits.
pub data Wake : Type 0 where
  submitted : (active_run : Option String) → ClientToolResultFrame → Wake
  stopped : ContextError → Wake

pub record Waited : Type 0 where
  pub results : List PendingExecution
  pub cause : Option ContextError
  pub pending : Assoc PendingExecution

abbrev pub all_there : List ToolUse → Assoc PendingExecution → Waited
all_there uses pending = record { results = (look uses pending).1; cause = none; pending = pending }

module _ (hash_payload : List ContentBlock → Bool → String) (hash_text : String → String) where
  abbrev pub answered_by : ClientToolResultFrame → PendingExecution → PendingExecution
  answered_by frame x = record x {
    resolved = true;
    content = normalize frame.content;
    is_error = frame.is_error;
    payload_hash = hash_payload frame.content frame.is_error;
  }

  unfoldable pub resolve :
      ClientToolResultFrame
      → Assoc PendingExecution
      → Option PendingExecution
      → Option ChainError × Assoc PendingExecution
  resolve frame pending none = (some (conflict "tool execution is not pending"), pending)
  resolve frame pending (some x) =
      if x.resolved
      then (
        if x.payload_hash == hash_payload frame.content frame.is_error
            then none
            else some (conflict "tool result payload conflicts with the existing resolution"),
        pending,
      )
      else (none, insert frame.execution_id (answered_by frame x) pending)

  -- SubmitClientToolResult, for the id of the chain's active run.
  unfoldable pub submit :
      (active_run : Option String)
      → ClientToolResultFrame
      → Assoc PendingExecution
      → Option ChainError × Assoc PendingExecution
  submit none frame pending = (some (conflict "run is not waiting for this tool result"), pending)
  submit (some run_id) frame pending =
      if run_id == frame.run_id
      then resolve frame pending (lookup frame.execution_id pending)
      else (some (conflict "run is not waiting for this tool result"), pending)

  abbrev pub abandoned : ContextError → PendingExecution → PendingExecution
  abandoned cause x = record x {
    resolved = true;
    is_error = true;
    content = ContentBlock.text (cause_message cause) ∷ [];
    payload_hash = hash_text (cause_message cause);
  }

  unfoldable pub settled : ContextError → PendingExecution → PendingExecution
  settled cause x = if x.resolved then x else abandoned cause x

  unfoldable pub settle_one :
      ContextError
      → String
      → Assoc PendingExecution
      → Option PendingExecution
      → Assoc PendingExecution
  settle_one cause id pending none = pending
  settle_one cause id pending (some x) = insert id (settled cause x) pending

  -- timeoutPending
  unfoldable pub timeout_pending :
      ContextError
      → List ToolUse
      → Assoc PendingExecution
      → List PendingExecution × Assoc PendingExecution
  timeout_pending cause [] pending = ([], pending)
  timeout_pending cause (u ∷ us) pending =
      let pending' = settle_one cause u.id pending (lookup u.id pending) in
      let (out, pending'') = timeout_pending cause us pending' in
      (listed (lookup u.id pending') out, pending'')

  abbrev pub given_up : ContextError → List ToolUse → Assoc PendingExecution → Waited
  given_up cause uses pending =
      let (out, pending') = timeout_pending cause uses pending in
      record { results = out; cause = some cause; pending = pending' }

  -- waitForClientTools along a sequence of such steps; `none` if it still waits after the last.
  unfoldable pub wait : List ToolUse → List Wake → Assoc PendingExecution → Option Waited
  wait uses [] pending = if (look uses pending).0 then some (all_there uses pending) else none
  wait uses (submitted active_run frame ∷ wakes) pending =
      let rest = wait uses wakes (submit active_run frame pending).1 in
      if (look uses pending).0 then some (all_there uses pending) else rest
  wait uses (stopped cause ∷ wakes) pending =
      if (look uses pending).0
      then some (all_there uses pending)
      else some (given_up cause uses pending)
