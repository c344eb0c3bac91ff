-- ===== src/Chains/Branch/Preview.antt =====
-- What a fork of a chain and the regeneration of a run are going to make: PreviewForkChain and
-- PreviewRegenerateRun (manager_branch.go). `int_of` reads the text of a JSON number, 0 where the
-- number is negative.
use vai_gateway.Prelude.{
  ℕ, ◌+◌, String, Bool, ◌||◌, Option, none, some, List, [], ◌∷◌, map, length, take, ltb, ◌==◌,
  texts_comparable, numbers_comparable, if◌then◌else◌,
}
use vai_gateway.Prelude.Text.{trim_space}
use vai_gateway.Types.{fields_of, json_at, Json, number, object, Fields, field, end, Message}
use vai_gateway.Chains.Model.{
  ChainDefaults, ChainRecord, Principal, HotChain, RunStatus, run_completed, ChainError, not_found,
}
use vai_gateway.Chains.Access.{Outcome, done, denied, authorize_chain_mutation}
use vai_gateway.Chains.Defaults.{merge_defaults}
use vai_gateway.Chains.MemoryStore.Records.{ChainMessageRecord, ChainRunRecord, MemoryStore}
use vai_gateway.Chains.MemoryStore.{get_run, list_chain_messages}
use vai_gateway.Chains.Branch.Loading.{Registry, require_chain}

pub record ForkPreview : Type 0 where
  pub source_chain : ChainRecord
  pub history : List Message
  pub input : List Message
  pub defaults : ChainDefaults
  pub metadata : Option Json
  pub forked_from_run_id : String

pub record ChainForkRequest : Type 0 where
  pub history : Option (List Message)
  pub defaults : ChainDefaults
  pub metadata : Option Json
  pub forked_from_run_id : String

pub record RunRegenerateRequest : Type 0 where
  pub defaults : ChainDefaults
  pub metadata : Option Json

-- valueOrCloneMessages
unfoldable pub value_or_messages : Option (List Message) → List Message → List Message
value_or_messages none fallback = fallback
value_or_messages (some messages) fallback = messages

-- An assignment to a key of a map.
unfoldable pub set_field : String → Json → Fields → Fields
set_field k v end = field k v end
set_field k v (field j w fs) =
    let rest = set_field k v fs in if j == k then field j v fs else field j w rest

unfoldable pub set_fields : Fields → Fields → Fields
set_fields merged end = merged
set_fields merged (field k v fs) = set_fields (set_field k v merged) fs

unfoldable pub merge_metadata : Option Json → Option Json → Option Json
merge_metadata none none = none
merge_metadata base override = some (object (set_fields (fields_of base) (fields_of override)))

unfoldable pub count_of : (String → ℕ) → Option Json → ℕ
count_of int_of (some (number text)) = int_of text
count_of int_of _ = 0

unfoldable pub run_input_message_count : (String → ℕ) → ChainRunRecord → ℕ
run_input_message_count int_of run =
    count_of int_of (json_at "input_message_count" (json_at "chain_runtime" (some run.metadata)))

-- How many messages at the front have this time.
unfoldable pub same_time : ℕ → List ChainMessageRecord → ℕ
same_time at [] = 0
same_time at (m ∷ ms) = let rest = same_time at ms in if m.created_at == at then rest + 1 else 0

unfoldable pub inferred_run_input_count : List ChainMessageRecord → ℕ
inferred_run_input_count [] = 0
inferred_run_input_count (m ∷ ms) = same_time m.created_at (m ∷ ms)

abbrev pub message_of : ChainMessageRecord → Message
message_of r = record { role = r.role; content = r.content }

unfoldable pub messages_from_records : List ChainMessageRecord → List Message
messages_from_records rs = map message_of rs

unfoldable pub is_of_run : String → ChainMessageRecord → Bool
is_of_run run_id m = trim_space m.run_id == run_id

-- The messages of a run, and those before its first one.
unfoldable pub run_messages : String → List ChainMessageRecord → List ChainMessageRecord
run_messages run_id [] = []
run_messages run_id (m ∷ ms) =
    let rest = run_messages run_id ms in if is_of_run run_id m then m ∷ rest else rest

unfoldable pub before_run : String → List ChainMessageRecord → List ChainMessageRecord
before_run run_id [] = []
before_run run_id (m ∷ ms) =
    let rest = before_run run_id ms in if is_of_run run_id m then [] else m ∷ rest

abbrev pub is_outside : ℕ → List ChainMessageRecord → Bool
is_outside n own = n == 0 || ltb (length own) n

unfoldable pub input_count : (String → ℕ) → ChainRunRecord → List ChainMessageRecord → ℕ
input_count int_of run own =
    let n = run_input_message_count int_of run in
    if is_outside n own then inferred_run_input_count own else n

unfoldable pub fork_preview : Principal → ChainForkRequest → HotChain → Outcome ForkPreview
fork_preview p payload source = elim (authorize_chain_mutation source p) [
  | some e ↦ denied e
  | none ↦ done (record {
    source_chain = source.info;
    history = value_or_messages payload.history source.history;
    input = [];
    defaults = merge_defaults source.info.defaults payload.defaults;
    metadata = merge_metadata source.info.metadata payload.metadata;
    forked_from_run_id = trim_space payload.forked_from_run_id;
  })
]

-- A preview of a chain that has been required.
unfoldable pub preview_found :
    Registry
    → (HotChain → MemoryStore → Outcome ForkPreview)
    → Option (HotChain × Registry)
    → Outcome ForkPreview × Registry
preview_found g preview none = (denied not_found, g)
preview_found g preview (some (c, g')) = (preview c g'.store, g')

unfoldable pub preview_fork_chain :
    Principal
    → (source_chain_id : String) → ChainForkRequest
    → Registry
    → Outcome ForkPreview × Registry
preview_fork_chain p id payload g =
    preview_found g (λ c s. fork_preview p payload c) (require_chain id g)

-- The messages of the chain are cut at the first one of the run.
unfoldable pub regenerated :
    RunRegenerateRequest
    → ChainRunRecord
    → ChainRecord
    → (messages own : List ChainMessageRecord) → (count : ℕ) → Outcome ForkPreview
regenerated payload run info messages [] count =
    denied (ChainError.other "run history is incomplete")
regenerated payload run info messages (m ∷ ms) count =
    if is_outside count (m ∷ ms)
    then denied (ChainError.other "run input is unavailable for regeneration")
    else done (record {
      source_chain = info;
      history = messages_from_records (before_run run.id messages);
      input = messages_from_records (take count (m ∷ ms));
      defaults = merge_defaults run.effective_config payload.defaults;
      metadata = merge_metadata info.metadata payload.metadata;
      forked_from_run_id = run.id;
    })

unfoldable pub is_completed : RunStatus → Bool
is_completed run_completed = Bool.true
is_completed _ = Bool.false

module _ (int_of : String → ℕ) where
  unfoldable pub preview_messages :
      RunRegenerateRequest
      → ChainRunRecord
      → HotChain
      → Option (List ChainMessageRecord)
      → Outcome ForkPreview
  preview_messages payload run c none = denied not_found
  preview_messages payload run c (some messages) =
      let own = run_messages run.id messages in
      regenerated payload run c.info messages own (input_count int_of run own)

  unfoldable pub preview_run :
      Principal
      → RunRegenerateRequest
      → ChainRunRecord
      → HotChain
      → MemoryStore
      → Outcome ForkPreview
  preview_run p payload run c s = elim (authorize_chain_mutation c p) [
    | some e ↦ denied e
    | none ↦
        if is_completed run.status
        then preview_messages payload run c (list_chain_messages run.chain_id s)
        else denied (ChainError.other "only completed runs can be regenerated")
  ]

  unfoldable pub preview_run_found :
      Principal
      → RunRegenerateRequest
      → Registry
      → Option ChainRunRecord
      → Outcome ForkPreview × Registry
  preview_run_found p payload g none = (denied not_found, g)
  preview_run_found p payload g (some run) =
      preview_found g (preview_run p payload run) (require_chain run.chain_id g)

  unfoldable pub preview_regenerate_run :
      Principal
      → (run_id : String) → RunRegenerateRequest
      → Registry
      → Outcome ForkPreview × Registry
  preview_regenerate_run p run_id payload g = preview_run_found p payload g (get_run run_id g.store)
