-- ===== src/Chains/MemoryStore.antt =====
-- pkg/gateway/chains/memstore.go: MemoryStore, the store in memory. A write is `none` where the code returns
-- ErrNotFound, and leaves the store as it was; a nil record, which the code ignores, is not passed.
-- ListSessions and ListChains, which sort the entries, are left out. A time of 0 is the zero time.
pub mod Records
pub mod Messages
pub mod Invariant
pub mod Keeps
pub mod Writes
pub mod Reads
mod Tests
use vai_gateway.Prelude.{
  ℕ, String, ◌<>◌, Bool, false, ◌&&◌, ◌||◌, not, Option, none, some, List, [], ◌∷◌, ◌++◌, ltb,
  length, ◌==◌, texts_comparable, numbers_comparable, if◌then◌else◌,
}
use vai_gateway.Prelude.Assoc.{Assoc, lookup, insert}
use vai_gateway.Types.{Json, Message}
use vai_gateway.Chains.Model.{ChainRecord}
use Records.{
  SessionRecord, ChainMessageRecord, ChainRunRecord, EffectiveRequest, AttachmentRecord,
  IdempotencyScope, IdempotencyRecord, MemoryStore,
}
use Messages.{build_chain_message_records}

module _ {ℓ} {A : Type ℓ} where
  -- What Go reads from a map of slices: nil for a missing key.
  unfoldable pub listed : String → Assoc (List A) → List A
  listed k m = elim (lookup k m) [ none ↦ [] | some xs ↦ xs ]

  -- The records under the ids, without those that are missing.
  unfoldable pub gather : List String → Assoc A → List A
  gather [] m = []
  gather (id ∷ ids) m =
      let rest = gather ids m in elim (lookup id m) [ none ↦ rest | some a ↦ a ∷ rest ]

-- slices.Contains
unfoldable pub contains : List String → String → Bool
contains [] x = false
contains (y ∷ ys) x = y == x || contains ys x

unfoldable pub session_external_key : String → String → String
session_external_key org_id external_session_id = org_id <> "::" <> external_session_id

unfoldable pub idempotency_map_key : IdempotencyScope → String
idempotency_map_key scope =
    scope.org_id <> "::" <> scope.principal_id <> "::" <> scope.chain_id <> "::" <> scope.operation
    <> "::" <> scope.idempotency_key

unfoldable pub upsert_session : SessionRecord → MemoryStore → MemoryStore
upsert_session session s = record s {
  sessions = insert session.id session s.sessions;
  session_by_external =
      if not (session.external_session_id == "") && not (session.org_id == "")
      then insert (session_external_key session.org_id session.external_session_id) session.id
          s.session_by_external
      else s.session_by_external;
}

unfoldable pub get_session : String → MemoryStore → Option SessionRecord
get_session id s = lookup id s.sessions

unfoldable pub get_session_by_external :
    (org_id external_session_id : String) → MemoryStore → Option SessionRecord
get_session_by_external org_id external_session_id s =
    elim (lookup (session_external_key org_id external_session_id) s.session_by_external) [
      | none ↦ none
      | some id ↦ lookup id s.sessions
    ]

unfoldable pub list_session_chains : String → MemoryStore → List ChainRecord
list_session_chains id s = gather (listed id s.session_chains) s.chains

-- The chain becomes the latest one of its session, if the session is stored.
unfoldable pub touch_session : ChainRecord → Assoc SessionRecord → Assoc SessionRecord
touch_session chain sessions = elim (lookup chain.session_id sessions) [
  | none ↦ sessions
  | some session ↦
      insert chain.session_id
        (record session { latest_chain_id = chain.id; updated_at = chain.updated_at }) sessions
]

unfoldable pub link_chain : ChainRecord → Assoc (List String) → Assoc (List String)
link_chain chain m =
    if contains (listed chain.session_id m) chain.id
    then m
    else insert chain.session_id (listed chain.session_id m ++ chain.id ∷ []) m

unfoldable pub save_chain : (now : ℕ) → ChainRecord → List Message → MemoryStore → MemoryStore
save_chain now chain history s = record s {
  chains = insert chain.id chain s.chains;
  chain_history = insert chain.id history s.chain_history;
  chain_messages =
      insert chain.id (build_chain_message_records now chain.id "" history 0 chain.created_at)
        s.chain_messages;
  session_chains =
      if chain.session_id == "" then s.session_chains else link_chain chain s.session_chains;
  sessions = if chain.session_id == "" then s.sessions else touch_session chain s.sessions;
}

unfoldable pub update_chain : ChainRecord → MemoryStore → Option MemoryStore
update_chain chain s = elim (lookup chain.id s.chains) [
  | none ↦ none
  | some old ↦ some (record s {
    chains = insert chain.id chain s.chains;
    sessions = if chain.session_id == "" then s.sessions else touch_session chain s.sessions;
  })
]

unfoldable pub get_chain : String → MemoryStore → Option (ChainRecord × List Message)
get_chain id s = elim (lookup id s.chains) [
  | none ↦ none
  | some chain ↦ some (chain, listed id s.chain_history)
]

unfoldable pub list_chain_messages : String → MemoryStore → Option (List ChainMessageRecord)
list_chain_messages id s = elim (lookup id s.chains) [
  | none ↦ none
  | some chain ↦ some (listed id s.chain_messages)
]

-- What AppendChainMessages leaves, once it has found the chain.
unfoldable pub append_to :
    (now : ℕ) → (chain_id run_id : String) → List Message → ChainRecord → MemoryStore → MemoryStore
append_to now chain_id run_id messages chain s =
    let existing = listed chain_id s.chain_messages in
    let history = listed chain_id s.chain_history ++ messages in
    record s {
      chain_history = insert chain_id history s.chain_history;
      chain_messages =
          insert chain_id
            (existing
              ++ build_chain_message_records now chain_id run_id messages (length existing) now)
            s.chain_messages;
      chains = insert chain_id (record chain { message_count_cached = length history }) s.chains;
    }

unfoldable pub append_chain_messages :
    (now : ℕ) → (chain_id run_id : String) → List Message → MemoryStore → Option MemoryStore
append_chain_messages now chain_id run_id messages s = elim (lookup chain_id s.chains) [
  | none ↦ none
  | some chain ↦ some (append_to now chain_id run_id messages chain s)
]

unfoldable pub set_chain_resume_token_hash :
    (chain_id hash : String) → MemoryStore → Option MemoryStore
set_chain_resume_token_hash chain_id hash s = elim (lookup chain_id s.chains) [
  | none ↦ none
  | some chain ↦ some (record s { chain_resume = insert chain_id hash s.chain_resume })
]

unfoldable pub get_chain_resume_token_hash : String → MemoryStore → Option String
get_chain_resume_token_hash chain_id s = elim (lookup chain_id s.chains) [
  | none ↦ none
  | some chain ↦ some (elim (lookup chain_id s.chain_resume) [ none ↦ "" | some hash ↦ hash ])
]

unfoldable pub create_run : ChainRunRecord → MemoryStore → MemoryStore
create_run run s = record s {
  runs = insert run.id run s.runs;
  chain_runs = insert run.chain_id (listed run.chain_id s.chain_runs ++ run.id ∷ []) s.chain_runs;
}

unfoldable pub update_run : ChainRunRecord → MemoryStore → Option MemoryStore
update_run run s = elim (lookup run.id s.runs) [
  | none ↦ none
  | some old ↦ some (record s { runs = insert run.id run s.runs })
]

unfoldable pub get_run : String → MemoryStore → Option ChainRunRecord
get_run id s = lookup id s.runs

unfoldable pub list_chain_runs : String → MemoryStore → List ChainRunRecord
list_chain_runs chain_id s = gather (listed chain_id s.chain_runs) s.runs

unfoldable pub append_run_items : String → List Json → MemoryStore → Option MemoryStore
append_run_items run_id items s = elim (lookup run_id s.runs) [
  | none ↦ none
  | some run ↦
      some (record s { run_items = insert run_id (listed run_id s.run_items ++ items) s.run_items })
]

unfoldable pub get_run_timeline : String → MemoryStore → Option (List Json)
get_run_timeline run_id s = elim (lookup run_id s.run_items) [
  | none ↦ elim (lookup run_id s.runs) [ none ↦ none | some run ↦ some [] ]
  | some items ↦ some items
]

unfoldable pub save_effective_request : EffectiveRequest → MemoryStore → MemoryStore
save_effective_request req s = record s {
  effective_request = insert req.run_id req s.effective_request;
}

unfoldable pub get_effective_request : String → MemoryStore → Option EffectiveRequest
get_effective_request run_id s = lookup run_id s.effective_request

unfoldable pub save_attachment : AttachmentRecord → MemoryStore → MemoryStore
save_attachment attachment s = record s {
  attachments = insert attachment.id attachment s.attachments;
}

unfoldable pub close_attachment :
    (id reason : String) → (ended_at : ℕ) → MemoryStore → Option MemoryStore
close_attachment id reason ended_at s = elim (lookup id s.attachments) [
  | none ↦ none
  | some attachment ↦ some (record s {
    attachments =
        insert id (record attachment { close_reason = reason; ended_at = some ended_at })
          s.attachments;
  })
]

unfoldable pub save_idempotency : IdempotencyRecord → MemoryStore → MemoryStore
save_idempotency r s = record s {
  idempotency = insert (idempotency_map_key r.scope) r s.idempotency;
}

unfoldable pub is_expired : ℕ → IdempotencyRecord → Bool
is_expired now r = not (r.expires_at == 0) && ltb r.expires_at now

unfoldable pub get_idempotency :
    (now : ℕ) → IdempotencyScope → MemoryStore → Option IdempotencyRecord
get_idempotency now scope s = elim (lookup (idempotency_map_key scope) s.idempotency) [
  | none ↦ none
  | some r ↦ if is_expired now r then none else some r
]
