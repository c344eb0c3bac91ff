-- ===== src/Chains/Manager.antt =====
-- pkg/gateway/chains/manager.go and executor.go: the single writer of a chain and its single run.
-- Each function is a section that the code runs under the chain's lock, with the store calls that it
-- makes there. The ids and the tokens that are drawn at random, and the time, are arguments.
-- A lease's scope and sink, and the ids that the code adds to an error, are left out.
pub mod Calls
pub mod Start
pub mod Launch
pub mod Finish
pub mod Update
pub mod Leases
pub mod Writer
pub mod Runs
pub mod Atomic
mod Tests
use vai_gateway.Prelude.{
  ℕ, ◌+◌, String, Bool, true, false, ◌&&◌, ◌||◌, not, Option, none, some, List, [], ◌∷◌, ◌++◌,
  length, ◌==◌, texts_comparable, if◌then◌else◌,
}
use vai_gateway.Types.{Json}
use vai_gateway.Chains.Model.{
  AttachmentMode, turn_ws, stateful_http, stateful_sse, live_ws, ChainStatus, idle, running, closed,
  expired, ChainError, canonical_error, chain_attach_conflict, chain_expired, Principal,
  ActiveAttachment, ChainRecord, ServerEvent, chain_attached, EventBody, ReplayStatus, WriterLease,
  ActiveRun, HotChain,
}
use vai_gateway.Chains.Replay.{Replayed, unavailable, replayed, replay_after, next_event}
use vai_gateway.Chains.Access.{CredentialScope, Outcome, done, denied, authorize_attach}
use Calls.{
  StoreCall, update_chain_call, resume_call, attachment_call, close_call, StoreLog, call, call_,
  call_all, writer_attachment,
}

pub record Environment : Type 0 where
  pub principal : Principal
  pub mode : AttachmentMode
  pub protocol : String
  pub scope : CredentialScope
  -- nil, or the error that building the registry of the named tools with a configuration returns,
  -- if any.
  pub build_gateway_tools : Option (List String → Option Json → Option ChainError)

unfoldable pub is_request_mode : AttachmentMode → Bool
is_request_mode stateful_http = true
is_request_mode stateful_sse = true
is_request_mode _ = false

unfoldable pub same_mode : AttachmentMode → AttachmentMode → Bool
same_mode turn_ws turn_ws = true
same_mode stateful_http stateful_http = true
same_mode stateful_sse stateful_sse = true
same_mode live_ws live_ws = true
same_mode _ _ = false

unfoldable pub is_status : ChainStatus → ChainStatus → Bool
is_status idle idle = true
is_status running running = true
is_status closed closed = true
is_status expired expired = true
is_status ChainStatus.waiting_for_client_tool ChainStatus.waiting_for_client_tool = true
is_status _ _ = false

abbrev pub new_lease : Environment → (id hash : String) → ℕ → WriterLease
new_lease env id hash now = record {
  id = id;
  mode = env.mode;
  principal = env.principal;
  started_at = now;
  resume_token_hash = hash;
}

-- The chain with a writer.
unfoldable pub hold : Environment → (id hash : String) → ℕ → HotChain → HotChain
hold env id hash now c = record c {
  writer = some (new_lease env id hash now);
  info = record c.info { active_attachment = some (record { mode = env.mode; started_at = now }) };
}

unfoldable pub holds : String → Option WriterLease → Bool
holds id none = false
holds id (some w) = w.id == id

unfoldable pub is_held : Option WriterLease → Bool
is_held none = false
is_held (some w) = true

abbrev pub already_attached : ChainError
already_attached = canonical_error chain_attach_conflict "chain already has an active attachment"

abbrev pub not_attached : ChainError
not_attached = canonical_error chain_attach_conflict "chain is not attached on this transport"

unfoldable pub request_lease :
    Environment → (id : String) → ℕ → HotChain → Option WriterLease → Outcome HotChain
request_lease env id now c (some w) = denied already_attached
request_lease env id now c none = done (hold env id "" now c)

unfoldable pub socket_lease : Environment → HotChain → Option WriterLease → Outcome HotChain
socket_lease env c none = denied not_attached
socket_lease env c (some w) = if same_mode w.mode env.mode then done c else denied not_attached

-- A request takes a lease of its own; a socket must hold one.
unfoldable pub acquire : Environment → (id : String) → ℕ → HotChain → Outcome HotChain
acquire env id now c =
    if is_request_mode env.mode
    then request_lease env id now c c.writer
    else socket_lease env c c.writer

pub record AttachFrame : Type 0 where
  pub resume_token : String
  pub after_event_id : ℕ
  pub require_exact_replay : Bool
  pub takeover : Bool

-- What is drawn for an attachment.
pub record Fresh : Type 0 where
  pub attachment_id : String
  pub resume_token : String
  pub now : ℕ

pub record Attached : Type 0 where
  pub event : ServerEvent
  pub events : List ServerEvent
  pub attachment_id : String

module _ (hash_token : String → String) (unmarshal : List ℕ → Option ServerEvent) where
  -- The old writer's attachment is closed in the store on a takeover.
  unfoldable pub close_old : HotChain → Option WriterLease → StoreLog → StoreLog
  close_old c none calls = calls
  close_old c (some w) calls = call_ (close_call w.id "chain.attach_conflict") calls

  abbrev pub attached_chain : Environment → Fresh → HotChain → HotChain
  attached_chain env fresh c =
      let hash = hash_token fresh.resume_token in
      let held = hold env fresh.attachment_id hash fresh.now c in
      record held { resume_token_hash = hash; info = record held.info { updated_at = fresh.now } }

  -- The event takes its id; it is buffered and sent after the lock is released.
  unfoldable pub attached :
      Fresh → (actor : String) → ReplayStatus → List ServerEvent → HotChain → Attached × HotChain
  attached fresh actor status events c =
      let event = next_event (chain_attached fresh.resume_token actor status) c in
      (
        record { event = event; events = events; attachment_id = fresh.attachment_id },
        record c { next_event_id = c.next_event_id + 1 },
      )

  unfoldable pub recorded :
      Fresh
      → (actor : String) → ReplayStatus
      → List ServerEvent
      → HotChain
      → Option ChainError × StoreLog
      → Outcome Attached × HotChain × StoreLog
  recorded fresh actor status events c (some e, calls) = (denied e, c, calls)
  recorded fresh actor status events c (none, calls) =
      let (a, c') = attached fresh actor status events c in (done a, c', calls)

  unfoldable pub record_attachment :
      Environment
      → Fresh
      → (actor : String) → ReplayStatus
      → List ServerEvent
      → HotChain
      → StoreLog
      → Outcome Attached × HotChain × StoreLog
  record_attachment env fresh actor status events c calls =
      let c' = attached_chain env fresh c in
      recorded fresh actor status events c' (
        call_all
          (update_chain_call c'.info
            ∷ resume_call c'.info.id c'.resume_token_hash
            ∷ attachment_call (
                writer_attachment env.principal env.mode env.protocol fresh.attachment_id c'.info.id
                  actor c'.resume_token_hash fresh.now)
            ∷ [])
          calls)

  unfoldable pub after_replay :
      Environment
      → Fresh
      → (actor : String) → Replayed
      → HotChain
      → StoreLog
      → Outcome Attached × HotChain × StoreLog
  after_replay env fresh actor (unavailable e) c calls = (denied e, c, calls)
  after_replay env fresh actor (replayed status events) c calls =
      record_attachment env fresh actor status events c calls

  unfoldable pub attach_actor :
      Environment
      → AttachFrame
      → Fresh
      → HotChain
      → StoreLog
      → Outcome String
      → Outcome Attached × HotChain × StoreLog
  attach_actor env frame fresh c calls (denied e) = (denied e, c, calls)
  attach_actor env frame fresh c calls (done actor) =
      if is_status c.info.status expired
      then (denied (canonical_error chain_expired "chain is expired"), c, calls)
      else if is_held c.writer && not frame.takeover
      then (denied already_attached, c, calls)
      else after_replay env fresh actor
          (replay_after unmarshal frame.after_event_id frame.require_exact_replay c) c
          (close_old c c.writer calls)

  -- AttachChain, from the lock to its release.
  unfoldable pub attach_chain :
      Environment
      → AttachFrame
      → Fresh
      → HotChain
      → StoreLog
      → Outcome Attached × HotChain × StoreLog
  attach_chain env frame fresh c calls =
      attach_actor env frame fresh c calls
        (authorize_attach hash_token c env.principal frame.resume_token)

unfoldable pub detached : (now : ℕ) → HotChain → HotChain
detached now c = record c {
  writer = none;
  info = record c.info { active_attachment = none; updated_at = now };
}

unfoldable pub detach_writer :
    (attachment_id reason : String)
    → ℕ
    → HotChain
    → StoreLog
    → Option WriterLease
    → HotChain × StoreLog
detach_writer attachment_id reason now c calls none = (c, calls)
detach_writer attachment_id reason now c calls (some w) =
    if not (attachment_id == "") && not (w.id == attachment_id) then (c, calls) else (
      detached now c,
      call_ (close_call w.id reason) (call_ (update_chain_call (detached now c).info) calls),
    )

-- Detach
unfoldable pub detach :
    (attachment_id reason : String) → ℕ → HotChain → StoreLog → HotChain × StoreLog
detach attachment_id reason now c calls = detach_writer attachment_id reason now c calls c.writer
