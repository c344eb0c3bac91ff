-- ===== src/Chains/Manager/Update.antt =====
-- pkg/gateway/chains/manager.go: UpdateChain. The event is buffered and sent by `announce`, which
-- stands for bufferAndEmit; the words of the store's errors are passed on.
use vai_gateway.Prelude.{
  ℕ, ◌+◌, String, not, Option, none, some, [], ◌∷◌, ◌==◌, texts_comparable, if◌then◌else◌,
}
use vai_gateway.Prelude.Text.{is_blank}
use vai_gateway.Types
use vai_gateway.Types.{Json}
use vai_gateway.Chains.Model.{
  ChainError, canonical_error, protocol_unknown_frame, tool_result_conflict, ChainDefaults,
  ServerEvent, chain_updated, HotChain,
}
use vai_gateway.Chains.Defaults.{merge_defaults}
use vai_gateway.Chains.Replay.{next_event}
use vai_gateway.Chains.Access.{Outcome, done, denied, authorize_chain_mutation}
use vai_gateway.Chains.Manager.{Environment, is_request_mode, acquire, detach}
use vai_gateway.Chains.Manager.Calls.{
  StoreCall, update_chain_call, attachment_call, idempotency_call, StoreLog, call, call_all,
  writer_attachment,
}

pub record ChainUpdate : Type 0 where
  pub patch : ChainDefaults
  pub idempotency_key : String
  pub request_hash : String

pub record FreshUpdate : Type 0 where
  pub attachment_id : String
  pub idempotency_id : String
  pub now : ℕ

abbrev pub patched : ChainUpdate → FreshUpdate → HotChain → HotChain
patched update fresh c = record c {
  info = record c.info {
    defaults = merge_defaults c.info.defaults update.patch;
    chain_version = c.info.chain_version + 1;
    updated_at = fresh.now;
  };
}

unfoldable pub own_lease : Environment → FreshUpdate → String
own_lease env fresh = if is_request_mode env.mode then fresh.attachment_id else ""

-- The event takes its id, if the store has taken the record.
unfoldable pub numbered :
    HotChain → Option ChainError × StoreLog → Outcome ServerEvent × HotChain × StoreLog
numbered c (some e, calls) = (denied e, c, calls)
numbered c (none, calls) = (
  done (next_event (chain_updated c.info.defaults) c),
  record c { next_event_id = c.next_event_id + 1 },
  calls,
)

unfoldable pub patch_held :
    ChainUpdate
    → FreshUpdate
    → HotChain
    → StoreLog
    → Outcome HotChain
    → Outcome ServerEvent × HotChain × StoreLog
patch_held update fresh c calls (denied e) = (denied e, c, calls)
patch_held update fresh c calls (done held) =
    let c' = patched update fresh held in numbered c' (call (update_chain_call c'.info) calls)

-- UpdateChain, from the lock to its release.
unfoldable pub patch_chain :
    Environment
    → ChainUpdate
    → FreshUpdate
    → HotChain
    → StoreLog
    → Outcome ServerEvent × HotChain × StoreLog
patch_chain env update fresh c calls =
    patch_held update fresh c calls (acquire env fresh.attachment_id fresh.now c)

unfoldable pub update_idempotency : Environment → ChainUpdate → FreshUpdate → HotChain → StoreCall
update_idempotency env update fresh c = idempotency_call (record {
  id = fresh.idempotency_id;
  scope = record {
    org_id = env.principal.org_id;
    principal_id = env.principal.principal_id;
    chain_id = c.info.id;
    operation = "chain.update";
    idempotency_key = update.idempotency_key;
  };
  request_hash = update.request_hash;
  result_ref = Json.object (Types.Fields.field "chain_id" (Json.string c.info.id) Types.Fields.end);
  created_at = fresh.now;
  expires_at = fresh.now + 3600000000000;
})

module _ (announce : ServerEvent → HotChain → Option ChainError × HotChain) where
  -- The end of a request's lease, if it has one.
  unfoldable pub request_complete :
      (attachment_id : String)
      → ℕ
      → ServerEvent
      → HotChain
      → Option ChainError × StoreLog
      → Outcome ServerEvent × HotChain × StoreLog
  request_complete attachment_id now event c (some e, calls) = (denied e, c, calls)
  request_complete attachment_id now event c (none, calls) =
      if attachment_id == ""
      then (done event, c, calls)
      else let (c', calls') = detach attachment_id "request_complete" now c calls in
        (done event, c', calls')

  unfoldable pub after_announce :
      Environment
      → ChainUpdate
      → FreshUpdate
      → ServerEvent
      → StoreLog
      → Option ChainError × HotChain
      → Outcome ServerEvent × HotChain × StoreLog
  after_announce env update fresh event calls (some e, c) = (denied e, c, calls)
  after_announce env update fresh event calls (none, c) =
      request_complete (own_lease env fresh) fresh.now event c
        (call (update_idempotency env update fresh c) calls)

  unfoldable pub saved :
      Environment
      → ChainUpdate
      → FreshUpdate
      → ServerEvent
      → HotChain
      → Option ChainError × StoreLog
      → Outcome ServerEvent × HotChain × StoreLog
  saved env update fresh event c (some e, calls) = (denied e, c, calls)
  saved env update fresh event c (none, calls) =
      after_announce env update fresh event calls (announce event c)

  unfoldable pub after_patch :
      Environment
      → ChainUpdate
      → FreshUpdate
      → Outcome ServerEvent × HotChain × StoreLog
      → Outcome ServerEvent × HotChain × StoreLog
  after_patch env update fresh (denied e, c, calls) = (denied e, c, calls)
  after_patch env update fresh (done event, c, calls) = saved env update fresh event c (
      call_all
        (if own_lease env fresh == ""
          then []
          else attachment_call (
              writer_attachment env.principal env.mode env.protocol (own_lease env fresh) c.info.id
                env.principal.actor_id "" fresh.now)
            ∷ [])
        calls)

  unfoldable pub update_anew :
      Environment
      → ChainUpdate
      → FreshUpdate
      → HotChain
      → StoreLog
      → Outcome ServerEvent × HotChain × StoreLog
  update_anew env update fresh c calls =
      after_patch env update fresh (patch_chain env update fresh c calls)

  -- The request hash that GetIdempotency finds, and what GetChain gives then.
  unfoldable pub update_recalled :
      Environment
      → ChainUpdate
      → FreshUpdate
      → HotChain
      → StoreLog
      → Option (String × Outcome ServerEvent)
      → Outcome ServerEvent × HotChain × StoreLog
  update_recalled env update fresh c calls none = update_anew env update fresh c calls
  update_recalled env update fresh c calls (some (hash, found)) =
      if not (hash == update.request_hash)
      then (
        denied (canonical_error tool_result_conflict "idempotent request payload conflict"),
        c,
        calls,
      )
      else (found, c, calls)

  -- UpdateChain for a chain that is in memory.
  unfoldable pub update_chain_defaults :
      Environment
      → ChainUpdate
      → FreshUpdate
      → Option (String × Outcome ServerEvent)
      → HotChain
      → StoreLog
      → Outcome ServerEvent × HotChain × StoreLog
  update_chain_defaults env update fresh recalled c calls =
      if is_blank update.idempotency_key
      then (denied (canonical_error protocol_unknown_frame "idempotency_key is required"), c, calls)
      else elim (authorize_chain_mutation c env.principal) [
        | some e ↦ (denied e, c, calls)
        | none ↦ update_recalled env update fresh c calls recalled
      ]
