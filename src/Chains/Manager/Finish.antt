-- ===== src/Chains/Manager/Finish.antt =====
-- pkg/gateway/chains/executor.go: the end of executeRun, and commitHistory.
use vai_gateway.Prelude.{
  ℕ, ◌+◌, String, ◌&&◌, not, none, List, ◌++◌, length, ◌==◌, texts_comparable, numbers_comparable,
  if◌then◌else◌,
}
use vai_gateway.Types.{Message}
use vai_gateway.Chains.Model.{ChainStatus, idle, closed, expired, ActiveRun, HotChain}
use vai_gateway.Chains.Manager.{holds}
use vai_gateway.Chains.Manager.Calls.{
  update_chain_call, close_call, append_messages_call, StoreLog, call_,
}
use vai_gateway.Chains.Manager.Start.{is_active}

unfoldable pub idle_again : ChainStatus → ChainStatus
idle_again closed = closed
idle_again expired = expired
idle_again _ = idle

-- The end of the run that is the chain's active one; a lease of its own ends with it.
unfoldable pub ended : ActiveRun → (now : ℕ) → HotChain → HotChain
ended r now c =
    let own = r.ephemeral_writer && holds r.attachment_id c.writer in
    record c {
      active_run = none;
      writer = if own then none else c.writer;
      info = record c.info {
        active_attachment = if own then none else c.info.active_attachment;
        status = idle_again c.info.status;
        updated_at = now;
      };
    }

-- What executeRun defers.
unfoldable pub end_run : ActiveRun → (now : ℕ) → HotChain → StoreLog → HotChain × StoreLog
end_run r now c calls =
    let c' = if is_active r.run_id c.active_run then ended r now c else c in
    let calls' = call_ (update_chain_call c'.info) calls in
    (
      c',
      if r.ephemeral_writer && not (r.attachment_id == "")
          then call_ (close_call r.attachment_id "request_complete") calls'
          else calls',
    )

-- commitHistory
unfoldable pub commit_history :
    (run_id : String)
    → ChainStatus
    → List Message
    → (now : ℕ) → HotChain
    → StoreLog
    → HotChain × StoreLog
commit_history run_id status messages now c calls =
    let history = c.history ++ messages in
    let info = record c.info {
      status = status;
      chain_version = c.info.chain_version + 1;
      updated_at = now;
      message_count_cached = length history;
    } in
    (
      record c { history = history; info = info },
      call_ (update_chain_call info) (call_ (append_messages_call c.info.id run_id messages) calls),
    )
