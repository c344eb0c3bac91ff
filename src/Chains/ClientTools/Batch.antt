-- ===== src/Chains/ClientTools/Batch.antt =====
-- executor.go: resolveToolBatch, the results of a model turn's tool calls. The run's timeline,
-- the events of the gateway's tools and the blocks that repeat the results are left out. `execute` is the registry's Execute, `finish` is
-- FinalizeImageToolResultContent, and `announce` is emitClientToolCall.
use vai_gateway.Prelude.{
  ℕ, ◌≡◌, refl, sym, ap, ◌∙◌, String, Bool, true, false, Option, none, some, List, [], ◌∷◌, ◌++◌,
  map, append-nil, ◌==◌, texts_comparable, Bool-cases, Option-cases, subst, inl, inr, if◌then◌else◌,
}
use vai_gateway.Prelude.Assoc.{Assoc}
use vai_gateway.Types.{ContentBlock, ToolUse, TypesError}
use vai_gateway.RunLoop.Model.{
  ContextError, canceled, deadline_exceeded, RunToolResult, StopReason, unset, timeout, cancelled,
  error,
}
use vai_gateway.Chains.Model.{ChainError, canonical_error, transport_client_tools_require_ws}
use vai_gateway.Chains.ClientTools.{PendingExecution, normalize, enqueue, Wake, Waited, wait}
use vai_gateway.Chains.ClientTools.WriteOnce.{some_inj}
use vai_gateway.Chains.ClientTools.Waiting.{Matches, stops, wait-enqueue}

abbrev require_ws : String
require_ws = "client-executed tools require the chain websocket transport"

unfoldable pub result_content : Option TypesError → List ContentBlock → List ContentBlock
result_content (some e) [] = ContentBlock.text e.message ∷ []
result_content (some e) (b ∷ bs) = b ∷ bs
result_content none content = normalize content

unfoldable pub failed : Option TypesError → Bool
failed none = false
failed (some e) = true

unfoldable pub client_result : PendingExecution → RunToolResult
client_result x = record {
  tool_use_id = x.execution_id;
  content = normalize x.content;
  is_error = x.is_error;
  error_info = none;
}

unfoldable pub refused_result : ToolUse → RunToolResult
refused_result u = record {
  tool_use_id = u.id;
  content = ContentBlock.text require_ws ∷ [];
  is_error = true;
  error_info = some (record {
    kind = "invalid_request_error";
    message = require_ws;
    code = "transport.client_tools_require_websocket";
  });
}

pub data BatchError : Type 0 where
  chain_failed : ChainError → BatchError
  wait_ended : ContextError → BatchError

pub record Batch : Type 0 where
  pub results : List RunToolResult
  pub stop_reason : StopReason
  pub failure : Option BatchError
  pub pending : Assoc PendingExecution

unfoldable pub stop_of : ContextError → StopReason
stop_of deadline_exceeded = timeout
stop_of canceled = cancelled

unfoldable pub waited_batch : List RunToolResult → Waited → Batch
waited_batch results w = record {
  results = results ++ map client_result w.results;
  stop_reason = elim w.cause [ none ↦ unset | some cause ↦ stop_of cause ];
  failure = elim w.cause [ none ↦ none | some cause ↦ some (wait_ended cause) ];
  pending = w.pending;
}

abbrev pub result_ids : List RunToolResult → List String
result_ids = map (λ (r : RunToolResult). r.tool_use_id)

abbrev pub use_ids : List ToolUse → List String
use_ids = map (λ (u : ToolUse). u.id)

-- The ids of the calls of the gateway's tools, and of the others.
module _ (has : String → Bool) where
  unfoldable pub gateway_ids : List ToolUse → List String
  gateway_ids [] = []
  gateway_ids (u ∷ us) = let rest = gateway_ids us in if has u.name then u.id ∷ rest else rest

  unfoldable pub client_ids : List ToolUse → List String
  client_ids [] = []
  client_ids (u ∷ us) = let rest = client_ids us in if has u.name then rest else u.id ∷ rest

module _ (has : String → Bool) (execute : ToolUse → List ContentBlock × Option TypesError)
    (finish : List ContentBlock → List ContentBlock) (announce : ToolUse → Option ChainError)
    (hash_payload : List ContentBlock → Bool → String) (hash_text : String → String) where
  unfoldable pub gateway_result : ToolUse → List ContentBlock × Option TypesError → RunToolResult
  gateway_result u (content, e) =
      let content' = result_content e content in
      record {
        tool_use_id = u.id;
        content = if u.name == "vai_image" then finish content' else content';
        is_error = failed e;
        error_info = e;
      }

  -- The loop over the calls: the results of the gateway's tools, and the calls that are left.
  unfoldable pub gateway_pass : List ToolUse → List RunToolResult × List ToolUse
  gateway_pass [] = ([], [])
  gateway_pass (u ∷ us) =
      let (results, client_uses) = gateway_pass us in
      if has u.name
      then (gateway_result u (execute u) ∷ results, client_uses)
      else (results, u ∷ client_uses)

  unfoldable pub announce_all : List ToolUse → Option ChainError
  announce_all [] = none
  announce_all (u ∷ us) =
      let rest = announce_all us in elim (announce u) [ none ↦ rest | some e ↦ some e ]

  -- The part that waits for the client.
  unfoldable pub client_batch :
      (deadline : ℕ)
      → List RunToolResult
      → List ToolUse
      → List Wake
      → Assoc PendingExecution
      → Option Batch
  client_batch deadline results uses wakes pending =
      let queued = enqueue deadline uses pending in
      elim (announce_all uses) [
        | some e ↦ some (record {
          results = results;
          stop_reason = error;
          failure = some (chain_failed e);
          pending = queued;
        })
        | none ↦ elim (wait hash_payload hash_text uses wakes queued) [
          | none ↦ none
          | some w ↦ some (waited_batch results w)
        ]
      ]

  unfoldable pub after_pass :
      (allow_client_tools : Bool) (deadline : ℕ)
      → List Wake
      → Assoc PendingExecution
      → List RunToolResult × List ToolUse
      → Option Batch
  after_pass allow deadline wakes pending (results, []) =
      some (record { results = results; stop_reason = unset; failure = none; pending = pending })
  after_pass false deadline wakes pending (results, u ∷ us) = some (record {
    results = results ++ map refused_result (u ∷ us);
    stop_reason = error;
    failure = some (chain_failed (canonical_error transport_client_tools_require_ws require_ws));
    pending = pending;
  })
  after_pass true deadline wakes pending (results, u ∷ us) =
      client_batch deadline results (u ∷ us) wakes pending

  -- resolveToolBatch; `none` while it waits for the client after the last of the steps.
  unfoldable pub resolve_batch :
      (allow_client_tools : Bool) (deadline : ℕ)
      → List ToolUse
      → List Wake
      → Assoc PendingExecution
      → Option Batch
  resolve_batch allow deadline uses wakes pending =
      after_pass allow deadline wakes pending (gateway_pass uses)

  gateway_pass-ids :
      (uses : List ToolUse)
      → (result_ids (gateway_pass uses).0 ≡ gateway_ids has uses)
        × (use_ids (gateway_pass uses).1 ≡ client_ids has uses)
  unfolding gateway_pass gateway_ids client_ids gateway_result
  gateway_pass-ids [] = (refl, refl)
  gateway_pass-ids (u ∷ us) =
      let (gateway, client) = gateway_pass-ids us in
      elim (Bool-cases (has u.name)) [
        | inl ours ↦
            rw (ours, gateway_pass, gateway_ids, client_ids)
              (ap (λ ids. u.id ∷ ids) gateway, client)
        | inr theirs ↦
            rw (theirs, gateway_pass, gateway_ids, client_ids)
              (gateway, ap (λ ids. u.id ∷ ids) client)
      ]

  announce_all-none :
      ((u : ToolUse) → announce u ≡ none) → (uses : List ToolUse) → announce_all uses ≡ none
  unfolding announce_all
  announce_all-none h [] = refl
  announce_all-none h (u ∷ us) = rw (h u, announce_all) (announce_all-none h us)

  refused-ids : (uses : List ToolUse) → result_ids (map refused_result uses) ≡ use_ids uses
  unfolding refused_result
  refused-ids [] = refl
  refused-ids (u ∷ us) = ap (λ ids. u.id ∷ ids) (refused-ids us)

  Matches-ids :
      (uses : List ToolUse) (out : List PendingExecution)
      → Matches uses out
      → result_ids (map client_result out) ≡ use_ids uses
  unfolding Matches client_result
  Matches-ids [] [] h = refl
  Matches-ids [] (x ∷ xs) h = absurd h
  Matches-ids (u ∷ us) [] h = absurd h
  Matches-ids (u ∷ us) (x ∷ xs) (same, done, rest) = cc (same, Matches-ids us xs rest)

  ids-append : (xs ys : List RunToolResult) → result_ids (xs ++ ys) ≡ result_ids xs ++ result_ids ys
  ids-append [] ys = refl
  ids-append (x ∷ xs) ys = ap (λ ids. x.tool_use_id ∷ ids) (ids-append xs ys)

  -- The results of the gateway's tools are followed by one for each of the given calls.
  abbrev Completes : List RunToolResult → List ToolUse → Option Batch → Type 0
  Completes results uses o =
      (b : Batch) × (o ≡ some b) × (result_ids b.results ≡ result_ids results ++ use_ids uses)

  client_batch-ids :
      (deadline : ℕ) (results : List RunToolResult) (uses : List ToolUse) (wakes : List Wake)
      (pending : Assoc PendingExecution)
      → ((u : ToolUse) → announce u ≡ none)
      → stops wakes ≡ true
      → Completes results uses (client_batch deadline results uses wakes pending)
  unfolding client_batch waited_batch
  client_batch-ids deadline results uses wakes pending h s =
      let (w, ended, every) = wait-enqueue hash_payload hash_text deadline uses wakes pending s in
      (
        waited_batch results w,
        rw (announce_all-none h uses, ended, client_batch) refl,
        ids-append results (map client_result w.results)
            ∙ ap (λ ids. result_ids results ++ ids) (Matches-ids uses w.results every),
      )

  after_pass-ids :
      (allow : Bool) (deadline : ℕ) (wakes : List Wake) (pending : Assoc PendingExecution)
      (results : List RunToolResult) (uses : List ToolUse)
      → ((u : ToolUse) → announce u ≡ none)
      → stops wakes ≡ true
      → Completes results uses (after_pass allow deadline wakes pending (results, uses))
  unfolding after_pass
  after_pass-ids allow deadline wakes pending results [] h s =
      (_, refl, sym (append-nil (result_ids results)))
  after_pass-ids false deadline wakes pending results (u ∷ us) h s = (
    _,
    refl,
    ids-append results (map refused_result (u ∷ us))
        ∙ ap (λ ids. result_ids results ++ ids) (refused-ids (u ∷ us)),
  )
  after_pass-ids true deadline wakes pending results (u ∷ us) h s =
      client_batch-ids deadline results (u ∷ us) wakes pending h s

  -- A batch of tool calls ends with exactly one result for each call, those of the gateway's tools
  -- first and each group in the order of its calls, whether clients may run tools or not, and
  -- whatever they submit; given that the calls are announced without an error, and that the wait
  -- for the client ends at some time. It is not the order of the calls where the client's come
  -- before one of the gateway's.
  pub resolve_batch-ids :
      (allow : Bool) (deadline : ℕ) (uses : List ToolUse) (wakes : List Wake)
      (pending : Assoc PendingExecution)
      → ((u : ToolUse) → announce u ≡ none)
      → stops wakes ≡ true
      → (b : Batch) × (resolve_batch allow deadline uses wakes pending ≡ some b)
        × (result_ids b.results ≡ gateway_ids has uses ++ client_ids has uses)
  unfolding resolve_batch
  resolve_batch-ids allow deadline uses wakes pending h s =
      let (b, ended, ids) =
        after_pass-ids allow deadline wakes pending (gateway_pass uses).0 (gateway_pass uses).1 h
          s in
      let (gateway, client) = gateway_pass-ids uses in (b, ended, ids ∙ rw (gateway, client) refl)

  client_batch-ends :
      (deadline : ℕ) (results : List RunToolResult) (uses : List ToolUse) (wakes : List Wake)
      (pending : Assoc PendingExecution)
      → stops wakes ≡ true
      → (b : Batch) × (client_batch deadline results uses wakes pending ≡ some b)
  unfolding client_batch
  client_batch-ends deadline results uses wakes pending s =
      elim (Option-cases (announce_all uses)) [
        | inl fine ↦
            let (w, ended, every) =
              wait-enqueue hash_payload hash_text deadline uses wakes pending s in
            (waited_batch results w, rw (fine, ended, client_batch) refl)
        | inr (e, failed_call) ↦ (
          record {
            results = results;
            stop_reason = error;
            failure = some (chain_failed e);
            pending = enqueue deadline uses pending;
          },
          rw (failed_call, client_batch) refl,
        )
      ]

  after_pass-ends :
      (allow : Bool) (deadline : ℕ) (wakes : List Wake) (pending : Assoc PendingExecution)
      (results : List RunToolResult) (uses : List ToolUse)
      → stops wakes ≡ true
      → (b : Batch) × (after_pass allow deadline wakes pending (results, uses) ≡ some b)
  unfolding after_pass
  after_pass-ends allow deadline wakes pending results [] s = (_, refl)
  after_pass-ends false deadline wakes pending results (u ∷ us) s = (_, refl)
  after_pass-ends true deadline wakes pending results (u ∷ us) s =
      client_batch-ends deadline results (u ∷ us) wakes pending s

  -- A batch ends, also if a call cannot be announced; if all can, each has its result.
  pub resolve_batch-ends :
      (allow : Bool) (deadline : ℕ) (uses : List ToolUse) (wakes : List Wake)
      (pending : Assoc PendingExecution)
      → stops wakes ≡ true
      → (b : Batch) × (resolve_batch allow deadline uses wakes pending ≡ some b)
        × (((u : ToolUse) → announce u ≡ none)
            → result_ids b.results ≡ gateway_ids has uses ++ client_ids has uses)
  unfolding resolve_batch
  resolve_batch-ends allow deadline uses wakes pending s =
      let (b, ended) =
        after_pass-ends allow deadline wakes pending (gateway_pass uses).0 (gateway_pass uses).1
          s in
      (
        b,
        ended,
        λ h.
            let (b', ended', ids) = resolve_batch-ids allow deadline uses wakes pending h s in
            subst (λ x. result_ids x.results ≡ gateway_ids has uses ++ client_ids has uses)
              (some_inj b' b (sym ended' ∙ ended)) ids,
      )
