-- ===== src/Chains/Execution/Ends.antt =====
-- What one pass of executeRun leaves behind.
use vai_gateway.Prelude.{
  ℕ, ◌+◌, ◌≡◌, refl, ap, ◌∙◌, true, ◌||◌, not, Option, none, some, List, [], ◌∷◌, ◌++◌, map, All,
  ◌==◌, texts_comparable, Bool-cases, inl, inr,
}
use vai_gateway.Types.{Message, MessageResponse, tool_uses}
use vai_gateway.RunLoop.Model.{
  StopReason, run_complete, step_start, stream_event, assistant, tool_message,
}
use vai_gateway.RunLoop.Accumulator.{StreamEvent}
use vai_gateway.RunLoop.Client.{IsSilent}
use vai_gateway.Chains.ClientTools.Waiting.{stops}
use vai_gateway.Chains.ClientTools.Batch.{BatchError, Batch, resolve_batch-ends}
use vai_gateway.Chains.Execution.{
  Upstream, refused, opened, upstream, Runner, tool_error, Progress, Pass, on, over, log_event,
  log_events, finish_run, Turn, turned, turn_failed, turn_of, turn_events, with_messages,
  end_with_answer, close_step, with_tool_events, after_tools, with_batch, use_tools, fail_step,
  no_uses, after_turn, begin_step,
}
use vai_gateway.Chains.Execution.Answers.{Answers, batch-Answers, Turns}
use vai_gateway.Chains.Execution.Moves.{
  Synced, Synced-log_event, Synced-log_events, Moved, Reports, fail_step-Moved,
  end_with_answer-Moved, Announces, close_step-Moved, with_tool_events-Synced,
}

-- What a pass leaves behind.
unfoldable pub Passes : List Message → Runner → Progress → Pass → Type 0
Passes start r p (on q) =
    (a : Message) × (t : Message) × Moved start p q (a ∷ t ∷ [])
    × (q.step_index ≡ p.step_index + 1)
    × (Announces r → Answers a t)
Passes start r p (over q f) =
    (added : List Message) × Moved start p q added × Reports f q × (Announces r → Turns added)

module _ (start : List Message) (r : Runner) where
  after_tools-Passes :
      (resp : MessageResponse) (stop : StopReason) (e : Option BatchError) (p q : Progress)
      (a t : Message)
      → Moved start p q (a ∷ t ∷ [])
      → q.step_index ≡ p.step_index
      → (Announces r → Answers a t)
      → Passes start r p (after_tools r resp stop e q)
  unfolding after_tools Passes finish_run with_messages log_event Reports Turns
  after_tools-Passes resp stop none p q a t moved same answers =
      (a, t, moved, ap (λ i. i + 1) same, answers)
  after_tools-Passes resp stop (some e) p q a t moved same answers =
      let done =
        finish_run stop (some (tool_error e)) (r.now q.step_index) (with_messages resp stop q) in
      (
        a ∷ t ∷ [],
        (Synced-log_event start (run_complete done.result) done tt moved.0, moved.1),
        refl,
        λ h. (answers h, tt),
      )

  with_batch-Passes :
      (resp : MessageResponse) (b : Batch) (p : Progress)
      → Synced start p
      → (Announces r → Answers (assistant resp.content) (tool_message b.results))
      → Passes start r p (with_batch r resp b p)
  unfolding with_batch
  with_batch-Passes resp b p s answers =
      let p' = with_tool_events r (tool_uses resp.content) p in
      let (s', same, index) = with_tool_events-Synced start r (tool_uses resp.content) p s in
      let ((synced, grown), index') = close_step-Moved start r resp b p' s' in
      after_tools-Passes resp b.stop_reason b.failure p (close_step r resp b p')
        (assistant resp.content) (tool_message b.results)
        (synced, grown ∙ ap (λ h. h ++ assistant resp.content ∷ tool_message b.results ∷ []) same)
        (index' ∙ index) answers

  module _ (ends : (i : ℕ) → stops (r.wakes i) ≡ true) where
    use_tools-Passes :
        (resp : MessageResponse) (p : Progress)
        → Synced start p
        → (x : Pass) × (use_tools r resp p ≡ some x) × Passes start r p x
    unfolding use_tools
    use_tools-Passes resp p s =
        let (b, ended_batch, ids) =
          resolve_batch-ends r.has_tool (r.execute p.step_index) r.finish_images r.announce
            r.hash_payload r.hash_text r.allow_client_tools (r.deadline p.step_index)
            (tool_uses resp.content) (r.wakes p.step_index) p.pending (ends p.step_index) in
        (
          with_batch r resp b p,
          rw (use_tools, ended_batch) refl,
          with_batch-Passes resp b p s (λ h. batch-Answers r.has_tool resp b (ids h)),
        )

    after_turn-Passes :
        (t : Turn) (p : Progress)
        → Synced start p
        → (x : Pass) × (after_turn r p t ≡ some x) × Passes start r p x
    unfolding after_turn Passes Turns
    after_turn-Passes (turn_failed partial e) p s =
        let (q, f, same, moved, reports) = fail_step-Moved start r e p s in
        (fail_step r e p, refl, rw same ([], moved, reports, λ h. tt))
    after_turn-Passes (turned resp) p s =
        elim (Bool-cases
          (not (resp.stop_reason == "tool_use") || no_uses (tool_uses resp.content))) [
            | inl last ↦
                let (q, same, moved, reports) = end_with_answer-Moved start r resp p s in
                (
                  end_with_answer r resp p,
                  rw (last, after_turn) refl,
                  rw same (assistant resp.content ∷ [], moved, reports, λ h. refl),
                )
            | inr tools ↦ rw (tools, after_turn) (use_tools-Passes resp p s)
          ]

    -- A pass from a state with the same history and index as another moves from that one too.
    Passes-from :
        (p p' : Progress) (x : Pass)
        → p'.history ≡ p.history
        → p'.step_index ≡ p.step_index
        → Passes start r p' x
        → Passes start r p x
    unfolding Passes
    Passes-from p p' (on q) same index (a, t, moved, step, answers) = (
      a,
      t,
      (moved.0, moved.1 ∙ ap (λ h. h ++ a ∷ t ∷ []) same),
      step ∙ ap (λ i. i + 1) index,
      answers,
    )
    Passes-from p p' (over q f) same index (added, moved, reports, turns) =
        (added, (moved.0, moved.1 ∙ ap (λ h. h ++ added) same), reports, turns)

    stream-IsSilent : (evs : List StreamEvent) → All IsSilent (map stream_event evs)
    stream-IsSilent [] = tt
    stream-IsSilent (ev ∷ evs) = (tt, stream-IsSilent evs)

    turn_events-IsSilent : (up : Upstream) → All IsSilent (turn_events up)
    unfolding turn_events
    turn_events-IsSilent (refused e) = tt
    turn_events-IsSilent (opened evs e) = stream-IsSilent evs

    pub begin_step-Passes :
        (p : Progress)
        → Synced start p
        → (x : Pass) × (begin_step r p ≡ some x) × Passes start r p x
    unfolding begin_step log_event
    begin_step-Passes p s =
        let up = upstream r p.step_index p.history in
        let p0 = log_event (step_start p.step_index) p in
        let s0 : Synced start p0 = Synced-log_event start (step_start p.step_index) p tt s in
        let (s1, same, index) =
          Synced-log_events start (turn_events up) p0 (turn_events-IsSilent up) s0 in
        let p1 = log_events (turn_events up) p0 in
        let (x, passed, moves) = after_turn-Passes (turn_of r.parse_object up) p1 s1 in
        (x, passed, Passes-from p p1 x same index moves)
