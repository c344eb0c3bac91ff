-- ===== src/Chains/Execution/Moves.antt =====
-- What a pass of executeRun does to the history of the run and of its chain, and what a client that
-- follows the run's events sees of it.
use vai_gateway.Prelude.{
  ℕ, ◌-◌, ◌≡◌, refl, sym, ap, ◌∙◌, Option, none, some, List, [], ◌∷◌, ◌++◌, length, length-append,
  append-nil, All, texts_comparable, arith, Bool-cases, inl, inr,
}
use vai_gateway.Types.{Message, ToolUse, MessageResponse}
use vai_gateway.RunLoop.Model.{
  GoError, RunEvent, run_error, history_delta, step_complete, run_complete, assistant, tool_message,
}
use vai_gateway.RunLoop.Client.{follow, follow-append, IsSilent, follow-silent, handle_delta}
use vai_gateway.Chains.Manager.Finish.{commit_history}
use vai_gateway.Chains.ClientTools.Batch.{Batch}
use vai_gateway.Chains.Execution.{
  Runner, RunFailure, Progress, over, log_event, log_events, finish_run, commit, count_turn,
  with_messages, with_answer, end_with_answer, with_results, close_step, tool_events, take_ids,
  with_tool_events, fail_step,
}

-- The client's history, that of the run and that of the chain are the same.
abbrev pub Synced : List Message → Progress → Type 0
Synced start p = (p.chain.history ≡ p.history) × (follow start p.events ≡ some p.history)

pub Synced-log_event :
    (start : List Message) (ev : RunEvent) (p : Progress)
    → IsSilent ev
    → Synced start p
    → Synced start (log_event ev p)
unfolding log_event
Synced-log_event start ev p quiet s = (s.0, follow-silent start p.events ev p.history quiet s.1)

pub Synced-log_events :
    (start : List Message) (evs : List RunEvent) (p : Progress)
    → All IsSilent evs
    → Synced start p
    → Synced start (log_events evs p)
      × ((log_events evs p).history ≡ p.history)
      × ((log_events evs p).step_index ≡ p.step_index)
unfolding log_events log_event
Synced-log_events start [] p quiet s = (s, refl, refl)
Synced-log_events start (ev ∷ evs) p quiet s =
    Synced-log_events start evs (log_event ev p) quiet.1 (Synced-log_event start ev p quiet.0 s)

tail-length :
    (n : ℕ) (h added h' : List Message)
    → h' ≡ h ++ added
    → length added ≡ n
    → length h' - n ≡ length h
tail-length n h added h' e size = rw e (omega (arith, length-append h added, size))

-- Messages that are committed and then sent as a difference to the history.
delta-Synced :
    (start : List Message) (n : ℕ) (added : List Message) (ev : RunEvent) (p q : Progress)
    → Synced start p
    → length added ≡ n
    → IsSilent ev
    → q.events ≡ p.events
    → q.history ≡ p.history ++ added
    → q.chain.history ≡ p.chain.history ++ added
    → Synced start (log_event (history_delta (length q.history - n) added) (log_event ev q))
unfolding log_event
delta-Synced start n added ev p q s size quiet events history chain =
    let seen : follow start (q.events ++ ev ∷ []) ≡ some p.history =
      follow-silent start q.events ev p.history quiet (rw events s.1) in
    let len = tail-length n p.history added q.history history size in
    (
      chain ∙ ap (λ h. h ++ added) s.0 ∙ sym history,
      follow-append start (q.events ++ ev ∷ []) _ p.history seen
          ∙ rw len (handle_delta p.history added ∙ ap some (sym history)),
    )

-- The same, and the history of the run is longer by these messages.
abbrev pub Moved : List Message → Progress → Progress → List Message → Type 0
Moved start p q added = Synced start q × (q.history ≡ p.history ++ added)

-- The messages of the result are those of the history.
unfoldable pub Reports : Option RunFailure → Progress → Type 0
Reports none p = p.result.messages ≡ p.history
Reports (some (RunFailure.tool_error e)) p = p.result.messages ≡ p.history
Reports (some e) p = Unit

pub fail_step-Moved :
    (start : List Message) (r : Runner) (e : GoError) (p : Progress)
    → Synced start p
    → (q : Progress) × (f : Option RunFailure) × (fail_step r e p ≡ over q f)
      × Moved start p q []
      × Reports f q
unfolding fail_step finish_run log_event Reports
fail_step-Moved start r e p s = (
  _,
  _,
  refl,
  ((s.0, follow-silent start p.events (run_error e) p.history tt s.1), sym (append-nil p.history)),
  tt,
)

pub end_with_answer-Moved :
    (start : List Message) (r : Runner) (resp : MessageResponse) (p : Progress)
    → Synced start p
    → (q : Progress) × (end_with_answer r resp p ≡ over q none)
      × Moved start p q (assistant resp.content ∷ [])
      × Reports none q
unfolding end_with_answer with_answer finish_run log_event commit commit_history count_turn
    with_messages Reports
end_with_answer-Moved start r resp p s =
    let done = with_answer r resp p in
    let added = assistant resp.content ∷ [] in
    let q =
      log_event (history_delta (length done.history - 1) added)
        (log_event (step_complete p.step_index resp) done) in
    let sent : Synced start q =
      delta-Synced start 1 added (step_complete p.step_index resp) p done s refl tt refl refl
        refl in
    (
      log_event (run_complete done.result) q,
      refl,
      (Synced-log_event start (run_complete done.result) q tt sent, refl),
      refl,
    )

tool_events-IsSilent :
    (r : Runner) (i : ℕ) (uses : List ToolUse) → All IsSilent (tool_events r i uses)
unfolding tool_events
tool_events-IsSilent r i [] = tt
tool_events-IsSilent r i (u ∷ us) = elim (Bool-cases (r.has_tool u.name)) [
  | inl ours ↦ rw (ours, tool_events) (tt, (tt, tool_events-IsSilent r i us))
  | inr theirs ↦ rw (theirs, tool_events) (tool_events-IsSilent r i us)
]

pub with_tool_events-Synced :
    (start : List Message) (r : Runner) (uses : List ToolUse) (p : Progress)
    → Synced start p
    → Synced start (with_tool_events r uses p)
      × ((with_tool_events r uses p).history ≡ p.history)
      × ((with_tool_events r uses p).step_index ≡ p.step_index)
unfolding with_tool_events take_ids
with_tool_events-Synced start r uses p s =
    Synced-log_events start (tool_events r p.step_index uses) p
      (tool_events-IsSilent r p.step_index uses) s

-- Calls are announced without an error.
abbrev pub Announces : Runner → Type 0
Announces r = (u : ToolUse) → r.announce u ≡ none

pub close_step-Moved :
    (start : List Message) (r : Runner) (resp : MessageResponse) (b : Batch) (p : Progress)
    → Synced start p
    → Moved start p (close_step r resp b p) (assistant resp.content ∷ tool_message b.results ∷ [])
      × ((close_step r resp b p).step_index ≡ p.step_index)
unfolding close_step with_results log_event commit commit_history count_turn
close_step-Moved start r resp b p s = (
  (
    delta-Synced start 2 (assistant resp.content ∷ tool_message b.results ∷ [])
        (step_complete p.step_index resp) p (with_results r resp b p) s refl tt refl refl refl,
    refl,
  ),
  refl,
)
