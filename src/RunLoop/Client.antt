-- ===== src/RunLoop/Client.antt =====
-- sdk/history.go: DefaultHistoryHandlerStrict, by which a client follows a streamed run.
use vai_gateway.Prelude.{
  ℕ, ◌≡◌, Option, none, some, List, [], ◌∷◌, ◌++◌, ◌==◌, length, append-nil, numbers_comparable,
  arith, inl, inr, Option-cases, if◌then◌else◌,
}
use vai_gateway.Types.{Message}
use vai_gateway.RunLoop.Model.{RunEvent, history_delta}

append_checked : ℕ → List Message → List Message → Option (List Message)
append_checked expected [] messages = some messages
append_checked expected (m ∷ ms) messages =
    if length messages == expected then some (messages ++ m ∷ ms) else none

-- The history after an event; `none` is the panic on a length that does not match.
unfoldable pub handle_strict : List Message → RunEvent → Option (List Message)
unfolding append_checked
handle_strict messages (history_delta expected added) = append_checked expected added messages
handle_strict messages ev = some messages

unfoldable pub follow : List Message → List RunEvent → Option (List Message)
follow messages [] = some messages
follow messages (ev ∷ evs) = elim (handle_strict messages ev) [
  | none ↦ none
  | some messages' ↦ follow messages' evs
]

pub follow-append :
    (messages : List Message) (log : List RunEvent) (ev : RunEvent) (h : List Message)
    → follow messages log ≡ some h
    → follow messages (log ++ ev ∷ []) ≡ handle_strict h ev
unfolding follow
follow-append messages [] ev h e = ground arith
follow-append messages (x ∷ log) ev h e = elim (Option-cases (handle_strict messages x)) [
  | inl refused ↦ ground arith
  | inr (h', seen) ↦ ground (arith, follow-append h' log ev h)
]

-- The events that the handler passes over.
abbrev pub IsSilent : RunEvent → Type 0
IsSilent (history_delta n added) = ⊥
IsSilent ev = Unit

pub follow-silent :
    (start : List Message) (log : List RunEvent) (ev : RunEvent) (h : List Message)
    → IsSilent ev
    → follow start log ≡ some h
    → follow start (log ++ ev ∷ []) ≡ some h
unfolding handle_strict
follow-silent start log (history_delta n added) h quiet e = absurd quiet
follow-silent start log ev h quiet e = follow-append start log ev h e

pub handle_delta :
    (h added : List Message) → handle_strict h (history_delta (length h) added) ≡ some (h ++ added)
unfolding handle_strict append_checked
handle_delta h [] = rw append-nil
handle_delta h (m ∷ ms) = ground arith
