-- ===== src/Chains/Replay/Exact.antt =====
-- A replay against the history of the events that the chain has emitted.
use vai_gateway.Prelude.{
  ℕ, zero, suc, ◌+◌, ◌-◌, ◌≤◌, ◌<◌, ◌≡◌, refl, ap, Bool, Option, none, some, List, [], ◌∷◌, ◌++◌,
  drop, drop_none, drop_cons, drop-append, length, length-append, leb, arith, if◌then◌else◌,
}
use native.Mathlib.Decide.{dec_le}
use vai_gateway.Chains.Model.{
  full, partial, none_replayed, ServerEvent, ReplayEntry, HotChain, canonical_error,
  chain_replay_unavailable,
}
use vai_gateway.Chains.Replay.{
  from_after, decode, Replayed, unavailable, replayed, refuse, replay_from, replay_entries,
  replay_after,
}
use vai_gateway.Chains.Replay.Bounds.{IsCounted}

-- The ids of the events follow one another, the first after `n`.
abbrev pub Numbered : ℕ → List ServerEvent → Type 0
Numbered n [] = Unit
Numbered n (v ∷ vs) = (v.event_id ≡ n + 1) × Numbered (n + 1) vs

module _ (unmarshal : List ℕ → Option ServerEvent) where
  -- The entries decode to the events, and carry their ids.
  abbrev pub Encodes : List ReplayEntry → List ServerEvent → Type 0
  Encodes [] [] = Unit
  Encodes (e ∷ es) (v ∷ vs) =
      (e.event_id ≡ v.event_id) × (unmarshal e.bytes ≡ some v) × Encodes es vs
  Encodes _ _ = ⊥

  -- The chain has emitted the events of `log`, numbered from 1; the buffer holds the last of them.
  pub record History (c : HotChain) (log : List ServerEvent) : Type 0 where
    pub lost : List ServerEvent
    pub kept : List ServerEvent
    pub split : log ≡ lost ++ kept
    pub numbered : Numbered (length lost) kept
    pub encodes : Encodes c.replay kept
    pub last : c.next_event_id ≡ length log
    pub counted : IsCounted c

  decode-drop :
      (m : ℕ) (es : List ReplayEntry) (vs : List ServerEvent)
      → Encodes es vs
      → decode unmarshal (drop m es) ≡ drop m vs
  unfolding decode
  decode-drop zero [] [] h = refl
  decode-drop zero (e ∷ es) (v ∷ vs) h = rw (h.1, decode) (ap (◌∷◌ v) (decode-drop zero es vs h.2))
  decode-drop (suc m) [] [] h = refl
  decode-drop (suc m) (e ∷ es) (v ∷ vs) h = decode-drop m es vs h.2
  decode-drop m [] (v ∷ vs) h = absurd h
  decode-drop m (e ∷ es) [] h = absurd h

  from_after-drop :
      (after n : ℕ) (es : List ReplayEntry) (vs : List ServerEvent)
      → Encodes es vs
      → Numbered n vs
      → n ≤ after
      → from_after after es
        ≡ (if leb (n + length es) after then none else some (drop (after - n) es))
  unfolding from_after
  from_after-drop after n [] [] h k le = ground arith
  from_after-drop after n (e ∷ es) (v ∷ vs) h k le = ground (
    arith,
    from_after-drop after (n + 1) es vs h.2 k.1,
    h.0,
    k.0,
    drop_none (after - n) (e ∷ es),
    drop_cons (after - n) e es,
  )
  from_after-drop after n [] (v ∷ vs) h k le = absurd h
  from_after-drop after n (e ∷ es) [] h k le = absurd h

  -- What a client past the id `after` is to be sent, from a buffer that is not empty.
  answer : ℕ → Bool → List ServerEvent → ℕ → Replayed
  answer after require_exact log held =
      if leb (length log) after
      then replayed none_replayed []
      else if leb (length log) (held + after)
      then replayed full (drop after log)
      else refuse require_exact partial

  length-Encodes :
      (es : List ReplayEntry) (vs : List ServerEvent) → Encodes es vs → length es ≡ length vs
  length-Encodes [] [] h = refl
  length-Encodes (e ∷ es) (v ∷ vs) h = ap suc (length-Encodes es vs h.2)
  length-Encodes [] (v ∷ vs) h = absurd h
  length-Encodes (e ∷ es) [] h = absurd h

  module _ (after : ℕ) (exact : Bool) (lost : List ServerEvent) (e : ReplayEntry)
      (es : List ReplayEntry) (v : ServerEvent) (vs : List ServerEvent)
      (h : Encodes (e ∷ es) (v ∷ vs)) (k : Numbered (length lost) (v ∷ vs)) where
    answer_held :
        length lost ≤ after
        → replay_from unmarshal after exact e (from_after after (e ∷ es))
          ≡ answer after exact (lost ++ v ∷ vs) (length (e ∷ es))
    unfolding replay_from answer
    answer_held le = rw (from_after-drop after (length lost) (e ∷ es) (v ∷ vs) h k le) (
        ground (
          arith,
          decode-drop (after - length lost) (e ∷ es) (v ∷ vs) h,
          drop-append after lost (v ∷ vs),
          length-append lost (v ∷ vs),
          length-Encodes (e ∷ es) (v ∷ vs) h,
          h.0,
          k.0,
        ))

    answer_lost :
        after < length lost
        → replay_from unmarshal after exact e (from_after after (e ∷ es))
          ≡ answer after exact (lost ++ v ∷ vs) (length (e ∷ es))
    unfolding replay_from answer from_after
    answer_lost lt =
        ground (arith, length-append lost (v ∷ vs), length-Encodes (e ∷ es) (v ∷ vs) h, h.0, k.0)

  entries-answer :
      (after : ℕ) (exact : Bool) (lost : List ServerEvent) (es : List ReplayEntry)
      (kept : List ServerEvent)
      → Encodes es kept
      → Numbered (length lost) kept
      → 0 < length es
      → replay_entries unmarshal after exact es ≡ answer after exact (lost ++ kept) (length es)
  unfolding replay_entries
  entries-answer after exact lost [] kept h k some_held = elim some_held [ ]
  entries-answer after exact lost (e ∷ es) [] h k some_held = absurd h
  entries-answer after exact lost (e ∷ es) (v ∷ vs) h k some_held =
      elim (dec_le (length lost) after) [
        | yes le ↦ answer_held after exact lost e es v vs h k le
        | no gt ↦ answer_lost after exact lost e es v vs h k (omega arith)
      ]

  -- From a buffer that holds an event, a client past the id `after`, which is not 0, is sent: no
  -- event if it has seen them all; else, if all that it has not seen are held, exactly those, as a
  -- full replay; else it is refused an exact replay, and gets a partial one without events.
  pub replay_after-answer :
      (after : ℕ) (exact : Bool) (c : HotChain) (log : List ServerEvent)
      → History c log
      → 0 < after
      → 0 < length c.replay
      → replay_after unmarshal after exact c ≡ (
          if leb (length log) after
          then replayed none_replayed []
          else if leb (length log) (length c.replay + after)
          then replayed full (drop after log)
          else if exact
          then unavailable (canonical_error chain_replay_unavailable "exact replay is unavailable")
          else replayed partial [])
  unfolding replay_after answer refuse
  replay_after-answer zero exact c log h asks held = elim asks [ ]
  replay_after-answer (suc n) exact c log h asks held =
      rw h.split (entries-answer (suc n) exact h.lost c.replay h.kept h.encodes h.numbered held)
