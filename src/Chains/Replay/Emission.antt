-- ===== src/Chains/Replay/Emission.antt =====
-- The buffer of a chain against the events that it has emitted: emission keeps it their tail.
use vai_gateway.Prelude.{
  ℕ, zero, suc, ◌+◌, ◌≡◌, refl, sym, ap, subst, ◌∙◌, Option, none, some, List, [], ◌∷◌, ◌++◌,
  append-nil, append_assoc, drop, length, length-append, All, Option-cases, inl, inr, arith,
}
use vai_gateway.Chains.Model.{EventBody, ServerEvent, ReplayEntry, HotChain, ManagerConfig}
use vai_gateway.Chains.Replay.{buffer, next_event, emit_event}
use vai_gateway.Chains.Replay.Bounds.{IsCounted, buffer-Trimmed}
use vai_gateway.Chains.Replay.Exact.{Numbered, Encodes, History}

Numbered-append :
    (n : ℕ) (vs : List ServerEvent) (v : ServerEvent)
    → Numbered n vs
    → v.event_id ≡ n + length vs + 1
    → Numbered n (vs ++ v ∷ [])
Numbered-append n [] v h e = (omega (arith, e), tt)
Numbered-append n (x ∷ vs) v h e = (h.0, Numbered-append (n + 1) vs v h.1 (omega (arith, e)))

buffer-next_event_id :
    (cfg : ManagerConfig) (v : ServerEvent) (bytes : List ℕ) (c c' : HotChain)
    → buffer cfg v bytes c ≡ some c'
    → c'.next_event_id ≡ c.next_event_id
unfolding buffer
buffer-next_event_id cfg v bytes c c' e = ground arith

-- A tail of a list is one of a longer list's.
drop-more {ℓ} :
    {A : Type ℓ} (d : ℕ) (xs : List A) (x : A)
    → (j : ℕ) × (drop d xs ++ x ∷ [] ≡ drop j (xs ++ x ∷ []))
drop-more zero xs x = (0, refl)
drop-more (suc d) [] x = (0, refl)
drop-more (suc d) (y ∷ ys) x = let (j, same) = drop-more d ys x in (suc j, same)

drop-drop {ℓ} : {A : Type ℓ} (k d : ℕ) (xs : List A) → (j : ℕ) × (drop k (drop d xs) ≡ drop j xs)
drop-drop k zero xs = (k, refl)
drop-drop k (suc d) [] = (k, refl)
drop-drop k (suc d) (y ∷ ys) = let (j, same) = drop-drop k d ys in (suc j, same)

module _ (marshal : ServerEvent → Option (List ℕ)) where
  -- The entry of an event that can be marshalled.
  unfoldable pub entry_of : ServerEvent → List ReplayEntry
  entry_of v = elim (marshal v) [
    | none ↦ []
    | some bytes ↦ record { event_id = v.event_id; bytes = bytes } ∷ []
  ]

  unfoldable pub entries : List ServerEvent → List ReplayEntry
  entries [] = []
  entries (v ∷ vs) = entry_of v ++ entries vs

  -- The chain has emitted these events, numbered from 1, and its buffer holds the last entries of
  -- those that could be marshalled.
  pub record Emitted (c : HotChain) (log : List ServerEvent) : Type 0 where
    pub numbered : Numbered 0 log
    pub last : c.next_event_id ≡ length log
    pub dropped : ℕ
    pub held : c.replay ≡ drop dropped (entries log)
    pub counted : IsCounted c

  entries-append :
      (vs : List ServerEvent) (v : ServerEvent) → entries (vs ++ v ∷ []) ≡ entries vs ++ entry_of v
  unfolding entries
  entries-append [] v = append-nil (entry_of v)
  entries-append (x ∷ vs) v =
      ap (λ es. entry_of x ++ es) (entries-append vs v)
      ∙ sym (append_assoc (entry_of x) (entries vs) (entry_of v))

  entry_of-none : (v : ServerEvent) → marshal v ≡ none → entry_of v ≡ []
  unfolding entry_of
  entry_of-none v m = rw (m, entry_of) refl

  entry_of-some :
      (v : ServerEvent) (bytes : List ℕ)
      → marshal v ≡ some bytes
      → entry_of v ≡ record { event_id = v.event_id; bytes = bytes } ∷ []
  unfolding entry_of
  entry_of-some v bytes m = rw (m, entry_of) refl

  emit_event-unmarshalled :
      (cfg : ManagerConfig) (body : EventBody) (c : HotChain) (log : List ServerEvent)
      → Emitted c log
      → marshal (next_event body c) ≡ none
      → (c' : HotChain) × (emit_event marshal cfg body c ≡ some c')
        × Emitted c' (log ++ next_event body c ∷ [])
  unfolding emit_event next_event
  emit_event-unmarshalled cfg body c log h m =
      let v = next_event body c in
      let after = record c { next_event_id = c.next_event_id + 1 } in
      let same : entries (log ++ v ∷ []) ≡ entries log =
        entries-append log v
        ∙ ap (λ es. entries log ++ es) (entry_of-none v m)
        ∙ append-nil (entries log) in
      let kept : Emitted after (log ++ v ∷ []) = record {
        numbered = Numbered-append 0 log v h.numbered (omega (arith, h.last));
        last = omega (arith, h.last, length-append log (v ∷ []));
        dropped = h.dropped;
        held = h.held ∙ ap (drop h.dropped) (sym same);
        counted = h.counted;
      } in
      (after, rw (m, emit_event) refl, kept)

  emit_event-marshalled :
      (cfg : ManagerConfig) (body : EventBody) (c : HotChain) (log : List ServerEvent)
      (bytes : List ℕ)
      → Emitted c log
      → marshal (next_event body c) ≡ some bytes
      → (c' : HotChain) × (emit_event marshal cfg body c ≡ some c')
        × Emitted c' (log ++ next_event body c ∷ [])
  unfolding emit_event next_event
  emit_event-marshalled cfg body c log bytes h m =
      let v = next_event body c in
      let taken = record c { next_event_id = c.next_event_id + 1 } in
      let entry : ReplayEntry = record { event_id = v.event_id; bytes = bytes } in
      let (c', buffered, counted, (k, trimmed, _, _, _)) =
        buffer-Trimmed cfg v bytes taken h.counted in
      let (d, longer) = drop-more h.dropped (entries log) entry in
      let (j, tail) = drop-drop k d (entries log ++ entry ∷ []) in
      let same : entries (log ++ v ∷ []) ≡ entries log ++ entry ∷ [] =
        entries-append log v ∙ ap (λ es. entries log ++ es) (entry_of-some v bytes m) in
      let kept : Emitted c' (log ++ v ∷ []) = record {
        numbered = Numbered-append 0 log v h.numbered (omega (arith, h.last));
        last = omega (
          arith,
          buffer-next_event_id cfg v bytes taken c' buffered,
          h.last,
          length-append log (v ∷ []),
        );
        dropped = j;
        held =
            trimmed
            ∙ ap (λ es. drop k (es ++ entry ∷ [])) h.held
            ∙ ap (drop k) longer
            ∙ tail
            ∙ ap (drop j) (sym same);
        counted = counted;
      } in
      (c', rw (m, emit_event) buffered, kept)

  -- Whatever can be marshalled, an event is emitted without a panic. The chain has then emitted it
  -- after the others, under the next id, and its buffer holds the last entries of all that could be
  -- marshalled: an event that could not keeps its id and has no entry.
  pub emit_event-Emitted :
      (cfg : ManagerConfig) (body : EventBody) (c : HotChain) (log : List ServerEvent)
      → Emitted c log
      → (c' : HotChain) × (emit_event marshal cfg body c ≡ some c')
        × Emitted c' (log ++ next_event body c ∷ [])
  emit_event-Emitted cfg body c log h = elim (Option-cases (marshal (next_event body c))) [
    | inl failed ↦ emit_event-unmarshalled cfg body c log h failed
    | inr (bytes, marshalled) ↦ emit_event-marshalled cfg body c log bytes h marshalled
  ]

module _ (unmarshal : List ℕ → Option ServerEvent) where
  -- The oldest entries of a buffer may be dropped: their events are lost.
  record Tail (log : List ServerEvent) (es : List ReplayEntry) : Type 0 where
    lost : List ServerEvent
    kept : List ServerEvent
    split : log ≡ lost ++ kept
    numbered : Numbered (length lost) kept
    encodes : Encodes unmarshal es kept

  Tail-drop :
      (j : ℕ) (es : List ReplayEntry) (lost kept : List ServerEvent)
      → Numbered (length lost) kept
      → Encodes unmarshal es kept
      → Tail (lost ++ kept) (drop j es)
  Tail-drop zero es lost kept k h = record {
    lost = lost;
    kept = kept;
    split = refl;
    numbered = k;
    encodes = h;
  }
  Tail-drop (suc j) [] lost kept k h = record {
    lost = lost;
    kept = kept;
    split = refl;
    numbered = k;
    encodes = h;
  }
  Tail-drop (suc j) (e ∷ es) lost [] k h = absurd h
  Tail-drop (suc j) (e ∷ es) lost (v ∷ vs) k h =
      rw (← append_assoc lost (v ∷ []) vs)
        (Tail-drop j es (lost ++ v ∷ []) vs (rw (length-append lost (v ∷ [])) k.1) h.2)

  -- An event that is marshalled to bytes which decode to it.
  abbrev pub Survives : (ServerEvent → Option (List ℕ)) → ServerEvent → Type 0
  Survives marshal v = (bytes : List ℕ) × (marshal v ≡ some bytes) × (unmarshal bytes ≡ some v)

  Encodes-entries :
      (marshal : ServerEvent → Option (List ℕ)) (log : List ServerEvent)
      → All (Survives marshal) log
      → Encodes unmarshal (entries marshal log) log
  unfolding entries
  Encodes-entries marshal [] h = tt
  Encodes-entries marshal (v ∷ vs) ((bytes, marshalled, decoded), rest) =
      subst (λ es. Encodes unmarshal (es ++ entries marshal vs) (v ∷ vs))
        (sym (entry_of-some marshal v bytes marshalled))
        (refl, decoded, Encodes-entries marshal vs rest)

  -- If all the events survive, the buffer decodes to the last of them.
  pub Emitted-History :
      (marshal : ServerEvent → Option (List ℕ)) (c : HotChain) (log : List ServerEvent)
      → All (Survives marshal) log
      → Emitted marshal c log
      → History unmarshal c log
  Emitted-History marshal c log all h =
      let t : Tail log (drop h.dropped (entries marshal log)) =
        Tail-drop h.dropped (entries marshal log) [] log h.numbered
          (Encodes-entries marshal log all) in
      record {
        lost = t.lost;
        kept = t.kept;
        split = t.split;
        numbered = t.numbered;
        encodes = rw h.held t.encodes;
        last = h.last;
        counted = h.counted;
      }
