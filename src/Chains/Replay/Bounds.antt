-- ===== src/Chains/Replay/Bounds.antt =====
-- The replay buffer stays within its limits, and its byte count is the sum of its entries.
use vai_gateway.Prelude.{
  ℕ, zero, suc, ◌+◌, ◌-◌, ◌≤◌, ◌<◌, ◌≡◌, refl, ◌||◌, some, inl, inr, List, [], ◌∷◌, ◌++◌, drop,
  length, ltb, Bool-cases, arith,
}
use vai_gateway.Chains.Model.{ServerEvent, ReplayEntry, HotChain, ManagerConfig}
use vai_gateway.Chains.Replay.{trim, buffer}

unfoldable pub total_bytes : List ReplayEntry → ℕ
total_bytes [] = 0
total_bytes (e ∷ es) = length e.bytes + total_bytes es

total_bytes-append :
    (es : List ReplayEntry) (e : ReplayEntry)
    → total_bytes (es ++ e ∷ []) ≡ total_bytes es + length e.bytes
unfolding total_bytes
total_bytes-append [] e = omega arith
total_bytes-append (x ∷ es) e = omega (arith, total_bytes-append es e)

abbrev pub Fits : ManagerConfig → List ReplayEntry → Type 0
Fits cfg es = (length es ≤ cfg.replay_event_limit) × (total_bytes es ≤ cfg.replay_byte_limit)

-- What is left of a buffer: all but the fewest of the oldest entries, so that the rest fits.
abbrev pub Trimmed : ManagerConfig → List ReplayEntry → List ReplayEntry × ℕ → Type 0
Trimmed cfg es (kept, bytes) =
    (k : ℕ) × (kept ≡ drop k es)
    × (bytes ≡ total_bytes kept)
    × Fits cfg kept
    × ((j : ℕ) → j < k → ¬ Fits cfg (drop j es))

Trimmed-more :
    (cfg : ManagerConfig) (e : ReplayEntry) (es : List ReplayEntry) (r : List ReplayEntry × ℕ)
    → ¬ Fits cfg (e ∷ es)
    → Trimmed cfg es r
    → Trimmed cfg (e ∷ es) r
Trimmed-more cfg e es r over (k, same, sum, fits, fewest) = (suc k, same, sum, fits, earlier)
  where
    earlier : (j : ℕ) → j < suc k → ¬ Fits cfg (drop j (e ∷ es))
    earlier zero h = over
    earlier (suc j) h = fewest j (omega arith)

-- The loop never reads an empty buffer.
trim-Trimmed :
    (cfg : ManagerConfig) (es : List ReplayEntry) (bytes : ℕ)
    → bytes ≡ total_bytes es
    → (r : List ReplayEntry × ℕ) × (trim cfg es bytes ≡ some r) × Trimmed cfg es r
unfolding trim total_bytes
trim-Trimmed cfg [] bytes h =
    (([], bytes), ground arith, (0, refl, h, (omega arith, omega arith), λ j less. elim less [ ]))
trim-Trimmed cfg (e ∷ es) bytes h =
    let (r, trimmed, rest) = trim-Trimmed cfg es (bytes - length e.bytes) (omega arith) in
    elim (Bool-cases
      (ltb cfg.replay_event_limit (length (e ∷ es)) || ltb cfg.replay_byte_limit bytes)) [
        | inl over ↦ (r, rw over trimmed, Trimmed-more cfg e es r (λ fits. ground arith) rest)
        | inr within ↦ (
          (e ∷ es, bytes),
          rw within,
          (0, refl, h, (ground arith, ground arith), λ j less. elim less [ ]),
        )
      ]

-- The bytes of the buffer are counted.
abbrev pub IsCounted : HotChain → Type 0
IsCounted c = c.replay_bytes ≡ total_bytes c.replay

-- When the bytes of a buffer are counted, to buffer an event does not panic. It leaves all but the
-- fewest of the oldest entries, the event's entry last, so that the buffer is within both limits,
-- and its bytes are counted again.
pub buffer-Trimmed :
    (cfg : ManagerConfig) (event : ServerEvent) (bytes : List ℕ) (c : HotChain)
    → IsCounted c
    → (c' : HotChain) × (buffer cfg event bytes c ≡ some c')
      × IsCounted c'
      × Trimmed cfg
          (c.replay ++ record { event_id = event.event_id; bytes = bytes } ∷ [])
          (c'.replay, c'.replay_bytes)
unfolding buffer
buffer-Trimmed cfg event bytes c h =
    let entry : ReplayEntry = record { event_id = event.event_id; bytes = bytes } in
    let (r, trimmed, rest) =
      trim-Trimmed cfg (c.replay ++ entry ∷ []) (c.replay_bytes + length bytes)
        (omega (arith, total_bytes-append c.replay entry)) in
    (record c { replay = r.0; replay_bytes = r.1 }, rw (trimmed, buffer), rest.2, rest)
