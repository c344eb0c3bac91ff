-- ===== src/RateLimit/Entries.antt =====
-- The map of the limiter stays within its limit.
use vai_gateway.Prelude.{
  ℕ, zero, suc, ◌+◌, ◌≤◌, ◌<◌, ◌≡◌, String, ◌&&◌, Option, none, some, inl, inr, [], ◌∷◌, length,
  ltb, leb, Bool-cases, Option-cases, texts_comparable, arith,
}
use vai_gateway.Prelude.Assoc.{Assoc, lookup, length-insert-le}
use vai_gateway.RateLimit.{
  Config, Kind, PrincipalLimiter, Limiter, gc_locked, drop_one, still_full, make_room,
  get_or_create, touch, or_anonymous, take_place, admit, acquire_request, acquire_stream,
  acquire_ws_session, request_kind, stream_kind, ws_kind,
}
use vai_gateway.RateLimit.Bucket.{TokenBucket}

length-drop_one :
    (victim : ℕ) (m : Assoc ℕ) → 0 < length m → length (drop_one victim m) + 1 ≡ length m
unfolding drop_one
length-drop_one victim [] h = elim h [ ]
length-drop_one victim (e ∷ []) h = omega arith
length-drop_one zero (e ∷ f ∷ m) h = omega arith
length-drop_one (suc victim) (e ∷ f ∷ m) h =
    omega (arith, length-drop_one victim (f ∷ m) (omega arith))

length-gc_locked :
    (ttl now : ℕ) (heap : ℕ → PrincipalLimiter) (m : Assoc ℕ)
    → length (gc_locked ttl now heap m) ≤ length m
unfolding gc_locked
length-gc_locked ttl now heap [] = omega arith
length-gc_locked ttl now heap (e ∷ m) = ground (arith, length-gc_locked ttl now heap m)

module _ (cfg : Config) (victim : ℕ) (on : 0 < cfg.max_entries) where
  length-still_full :
      (m : Assoc ℕ)
      → length m ≤ cfg.max_entries
      → length (still_full cfg victim m) < cfg.max_entries
  unfolding still_full
  length-still_full m le = elim (Bool-cases (leb cfg.max_entries (length m))) [
    | inl full ↦ rw (full, still_full) (omega (arith, length-drop_one victim m (ground arith), le))
    | inr room ↦ rw (room, still_full) (ground arith)
  ]

  length-make_room :
      (now : ℕ) (heap : ℕ → PrincipalLimiter) (m : Assoc ℕ)
      → length m ≤ cfg.max_entries
      → length (make_room cfg victim now heap m) < cfg.max_entries
  unfolding make_room
  length-make_room now heap m le = elim (Bool-cases (leb cfg.max_entries (length m))) [
    | inl full ↦
        rw (full, make_room)
          (length-still_full (gc_locked cfg.entry_ttl now heap m)
            (omega (arith, length-gc_locked cfg.entry_ttl now heap m, le)))
    | inr room ↦ rw (room, make_room) (ground arith)
  ]

  abbrev Bounded : Limiter → Type 0
  Bounded l = length l.m ≤ cfg.max_entries

  Bounded-get_or_create :
      (principal : String) (now : ℕ) (l : Limiter)
      → Bounded l
      → Bounded (get_or_create cfg victim principal now l).1
  unfolding get_or_create
  Bounded-get_or_create principal now l h =
      let room = length-make_room now l.heap l.m h in
      elim (Option-cases (lookup principal (make_room cfg victim now l.heap l.m))) [
        | inl missing ↦
            rw (missing, get_or_create)
              (omega (
                arith,
                room,
                length-insert-le principal l.next (make_room cfg victim now l.heap l.m),
              ))
        | inr (a, found) ↦ rw (found, get_or_create) (omega (arith, room))
      ]

  Bounded-take_place :
      (kind : Kind) (a : ℕ) (l : Limiter) → Bounded l → Bounded (take_place cfg kind a l).1
  unfolding take_place
  Bounded-take_place kind a l h = ground arith

  Bounded-admit :
      (a : ℕ) (answer : TokenBucket × Option ℕ) (l : Limiter)
      → Bounded l
      → Bounded (admit cfg a answer l).1
  unfolding admit
  Bounded-admit a (tb, none) l h = Bounded-take_place request_kind a _ h
  Bounded-admit a (tb, some r) l h = h

  -- With a limit on the entries, which the constructor grants, the map has no more of them after a
  -- call of any of the three kinds than the limit, if it had no more before.
  pub acquire-bounded :
      (principal : String) (now : ℕ) (l : Limiter)
      → length l.m ≤ cfg.max_entries
      → (length (acquire_request cfg victim principal now l).1.m ≤ cfg.max_entries)
        × (length (acquire_stream cfg victim principal now l).1.m ≤ cfg.max_entries)
        × (length (acquire_ws_session cfg victim principal now l).1.m ≤ cfg.max_entries)
  unfolding acquire_request acquire_stream acquire_ws_session touch
  acquire-bounded principal now l h =
      let created = Bounded-get_or_create (or_anonymous principal) now l h in
      (
        elim (Bool-cases (ltb 0 cfg.rps && ltb 0 cfg.burst)) [
          | inl limited ↦ rw (limited, acquire_request) (Bounded-admit _ _ _ created)
          | inr off ↦ rw (off, acquire_request) (Bounded-take_place request_kind _ _ created)
        ],
        Bounded-take_place stream_kind _ _ created,
        Bounded-take_place ws_kind _ _ created,
      )
