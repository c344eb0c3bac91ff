-- ===== src/RateLimit/Acquired.antt =====
-- An acquisition adds its permit to those that are out.
use vai_gateway.Prelude.{
  ℕ, ◌+◌, ◌<◌, ◌≡◌, refl, ap, sym, String, true, ◌&&◌, Option, none, some, inl, inr, List, [], ◌∷◌,
  ◌++◌, ltb, ◌==◌, numbers_comparable, Bool-cases, arith, if◌then◌else◌,
}
use vai_gateway.RateLimit.{
  Config, Kind, Limiter, Permit, free, held, Decision, allowed, refused, touch, or_anonymous,
  take_place, admit, acquire_request, acquire_stream, acquire_ws_session, request_kind, stream_kind,
  ws_kind, limit, sem, set_sem, write_at, max_1,
}
use vai_gateway.RateLimit.Bucket.{TokenBucket}
use vai_gateway.RateLimit.Permits.{
  same_kind, place, places, sem-set_sem, same_kind-limit, Held, Held-same, sem-write_at, sem-tb,
  Held-get_or_create, Held-touch,
}

unfoldable pub given : Decision → List Permit
given (allowed p) = p ∷ []
given (refused r) = []

module _ (cfg : Config) where
  -- The channel `j` of one limiter is written.
  pub sem-written :
      (k j : Kind) (a b n : ℕ) (l : Limiter)
      → sem k (write_at a (set_sem j n (l.heap a)) l.heap b)
        ≡ (if same_kind k j && a == b then n else sem k (l.heap b))
  sem-written k j a b n l = ground (
    arith,
    sem-write_at cfg k a b (set_sem j n (l.heap a)) l.heap,
    sem-set_sem k j n (l.heap a),
    ap (λ x. sem k (l.heap x)) {x = a} {y = b},
  )

  pub places-held :
      (k j : Kind) (a b : ℕ) (ps : List Permit)
      → places k b (held j a ∷ ps)
        ≡ (if same_kind k j && a == b then places k b ps + 1 else places k b ps)
  unfolding places place
  places-held k j a b ps = ground arith

  pub places-free : (k : Kind) (b : ℕ) (ps : List Permit) → places k b (free ∷ ps) ≡ places k b ps
  unfolding places place
  places-free k b ps = omega arith

  pub at_place :
      (k j : Kind) (a b : ℕ) (l : Limiter)
      → (same_kind k j && a == b) ≡ true
      → sem k (l.heap b) ≡ sem j (l.heap a)
  unfolding same_kind
  at_place request_kind request_kind a b l e =
      ap (λ x. sem request_kind (l.heap x)) (sym (ground arith))
  at_place stream_kind stream_kind a b l e =
      ap (λ x. sem stream_kind (l.heap x)) (sym (ground arith))
  at_place ws_kind ws_kind a b l e = ap (λ x. sem ws_kind (l.heap x)) (sym (ground arith))
  at_place request_kind stream_kind a b l e = ground arith
  at_place request_kind ws_kind a b l e = ground arith
  at_place stream_kind request_kind a b l e = ground arith
  at_place stream_kind ws_kind a b l e = ground arith
  at_place ws_kind request_kind a b l e = ground arith
  at_place ws_kind stream_kind a b l e = ground arith

  Held-take_place :
      (kind : Kind) (a : ℕ) (l : Limiter) (ps : List Permit)
      → a < l.next
      → Held cfg l ps
      → Held cfg (take_place cfg kind a l).1 (given (take_place cfg kind a l).0 ++ ps)
  unfolding take_place given
  Held-take_place kind a l ps known h = elim (Bool-cases (ltb 0 (limit kind cfg))) [
    | inr off ↦
        rw (off, take_place)
          (record {
            counted = λ k b. omega (arith, places-free k b ps, h.counted k b);
            capped = h.capped;
            unused = λ k b le. omega (arith, places-free k b ps, h.unused k b le);
            below = h.below;
          })
    | inl on ↦ elim (Bool-cases (ltb (sem kind (l.heap a)) (max_1 (limit kind cfg)))) [
      | inr full ↦ rw (on, full, take_place) h
      | inl room ↦
          rw (on, room, take_place)
            (record {
              counted = λ k b. ground (
                arith,
                sem-written k kind a b (sem kind (l.heap a) + 1) l,
                places-held k kind a b ps,
                at_place k kind a b l,
                h.counted k b,
              );
              capped = λ k b. ground (
                arith,
                sem-written k kind a b (sem kind (l.heap a) + 1) l,
                same_kind-limit k kind cfg,
                h.capped k b,
              );
              unused = λ k b le. ground (arith, places-held k kind a b ps, h.unused k b le);
              below = h.below;
            })
    ]
  ]

  Held-tb :
      (a : ℕ) (tb : TokenBucket) (l : Limiter) (ps : List Permit)
      → Held cfg l ps
      → Held cfg (record l { heap = write_at a (record (l.heap a) { tb = tb }) l.heap }) ps
  Held-tb a tb l ps h =
      Held-same cfg l _ ps
        (λ k b. ground (
          arith,
          sem-write_at cfg k a b (record (l.heap a) { tb = tb }) l.heap,
          sem-tb cfg k (l.heap a) tb,
          ap (λ x. sem k (l.heap x)) {x = a} {y = b},
        ))
        refl refl h

  Held-admit :
      (a : ℕ) (answer : TokenBucket × Option ℕ) (l : Limiter) (ps : List Permit)
      → a < l.next
      → Held cfg l ps
      → Held cfg (admit cfg a answer l).1 (given (admit cfg a answer l).0 ++ ps)
  unfolding admit given
  Held-admit a (tb, none) l ps known h =
      Held-take_place request_kind a _ ps known (Held-tb a tb l ps h)
  Held-admit a (tb, some r) l ps known h = Held-tb a tb l ps h

  pub Held-acquire_request :
      (victim : ℕ) (principal : String) (now : ℕ) (l : Limiter) (ps : List Permit)
      → Held cfg l ps
      → Held cfg
          (acquire_request cfg victim principal now l).1
          (given (acquire_request cfg victim principal now l).0 ++ ps)
  unfolding acquire_request touch
  Held-acquire_request victim principal now l ps h =
      let (created, known) = Held-get_or_create cfg victim (or_anonymous principal) now l ps h in
      let seen = Held-touch cfg _ now _ ps created in
      elim (Bool-cases (ltb 0 cfg.rps && ltb 0 cfg.burst)) [
        | inl limited ↦ rw (limited, acquire_request) (Held-admit _ _ _ ps known seen)
        | inr off ↦ rw (off, acquire_request) (Held-take_place request_kind _ _ ps known seen)
      ]

  pub Held-acquire_stream :
      (victim : ℕ) (principal : String) (now : ℕ) (l : Limiter) (ps : List Permit)
      → Held cfg l ps
      → Held cfg
          (acquire_stream cfg victim principal now l).1
          (given (acquire_stream cfg victim principal now l).0 ++ ps)
  unfolding acquire_stream touch
  Held-acquire_stream victim principal now l ps h =
      let (created, known) = Held-get_or_create cfg victim (or_anonymous principal) now l ps h in
      Held-take_place stream_kind _ _ ps known (Held-touch cfg _ now _ ps created)

  pub Held-acquire_ws_session :
      (victim : ℕ) (principal : String) (now : ℕ) (l : Limiter) (ps : List Permit)
      → Held cfg l ps
      → Held cfg
          (acquire_ws_session cfg victim principal now l).1
          (given (acquire_ws_session cfg victim principal now l).0 ++ ps)
  unfolding acquire_ws_session touch
  Held-acquire_ws_session victim principal now l ps h =
      let (created, known) = Held-get_or_create cfg victim (or_anonymous principal) now l ps h in
      Held-take_place ws_kind _ _ ps known (Held-touch cfg _ now _ ps created)
