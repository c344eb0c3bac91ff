-- ===== src/RateLimit/Permits.antt =====
-- The channels of a limiter hold exactly the places of the permits that are out.
use vai_gateway.Prelude.{
  ℕ, zero, suc, ◌+◌, ◌-◌, ◌≤◌, ◌<◌, ◌≡◌, refl, ap, String, Bool, true, false, ◌&&◌, some, inl, inr,
  List, [], ◌∷◌, length, ltb, leb, All, ◌==◌, numbers_comparable, Bool-cases, Option-cases,
  texts_comparable, arith, if◌then◌else◌,
}
use vai_gateway.Prelude.Assoc.{Assoc, lookup, insert}
use vai_gateway.RateLimit.{
  Config, Kind, PrincipalLimiter, Limiter, Permit, free, held, gc_locked, drop_one, still_full,
  make_room, get_or_create, touch, request_kind, stream_kind, ws_kind, limit, sem, set_sem,
  write_at, max_1, new_principal,
}
use vai_gateway.RateLimit.Bucket.{TokenBucket}

unfoldable pub same_kind : Kind → Kind → Bool
same_kind request_kind request_kind = true
same_kind stream_kind stream_kind = true
same_kind ws_kind ws_kind = true
same_kind _ _ = false

-- The places that a permit holds in a channel, 0 or 1.
unfoldable pub place : Kind → ℕ → Permit → ℕ
place k a free = 0
place k a (held j b) = if same_kind k j && b == a then 1 else 0

unfoldable pub places : Kind → ℕ → List Permit → ℕ
places k a [] = 0
places k a (p ∷ ps) = place k a p + places k a ps

pub sem-set_sem :
    (k j : Kind) (n : ℕ) (pl : PrincipalLimiter)
    → sem k (set_sem j n pl) ≡ (if same_kind k j then n else sem k pl)
unfolding sem set_sem same_kind
sem-set_sem request_kind request_kind n pl = refl
sem-set_sem request_kind stream_kind n pl = refl
sem-set_sem request_kind ws_kind n pl = refl
sem-set_sem stream_kind request_kind n pl = refl
sem-set_sem stream_kind stream_kind n pl = refl
sem-set_sem stream_kind ws_kind n pl = refl
sem-set_sem ws_kind request_kind n pl = refl
sem-set_sem ws_kind stream_kind n pl = refl
sem-set_sem ws_kind ws_kind n pl = refl

pub same_kind-limit : (k j : Kind) (cfg : Config) → same_kind k j ≡ true → limit k cfg ≡ limit j cfg
unfolding same_kind limit
same_kind-limit request_kind request_kind cfg e = refl
same_kind-limit stream_kind stream_kind cfg e = refl
same_kind-limit ws_kind ws_kind cfg e = refl
same_kind-limit request_kind stream_kind cfg e = cc
same_kind-limit request_kind ws_kind cfg e = cc
same_kind-limit stream_kind request_kind cfg e = cc
same_kind-limit stream_kind ws_kind cfg e = cc
same_kind-limit ws_kind request_kind cfg e = cc
same_kind-limit ws_kind stream_kind cfg e = cc

pub same_kind_refl : (k : Kind) → same_kind k k ≡ true
unfolding same_kind
same_kind_refl request_kind = refl
same_kind_refl stream_kind = refl
same_kind_refl ws_kind = refl

-- A limiter of which the permits `ps` are out: each channel holds the places of its permits and is
-- within its capacity, no permit is for an address that is still to be given out, and the map's
-- addresses have been.
pub record Held (cfg : Config) (l : Limiter) (ps : List Permit) : Type 0 where
  pub counted : (k : Kind) (a : ℕ) → sem k (l.heap a) ≡ places k a ps
  pub capped : (k : Kind) (a : ℕ) → sem k (l.heap a) ≤ max_1 (limit k cfg)
  pub unused : (k : Kind) (a : ℕ) → l.next ≤ a → places k a ps ≡ 0
  pub below : All (λ e. e.1 < l.next) l.m

module _ (n : ℕ) where
  abbrev Below : Assoc ℕ → Type 0
  Below m = All (λ e. e.1 < n) m

  Below-drop_one : (victim : ℕ) (m : Assoc ℕ) → Below m → Below (drop_one victim m)
  unfolding drop_one
  Below-drop_one victim [] h = tt
  Below-drop_one victim (e ∷ []) h = tt
  Below-drop_one zero (e ∷ f ∷ m) h = h.1
  Below-drop_one (suc victim) (e ∷ f ∷ m) h = (h.0, Below-drop_one victim (f ∷ m) h.1)

  Below-gc_locked :
      (ttl now : ℕ) (heap : ℕ → PrincipalLimiter) (m : Assoc ℕ)
      → Below m
      → Below (gc_locked ttl now heap m)
  unfolding gc_locked
  Below-gc_locked ttl now heap [] h = tt
  Below-gc_locked ttl now heap ((k, a) ∷ m) h =
      elim (Bool-cases (ltb ttl (now - (heap a).last_seen))) [
        | inl old ↦ rw (old, gc_locked) (Below-gc_locked ttl now heap m h.1)
        | inr young ↦ rw (young, gc_locked) (h.0, Below-gc_locked ttl now heap m h.1)
      ]

  Below-make_room :
      (cfg : Config) (victim now : ℕ) (heap : ℕ → PrincipalLimiter) (m : Assoc ℕ)
      → Below m
      → Below (make_room cfg victim now heap m)
  unfolding make_room still_full
  Below-make_room cfg victim now heap m h = elim (Bool-cases (leb cfg.max_entries (length m))) [
    | inl full ↦
        let swept = Below-gc_locked cfg.entry_ttl now heap m h in
        elim (Bool-cases (leb cfg.max_entries (length (gc_locked cfg.entry_ttl now heap m)))) [
          | inl over ↦ rw (full, over, make_room, still_full) (Below-drop_one victim _ swept)
          | inr room ↦ rw (full, room, make_room, still_full) swept
        ]
    | inr room ↦ rw (room, make_room) h
  ]

  Below-lookup : (k : String) (m : Assoc ℕ) (a : ℕ) → Below m → lookup k m ≡ some a → a < n
  unfolding lookup
  Below-lookup k [] a h e = cc
  Below-lookup k ((j, b) ∷ m) a h e = ground (arith, h.0, Below-lookup k m a h.1)

Below-suc : (n : ℕ) (m : Assoc ℕ) → Below n m → Below (n + 1) m
Below-suc n [] h = tt
Below-suc n (e ∷ m) h = (omega (arith, h.0), Below-suc n m h.1)

Below-insert : (n : ℕ) (k : String) (m : Assoc ℕ) → Below n m → Below (n + 1) (insert k n m)
unfolding insert
Below-insert n k [] h = (omega arith, tt)
Below-insert n k ((j, b) ∷ m) h = elim (Bool-cases (j == k)) [
  | inl same ↦ rw (same, insert) (omega arith, Below-suc n m h.1)
  | inr other ↦ rw (other, insert) (omega (arith, h.0), Below-insert n k m h.1)
]

module _ (cfg : Config) where
  -- A step that leaves every channel as it is keeps the permits.
  pub Held-same :
      (l l' : Limiter) (ps : List Permit)
      → ((k : Kind) (a : ℕ) → sem k (l'.heap a) ≡ sem k (l.heap a))
      → l'.next ≡ l.next
      → l'.m ≡ l.m
      → Held cfg l ps
      → Held cfg l' ps
  Held-same l l' ps same next m h = record {
    counted = λ k a. omega (arith, same k a, h.counted k a);
    capped = λ k a. omega (arith, same k a, h.capped k a);
    unused = λ k a le. h.unused k a (omega (arith, next, le));
    below = rw (m, next) h.below;
  }

  pub sem-write_at :
      (k : Kind) (a b : ℕ) (pl : PrincipalLimiter) (heap : ℕ → PrincipalLimiter)
      → sem k (write_at a pl heap b) ≡ (if a == b then sem k pl else sem k (heap b))
  unfolding write_at
  sem-write_at k a b pl heap = elim (Bool-cases (a == b)) [
    | inl same ↦ rw (same, write_at) refl
    | inr other ↦ rw (other, write_at) refl
  ]

  sem-last_seen :
      (k : Kind) (pl : PrincipalLimiter) (now : ℕ)
      → sem k (record pl { last_seen = now }) ≡ sem k pl
  unfolding sem
  sem-last_seen request_kind pl now = refl
  sem-last_seen stream_kind pl now = refl
  sem-last_seen ws_kind pl now = refl

  pub sem-tb :
      (k : Kind) (pl : PrincipalLimiter) (tb : TokenBucket)
      → sem k (record pl { tb = tb }) ≡ sem k pl
  unfolding sem
  sem-tb request_kind pl tb = refl
  sem-tb stream_kind pl tb = refl
  sem-tb ws_kind pl tb = refl

  pub sem-new_principal : (k : Kind) (now : ℕ) → sem k (new_principal now) ≡ 0
  unfolding sem
  sem-new_principal request_kind now = refl
  sem-new_principal stream_kind now = refl
  sem-new_principal ws_kind now = refl

  pub Held-get_or_create :
      (victim : ℕ) (principal : String) (now : ℕ) (l : Limiter) (ps : List Permit)
      → Held cfg l ps
      → Held cfg (get_or_create cfg victim principal now l).1 ps
        × ((get_or_create cfg victim principal now l).0
            < (get_or_create cfg victim principal now l).1.next)
  unfolding get_or_create
  Held-get_or_create victim principal now l ps h =
      let m = make_room cfg victim now l.heap l.m in
      let kept : Below l.next m = Below-make_room l.next cfg victim now l.heap l.m h.below in
      elim (Option-cases (lookup principal m)) [
        | inl missing ↦
            rw (missing, get_or_create)
              (
                record {
                  counted = λ k a. ground (
                    arith,
                    sem-write_at k l.next a (new_principal now) l.heap,
                    sem-new_principal k now,
                    h.counted k a,
                    h.unused k a,
                  );
                  capped = λ k a. ground (
                    arith,
                    sem-write_at k l.next a (new_principal now) l.heap,
                    sem-new_principal k now,
                    h.capped k a,
                  );
                  unused = λ k a le. h.unused k a (omega (arith, le));
                  below = Below-insert l.next principal m kept;
                },
                omega arith,
              )
        | inr (a, found) ↦
            rw (found, get_or_create)
              (
                record { counted = h.counted; capped = h.capped; unused = h.unused; below = kept },
                Below-lookup l.next principal m a kept found,
              )
      ]

  pub Held-touch :
      (a now : ℕ) (l : Limiter) (ps : List Permit) → Held cfg l ps → Held cfg (touch a now l) ps
  unfolding touch
  Held-touch a now l ps h =
      Held-same l _ ps
        (λ k b. ground (
          arith,
          sem-write_at k a b (record (l.heap a) { last_seen = now }) l.heap,
          sem-last_seen k (l.heap a) now,
          ap (λ x. sem k (l.heap x)) {x = a} {y = b},
        ))
        refl refl h
