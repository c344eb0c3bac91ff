-- ===== src/RateLimit/Reachable.antt =====
-- Sequences of calls of a limiter: no release blocks, and no cap is passed.
use vai_gateway.Prelude.{
  ℕ, zero, suc, ◌-◌, ◌≡◌, refl, String, true, Option, none, some, ◌⊎◌, inl, inr, List, [], ◌∷◌,
  ◌++◌, ltb, numbers_comparable, arith,
}
use vai_gateway.RateLimit.{
  Config, Kind, Limiter, Permit, free, held, acquire_request, acquire_stream, acquire_ws_session,
  release, sem, set_sem, write_at, new_limiter,
}
use vai_gateway.RateLimit.Acquired.{
  given, places-free, places-held, at_place, sem-written, Held-acquire_request, Held-acquire_stream,
  Held-acquire_ws_session,
}
use vai_gateway.RateLimit.Permits.{places, same_kind_refl, Held, sem-new_principal}

-- A call of the limiter, or the release of a permit that is out, by its place among them.
pub data Call : Type 0 where
  request_call stream_call ws_call : (victim : ℕ) → (principal : String) → (now : ℕ) → Call
  release_call : ℕ → Call

unfoldable pub pick : ℕ → List Permit → Option (Permit × List Permit)
pick i [] = none
pick zero (p ∷ ps) = some (p, ps)
pick (suc i) (p ∷ ps) = elim (pick i ps) [ none ↦ none | some (q, rest) ↦ some (q, p ∷ rest) ]

-- The permits that are out after a call; `none` if it blocks for ever.
unfoldable pub perform : Config → Call → Limiter → List Permit → Option (Limiter × List Permit)
perform cfg (request_call victim principal now) l ps =
    let (d, l') = acquire_request cfg victim principal now l in some (l', given d ++ ps)
perform cfg (stream_call victim principal now) l ps =
    let (d, l') = acquire_stream cfg victim principal now l in some (l', given d ++ ps)
perform cfg (ws_call victim principal now) l ps =
    let (d, l') = acquire_ws_session cfg victim principal now l in some (l', given d ++ ps)
perform cfg (release_call i) l ps = elim (pick i ps) [
  | none ↦ some (l, ps)
  | some (p, rest) ↦ elim (release p l) [ none ↦ none | some (q, l') ↦ some (l', rest) ]
]

unfoldable pub perform_all :
    Config → List Call → Limiter → List Permit → Option (Limiter × List Permit)
perform_all cfg [] l ps = some (l, ps)
perform_all cfg (call ∷ calls) l ps = elim (perform cfg call l ps) [
  | none ↦ none
  | some (l', qs) ↦ perform_all cfg calls l' qs
]

-- A permit that is picked leaves the others.
pick-cases :
    (i : ℕ) (ps : List Permit)
    → (pick i ps ≡ none)
      ⊎ ((p : Permit) × (rest : List Permit) × (pick i ps ≡ some (p, rest))
          × ((k : Kind) (a : ℕ) → places k a ps ≡ places k a (p ∷ rest)))
unfolding pick places
pick-cases i [] = inl refl
pick-cases zero (p ∷ ps) = inr (p, ps, refl, λ k a. refl)
pick-cases (suc i) (p ∷ ps) = elim (pick-cases i ps) [
  | inl missing ↦ inl (rw (missing, pick) refl)
  | inr (q, rest, found, same) ↦
      inr (q, p ∷ rest, rw (found, pick) refl, λ k a. omega (arith, same k a))
]

module _ (cfg : Config) where
  -- Only the places of the permits count.
  Held-places :
      (l : Limiter) (ps qs : List Permit)
      → ((k : Kind) (b : ℕ) → places k b ps ≡ places k b qs)
      → Held cfg l ps
      → Held cfg l qs
  Held-places l ps qs same h = record {
    counted = λ k b. omega (arith, same k b, h.counted k b);
    capped = h.capped;
    unused = λ k b le. omega (arith, same k b, h.unused k b le);
    below = h.below;
  }

  holds_place :
      (j : Kind) (a : ℕ) (l : Limiter) (ps : List Permit)
      → Held cfg l (held j a ∷ ps)
      → ltb 0 (sem j (l.heap a)) ≡ true
  holds_place j a l ps h =
      ground (arith, h.counted j a, places-held cfg j j a a ps, same_kind_refl j)

  given_back : Kind → ℕ → Limiter → Limiter
  given_back j a l = record l {
    heap = write_at a (set_sem j (sem j (l.heap a) - 1) (l.heap a)) l.heap;
  }

  Held-given_back :
      (j : Kind) (a : ℕ) (l : Limiter) (ps : List Permit)
      → Held cfg l (held j a ∷ ps)
      → Held cfg (given_back j a l) ps
  unfolding given_back
  Held-given_back j a l ps h = record {
    counted = λ k b. ground (
      arith,
      sem-written cfg k j a b (sem j (l.heap a) - 1) l,
      places-held cfg k j a b ps,
      at_place cfg k j a b l,
      h.counted k b,
    );
    capped = λ k b. ground (
      arith,
      sem-written cfg k j a b (sem j (l.heap a) - 1) l,
      at_place cfg k j a b l,
      h.capped k b,
    );
    unused = λ k b le. ground (arith, places-held cfg k j a b ps, h.unused k b le);
    below = h.below;
  }

  -- A permit that is out is given back without blocking.
  Held-release :
      (p : Permit) (l : Limiter) (ps : List Permit)
      → Held cfg l (p ∷ ps)
      → (l' : Limiter) × (release p l ≡ some (free, l')) × Held cfg l' ps
  unfolding release given_back
  Held-release free l ps h =
      (l, refl, Held-places l (free ∷ ps) ps (λ k b. places-free cfg k b ps) h)
  Held-release (held j a) l ps h =
      (given_back j a l, rw (holds_place j a l ps h, release) refl, Held-given_back j a l ps h)

  perform-Held :
      (call : Call) (l : Limiter) (ps : List Permit)
      → Held cfg l ps
      → (l' : Limiter) × (qs : List Permit) × (perform cfg call l ps ≡ some (l', qs))
        × Held cfg l' qs
  unfolding perform
  perform-Held (request_call victim principal now) l ps h =
      (_, _, refl, Held-acquire_request cfg victim principal now l ps h)
  perform-Held (stream_call victim principal now) l ps h =
      (_, _, refl, Held-acquire_stream cfg victim principal now l ps h)
  perform-Held (ws_call victim principal now) l ps h =
      (_, _, refl, Held-acquire_ws_session cfg victim principal now l ps h)
  perform-Held (release_call i) l ps h = elim (pick-cases i ps) [
    | inl missing ↦ (l, ps, rw (missing, perform) refl, h)
    | inr (p, rest, found, same) ↦
        let (l', done, after) = Held-release p l rest (Held-places l ps (p ∷ rest) same h) in
        (l', rest, rw (found, perform, done) refl, after)
  ]

  Held-new : Held cfg new_limiter []
  unfolding places
  Held-new = record {
    counted = λ k a. sem-new_principal cfg k 0;
    capped = λ k a. omega (arith, sem-new_principal cfg k 0);
    unused = λ k a le. refl;
    below = tt;
  }

  perform_all-Held :
      (calls : List Call) (l : Limiter) (ps : List Permit)
      → Held cfg l ps
      → (l' : Limiter) × (qs : List Permit) × (perform_all cfg calls l ps ≡ some (l', qs))
        × Held cfg l' qs
  unfolding perform_all
  perform_all-Held [] l ps h = (l, ps, refl, h)
  perform_all-Held (call ∷ calls) l ps h =
      let (l', qs, done, after) = perform-Held call l ps h in
      let (l'', rs, all_done, last) = perform_all-Held calls l' qs after in
      (l'', rs, rw (done, perform_all) all_done, last)

  -- Whatever calls a new limiter gets, one at a time and each release for a permit that is out, no
  -- release blocks. Afterwards every channel, also of a principal that has been dropped from the
  -- map, holds exactly the places of its permits that are out, and no more than its capacity.
  pub perform_all-Held_new :
      (calls : List Call)
      → (l : Limiter) × (ps : List Permit) × (perform_all cfg calls new_limiter [] ≡ some (l, ps))
        × Held cfg l ps
  perform_all-Held_new calls = perform_all-Held calls new_limiter [] Held-new
