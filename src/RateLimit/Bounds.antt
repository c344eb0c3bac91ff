-- ===== src/RateLimit/Bounds.antt =====
-- How many calls a token bucket allows.
use native.Mathlib.Nat
use vai_gateway.Prelude.{
  ℕ, ◌+◌, ◌-◌, ◌*◌, ◌≤◌, ◌<◌, ◌≡◌, refl, ap, false, inl, inr, List, [], ◌∷◌, All, ltb, leb, ◌==◌,
  ◌||◌, numbers_comparable, Bool-cases, arith,
}
use vai_gateway.RateLimit.Bucket.{
  TokenBucket, token, no_bucket, min, prepared, refilled, spend, allow_token, count_if, granted,
}

min-le : (a b : ℕ) → min a b ≤ b
unfolding min
min-le a b = ground arith

module _ (rps burst : ℕ) (on : 0 < rps) (some_burst : 0 < burst) where
  -- The time between two calls is worth so many tokens.
  refill_eq : (last now : ℕ) → last ≤ now → (now - last) * rps + rps * last ≡ rps * now
  refill_eq last now le =
      let back : now - last + last ≡ now = omega arith in
      omega (
        arith,
        Nat.mul_comm rps last,
        Nat.mul_comm rps now,
        Nat.add-mul (now - last) last rps,
        ap (λ x. x * rps) back,
      )

  -- What is spent and what is left, against what there was and the time that has passed.
  abbrev Paid : TokenBucket → ℕ → TokenBucket → Type 0
  Paid tb n after =
      (after.capacity ≡ burst * token)
      × (n * token + after.tokens + rps * tb.last ≤ tb.tokens + rps * after.last)

  Paid-refilled :
      (tb : TokenBucket) (now : ℕ)
      → tb.capacity ≡ burst * token
      → tb.rps ≡ rps
      → Paid tb 0 (refilled now tb)
  unfolding refilled
  Paid-refilled tb now c r = elim (Bool-cases (ltb tb.last now)) [
    | inl later ↦
        rw (later, refilled)
          (
            c,
            omega (
              arith,
              refill_eq tb.last now (ground arith),
              min-le tb.capacity (tb.tokens + (now - tb.last) * tb.rps),
              ap (λ x. (now - tb.last) * x) r,
            ),
          )
    | inr not_later ↦ rw (not_later, refilled) (c, omega arith)
  ]

  Paid-spend :
      (before tb : TokenBucket)
      → Paid before 0 tb
      → Paid before (count_if (spend tb).1) (spend tb).0
  unfolding spend count_if
  Paid-spend before tb (c, paid) = elim (Bool-cases (leb token tb.tokens)) [
    | inl enough ↦ rw (enough, spend) (c, ground arith)
    | inr short ↦ rw (short, spend) (c, paid)
  ]

  -- A bucket that has been filled goes on with the tokens of its last call.
  pub allow_token-started :
      (tb : TokenBucket) (now : ℕ)
      → tb.capacity ≡ burst * token
      → allow_token rps burst now tb
        ≡ spend (refilled now (record tb { rps = rps; capacity = burst * token }))
  unfolding allow_token prepared
  allow_token-started tb now c =
      let is_on : (burst == 0 || rps == 0) ≡ false = ground arith in
      let is_filled : (tb.capacity == 0) ≡ false = ground arith in
      rw (is_on, is_filled, allow_token, prepared) refl

  Paid-allow_token :
      (tb : TokenBucket) (now : ℕ)
      → tb.capacity ≡ burst * token
      → Paid tb (count_if (allow_token rps burst now tb).1) (allow_token rps burst now tb).0
  Paid-allow_token tb now c =
      let tb' = record tb { rps = rps; capacity = burst * token } in
      rw (allow_token-started tb now c)
        (Paid-spend tb' (refilled now tb') (Paid-refilled tb' now refl refl))

  last-allow_token :
      (tb : TokenBucket) (now finish : ℕ)
      → tb.capacity ≡ burst * token
      → now ≤ finish
      → tb.last ≤ finish
      → (allow_token rps burst now tb).0.last ≤ finish
  unfolding spend refilled
  last-allow_token tb now finish c le h = rw (allow_token-started tb now c) (ground arith)

  granted-Paid :
      (finish : ℕ) (times : List ℕ) (tb : TokenBucket)
      → tb.capacity ≡ burst * token
      → All (λ t. t ≤ finish) times
      → tb.last ≤ finish
      → (granted rps burst times tb).0 * token + rps * tb.last ≤ tb.tokens + rps * finish
  unfolding granted
  granted-Paid finish [] tb c within h = omega (arith, refill_eq tb.last finish h)
  granted-Paid finish (now ∷ later) tb c within h =
      let (c', paid) = Paid-allow_token tb now c in
      let rest =
        granted-Paid finish later (allow_token rps burst now tb).0 c' within.1
          (last-allow_token tb now finish c within.0 h) in
      omega (arith, paid, rest)

  -- A bucket is full when it is new.
  abbrev filled : ℕ → TokenBucket
  filled start = record {
    rps = rps;
    capacity = burst * token;
    tokens = burst * token;
    last = start;
  }

  allow_token-first :
      (start : ℕ)
      → allow_token rps burst start no_bucket ≡ allow_token rps burst start (filled start)
  unfolding allow_token prepared
  allow_token-first start =
      let is_on : (burst == 0 || rps == 0) ≡ false = ground arith in
      let is_filled : (burst * token == 0) ≡ false = ground arith in
      rw (is_on, is_filled, allow_token, prepared) refl

  -- Of the calls at the given times, the first at `start` and none after `finish`, a bucket that is
  -- new allows no more than its burst and the rate times the time that has passed; the
  -- rate is counted in billionths of a token per second, and time in nanoseconds.
  pub granted-le :
      (start finish : ℕ) (later : List ℕ)
      → All (λ t. t ≤ finish) (start ∷ later)
      → (granted rps burst (start ∷ later) no_bucket).0 * token + rps * start
        ≤ burst * token + rps * finish
  unfolding granted
  granted-le start finish later within =
      rw (allow_token-first start)
        (granted-Paid finish (start ∷ later) (filled start) refl within within.0)
