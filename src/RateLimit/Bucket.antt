-- ===== src/RateLimit/Bucket.antt =====
-- pkg/gateway/ratelimit/ratelimit.go: the token bucket, allowToken. Its float64 numbers are exact
-- here, and a rate is a multiple of a billionth.
use vai_gateway.Prelude.{
  ℕ, ◌+◌, ◌-◌, ◌*◌, ◌/◌, ◌||◌, Option, none, some, List, [], ◌∷◌, ltb, leb, ◌==◌,
  numbers_comparable, if◌then◌else◌,
}

-- A second, in nanoseconds. A rate is counted in billionths of a token per second, so that a
-- nanosecond is worth so many parts of a token, of which a token has 10 ^ 18.
abbrev pub second : ℕ
second = 1000000000

abbrev pub token : ℕ
token = 1000000000000000000

pub record TokenBucket : Type 0 where
  pub rps : ℕ
  pub capacity : ℕ
  pub tokens : ℕ
  pub last : ℕ

abbrev pub no_bucket : TokenBucket
no_bucket = record { rps = 0; capacity = 0; tokens = 0; last = 0 }

unfoldable pub min : ℕ → ℕ → ℕ
min a b = if ltb a b then a else b

-- The bucket that a call begins with: a full one the first time, then that of the last call, with
-- the rate and the capacity of this one.
unfoldable pub prepared : (rps burst now : ℕ) → TokenBucket → TokenBucket
prepared rps burst now tb =
    if tb.capacity == 0
    then record { rps = rps; capacity = burst * token; tokens = burst * token; last = now }
    else record tb { rps = rps; capacity = burst * token }

unfoldable pub refilled : ℕ → TokenBucket → TokenBucket
refilled now tb =
    if ltb tb.last now
    then record tb { tokens = min tb.capacity (tb.tokens + (now - tb.last) * tb.rps); last = now }
    else tb

-- The seconds until a token is there, rounded up, and at least 1.
unfoldable pub retry_after : TokenBucket → ℕ
retry_after tb =
    let seconds = (token - tb.tokens + (tb.rps * second - 1)) / (tb.rps * second) in
    if ltb seconds 1 then 1 else seconds

unfoldable pub spend : TokenBucket → TokenBucket × Option ℕ
spend tb =
    if leb token tb.tokens
    then (record tb { tokens = tb.tokens - token }, none)
    else (tb, some (retry_after tb))

-- allowToken; `none` allows, a number refuses for so many seconds.
unfoldable pub allow_token : (rps burst now : ℕ) → TokenBucket → TokenBucket × Option ℕ
allow_token rps burst now tb =
    if burst == 0 || rps == 0 then (tb, none) else spend (refilled now (prepared rps burst now tb))

unfoldable pub count_if : Option ℕ → ℕ
count_if none = 1
count_if (some r) = 0

-- How many of the calls at these times are allowed, and the bucket that they leave.
unfoldable pub granted : (rps burst : ℕ) → List ℕ → TokenBucket → ℕ × TokenBucket
granted rps burst [] tb = (0, tb)
granted rps burst (now ∷ later) tb =
    let (after, answer) = allow_token rps burst now tb in
    let (n, last) = granted rps burst later after in (count_if answer + n, last)
