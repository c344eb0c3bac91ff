-- ===== src/RateLimit.antt =====
-- pkg/gateway/ratelimit/ratelimit.go: the limiter of a principal's requests, streams and sessions.
-- Times are nanoseconds. A rate is in billionths of a request per second, and tokens, which are
-- floats in the code, are counted without rounding. A limiter that is dropped from the map lives on in the permits that point to it: `heap` holds every one, by its address.
-- Calls run one at a time. PrincipalKeyFromAPIKey and PrincipalKeyFromIP, hashes, are left out.
pub mod Bucket
pub mod Bounds
pub mod Retry
pub mod Entries
pub mod Permits
pub mod Acquired
pub mod Reachable
mod Tests
use vai_gateway.Prelude.{
  ℕ, zero, suc, ◌+◌, ◌-◌, String, Bool, true, false, ◌&&◌, List, [], ◌∷◌, Option, none, some, ltb,
  leb, length, ◌==◌, texts_comparable, numbers_comparable, if◌then◌else◌,
}
use vai_gateway.Prelude.Assoc.{Assoc, lookup, insert}
use Bucket.{TokenBucket, no_bucket, allow_token}

-- Limits of 0 or less are off; a negative number is 0 here.
pub record Config : Type 0 where
  pub rps : ℕ
  pub burst : ℕ
  pub max_concurrent_requests : ℕ
  pub max_concurrent_streams : ℕ
  pub max_concurrent_ws_sessions : ℕ
  pub max_entries : ℕ
  pub entry_ttl : ℕ

pub data Kind : Type 0 where
  request_kind stream_kind ws_kind : Kind

-- The three channels, each as the number of values that it holds.
pub record PrincipalLimiter : Type 0 where
  pub tb : TokenBucket
  pub req_sem : ℕ
  pub stream_sem : ℕ
  pub ws_sem : ℕ
  pub last_seen : ℕ

pub record Limiter : Type 0 where
  pub m : Assoc ℕ
  pub heap : ℕ → PrincipalLimiter
  pub next : ℕ

-- A permit that gives back a place in a channel, or none.
pub data Permit : Type 0 where
  free : Permit
  held : Kind → (address : ℕ) → Permit

pub data Decision : Type 0 where
  allowed : Permit → Decision
  refused : (retry_after : ℕ) → Decision

-- New: the limits of the map are put in order.
unfoldable pub configured : Config → Config
configured cfg = record cfg {
  max_entries = if cfg.max_entries == 0 then 10000 else cfg.max_entries;
  entry_ttl = if cfg.entry_ttl == 0 then 1800000000000 else cfg.entry_ttl;
}

abbrev pub new_principal : ℕ → PrincipalLimiter
new_principal now = record {
  tb = no_bucket;
  req_sem = 0;
  stream_sem = 0;
  ws_sem = 0;
  last_seen = now;
}

abbrev pub new_limiter : Limiter
new_limiter = record { m = []; heap = λ a. new_principal 0; next = 0 }

unfoldable pub max_1 : ℕ → ℕ
max_1 n = if ltb n 1 then 1 else n

unfoldable pub limit : Kind → Config → ℕ
limit request_kind cfg = cfg.max_concurrent_requests
limit stream_kind cfg = cfg.max_concurrent_streams
limit ws_kind cfg = cfg.max_concurrent_ws_sessions

unfoldable pub sem : Kind → PrincipalLimiter → ℕ
sem request_kind pl = pl.req_sem
sem stream_kind pl = pl.stream_sem
sem ws_kind pl = pl.ws_sem

unfoldable pub set_sem : Kind → ℕ → PrincipalLimiter → PrincipalLimiter
set_sem request_kind n pl = record pl { req_sem = n }
set_sem stream_kind n pl = record pl { stream_sem = n }
set_sem ws_kind n pl = record pl { ws_sem = n }

unfoldable pub write_at : ℕ → PrincipalLimiter → (ℕ → PrincipalLimiter) → ℕ → PrincipalLimiter
write_at address pl heap a = if address == a then pl else heap a

-- gcLocked: the entries that have not been seen for longer than the TTL are deleted.
unfoldable pub gc_locked : ℕ → ℕ → (ℕ → PrincipalLimiter) → Assoc ℕ → Assoc ℕ
gc_locked ttl now heap [] = []
gc_locked ttl now heap ((k, a) ∷ m) =
    let rest = gc_locked ttl now heap m in
    if ltb ttl (now - (heap a).last_seen) then rest else (k, a) ∷ rest

-- The entry that the iteration over the map comes to first is deleted; it is at the place `victim`,
-- or the last one.
unfoldable pub drop_one : ℕ → Assoc ℕ → Assoc ℕ
drop_one victim [] = []
drop_one victim (e ∷ []) = []
drop_one zero (e ∷ f ∷ m) = f ∷ m
drop_one (suc victim) (e ∷ f ∷ m) = e ∷ drop_one victim (f ∷ m)

unfoldable pub still_full : Config → ℕ → Assoc ℕ → Assoc ℕ
still_full cfg victim m = if leb cfg.max_entries (length m) then drop_one victim m else m

-- The test of a full map in getOrCreate.
unfoldable pub make_room : Config → (victim now : ℕ) → (ℕ → PrincipalLimiter) → Assoc ℕ → Assoc ℕ
make_room cfg victim now heap m =
    if leb cfg.max_entries (length m)
    then still_full cfg victim (gc_locked cfg.entry_ttl now heap m)
    else m

unfoldable pub get_or_create : Config → (victim : ℕ) → String → (now : ℕ) → Limiter → ℕ × Limiter
get_or_create cfg victim principal now l =
    let m = make_room cfg victim now l.heap l.m in
    elim (lookup principal m) [
      | some address ↦ (address, record l { m = m })
      | none ↦ (
        l.next,
        record {
          m = insert principal l.next m;
          heap = write_at l.next (new_principal now) l.heap;
          next = l.next + 1;
        },
      )
    ]

unfoldable pub touch : ℕ → ℕ → Limiter → Limiter
touch address now l = record l {
  heap = write_at address (record (l.heap address) { last_seen = now }) l.heap;
}

unfoldable pub or_anonymous : String → String
or_anonymous principal = if principal == "" then "anonymous" else principal

-- The concurrency cap: a place in the channel, if one is free.
unfoldable pub take_place : Config → Kind → ℕ → Limiter → Decision × Limiter
take_place cfg kind address l =
    if ltb 0 (limit kind cfg)
    then if ltb (sem kind (l.heap address)) (max_1 (limit kind cfg))
      then (
        allowed (held kind address),
        record l {
          heap =
              write_at address (set_sem kind (sem kind (l.heap address) + 1) (l.heap address))
                l.heap;
        },
      )
      else (refused 1, l)
    else (allowed free, l)

-- The outcome of the token bucket goes on to the cap, or refuses.
unfoldable pub admit : Config → ℕ → TokenBucket × Option ℕ → Limiter → Decision × Limiter
admit cfg address (tb, none) l =
    take_place cfg request_kind address
      (record l { heap = write_at address (record (l.heap address) { tb = tb }) l.heap })
admit cfg address (tb, some retry_after) l = (
  refused retry_after,
  record l { heap = write_at address (record (l.heap address) { tb = tb }) l.heap },
)

unfoldable pub acquire_request :
    Config → (victim : ℕ) → String → (now : ℕ) → Limiter → Decision × Limiter
acquire_request cfg victim principal now l =
    let (address, created) = get_or_create cfg victim (or_anonymous principal) now l in
    let seen = touch address now created in
    if ltb 0 cfg.rps && ltb 0 cfg.burst
    then admit cfg address (allow_token cfg.rps cfg.burst now (seen.heap address).tb) seen
    else take_place cfg request_kind address seen

unfoldable pub acquire_stream :
    Config → (victim : ℕ) → String → (now : ℕ) → Limiter → Decision × Limiter
acquire_stream cfg victim principal now l =
    let (address, created) = get_or_create cfg victim (or_anonymous principal) now l in
    take_place cfg stream_kind address (touch address now created)

unfoldable pub acquire_ws_session :
    Config → (victim : ℕ) → String → (now : ℕ) → Limiter → Decision × Limiter
acquire_ws_session cfg victim principal now l =
    let (address, created) = get_or_create cfg victim (or_anonymous principal) now l in
    take_place cfg ws_kind address (touch address now created)

-- Release, and what the permit is afterwards; `none` where the receive would block for ever.
unfoldable pub release : Permit → Limiter → Option (Permit × Limiter)
release free l = some (free, l)
release (held kind address) l =
    if ltb 0 (sem kind (l.heap address))
    then some (
      free,
      record l {
        heap =
            write_at address (set_sem kind (sem kind (l.heap address) - 1) (l.heap address)) l.heap;
      },
    )
    else none
