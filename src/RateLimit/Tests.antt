-- ===== src/RateLimit/Tests.antt =====
-- Calls of a limiter with two requests per second and one place.
use vai_gateway.Prelude.{ℕ, ◌+◌, ◌*◌, ◌≤◌, ◌≡◌, some, List, [], ◌∷◌, length, arith}
use vai_gateway.RateLimit.{
  Config, Limiter, Permit, new_limiter, acquire_request, acquire_stream, acquire_ws_session,
}
use vai_gateway.RateLimit.Bucket.{TokenBucket, token, no_bucket, granted}
use vai_gateway.RateLimit.Bounds.{granted-le}
use vai_gateway.RateLimit.Entries.{acquire-bounded}
use vai_gateway.RateLimit.Permits.{Held}
use vai_gateway.RateLimit.Reachable.{
  Call, request_call, stream_call, release_call, perform_all, perform_all-Held_new,
}

abbrev config : Config
config = record {
  rps = 2000000000;
  burst = 3;
  max_concurrent_requests = 1;
  max_concurrent_streams = 1;
  max_concurrent_ws_sessions = 0;
  max_entries = 1;
  entry_ttl = 1000;
}

granted-le_example :
    (granted 2 3 (5 ∷ 6 ∷ 7 ∷ 8 ∷ []) no_bucket).0 * token + 2 * 5 ≤ 3 * token + 2 * 8
granted-le_example =
    granted-le 2 3 (omega arith) (omega arith) 5 8 (6 ∷ 7 ∷ 8 ∷ [])
      (omega arith, (omega arith, (omega arith, (omega arith, tt))))

acquire-bounded_example :
    (length (acquire_request config 0 "k_1" 5 new_limiter).1.m ≤ 1)
    × (length (acquire_stream config 0 "k_1" 5 new_limiter).1.m ≤ 1)
    × (length (acquire_ws_session config 0 "k_1" 5 new_limiter).1.m ≤ 1)
acquire-bounded_example = acquire-bounded config 0 (omega arith) "k_1" 5 new_limiter (omega arith)

abbrev calls : List Call
calls =
    request_call 0 "k_1" 5
    ∷ stream_call 0 "k_2" 6
    ∷ request_call 0 "k_1" 7
    ∷ release_call 0
    ∷ release_call 1
    ∷ []

perform_all-Held_new_example :
    (l : Limiter) × (ps : List Permit) × (perform_all config calls new_limiter [] ≡ some (l, ps))
    × Held config l ps
perform_all-Held_new_example = perform_all-Held_new config calls

-- Half a token per second, and none in the bucket.
abbrev half : ℕ
half = 500000000

abbrev empty_bucket : TokenBucket
empty_bucket = record { rps = half; capacity = 3 * token; tokens = 0; last = 5 }

abbrev told : ℕ
told = 2
