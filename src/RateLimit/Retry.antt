-- ===== src/RateLimit/Retry.antt =====
-- A caller that waits as long as it has been told is allowed.
use native.Mathlib.Nat
