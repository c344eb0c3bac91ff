-- ===== src/Types/Usage.antt =====
-- pkg/core/types/usage.go: token counts, and the optional cost in dollars, a float64.
use native.Mathlib.Nat
use vai_gateway.Prelude.{
  ℕ, ◌+◌, Bool, true, false, ◌&&◌, ◌||◌, Option, none, some, ltb, ◌==◌, numbers_comparable,
  if◌then◌else◌,
}

-- A float64, by its bits: the cost is only added up, by an addition that is an argument.
abbrev pub Float64 : Type 0
Float64 = ℕ

pub record Usage : Type 0 where
  pub input_tokens : ℕ
  pub output_tokens : ℕ
  pub total_tokens : ℕ
  pub cache_read_tokens : Option ℕ
  pub cache_write_tokens : Option ℕ
  pub cost_usd : Option Float64

abbrev pub zero_usage : Usage
zero_usage = record {
  input_tokens = 0;
  output_tokens = 0;
  total_tokens = 0;
  cache_read_tokens = none;
  cache_write_tokens = none;
  cost_usd = none;
}

-- A total of 0 beside a positive part is taken for a total that was not reported.
unfoldable pub effective_total : Usage → ℕ
effective_total u =
    if u.total_tokens == 0 && (ltb 0 u.input_tokens || ltb 0 u.output_tokens)
    then u.input_tokens + u.output_tokens
    else u.total_tokens

unfoldable pub add_optional : Option ℕ → Option ℕ → Option ℕ
add_optional none none = none
add_optional (some a) none = some a
add_optional none (some b) = some b
add_optional (some a) (some b) = some (a + b)

-- The sum of the costs that are there, begun from the float 0, whose bits are 0.
unfoldable pub add_cost :
    (Float64 → Float64 → Float64) → Option Float64 → Option Float64 → Option Float64
add_cost plus none none = none
add_cost plus (some a) none = some (plus 0 a)
add_cost plus none (some b) = some (plus 0 b)
add_cost plus (some a) (some b) = some (plus (plus 0 a) b)

unfoldable pub add : (Float64 → Float64 → Float64) → Usage → Usage → Usage
add plus u other = record {
  input_tokens = u.input_tokens + other.input_tokens;
  output_tokens = u.output_tokens + other.output_tokens;
  total_tokens = effective_total u + effective_total other;
  cache_read_tokens = add_optional u.cache_read_tokens other.cache_read_tokens;
  cache_write_tokens = add_optional u.cache_write_tokens other.cache_write_tokens;
  cost_usd = add_cost plus u.cost_usd other.cost_usd;
}

unfoldable pub is_empty : Usage → Bool
is_empty u = u.input_tokens == 0 && u.output_tokens == 0 && u.total_tokens == 0

-- What a sum says without the amount of the cost: the counts of tokens, and whether there is a cost.
pub record Counts : Type 0 where
  pub input_tokens : ℕ
  pub output_tokens : ℕ
  pub effective_total : ℕ
  pub cache_read_tokens : Option ℕ
  pub cache_write_tokens : Option ℕ
  pub has_cost : Bool

unfoldable pub is_reported {ℓ} : {A : Type ℓ} → Option A → Bool
is_reported none = false
is_reported (some x) = true

unfoldable pub counts : Usage → Counts
counts u = record {
  input_tokens = u.input_tokens;
  output_tokens = u.output_tokens;
  effective_total = effective_total u;
  cache_read_tokens = u.cache_read_tokens;
  cache_write_tokens = u.cache_write_tokens;
  has_cost = is_reported u.cost_usd;
}

-- The sum of two counts, part by part.
unfoldable pub add_counts : Counts → Counts → Counts
add_counts a b = record {
  input_tokens = a.input_tokens + b.input_tokens;
  output_tokens = a.output_tokens + b.output_tokens;
  effective_total = a.effective_total + b.effective_total;
  cache_read_tokens = add_optional a.cache_read_tokens b.cache_read_tokens;
  cache_write_tokens = add_optional a.cache_write_tokens b.cache_write_tokens;
  has_cost = a.has_cost || b.has_cost;
}
