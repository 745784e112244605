-- ===== src/Store/State/Usage.antt =====
-- `checked_usage`: the sum of usage records over `u64`.
use whale_ai_sdk.Base.{◌∷◌, [], checked_add, List, ℕ}
use whale_ai_sdk.Protocol.Runs.{UsageMetrics}
use whale_ai_sdk.Store.Error.{◌>>=◌, invalid, ok, ok_or, Result}

abbrev pub no_usage : UsageMetrics
no_usage = record {
  input_tokens = 0;
  output_tokens = 0;
  reasoning_tokens = 0;
  cache_creation_input_tokens = 0;
  cache_read_input_tokens = 0;
}

add_counter : ℕ → ℕ → Result ℕ
add_counter total n = ok_or (checked_add total n) (invalid "Model usage exceeds u64 range")

unfoldable pub add_usage : UsageMetrics → UsageMetrics → Result UsageMetrics
unfolding add_counter
add_usage total usage = do
  input ← add_counter total.input_tokens usage.input_tokens
  output ← add_counter total.output_tokens usage.output_tokens
  reasoning ← add_counter total.reasoning_tokens usage.reasoning_tokens
  creation ← add_counter total.cache_creation_input_tokens usage.cache_creation_input_tokens
  read ← add_counter total.cache_read_input_tokens usage.cache_read_input_tokens
  ok (record {
    input_tokens = input;
    output_tokens = output;
    reasoning_tokens = reasoning;
    cache_creation_input_tokens = creation;
    cache_read_input_tokens = read;
  })

unfoldable pub sum_usage : UsageMetrics → List UsageMetrics → Result UsageMetrics
unfolding add_usage
sum_usage total [] = ok total
sum_usage total (usage ∷ rest) = do sum ← add_usage total usage; sum_usage sum rest

unfoldable pub checked_usage : List UsageMetrics → Result UsageMetrics
unfolding sum_usage
checked_usage = sum_usage no_usage
