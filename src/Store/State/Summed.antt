-- ===== src/Store/State/Summed.antt =====
-- `checked_usage` against the sums of the counters.
use whale_ai_sdk.Base.{
  ◌&&◌, ◌+◌, ◌∷◌, ◌≡◌, Bool, Bool-cases, List, [], arith, if◌then◌else◌, inl, inr, leb, refl, true,
  u64_max,
}
use whale_ai_sdk.Protocol.Runs.{UsageMetrics}
use whale_ai_sdk.Store.Error.{err, invalid, ok}
use whale_ai_sdk.Store.State.Usage.{add_usage, checked_usage, no_usage, sum_usage}

-- The sum of each counter, without a bound.
abbrev plus : UsageMetrics → UsageMetrics → UsageMetrics
plus a b = record {
  input_tokens = a.input_tokens + b.input_tokens;
  output_tokens = a.output_tokens + b.output_tokens;
  reasoning_tokens = a.reasoning_tokens + b.reasoning_tokens;
  cache_creation_input_tokens = a.cache_creation_input_tokens + b.cache_creation_input_tokens;
  cache_read_input_tokens = a.cache_read_input_tokens + b.cache_read_input_tokens;
}

unfoldable pub total : UsageMetrics → List UsageMetrics → UsageMetrics
total t [] = t
total t (u ∷ us) = total (plus t u) us

-- Every counter fits `u64`.
unfoldable pub fits : UsageMetrics → Bool
fits u =
    leb u.input_tokens u64_max
    && leb u.output_tokens u64_max
    && leb u.reasoning_tokens u64_max
    && leb u.cache_creation_input_tokens u64_max
    && leb u.cache_read_input_tokens u64_max

add_usage-fits :
    (t u : UsageMetrics)
    → add_usage t u
      ≡ (if fits (plus t u) then ok (plus t u) else err (invalid "Model usage exceeds u64 range"))
unfolding add_usage fits
add_usage-fits t u = ground arith

fits-plus : (t u : UsageMetrics) → fits (plus t u) ≡ true → fits t ≡ true
unfolding fits
fits-plus t u h = ground arith

fits-total : (us : List UsageMetrics) (t : UsageMetrics) → fits (total t us) ≡ true → fits t ≡ true
unfolding total
fits-total [] t h = h
fits-total (u ∷ us) t h = fits-plus t u (fits-total us (plus t u) h)

sum_usage-total :
    (us : List UsageMetrics) (t : UsageMetrics)
    → fits t ≡ true
    → sum_usage t us ≡ (
        if fits (total t us)
        then ok (total t us)
        else err (invalid "Model usage exceeds u64 range"))
unfolding sum_usage total
sum_usage-total [] t h = rw h refl
sum_usage-total (u ∷ us) t h = elim (Bool-cases (fits (plus t u))) [
  | inl small ↦ rw (add_usage-fits t u, small) (sum_usage-total us (plus t u) small)
  | inr large ↦ elim (Bool-cases (fits (total (plus t u) us))) [
    | inl small ↦ cc (fits-total us (plus t u) small)
    | inr huge ↦ rw (add_usage-fits t u, large, huge) refl
  ]
]

-- `checked_usage` returns the sum of each counter over all steps exactly when every one of the
-- five sums fits `u64`, and reports the overflow otherwise.
pub checked_usage-total :
    (us : List UsageMetrics)
    → checked_usage us ≡ (
        if fits (total no_usage us)
        then ok (total no_usage us)
        else err (invalid "Model usage exceeds u64 range"))
unfolding checked_usage fits
checked_usage-total us = sum_usage-total us no_usage refl
