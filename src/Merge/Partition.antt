-- ===== src/Merge/Partition.antt =====
-- src/queue/bulkhead.ts: mergeOptional, and the rate limit that BulkheadRegistry gives a partition's
-- bulkhead. A setting has the values that its type allows.
pub mod Accepted
use vereda.Common.{
  ◌≡◌, refl, sym, ap, ◌∙◌, String, Bool, true, false, Option, none, some, List, [], ◌∷◌, ◌++◌, ◌&&◌,
  arith,
}
use vereda.Common.Number.{Number, nan, num, less_eq, is_finite}
use vereda.Validate.{
  finite_from_one, non_negative, positive_finite, Rule, Violation, check, check_all, when_set,
  Setting, turned_off, object, is_positive_finite,
}
use vereda.Validate.Config.{check-true, both_checked}
use vereda.Validate.Sections.{RateLimitConfig, validate_rate_limit}
use vereda.Merge.{Field, missing, undefined_value, set_to, spread, read}

-- `T | false | undefined`.
pub data Override (T : Type 0) : Type 0 where
  unset opted_out : Override T
  overridden : T → Override T

-- With `{ ...global, ...partition }` as `join`.
unfoldable pub merge_optional :
    {T : Type 0} → (join : T → T → T) → Override T → Override T → Option T
merge_optional join global opted_out = none
merge_optional join opted_out partition = none
merge_optional join unset unset = none
merge_optional join unset (overridden p) = some p
merge_optional join (overridden g) unset = some g
merge_optional join (overridden g) (overridden p) = some (join g p)

pub record RateLimits : Type 0 where
  pub tokens_per_sec : Field Number
  pub burst : Field Number
  pub max_wait_ms : Field Number

abbrev pub spread_rate_limits : RateLimits → RateLimits → RateLimits
spread_rate_limits g p = record {
  tokens_per_sec = spread g.tokens_per_sec p.tokens_per_sec;
  burst = spread g.burst p.burst;
  max_wait_ms = spread g.max_wait_ms p.max_wait_ms;
}

-- The `rateLimit` of the merged configuration.
unfoldable pub partition_rate_limit : Override RateLimits → Override RateLimits → Option RateLimits
partition_rate_limit global partition = merge_optional spread_rate_limits global partition

-- An absent number is to the tests of a required one what NaN is.
abbrev pub number_of : Option Number → Number
number_of none = nan
number_of (some x) = x

abbrev pub seen : RateLimits → RateLimitConfig
seen r = record {
  tokens_per_sec = number_of (read r.tokens_per_sec);
  burst = read r.burst;
  max_wait_ms = read r.max_wait_ms;
}

abbrev pub setting_of : Override RateLimits → Option (Setting RateLimitConfig)
setting_of unset = none
setting_of opted_out = some turned_off
setting_of (overridden r) = some (object (seen r))
