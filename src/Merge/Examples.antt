-- ===== src/Merge/Examples.antt =====
-- A request with a total time of its own, and one whose `attemptMs` is an explicit undefined.
use vereda.Common.{ℕ, ◌≡◌, refl, none, some, [], ◌∷◌}
use vereda.Common.Number.{num}
use vereda.Common.Text.{codes}
use vereda.Validate.{validate_timeout_config}
use vereda.Merge.{missing, undefined_value, set_to, Timeouts, seen, merge_timeout, partition_lookup}
use vereda.Merge.Partition.{
  Override, opted_out, overridden, merge_optional, RateLimits, partition_rate_limit,
}
use vereda.Merge.Attempts.{IsTimed, merge_timeout-IsTimed}

abbrev client : Timeouts
client = record { attempt_ms = set_to (num 1000); total_ms = missing }

abbrev request : Timeouts
request = record { attempt_ms = missing; total_ms = set_to (num 5000) }

abbrev careless : Timeouts
careless = record { attempt_ms = undefined_value; total_ms = missing }

-- The request passes validation, and its attempts have no timeout.
careless_accepted : validate_timeout_config (seen careless) ("request" ∷ "timeout" ∷ []) ≡ none
unfolding validate_timeout_config
careless_accepted = refl

careless_unbounded : (seen (merge_timeout client none (some careless))).attempt_ms ≡ none
unfolding merge_timeout
careless_unbounded = refl

fallback_used :
    partition_lookup {P = ℕ} ((codes "api", 1) ∷ []) (some 2) (codes "toString") ≡ some 2
unfolding partition_lookup
fallback_used = refl

client_accepted : validate_timeout_config (seen client) ("timeout" ∷ []) ≡ none
unfolding validate_timeout_config
client_accepted = refl

request_accepted : validate_timeout_config (seen request) ("request" ∷ []) ≡ none
unfolding validate_timeout_config
request_accepted = refl

merge_timeout-IsTimed_example : IsTimed (merge_timeout client none (some request)).attempt_ms
merge_timeout-IsTimed_example =
    merge_timeout-IsTimed client none (some request) ("timeout" ∷ []) [] ("request" ∷ [])
      client_accepted refl tt (request_accepted, refl)

abbrev limited : Override RateLimits
limited =
    overridden
      (record { tokens_per_sec = set_to (num 10); burst = set_to (num 40); max_wait_ms = missing })

abbrev patient : Override RateLimits
patient =
    overridden
      (record { tokens_per_sec = set_to (num 2); burst = missing; max_wait_ms = set_to (num 500) })

-- A partition keeps the client's burst, which may be far above its own rate.
kept_burst :
    partition_rate_limit limited patient
    ≡ some (record {
      tokens_per_sec = set_to (num 2);
      burst = set_to (num 40);
      max_wait_ms = set_to (num 500);
    })
unfolding merge_optional partition_rate_limit
kept_burst = refl

-- A client that has turned the limit off cannot be overridden by a partition.
off_for_all : partition_rate_limit opted_out patient ≡ none
unfolding merge_optional partition_rate_limit
off_for_all = refl
