-- ===== src/RetryBudget.antt =====
-- src/queue/retry-budget.ts: retries as a fraction of recent traffic. Fractional settings are
-- the doubles next to `ratio / scale` and `minRetriesPerSec / scale`. The clock is an argument;
-- a method that prunes the window returns it beside its result.
pub mod Tracking
pub mod Admission
mod Examples
use vereda.Common.{
  ℕ, zero, suc, ◌+◌, ◌-◌, ◌*◌, ◌/◌, max, Bool, true, false, not, Option, none, some, List, [], ◌∷◌,
  keep, sum_by, ltb, leb, or_default, if◌then◌else◌,
}
use vereda.Common.Double.{Double, whole, quotient, product, larger, reached}
use vereda.Buckets.{bucket_start, within, bump_last}

pub record Bucket : Type 0 where
  pub start : ℕ
  pub requests : ℕ
  pub retries : ℕ

abbrev bucket_count : ℕ
bucket_count = 10

pub record BudgetWindow : Type 0 where
  pub size_ms : ℕ
  pub bucket_ms : ℕ
  pub buckets : List Bucket

abbrev pub start_of : Bucket → ℕ
start_of b = b.start

unfoldable pub new_window : (size_ms : ℕ) → BudgetWindow
new_window size_ms = record {
  size_ms = size_ms;
  bucket_ms = max 1 (size_ms / bucket_count);
  buckets = [];
}

-- Nothing is filtered while the first bucket is covered, or there is none.
unfoldable pub prune_buckets : (size_ms now : ℕ) → List Bucket → List Bucket
prune_buckets size_ms now [] = []
prune_buckets size_ms now (first ∷ rest) =
    if not (within start_of size_ms now first)
    then keep (within start_of size_ms now) (first ∷ rest)
    else first ∷ rest

unfoldable pub prune : BudgetWindow → (now : ℕ) → BudgetWindow
unfolding prune_buckets
prune w now = record w { buckets = prune_buckets w.size_ms now w.buckets }

-- `currentBucket(now)`, with the caller's increment.
unfoldable pub bump : (Bucket → Bucket) → BudgetWindow → (now : ℕ) → BudgetWindow
bump write w now =
    let pruned = prune w now in
    record pruned {
      buckets =
          bump_last start_of write
            (record { start = bucket_start w.bucket_ms now; requests = 0; retries = 0 })
            pruned.buckets;
    }

abbrev pub add_request : Bucket → Bucket
add_request b = record b { requests = b.requests + 1 }

abbrev pub add_retry : Bucket → Bucket
add_retry b = record b { retries = b.retries + 1 }

unfoldable pub record_window_request : BudgetWindow → (now : ℕ) → BudgetWindow
record_window_request w now = bump add_request w now

unfoldable pub record_window_retry : BudgetWindow → (now : ℕ) → BudgetWindow
record_window_retry w now = bump add_retry w now

pub record Totals : Type 0 where
  pub requests : ℕ
  pub retries : ℕ

unfoldable pub totals : BudgetWindow → (now : ℕ) → BudgetWindow × Totals
totals w now =
    let pruned = prune w now in
    (
      pruned,
      record {
        requests = sum_by (λ b. b.requests) pruned.buckets;
        retries = sum_by (λ b. b.retries) pruned.buckets;
      },
    )

abbrev is_nil : List Bucket → Bool
is_nil [] = true
is_nil (b ∷ bs) = false

unfoldable pub is_empty : BudgetWindow → (now : ℕ) → BudgetWindow × Bool
is_empty w now = let pruned = prune w now in (pruned, is_nil pruned.buckets)

pub record RetryBudgetConfig : Type 0 where
  pub scale : ℕ
  pub ratio : ℕ
  pub window_ms : ℕ
  pub min_retries_per_sec : Option ℕ

abbrev pub default_min_retries_per_sec : ℕ
default_min_retries_per_sec = 10

-- `config` and `window` are set or absent together.
pub record RetryBudget : Type 0 where
  pub active : Option (RetryBudgetConfig × BudgetWindow)
  pub active_tickets : ℕ

unfoldable pub new : Option RetryBudgetConfig → RetryBudget
new none = record { active = none; active_tickets = 0 }
new (some config) = record {
  active = some (config, new_window config.window_ms);
  active_tickets = 0;
}

unfoldable pub record_request : RetryBudget → (now : ℕ) → RetryBudget
record_request b now = elim b.active [
  | none ↦ b
  | some (config, w) ↦ record b { active = some (config, record_window_request w now) }
]

-- `minRetriesPerSec`, with its default.
abbrev pub floor_of : RetryBudgetConfig → Double
floor_of config = elim config.min_retries_per_sec [
  | none ↦ whole default_min_retries_per_sec
  | some n ↦ quotient n config.scale
]

abbrev pub allowed : RetryBudgetConfig → (requests : ℕ) → Double
allowed config requests =
    larger (product (floor_of config) (quotient config.window_ms 1000))
      (product (quotient config.ratio config.scale) (whole requests))

unfoldable pub try_withdraw : RetryBudget → (now : ℕ) → RetryBudget × Bool
try_withdraw b now = elim b.active [
  | none ↦ (b, true)
  | some (config, w) ↦
      let (w', t) = totals w now in
      if reached t.retries (allowed config t.requests)
      then (record b { active = some (config, w') }, false)
      else (record b { active = some (config, record_window_retry w' now) }, true)
]

unfoldable pub retain : RetryBudget → RetryBudget
retain b = record b { active_tickets = b.active_tickets + 1 }

-- The function that `retain` returns, with its flag `released`.
unfoldable pub release_hold : RetryBudget → (released : Bool) → RetryBudget × Bool
release_hold b released =
    if released then (b, released) else (record b { active_tickets = b.active_tickets - 1 }, true)

unfoldable pub is_evictable : RetryBudget → (now : ℕ) → RetryBudget × Bool
is_evictable b now = if ltb 0 b.active_tickets then (b, false) else elim b.active [
  | none ↦ (b, true)
  | some (config, w) ↦
      let (w', empty) = is_empty w now in (record b { active = some (config, w') }, empty)
]
