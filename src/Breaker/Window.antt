-- ===== src/Breaker/Window.antt =====
-- `RollingWindow` of src/queue/circuit-breaker.ts: outcomes counted in time buckets. A method that
-- prunes returns the pruned window beside its result. A failure rate is a double (Common.Double), and `percent` a whole number.
use vereda.Common.{
  ℕ, ◌+◌, ◌/◌, ◌≤◌, max, Bool, ◌&&◌, List, [], ◌∷◌, keep, sum_by, leb, ◌==◌, if◌then◌else◌,
}
use vereda.Common.Double.{Double, whole, quotient, product, exceeds}
use vereda.Buckets.{bucket_start, within, bump_last}

pub record Bucket : Type 0 where
  pub start : ℕ
  pub total : ℕ
  pub failures : ℕ

pub record RollingWindow : Type 0 where
  pub size_ms : ℕ
  pub bucket_ms : ℕ
  pub buckets : List Bucket

abbrev default_bucket_count : ℕ
default_bucket_count = 10

abbrev pub start_of : Bucket → ℕ
start_of b = b.start

unfoldable pub new : (size_ms : ℕ) → RollingWindow
new size_ms = record {
  size_ms = size_ms;
  bucket_ms = max 1 (size_ms / default_bucket_count);
  buckets = [];
}

unfoldable pub prune : RollingWindow → (now : ℕ) → RollingWindow
prune w now = record w { buckets = keep (within start_of w.size_ms now) w.buckets }

-- `currentBucket(now)`, with the caller's increments.
unfoldable pub bump : (Bucket → Bucket) → RollingWindow → (now : ℕ) → RollingWindow
unfolding prune bump_last
bump write w now =
    let pruned = prune w now in
    record pruned {
      buckets =
          bump_last start_of write
            (record { start = bucket_start w.bucket_ms now; total = 0; failures = 0 })
            pruned.buckets;
    }

abbrev pub add_success : Bucket → Bucket
add_success b = record b { total = b.total + 1 }

abbrev pub add_failure : Bucket → Bucket
add_failure b = record b { total = b.total + 1; failures = b.failures + 1 }

unfoldable pub record_success : RollingWindow → (now : ℕ) → RollingWindow
unfolding bump
record_success w now = bump add_success w now

unfoldable pub record_failure : RollingWindow → (now : ℕ) → RollingWindow
unfolding bump
record_failure w now = bump add_failure w now

unfoldable pub failure_count : RollingWindow → (now : ℕ) → RollingWindow × ℕ
unfolding prune
failure_count w now = let pruned = prune w now in (pruned, sum_by (λ b. b.failures) pruned.buckets)

unfoldable pub total_requests : RollingWindow → (now : ℕ) → RollingWindow × ℕ
unfolding prune
total_requests w now = let pruned = prune w now in (pruned, sum_by (λ b. b.total) pruned.buckets)

-- What `failureRate` computes from the counts.
abbrev pub rate_of : (failures total : ℕ) → Double
rate_of failures total =
    if total == 0 then whole 0 else product (quotient failures total) (whole 100)

-- `failureRate(now) > percent`.
unfoldable pub failure_rate_above : RollingWindow → (percent now : ℕ) → RollingWindow × Bool
unfolding prune
failure_rate_above w percent now =
    let pruned = prune w now in
    let total : ℕ = sum_by (λ b. b.total) pruned.buckets in
    let failures : ℕ = sum_by (λ b. b.failures) pruned.buckets in
    (pruned, exceeds (rate_of failures total) percent)

unfoldable pub reset : RollingWindow → RollingWindow
reset w = record w { buckets = [] }

-- One outcome: its time, and whether the attempt failed.
unfoldable pub outcome : RollingWindow → ℕ × Bool → RollingWindow
unfolding record_success record_failure
outcome w (now, failed) = if failed then record_failure w now else record_success w now

-- Outcomes in the order in which they are recorded.
unfoldable pub record_all : RollingWindow → List (ℕ × Bool) → RollingWindow
record_all w [] = w
record_all w (o ∷ more) = record_all (outcome w o) more

-- The outcomes that a window of `size_ms` still covers at `now`, a bucket's being as old as its start.
abbrev pub covered : (size_ms bucket_ms now : ℕ) → ℕ × Bool → Bool
covered size_ms bucket_ms now (t, failed) = leb now (bucket_start bucket_ms t + size_ms)

abbrev pub spec_total : (size_ms bucket_ms now : ℕ) → List (ℕ × Bool) → ℕ
spec_total size_ms bucket_ms now [] = 0
spec_total size_ms bucket_ms now (o ∷ more) =
    (if covered size_ms bucket_ms now o then 1 else 0) + spec_total size_ms bucket_ms now more

abbrev pub spec_failures : (size_ms bucket_ms now : ℕ) → List (ℕ × Bool) → ℕ
spec_failures size_ms bucket_ms now [] = 0
spec_failures size_ms bucket_ms now (o ∷ more) =
    (if covered size_ms bucket_ms now o && o.1 then 1 else 0)
    + spec_failures size_ms bucket_ms now more

-- No outcome was recorded after `now`.
abbrev pub AllBy : ℕ → List (ℕ × Bool) → Type 0
AllBy now [] = Unit {0}
AllBy now ((t, failed) ∷ more) = (t ≤ now) × AllBy now more
