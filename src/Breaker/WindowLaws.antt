-- ===== src/Breaker/WindowLaws.antt =====
-- The rolling window against the list of the outcomes recorded.
use vereda.Common.{
  ℕ, ◌+◌, ◌≤◌, ◌≡◌, refl, ◌∙◌, ap, ◌/◌, max, Bool, true, false, ◌&&◌, List, [], ◌∷◌, keep, sum_by,
  if◌then◌else◌, arith,
}
use native.Mathlib.Nat.{zero-add}
use vereda.Common.Double.{exceeds}
use vereda.Buckets.{bucket_start, within, keep-keep, sum_by-bump_last}
use vereda.Breaker.Window.{
  Bucket, RollingWindow, start_of, new, prune, bump, record_success, record_failure, failure_count,
  total_requests, failure_rate_above, rate_of, outcome, record_all, covered, add_success,
  add_failure, spec_total, spec_failures, AllBy,
}

-- What a query at `now` finds of a weight.
found : (Bucket → ℕ) → RollingWindow → ℕ → ℕ
found f w now = sum_by f (keep (within start_of w.size_ms now) w.buckets)

module _ (write : Bucket → Bucket) (f : Bucket → ℕ) (d : ℕ)
    (same_start : (b : Bucket) → (write b).start ≡ b.start)
    (adds : (b : Bucket) → f (write b) ≡ f b + d)
    (none_yet : (s : ℕ) → f (record { start = s; total = 0; failures = 0 }) ≡ 0) where
  bump-found :
      (w : RollingWindow) (t now : ℕ)
      → t ≤ now
      → found f (bump write w t) now
        ≡ found f w now + (if covered w.size_ms w.bucket_ms now (t, true) then d else 0)
  unfolding found bump prune
  bump-found w t now h =
      sum_by-bump_last start_of write
        (record { start = bucket_start w.bucket_ms t; total = 0; failures = 0 }) f d same_start adds
        (none_yet _) w.size_ms now (keep (within start_of w.size_ms t) w.buckets)
      ∙ ap (λ bs. sum_by f bs + (if covered w.size_ms w.bucket_ms now (t, true) then d else 0))
          (keep-keep start_of w.size_ms t now w.buckets h)

outcome-sizes :
    (w : RollingWindow) (o : ℕ × Bool)
    → ((outcome w o).size_ms ≡ w.size_ms) × ((outcome w o).bucket_ms ≡ w.bucket_ms)
unfolding outcome bump prune
outcome-sizes w (t, true) = (refl, refl)
outcome-sizes w (t, false) = (refl, refl)

abbrev totals : Bucket → ℕ
totals b = b.total

abbrev failed_ones : Bucket → ℕ
failed_ones b = b.failures

module _ (size bucket now : ℕ) where
  abbrev Sized : RollingWindow → Type 0
  Sized w = (w.size_ms ≡ size) × (w.bucket_ms ≡ bucket)

  outcome-Sized : (w : RollingWindow) (o : ℕ × Bool) → Sized w → Sized (outcome w o)
  outcome-Sized w o h = let s = outcome-sizes w o in (s.0 ∙ h.0, s.1 ∙ h.1)

  abbrev one_if : Bool → ℕ
  one_if b = if b then 1 else 0

  outcome-found :
      (w : RollingWindow) (o : ℕ × Bool)
      → Sized w
      → o.0 ≤ now
      → (found totals (outcome w o) now ≡ found totals w now + one_if (covered size bucket now o))
        × (found failed_ones (outcome w o) now
            ≡ found failed_ones w now + one_if (covered size bucket now o && o.1))
  unfolding outcome record_success record_failure
  outcome-found w (t, true) s h =
      rw (← s.0, ← s.1)
        (let all = bump-found add_failure totals 1 (λ b. refl) (λ b. refl) (λ s. refl) w t now h in
          let bad =
            bump-found add_failure failed_ones 1 (λ b. refl) (λ b. refl) (λ s. refl) w t now h in
          (all, ground (arith, bad)))
  outcome-found w (t, false) s h =
      rw (← s.0, ← s.1)
        (let all = bump-found add_success totals 1 (λ b. refl) (λ b. refl) (λ s. refl) w t now h in
          let bad =
            bump-found add_success failed_ones 0 (λ b. refl) (λ b. omega arith) (λ s. refl) w t now
              h in
          (all, ground (arith, bad)))

  record_all-found :
      (w : RollingWindow) (os : List (ℕ × Bool))
      → Sized w
      → AllBy now os
      → (found totals (record_all w os) now ≡ found totals w now + spec_total size bucket now os)
        × (found failed_ones (record_all w os) now
            ≡ found failed_ones w now + spec_failures size bucket now os)
  unfolding record_all
  record_all-found w [] s h = (omega arith, omega arith)
  record_all-found w (o ∷ os) s h =
      let ih = record_all-found (outcome w o) os (outcome-Sized w o s) h.1 in
      let here = outcome-found w o s h.0 in
      (omega (arith, ih.0, here.0), omega (arith, ih.1, here.1))

  record_all-Sized : (w : RollingWindow) (os : List (ℕ × Bool)) → Sized w → Sized (record_all w os)
  unfolding record_all
  record_all-Sized w [] s = s
  record_all-Sized w (o ∷ os) s = record_all-Sized (outcome w o) os (outcome-Sized w o s)

-- The bucket width of a new window.
abbrev pub width : (size_ms : ℕ) → ℕ
width size_ms = max 1 (size_ms / 10)

-- A new window that has recorded any outcomes, none of them later than `now`, answers a query at
-- `now` with exactly the number of outcomes, and of failures, whose bucket is not older than
-- `sizeMs`. A bucket is as old as its start, `now` rounded down to the bucket width.
pub record_all-counts :
    (size now : ℕ) (os : List (ℕ × Bool))
    → AllBy now os
    → ((total_requests (record_all (new size) os) now).1 ≡ spec_total size (width size) now os)
      × ((failure_count (record_all (new size) os) now).1 ≡ spec_failures size (width size) now os)
unfolding total_requests failure_count found prune new
record_all-counts size now os h =
    let f = record_all-found size (width size) now (new size) os (refl, refl) h in
    (f.0 ∙ zero-add _, f.1 ∙ zero-add _)

-- A second query at the same time finds what the first one left.
pub rate_after_total :
    (w : RollingWindow) (percent now : ℕ)
    → let total = (total_requests w now).1 in
      let failures = (failure_count w now).1 in
      (failure_rate_above (total_requests w now).0 percent now).1
      ≡ exceeds (rate_of failures total) percent
unfolding failure_rate_above total_requests failure_count prune
rate_after_total w percent now =
    rw (keep-keep start_of w.size_ms now now w.buckets (omega arith)) refl

pub spec_failures-le :
    (size width now : ℕ) (os : List (ℕ × Bool))
    → spec_failures size width now os ≤ spec_total size width now os
spec_failures-le size width now [] = omega arith
spec_failures-le size width now (o ∷ os) = ground (arith, spec_failures-le size width now os)
