-- ===== src/Buckets.antt =====
-- The fixed-size time buckets that `RollingWindow` (src/queue/circuit-breaker.ts) and `BudgetWindow`
-- (src/queue/retry-budget.ts) both keep, generic in the bucket: `start` is its field of that name.
-- The cutoff test `b.start >= now - sizeMs` may go below zero, so it is `now <= b.start + sizeMs`.
pub mod Ascending
use vereda.Common.{
  ℕ, zero, suc, ◌+◌, ◌*◌, ◌/◌, ◌≤◌, ◌≡◌, refl, Bool, true, false, List, [], ◌∷◌, leb, ◌==◌, keep,
  sum_by, if◌then◌else◌, arith,
}

-- `Math.floor(now / bucketMs) * bucketMs`.
abbrev pub bucket_start : (bucket_ms now : ℕ) → ℕ
bucket_start bucket_ms now = now / bucket_ms * bucket_ms

module _ {B : Type 0} (start : B → ℕ) where
  abbrev pub within : (size_ms now : ℕ) → B → Bool
  within size_ms now b = leb now (start b + size_ms)

  -- `currentBucket` and the caller's write to it: the last bucket where it has this start, or else
  -- `empty`, pushed behind it.
  unfoldable pub bump_last : (B → B) → B → List B → List B
  bump_last write empty [] = write empty ∷ []
  bump_last write empty (b ∷ []) =
      if start b == start empty then write b ∷ [] else b ∷ write empty ∷ []
  bump_last write empty (b ∷ c ∷ bs) = b ∷ bump_last write empty (c ∷ bs)

  -- What a later query still finds is not changed by an earlier pruning.
  pub keep-keep :
      (size now now' : ℕ) (bs : List B)
      → now ≤ now'
      → keep (within size now') (keep (within size now) bs) ≡ keep (within size now') bs
  keep-keep size now now' [] h = refl
  keep-keep size now now' (b ∷ bs) h = ground (arith, keep-keep size now now' bs h)

  module _ (write : B → B) (empty : B) (w : B → ℕ) (d : ℕ)
      (same_start : (b : B) → start (write b) ≡ start b) (adds : (b : B) → w (write b) ≡ w b + d)
      (no_weight : w empty ≡ 0) where
    -- A write adds its weight to what a query finds, if its bucket is still within the window.
    pub sum_by-bump_last :
        (size now : ℕ) (bs : List B)
        → sum_by w (keep (within size now) (bump_last write empty bs))
          ≡ sum_by w (keep (within size now) bs) + (if within size now empty then d else 0)
    unfolding bump_last
    sum_by-bump_last size now [] = ground (arith, same_start empty, adds empty)
    sum_by-bump_last size now (b ∷ []) =
        ground (arith, same_start empty, adds empty, same_start b, adds b)
    sum_by-bump_last size now (b ∷ c ∷ bs) = ground (arith, sum_by-bump_last size now (c ∷ bs))
