-- ===== src/RetryBudget/Tracking.antt =====
-- The budget's window against the log of what was recorded in it, under a clock that does not go back.
use vereda.Common.{
  ℕ, zero, suc, ◌+◌, ◌/◌, ◌≤◌, ◌<◌, ◌≡◌, refl, sym, ap, ◌∙◌, max, Bool, true, false, not, ◌&&◌,
  List, [], ◌∷◌, ◌++◌, keep, sum_by, inl, inr, Bool-cases, leb, if◌then◌else◌, arith,
}
use vereda.Buckets.{bucket_start, within, keep-keep, sum_by-bump_last}
use vereda.Buckets.Ascending.{Ascending, keep-all, keep-Ascending, bump_last-Ascending}
use vereda.RetryBudget.{
  Bucket, BudgetWindow, start_of, new_window, prune_buckets, prune, bump, add_request, add_retry,
  record_window_request, record_window_retry, totals,
}

-- An entry of the log: its time, and whether it is a retry.
abbrev pub Entry : Type 0
Entry = ℕ × Bool

abbrev pub covered : (size_ms bucket_ms now : ℕ) → Entry → Bool
covered size_ms bucket_ms now (t, retry) = leb now (bucket_start bucket_ms t + size_ms)

-- How many covered entries are requests, and how many retries.
abbrev pub spec_requests : (size_ms bucket_ms now : ℕ) → List Entry → ℕ
spec_requests size bucket now [] = 0
spec_requests size bucket now (e ∷ log) =
    (if covered size bucket now e && not e.1 then 1 else 0) + spec_requests size bucket now log

abbrev pub spec_retries : (size_ms bucket_ms now : ℕ) → List Entry → ℕ
spec_retries size bucket now [] = 0
spec_retries size bucket now (e ∷ log) =
    (if covered size bucket now e && e.1 then 1 else 0) + spec_retries size bucket now log

spec-snoc :
    (size bucket now : ℕ) (log : List Entry) (e : Entry)
    → (spec_requests size bucket now (log ++ (e ∷ []))
        ≡ spec_requests size bucket now log
          + (if covered size bucket now e && not e.1 then 1 else 0))
      × (spec_retries size bucket now (log ++ (e ∷ []))
          ≡ spec_retries size bucket now log + (if covered size bucket now e && e.1 then 1 else 0))
spec-snoc size bucket now [] e = (omega arith, omega arith)
spec-snoc size bucket now (x ∷ log) e =
    let ih = spec-snoc size bucket now log e in (omega (arith, ih), omega (arith, ih))

-- With buckets in order the shortcut of `prune` filters nothing that should go.
prune-keep :
    (size now hi : ℕ) (bs : List Bucket)
    → Ascending start_of 0 hi bs
    → prune_buckets size now bs ≡ keep (within start_of size now) bs
unfolding prune_buckets
prune-keep size now hi [] a = refl
prune-keep size now hi (b ∷ bs) a = elim (Bool-cases (within start_of size now b)) [
  | inl fresh ↦
      rw fresh
        (ap (λ rest. b ∷ rest) (sym (keep-all start_of size now b.start hi bs (ground arith) a.2)))
  | inr stale ↦ rw stale refl
]

-- What a query at `now` finds of a weight.
pub found : (Bucket → ℕ) → BudgetWindow → ℕ → ℕ
found f w now = sum_by f (keep (within start_of w.size_ms now) w.buckets)

abbrev pub requests_of : Bucket → ℕ
requests_of b = b.requests

abbrev pub retries_of : Bucket → ℕ
retries_of b = b.retries

-- The window `w` of `size` ms stands for the log at `last` and from then on.
pub record Tracks (size last : ℕ) (w : BudgetWindow) (log : List Entry) : Type 0 where
  pub sized : w.size_ms ≡ size
  pub bucketed : w.bucket_ms ≡ max 1 (size / 10)
  pub ordered : Ascending start_of 0 (bucket_start w.bucket_ms last) w.buckets
  pub counted :
      (now : ℕ)
      → last ≤ now
      → (found requests_of w now ≡ spec_requests w.size_ms w.bucket_ms now log)
        × (found retries_of w now ≡ spec_retries w.size_ms w.bucket_ms now log)

pub new_window-Tracks : (size : ℕ) → Tracks size 0 (new_window size) []
unfolding new_window found
new_window-Tracks size = record {
  sized = refl;
  bucketed = refl;
  ordered = tt;
  counted = λ now h. (refl, refl);
}

div_mono : (t t' b : ℕ) → 0 < b → t ≤ t' → t / b ≤ t' / b
div_mono t t' b p h = grind arith

bucket_start_mono : (b t t' : ℕ) → t ≤ t' → bucket_start b t ≤ bucket_start b t'
bucket_start_mono zero t t' h = grind arith
bucket_start_mono (suc b) t t' h = grind (arith, div_mono t t' (suc b))

widen :
    (lo hi hi' : ℕ) (bs : List Bucket)
    → hi ≤ hi'
    → Ascending start_of lo hi bs
    → Ascending start_of lo hi' bs
widen lo hi hi' [] h a = tt
widen lo hi hi' (b ∷ bs) h a = (a.0, omega (arith, a.1), widen b.start hi hi' bs h a.2)

pub prune-Tracks :
    (size last now : ℕ) (w : BudgetWindow) (log : List Entry)
    → last ≤ now
    → Tracks size last w log
    → Tracks size now (prune w now) log
unfolding prune found
prune-Tracks size last now w log h v =
    let kept = prune-keep w.size_ms now (bucket_start w.bucket_ms last) w.buckets v.ordered in
    record {
      sized = v.sized;
      bucketed = v.bucketed;
      ordered = rw kept (
          keep-Ascending start_of w.size_ms now 0 (bucket_start w.bucket_ms now) w.buckets (
            widen 0 (bucket_start w.bucket_ms last) (bucket_start w.bucket_ms now) w.buckets
              (bucket_start_mono w.bucket_ms last now h) v.ordered));
      counted = λ later l.
          rw (kept, keep-keep start_of w.size_ms now later w.buckets l)
            (v.counted later (omega arith));
    }

-- An increment that leaves the start alone and counts `r` requests and `x` retries.
record Writes (write : Bucket → Bucket) (r x : ℕ) : Type 0 where
  same_start : (b : Bucket) → (write b).start ≡ b.start
  adds_requests : (b : Bucket) → (write b).requests ≡ b.requests + r
  adds_retries : (b : Bucket) → (write b).retries ≡ b.retries + x

module _ (write : Bucket → Bucket) (r x : ℕ) (writes : Writes write r x) where
  bump-found :
      (w : BudgetWindow) (t now : ℕ)
      → let c = covered w.size_ms w.bucket_ms now (t, true) in
        (found requests_of (bump write w t) now
          ≡ found requests_of (prune w t) now + (if c then r else 0))
        × (found retries_of (bump write w t) now
            ≡ found retries_of (prune w t) now + (if c then x else 0))
  unfolding found bump prune
  bump-found w t now =
      let empty : Bucket = record {
        start = bucket_start w.bucket_ms t;
        requests = 0;
        retries = 0;
      } in
      (
        sum_by-bump_last start_of write empty requests_of r writes.same_start writes.adds_requests
            refl w.size_ms now (prune w t).buckets,
        sum_by-bump_last start_of write empty retries_of x writes.same_start writes.adds_retries
            refl w.size_ms now (prune w t).buckets,
      )

  bump-Tracks :
      (retry : Bool) (size last t : ℕ) (w : BudgetWindow) (log : List Entry)
      → r ≡ (if retry then 0 else 1)
      → x ≡ (if retry then 1 else 0)
      → last ≤ t
      → Tracks size last w log
      → Tracks size t (bump write w t) (log ++ ((t, retry) ∷ []))
  unfolding bump prune
  bump-Tracks retry size last t w log er ex h v =
      let p = prune-Tracks size last t w log h v in
      record {
        sized = v.sized;
        bucketed = v.bucketed;
        ordered =
            bump_last-Ascending start_of write
              (record { start = bucket_start w.bucket_ms t; requests = 0; retries = 0 }) 0
              (bucket_start w.bucket_ms t) (prune w t).buckets writes.same_start (omega arith)
              (omega arith) p.ordered;
        counted = λ now l.
            let f = bump-found w t now in
            let c = p.counted now l in
            let s = spec-snoc w.size_ms w.bucket_ms now log (t, retry) in
            (ground (arith, f.0, c.0, s.0, er), ground (arith, f.1, c.1, s.1, ex));
      }

pub record_window_request-Tracks :
    (size last t : ℕ) (w : BudgetWindow) (log : List Entry)
    → last ≤ t
    → Tracks size last w log
    → Tracks size t (record_window_request w t) (log ++ ((t, false) ∷ []))
unfolding record_window_request
record_window_request-Tracks size last t w log h v =
    bump-Tracks add_request 1 0
      (record {
        same_start = λ b. refl;
        adds_requests = λ b. refl;
        adds_retries = λ b. omega arith;
      })
      false size last t w log refl refl h v

pub record_window_retry-Tracks :
    (size last t : ℕ) (w : BudgetWindow) (log : List Entry)
    → last ≤ t
    → Tracks size last w log
    → Tracks size t (record_window_retry w t) (log ++ ((t, true) ∷ []))
unfolding record_window_retry
record_window_retry-Tracks size last t w log h v =
    bump-Tracks add_retry 0 1
      (record {
        same_start = λ b. refl;
        adds_requests = λ b. omega arith;
        adds_retries = λ b. refl;
      })
      true size last t w log refl refl h v

-- What the budget reads of the window at `now`.
pub totals-found :
    (size last now : ℕ) (w : BudgetWindow) (log : List Entry)
    → Tracks size last w log
    → let t = (totals w now).1 in
      (t.requests ≡ found requests_of w now) × (t.retries ≡ found retries_of w now)
unfolding totals prune found
totals-found size last now w log v =
    rw (prune-keep w.size_ms now (bucket_start w.bucket_ms last) w.buckets v.ordered) (refl, refl)

same_counts :
    (count : (size bucket : ℕ) → ℕ) (s s' b b' : ℕ) → s ≡ s' → b ≡ b' → count s b ≡ count s' b'
same_counts count s s' b b' e e' = ap (λ (k : ℕ). count k b) e ∙ ap (λ (k : ℕ). count s' k) e'

pub totals-spec :
    (size last now : ℕ) (w : BudgetWindow) (log : List Entry)
    → last ≤ now
    → Tracks size last w log
    → let t = (totals w now).1 in
      (t.requests ≡ spec_requests size (max 1 (size / 10)) now log)
      × (t.retries ≡ spec_retries size (max 1 (size / 10)) now log)
totals-spec size last now w log h v =
    let f = totals-found size last now w log v in
    let c = v.counted now h in
    (
      f.0
          ∙ c.0
          ∙ same_counts (λ (s b : ℕ). spec_requests s b now log) w.size_ms size w.bucket_ms
              (max 1 (size / 10)) v.sized v.bucketed,
      f.1
          ∙ c.1
          ∙ same_counts (λ (s b : ℕ). spec_retries s b now log) w.size_ms size w.bucket_ms
              (max 1 (size / 10)) v.sized v.bucketed,
    )
