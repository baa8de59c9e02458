-- ===== src/Bulkhead/Foretold.antt =====
-- What `refusalAfter` answers, against what `takeToken` then does.
use vereda.Common.{
  ℕ, ◌+◌, ◌-◌, ◌≤◌, ◌<◌, ◌≡◌, refl, sym, ap, ◌∙◌, ◌⊎◌, true, false, ◌&&◌, Option, none, some, max,
  inl, inr, Bool-cases, ltb, leb, arith,
}
use vereda.Errors.{AppError, rate_limited_error}
use vereda.Pause
use vereda.Pause.{PartitionPause}
use vereda.RateLimiter.{
  TokenBucket, refill, ready_at, deficit_ms, wait_from, reserve, next_wait_ms, exceeds,
}
use vereda.Bulkhead.Admission.{
  Gate, refused_token, after_reserve, take_token_of, take_token, refusal_of, refusal_limited,
  refusal_for, refusal_after,
}

-- The wait for a token from `base` on, seen at `now`.
abbrev wait_at : TokenBucket → (base now : ℕ) → ℕ
wait_at b base now = max base (refill b base).refilled_at - now + deficit_ms (refill b base)

wait_from_lem :
    (b : TokenBucket) (now base : ℕ)
    → now ≤ base
    → wait_from b now base ≡ (refill b base, wait_at b base now)
unfolding wait_from ready_at
wait_from_lem b now base h = let e : max now base ≡ base = omega (arith, h) in rw e refl

refill_again : (b : TokenBucket) (now : ℕ) → refill (refill b now) now ≡ refill b now
unfolding refill
refill_again b now = elim (Bool-cases (leb now b.refilled_at)) [
  | inl e ↦ rw (e, e) refl
  | inr e ↦ let here : leb now now ≡ true = ground arith in rw (e, here) refl
]

same_limit : (b : TokenBucket) (now : ℕ) → (refill b now).max_wait_ms ≡ b.max_wait_ms
unfolding refill
same_limit b now = elim (Bool-cases (leb now b.refilled_at)) [
  | inl e ↦ rw e refl
  | inr e ↦ rw e refl
]

limit_kept :
    (b : TokenBucket) (now limit : ℕ)
    → b.max_wait_ms ≡ some limit
    → (refill b now).max_wait_ms ≡ some limit
limit_kept b now limit e = same_limit b now ∙ e

-- A reservation at a base that the bucket has been refilled to.
reserve_refilled :
    (b : TokenBucket) (now base limit : ℕ)
    → now ≤ base
    → b.max_wait_ms ≡ some limit
    → limit < wait_at b base now
    → reserve (refill b base) now base ≡ (refill b base, none)
unfolding reserve wait_from ready_at
reserve_refilled b now base limit h e over =
    let base_lem : max now base ≡ base = omega (arith, h) in
    let late : exceeds (wait_at b base now) (refill b base).max_wait_ms ≡ true =
      ap (λ m. exceeds (wait_at b base now) m) (limit_kept b base limit e) ∙ ground (arith, over) in
    rw (base_lem, refill_again b base, late) refl

next_wait_lem :
    (b : TokenBucket) (base : ℕ) → next_wait_ms b base ≡ (refill b base, wait_at b base base)
unfolding next_wait_ms
next_wait_lem b base = wait_from_lem b base base (omega arith)

next_wait_refilled :
    (b : TokenBucket) (base : ℕ)
    → next_wait_ms (refill b base) base ≡ (refill b base, wait_at b base base)
unfolding next_wait_ms
next_wait_refilled b base =
    rw (wait_from_lem (refill b base) base base (omega arith), refill_again b base) refl

refill-until : (b : TokenBucket) (now : ℕ) → now ≤ (refill b now).refilled_at
unfolding refill
refill-until b now = ground arith

-- Seen `ms` earlier, the wait for a token from `base` on is that much longer.
wait_at-earlier :
    (b : TokenBucket) (base ms now : ℕ)
    → now + ms ≡ base
    → wait_at b base now ≡ ms + wait_at b base base
wait_at-earlier b base ms now h = omega (arith, h, refill-until b base)

-- The gate of a partition with both a rate limit and a pause.
abbrev gate : Gate → TokenBucket → PartitionPause → Gate
gate g b p = record g { bucket = some b; pause = some p }

module _ (g : Gate) (b : TokenBucket) (p : PartitionPause) (limit now after_ms : ℕ)
    (limited : b.max_wait_ms ≡ some limit) where
  abbrev left : ℕ
  left = p.until - now - after_ms

  abbrev the_error : AppError
  the_error =
      rate_limited_error g.name (left + wait_at b p.until p.until) (some limit) (some p.until)

  take_token_refused :
      0 < left
      → limit < left + wait_at b p.until p.until
      → (take_token (gate g (refill b p.until) p) (now + after_ms)).1 ≡ refused_token the_error
  unfolding take_token take_token_of after_reserve Pause.remaining
  take_token_refused h over =
      let paused : ltb 0 (p.until - (now + after_ms)) ≡ true = ground (arith, h) in
      let earlier = wait_at-earlier b p.until left (now + after_ms) (omega (arith, h)) in
      let no_token =
        reserve_refilled b (now + after_ms) p.until limit (omega (arith, h)) limited
          (omega (arith, earlier, over)) in
      let until_lem : now + after_ms + (p.until - (now + after_ms)) ≡ p.until = omega (arith, h) in
      let left_lem : p.until - (now + after_ms) ≡ left = omega arith in
      rw (paused, no_token, paused, until_lem, next_wait_refilled b p.until, left_lem)
        (ap
          (λ m.
            refused_token
              (rate_limited_error g.name (left + wait_at b p.until p.until) m (some p.until)))
          (limit_kept b p.until limit limited))

  refusal_of_lem :
      0 < left
      → limit < left + wait_at b p.until p.until
      → refusal_of (gate g b p) b limit now after_ms ≡ (gate g (refill b p.until) p, some the_error)
  unfolding refusal_of Pause.remaining
  refusal_of_lem h over =
      let until_lem : now + (p.until - now) ≡ p.until = omega (arith, h) in
      let some_left : leb (p.until - now - after_ms) 0 ≡ false = ground (arith, h) in
      let too_long : leb (p.until - now - after_ms + wait_at b p.until p.until) limit ≡ false =
        ground (arith, over) in
      rw (some_left, until_lem, next_wait_lem b p.until, too_long) refl

  refusal_of-none :
      (left ≤ 0) ⊎ (left + wait_at b p.until p.until ≤ limit)
      → (refusal_of (gate g b p) b limit now after_ms).1 ≡ none
  unfolding refusal_of Pause.remaining
  refusal_of-none h = elim (Bool-cases (leb (p.until - now - after_ms) 0)) [
    | inl e ↦ rw e refl
    | inr e ↦
        let until_lem : now + (p.until - now) ≡ p.until = ground (arith, e) in
        let short : leb (p.until - now - after_ms + wait_at b p.until p.until) limit ≡ true =
          ground (arith, e, h) in
        rw (e, until_lem, next_wait_lem b p.until, short) refl
  ]

refusal_limited-take_token :
    (g : Gate) (b : TokenBucket) (p : PartitionPause) (now after_ms : ℕ) (e : AppError)
    (limit : Option ℕ)
    → b.max_wait_ms ≡ limit
    → (refusal_limited (gate g b p) b limit now after_ms).1 ≡ some e
    → (take_token (refusal_limited (gate g b p) b limit now after_ms).0 (now + after_ms)).1
      ≡ refused_token e
refusal_limited-take_token g b p now after_ms e none limited h = ground (arith, h)
refusal_limited-take_token g b p now after_ms e (some limit) limited h =
    elim (Bool-cases (
      ltb 0 (p.until - now - after_ms)
      && ltb limit (p.until - now - after_ms + wait_at b p.until p.until))) [
        | inl c ↦
            let is =
              refusal_of_lem g b p limit now after_ms limited (ground (arith, c))
                (ground (arith, c)) in
            let same : some (the_error g b p limit now after_ms limited) ≡ some e = rw is at h in
            rw is (
              take_token_refused g b p limit now after_ms limited (ground (arith, c))
                (ground (arith, c))
              ∙ ap (λ x. refused_token x) (ground (arith, same)))
        | inr c ↦
            let is = refusal_of-none g b p limit now after_ms limited (ground (arith, c)) in
            let absurd : none ≡ some e = sym is ∙ h in ground (arith, absurd)
      ]

refusal_limited-unpaused :
    (g : Gate) (b : TokenBucket) (now after_ms : ℕ) (limit : Option ℕ)
    → (refusal_limited (record g { bucket = some b; pause = none }) b limit now after_ms).1 ≡ none
unfolding refusal_of
refusal_limited-unpaused g b now after_ms none = refl
refusal_limited-unpaused g b now after_ms (some limit) =
    let nothing_left : leb (0 - after_ms) 0 ≡ true = ground arith in rw nothing_left refl

refusal_for-take_token :
    (g : Gate) (now after_ms : ℕ) (e : AppError) (bucket : Option TokenBucket)
    (pause : Option PartitionPause)
    → let g' = record g { bucket = bucket; pause = pause } in
      (refusal_for g' bucket now after_ms).1 ≡ some e
      → (take_token (refusal_for g' bucket now after_ms).0 (now + after_ms)).1 ≡ refused_token e
refusal_for-take_token g now after_ms e none pause h = ground (arith, h)
refusal_for-take_token g now after_ms e (some b) (some p) h =
    refusal_limited-take_token g b p now after_ms e b.max_wait_ms refl h
refusal_for-take_token g now after_ms e (some b) none h =
    let absurd : none ≡ some e =
      sym (refusal_limited-unpaused g b now after_ms b.max_wait_ms) ∙ h in
    ground (arith, absurd)

-- `refusalAfter` foretells `takeToken`: when it answers with an error for a retry that would first
-- wait `after_ms`, an attempt that asks for its token that much later, with nothing else happening to
-- the partition meanwhile, is refused with that very error: same wait, same limit, same end of pause.
pub refusal_after-take_token :
    (g : Gate) (now after_ms : ℕ) (e : AppError)
    → (refusal_after g now after_ms).1 ≡ some e
    → (take_token (refusal_after g now after_ms).0 (now + after_ms)).1 ≡ refused_token e
unfolding refusal_after
refusal_after-take_token g now after_ms e h =
    refusal_for-take_token g now after_ms e g.bucket g.pause h
