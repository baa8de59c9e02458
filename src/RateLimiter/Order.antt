-- ===== src/RateLimiter/Order.antt =====
-- In which order reservations come due, and what a freeze does to them.
use vereda.Common.{
  ℕ, suc, ◌+◌, ◌-◌, ◌*◌, ◌≤◌, ◌<◌, ◌≡◌, refl, ap, ◌⊎◌, inl, inr, max, some, leb, Bool-cases, arith,
}
use vereda.Common.Int.{
  ℤ, pos, pos_part, neg_part, ◌-ℤ◌, min_ℤ, leb_ℤ, min_ℤ-le, leb_ℤ-false, -ℤ_parts,
}
use vereda.RateLimiter.{TokenBucket, refill, ceil_div, deficit_ms, reserve, freeze_until}
use vereda.RateLimiter.Bounds.{reserve-some, int, elapsed, later, deficit-covers}

-- An integer has one part only.
part-zero : (a : ℤ) → (pos_part a ≡ 0) ⊎ (neg_part a ≡ 0)
part-zero a = ground arith

-- No wait is longer than it must be.
ceil_div-least : (a k r : ℕ) → 0 < r → a ≤ k * r → ceil_div a r ≤ k
ceil_div-least a k r h e = elim (Bool-cases (leb (ceil_div a r) k)) [
  | inl fits ↦ ground arith
  | inr over ↦ absurd (omega (arith, e, h, later r (suc k) (ceil_div a r) (ground arith)))
]

deficit-least :
    (b : TokenBucket) (k : ℕ)
    → 0 < b.rate
    → b.token + neg_part b.tokens ≤ pos_part b.tokens + b.rate * k
    → deficit_ms b ≤ k
unfolding deficit_ms
deficit-least b k h e = elim (Bool-cases (leb_ℤ (pos b.token) b.tokens)) [
  | inl enough ↦ rw enough (omega arith)
  | inr short ↦ rw short (
      ceil_div-least (pos_part (pos b.token -ℤ b.tokens)) k b.rate h (
        omega (
          arith,
          leb_ℤ-false (pos b.token) b.tokens short,
          -ℤ_parts (pos b.token) b.tokens,
          part-zero (pos b.token -ℤ b.tokens),
        )))
]

-- What a refill does, in terms of its time.
refill-facts :
    (b : TokenBucket) (now : ℕ)
    → let b' = refill b now in
      (b'.rate ≡ b.rate)
      × (b'.token ≡ b.token)
      × (b'.refilled_at ≡ max b.refilled_at now)
      × (pos_part b'.tokens + neg_part b.tokens + b.rate * b.refilled_at
          ≤ pos_part b.tokens + neg_part b'.tokens + b.rate * b'.refilled_at)
unfolding refill
refill-facts b now = elim (Bool-cases (leb now b.refilled_at)) [
  | inl old ↦ rw old (refl, refl, ground arith, omega arith)
  | inr new ↦
      rw new
        (refl, refl, ground arith, omega (int, elapsed b.rate b.refilled_at now (ground arith)))
]

-- A bucket that has to wait for its next token, one reservation later.
still_owed :
    (c d : TokenBucket) (k : ℕ) (spent : ℤ)
    → spent ≡ c.tokens -ℤ pos c.token
    → d.rate ≡ c.rate
    → d.token ≡ c.token
    → c.refilled_at ≤ d.refilled_at
    → pos_part d.tokens + neg_part spent + c.rate * c.refilled_at
      ≤ pos_part spent + neg_part d.tokens + c.rate * d.refilled_at
    → d.token + neg_part d.tokens ≤ pos_part d.tokens + d.rate * k
    → c.token + neg_part c.tokens ≤ pos_part c.tokens + c.rate * (d.refilled_at - c.refilled_at + k)
still_owed c d k spent s r t o p q = omega (
  arith,
  ap pos_part s,
  ap neg_part s,
  -ℤ_parts c.tokens (pos c.token),
  ap (λ (x : ℕ). x * k) r,
  elapsed c.rate c.refilled_at d.refilled_at o,
)

-- Reservations come due in the order in which they were made: of two that are granted one after the
-- other from the same bucket, the later one at the same time or later, the later is not due sooner.
reserve-reserve :
    (b : TokenBucket) (now now' w w' : ℕ)
    → 0 < b.rate
    → now ≤ now'
    → (reserve b now now).1 ≡ some w
    → (reserve (reserve b now now).0 now' now').1 ≡ some w'
    → now + w ≤ now' + w'
reserve-reserve b now now' w w' r h e e' =
    let first = reserve-some b now now w e in
    let c = refill b (max now now) in
    let b1 = record c { tokens = c.tokens -ℤ pos c.token } in
    let second = reserve-some b1 now' now' w' (rw (first.0) at e') in
    let d = refill b1 (max now' now') in
    let f = refill-facts b (max now now) in
    let g = refill-facts b1 (max now' now') in
    let covered = deficit-covers d (omega (arith, r, f, g)) in
    let due =
      deficit-least c (d.refilled_at - c.refilled_at + deficit_ms d) (omega (arith, r, f))
        (still_owed c d (deficit_ms d) b1.tokens refl g.0 g.1 (omega (arith, g.2)) g.3 covered) in
    omega (arith, first.1, second.1, f, g, due)

freeze-facts :
    (b : TokenBucket) (until now : ℕ)
    → let f = freeze_until b until now in
      (f.rate ≡ b.rate) × (f.token ≡ b.token) × (until ≤ f.refilled_at) × (pos_part f.tokens ≡ 0)
unfolding freeze_until
freeze-facts b until now =
    let g = refill-facts b now in
    let m = min_ℤ-le (refill b now).tokens (pos 0) in
    (g.0, g.1, omega arith, omega (arith, m, part-zero (min_ℤ (refill b now).tokens (pos 0))))

due_after_refill :
    (f : TokenBucket) (until now w : ℕ)
    → 0 < f.rate
    → until ≤ f.refilled_at
    → pos_part f.tokens ≡ 0
    → (reserve f now now).1 ≡ some w
    → f.rate * until + f.token ≤ f.rate * (now + w)
due_after_refill f until now w r u empty e =
    let c = refill f (max now now) in
    let g = refill-facts f (max now now) in
    let covered = deficit-covers c (omega (arith, r, g)) in
    omega (
      arith,
      g.1,
      g.3,
      ap (λ (x : ℕ). x * deficit_ms c) g.0,
      covered,
      empty,
      later f.rate until f.refilled_at u,
      later f.rate (c.refilled_at + deficit_ms c) (now + w)
          (omega (arith, (reserve-some f now now w e).1)),
    )

-- After a freeze until some time, a reservation made at any time is due no sooner than one token has
-- arrived since that time: traffic resumes at the rate, not in a burst.
reserve-freeze_until :
    (b : TokenBucket) (until now now' w : ℕ)
    → 0 < b.rate
    → (reserve (freeze_until b until now) now' now').1 ≡ some w
    → b.rate * until + b.token ≤ b.rate * (now' + w)
reserve-freeze_until b until now now' w r e =
    let f = freeze_until b until now in
    let ff = freeze-facts b until now in
    let due = due_after_refill f until now' w (omega (arith, r, ff)) ff.2 ff.3 e in
    omega (arith, due, ff.1, ap (λ (x : ℕ). x * until) ff.0, ap (λ (x : ℕ). x * (now' + w)) ff.0)
