-- ===== src/RateLimiter/Bounds.antt =====
-- What each operation of the token bucket keeps: the tokens of the reservations that are out.
use vereda.Common.{
  ℕ, suc, ◌+◌, ◌-◌, ◌*◌, ◌/◌, ◌≤◌, ◌<◌, ◌≡◌, refl, ap, inl, inr, max, Bool, true, false, Option,
  none, some, List, [], ◌∷◌, leb, ltb, or_default, if◌then◌else◌, Bool-cases, Option-cases, subst,
  arith,
}
use vereda.Common.Int.{
  ℤ, pos, negsuc, pos_part, neg_part, ◌+ℤ◌, ◌-ℤ◌, ◌≤ℤ◌, min_ℤ, leb_ℤ, +ℤ_parts, -ℤ_parts, min_ℤ-le,
}
use vereda.RateLimiter.{
  TokenBucket, RateLimitConfig, new, refill, ceil_div, deficit_ms, reserve, freeze_until, refund,
}

abbrev pub burst_of : RateLimitConfig → ℕ
burst_of config = or_default config.burst (max config.token (1000 * config.rate))

-- `held` reservations are out since `t0`, when the bucket held at most `burst`.
pub record Inv (config : RateLimitConfig) (t0 held : ℕ) (b : TokenBucket) : Type 0 where
  pub same_rate : b.rate ≡ config.rate
  pub same_token : b.token ≡ config.token
  pub same_burst : b.burst ≡ burst_of config
  pub since : t0 ≤ b.refilled_at
  pub full_at_most : b.tokens ≤ℤ pos b.burst
  pub paid :
      pos_part b.tokens + held * b.token + b.rate * t0
      ≤ b.burst + b.rate * b.refilled_at + neg_part b.tokens

pub elapsed : (r a n : ℕ) → a ≤ n → (n - a) * r + r * a ≡ r * n
elapsed r a n h =
    let whole : n ≡ (n - a) + a = omega arith in omega (arith, ap (λ (t : ℕ). r * t) whole)

pub ruleset int = (arith, +ℤ_parts, -ℤ_parts, min_ℤ-le)

pub refill-Inv :
    (config : RateLimitConfig) (t0 held : ℕ) (b : TokenBucket) (now : ℕ)
    → Inv config t0 held b
    → Inv config t0 held (refill b now)
unfolding refill
refill-Inv config t0 held b now v = elim (Bool-cases (leb now b.refilled_at)) [
  | inl old ↦ rw old v
  | inr new ↦ rw new (record {
    same_rate = v.same_rate;
    same_token = v.same_token;
    same_burst = v.same_burst;
    since = ground arith;
    full_at_most = omega int;
    paid = omega (int, v.paid, elapsed b.rate b.refilled_at now (ground arith));
  })
]

-- A wait is long enough for the token to have arrived.
ceil_div-ge : (a r : ℕ) → 0 < r → a ≤ ceil_div a r * r
ceil_div-ge a r h = grind arith

pub deficit-covers :
    (b : TokenBucket)
    → 0 < b.rate
    → b.token + neg_part b.tokens ≤ pos_part b.tokens + b.rate * deficit_ms b
unfolding deficit_ms
deficit-covers b h = elim (Bool-cases (leb_ℤ (pos b.token) b.tokens)) [
  | inl enough ↦ rw enough (ground arith)
  | inr short ↦ rw short (omega (int, ceil_div-ge (pos_part (pos b.token -ℤ b.tokens)) b.rate h))
]

-- A later refill point is only worth more.
pub later : (r a n : ℕ) → a ≤ n → r * a ≤ r * n
later r a n h = grind arith

pub freeze_until-Inv :
    (config : RateLimitConfig) (t0 held : ℕ) (b : TokenBucket) (until now : ℕ)
    → Inv config t0 held b
    → Inv config t0 held (freeze_until b until now)
unfolding freeze_until
freeze_until-Inv config t0 held b until now v =
    let b' = refill b now in
    let w = refill-Inv config t0 held b now v in
    record {
      same_rate = w.same_rate;
      same_token = w.same_token;
      same_burst = w.same_burst;
      since = omega (arith, w.since);
      full_at_most = omega (int, w.full_at_most);
      paid =
          omega
            (int, w.paid, later b'.rate b'.refilled_at (max b'.refilled_at until) (omega arith));
    }

-- One reservation fewer is out.
pub refund-Inv :
    (config : RateLimitConfig) (t0 held : ℕ) (b : TokenBucket) (now : ℕ)
    → Inv config t0 (suc held) b
    → Inv config t0 held (refund b now)
unfolding refund
refund-Inv config t0 held b now v =
    let b' = refill b now in
    let w = refill-Inv config t0 (suc held) b now v in
    let cap : ℕ = if ltb now b'.refilled_at then 0 else b'.burst in
    record {
      same_rate = w.same_rate;
      same_token = w.same_token;
      same_burst = w.same_burst;
      since = w.since;
      full_at_most = omega (int, min_ℤ-le (pos cap) (b'.tokens +ℤ pos b'.token), cap-le now b');
      paid = omega (int, w.paid);
    }
  where
    cap-le : (now : ℕ) (b : TokenBucket) → (if ltb now b.refilled_at then 0 else b.burst) ≤ b.burst
    cap-le now b = ground arith

pub reserve-some :
    (b : TokenBucket) (now at_ w : ℕ)
    → (reserve b now at_).1 ≡ some w
    → let b' = refill b (max now at_) in
      ((reserve b now at_).0 ≡ record b' { tokens = b'.tokens -ℤ pos b'.token })
      × (w ≡ max (max now at_) b'.refilled_at - now + deficit_ms b')
unfolding reserve
reserve-some b now at_ w e = (ground arith, ground arith)

pub reserve-none :
    (b : TokenBucket) (now at_ : ℕ)
    → (reserve b now at_).1 ≡ none
    → (reserve b now at_).0 ≡ refill b (max now at_)
unfolding reserve
reserve-none b now at_ e = ground arith

spend-Inv :
    (config : RateLimitConfig) (t0 held : ℕ) (b : TokenBucket)
    → Inv config t0 held b
    → Inv config t0 (suc held) (record b { tokens = b.tokens -ℤ pos b.token })
spend-Inv config t0 held b v = record {
  same_rate = v.same_rate;
  same_token = v.same_token;
  same_burst = v.same_burst;
  since = v.since;
  full_at_most = omega (int, v.full_at_most);
  paid = omega (int, v.paid);
}

module _ (config : RateLimitConfig) (t0 held : ℕ) (b : TokenBucket) (now at_ w : ℕ) where
  pub reserve-Inv :
      Inv config t0 held b
      → (reserve b now at_).1 ≡ some w
      → Inv config t0 (suc held) (reserve b now at_).0
  reserve-Inv v e = rw ((reserve-some b now at_ w e).0) (
      spend-Inv config t0 held (refill b (max now at_))
        (refill-Inv config t0 held b (max now at_) v))

  -- It is due no sooner than the tokens of all that are out, itself included, have arrived.
  pub reserve-due :
      0 < config.rate
      → Inv config t0 held b
      → (reserve b now at_).1 ≡ some w
      → suc held * config.token + config.rate * t0 ≤ burst_of config + config.rate * (now + w)
  reserve-due r v e =
      let b' = refill b (max now at_) in
      let i = refill-Inv config t0 held b (max now at_) v in
      let d = deficit-covers b' (omega (arith, r, i.same_rate)) in
      rw (← i.same_burst, ← i.same_rate, ← i.same_token)
        (omega (
          arith,
          i.paid,
          d,
          later b'.rate (b'.refilled_at + deficit_ms b') (now + w)
              (omega (arith, (reserve-some b now at_ w e).1)),
        ))
