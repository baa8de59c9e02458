-- ===== src/RateLimiter/Traffic.antt =====
-- The rate that the token bucket enforces, over every history of reservations, refunds and freezes.
use vereda.Common.{
  ℕ, suc, ◌+◌, ◌-◌, ◌*◌, ◌≤◌, ◌<◌, ◌≡◌, refl, subst, inl, inr, max, Option, none, some, List, [],
  ◌∷◌, ltb, if◌then◌else◌, Bool-cases, Option-cases, arith,
}
use vereda.RateLimiter.{TokenBucket, RateLimitConfig, new, refill, reserve, freeze_until, refund}
use vereda.RateLimiter.Bounds.{
  Inv, burst_of, refill-Inv, freeze_until-Inv, refund-Inv, reserve-none, reserve-Inv, reserve-due,
}

-- What the callers of a bucket do, in any order and at any times. A refund hands back a token that
-- was reserved, so it is one of those that are out.
pub data Op : Type 0 where
  reserves : (now at_ : ℕ) → Op
  refunds : (now : ℕ) → Op
  freezes : (until now : ℕ) → Op
  queries : (now : ℕ) → Op

pub record Traffic : Type 0 where
  pub bucket : TokenBucket
  pub held : ℕ

abbrev more_if : Option ℕ → ℕ → ℕ
more_if none n = n
more_if (some w) n = suc n

unfoldable pub step : Traffic → Op → Traffic
step s (reserves now at_) = record {
  bucket = (reserve s.bucket now at_).0;
  held = more_if (reserve s.bucket now at_).1 s.held;
}
step s (refunds now) =
    if ltb 0 s.held then record { bucket = refund s.bucket now; held = s.held - 1 } else s
step s (freezes until now) = record s { bucket = freeze_until s.bucket until now }
step s (queries now) = record s { bucket = refill s.bucket now }

unfoldable pub run : Traffic → List Op → Traffic
unfolding step
run s [] = s
run s (op ∷ ops) = run (step s op) ops

-- A new bucket, from which nothing is reserved.
unfoldable pub start : RateLimitConfig → (now : ℕ) → Traffic
start config now = record { bucket = new config now; held = 0 }

abbrev Good : RateLimitConfig → ℕ → Traffic → Type 0
Good config t0 s = Inv config t0 s.held s.bucket

refused-Inv :
    (config : RateLimitConfig) (t0 held : ℕ) (b : TokenBucket) (now at_ : ℕ)
    → Inv config t0 held b
    → (reserve b now at_).1 ≡ none
    → Inv config t0 held (reserve b now at_).0
refused-Inv config t0 held b now at_ v e =
    rw (reserve-none b now at_ e) (refill-Inv config t0 held b (max now at_) v)

step-Good :
    (config : RateLimitConfig) (t0 : ℕ) (s : Traffic) (op : Op)
    → Good config t0 s
    → Good config t0 (step s op)
unfolding step
step-Good config t0 s (reserves now at_) v = elim (Option-cases (reserve s.bucket now at_).1) [
  | inl e ↦ rw e (refused-Inv config t0 s.held s.bucket now at_ v e)
  | inr (w, e) ↦ rw e (reserve-Inv config t0 s.held s.bucket now at_ w v e)
]
step-Good config t0 s (refunds now) v = elim (Bool-cases (ltb 0 s.held)) [
  | inl out ↦ rw out (
      refund-Inv config t0 (s.held - 1) s.bucket now
        (subst (λ n. Inv config t0 n s.bucket) (ground arith) v))
  | inr nothing ↦ rw nothing v
]
step-Good config t0 s (freezes until now) v = freeze_until-Inv config t0 s.held s.bucket until now v
step-Good config t0 s (queries now) v = refill-Inv config t0 s.held s.bucket now v

run-Good :
    (config : RateLimitConfig) (t0 : ℕ) (s : Traffic) (ops : List Op)
    → Good config t0 s
    → Good config t0 (run s ops)
unfolding run
run-Good config t0 s [] v = v
run-Good config t0 s (op ∷ ops) v = run-Good config t0 (step s op) ops (step-Good config t0 s op v)

start-Good : (config : RateLimitConfig) (t0 : ℕ) → Good config t0 (start config t0)
unfolding start new
start-Good config t0 = record {
  same_rate = refl;
  same_token = refl;
  same_burst = refl;
  since = omega arith;
  full_at_most = omega arith;
  paid = omega arith;
}

-- The rate limit: in a bucket made at `t0`, after any reservations, refunds, freezes and queries, at
-- any times, a reservation that is granted at `now` with a wait of `w` ms is due no sooner than the
-- burst and what has arrived since `t0` pay for it and for all reservations that are out.
pub reserve_bounded :
    (config : RateLimitConfig) (t0 : ℕ) (ops : List Op) (now at_ w : ℕ)
    → 0 < config.rate
    → (reserve (run (start config t0) ops).bucket now at_).1 ≡ some w
    → suc (run (start config t0) ops).held * config.token + config.rate * t0
      ≤ burst_of config + config.rate * (now + w)
reserve_bounded config t0 ops now at_ w r e =
    reserve-due config t0 _ _ now at_ w r
      (run-Good config t0 (start config t0) ops (start-Good config t0)) e
