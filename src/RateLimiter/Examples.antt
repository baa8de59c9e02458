-- ===== src/RateLimiter/Examples.antt =====
-- Two tokens a second and a burst of three: in units of 1/500 token, one unit arrives each ms.
use vereda.Common.{suc, ◌+◌, ◌*◌, ◌≤◌, ◌≡◌, refl, none, some, List, [], ◌∷◌, arith}
use vereda.Common.Int.{pos, ◌+ℤ◌, ◌-ℤ◌, min_ℤ}
use vereda.RateLimiter.{
  TokenBucket, RateLimitConfig, new, refill, deficit_ms, reserve, freeze_until, refund,
}
use vereda.RateLimiter.Bounds.{burst_of}
use vereda.RateLimiter.Traffic.{Op, reserves, freezes, refunds, run, start, reserve_bounded}

abbrev config : RateLimitConfig
config = record { rate = 1; token = 500; burst = some 1500; max_wait_ms = none }

abbrev ops : List Op
ops =
    reserves 1000 1000
    ∷ reserves 1000 1000
    ∷ reserves 1000 1000
    ∷ reserves 1000 1000
    ∷ refunds 1100
    ∷ freezes 3000 1200
    ∷ []

abbrev frozen : TokenBucket
frozen = record {
  rate = 1;
  token = 500;
  burst = 1500;
  max_wait_ms = none;
  shift_ms = 1800;
  tokens = pos 0;
  refilled_at = 3000;
}

run_lem : run (start config 1000) ops ≡ record { bucket = frozen; held = 3 }
unfolding run start new refill deficit_ms reserve freeze_until refund ◌+ℤ◌ ◌-ℤ◌ min_ℤ
run_lem = refl

due_at_3500 : (reserve frozen 2000 2000).1 ≡ some 1500
unfolding refill deficit_ms reserve ◌-ℤ◌
due_at_3500 = refl

reserve_bounded_example :
    suc (run (start config 1000) ops).held * 500 + 1 * 1000 ≤ burst_of config + 1 * (2000 + 1500)
reserve_bounded_example =
    reserve_bounded config 1000 ops 2000 2000 1500 (omega arith) (rw run_lem due_at_3500)

next_due : (reserve (reserve frozen 2000 2000).0 2100 2100).1 ≡ some 1900
unfolding refill deficit_ms reserve ◌-ℤ◌
next_due = refl

abbrev rested : TokenBucket
rested = record frozen { tokens = pos 1500; refilled_at = 1000; shift_ms = 0 }

refrozen : (reserve (freeze_until rested 3000 1200) 2000 2000).1 ≡ some 1500
unfolding refill deficit_ms reserve freeze_until ◌+ℤ◌ ◌-ℤ◌ min_ℤ
refrozen = refl
