-- ===== src/RateLimiter.antt =====
-- src/queue/rate-limiter.ts: the token bucket of a partition. Amounts of tokens are integers in a
-- unit so small that `token` units make a token and `rate` units arrive each ms, which gives every
-- rational `tokensPerSec` (1000 * rate / token) with no rounding. The clock is an argument.
pub mod Bounds
pub mod Traffic
pub mod Order
mod Examples
use vereda.Common.{
  ℕ, ◌+◌, ◌-◌, ◌*◌, ◌/◌, max, Bool, true, false, Option, none, some, List, [], ◌∷◌, leb, ltb,
  or_default, if◌then◌else◌,
}
use vereda.Common.Int.{ℤ, pos, negsuc, ◌+ℤ◌, ◌-ℤ◌, min_ℤ, leb_ℤ, pos_part, neg_part}

pub record RateLimitConfig : Type 0 where
  pub rate : ℕ
  pub token : ℕ
  pub burst : Option ℕ
  pub max_wait_ms : Option ℕ

pub record TokenBucket : Type 0 where
  pub rate : ℕ
  pub token : ℕ
  pub burst : ℕ
  pub max_wait_ms : Option ℕ
  pub shift_ms : ℕ
  pub tokens : ℤ
  pub refilled_at : ℕ

-- One second's worth by default, and never below a single token.
unfoldable pub new : RateLimitConfig → (now : ℕ) → TokenBucket
new config now = record {
  rate = config.rate;
  token = config.token;
  burst = or_default config.burst (max config.token (1000 * config.rate));
  max_wait_ms = config.max_wait_ms;
  shift_ms = 0;
  tokens = pos (or_default config.burst (max config.token (1000 * config.rate)));
  refilled_at = now;
}

unfoldable pub refill : TokenBucket → (now : ℕ) → TokenBucket
refill b now = if leb now b.refilled_at then b else record b {
  tokens = min_ℤ (pos b.burst) (b.tokens +ℤ pos ((now - b.refilled_at) * b.rate));
  refilled_at = now;
}

-- `Math.ceil(a / rate)`, for a positive rate.
abbrev pub ceil_div : (a rate : ℕ) → ℕ
ceil_div a rate = (a + rate - 1) / rate

-- `Math.ceil(((1 - tokens) / tokensPerSec) * 1000)`, or 0 where a token is there.
unfoldable pub deficit_ms : TokenBucket → ℕ
deficit_ms b =
    if leb_ℤ (pos b.token) b.tokens then 0 else ceil_div (pos_part (pos b.token -ℤ b.tokens)) b.rate

-- When the next token is there, and the wait until then.
unfoldable pub ready_at : TokenBucket → (base : ℕ) → ℕ
ready_at b base = max base b.refilled_at

unfoldable pub wait_from : TokenBucket → (now at_ : ℕ) → TokenBucket × ℕ
unfolding ready_at
wait_from b now at_ =
    let base : ℕ = max now at_ in
    let b' = refill b base in (b', ready_at b' base - now + deficit_ms b')

abbrev pub exceeds : ℕ → Option ℕ → Bool
exceeds wait_ms none = false
exceeds wait_ms (some max_wait_ms) = ltb max_wait_ms wait_ms

unfoldable pub reserve : TokenBucket → (now at_ : ℕ) → TokenBucket × Option ℕ
unfolding wait_from
reserve b now at_ =
    let (b', wait_ms) = wait_from b now at_ in
    if exceeds wait_ms b.max_wait_ms
    then (b', none)
    else (record b' { tokens = b'.tokens -ℤ pos b'.token }, some wait_ms)

unfoldable pub next_wait_ms : TokenBucket → (now : ℕ) → TokenBucket × ℕ
unfolding wait_from
next_wait_ms b now = wait_from b now now

unfoldable pub freeze_until : TokenBucket → (until now : ℕ) → TokenBucket
freeze_until b until now =
    let b' = refill b now in
    record b' {
      shift_ms = b'.shift_ms + (until - b'.refilled_at);
      tokens = min_ℤ b'.tokens (pos 0);
      refilled_at = max b'.refilled_at until;
    }

unfoldable pub refund : TokenBucket → (now : ℕ) → TokenBucket
refund b now =
    let b' = refill b now in
    let cap : ℕ = if ltb now b'.refilled_at then 0 else b'.burst in
    record b' { tokens = min_ℤ (pos cap) (b'.tokens +ℤ pos b'.token) }

-- In the unit of the bucket.
unfoldable pub available : TokenBucket → (now : ℕ) → TokenBucket × ℕ
available b now = let b' = refill b now in (b', pos_part b'.tokens)

unfoldable pub is_full : TokenBucket → (now : ℕ) → TokenBucket × Bool
is_full b now = let b' = refill b now in (b', leb_ℤ (pos b'.burst) b'.tokens)
