-- ===== src/Timer.antt =====
-- src/core/timer.ts: waits longer than `setTimeout` can hold. The timers that `setLongTimeout` arms
-- one after another, while nothing cancels them, are the list of their delays; `sleep`, which an
-- abort ends, stands in Sleep, a state that the timer and the signal move.
pub mod Chunks
pub mod Sleep
pub mod Awake
mod Examples
use mathlib.Core.Option
use vereda.Common.{
  ℕ, zero, suc, ◌+◌, ◌-◌, ◌/◌, min, List, [], ◌∷◌, Option, none, some, ltb, if◌then◌else◌,
}

-- 2^31 - 1.
abbrev pub max_timer_ms : ℕ
max_timer_ms = 2147483647

-- The delays that `arm` sets in turn until `callback` runs; `none` when the fuel ends.
unfoldable pub arm : (fuel remaining : ℕ) → Option (List ℕ)
arm zero remaining = none
arm (suc fuel) remaining =
    let chunk : ℕ = min remaining max_timer_ms in
    let left : ℕ = remaining - chunk in
    let later = Option.map (λ chunks. chunk ∷ chunks) (arm fuel left) in
    if ltb 0 left then later else some (chunk ∷ [])

unfoldable pub set_long_timeout : (ms : ℕ) → Option (List ℕ)
unfolding arm
set_long_timeout ms = arm (suc (ms / max_timer_ms)) ms
