-- ===== src/Timer/Examples.antt =====
-- A wait of thirty days takes two timers, and ends early when its signal aborts.
use vereda.Common.{
  ℕ, ◌-◌, ◌*◌, ◌≤◌, ◌<◌, ◌≡◌, refl, List, [], ◌∷◌, some, sum_by, length, false, ◌⊎◌,
}
use vereda.Timer.{set_long_timeout, max_timer_ms}
use vereda.Timer.Sleep.{pending, rejected, fires, aborts, start, run}
use vereda.Timer.Awake.{Rest, run-start-Rest}
use vereda.Timer.Chunks.{AllHeld, set_long_timeout-Waits}

thirty_days : set_long_timeout 2592000000 ≡ some (2147483647 ∷ 444516353 ∷ [])
unfolding set_long_timeout
thirty_days = refl

set_long_timeout-Waits_example :
    (cs : List ℕ) × (set_long_timeout 2592000000 ≡ some cs)
    × (sum_by (λ c. c) cs ≡ 2592000000)
    × AllHeld cs
    × (0 < length cs)
    × ((length cs - 1) * max_timer_ms ≤ 2592000000 - 1)
set_long_timeout-Waits_example = set_long_timeout-Waits 2592000000

-- A month's sleep whose signal aborts after the first timer has fired.
aborted_later :
    (run (start 2592000000 (some false)) (fires ∷ aborts ∷ fires ∷ [])).settlement ≡ rejected
unfolding run start
aborted_later = refl

run-start-Rest_example :
    let s = run (start 2592000000 (some false)) (fires ∷ aborts ∷ []) in
    Rest 2592000000 s s.settlement × ((s.settlement ≡ pending) ⊎ (run s (fires ∷ []) ≡ s))
run-start-Rest_example = run-start-Rest 2592000000 (some false) (fires ∷ aborts ∷ []) (fires ∷ [])
