-- ===== src/Timer/Chunks.antt =====
-- The timers of a long wait.
use vereda.Common.{
  ℕ, zero, suc, ◌+◌, ◌-◌, ◌*◌, ◌/◌, ◌≤◌, ◌<◌, ◌≡◌, refl, min, List, [], ◌∷◌, some, inl, inr, ltb,
  Bool-cases, length, sum_by, arith,
}
use vereda.Timer.{max_timer_ms, arm, set_long_timeout}

-- Each delay is one that `setTimeout` honours.
abbrev pub AllHeld : List ℕ → Type 0
AllHeld [] = Unit {0}
AllHeld (c ∷ cs) = (c ≤ max_timer_ms) × AllHeld cs

abbrev Waits : ℕ → List ℕ → Type 0
Waits ms cs =
    (sum_by (λ c. c) cs ≡ ms)
    × AllHeld cs
    × (0 < length cs)
    × ((length cs - 1) * max_timer_ms ≤ ms - 1)

arm-Waits :
    (fuel ms : ℕ)
    → ms < fuel * max_timer_ms + 1
    → 0 < fuel
    → (cs : List ℕ) × (arm fuel ms ≡ some cs) × Waits ms cs
unfolding arm
arm-Waits zero ms h p = absurd (omega arith)
arm-Waits (suc fuel) ms h p = elim (Bool-cases (ltb 0 (ms - min ms max_timer_ms))) [
  | inl more ↦
      let (cs, e, w) = arm-Waits fuel (ms - min ms max_timer_ms) (ground arith) (ground arith) in
      (
        min ms max_timer_ms ∷ cs,
        rw (more, e) refl,
        (ground arith, (omega arith, w.1), omega arith, ground arith),
      )
  | inr done ↦ (
    min ms max_timer_ms ∷ [],
    rw done refl,
    (ground arith, (omega arith, tt), omega arith, omega arith),
  )
]

-- A wait of any length is a chain of one or more timers that `setTimeout` honours, whose delays add
-- up to exactly that length, with no timer more than it needs: one timer fewer, each of the longest delay that it can have, would
-- wait less than that (a wait of 0 is one timer).
pub set_long_timeout-Waits :
    (ms : ℕ)
    → (cs : List ℕ) × (set_long_timeout ms ≡ some cs)
      × (sum_by (λ c. c) cs ≡ ms)
      × AllHeld cs
      × (0 < length cs)
      × ((length cs - 1) * max_timer_ms ≤ ms - 1)
unfolding set_long_timeout
set_long_timeout-Waits ms =
    let (cs, e, w) = arm-Waits (suc (ms / max_timer_ms)) ms (omega arith) (omega arith) in
    (cs, e, w.0, w.1, w.2, w.3)
