-- ===== src/Timer/Awake.antt =====
-- A sleep ends once, and leaves neither a timer nor a listener.
use vereda.Common.{
  ℕ, zero, suc, ◌+◌, ◌-◌, ◌*◌, ◌/◌, ◌≤◌, ◌<◌, ◌≡◌, ◌≢◌, refl, sym, ap, ◌∙◌, subst, inl, inr, ◌⊎◌,
  min, Bool, true, false, Option, none, some, List, [], ◌∷◌, Bool-cases, Option-cases, ltb, arith,
}
use vereda.Timer.{max_timer_ms}
use vereda.Timer.Sleep.{
  Settlement, pending, resolved, rejected, Sleep, arm_next, start, ring, fires_with, on_abort,
  is_aborted, has_signal, Event, fires, aborts, step, run,
}

-- A sleep of `ms` that is waiting, over, or ended.
abbrev pub Rest : (ms : ℕ) → Sleep → Settlement → Type 0
Rest ms s pending =
    (delay : ℕ) × (s.timer ≡ some delay)
    × (delay ≤ max_timer_ms)
    × (s.waited + delay + s.remaining ≡ ms)
Rest ms s resolved = (s.timer ≡ none) × (s.listening ≡ false) × (s.waited ≡ ms)
Rest ms s rejected = (s.timer ≡ none) × (s.listening ≡ false) × (s.waited ≤ ms)

arm_next-Rest :
    (ms : ℕ) (s : Sleep)
    → s.settlement ≡ pending
    → s.waited + s.remaining ≡ ms
    → Rest ms (arm_next s) (arm_next s).settlement
arm_next-Rest ms s p h = rw p ((min s.remaining max_timer_ms, refl, omega arith, omega arith))

ring-Rest :
    (ms delay : ℕ) (k : Settlement) (s : Sleep)
    → s.settlement ≡ k
    → Rest ms s k
    → s.timer ≡ some delay
    → Rest ms (ring s delay) (ring s delay).settlement
ring-Rest ms delay pending s e (d, armed, le, total) t = elim (Bool-cases (ltb 0 s.remaining)) [
  | inl more ↦ rw more (
      arm_next-Rest ms (record s { waited = s.waited + delay; timer = none }) e
        (ground (arith, total, armed, t)))
  | inr done ↦ rw (done, e) (refl, refl, ground (arith, total, armed, t, done))
]
ring-Rest ms delay resolved s e (gone, deaf, total) t = absurd (cc)
ring-Rest ms delay rejected s e (gone, deaf, total) t = absurd (cc)

abort-Rest :
    (ms : ℕ) (k : Settlement) (s : Sleep)
    → s.settlement ≡ k
    → Rest ms s k
    → Rest ms (on_abort s) (on_abort s).settlement
abort-Rest ms pending s e (d, armed, le, total) = elim (Bool-cases s.listening) [
  | inl on_ ↦ simp on_ (rw e (refl, refl, omega (arith, total)))
  | inr off ↦ simp off (rw e (d, armed, le, total))
]
abort-Rest ms resolved s e (gone, deaf, total) = simp deaf (rw e (gone, deaf, total))
abort-Rest ms rejected s e (gone, deaf, total) = simp deaf (rw e (gone, deaf, total))

step-Rest :
    (ms : ℕ) (e : Event) (s : Sleep)
    → Rest ms s s.settlement
    → Rest ms (step s e) (step s e).settlement
unfolding step
step-Rest ms fires s r = elim (Option-cases s.timer) [
  | inl none' ↦ simp none' r
  | inr (delay, armed) ↦ simp armed (ring-Rest ms delay s.settlement s refl r armed)
]
step-Rest ms aborts s r = abort-Rest ms s.settlement s refl r

run-Rest :
    (ms : ℕ) (es : List Event) (s : Sleep)
    → Rest ms s s.settlement
    → Rest ms (run s es) (run s es).settlement
unfolding run
run-Rest ms [] s r = r
run-Rest ms (e ∷ es) s r = run-Rest ms es (step s e) (step-Rest ms e s r)

abbrev waiting : ℕ → Option Bool → Sleep
waiting ms signal = record {
  remaining = ms;
  timer = none;
  waited = 0;
  listening = has_signal signal;
  settlement = pending;
}

start-Rest :
    (ms : ℕ) (signal : Option Bool) → Rest ms (start ms signal) (start ms signal).settlement
unfolding start
start-Rest ms signal = elim (Bool-cases (is_aborted signal)) [
  | inl yes' ↦ rw yes' (refl, refl, omega arith)
  | inr no' ↦ rw no' (arm_next-Rest ms (waiting ms signal) refl (omega arith))
]

step-settled :
    (ms : ℕ) (e : Event) (k : Settlement) (s : Sleep) → k ≢ pending → Rest ms s k → step s e ≡ s
unfolding step
step-settled ms e pending s n r = absurd (n refl)
step-settled ms fires resolved s n (gone, deaf, total) = rw (gone) refl
step-settled ms aborts resolved s n (gone, deaf, total) = ground (arith, deaf)
step-settled ms fires rejected s n (gone, deaf, total) = rw (gone) refl
step-settled ms aborts rejected s n (gone, deaf, total) = ground (arith, deaf)

run-settled :
    (ms : ℕ) (later : List Event) (s : Sleep)
    → s.settlement ≢ pending
    → Rest ms s s.settlement
    → run s later ≡ s
unfolding run
run-settled ms [] s n r = refl
run-settled ms (e ∷ later) s n r =
    let same = step-settled ms e s.settlement s n r in rw same (run-settled ms later s n r)

Settlement-cases : (k : Settlement) → (k ≡ pending) ⊎ (k ≢ pending)
Settlement-cases pending = inl refl
Settlement-cases resolved = inr (λ e. cc)
Settlement-cases rejected = inr (λ e. cc)

-- Whatever timers fire and whenever the signal aborts, also before the call, a sleep of `ms` is in one of
-- three states. While it is pending, one timer is armed, for a delay that `setTimeout` honours, and what has been waited, this
-- delay and the rest add up to `ms`. When it has resolved, exactly `ms` have been waited. When it has been rejected, no more than that have. In the
-- last two, no timer is armed, no listener is left on the signal, and nothing changes any more.
pub run-start-Rest :
    (ms : ℕ) (signal : Option Bool) (es later : List Event)
    → let s = run (start ms signal) es in
      Rest ms s s.settlement × ((s.settlement ≡ pending) ⊎ (run s later ≡ s))
run-start-Rest ms signal es later =
    let s = run (start ms signal) es in
    let r = run-Rest ms es (start ms signal) (start-Rest ms signal) in
    (
      r,
      elim (Settlement-cases s.settlement) [
        | inl p ↦ inl p
        | inr n ↦ inr (run-settled ms later s n r)
      ],
    )

-- The next `n` timers.
abbrev pub rings : ℕ → List Event
rings zero = []
rings (suc n) = fires ∷ rings n

rings-over : (n : ℕ) (s : Sleep) → s.timer ≡ none → run s (rings n) ≡ s
unfolding run step
rings-over zero s h = refl
rings-over (suc n) s h =
    subst (λ t. run t (rings n) ≡ s) (sym (ap (fires_with s) h)) (rings-over n s h)

ring-more :
    (s : Sleep) (delay : ℕ)
    → ltb 0 s.remaining ≡ true
    → ring s delay ≡ arm_next (record s { waited = s.waited + delay; timer = none })
ring-more s delay h = rw h refl

ring-last :
    (s : Sleep) (delay : ℕ)
    → ltb 0 s.remaining ≡ false
    → s.settlement ≡ pending
    → ((ring s delay).settlement ≡ resolved) × ((ring s delay).timer ≡ none)
ring-last s delay h p = rw (h, p) (refl, refl)

arm_next-resolves :
    (n : ℕ) (s : Sleep)
    → s.settlement ≡ pending
    → s.remaining < n * max_timer_ms + 1
    → 0 < n
    → (run (arm_next s) (rings n)).settlement ≡ resolved
unfolding run step
arm_next-resolves zero s p h k = absurd (omega arith)
arm_next-resolves (suc n) s p h k =
    let chunk : ℕ = min s.remaining max_timer_ms in
    elim (Bool-cases (ltb 0 (s.remaining - chunk))) [
      | inl more ↦
          subst (λ t. (run t (rings n)).settlement ≡ resolved)
            (sym (ring-more (arm_next s) chunk more))
            (arm_next-resolves n
              (record s {
                remaining = s.remaining - chunk;
                waited = s.waited + chunk;
                timer = none;
              })
              p (ground arith) (ground arith))
      | inr done ↦
          let (over, gone) = ring-last (arm_next s) chunk done p in
          ap (λ t. t.settlement) (rings-over n (ring (arm_next s) chunk) gone) ∙ over
    ]

-- A sleep whose signal does not abort resolves, after as many timers at most as `ms` fills, and one.
pub sleep-resolves :
    (ms : ℕ) (signal : Option Bool)
    → is_aborted signal ≡ false
    → (run (start ms signal) (rings (suc (ms / max_timer_ms)))).settlement ≡ resolved
unfolding start
sleep-resolves ms signal h = rw h (
    arm_next-resolves (suc (ms / max_timer_ms)) (waiting ms signal) refl (omega arith)
      (omega arith))
