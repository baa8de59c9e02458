-- ===== src/Bulkhead/Pushback.antt =====
-- What a pause does to the attempts that come to the gate meanwhile.
use vereda.Common.{
  ℕ, ◌+◌, ◌-◌, ◌≤◌, ◌<◌, ◌≡◌, refl, true, false, Option, none, some, List, [], ◌∷◌, if-either, min,
  max, inl, inr, ◌&&◌, includes, Bool-cases, ltb, ◌==◌, arith,
}
use vereda.Errors.{
  AppError, network_error, http_error, retryable_status_error, timeout_error,
  deadline_exceeded_error, deadline_exceeded_after, validation_error, cancelled_error,
  queue_full_error, configuration_error, max_retries_exceeded_error, circuit_open_error,
  rate_limited_error,
}
use vereda.Pause
use vereda.Pause.{PartitionPause}
use vereda.RateLimiter.{TokenBucket, refill, ready_at, deficit_ms, wait_from, reserve, exceeds}
use vereda.Bulkhead.Admission.{
  Gate, pause_remaining_ms, pause_until, guard_starts, guard_settles, note_pushback, pause_for,
  Admitted, goes_now, waits, refused_token, wait_or_go, shift_of, after_reserve, take_token_of,
  take_token, wake,
}

until-remaining :
    (p : Option PartitionPause) (now : ℕ) → pause_until p ≤ now + pause_remaining_ms p now
unfolding Pause.remaining
until-remaining none now = omega arith
until-remaining (some p) now = omega arith

-- How an attempt that was let in stands to the pause at `now`.
abbrev Holds : (until now : ℕ) → Admitted → Type 0
Holds until now goes_now = until ≤ now
Holds until now (waits wait_ms due_at shift0) = (now < due_at) × (until ≤ due_at)
Holds until now (refused_token e) = Unit

wait_or_go-Holds :
    (until now wait_ms shift0 : ℕ)
    → until ≤ now + wait_ms
    → Holds until now (wait_or_go wait_ms now shift0)
wait_or_go-Holds until now wait_ms shift0 h = elim (Bool-cases (wait_ms == 0)) [
  | inl e ↦ rw e (ground (arith, e, h))
  | inr e ↦ rw e (ground (arith, e), h)
]

-- A token is reserved as of the pause's end.
after_reserve-Holds :
    (g : Gate) (b : TokenBucket) (now base until : ℕ)
    → until ≤ max now base
    → Holds until now (after_reserve g now (reserve b now base)).1
unfolding after_reserve reserve wait_from ready_at
after_reserve-Holds g b now base until h =
    let b' : TokenBucket = refill b (max now base) in
    elim (Bool-cases
      (exceeds (max (max now base) b'.refilled_at - now + deficit_ms b') b.max_wait_ms)) [
        | inl e ↦ rw e tt
        | inr e ↦ rw e (
            wait_or_go-Holds until now (max (max now base) b'.refilled_at - now + deficit_ms b')
              b'.shift_ms (omega (arith, h)))
      ]

take_token_of-Holds :
    (g : Gate) (now : ℕ) (bucket : Option TokenBucket)
    → Holds (pause_until g.pause) now (take_token_of g now bucket).1
unfolding take_token_of
take_token_of-Holds g now none =
    wait_or_go-Holds (pause_until g.pause) now (pause_remaining_ms g.pause now) 0
      (until-remaining g.pause now)
take_token_of-Holds g now (some b) = elim (Bool-cases (ltb 0 (pause_remaining_ms g.pause now))) [
  | inl e ↦
      rw e (after_reserve-Holds g b now (pause_until g.pause) (pause_until g.pause) (omega arith))
  | inr e ↦
      let over = until-remaining g.pause now in
      rw e (after_reserve-Holds g b now now (pause_until g.pause) (ground (arith, e, over)))
]

-- No attempt slips through a pause: one that `takeToken` lets go at once goes when the pause is over;
-- one that it tells to wait is due at a later time, and not before the pause's end.
take_token-Holds : (g : Gate) (now : ℕ) → Holds (pause_until g.pause) now (take_token g now).1
unfolding take_token
take_token-Holds g now = take_token_of-Holds g now g.bucket

remaining_after :
    (p : Option PartitionPause) (now : ℕ) → pause_until p ≤ now → pause_remaining_ms p now ≡ 0
unfolding Pause.remaining
remaining_after none now h = refl
remaining_after (some p) now h = omega (arith, h)

-- What the timer's callback may answer at `now`.
abbrev Woken : Gate → (now : ℕ) → Option ℕ → Type 0
Woken g now none = guard_starts g now ≡ true
Woken g now (some ms) = (0 < ms) × (pause_until g.pause ≤ now + ms)

guard_starts_after : (g : Gate) (now : ℕ) → pause_until g.pause ≤ now → guard_starts g now ≡ true
unfolding guard_starts
guard_starts_after g now h =
    let none_left : ltb 0 (pause_remaining_ms g.pause now) ≡ false =
      ground (arith, h, remaining_after g.pause now h) in
    rw none_left refl

-- When the timer of a waiting attempt fires and lets it go, no pause runs then, also if it has been
-- extended meanwhile: an attempt that starts at that time is not bounced. If it does not let it go,
-- it sleeps a positive time, and no less than until the pause's end.
wake-Woken : (g : Gate) (due_at shift0 now : ℕ) → Woken g now (wake g due_at shift0 now)
unfolding wake
wake-Woken g due_at shift0 now =
    let due : ℕ = max (due_at + (shift_of g.bucket - shift0)) (pause_until g.pause) in
    elim (Bool-cases (ltb now due)) [
      | inl e ↦ rw e (ground (arith, e), omega arith)
      | inr e ↦ rw e (guard_starts_after g now (ground (arith, e)))
    ]

-- What else happens at the gate: a guarded attempt settles, or one asks for a token.
pub data Visit : Type 0 where
  settles : Option AppError → (now : ℕ) → Visit
  takes : (now : ℕ) → Visit

abbrev pub visit : Gate → Visit → Gate
visit g (settles e now) = guard_settles g e now
visit g (takes now) = (take_token g now).0

abbrev pub visit_all : Gate → List Visit → Gate
visit_all g [] = g
visit_all g (v ∷ vs) = visit_all (visit g v) vs

extend-until : (p : PartitionPause) (ms now : ℕ) → p.until ≤ (Pause.extend p ms now).until
unfolding Pause.extend
extend-until p ms now = omega arith

pause_for-until :
    (g : Gate) (p : PartitionPause) (status ms now : ℕ)
    → p.until ≤ pause_until g.pause
    → p.until ≤ pause_until (pause_for g p status ms now).pause
unfolding pause_for
pause_for-until g p status ms now h =
    if-either (λ (g' : Gate). p.until ≤ pause_until g'.pause)
      (ltb 0 ms && includes status p.statuses) (extend-until p ms now) h

note_pushback-until :
    (g : Gate) (p : Option PartitionPause) (e : AppError) (now : ℕ)
    → pause_until p ≤ pause_until g.pause
    → pause_until p ≤ pause_until (note_pushback g p e now).pause
unfolding note_pushback
note_pushback-until g none e now h = h
note_pushback-until g (some p) (retryable_status_error s (some ms)) now h =
    pause_for-until g p s ms now h
note_pushback-until g (some p) network_error now h = h
note_pushback-until g (some p) (http_error s) now h = h
note_pushback-until g (some p) (retryable_status_error s none) now h = h
note_pushback-until g (some p) (timeout_error u t) now h = h
note_pushback-until g (some p) (deadline_exceeded_error u t) now h = h
note_pushback-until g (some p) (deadline_exceeded_after u t c) now h = h
note_pushback-until g (some p) validation_error now h = h
note_pushback-until g (some p) cancelled_error now h = h
note_pushback-until g (some p) (queue_full_error n q m s) now h = h
note_pushback-until g (some p) (configuration_error k) now h = h
note_pushback-until g (some p) (max_retries_exceeded_error a l) now h = h
note_pushback-until g (some p) (circuit_open_error n) now h = h
note_pushback-until g (some p) (rate_limited_error n w m u) now h = h

after_reserve-pause :
    (g : Gate) (now : ℕ) (r : TokenBucket × Option ℕ) → (after_reserve g now r).0.pause ≡ g.pause
unfolding after_reserve
after_reserve-pause g now (b, none) = refl
after_reserve-pause g now (b, some ms) = refl

take_token_of-pause :
    (g : Gate) (now : ℕ) (bucket : Option TokenBucket)
    → (take_token_of g now bucket).0.pause ≡ g.pause
unfolding take_token_of
take_token_of-pause g now none = refl
take_token_of-pause g now (some b) = after_reserve-pause g now _

visit-until : (g : Gate) (v : Visit) → pause_until g.pause ≤ pause_until (visit g v).pause
unfolding guard_settles take_token
visit-until g (settles none now) = omega arith
visit-until g (settles (some e) now) = note_pushback-until g g.pause e now (omega arith)
visit-until g (takes now) = rw (take_token_of-pause g now g.bucket) (omega arith)

visit_all-until :
    (g : Gate) (vs : List Visit) → pause_until g.pause ≤ pause_until (visit_all g vs).pause
visit_all-until g [] = omega arith
visit_all-until g (v ∷ vs) = omega (arith, visit-until g v, visit_all-until (visit g v) vs)

remaining_before :
    (p : Option PartitionPause) (later : ℕ)
    → later < pause_until p
    → ltb 0 (pause_remaining_ms p later) ≡ true
unfolding Pause.remaining
remaining_before none later h = absurd (omega arith)
remaining_before (some p) later h = ground (arith, h)

-- The gate is closed before the pause's end.
closed_before : (g : Gate) (later : ℕ) → later < pause_until g.pause → guard_starts g later ≡ false
unfolding guard_starts
closed_before g later h = rw (remaining_before g.pause later h) refl

pushback-until :
    (g : Gate) (p : PartitionPause) (status ms now : ℕ)
    → g.pause ≡ some p
    → includes status p.statuses ≡ true
    → 0 < ms
    → now + min ms p.max_pause_ms
      ≤ pause_until (guard_settles g (some (retryable_status_error status (some ms))) now).pause
unfolding guard_settles note_pushback pause_for Pause.extend
pushback-until g p status ms now e listed positive =
    let asked : (ltb 0 ms && includes status p.statuses) ≡ true =
      ground (arith, positive, listed) in
    rw (e, asked) (omega arith)

-- A retryable answer that is listed and asks for a positive wait closes the gate for that long: once
-- the guard has noted it, and whatever attempts settle then, with whatever error and at whatever time,
-- or ask for tokens, no attempt that reaches the front of its queues starts before that wait, or the
-- configured longest pause if it is shorter, is over.
pub guard_settles-guard_starts :
    (g : Gate) (p : PartitionPause) (status ms now later : ℕ) (vs : List Visit)
    → g.pause ≡ some p
    → includes status p.statuses ≡ true
    → 0 < ms
    → later < now + min ms p.max_pause_ms
    → guard_starts
        (visit_all (guard_settles g (some (retryable_status_error status (some ms))) now) vs)
        later
      ≡ false
guard_settles-guard_starts g p status ms now later vs e listed positive before =
    let noted : Gate = guard_settles g (some (retryable_status_error status (some ms))) now in
    closed_before (visit_all noted vs) later (
      omega (
        arith,
        before,
        pushback-until g p status ms now e listed positive,
        visit_all-until noted vs,
      ))
