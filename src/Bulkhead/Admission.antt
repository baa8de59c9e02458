-- ===== src/Bulkhead/Admission.antt =====
-- src/queue/bulkhead.ts: the rate limit and the pause that an attempt passes before it asks for a
-- slot, and what a settled attempt tells them. Each method reads one clock value, its argument.
use vereda.Common.{
  ℕ, ◌+◌, ◌-◌, String, Bool, true, ◌&&◌, not, Option, none, some, max, includes, ltb, leb, ◌==◌,
  length, if◌then◌else◌,
}
use vereda.Errors.{AppError, retryable_status_error, rate_limited_error}
use vereda.Pause
use vereda.Pause.{PartitionPause}
use vereda.RateLimiter
use vereda.RateLimiter.{TokenBucket, reserve, next_wait_ms, freeze_until, refund}
use vereda.Bulkhead.{Bulkhead}

-- The fields of a bulkhead that these methods use.
pub record Gate : Type 0 where
  pub name : String
  pub bucket : Option TokenBucket
  pub pause : Option PartitionPause

abbrev pub pause_remaining_ms : Option PartitionPause → (now : ℕ) → ℕ
pause_remaining_ms none now = 0
pause_remaining_ms (some p) now = Pause.remaining p now

abbrev pub pause_until : Option PartitionPause → ℕ
pause_until none = 0
pause_until (some p) = p.until

abbrev pub paused_until : Option PartitionPause → (now : ℕ) → Option ℕ
paused_until p now = if ltb 0 (pause_remaining_ms p now) then some (pause_until p) else none

abbrev freeze : Option TokenBucket → (until now : ℕ) → Option TokenBucket
freeze none until now = none
freeze (some b) until now = some (freeze_until b until now)

unfoldable pub pause_for : Gate → PartitionPause → (status ms now : ℕ) → Gate
pause_for g p status ms now =
    let p' = Pause.extend p ms now in
    if ltb 0 ms && includes status p.statuses
    then record g { pause = some p'; bucket = freeze g.bucket p'.until now }
    else g

unfoldable pub note_pushback : Gate → Option PartitionPause → AppError → (now : ℕ) → Gate
unfolding pause_for
note_pushback g (some p) (retryable_status_error status (some ms)) now = pause_for g p status ms now
note_pushback g p e now = g

-- What a guarded attempt does when it reaches the front of its queues: it starts, or it is bounced
-- with `PAUSED` and nothing is sent.
unfoldable pub guard_starts : Gate → (now : ℕ) → Bool
guard_starts g now = not (ltb 0 (pause_remaining_ms g.pause now))

-- What the guard notes of an attempt that has settled, by its error, before its slot is released.
unfoldable pub guard_settles : Gate → Option AppError → (now : ℕ) → Gate
guard_settles g none now = g
guard_settles g (some e) now = note_pushback g g.pause e now

-- How an attempt of `takeToken` is admitted; `waits` keeps `dueAt` and `shift0` for its timer.
pub data Admitted : Type 0 where
  goes_now : Admitted
  waits : (wait_ms due_at shift0 : ℕ) → Admitted
  refused_token : AppError → Admitted

abbrev pub shift_of : Option TokenBucket → ℕ
shift_of none = 0
shift_of (some b) = b.shift_ms

abbrev pub wait_or_go : (wait_ms now shift0 : ℕ) → Admitted
wait_or_go wait_ms now shift0 =
    if wait_ms == 0 then goes_now else waits wait_ms (now + wait_ms) shift0

-- The reservation of `takeToken`, which was refused or not.
unfoldable pub after_reserve : Gate → (now : ℕ) → TokenBucket × Option ℕ → Gate × Admitted
after_reserve g now (b, some wait_ms) =
    (record g { bucket = some b }, wait_or_go wait_ms now b.shift_ms)
after_reserve g now (b, none) =
    let pause_ms : ℕ = pause_remaining_ms g.pause now in
    let (b', next_ms) = next_wait_ms b (now + pause_ms) in
    (
      record g { bucket = some b' },
      refused_token
          (rate_limited_error g.name (pause_ms + next_ms) b.max_wait_ms (paused_until g.pause now)),
    )

unfoldable pub take_token_of : Gate → (now : ℕ) → Option TokenBucket → Gate × Admitted
unfolding after_reserve
take_token_of g now none = (g, wait_or_go (pause_remaining_ms g.pause now) now 0)
take_token_of g now (some b) =
    after_reserve g now
      (reserve b now (if ltb 0 (pause_remaining_ms g.pause now) then pause_until g.pause else now))

unfoldable pub take_token : Gate → (now : ℕ) → Gate × Admitted
unfolding take_token_of
take_token g now = take_token_of g now g.bucket

-- The callback of the timer: absent when the attempt is due, otherwise how long it sleeps again.
unfoldable pub wake : Gate → (due_at shift0 now : ℕ) → Option ℕ
wake g due_at shift0 now =
    let due : ℕ = max (due_at + (shift_of g.bucket - shift0)) (pause_until g.pause) in
    if ltb now due then some (due - now) else none

-- The abort of an attempt that waits hands its token back.
unfoldable pub abort_wait : Gate → (now : ℕ) → Gate
abort_wait g now = elim g.bucket [ none ↦ g | some b ↦ record g { bucket = some (refund b now) } ]

unfoldable pub refusal_of :
    Gate → TokenBucket → (max_wait_ms now after_ms : ℕ) → Gate × Option AppError
refusal_of g b max_wait_ms now after_ms =
    let pause_ms : ℕ = pause_remaining_ms g.pause now in
    let (b', next_ms) = next_wait_ms b (now + pause_ms) in
    let wait_ms : ℕ = pause_ms - after_ms + next_ms in
    if leb (pause_ms - after_ms) 0 then (g, none) else (
      record g { bucket = some b' },
      (if leb wait_ms max_wait_ms
          then none
          else some
              (rate_limited_error g.name wait_ms (some max_wait_ms) (some (pause_until g.pause)))),
    )

abbrev pub refusal_limited :
    Gate → TokenBucket → (max_wait_ms : Option ℕ) → (now after_ms : ℕ) → Gate × Option AppError
refusal_limited g b none now after_ms = (g, none)
refusal_limited g b (some max_wait_ms) now after_ms = refusal_of g b max_wait_ms now after_ms

abbrev pub refusal_for : Gate → Option TokenBucket → (now after_ms : ℕ) → Gate × Option AppError
refusal_for g none now after_ms = (g, none)
refusal_for g (some b) now after_ms = refusal_limited g b b.max_wait_ms now after_ms

unfoldable pub refusal_after : Gate → (now after_ms : ℕ) → Gate × Option AppError
unfolding refusal_of
refusal_after g now after_ms = refusal_for g g.bucket now after_ms

abbrev is_full_bucket : Option TokenBucket → (now : ℕ) → Bool
is_full_bucket none now = true
is_full_bucket (some b) now = (RateLimiter.is_full b now).1

unfoldable pub is_evictable : Bulkhead → Gate → (now : ℕ) → Bool
is_evictable b g now =
    (b.active_tickets == 0)
    && (b.running == 0)
    && (length b.wait_queue == 0)
    && is_full_bucket g.bucket now
    && (pause_remaining_ms g.pause now == 0)
