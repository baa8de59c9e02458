-- ===== src/Client/Attempt.antt =====
-- What the log of a first attempt adds up to, however it ends.
use vereda.Common.{
  ℕ, ◌≡◌, refl, Bool, true, false, not, Option, none, some, List, [], ◌∷◌, ◌++◌, sum_by,
  sum_by-append, inl, inr, Bool-cases, ◌==◌, or_default, if◌then◌else◌, arith,
}
use vereda.Errors.{AppError, timeout_error, circuit_open_error, deadline_exceeded_error}
use vereda.Policy.{should_retry}
use vereda.RetryLoop.{
  default_max_retries, no_timeout_configured, takes_permit, permit_failure, permit_release, sends,
}
use vereda.RetryLoop.Tally.{ends, attempts, resolutions, cleanups, sent, taken, released}
use vereda.Client.{
  RequestJob, FirstOutcome, responded, was_cancelled, timed_out, failed, token_refused,
  queue_refused, FirstTurn, Act, emits_request, holds, records_request, does, First, finished,
  rejects, schedules, saying, fails_with, cancels_with, aborted, attempt_failed, sent_first,
  settle_first, releasing, paused_past, permitted, early_error, by_validity, fire_first_attempt,
}
use vereda.Client.Tally.{lifted, requests, Shows, FirstFine}

fails_with-Shows : (asked : ℕ) (e : AppError) (q : ℕ) → Shows 1 1 1 1 asked (fails_with e q)
fails_with-Shows asked e q = record {
  events_of = refl;
  cleaned_of = refl;
  resolved_of = refl;
  reported_of = refl;
  permits = refl;
  few = omega arith;
  asked_of = omega arith;
}

cancels_with-Shows : (q : ℕ) → Shows 1 1 1 1 0 (cancels_with q)
cancels_with-Shows q = record {
  events_of = refl;
  cleaned_of = refl;
  resolved_of = refl;
  reported_of = refl;
  permits = refl;
  few = omega arith;
  asked_of = omega arith;
}

-- An attempt in front of a log that sends none.
sent_first-Shows :
    (was_sent : Bool) (acts : List Act)
    → sum_by (lifted sent) acts ≡ 0
    → Shows 1 1 1 1 0 acts
    → Shows 1 1 1 1 0 (sent_first was_sent ++ acts)
sent_first-Shows false acts h v = v
sent_first-Shows true acts h v = record {
  events_of = omega (arith, v.events_of);
  cleaned_of = omega (arith, v.cleaned_of);
  resolved_of = omega (arith, v.resolved_of);
  reported_of = omega (arith, v.reported_of);
  permits = omega (arith, v.permits);
  few = omega (arith, h);
  asked_of = omega (arith, v.asked_of);
}

aborted-Shows :
    (job : RequestJob) (was_sent c : Bool) (q : ℕ) (total : Option ℕ)
    → Shows 1 1 1 1 0 (sent_first was_sent ++ aborted job c q total)
aborted-Shows job was_sent c q none =
    sent_first-Shows was_sent (cancels_with q) refl (cancels_with-Shows q)
aborted-Shows job was_sent true q (some total) =
    sent_first-Shows was_sent (cancels_with q) refl (cancels_with-Shows q)
aborted-Shows job was_sent false q (some total) =
    let e = deadline_exceeded_error job.display_url total in
    sent_first-Shows was_sent (fails_with e q) refl (fails_with-Shows 0 e q)

either-FirstFine :
    (asked : ℕ) (b : Bool) (x y : First)
    → FirstFine 1 asked x
    → FirstFine 1 asked y
    → FirstFine 1 asked (if b then x else y)
either-FirstFine asked true x y u v = u
either-FirstFine asked false x y u v = v

-- The attempt that failed, and what is decided of it.
failed-FirstFine :
    (job : RequestJob) (e : AppError) (q : ℕ)
    → FirstFine 1 0
        (saying (does (sends 1) ∷ does (permit_failure e) ∷ []) (attempt_failed job e q))
unfolding attempt_failed
failed-FirstFine job e q =
    let over : Shows 1 1 1 1 0 (does (sends 1) ∷ does (permit_failure e) ∷ fails_with e q) =
      record {
        events_of = refl;
        cleaned_of = refl;
        resolved_of = refl;
        reported_of = refl;
        permits = refl;
        few = omega arith;
        asked_of = omega arith;
      } in
    elim (Bool-cases (or_default job.max_retries default_max_retries == 0)) [
      | inl z ↦ rw z over
      | inr z ↦ elim (Bool-cases (should_retry e 0 job.ctx job.retry_when)) [
        | inl r ↦
            rw (z, r)
              (record {
                events_of = refl;
                cleaned_of = refl;
                resolved_of = refl;
                reported_of = refl;
                permits = refl;
                few = omega arith;
                asked_of = omega arith;
              })
        | inr r ↦ rw (z, r) over
      ]
    ]

settle_first-FirstFine :
    (job : RequestJob) (q : ℕ) (o : FirstOutcome) → FirstFine 1 0 (settle_first job q o)
unfolding settle_first
settle_first-FirstFine job q (responded s) = record {
  events_of = refl;
  cleaned_of = refl;
  resolved_of = refl;
  reported_of = refl;
  permits = refl;
  few = omega arith;
  asked_of = omega arith;
}
settle_first-FirstFine job q (was_cancelled s c) = aborted-Shows job s c q job.total_ms
settle_first-FirstFine job q timed_out =
    failed-FirstFine job
      (timeout_error job.display_url (or_default job.attempt_ms no_timeout_configured)) q
settle_first-FirstFine job q (failed e) = failed-FirstFine job e q
settle_first-FirstFine job q (token_refused e) = fails_with-Shows 0 e q
settle_first-FirstFine job q (queue_refused e) = record {
  events_of = refl;
  cleaned_of = refl;
  resolved_of = refl;
  reported_of = refl;
  permits = refl;
  few = omega arith;
  asked_of = omega arith;
}

-- A permit taken before and released after.
held-Shows :
    (e d c r asked : ℕ) (acts : List Act)
    → Shows e d c r asked acts
    → Shows e d c r asked
        (does takes_permit ∷ records_request ∷ (acts ++ (does permit_release ∷ [])))
held-Shows e d c r asked acts v =
    let add : (w : Act → ℕ) → _ = λ w. sum_by-append w acts (does permit_release ∷ []) in
    record {
      events_of = omega (arith, add (lifted ends), v.events_of);
      cleaned_of = omega (arith, add (lifted cleanups), v.cleaned_of);
      resolved_of = omega (arith, add (lifted resolutions), v.resolved_of);
      reported_of = omega (arith, add (lifted attempts), v.reported_of);
      permits = omega (arith, add (lifted taken), add (lifted released), v.permits);
      few = omega (arith, add (lifted sent), v.few);
      asked_of = omega (arith, add requests, v.asked_of);
    }

held-FirstFine :
    (asked : ℕ) (f : First)
    → FirstFine 1 asked f
    → FirstFine 1 asked (saying (does takes_permit ∷ records_request ∷ []) (releasing f))
held-FirstFine asked (finished acts) v = held-Shows 1 1 1 1 asked acts v
held-FirstFine asked (rejects acts e) v = held-Shows 0 0 0 0 asked acts v
held-FirstFine asked (schedules acts e q) v = held-Shows 0 0 0 0 asked acts v

permitted-FirstFine :
    (job : RequestJob) (t : FirstTurn) (past : Option ℕ) → FirstFine 1 0 (permitted job t past)
unfolding permitted
permitted-FirstFine job t (some total) = record {
  events_of = refl;
  cleaned_of = refl;
  resolved_of = refl;
  reported_of = refl;
  permits = refl;
  few = omega arith;
  asked_of = omega arith;
}
permitted-FirstFine job t none =
    let queued : ℕ = sum_by (λ ms. ms) t.waits in
    held-FirstFine 0 (settle_first job queued t.outcome)
      (settle_first-FirstFine job queued t.outcome)

opened-Shows :
    (e d c r : ℕ) (acts : List Act)
    → Shows e d c r 0 acts
    → Shows e d c r 1 (emits_request ∷ holds ∷ acts)
opened-Shows e d c r acts v = record {
  events_of = omega (arith, v.events_of);
  cleaned_of = omega (arith, v.cleaned_of);
  resolved_of = omega (arith, v.resolved_of);
  reported_of = omega (arith, v.reported_of);
  permits = omega (arith, v.permits);
  few = omega (arith, v.few);
  asked_of = omega (arith, v.asked_of);
}

opened-FirstFine :
    (f : First) → FirstFine 1 0 f → FirstFine 1 1 (saying (emits_request ∷ holds ∷ []) f)
opened-FirstFine (finished acts) v = opened-Shows 1 1 1 1 acts v
opened-FirstFine (rejects acts e) v = opened-Shows 0 0 0 0 acts v
opened-FirstFine (schedules acts e q) v = opened-Shows 0 0 0 0 acts v

by_validity-FirstFine :
    (job : RequestJob) (t : FirstTurn) (early : Option AppError)
    → FirstFine 1 1 (by_validity job t early)
unfolding by_validity
by_validity-FirstFine job t (some e) = fails_with-Shows 1 e 0
by_validity-FirstFine job t none =
    let opened : First = permitted job t (paused_past job t job.total_ms) in
    let refused : AppError = circuit_open_error job.partition in
    opened-FirstFine (if not t.permit_given then finished (fails_with refused 0) else opened) (
      either-FirstFine 0 (not t.permit_given) (finished (fails_with refused 0)) opened
        (fails_with-Shows 0 refused 0) (permitted-FirstFine job t (paused_past job t job.total_ms)))

pub fire_first_attempt-FirstFine :
    (job : RequestJob) (settled_first : Bool) (t : FirstTurn)
    → FirstFine (if settled_first then 0 else 1) 1 (fire_first_attempt job settled_first t)
unfolding fire_first_attempt
fire_first_attempt-FirstFine job true t = record {
  events_of = refl;
  cleaned_of = refl;
  resolved_of = refl;
  reported_of = refl;
  permits = refl;
  few = omega arith;
  asked_of = omega arith;
}
fire_first_attempt-FirstFine job false t = by_validity-FirstFine job t (early_error job t)
