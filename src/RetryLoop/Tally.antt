-- ===== src/RetryLoop/Tally.antt =====
-- What the acts of the loop count for, and the ways in which a log can end.
use vereda.Common.{
  ℕ, suc, ◌+◌, ◌-◌, ◌≤◌, ◌≡◌, refl, Bool, true, false, List, sum_by, inl, inr, Option-cases, arith,
}
use vereda.Errors.{AppError, deadline_exceeded_error}
use vereda.RetryLoop.{
  RetryJob, Attempted, responded, was_cancelled, timed_out, failed, threw_cancelled, threw_refusal,
  Act, takes_permit, permit_release, cleans_up, sends, on_success, on_failure, on_cancelled,
  marks_done, marks_failed, Progress, Step, stops, goes_on, fails, throws, cancels, aborts,
  after_attempt,
}

-- What an act counts for: a terminal callback and the attempts it reports, a resolution of the
-- ticket, a cleanup, an attempt sent, a permit taken, a permit released.
abbrev pub ends : Act → ℕ
ends (on_success s n q) = 1
ends (on_failure e n q) = 1
ends (on_cancelled n q) = 1
ends _ = 0

abbrev pub attempts : Act → ℕ
attempts (on_success s n q) = n
attempts (on_failure e n q) = n
attempts (on_cancelled n q) = n
attempts _ = 0

abbrev pub resolutions : Act → ℕ
resolutions marks_done = 1
resolutions (marks_failed e) = 1
resolutions _ = 0

abbrev pub cleanups : Act → ℕ
cleanups cleans_up = 1
cleanups _ = 0

abbrev pub sent : Act → ℕ
sent (sends attempt) = 1
sent _ = 0

abbrev pub taken : Act → ℕ
taken takes_permit = 1
taken _ = 0

abbrev pub released : Act → ℕ
released permit_release = 1
released _ = 0

-- A log that ends the ticket, where `n` attempts had been made and `left` retries were left before it.
pub record Ended (n left : ℕ) (acts : List Act) : Type 0 where
  pub one_end : sum_by ends acts ≡ 1
  pub one_resolution : sum_by resolutions acts ≡ 1
  pub one_cleanup : sum_by cleanups acts ≡ 1
  pub permits : sum_by taken acts ≡ sum_by released acts
  pub reported : sum_by attempts acts ≡ n + sum_by sent acts
  pub few : sum_by sent acts ≤ left

-- The log of an iteration that another follows.
pub record Continued (p q : Progress) (acts : List Act) : Type 0 where
  pub no_end : sum_by ends acts ≡ 0
  pub no_resolution : sum_by resolutions acts ≡ 0
  pub no_cleanup : sum_by cleanups acts ≡ 0
  pub permits : sum_by taken acts ≡ sum_by released acts
  pub no_report : sum_by attempts acts ≡ 0
  pub one_sent : sum_by sent acts ≡ 1
  pub counted : q.total_attempts ≡ suc p.total_attempts

abbrev pub Fine : Progress → Step → Type 0
Fine p (stops acts) = Ended p.total_attempts 1 acts
Fine p (goes_on acts q) = Continued p q acts

pub fails-Ended : (left : ℕ) (e : AppError) (p : Progress) → Ended p.total_attempts left (fails e p)
fails-Ended left e p = record {
  one_end = refl;
  one_resolution = refl;
  one_cleanup = refl;
  permits = refl;
  reported = omega arith;
  few = omega arith;
}

pub throws-Ended :
    (left : ℕ) (e : AppError) (p : Progress) → Ended p.total_attempts left (throws e p)
throws-Ended left e p = record {
  one_end = refl;
  one_resolution = refl;
  one_cleanup = refl;
  permits = refl;
  reported = omega arith;
  few = omega arith;
}

pub cancels-Ended : (left : ℕ) (p : Progress) → Ended p.total_attempts left (cancels p)
cancels-Ended left p = record {
  one_end = refl;
  one_resolution = refl;
  one_cleanup = refl;
  permits = refl;
  reported = omega arith;
  few = omega arith;
}

pub aborts-Ended :
    (left : ℕ) (job : RetryJob) (ticket_cancelled : Bool) (p : Progress)
    → Ended p.total_attempts left (aborts job ticket_cancelled p)
unfolding aborts
aborts-Ended left job true p = elim (Option-cases job.total_ms) [
  | inl e ↦ rw (e, aborts) (cancels-Ended left p)
  | inr (total, e) ↦ rw (e, aborts) (cancels-Ended left p)
]
aborts-Ended left job false p = elim (Option-cases job.total_ms) [
  | inl e ↦ rw (e, aborts) (cancels-Ended left p)
  | inr (total, e) ↦
      rw (e, aborts) (fails-Ended left (deadline_exceeded_error job.display_url total) p)
]

-- `q` has counted the attempt that `p` has not.
pub after_attempt-Fine :
    (job : RetryJob) (attempt : ℕ) (p q : Progress) (a : Attempted)
    → q.total_attempts ≡ suc p.total_attempts
    → Fine p (after_attempt job attempt q a)
unfolding after_attempt
after_attempt-Fine job attempt p q (responded s) h = record {
  one_end = refl;
  one_resolution = refl;
  one_cleanup = refl;
  permits = refl;
  reported = omega (arith, h);
  few = omega arith;
}
after_attempt-Fine job attempt p q (was_cancelled c) h =
    let v = aborts-Ended 0 job c q in
    record {
      one_end = omega (arith, v.one_end);
      one_resolution = omega (arith, v.one_resolution);
      one_cleanup = omega (arith, v.one_cleanup);
      permits = omega (arith, v.permits);
      reported = omega (arith, v.reported, h);
      few = omega (arith, v.few);
    }
after_attempt-Fine job attempt p q timed_out h = record {
  no_end = refl;
  no_resolution = refl;
  no_cleanup = refl;
  permits = refl;
  no_report = refl;
  one_sent = refl;
  counted = h;
}
after_attempt-Fine job attempt p q (failed e) h = record {
  no_end = refl;
  no_resolution = refl;
  no_cleanup = refl;
  permits = refl;
  no_report = refl;
  one_sent = refl;
  counted = h;
}
after_attempt-Fine job attempt p q (threw_cancelled c) h =
    let v = aborts-Ended 1 job c (record q { total_attempts = q.total_attempts - 1 }) in
    record {
      one_end = v.one_end;
      one_resolution = v.one_resolution;
      one_cleanup = v.one_cleanup;
      permits = v.permits;
      reported = omega (arith, v.reported, h);
      few = omega (arith, v.few);
    }
after_attempt-Fine job attempt p q (threw_refusal e true) h = record {
  one_end = refl;
  one_resolution = refl;
  one_cleanup = refl;
  permits = refl;
  reported = omega (arith, h);
  few = omega arith;
}
after_attempt-Fine job attempt p q (threw_refusal e false) h = record {
  one_end = refl;
  one_resolution = refl;
  one_cleanup = refl;
  permits = refl;
  reported = omega (arith, h);
  few = omega arith;
}
