-- ===== src/Client/Tally.antt =====
-- What the acts of the client count for, and how the log of a request can add up.
use vereda.Common.{ℕ, ◌+◌, ◌≤◌, ◌≡◌, refl, List, [], ◌∷◌, map, sum_by, arith}
use vereda.RetryLoop
use vereda.RetryLoop.Tally.{ends, attempts, resolutions, cleanups, sent, taken, released}
use vereda.Client.{Act, emits_request, does, First, finished, rejects, schedules}

-- A weight of the acts that the loop knows, on all acts.
abbrev pub lifted : (RetryLoop.Act → ℕ) → Act → ℕ
lifted w (does act) = w act
lifted w _ = 0

pub sum_by-does :
    (w : RetryLoop.Act → ℕ) (acts : List RetryLoop.Act)
    → sum_by (lifted w) (map does acts) ≡ sum_by w acts
sum_by-does w [] = refl
sum_by-does w (act ∷ acts) = omega (arith, sum_by-does w acts)

abbrev pub requests : Act → ℕ
requests emits_request = 1
requests _ = 0

-- A part of a log, with its terminal events, the resolutions of its ticket, its cleanups and the attempts it reports, and at most so
-- many "request" events; it sends one attempt at most.
pub record Shows (events resolved cleaned reported asked : ℕ) (acts : List Act) : Type 0 where
  pub events_of : sum_by (lifted ends) acts ≡ events
  pub resolved_of : sum_by (lifted resolutions) acts ≡ resolved
  pub cleaned_of : sum_by (lifted cleanups) acts ≡ cleaned
  pub reported_of : sum_by (lifted attempts) acts ≡ reported
  pub permits : sum_by (lifted taken) acts ≡ sum_by (lifted released) acts
  pub few : sum_by (lifted sent) acts ≤ 1
  pub asked_of : sum_by requests acts ≤ asked

abbrev pub FirstFine : (resolved asked : ℕ) → First → Type 0
FirstFine resolved asked (finished acts) = Shows 1 resolved 1 1 asked acts
FirstFine resolved asked (rejects acts e) = Shows 0 0 0 0 asked acts
FirstFine resolved asked (schedules acts e queued_ms) = Shows 0 0 0 0 asked acts

-- The whole log of a request that may make `left` retries; `missed` counts a terminal event that is
-- missing.
pub record Told (left missed : ℕ) (acts : List Act) : Type 0 where
  pub one_event : sum_by (lifted ends) acts + missed ≡ 1
  pub one_request : sum_by requests acts ≤ 1
  pub permits : sum_by (lifted taken) acts ≡ sum_by (lifted released) acts
  pub cleaned : 1 ≤ sum_by (lifted cleanups) acts
  pub all_reported : sum_by (lifted sent) acts ≤ sum_by (lifted attempts) acts + missed
  pub none_invented : sum_by (lifted attempts) acts ≤ 1 + sum_by (lifted sent) acts
  pub few : sum_by (lifted attempts) acts ≤ 1 + left
