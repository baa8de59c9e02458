-- ===== src/RetryBudget/Admission.antt =====
-- What the budget answers to a history of requests and withdrawals, against the log of them.
use vereda.Common.{
  ℕ, ◌+◌, ◌/◌, ◌≤◌, ◌≡◌, refl, ap, max, Bool, true, false, not, ◌&&◌, none, List, [], ◌∷◌, ◌++◌,
  some, inl, inr, Bool-cases, if◌then◌else◌, arith,
}
use vereda.Common.Double.{Double, whole, quotient, product, reached, reached-larger}
use vereda.RetryBudget.{
  RetryBudget, RetryBudgetConfig, BudgetWindow, new, new_window, record_request, try_withdraw,
  allowed, floor_of, totals, prune, record_window_request, record_window_retry,
}
use vereda.RetryBudget.Tracking.{
  Entry, Tracks, spec_requests, spec_retries, new_window-Tracks, prune-Tracks,
  record_window_request-Tracks, record_window_retry-Tracks, totals-spec,
}

-- Each with the milliseconds since the one before it.
pub data Op : Type 0 where
  requests : (gap : ℕ) → Op
  withdraws : (gap : ℕ) → Op

abbrev pub answers : RetryBudget → (now : ℕ) → List Op → List Bool
answers b now [] = []
answers b now (requests gap ∷ ops) = answers (record_request b (now + gap)) (now + gap) ops
answers b now (withdraws gap ∷ ops) =
    (try_withdraw b (now + gap)).1 ∷ answers (try_withdraw b (now + gap)).0 (now + gap) ops

-- The budget is used up when the covered retries have reached both what the floor grants for the length
-- of the window and the ratio of the covered requests.
abbrev pub used_up : RetryBudgetConfig → List Entry → (now : ℕ) → Bool
used_up config log now =
    let size = config.window_ms in
    let bucket = max 1 (size / 10) in
    let retries = spec_retries size bucket now log in
    let requested = spec_requests size bucket now log in
    let floor : Double = elim config.min_retries_per_sec [
      | none ↦ whole 10
      | some n ↦ quotient n config.scale
    ] in
    reached retries (product floor (quotient size 1000))
    && reached retries (product (quotient config.ratio config.scale) (whole requested))

abbrev pub spec_answers : RetryBudgetConfig → (now : ℕ) → List Entry → List Op → List Bool
spec_answers config now log [] = []
spec_answers config now log (requests gap ∷ ops) =
    spec_answers config (now + gap) (log ++ ((now + gap, false) ∷ [])) ops
spec_answers config now log (withdraws gap ∷ ops) =
    not (used_up config log (now + gap))
    ∷ spec_answers config (now + gap)
        (if used_up config log (now + gap) then log else log ++ ((now + gap, true) ∷ [])) ops

abbrev holding : RetryBudgetConfig → BudgetWindow → (tickets : ℕ) → RetryBudget
holding config w tickets = record { active = some (config, w); active_tickets = tickets }

totals-window : (w : BudgetWindow) (now : ℕ) → (totals w now).0 ≡ prune w now
unfolding totals
totals-window w now = refl

module _ (config : RetryBudgetConfig) (tickets : ℕ) where
  spent :
      (log : List Entry) (now : ℕ)
      → let size = config.window_ms in
        let bucket = max 1 (size / 10) in
        reached
          (spec_retries size bucket now log)
          (allowed config (spec_requests size bucket now log))
        ≡ used_up config log now
  spent log now =
      let size = config.window_ms in
      let bucket = max 1 (size / 10) in
      reached-larger (spec_retries size bucket now log)
        (product (floor_of config) (quotient size 1000))
        (product (quotient config.ratio config.scale) (whole (spec_requests size bucket now log)))

  try_withdraw_refused :
      (last now : ℕ) (w : BudgetWindow) (log : List Entry)
      → last ≤ now
      → Tracks config.window_ms last w log
      → used_up config log now ≡ true
      → try_withdraw (holding config w tickets) now ≡ (holding config (prune w now) tickets, false)
  unfolding try_withdraw
  try_withdraw_refused last now w log h v e =
      let t = totals-spec config.window_ms last now w log h v in
      rw (t.0, t.1, spent log now, e, totals-window w now) refl

  try_withdraw_admitted :
      (last now : ℕ) (w : BudgetWindow) (log : List Entry)
      → last ≤ now
      → Tracks config.window_ms last w log
      → used_up config log now ≡ false
      → try_withdraw (holding config w tickets) now
        ≡ (holding config (record_window_retry (prune w now) now) tickets, true)
  unfolding try_withdraw
  try_withdraw_admitted last now w log h v e =
      let t = totals-spec config.window_ms last now w log h v in
      rw (t.0, t.1, spent log now, e, totals-window w now) refl

  answers_from :
      (last : ℕ) (w : BudgetWindow) (log : List Entry) (ops : List Op)
      → Tracks config.window_ms last w log
      → answers (holding config w tickets) last ops ≡ spec_answers config last log ops
  unfolding record_request
  answers_from last w log [] v = refl
  answers_from last w log (requests gap ∷ ops) v =
      answers_from (last + gap) (record_window_request w (last + gap))
        (log ++ ((last + gap, false) ∷ [])) ops
        (record_window_request-Tracks config.window_ms last (last + gap) w log (omega arith) v)
  answers_from last w log (withdraws gap ∷ ops) v =
      let now = last + gap in
      let pruned = prune-Tracks config.window_ms last now w log (omega arith) v in
      elim (Bool-cases (used_up config log now)) [
        | inl e ↦
            rw (try_withdraw_refused last now w log (omega arith) v e, e)
              (ap (λ rest. false ∷ rest) (answers_from now (prune w now) log ops pruned))
        | inr e ↦
            rw (try_withdraw_admitted last now w log (omega arith) v e, e)
              (ap (λ rest. true ∷ rest)
                (answers_from now (record_window_retry (prune w now) now)
                  (log ++ ((now, true) ∷ [])) ops
                  (record_window_retry-Tracks config.window_ms now now (prune w now) log
                    (omega arith) pruned)))
      ]

-- A budget that has just been made answers every history of requests and withdrawals, at a clock that
-- does not go back, as the log of them says: a retry is refused exactly when the retries that were
-- granted in buckets which the window still covers have reached both the floor per second times the window's seconds
-- and the ratio times the requests in those buckets, as doubles are divided and multiplied; a refusal leaves no trace in the log.
pub answers-new :
    (config : RetryBudgetConfig) (ops : List Op)
    → answers (new (some config)) 0 ops ≡ spec_answers config 0 [] ops
unfolding new
answers-new config ops =
    answers_from config 0 0 (new_window config.window_ms) [] ops
      (new_window-Tracks config.window_ms)
