-- ===== src/RetryLoop/Settles.antt =====
-- The loop's acts on its ticket, carried out by the ticket of src/ticket/ticket.ts.
use vereda.Common.{
  ℕ, ◌≤◌, ◌≡◌, refl, ap, ◌∙◌, ◌⊎◌, inl, inr, true, List, [], ◌∷◌, ◌++◌, sum_by, arith,
}
use vereda.Ticket
use vereda.Ticket.{
  Ticket, TicketStatus, is_pending, is_queued, is_retrying, is_done, is_cancelled, Result, success,
  failure, mark_done, apply_transition, is_settled, step, run, new, resolve, emit_error,
}
use vereda.Ticket.Lifecycle.{
  Consistent, is_cancellation, step-Consistent, run-Consistent, run-new-Consistent,
}
use vereda.Ticket.Settled.{run-settled_from, run-append}
use vereda.RetryLoop.{RetryJob, Turn, Act, marks_retrying, marks_done, marks_failed, run_retry_loop}
use vereda.RetryLoop.Tally.{resolutions}
use vereda.RetryLoop.Accounting.{run_retry_loop-Ended}

module _ {A : Type 0} (data_of : A) where
  -- What an act tells the controller; a success carries `data_of`.
  abbrev pub op_of : Act → List (Ticket.Op A)
  op_of (marks_retrying attempt delay_ms) = Ticket.marks_retrying attempt delay_ms ∷ []
  op_of marks_done = Ticket.marks_done (success data_of) ∷ []
  op_of (marks_failed e) = Ticket.marks_done (failure e) ∷ []
  op_of _ = []

  abbrev pub ops_of : List Act → List (Ticket.Op A)
  ops_of [] = []
  ops_of (act ∷ acts) = op_of act ++ ops_of acts

  mark_ticket-settled :
      (r : Result A) (t : Ticket A) (s : TicketStatus A)
      → t.cancelled_flag ≡ is_cancellation s
      → is_settled (mark_done (record t { status = s }) r) ≡ true
  unfolding mark_done apply_transition is_settled
  mark_ticket-settled (success a) t is_pending e = refl
  mark_ticket-settled (failure x) t is_pending e = refl
  mark_ticket-settled (success a) t is_queued e = refl
  mark_ticket-settled (failure x) t is_queued e = refl
  mark_ticket-settled (success a) t (is_retrying n) e = refl
  mark_ticket-settled (failure x) t (is_retrying n) e = refl
  mark_ticket-settled r t (is_done q) e = refl
  mark_ticket-settled r t is_cancelled e = e

  -- From a resolution on the ticket stays settled.
  pub resolved-settled :
      (r : Result A) (t : Ticket A) (later : List (Ticket.Op A))
      → Consistent t
      → is_settled (run t (Ticket.marks_done r ∷ later)) ≡ true
  unfolding run step is_settled
  resolved-settled r t later v =
      let now = mark_ticket-settled r t t.status v.flagged in
      ap (λ x. is_settled x)
        (run-settled_from (mark_done t r) later (step-Consistent t (Ticket.marks_done r) v) now)
      ∙ now

  -- An act resolves the ticket, or it does not.
  pub act-resolves :
      (act : Act)
      → (resolutions act ≡ 0) ⊎ ((r : Result A) × (op_of act ≡ Ticket.marks_done r ∷ []))
  act-resolves marks_done = inr (success data_of, refl)
  act-resolves (marks_failed e) = inr (failure e, refl)
  act-resolves _ = inl refl

  resolves-settled :
      (acts : List Act) (t : Ticket A)
      → 1 ≤ sum_by resolutions acts
      → Consistent t
      → is_settled (run t (ops_of acts)) ≡ true
  unfolding run
  resolves-settled [] t h v = ground (arith, h)
  resolves-settled (act ∷ acts) t h v = elim (act-resolves act) [
    | inl z ↦ rw (run-append t (op_of act) (ops_of acts)) (
        resolves-settled acts (run t (op_of act)) (omega (arith, h, z))
          (run-Consistent t (op_of act) v))
    | inr (r, e) ↦ rw e (resolved-settled r t (ops_of acts) v)
  ]

  pub run_retry_loop-settles_from :
      (job : RetryJob) (turns : ℕ → Turn) (t : Ticket A)
      → Consistent t
      → is_settled (run t (ops_of (run_retry_loop job turns))) ≡ true
  run_retry_loop-settles_from job turns t v =
      let ended = run_retry_loop-Ended job turns in
      resolves-settled (run_retry_loop job turns) t (omega (arith, ended.one_resolution)) v

  -- The retry loop always settles its ticket: whatever happened to the ticket before, a cancellation
  -- included, and however the loop runs, the ticket is settled when the loop has told its controller
  -- all that it has to tell.
  pub run_retry_loop-settles :
      (job : RetryJob) (turns : ℕ → Turn) (before : List (Ticket.Op A))
      → is_settled (run (run (new A) before) (ops_of (run_retry_loop job turns))) ≡ true
  run_retry_loop-settles job turns before =
      run_retry_loop-settles_from job turns (run (new A) before) (run-new-Consistent before)
