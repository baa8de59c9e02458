-- ===== src/Client/Settled.antt =====
-- The client's acts on its ticket, carried out by the ticket of src/ticket/ticket.ts.
use vereda.Common.{
  ℕ, ◌≤◌, ◌≡◌, refl, sym, ap, ◌∙◌, true, inl, inr, List, [], ◌∷◌, ◌++◌, map, append_assoc, sum_by,
  arith,
}
use vereda.Ticket
use vereda.Ticket.{Ticket, success, failure, is_settled, step, run}
use vereda.Ticket.Lifecycle.{Consistent, step-Consistent, run-Consistent}
use vereda.Ticket.Settled.{run-append}
use vereda.RetryLoop
use vereda.RetryLoop.{
  RetryJob, Turn, run_retry_loop, takes_permit, permit_success, permit_release, cleans_up,
  budget_exhausted, permit_failure, on_retry, sends, on_success, on_failure, on_cancelled,
  marks_done, marks_failed, rethrows,
}
use vereda.RetryLoop.Tally.{resolutions}
use vereda.RetryLoop.Settles as LoopSettles
use vereda.Client.{Act, marks_queued, does, op_of, ops_of}
use vereda.Client.Tally.{lifted}

module _ {A : Type 0} (data_of : A) where
  ops_of-does :
      (acts : List RetryLoop.Act) → ops_of data_of (map does acts) ≡ LoopSettles.ops_of data_of acts
  ops_of-does [] = refl
  ops_of-does (act ∷ acts) = ap (λ ops. LoopSettles.op_of data_of act ++ ops) (ops_of-does acts)

  pub ops_of-append :
      (acts later : List Act)
      → ops_of data_of (acts ++ later) ≡ ops_of data_of acts ++ ops_of data_of later
  ops_of-append [] later = refl
  ops_of-append (act ∷ acts) later =
      ap (λ ops. op_of data_of act ++ ops) (ops_of-append acts later)
      ∙ sym (append_assoc (op_of data_of act) (ops_of data_of acts) (ops_of data_of later))

  pub loop-settled :
      (job : RetryJob) (turns : ℕ → Turn) (t : Ticket A)
      → Consistent t
      → is_settled (run t (ops_of data_of (map does (run_retry_loop job turns)))) ≡ true
  loop-settled job turns t v =
      rw (ops_of-does (run_retry_loop job turns))
        (LoopSettles.run_retry_loop-settles_from data_of job turns t v)

  -- A log with a resolution in it settles the ticket.
  pub resolves-settled :
      (acts : List Act) (t : Ticket A)
      → 1 ≤ sum_by (lifted resolutions) acts
      → Consistent t
      → is_settled (run t (ops_of data_of acts)) ≡ true
  unfolding run
  resolves-settled [] t h v = ground (arith, h)
  resolves-settled (does act ∷ acts) t h v =
      let ops : List (Ticket.Op A) = LoopSettles.op_of data_of act in
      elim (LoopSettles.act-resolves data_of act) [
        | inl z ↦
            rw (run-append t ops (ops_of data_of acts))
              (resolves-settled acts (run t ops) (omega (arith, h, z)) (run-Consistent t ops v))
        | inr (r, e) ↦ rw e (LoopSettles.resolved-settled data_of r t (ops_of data_of acts) v)
      ]
  resolves-settled (marks_queued ∷ acts) t h v =
      resolves-settled acts (step t Ticket.marks_queued) (omega (arith, h))
        (step-Consistent t Ticket.marks_queued v)
  resolves-settled (_ ∷ acts) t h v = resolves-settled acts t (omega (arith, h)) v
