-- ===== src/Ticket/Settled.antt =====
-- What follows the end of a ticket of src/ticket/ticket.ts.
use vereda.Common.{◌≡◌, refl, ap, ◌∙◌, Bool, true, false, Option, List, [], ◌∷◌, ◌++◌, arith}
use vereda.Ticket.{
  Result, TicketStatus, is_pending, is_queued, is_retrying, is_done, is_cancelled, Emitted, Ticket,
  new, cancel, mark_queued, mark_retrying, mark_done, abort_signal, is_settled, Op, marks_queued,
  marks_retrying, marks_done, aborts_signal, cancels, step, run, apply_transition,
}
use vereda.Ticket.Lifecycle.{
  is_cancellation, Consistent, ticket, step-Consistent, run-new-Consistent,
}

-- All that can be seen of a ticket but its signal.
abbrev pub observed : {A : Type 0} → Ticket A → Ticket A
observed t = record t { signal_aborted = false }

module _ {A : Type 0} (a : Bool) (p : Option (Result A)) (es : List (Emitted A)) where
  step-done :
      (r : Result A) (op : Op A)
      → observed (step (ticket (is_done r) false a p es) op) ≡ ticket (is_done r) false false p es
  unfolding step mark_queued mark_retrying mark_done cancel abort_signal apply_transition
  step-done r marks_queued = refl
  step-done r (marks_retrying n d) = refl
  step-done r (marks_done q) = refl
  step-done r aborts_signal = refl
  step-done r cancels = refl

  step-cancelled :
      (op : Op A)
      → observed (step (ticket is_cancelled true a p es) op) ≡ ticket is_cancelled true false p es
  unfolding step mark_queued mark_retrying mark_done cancel abort_signal apply_transition
  step-cancelled marks_queued = refl
  step-cancelled (marks_retrying n d) = refl
  step-cancelled (marks_done q) = refl
  step-cancelled aborts_signal = refl
  step-cancelled cancels = refl

  step-ticket :
      (op : Op A) (c : Bool) (s : TicketStatus A)
      → c ≡ is_cancellation s
      → is_settled (ticket s c a p es) ≡ true
      → observed (step (ticket s c a p es) op) ≡ observed (ticket s c a p es)
  unfolding is_settled
  step-ticket op c (is_done r) e h = rw e (step-done r op)
  step-ticket op c is_cancelled e h = rw e (step-cancelled op)
  step-ticket op c is_pending e h = ground (arith, e, h)
  step-ticket op c is_queued e h = ground (arith, e, h)
  step-ticket op c (is_retrying n) e h = ground (arith, e, h)

pub run-settled_from :
    {A : Type 0}
    → (t : Ticket A) (later : List (Op A)) → Consistent t
    → is_settled t ≡ true
    → observed (run t later) ≡ observed t
unfolding run is_settled
run-settled_from t [] v h = refl
run-settled_from t (op ∷ later) v h =
    let same =
      step-ticket t.signal_aborted t.promise t.emitted op t.cancelled_flag t.status v.flagged h in
    run-settled_from (step t op) later (step-Consistent t op v) (ap (λ x. is_settled x) same ∙ h)
    ∙ same

pub settled-run :
    {A : Type 0}
    → (t : Ticket A) (later : List (Op A)) → Consistent t
    → is_settled t ≡ true
    → is_settled (run t later) ≡ true
unfolding is_settled
settled-run t later v h = ap (λ x. is_settled x) (run-settled_from t later v h) ∙ h

pub run-append :
    {A : Type 0}
    → (t : Ticket A) (ops later : List (Op A)) → run t (ops ++ later) ≡ run (run t ops) later
unfolding run
run-append t [] later = refl
run-append t (op ∷ ops) later = run-append (step t op) ops later

-- Once a history has settled a ticket, by `done` or by a cancellation, nothing that follows it, a late
-- result or a late cancellation included, changes the status, the promise or the events emitted: the
-- abort of its signal is all that can still happen.
pub run-settled :
    {A : Type 0}
    → (ops later : List (Op A)) → is_settled (run (new A) ops) ≡ true
    → observed (run (new A) (ops ++ later)) ≡ observed (run (new A) ops)
run-settled {A = A} ops later h =
    rw (run-append (new A) ops later)
      (run-settled_from (run (new A) ops) later (run-new-Consistent ops) h)
