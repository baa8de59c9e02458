-- ===== src/Ticket/Examples.antt =====
-- A ticket that is retried once and then cancelled, and a result that comes too late.
use vereda.Common.{ℕ, ◌≡◌, refl, true, List, [], ◌∷◌, ◌++◌}
use vereda.Ticket.{
  success, new, cancel, mark_queued, mark_retrying, apply_transition, is_settled, Op, marks_queued,
  marks_retrying, marks_done, cancels, step, run,
}
use vereda.Ticket.Lifecycle.{Consistent, run-new-Consistent}
use vereda.Ticket.Settled.{observed, run-settled}

abbrev history : List (Op ℕ)
history = marks_queued ∷ marks_retrying 0 100 ∷ cancels ∷ []

abbrev late : List (Op ℕ)
late = marks_done (success 200) ∷ cancels ∷ []

settled_lem : is_settled (run (new ℕ) history) ≡ true
unfolding is_settled run step new mark_queued mark_retrying cancel apply_transition
settled_lem = refl

run-new-Consistent_example : Consistent (run (new ℕ) history)
run-new-Consistent_example = run-new-Consistent history

run-settled_example : observed (run (new ℕ) (history ++ late)) ≡ observed (run (new ℕ) history)
run-settled_example = run-settled history late settled_lem
