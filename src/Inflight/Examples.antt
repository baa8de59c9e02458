-- ===== src/Inflight/Examples.antt =====
-- Two requests, of which the first is over when the client is closed.
use vereda.Common.{ℕ, ◌≡◌, refl, true, false, none, List, [], ◌∷◌}
use vereda.Validate.{validate_close_options}
use vereda.Ticket
use vereda.Inflight.{
  Op, sends, holds, cleans_up, tells, closes, drain_ends, live, no_signal, shut, open_, new, run,
  step, send, size, begin_close, close, shut_down, cleanup,
}
use vereda.Inflight.Tidy.{Tidy, run-new-Tidy}
use vereda.Inflight.Shutdown.{AllReleased, close-Released, after_shutdown}

abbrev two_sent : List (Op ℕ)
two_sent =
    sends live true
    ∷ holds 0
    ∷ sends no_signal false
    ∷ holds 1
    ∷ tells 0 (Ticket.marks_done (Ticket.success 200))
    ∷ cleans_up 0
    ∷ []

abbrev closed : List (Op ℕ)
closed = sends live true ∷ holds 0 ∷ closes none ∷ []

abbrev later : List (Op ℕ)
later = cleans_up 0 ∷ drain_ends ∷ []

one_left : size (run (new ℕ) two_sent).entries ≡ 1
unfolding run step send cleanup
one_left = refl

still_open : (run (new ℕ) two_sent).phase ≡ open_
unfolding run step send cleanup
still_open = refl

now_shut : (run (new ℕ) closed).phase ≡ shut
unfolding run step send close begin_close validate_close_options shut_down
now_shut = refl

no_options : validate_close_options none ≡ none
unfolding validate_close_options
no_options = refl

run-new-Tidy_example : Tidy (run (new ℕ) two_sent)
run-new-Tidy_example = run-new-Tidy two_sent

close-Released_example :
    AllReleased (run (new ℕ) two_sent).entries (close none (run (new ℕ) two_sent)).0.entries
close-Released_example = close-Released none two_sent no_options refl still_open

after_shutdown_example :
    (size (run (run (new ℕ) closed) later).entries ≡ 0)
    × (send no_signal true (run (run (new ℕ) closed) later) ≡ none)
after_shutdown_example = after_shutdown closed later no_signal true now_shut
