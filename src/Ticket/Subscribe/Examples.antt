-- ===== src/Ticket/Subscribe/Examples.antt =====
-- A subscriber that comes after the ticket was queued and reads until it is done.
use vereda.Common.{ℕ, ◌≡◌, ◌⊎◌, refl, true, false, List, [], ◌∷◌, ◌++◌}
use vereda.Ticket
use vereda.Ticket.{
  Ticket, success, on_retrying, on_cancelled, on_done, marks_queued, marks_retrying, marks_done,
}
use vereda.Ticket.Subscribe.{Event, ticket_does, interrupted, pulls, subscribe, updates_of, run}
use vereda.Ticket.Subscribe.Says.{terminal}
use vereda.Ticket.Subscribe.Told.{Told}
use vereda.Ticket.Subscribe.Delivered.{subscribe-delivers}

abbrev before : List (Ticket.Op ℕ)
before = marks_queued ∷ []

abbrev at_first : Ticket ℕ
at_first = Ticket.run (Ticket.new ℕ) before

abbrev events : List (Event ℕ)
events =
    pulls
    ∷ ticket_does (marks_retrying 1 100)
    ∷ ticket_does (marks_done (success 7))
    ∷ pulls
    ∷ pulls
    ∷ pulls
    ∷ []

read :
    (run (at_first, subscribe at_first.status) events).1.yielded
    ≡ on_retrying 1 100 ∷ on_done (success 7) ∷ []
unfolding run subscribe Ticket.run Ticket.new Ticket.mark_queued Ticket.mark_retrying
    Ticket.mark_done
read = refl

-- A listener from before cancels the ticket when it hears of the retry.
crossed :
    (run
      (at_first, subscribe at_first.status)
      (interrupted (marks_retrying 1 100) ∷ pulls ∷ pulls ∷ pulls ∷ [])).1.yielded
    ≡ on_cancelled ∷ on_retrying 1 100 ∷ []
unfolding run subscribe Ticket.run Ticket.new Ticket.mark_queued Ticket.mark_retrying Ticket.step
    Ticket.cancel
crossed = refl

unsettled : terminal at_first.status ≡ false
unfolding Ticket.run Ticket.new Ticket.mark_queued
unsettled = refl

subscribe-delivers_example :
    let (t, s) = run (at_first, subscribe at_first.status) events in
    Told false (updates_of at_first.emitted) (s.yielded ++ s.updates) (updates_of t.emitted)
    × (((s.returned ≡ false) × (s.listening ≡ true))
        ⊎ ((s.returned ≡ true)
            × (s.listening ≡ false)
            × (s.updates ≡ [])
            × (terminal t.status ≡ true)))
subscribe-delivers_example = subscribe-delivers before events unsettled
