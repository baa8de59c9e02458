-- ===== src/Inflight/Shutdown.antt =====
-- What a shutdown does to every request in flight, and what is left to do after it.
use vereda.Common.{
  ℕ, zero, suc, ◌+◌, ◌≡◌, refl, ap, Bool, true, false, Option, none, List, [], ◌∷◌, inl, inr,
  Bool-cases, Option-cases, if◌then◌else◌, arith,
}
use vereda.Ticket.{
  Ticket, TicketStatus, is_pending, is_queued, is_retrying, is_done, is_cancelled, apply_transition,
  cancel, is_settled,
}
use vereda.Ticket.Lifecycle.{Consistent, is_cancellation}
use vereda.Validate.{CloseOptions, drains, validate_close_options}
use vereda.Inflight.{
  InflightTicket, open_, draining, shut, Client, new, size, clean, at_index, in_flight_at, cleanup,
  cancel_all, clear, shut_down, begin_close, close, end_drain, Op, sends, holds, cleans_up,
  deadline_passes, signal_aborts, tells, closes, drain_ends, send, step, run, Signal,
}
use vereda.Inflight.Tidy.{AllNeat, Tidy, run-Tidy, run-new-Tidy}

-- `after` is what a shutdown makes of the entry `before`.
pub record Released {A : Type 0} (before after : InflightTicket A) : Type 0 where
  pub gone : after.in_flight ≡ false
  pub settled : before.in_flight ≡ true → is_settled after.ticket ≡ true
  pub quiet : (after.listening ≡ false) × (after.armed ≡ false)
  pub unheld : before.in_flight ≡ true → after.held ≡ false
  pub once :
      before.in_flight ≡ true → after.releases ≡ before.releases + (if before.held then 1 else 0)

abbrev pub AllReleased : {A : Type 0} → (before after : List (InflightTicket A)) → Type 0
AllReleased [] [] = Unit {0}
AllReleased (e ∷ es) (f ∷ fs) = Released e f × AllReleased es fs
AllReleased [] (f ∷ fs) = ⊥
AllReleased (e ∷ es) [] = ⊥

module _ {A : Type 0} where
  cancel_by-settled :
      (t : Ticket A) (s : TicketStatus A)
      → t.cancelled_flag ≡ is_cancellation s
      → is_settled (cancel (record t { status = s })) ≡ true
  unfolding cancel apply_transition is_settled
  cancel_by-settled t is_pending h = rw h refl
  cancel_by-settled t is_queued h = rw h refl
  cancel_by-settled t (is_retrying n) h = rw h refl
  cancel_by-settled t (is_done r) h = rw h refl
  cancel_by-settled t is_cancelled h = rw h refl

  cancel-settled : (t : Ticket A) → Consistent t → is_settled (cancel t) ≡ true
  cancel-settled t v = cancel_by-settled t t.status v.flagged

  cancel_all-Released :
      (es : List (InflightTicket A)) → AllNeat es → AllReleased es (clear (cancel_all es))
  unfolding cancel_all
  cancel_all-Released [] v = tt
  cancel_all-Released (e ∷ es) v = elim (Bool-cases e.in_flight) [
    | inl h ↦ rw h (
      record {
        gone = refl;
        settled = (λ g. cancel-settled e.ticket v.0.consistent);
        quiet = (refl, refl);
        unheld = (λ g. refl);
        once = (λ g. ground arith);
      },
      cancel_all-Released es v.1,
    )
    | inr h ↦ rw h (
      record {
        gone = refl;
        settled = (λ g. ground (arith, g, h));
        quiet = v.0.still h;
        unheld = (λ g. ground (arith, g, h));
        once = (λ g. ground (arith, g, h));
      },
      cancel_all-Released es v.1,
    )
  ]

  shut_down-Released : (c : Client A) → Tidy c → AllReleased c.entries (shut_down c).entries
  unfolding shut_down
  shut_down-Released c v = cancel_all-Released c.entries v.neat

  -- When a client that has not been closed is closed without a drain, every request in flight has been
  -- cleaned up and its ticket settled by the time `close` returns: no entry is in the set,
  -- listens or has a timer, and the holds of each one that was in flight have been
  -- released, once if it had any.
  pub close-Released :
      (opts : Option CloseOptions) (ops : List (Op A))
      → validate_close_options opts ≡ none
      → drains opts ≡ false
      → (run (new A) ops).phase ≡ open_
      → AllReleased (run (new A) ops).entries (close opts (run (new A) ops)).0.entries
  unfolding begin_close close run
  close-Released opts ops e d p =
      rw (e, p, d, close) (shut_down-Released (run (new A) ops) (run-new-Tidy ops))

  -- The end of a drain does the same for what is then still in flight.
  end_drain-Released :
      (ops : List (Op A))
      → (run (new A) ops).phase ≡ draining
      → AllReleased (run (new A) ops).entries (end_drain (run (new A) ops)).entries
  unfolding end_drain run
  end_drain-Released ops p = rw p (shut_down-Released (run (new A) ops) (run-new-Tidy ops))

  in_flight_at-clean :
      (i : ℕ) (es : List (InflightTicket A)) → in_flight_at i (at_index i clean es) ≡ false
  in_flight_at-clean i [] = refl
  in_flight_at-clean zero (e ∷ es) = refl
  in_flight_at-clean (suc i) (e ∷ es) = in_flight_at-clean i es

  at_index-clean-clean :
      (i : ℕ) (es : List (InflightTicket A))
      → at_index i clean (at_index i clean es) ≡ at_index i clean es
  at_index-clean-clean i [] = refl
  at_index-clean-clean zero (e ∷ es) = refl
  at_index-clean-clean (suc i) (e ∷ es) = ap (λ fs. e ∷ fs) (at_index-clean-clean i es)

  -- Cleaning a request up a second time does nothing: no hold is released and no gauge reported again.
  cleanup-cleanup : (i : ℕ) (c : Client A) → cleanup i (cleanup i c) ≡ cleanup i c
  unfolding cleanup
  cleanup-cleanup i c = rw (at_index-clean-clean i c.entries, in_flight_at-clean i c.entries) refl

  close-shut :
      (opts : Option CloseOptions) (c : Client A) → c.phase ≡ shut → (close opts c).0.phase ≡ shut
  unfolding close
  close-shut opts c p = elim (Option-cases (validate_close_options opts)) [
    | inl h ↦ rw (h, close, p) refl
    | inr (v, h) ↦ rw (h, close) p
  ]

  step-shut : (c : Client A) (op : Op A) → c.phase ≡ shut → (step c op).phase ≡ shut
  unfolding step send end_drain cleanup
  step-shut c (sends given is_bounded) p = rw p refl
  step-shut c (holds i) p = p
  step-shut c (cleans_up i) p = p
  step-shut c (deadline_passes i) p = p
  step-shut c (signal_aborts i) p = p
  step-shut c (tells i op) p = p
  step-shut c (closes opts) p = close-shut opts c p
  step-shut c drain_ends p = rw p refl

  run-shut : (c : Client A) (later : List (Op A)) → c.phase ≡ shut → (run c later).phase ≡ shut
  unfolding run
  run-shut c [] p = p
  run-shut c (op ∷ later) p = run-shut (step c op) later (step-shut c op p)

  -- A shutdown is for good: whatever follows it, no request is in flight then, and sending one throws.
  pub after_shutdown :
      (ops later : List (Op A)) (given : Signal) (is_bounded : Bool)
      → (run (new A) ops).phase ≡ shut
      → (size (run (run (new A) ops) later).entries ≡ 0)
        × (send given is_bounded (run (run (new A) ops) later) ≡ none)
  unfolding send
  after_shutdown ops later given is_bounded p =
      let q = run-shut (run (new A) ops) later p in
      ((run-Tidy (run (new A) ops) later (run-new-Tidy ops)).gone q, rw q refl)
