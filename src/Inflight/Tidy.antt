-- ===== src/Inflight/Tidy.antt =====
-- What the entries are like after any history.
use vereda.Common.{
  ℕ, zero, suc, ◌≤◌, ◌≡◌, refl, Bool, true, false, not, ◌||◌, Option, List, [], ◌∷◌, ◌++◌, inl, inr,
  Bool-cases, Option-cases, ◌==◌, if◌then◌else◌, arith,
}
use vereda.Ticket
use vereda.Ticket.{Ticket, cancel, abort_signal, cancels, aborts_signal}
use vereda.Ticket.Lifecycle.{Consistent, step-Consistent, run-new-Consistent}
use vereda.Validate.{CloseOptions, drains, validate_close_options}
use vereda.Inflight.{
  InflightTicket, Signal, no_signal, aborted, live, ticket_for, Phase, open_, draining, shut,
  Client, new, is_in_flight, size, send, at_index, clean, cleanup, hold_entry, tell_entry,
  pass_deadline, hear_abort, cancel_all, clear, shut_down, begin_close, close_in, close, end_in,
  end_drain, entry_for, kept, Op, sends, holds, cleans_up, deadline_passes, signal_aborts, tells,
  closes, drain_ends, change, step, run,
}

-- An entry's ticket is one that its own operations lead to; once it has left the set, the entry keeps
-- neither a listener nor a timer.
pub record Neat {A : Type 0} (e : InflightTicket A) : Type 0 where
  pub consistent : Consistent e.ticket
  pub still : e.in_flight ≡ false → (e.listening ≡ false) × (e.armed ≡ false)

abbrev pub AllNeat : {A : Type 0} → List (InflightTicket A) → Type 0
AllNeat [] = Unit {0}
AllNeat (e ∷ es) = Neat e × AllNeat es

pub record Tidy {A : Type 0} (c : Client A) : Type 0 where
  pub neat : AllNeat c.entries
  pub gone : c.phase ≡ shut → size c.entries ≡ 0

-- A change of one entry that keeps what is said of it and puts nothing back into the set.
pub record Harmless {A : Type 0} (f : InflightTicket A → InflightTicket A) : Type 0 where
  pub neat : (e : InflightTicket A) → Neat e → Neat (f e)
  pub fewer : (e : InflightTicket A) → is_in_flight (f e) ≤ is_in_flight e

module _ {A : Type 0} where
  pub cancel-Consistent : (t : Ticket A) → Consistent t → Consistent (cancel t)
  unfolding Ticket.step
  cancel-Consistent t v = step-Consistent t cancels v

  clean-Harmless : Harmless {A = A} clean
  clean-Harmless = record {
    neat = (λ e v. record { consistent = v.consistent; still = (λ h. (refl, refl)) });
    fewer = (λ e. omega arith);
  }

  hold_entry-Harmless : Harmless {A = A} hold_entry
  hold_entry-Harmless = record {
    neat = (λ e v. record { consistent = v.consistent; still = v.still });
    fewer = (λ e. omega arith);
  }

  tell_entry-Harmless : (op : Ticket.Op A) → Harmless {A = A} (λ e. tell_entry op e)
  tell_entry-Harmless op = record {
    neat =
        (λ e v. record { consistent = step-Consistent e.ticket op v.consistent; still = v.still });
    fewer = (λ e. omega arith);
  }

  either-Consistent :
      (b : Bool) (t t' : Ticket A) → Consistent t → Consistent t' → Consistent (if b then t' else t)
  either-Consistent true t t' v v' = v'
  either-Consistent false t t' v v' = v

  abort-Consistent : (t : Ticket A) → Consistent t → Consistent (abort_signal t)
  unfolding Ticket.step
  abort-Consistent t v = step-Consistent t aborts_signal v

  pass_deadline-Harmless : Harmless {A = A} pass_deadline
  pass_deadline-Harmless = record {
    neat = (λ e v. record {
      consistent =
          either-Consistent e.armed e.ticket (abort_signal e.ticket) v.consistent
            (abort-Consistent e.ticket v.consistent);
      still = v.still;
    });
    fewer = (λ e. omega arith);
  }

  hear_abort-Harmless : Harmless {A = A} hear_abort
  hear_abort-Harmless = record {
    neat = (λ e v. record {
      consistent =
          either-Consistent e.listening e.ticket (cancel e.ticket) v.consistent
            (cancel-Consistent e.ticket v.consistent);
      still = (λ h. (refl, (v.still h).1));
    });
    fewer = (λ e. omega arith);
  }

  at_index-AllNeat :
      (i : ℕ) (f : InflightTicket A → InflightTicket A) (es : List (InflightTicket A))
      → Harmless f
      → AllNeat es
      → AllNeat (at_index i f es)
  at_index-AllNeat i f [] w v = tt
  at_index-AllNeat zero f (e ∷ es) w v = (w.neat e v.0, v.1)
  at_index-AllNeat (suc i) f (e ∷ es) w v = (v.0, at_index-AllNeat i f es w v.1)

  size-at_index :
      (i : ℕ) (f : InflightTicket A → InflightTicket A) (es : List (InflightTicket A))
      → Harmless f
      → size (at_index i f es) ≤ size es
  size-at_index i f [] w = omega arith
  size-at_index zero f (e ∷ es) w = omega (arith, w.fewer e)
  size-at_index (suc i) f (e ∷ es) w = omega (arith, size-at_index i f es w)

  change-Tidy :
      (i : ℕ) (f : InflightTicket A → InflightTicket A) (c : Client A)
      → Harmless f
      → Tidy c
      → Tidy (change i f c)
  change-Tidy i f c w v = record {
    neat = at_index-AllNeat i f c.entries w v.neat;
    gone = (λ h. omega (arith, size-at_index i f c.entries w, v.gone h));
  }

  cleanup-Tidy : (i : ℕ) (c : Client A) → Tidy c → Tidy (cleanup i c)
  unfolding cleanup
  cleanup-Tidy i c v =
      let w = change-Tidy i clean c clean-Harmless v in record { neat = w.neat; gone = w.gone }

  pub size-clear : (es : List (InflightTicket A)) → size (clear es) ≡ 0
  size-clear [] = refl
  size-clear (e ∷ es) = omega (arith, size-clear es)

  cancel_all-AllNeat : (es : List (InflightTicket A)) → AllNeat es → AllNeat (clear (cancel_all es))
  unfolding cancel_all
  cancel_all-AllNeat [] v = tt
  cancel_all-AllNeat (e ∷ es) v = elim (Bool-cases e.in_flight) [
    | inl h ↦ rw h (
      record {
        consistent = cancel-Consistent e.ticket v.0.consistent;
        still = (λ g. (refl, refl));
      },
      cancel_all-AllNeat es v.1,
    )
    | inr h ↦ rw h (
      record { consistent = v.0.consistent; still = (λ g. v.0.still h) },
      cancel_all-AllNeat es v.1,
    )
  ]

  shut_down-Tidy : (c : Client A) → Tidy c → Tidy (shut_down c)
  unfolding shut_down
  shut_down-Tidy c v = record {
    neat = cancel_all-AllNeat c.entries v.neat;
    gone = (λ h. size-clear (cancel_all c.entries));
  }

  begin_close-Tidy : (drain : Bool) (c : Client A) → Tidy c → Tidy (begin_close drain c)
  unfolding begin_close
  begin_close-Tidy drain c v = elim (Bool-cases (not drain || (size c.entries == 0))) [
    | inl h ↦ rw h (shut_down-Tidy c v)
    | inr h ↦ rw h (record { neat = v.neat; gone = (λ g. ground (arith, g)) })
  ]

  close_in-Tidy : (p : Phase) (drain : Bool) (c : Client A) → Tidy c → Tidy (close_in p drain c)
  close_in-Tidy open_ drain c v = begin_close-Tidy drain c v
  close_in-Tidy draining drain c v = v
  close_in-Tidy shut drain c v = v

  close-Tidy : (opts : Option CloseOptions) (c : Client A) → Tidy c → Tidy (close opts c).0
  unfolding close
  close-Tidy opts c v = elim (Option-cases (validate_close_options opts)) [
    | inl h ↦ rw (h, close) (close_in-Tidy c.phase (drains opts) c v)
    | inr (w, h) ↦ rw (h, close) v
  ]

  end_in-Tidy : (p : Phase) (c : Client A) → Tidy c → Tidy (end_in p c)
  end_in-Tidy open_ c v = v
  end_in-Tidy draining c v = shut_down-Tidy c v
  end_in-Tidy shut c v = v

  append-AllNeat :
      (es : List (InflightTicket A)) (e : InflightTicket A)
      → AllNeat es
      → Neat e
      → AllNeat (es ++ (e ∷ []))
  append-AllNeat [] e v w = (w, tt)
  append-AllNeat (x ∷ es) e v w = (v.0, append-AllNeat es e v.1 w)

  pub new_ticket-Consistent : Consistent (Ticket.new A)
  unfolding Ticket.run
  new_ticket-Consistent = run-new-Consistent []

  ticket_for-Consistent : (given : Signal) → Consistent (ticket_for A given)
  ticket_for-Consistent no_signal = new_ticket-Consistent
  ticket_for-Consistent aborted = cancel-Consistent (Ticket.new A) new_ticket-Consistent
  ticket_for-Consistent live = new_ticket-Consistent

  send-Tidy :
      (given : Signal) (is_bounded : Bool) (p : Phase) (es : List (InflightTicket A))
      (gauges : List ℕ)
      → Tidy (record { phase = p; entries = es; gauges = gauges })
      → Tidy (
          kept
            (send given is_bounded (record { phase = p; entries = es; gauges = gauges }))
            (record { phase = p; entries = es; gauges = gauges }))
  unfolding send
  send-Tidy given is_bounded open_ es gauges v = record {
    neat =
        append-AllNeat es (entry_for A given is_bounded) v.neat
          (record { consistent = ticket_for-Consistent given; still = (λ h. ground (arith, h)) });
    gone = (λ h. ground (arith, h));
  }
  send-Tidy given is_bounded draining es gauges v = v
  send-Tidy given is_bounded shut es gauges v = v

  step-Tidy : (c : Client A) (op : Op A) → Tidy c → Tidy (step c op)
  unfolding step end_drain
  step-Tidy c (sends given is_bounded) v = send-Tidy given is_bounded c.phase c.entries c.gauges v
  step-Tidy c (holds i) v = change-Tidy i hold_entry c hold_entry-Harmless v
  step-Tidy c (cleans_up i) v = cleanup-Tidy i c v
  step-Tidy c (deadline_passes i) v = change-Tidy i pass_deadline c pass_deadline-Harmless v
  step-Tidy c (signal_aborts i) v = change-Tidy i hear_abort c hear_abort-Harmless v
  step-Tidy c (tells i op) v = change-Tidy i (λ e. tell_entry op e) c (tell_entry-Harmless op) v
  step-Tidy c (closes opts) v = close-Tidy opts c v
  step-Tidy c drain_ends v = end_in-Tidy c.phase c v

  pub run-Tidy : (c : Client A) (ops : List (Op A)) → Tidy c → Tidy (run c ops)
  unfolding run
  run-Tidy c [] v = v
  run-Tidy c (op ∷ ops) v = run-Tidy (step c op) ops (step-Tidy c op v)

-- Whatever is sent, cleaned up, cancelled, timed out and closed, in any order: an entry that has left
-- the set keeps neither the listener on its caller's signal nor the timer of its deadline; the status,
-- the promise and the events of each one's ticket agree; and after a shutdown the set is empty.
pub run-new-Tidy : {A : Type 0} → (ops : List (Op A)) → Tidy (run (new A) ops)
run-new-Tidy {A = A} ops = run-Tidy (new A) ops (record { neat = tt; gone = (λ h. refl) })
