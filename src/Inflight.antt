-- ===== src/Inflight.antt =====
-- src/core/client.ts: the set of tickets in flight, what each of them keeps until it is cleaned up, and
-- `close`. The set is a flag of each entry, in the order in which the requests were sent; an entry is
-- named by its number in that order, since its cleanup reaches it after it has left the set, too.
pub mod Tidy
pub mod Shutdown
mod Examples
use vereda.Common.{
  ℕ, zero, suc, ◌+◌, Bool, true, false, not, ◌||◌, Option, none, some, List, [], ◌∷◌, ◌++◌, sum_by,
  ◌==◌, if◌then◌else◌,
}
use vereda.Ticket
use vereda.Ticket.{Ticket, cancel, abort_signal}
use vereda.Validate.{CloseOptions, Violation, drains, validate_close_options}

pub record InflightTicket (A : Type 0) : Type 0 where
  pub ticket : Ticket A
  pub in_flight : Bool
  pub listening : Bool  -- to the caller's signal
  pub armed : Bool  -- the timer of the total deadline
  pub held : Bool  -- whether `release` is set: the bulkhead's, the breaker's and the budget's holds
  pub releases : ℕ  -- how often `release` has been called

-- `options.signal`.
pub data Signal : Type 0 where
  no_signal aborted live : Signal

-- `_closed` is false only while the client is open; `_closing` is set from then on.
pub data Phase : Type 0 where
  open_ draining shut : Phase

pub record Client (A : Type 0) : Type 0 where
  pub phase : Phase
  pub entries : List (InflightTicket A)
  pub gauges : List ℕ  -- the values of IN_FLIGHT that cleanups reported, the last first

abbrev pub new : (A : Type 0) → Client A
new A = record { phase = open_; entries = []; gauges = [] }

abbrev pub is_in_flight : {A : Type 0} → InflightTicket A → ℕ
is_in_flight e = if e.in_flight then 1 else 0

-- `_inflightTickets.size`.
abbrev pub size : {A : Type 0} → List (InflightTicket A) → ℕ
size es = sum_by is_in_flight es

abbrev pub listens : Signal → Bool
listens live = true
listens _ = false

abbrev pub ticket_for : (A : Type 0) → Signal → Ticket A
ticket_for A aborted = cancel (Ticket.new A)
ticket_for A _ = Ticket.new A

abbrev pub entry_for : (A : Type 0) → Signal → (is_bounded : Bool) → InflightTicket A
entry_for A signal is_bounded = record {
  ticket = ticket_for A signal;
  in_flight = true;
  listening = listens signal;
  armed = is_bounded;
  held = false;
  releases = 0;
}

-- `send`, up to the first attempt: none where it throws.
unfoldable pub send : {A : Type 0} → Signal → (is_bounded : Bool) → Client A → Option (Client A)
send {A = A} signal is_bounded c = elim c.phase [
  | open_ ↦ some (record c { entries = c.entries ++ (entry_for A signal is_bounded ∷ []) })
  | _ ↦ none
]

abbrev pub at_index : {A : Type 0} → ℕ → (A → A) → List A → List A
at_index i f [] = []
at_index zero f (x ∷ xs) = f x ∷ xs
at_index (suc i) f (x ∷ xs) = x ∷ at_index i f xs

-- What `entry.cleanup` does to its entry.
abbrev pub clean : {A : Type 0} → InflightTicket A → InflightTicket A
clean e = record {
  ticket = e.ticket;
  in_flight = false;
  listening = false;
  armed = false;
  held = false;
  releases = (if e.held then suc e.releases else e.releases);
}

abbrev pub in_flight_at : {A : Type 0} → ℕ → List (InflightTicket A) → Bool
in_flight_at i [] = false
in_flight_at zero (e ∷ es) = e.in_flight
in_flight_at (suc i) (e ∷ es) = in_flight_at i es

-- The gauge is reported only where the entry leaves the set.
unfoldable pub cleanup : {A : Type 0} → ℕ → Client A → Client A
cleanup i c =
    let entries' = at_index i clean c.entries in
    record {
      phase = c.phase;
      entries = entries';
      gauges = (if in_flight_at i c.entries then size entries' ∷ c.gauges else c.gauges);
    }

-- `entry.release = release`.
abbrev pub hold_entry : {A : Type 0} → InflightTicket A → InflightTicket A
hold_entry e = record e { held = true }

abbrev pub tell_entry : {A : Type 0} → Ticket.Op A → InflightTicket A → InflightTicket A
tell_entry op e = record e { ticket = Ticket.step e.ticket op }

-- The deadline's timer fires.
abbrev pub pass_deadline : {A : Type 0} → InflightTicket A → InflightTicket A
pass_deadline e = record e { ticket = (if e.armed then abort_signal e.ticket else e.ticket) }

-- The caller's signal is aborted; the listener is called once.
abbrev pub hear_abort : {A : Type 0} → InflightTicket A → InflightTicket A
hear_abort e = record e {
  ticket = (if e.listening then cancel e.ticket else e.ticket);
  listening = false;
}

abbrev pub cancel_entry : {A : Type 0} → InflightTicket A → InflightTicket A
cancel_entry e = record e { ticket = cancel e.ticket }

-- The loop of `_close` over the set: clean up and cancel. The set has shrunk to the entries that
-- follow when a cleanup reports its size.
unfoldable pub cancel_all : {A : Type 0} → List (InflightTicket A) → List (InflightTicket A)
cancel_all [] = []
cancel_all (e ∷ es) = (if e.in_flight then cancel_entry (clean e) else e) ∷ cancel_all es

unfoldable pub sizes_down : {A : Type 0} → List (InflightTicket A) → List ℕ → List ℕ
sizes_down [] gauges = gauges
sizes_down (e ∷ es) gauges = sizes_down es (if e.in_flight then size es ∷ gauges else gauges)

-- `_inflightTickets.clear()`.
abbrev pub clear : {A : Type 0} → List (InflightTicket A) → List (InflightTicket A)
clear [] = []
clear (e ∷ es) = record e { in_flight = false } ∷ clear es

unfoldable pub shut_down : {A : Type 0} → Client A → Client A
shut_down c = record {
  phase = shut;
  entries = clear (cancel_all c.entries);
  gauges = sizes_down c.entries c.gauges;
}

-- `_close`, up to the wait of a drain.
unfoldable pub begin_close : {A : Type 0} → (drain : Bool) → Client A → Client A
begin_close drain c =
    if not drain || (size c.entries == 0) then shut_down c else record c { phase = draining }

-- `this._closing ??= this._close(opts)`: a later call waits for the first one.
abbrev pub close_in : {A : Type 0} → Phase → (drain : Bool) → Client A → Client A
close_in open_ drain c = begin_close drain c
close_in draining drain c = c
close_in shut drain c = c

-- `close`, and the error that it rejects with, if any.
unfoldable pub close : {A : Type 0} → Option CloseOptions → Client A → Client A × Option Violation
close opts c = elim (validate_close_options opts) [
  | some v ↦ (c, some v)
  | none ↦ (close_in c.phase (drains opts) c, none)
]

-- The drain's wait is over, because every ticket is settled or because its time is up.
abbrev pub end_in : {A : Type 0} → Phase → Client A → Client A
end_in open_ c = c
end_in draining c = shut_down c
end_in shut c = c

unfoldable pub end_drain : {A : Type 0} → Client A → Client A
end_drain c = end_in c.phase c

pub data Op (A : Type 0) : Type 0 where
  sends : Signal → (is_bounded : Bool) → Op A
  holds cleans_up deadline_passes signal_aborts : ℕ → Op A
  tells : ℕ → Ticket.Op A → Op A
  closes : Option CloseOptions → Op A
  drain_ends : Op A

abbrev pub change : {A : Type 0} → ℕ → (InflightTicket A → InflightTicket A) → Client A → Client A
change i f c = record c { entries = at_index i f c.entries }

abbrev pub kept : {A : Type 0} → Option A → A → A
kept none a = a
kept (some b) a = b

unfoldable pub step : {A : Type 0} → Client A → Op A → Client A
step c (sends signal is_bounded) = kept (send signal is_bounded c) c
step c (holds i) = change i hold_entry c
step c (cleans_up i) = cleanup i c
step c (deadline_passes i) = change i pass_deadline c
step c (signal_aborts i) = change i hear_abort c
step c (tells i op) = change i (λ e. tell_entry op e) c
step c (closes opts) = (close opts c).0
step c drain_ends = end_drain c

unfoldable pub run : {A : Type 0} → Client A → List (Op A) → Client A
unfolding step
run c [] = c
run c (op ∷ ops) = run (step c op) ops
