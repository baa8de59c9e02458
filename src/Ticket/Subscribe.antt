-- ===== src/Ticket/Subscribe.antt =====
-- src/ticket/ticket.ts: subscribe. The generator starts with the consumer's first `next()`; a pull is a
-- call of `next()` that it is ready for, or what it does when `notify` wakes it. The consumer that
-- stops early (`return()`) does so at a yield.
pub mod Says
pub mod Told
pub mod Ordered
pub mod Delivered
mod Examples
use vereda.Common.{
  ℕ, Bool, true, false, not, ◌&&◌, ◌||◌, Option, none, some, List, [], ◌∷◌, ◌++◌, length, ltb,
  if◌then◌else◌,
}
use vereda.Ticket
use vereda.Ticket.{
  Result, TicketStatus, is_pending, is_queued, is_retrying, is_done, is_cancelled, TicketUpdate,
  on_queued, on_retrying, on_done, on_cancelled, cancels, Emitted, update, done_event, error_event,
  Ticket,
}

pub record Subscription (A : Type 0) : Type 0 where
  pub yielded : List (TicketUpdate A)  -- the oldest first
  pub updates : List (TicketUpdate A)
  pub waiting : Bool  -- whether `notify` is set
  pub over : Bool  -- `isDone`
  pub listening : Bool
  pub returned : Bool

module _ {A : Type 0} where
  -- A ticket that is terminal has its update yielded, and the generator returns.
  abbrev pub yields_only : TicketUpdate A → Subscription A
  yields_only u = record {
    yielded = u ∷ [];
    updates = [];
    waiting = false;
    over = true;
    listening = false;
    returned = true;
  }

  unfoldable pub subscribe : TicketStatus A → Subscription A
  subscribe (is_done r) = yields_only (on_done r)
  subscribe is_cancelled = yields_only on_cancelled
  subscribe _ = record {
    yielded = [];
    updates = [];
    waiting = false;
    over = false;
    listening = true;
    returned = false;
  }

  -- `update.type === "done" || update.type === "cancelled"`.
  abbrev pub ends : TicketUpdate A → Bool
  ends (on_done r) = true
  ends on_cancelled = true
  ends _ = false

  unfoldable pub on_update : TicketUpdate A → Subscription A → Subscription A
  on_update u s =
      if s.listening
      then record s { updates = s.updates ++ (u ∷ []); waiting = false; over = s.over || ends u }
      else s

  -- The loop, up to its next yield, its end or its wait.
  abbrev pub turn : Subscription A → List (TicketUpdate A) → Subscription A
  turn s (u ∷ us) = record s { yielded = s.yielded ++ (u ∷ []); updates = us }
  turn s [] =
      if s.over
      then record s { listening = false; returned = true }
      else record s { waiting = true }

  unfoldable pub pull : Subscription A → Subscription A
  pull s = if s.returned then s else turn s s.updates

  unfoldable pub leave : Subscription A → Subscription A
  leave s = if s.waiting then s else record s { listening = false; returned = true }

  -- The updates that a ticket has emitted, the newest first.
  abbrev pub updates_of : List (Emitted A) → List (TicketUpdate A)
  updates_of [] = []
  updates_of (update u ∷ es) = u ∷ updates_of es
  updates_of (done_event r ∷ es) = updates_of es
  updates_of (error_event e ∷ es) = updates_of es

  -- The update that an operation has emitted, if it has: `before` is how many there were.
  abbrev pub hears : (before : ℕ) → List (TicketUpdate A) → Subscription A → Subscription A
  hears before [] s = s
  hears before (u ∷ us) s = if ltb before (length (u ∷ us)) then on_update u s else s

pub data Event (A : Type 0) : Type 0 where
  ticket_does : Ticket.Op A → Event A
  -- An operation, and an `update` listener that was registered before the subscriber's calls `cancel()`
  -- when it is told of it: the emission that this begins is over before the subscriber is told.
  interrupted : Ticket.Op A → Event A
  pulls : Event A

module _ {A : Type 0} where
  -- `t1` is the ticket after the operation, when its listeners are called.
  abbrev pub interrupt : (t t1 : Ticket A) → Subscription A → Ticket A × Subscription A
  interrupt t t1 s =
      let t2 = Ticket.step t1 cancels in
      let cancelled = hears (length (updates_of t1.emitted)) (updates_of t2.emitted) s in
      if ltb (length (updates_of t.emitted)) (length (updates_of t1.emitted))
      then (t2, hears (length (updates_of t.emitted)) (updates_of t1.emitted) cancelled)
      else (t1, s)

  -- The ticket and one who has subscribed to it.
  unfoldable pub step : Ticket A × Subscription A → Event A → Ticket A × Subscription A
  unfolding on_update pull
  step (t, s) (ticket_does op) =
      let t' = Ticket.step t op in
      (t', hears (length (updates_of t.emitted)) (updates_of t'.emitted) s)
  step (t, s) (interrupted op) = interrupt t (Ticket.step t op) s
  step (t, s) pulls = (t, pull s)

  unfoldable pub run : Ticket A × Subscription A → List (Event A) → Ticket A × Subscription A
  unfolding step
  run p [] = p
  run p (e ∷ es) = run (step p e) es
