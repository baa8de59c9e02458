-- ===== src/Ticket/Subscribe/Delivered.antt =====
-- A subscriber gets every update, once and in order.
use vereda.Common.{◌≡◌, ◌⊎◌, refl, sym, ◌∙◌, inl, inr, Bool, true, false, List, [], ◌++◌}
use vereda.Ticket
use vereda.Ticket.{
  Result, success, failure, TicketStatus, is_pending, is_queued, is_retrying, is_done, is_cancelled,
  TicketUpdate, on_queued, on_retrying, on_done, on_cancelled, Emitted, update, done_event,
  error_event, Ticket, marks_queued, marks_retrying, marks_done, aborts_signal, cancels,
  mark_queued, mark_retrying, mark_done, abort_signal, cancel, apply_transition, resolve,
  emit_error,
}
use vereda.Ticket.Lifecycle.{Consistent, run-new-Consistent}
use vereda.Ticket.Subscribe.{Subscription, Event, subscribe, updates_of, run}
use vereda.Ticket.Subscribe.Says.{terminal}
use vereda.Ticket.Subscribe.Told.{any_interrupted, Told, Phase, Inv}
use vereda.Ticket.Subscribe.Ordered.{run-Inv}

module _ {A : Type 0} where
  abbrev fresh : Subscription A
  fresh = record {
    yielded = [];
    updates = [];
    waiting = false;
    over = false;
    listening = true;
    returned = false;
  }

  subscribe-fresh : (st : TicketStatus A) → terminal st ≡ false → subscribe st ≡ fresh
  unfolding subscribe
  subscribe-fresh is_pending h = refl
  subscribe-fresh is_queued h = refl
  subscribe-fresh (is_retrying n) h = refl
  subscribe-fresh (is_done r) h = absurd (cc)
  subscribe-fresh is_cancelled h = absurd (cc)

  subscribe-Inv :
      (answered : Bool) (t : Ticket A)
      → Consistent t
      → terminal t.status ≡ false
      → Inv answered (updates_of t.emitted) t (subscribe t.status)
  subscribe-Inv answered t c h = rw (subscribe-fresh t.status h) (record {
    consistent = c;
    told = inl refl;
    settled = inl refl;
    over_when = sym h;
    phase = inl (refl, refl);
  })

phase_of :
    {A : Type 0} (s : Subscription A) (b : Bool)
    → s.over ≡ b
    → Phase s
    → ((s.returned ≡ false) × (s.listening ≡ true))
      ⊎ ((s.returned ≡ true) × (s.listening ≡ false) × (s.updates ≡ []) × (b ≡ true))
phase_of s b e (inl v) = inl v
phase_of s b e (inr (r, l, u, o)) = inr (r, l, u, sym e ∙ o)

-- Whatever happens to the ticket before the first `next()` of a subscriber, if it has not settled then, and however its
-- later operations and the subscriber's turns interleave: what was yielded and what is
-- queued are exactly the updates that the ticket has emitted since, each once and in order; but where
-- an `update` listener that was registered before the subscriber's answers an update by cancelling the ticket, the
-- cancellation may stand before that update, as the last two. The generator goes on
-- and listens, or it has returned, and then the ticket has settled, all those updates have
-- been yielded and no listener is left.
pub subscribe-delivers :
    {A : Type 0} (before : List (Ticket.Op A)) (es : List (Event A))
    → terminal (Ticket.run (Ticket.new A) before).status ≡ false
    → let t0 = Ticket.run (Ticket.new A) before in
      let (t, s) = run (t0, subscribe t0.status) es in
      Told
        (any_interrupted es)
        (updates_of t0.emitted)
        (s.yielded ++ s.updates)
        (updates_of t.emitted)
      × (((s.returned ≡ false) × (s.listening ≡ true))
          ⊎ ((s.returned ≡ true)
              × (s.listening ≡ false)
              × (s.updates ≡ [])
              × (terminal t.status ≡ true)))
subscribe-delivers {A} before es h =
    let t0 = Ticket.run (Ticket.new A) before in
    let p = run (t0, subscribe t0.status) es in
    let start = subscribe-Inv (any_interrupted es) t0 (run-new-Consistent before) h in
    let v =
      run-Inv (any_interrupted es) (updates_of t0.emitted) es t0 (subscribe t0.status) (λ e. e)
        start in
    (v.told, phase_of p.1 (terminal p.0.status) v.over_when v.phase)
