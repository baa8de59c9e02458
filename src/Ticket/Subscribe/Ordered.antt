-- ===== src/Ticket/Subscribe/Ordered.antt =====
-- The updates of a ticket reach a subscriber in order, but for those that a cancellation overtakes.
use vereda.Common.{
  ◌≡◌, ◌⊎◌, refl, sym, ap, ◌∙◌, inl, inr, Bool, true, false, List, [], ◌∷◌, ◌++◌, append_assoc,
  length, Bool-cases, if-takes, if-skips, subst, ltb, arith,
}
use vereda.Ticket
use vereda.Ticket.{
  Result, success, failure, TicketStatus, is_pending, is_queued, is_retrying, is_done, is_cancelled,
  TicketUpdate, on_queued, on_retrying, on_done, on_cancelled, Emitted, update, done_event,
  error_event, Ticket, marks_queued, marks_retrying, marks_done, aborts_signal, cancels,
  mark_queued, mark_retrying, mark_done, abort_signal, cancel, apply_transition, resolve,
  emit_error,
}
use vereda.Ticket.Lifecycle.{Consistent, step-Consistent}
use vereda.Ticket.Subscribe.{
  Subscription, Event, ticket_does, interrupted, interrupt, pulls, ends, on_update, turn, pull,
  updates_of, hears, step, run,
}
use vereda.Ticket.Subscribe.Says.{terminal, Says, SaysCancelled, cancels-SaysCancelled, step-Says}
use vereda.Ticket.Subscribe.Told.{
  onto, onto-snoc, onto-two, any_interrupted, Told, hears-none, hears-one, Phase, Inv, listens,
  in_order,
}

module _ {A : Type 0} (answered : Bool) (base : List (TicketUpdate A)) where
  on_update-Inv :
      (t t' : Ticket A) (s : Subscription A) (u : TicketUpdate A)
      → Inv answered base t s
      → Consistent t'
      → updates_of t'.emitted ≡ u ∷ updates_of t.emitted
      → terminal t.status ≡ false
      → terminal t'.status ≡ ends u
      → Inv answered base t' (on_update u s)
  unfolding on_update
  on_update-Inv t t' s u v c e before after =
      let fresh : s.over ≡ false = v.over_when ∙ before in
      let (open', hears') = listens s v.phase fresh in
      let grown : updates_of t'.emitted ≡ onto (s.yielded ++ (s.updates ++ (u ∷ []))) base =
        e
        ∙ ap (λ us. u ∷ us) (in_order t (onto (s.yielded ++ s.updates) base) v.settled before)
        ∙ sym (onto-snoc (s.yielded ++ s.updates) u base)
        ∙ ap (λ us. onto us base) (append_assoc s.yielded s.updates (u ∷ [])) in
      simp hears' (record {
        consistent = c;
        told = inl grown;
        settled = inl grown;
        over_when = rw fresh (sym after);
        phase = inl (open', refl);
      })

  same-Inv :
      (t t' : Ticket A) (s : Subscription A)
      → Inv answered base t s
      → Consistent t'
      → updates_of t'.emitted ≡ updates_of t.emitted
      → terminal t'.status ≡ terminal t.status
      → Inv answered base t' s
  same-Inv t t' s v c same still = record {
    consistent = c;
    told = rw same v.told;
    settled = rw (same, still) v.settled;
    over_when = v.over_when ∙ sym still;
    phase = v.phase;
  }

  does-Inv :
      (t t' : Ticket A) (s : Subscription A)
      → Inv answered base t s
      → Consistent t'
      → Says t t'
      → Inv answered base t' (hears (length (updates_of t.emitted)) (updates_of t'.emitted) s)
  does-Inv t t' s v c (inl (same, still)) =
      rw (same, hears-none (updates_of t.emitted) s) (same-Inv t t' s v c same still)
  does-Inv t t' s v c (inr (u, e, before, after)) =
      rw (e, hears-one u (updates_of t.emitted) s) (on_update-Inv t t' s u v c e before after)

  -- The subscriber is told of the cancellation, then of the update that it answers.
  crossed-Inv :
      (t t2 : Ticket A) (s : Subscription A) (u : TicketUpdate A)
      → answered ≡ true
      → Inv answered base t s
      → Consistent t2
      → updates_of t2.emitted ≡ on_cancelled ∷ u ∷ updates_of t.emitted
      → terminal t.status ≡ false
      → terminal t2.status ≡ true
      → Inv answered base t2 (on_update u (on_update on_cancelled s))
  unfolding on_update
  crossed-Inv t t2 s u a v c e before after =
      let (open', hears') = listens s v.phase (v.over_when ∙ before) in
      let us = s.yielded ++ s.updates in
      simp hears' (record {
        consistent = c;
        told = inr (
          a,
          us,
          u,
          ap (λ ws. s.yielded ++ ws) (append_assoc s.updates (on_cancelled ∷ []) (u ∷ []))
              ∙ sym (append_assoc s.yielded s.updates (on_cancelled ∷ u ∷ [])),
          e
              ∙ ap (λ ws. on_cancelled ∷ u ∷ ws) (in_order t (onto us base) v.settled before)
              ∙ sym (onto-two us u on_cancelled base),
        );
        settled = inr after;
        over_when = ground (arith, after);
        phase = inl (open', refl);
      })

  cancelled-Inv :
      (t t1 t2 : Ticket A) (s : Subscription A) (u : TicketUpdate A)
      → answered ≡ true
      → Inv answered base t s
      → Consistent t2
      → updates_of t1.emitted ≡ u ∷ updates_of t.emitted
      → terminal t.status ≡ false
      → terminal t1.status ≡ ends u
      → SaysCancelled t1 t2
      → Inv answered base t2 (
          hears
            (length (updates_of t.emitted))
            (updates_of t1.emitted)
            (hears (length (updates_of t1.emitted)) (updates_of t2.emitted) s))
  cancelled-Inv t t1 t2 s u a v c e before after (inl (same, still)) =
      rw (same, hears-none (updates_of t1.emitted) s, e, hears-one u (updates_of t.emitted) s)
        (on_update-Inv t t2 s u v c (same ∙ e) before (still ∙ after))
  cancelled-Inv t t1 t2 s u a v c e before after (inr (told, open', over)) =
      rw
        (
          told,
          hears-one on_cancelled (updates_of t1.emitted) s,
          e,
          hears-one u (updates_of t.emitted) (on_update on_cancelled s),
        )
        (crossed-Inv t t2 s u a v c (told ∙ ap (λ us. on_cancelled ∷ us) e) before over)

  interrupt-Inv :
      (t t1 : Ticket A) (s : Subscription A)
      → answered ≡ true
      → Inv answered base t s
      → Consistent t1
      → Says t t1
      → Inv answered base (interrupt t t1 s).0 (interrupt t t1 s).1
  interrupt-Inv t t1 s a v c (inl (same, still)) =
      let quiet : ltb (length (updates_of t.emitted)) (length (updates_of t1.emitted)) ≡ false =
        rw same (ground arith) in
      if-skips (λ (p : Ticket A × Subscription A). Inv answered base p.0 p.1) _ _ quiet
        (same-Inv t t1 s v c same still)
  interrupt-Inv t t1 s a v c (inr (u, e, before, after)) =
      let loud : ltb (length (updates_of t.emitted)) (length (updates_of t1.emitted)) ≡ true =
        rw e (ground arith) in
      if-takes (λ (p : Ticket A × Subscription A). Inv answered base p.0 p.1) _ _ loud
        (cancelled-Inv t t1 (Ticket.step t1 cancels) s u a v (step-Consistent t1 cancels c) e before
          after (cancels-SaysCancelled t1 c))

  open_listening : (s : Subscription A) → s.returned ≡ false → Phase s → s.listening ≡ true
  open_listening s r (inl v) = v.1
  open_listening s r (inr v) = absurd (cc)

  turn-Inv :
      (t : Ticket A) (s : Subscription A) (us : List (TicketUpdate A))
      → s.updates ≡ us
      → s.returned ≡ false
      → Inv answered base t s
      → Inv answered base t (turn s us)
  turn-Inv t s (u ∷ us) e r v =
      let all : s.yielded ++ s.updates ≡ (s.yielded ++ (u ∷ [])) ++ us =
        ap (λ ws. s.yielded ++ ws) e ∙ sym (append_assoc s.yielded (u ∷ []) us) in
      record {
        consistent = v.consistent;
        told = subst (λ ws. Told answered base ws (updates_of t.emitted)) all v.told;
        settled =
            subst (λ ws. (updates_of t.emitted ≡ onto ws base) ⊎ (terminal t.status ≡ true)) all
              v.settled;
        over_when = v.over_when;
        phase = inl (r, open_listening s r v.phase);
      }
  turn-Inv t s [] e r v = elim (Bool-cases s.over) [
    | inl o ↦ simp o (record {
      consistent = v.consistent;
      told = v.told;
      settled = v.settled;
      over_when = sym o ∙ v.over_when;
      phase = inr (refl, refl, e, refl);
    })
    | inr o ↦ simp o (record {
      consistent = v.consistent;
      told = v.told;
      settled = v.settled;
      over_when = sym o ∙ v.over_when;
      phase = inl (r, open_listening s r v.phase);
    })
  ]

  step-Inv :
      (e : Event A) (t : Ticket A) (s : Subscription A)
      → (any_interrupted (e ∷ []) ≡ true → answered ≡ true)
      → Inv answered base t s
      → Inv answered base (step (t, s) e).0 (step (t, s) e).1
  unfolding step pull
  step-Inv (ticket_does op) t s a v =
      does-Inv t (Ticket.step t op) s v (step-Consistent t op v.consistent)
        (step-Says t op v.consistent)
  step-Inv (interrupted op) t s a v =
      interrupt-Inv t (Ticket.step t op) s (a refl) v (step-Consistent t op v.consistent)
        (step-Says t op v.consistent)
  step-Inv pulls t s a v = elim (Bool-cases s.returned) [
    | inl r ↦ if-takes (Inv answered base t) s.returned _ r v
    | inr r ↦ if-skips (Inv answered base t) s.returned _ r (turn-Inv t s s.updates refl r v)
  ]

  pub run-Inv :
      (es : List (Event A)) (t : Ticket A) (s : Subscription A)
      → (any_interrupted es ≡ true → answered ≡ true)
      → Inv answered base t s
      → Inv answered base (run (t, s) es).0 (run (t, s) es).1
  unfolding run
  run-Inv [] t s a v = v
  run-Inv (ticket_does op ∷ es) t s a v =
      run-Inv es (step (t, s) (ticket_does op)).0 (step (t, s) (ticket_does op)).1 a
        (step-Inv (ticket_does op) t s (λ h. absurd (cc)) v)
  run-Inv (interrupted op ∷ es) t s a v =
      run-Inv es (step (t, s) (interrupted op)).0 (step (t, s) (interrupted op)).1 (λ h. a refl)
        (step-Inv (interrupted op) t s a v)
  run-Inv (pulls ∷ es) t s a v =
      run-Inv es (step (t, s) pulls).0 (step (t, s) pulls).1 a
        (step-Inv pulls t s (λ h. absurd (cc)) v)
