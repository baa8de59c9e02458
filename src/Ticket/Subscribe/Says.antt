-- ===== src/Ticket/Subscribe/Says.antt =====
-- What an operation of a ticket adds to its updates.
use vereda.Common.{ℕ, ◌≡◌, ◌⊎◌, refl, sym, subst, inl, inr, Bool, true, false, Option, List, ◌∷◌}
use vereda.Ticket
use vereda.Ticket.{
  Result, success, failure, TicketStatus, is_pending, is_queued, is_retrying, is_done, is_cancelled,
  TicketUpdate, on_queued, on_retrying, on_done, on_cancelled, Emitted, update, done_event,
  error_event, Ticket, marks_queued, marks_retrying, marks_done, aborts_signal, cancels,
  mark_queued, mark_retrying, mark_done, abort_signal, cancel, apply_transition, resolve,
  emit_error,
}
use vereda.Ticket.Lifecycle.{Consistent, is_cancellation, ticket}
use vereda.Ticket.Subscribe.{ends, updates_of}

abbrev pub terminal : {A : Type 0} → TicketStatus A → Bool
terminal (is_done r) = true
terminal is_cancelled = true
terminal _ = false

-- What an operation of the ticket adds to its updates.
abbrev pub Says : {A : Type 0} → Ticket A → Ticket A → Type 0
Says {A} t t' =
    ((updates_of t'.emitted ≡ updates_of t.emitted) × (terminal t'.status ≡ terminal t.status))
    ⊎ ((u : TicketUpdate A) × (updates_of t'.emitted ≡ u ∷ updates_of t.emitted)
        × (terminal t.status ≡ false)
        × (terminal t'.status ≡ ends u))

-- What a cancellation adds.
abbrev pub SaysCancelled : {A : Type 0} → Ticket A → Ticket A → Type 0
SaysCancelled t t' =
    ((updates_of t'.emitted ≡ updates_of t.emitted) × (terminal t'.status ≡ terminal t.status))
    ⊎ ((updates_of t'.emitted ≡ on_cancelled ∷ updates_of t.emitted)
        × (terminal t.status ≡ false)
        × (terminal t'.status ≡ true))

module _ {A : Type 0} (a : Bool) (p : Option (Result A)) (es : List (Emitted A)) where
  queued-Says :
      (c : Bool) (s : TicketStatus A) → Says (ticket s c a p es) (mark_queued (ticket s c a p es))
  unfolding mark_queued
  queued-Says c is_pending = inr (on_queued, refl, refl, refl)
  queued-Says c is_queued = inl (refl, refl)
  queued-Says c (is_retrying n) = inl (refl, refl)
  queued-Says c (is_done r) = inl (refl, refl)
  queued-Says c is_cancelled = inl (refl, refl)

  retrying-Says :
      (n d : ℕ) (c : Bool) (s : TicketStatus A)
      → Says (ticket s c a p es) (mark_retrying (ticket s c a p es) n d)
  unfolding mark_retrying
  retrying-Says n d c is_pending = inl (refl, refl)
  retrying-Says n d c is_queued = inr (on_retrying n d, refl, refl, refl)
  retrying-Says n d c (is_retrying k) = inr (on_retrying n d, refl, refl, refl)
  retrying-Says n d c (is_done r) = inl (refl, refl)
  retrying-Says n d c is_cancelled = inl (refl, refl)

  -- A result that is a failure is emitted as an error, too, which is no update.
  result-Says :
      (r : Result A) (c : Bool) (s : TicketStatus A)
      → terminal s ≡ false
      → Says (ticket s c a p es) (
          resolve r
            (emit_error r (ticket (is_done r) c a p (done_event r ∷ update (on_done r) ∷ es))))
  result-Says (success x) c s h = inr (on_done (success x), refl, h, refl)
  result-Says (failure e) c s h = inr (on_done (failure e), refl, h, refl)

  done-Says :
      (r : Result A) (c : Bool) (s : TicketStatus A)
      → Says (ticket s c a p es) (mark_done (ticket s c a p es) r)
  unfolding mark_done
  done-Says r c is_pending = result-Says r c is_pending refl
  done-Says r c is_queued = result-Says r c is_queued refl
  done-Says r c (is_retrying n) = result-Says r c (is_retrying n) refl
  done-Says r c (is_done q) = inl (refl, refl)
  done-Says r c is_cancelled = inl (refl, refl)

  cancel-SaysCancelled :
      (s : TicketStatus A)
      → SaysCancelled
          (ticket s (is_cancellation s) a p es)
          (cancel (ticket s (is_cancellation s) a p es))
  unfolding cancel
  cancel-SaysCancelled is_pending = inr (refl, refl, refl)
  cancel-SaysCancelled is_queued = inr (refl, refl, refl)
  cancel-SaysCancelled (is_retrying n) = inr (refl, refl, refl)
  cancel-SaysCancelled (is_done r) = inl (refl, refl)
  cancel-SaysCancelled is_cancelled = inl (refl, refl)

  flagged-SaysCancelled :
      (c : Bool) (s : TicketStatus A)
      → c ≡ is_cancellation s
      → SaysCancelled (ticket s c a p es) (cancel (ticket s c a p es))
  flagged-SaysCancelled c s h =
      subst (λ k. SaysCancelled (ticket s k a p es) (cancel (ticket s k a p es))) (sym h)
        (cancel-SaysCancelled s)

says : {A : Type 0} (t t' : Ticket A) → SaysCancelled t t' → Says t t'
says t t' (inl v) = inl v
says t t' (inr (e, before, after)) = inr (on_cancelled, e, before, after)

pub cancels-SaysCancelled :
    {A : Type 0} (t : Ticket A) → Consistent t → SaysCancelled t (Ticket.step t cancels)
unfolding Ticket.step
cancels-SaysCancelled t v =
    flagged-SaysCancelled t.signal_aborted t.promise t.emitted t.cancelled_flag t.status v.flagged

pub step-Says :
    {A : Type 0} (t : Ticket A) (op : Ticket.Op A) → Consistent t → Says t (Ticket.step t op)
unfolding Ticket.step abort_signal
step-Says t marks_queued v =
    queued-Says t.signal_aborted t.promise t.emitted t.cancelled_flag t.status
step-Says t (marks_retrying n d) v =
    retrying-Says t.signal_aborted t.promise t.emitted n d t.cancelled_flag t.status
step-Says t (marks_done r) v =
    done-Says t.signal_aborted t.promise t.emitted r t.cancelled_flag t.status
step-Says t aborts_signal v = inl (refl, refl)
step-Says t cancels v = says t (Ticket.step t cancels) (cancels-SaysCancelled t v)
