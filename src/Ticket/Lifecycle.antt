-- ===== src/Ticket/Lifecycle.antt =====
-- What listeners and the promise of a ticket see over its whole life.
use vereda.Common.{ℕ, ◌≡◌, refl, ◌∙◌, Bool, true, false, Option, none, some, List, [], ◌∷◌}
use vereda.Errors.{AppError, cancelled_error}
use vereda.Ticket.{
  Result, success, failure, TicketStatus, is_pending, is_queued, is_retrying, is_done, is_cancelled,
  on_queued, on_retrying, on_done, on_cancelled, Emitted, update, done_event, error_event, Ticket,
  new, cancel, mark_queued, mark_retrying, mark_done, abort_signal, Op, marks_queued,
  marks_retrying, marks_done, aborts_signal, cancels, step, run, apply_transition, settle_with,
  resolve, emit_error,
}

-- The result that a status stands for.
abbrev pub result_of : {A : Type 0} → TicketStatus A → Option (Result A)
result_of is_pending = none
result_of is_queued = none
result_of (is_retrying attempt) = none
result_of (is_done r) = some r
result_of is_cancelled = some (failure cancelled_error)

abbrev pub is_cancellation : {A : Type 0} → TicketStatus A → Bool
is_cancellation is_cancelled = true
is_cancellation s = false

-- The payloads of the `done` events, and of the `error` events.
abbrev pub done_events : {A : Type 0} → List (Emitted A) → List (Result A)
done_events [] = []
done_events (done_event r ∷ es) = r ∷ done_events es
done_events (update u ∷ es) = done_events es
done_events (error_event e ∷ es) = done_events es

abbrev pub error_events : {A : Type 0} → List (Emitted A) → List AppError
error_events [] = []
error_events (error_event e ∷ es) = e ∷ error_events es
error_events (update u ∷ es) = error_events es
error_events (done_event r ∷ es) = error_events es

abbrev pub terminal_updates : {A : Type 0} → List (Emitted A) → List (Result A)
terminal_updates [] = []
terminal_updates (update (on_done r) ∷ es) = r ∷ terminal_updates es
terminal_updates (update on_cancelled ∷ es) = failure cancelled_error ∷ terminal_updates es
terminal_updates (update on_queued ∷ es) = terminal_updates es
terminal_updates (update (on_retrying a d) ∷ es) = terminal_updates es
terminal_updates (done_event r ∷ es) = terminal_updates es
terminal_updates (error_event e ∷ es) = terminal_updates es

abbrev pub just_once : {A : Type 0} → Option A → List A
just_once none = []
just_once (some a) = a ∷ []

abbrev pub errors_of : {A : Type 0} → Option (Result A) → List AppError
errors_of none = []
errors_of (some (success a)) = []
errors_of (some (failure e)) = e ∷ []

-- The promise and the three kinds of terminal event all tell the one result of the status.
pub record Consistent {A : Type 0} (t : Ticket A) : Type 0 where
  pub promised : t.promise ≡ result_of t.status
  pub dones : done_events t.emitted ≡ just_once (result_of t.status)
  pub errors : error_events t.emitted ≡ errors_of (result_of t.status)
  pub updates : terminal_updates t.emitted ≡ just_once (result_of t.status)
  pub flagged : t.cancelled_flag ≡ is_cancellation t.status

-- A ticket by its fields.
abbrev pub ticket :
    {A : Type 0}
    → TicketStatus A
    → (cancelled_flag signal_aborted : Bool) → Option (Result A)
    → List (Emitted A)
    → Ticket A
ticket s c a p es = record {
  status = s;
  cancelled_flag = c;
  signal_aborted = a;
  promise = p;
  emitted = es;
}

module _ {A : Type 0} (c a : Bool) (p : Option (Result A)) (es : List (Emitted A)) where
  mark_queued-Consistent :
      (s : TicketStatus A)
      → Consistent (ticket s c a p es)
      → Consistent (mark_queued (ticket s c a p es))
  unfolding mark_queued apply_transition
  mark_queued-Consistent is_pending v = record {
    promised = v.promised;
    dones = v.dones;
    errors = v.errors;
    updates = v.updates;
    flagged = v.flagged;
  }
  mark_queued-Consistent is_queued v = v
  mark_queued-Consistent (is_retrying n) v = v
  mark_queued-Consistent (is_done r) v = v
  mark_queued-Consistent is_cancelled v = v

  mark_retrying-Consistent :
      (attempt delay_ms : ℕ) (s : TicketStatus A)
      → Consistent (ticket s c a p es)
      → Consistent (mark_retrying (ticket s c a p es) attempt delay_ms)
  unfolding mark_retrying apply_transition
  mark_retrying-Consistent n d is_pending v = v
  mark_retrying-Consistent n d is_queued v = record {
    promised = v.promised;
    dones = v.dones;
    errors = v.errors;
    updates = v.updates;
    flagged = v.flagged;
  }
  mark_retrying-Consistent n d (is_retrying k) v = record {
    promised = v.promised;
    dones = v.dones;
    errors = v.errors;
    updates = v.updates;
    flagged = v.flagged;
  }
  mark_retrying-Consistent n d (is_done r) v = v
  mark_retrying-Consistent n d is_cancelled v = v

  to_cancelled :
      (s : TicketStatus A)
      → result_of s ≡ none
      → Consistent (ticket s c a p es)
      → Consistent (
          ticket is_cancelled true true (settle_with (failure cancelled_error) p) (
            error_event cancelled_error
            ∷ done_event (failure cancelled_error)
            ∷ update on_cancelled
            ∷ es))
  to_cancelled s o v = record {
    promised = rw (v.promised, o) refl;
    dones = rw (v.dones, o) refl;
    errors = rw (v.errors, o) refl;
    updates = rw (v.updates, o) refl;
    flagged = refl;
  }

  cancel-Consistent :
      (s : TicketStatus A)
      → Consistent (ticket s c a p es)
      → Consistent (cancel (ticket s c a p es))
  unfolding cancel apply_transition
  cancel-Consistent is_pending v = rw v.flagged (to_cancelled is_pending refl v)
  cancel-Consistent is_queued v = rw v.flagged (to_cancelled is_queued refl v)
  cancel-Consistent (is_retrying n) v = rw v.flagged (to_cancelled (is_retrying n) refl v)
  cancel-Consistent (is_done r) v = rw v.flagged (record {
    promised = v.promised;
    dones = v.dones;
    errors = v.errors;
    updates = v.updates;
    flagged = refl;
  })
  cancel-Consistent is_cancelled v = rw v.flagged (record {
    promised = v.promised;
    dones = v.dones;
    errors = v.errors;
    updates = v.updates;
    flagged = refl;
  })

  to_done :
      (r : Result A) (s : TicketStatus A)
      → result_of s ≡ none
      → is_cancellation s ≡ false
      → Consistent (ticket s c a p es)
      → Consistent (
          resolve r
            (emit_error r (ticket (is_done r) c a p (done_event r ∷ update (on_done r) ∷ es))))
  to_done (success x) s o k v = record {
    promised = rw (v.promised, o) refl;
    dones = rw (v.dones, o) refl;
    errors = rw (v.errors, o) refl;
    updates = rw (v.updates, o) refl;
    flagged = v.flagged ∙ k;
  }
  to_done (failure e) s o k v = record {
    promised = rw (v.promised, o) refl;
    dones = rw (v.dones, o) refl;
    errors = rw (v.errors, o) refl;
    updates = rw (v.updates, o) refl;
    flagged = v.flagged ∙ k;
  }

  mark_done-Consistent :
      (r : Result A) (s : TicketStatus A)
      → Consistent (ticket s c a p es)
      → Consistent (mark_done (ticket s c a p es) r)
  unfolding mark_done apply_transition
  mark_done-Consistent r is_pending v = to_done r is_pending refl refl v
  mark_done-Consistent r is_queued v = to_done r is_queued refl refl v
  mark_done-Consistent r (is_retrying n) v = to_done r (is_retrying n) refl refl v
  mark_done-Consistent r (is_done q) v = v
  mark_done-Consistent r is_cancelled v = v

pub step-Consistent :
    {A : Type 0} → (t : Ticket A) (op : Op A) → Consistent t → Consistent (step t op)
unfolding step abort_signal
step-Consistent t marks_queued v =
    mark_queued-Consistent t.cancelled_flag t.signal_aborted t.promise t.emitted t.status v
step-Consistent t (marks_retrying n d) v =
    mark_retrying-Consistent t.cancelled_flag t.signal_aborted t.promise t.emitted n d t.status v
step-Consistent t (marks_done r) v =
    mark_done-Consistent t.cancelled_flag t.signal_aborted t.promise t.emitted r t.status v
step-Consistent t aborts_signal v = record {
  promised = v.promised;
  dones = v.dones;
  errors = v.errors;
  updates = v.updates;
  flagged = v.flagged;
}
step-Consistent t cancels v =
    cancel-Consistent t.cancelled_flag t.signal_aborted t.promise t.emitted t.status v

pub run-Consistent :
    {A : Type 0} → (t : Ticket A) (ops : List (Op A)) → Consistent t → Consistent (run t ops)
unfolding run
run-Consistent t [] v = v
run-Consistent t (op ∷ ops) v = run-Consistent (step t op) ops (step-Consistent t op v)

-- Whatever the controller and the caller do, in any order: the promise is resolved exactly when the
-- status is terminal, with the result of that status (a CancelledError when it is cancelled); `done`
-- has been emitted exactly once by then and never before, and so has one terminal update, both with
-- that result; `error` has been emitted exactly once if the result is a failure and never otherwise;
-- and the flag of a cancellation is set exactly when the status is cancelled.
pub run-new-Consistent : {A : Type 0} → (ops : List (Op A)) → Consistent (run (new A) ops)
unfolding new
run-new-Consistent {A = A} ops =
    run-Consistent (new A) ops
      (record { promised = refl; dones = refl; errors = refl; updates = refl; flagged = refl })
