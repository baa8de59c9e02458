-- ===== src/Tracing/Steps.antt =====
-- The balance of the spans, and that every handler keeps it.
use vereda.Common.{
  ℕ, ◌+◌, ◌≤◌, ◌<◌, ◌≡◌, refl, none, List, [], ◌∷◌, inl, inr, length, count, count-erase,
  count-includes, includes, Bool-cases, Option-cases, if-either, arith,
}
use vereda.Common.Text.{Text}
use vereda.Errors.{AppError}
use vereda.Lifecycle
use vereda.Lifecycle.{LifecycleEvent}
use vereda.Tracing.{
  Span, Tracing, Attempt, Ended, Op, responded, threw, emits, stops_within, get, set_attribute,
  started, internal, client, add_note, end_span, tell, on_request, on_retry, end_, attempt_starts,
  attempt_settles, stop, vereda_attempts,
}
use vereda.Tracing.Spans.{
  ends_of, within, keys, values, ends-on_span, ends-quiet, ends-start, within-on_span, within-start,
  within-end_each, values-put, keys-put, values-delete, keys-delete-le, ends-end_each,
}

-- How often a span was ended and how many are to end it still.
abbrev pub IsBalanced : ℕ → Tracing → Type 0
IsBalanced i t =
    ends_of i t.spans + (count i (values t.tickets) + count i t.waiting) ≡ within i (length t.spans)

-- The tickets that the requests of a history announce.
abbrev pub announced : List Op → List ℕ
announced [] = []
announced (emits (Lifecycle.request id url method partition) ∷ ops) = id ∷ announced ops
announced (stops_within (Lifecycle.request id url method partition) ∷ ops) = id ∷ announced ops
announced (_ ∷ ops) = announced ops

-- No id is used twice.
abbrev pub AllNew : List ℕ → Type 0
AllNew ids = (id : ℕ) → count id ids ≤ 1

pub record Inv (ids : List ℕ) (t : Tracing) : Type 0 where
  pub apart : (id : ℕ) → count id (keys t.tickets) + count id ids ≤ 1
  pub balanced : (i : ℕ) → IsBalanced i t

pub later : {id : ℕ} {ids : List ℕ} {t : Tracing} → Inv (id ∷ ids) t → Inv ids t
later {id} v = record { apart = λ k. omega (arith, v.apart k); balanced = v.balanced }

in_range :
    (i : ℕ) (t : Tracing)
    → IsBalanced i t
    → 0 < count i (values t.tickets) + count i t.waiting
    → i < length t.spans
in_range i t b h = ground arith

pub on_request-Inv :
    (id : ℕ) (url method partition : Text) (ids : List ℕ) {t : Tracing}
    → Inv (id ∷ ids) t
    → Inv ids (on_request id url method partition t)
unfolding on_request
on_request-Inv id url method partition ids {t} v =
    let fresh : count id (keys t.tickets) ≡ 0 = ground (arith, v.apart id) in
    record {
      apart = λ k. ground (arith, keys-put id (length t.spans) k t.tickets fresh, v.apart k);
      balanced = λ i. omega (
        arith,
        ends-start i t.spans (started _ internal none _) refl,
        values-put id (length t.spans) i t.tickets fresh,
        within-start i t.spans (started _ internal none _),
        v.balanced i,
      );
    }

pub on_retry-Inv :
    (id attempt delay_ms : ℕ) (e : AppError) (ids : List ℕ) {t : Tracing}
    → Inv ids t
    → Inv ids (on_retry id attempt delay_ms e t)
unfolding on_retry
on_retry-Inv id attempt delay_ms e ids {t} v = elim (Option-cases (get id t.tickets)) [
  | inl none' ↦ rw none' v
  | inr (s, found) ↦ rw found (record {
    apart = v.apart;
    balanced = λ i. omega (
      arith,
      ends-quiet (add_note _) (λ r. refl) i s t.spans,
      within-on_span (add_note _) i s t.spans,
      v.balanced i,
    );
  })
]

pub end-Inv :
    (id attempts : ℕ) (finish : Span → Span)
    → ((s : Span) → (finish s).ends ≡ s.ends)
    → (ids : List ℕ) {t : Tracing} → Inv ids t
    → Inv ids (end_ id attempts finish t)
unfolding end_
end-Inv id attempts finish quiet ids {t} v = elim (Option-cases (get id t.tickets)) [
  | inl none' ↦ rw none' v
  | inr (s, found) ↦
      let closing : Span → Span =
        λ span. end_span (finish (set_attribute (vereda_attempts attempts) span)) in
      let held = values-delete id s in
      let here : s < length t.spans =
        in_range s t (v.balanced s) (ground (arith, held s t.tickets found)) in
      rw found (record {
        apart = λ k. omega (arith, keys-delete-le id k t.tickets, v.apart k);
        balanced = λ i. omega (
          arith,
          ends-on_span closing 1
              (λ r. omega (arith, quiet (set_attribute (vereda_attempts attempts) r))) i s t.spans
              here,
          within-on_span closing i s t.spans,
          held i t.tickets found,
          v.balanced i,
        );
      })
]

pub attempt_starts-Inv :
    (ctx : Attempt) (ids : List ℕ) {t : Tracing} → Inv ids t → Inv ids (attempt_starts ctx t)
unfolding attempt_starts
attempt_starts-Inv ctx ids {t} v =
    if-either (Inv ids) t.active
      (record {
        apart = v.apart;
        balanced = λ i. omega (
          arith,
          ends-start i t.spans (started _ client _ _) refl,
          within-start i t.spans (started _ client _ _),
          v.balanced i,
        );
      })
      v

tell-ends : (ended : Ended) (s : Span) → (tell ended s).ends ≡ s.ends
tell-ends (responded status) s = ground arith
tell-ends (threw name) s = refl

pub attempt_settles-Inv :
    (s : ℕ) (ended : Ended) (ids : List ℕ) {t : Tracing}
    → Inv ids t
    → Inv ids (attempt_settles s ended t)
unfolding attempt_settles
attempt_settles-Inv s ended ids {t} v = elim (Bool-cases (includes s t.waiting)) [
  | inl pending ↦
      let closing : Span → Span = λ span. end_span (tell ended span) in
      let here : s < length t.spans =
        in_range s t (v.balanced s) (omega (arith, count-includes s t.waiting pending)) in
      rw pending (record {
        apart = v.apart;
        balanced = λ i. ground (
          arith,
          ends-on_span closing 1 (λ r. omega (arith, tell-ends ended r)) i s t.spans here,
          within-on_span closing i s t.spans,
          count-erase i s t.waiting,
          v.balanced i,
        );
      })
  | inr gone ↦ rw gone v
]

pub stop-Inv : (ids : List ℕ) {t : Tracing} → Inv ids t → Inv ids (stop t)
unfolding stop
stop-Inv ids {t} v = record {
  apart = λ k. omega (arith, v.apart k);
  balanced = λ i. omega (
    arith,
    ends-end_each i t.tickets t.spans (λ j p. in_range j t (v.balanced j) (omega arith)),
    within-end_each i t.tickets t.spans,
    v.balanced i,
  );
}
