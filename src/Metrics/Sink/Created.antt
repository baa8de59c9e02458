-- ===== src/Metrics/Sink/Created.antt =====
-- Each instrument is created when it is first used, and once.
use vereda.Common.{
  ℕ, ◌+◌, ◌≤◌, ◌≡◌, ap, subst, true, false, Option, none, some, List, [], ◌∷◌, inl, inr, Bool-cases,
  Option-cases, or_default, sum_by, sum_by-append, if◌then◌else◌, arith,
}
use vereda.Common.Text.{Text, text_eq, text_eq_sound, has_text}
use vereda.Metrics.{Tags}
use vereda.Metrics.Sink.{
  Latest, Sink, Call, MeterCall, create_counter, create_histogram, create_gauge, counts, measures,
  gauges, tag_key, set_latest, entry, new, counter, histogram, gauge, step, run,
}
use vereda.Metrics.Sink.Reports.{entry-update}

-- How often a call creates the counter, the histogram or the gauge of a name.
abbrev pub creates_counter : Text → MeterCall → ℕ
creates_counter name (create_counter n) = if text_eq n name then 1 else 0
creates_counter name _ = 0

abbrev pub creates_histogram : Text → MeterCall → ℕ
creates_histogram name (create_histogram n in_ms) = if text_eq n name then 1 else 0
creates_histogram name _ = 0

abbrev pub creates_gauge : Text → MeterCall → ℕ
creates_gauge name (create_gauge n) = if text_eq n name then 1 else 0
creates_gauge name _ = 0

abbrev held : Text → List Text → ℕ
held name ns = if has_text name ns then 1 else 0

abbrev is_some : {A : Type 0} → Option A → ℕ
is_some none = 0
is_some (some a) = 1

-- An operation that keeps count of what it creates.
record Counts (name : Text) (s : Sink) (r : Sink × List MeterCall) : Type 0 where
  counters : sum_by (creates_counter name) r.1 + held name s.counters ≡ held name r.0.counters
  histograms :
      sum_by (creates_histogram name) r.1 + held name s.histograms ≡ held name r.0.histograms
  entries :
      sum_by (creates_gauge name) r.1 + is_some (entry name s.gauges)
      ≡ is_some (entry name r.0.gauges)

has_text_moved :
    (n name : Text) (ns : List Text)
    → has_text n ns ≡ false
    → text_eq n name ≡ true
    → has_text name ns ≡ false
has_text_moved n name ns h e = subst (λ t. has_text t ns ≡ false) (text_eq_sound n name e) h

entry_moved :
    (n name : Text) (s : Sink) → text_eq n name ≡ true → entry n s.gauges ≡ entry name s.gauges
entry_moved n name s e = ap (λ t. entry t s.gauges) (text_eq_sound n name e)

counter-Counts :
    (name n : Text) (value : ℕ) (tags : Option Tags) (s : Sink)
    → Counts name s (counter n value tags s)
unfolding counter
counter-Counts name n value tags s = elim (Bool-cases (has_text n s.counters)) [
  | inl e ↦ ground (arith, e)
  | inr e ↦ ground (arith, e, has_text_moved n name s.counters e)
]

histogram-Counts :
    (name n : Text) (value : ℕ) (tags : Option Tags) (s : Sink)
    → Counts name s (histogram n value tags s)
unfolding histogram
histogram-Counts name n value tags s = elim (Bool-cases (has_text n s.histograms)) [
  | inl e ↦ ground (arith, e)
  | inr e ↦ ground (arith, e, has_text_moved n name s.histograms e)
]

gauge-Counts :
    (stringify : Tags → Text) (name n : Text) (value : ℕ) (tags : Option Tags) (s : Sink)
    → Counts name s (gauge stringify n value tags s)
unfolding gauge
gauge-Counts stringify name n value tags s =
    let l : Latest = record { key = tag_key stringify tags; value = value; tags = tags } in
    let ls : List Latest = set_latest l (or_default (entry n s.gauges) []) in
    elim (Option-cases (entry n s.gauges)) [
      | inl e ↦ ground (arith, e, entry_moved n name s, entry-update name n ls s.gauges)
      | inr (_, e) ↦ ground (arith, e, entry_moved n name s, entry-update name n ls s.gauges)
    ]

step-Counts :
    (stringify : Tags → Text) (name : Text) (c : Call) (s : Sink)
    → Counts name s (step stringify s c)
unfolding step
step-Counts stringify name (counts n value tags) s = counter-Counts name n value tags s
step-Counts stringify name (measures n value tags) s = histogram-Counts name n value tags s
step-Counts stringify name (gauges n value tags) s = gauge-Counts stringify name n value tags s

run-Counts :
    (stringify : Tags → Text) (name : Text) (cs : List Call) (s : Sink)
    → Counts name s (run stringify s cs)
unfolding run
run-Counts stringify name [] s = record {
  counters = omega arith;
  histograms = omega arith;
  entries = omega arith;
}
run-Counts stringify name (c ∷ cs) s =
    let v = step-Counts stringify name c s in
    let r = run-Counts stringify name cs (step stringify s c).0 in
    let add = λ (w : MeterCall → ℕ).
      sum_by-append w (step stringify s c).1 (run stringify (step stringify s c).0 cs).1 in
    record {
      counters = omega (arith, add (creates_counter name), v.counters, r.counters);
      histograms = omega (arith, add (creates_histogram name), v.histograms, r.histograms);
      entries = omega (arith, add (creates_gauge name), v.entries, r.entries);
    }

held-le : (name : Text) (ns : List Text) → held name ns ≤ 1
held-le name ns = ground arith

is_some-le : {A : Type 0} (o : Option A) → is_some o ≤ 1
is_some-le none = omega arith
is_some-le (some a) = omega arith

-- Whatever metrics are recorded, in any order, the meter is asked at most once for a counter, once for a
-- histogram and once for a gauge of each name.
pub run-new-created :
    (stringify : Tags → Text) (cs : List Call) (name : Text)
    → (sum_by (creates_counter name) (run stringify new cs).1 ≤ 1)
      × (sum_by (creates_histogram name) (run stringify new cs).1 ≤ 1)
      × (sum_by (creates_gauge name) (run stringify new cs).1 ≤ 1)
run-new-created stringify cs name =
    let r = run-Counts stringify name cs new in
    let s = (run stringify new cs).0 in
    (
      omega (arith, r.counters, held-le name s.counters),
      omega (arith, r.histograms, held-le name s.histograms),
      omega (arith, r.entries, is_some-le (entry name s.gauges)),
    )
