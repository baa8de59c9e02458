-- ===== src/Metrics/Sink.antt =====
-- src/otel/index.ts: otelMetricsSink and tagKey. What the sink asks of the meter is a log; an instrument
-- is known by its kind and its name. `JSON.stringify` of a list of pairs is a parameter.
pub mod Keys
pub mod Reports
pub mod Created
mod Examples
use vereda.Common.{
  ℕ, Bool, true, false, Option, none, some, List, [], ◌∷◌, ◌++◌, map, ltb, ◌==◌, or_default,
  if◌then◌else◌,
}
use vereda.Common.Text.{Text, text_eq, has_text}
use vereda.Metrics.{Tags}

-- `a < b` on strings.
abbrev pub text_lt : Text → Text → Bool
text_lt [] [] = false
text_lt [] (b ∷ bs) = true
text_lt (a ∷ as') [] = false
text_lt (a ∷ as') (b ∷ bs) =
    let rest = text_lt as' bs in if ltb a b then true else if a == b then rest else false

abbrev pub insert : Text × Text → Tags → Tags
insert x [] = x ∷ []
insert x (y ∷ ys) = let rest = insert x ys in if text_lt y.0 x.0 then y ∷ rest else x ∷ y ∷ ys

-- `sort` is stable: a tag stays before those of its own key.
abbrev pub sort : Tags → Tags
sort [] = []
sort (x ∷ xs) = insert x (sort xs)

unfoldable pub tag_key : (stringify : Tags → Text) → Option Tags → Text
tag_key stringify none = []
tag_key stringify (some tags) = stringify (sort tags)

pub data MeterCall : Type 0 where
  create_counter create_gauge : (name : Text) → MeterCall
  create_histogram : (name : Text) → (in_ms : Bool) → MeterCall
  add record_ : (name : Text) → (value : ℕ) → Option Tags → MeterCall

-- An entry of `latest`: its key, the value and the tags.
pub record Latest : Type 0 where
  pub key : Text
  pub value : ℕ
  pub tags : Option Tags

pub record Sink : Type 0 where
  pub counters : List Text
  pub histograms : List Text
  pub gauges : List (Text × List Latest)

abbrev pub new : Sink
new = record { counters = []; histograms = []; gauges = [] }

-- `name.endsWith("_ms")`.
abbrev pub is_in_ms : Text → Bool
is_in_ms [] = false
is_in_ms (a ∷ t) =
    let rest = is_in_ms t in if text_eq (a ∷ t) (95 ∷ 109 ∷ 115 ∷ []) then true else rest

unfoldable pub counter : Text → ℕ → Option Tags → Sink → Sink × List MeterCall
counter name value tags s =
    if has_text name s.counters
    then (s, add name value tags ∷ [])
    else (record s { counters = name ∷ s.counters }, create_counter name ∷ add name value tags ∷ [])

unfoldable pub histogram : Text → ℕ → Option Tags → Sink → Sink × List MeterCall
histogram name value tags s =
    if has_text name s.histograms then (s, record_ name value tags ∷ []) else (
      record s { histograms = name ∷ s.histograms },
      create_histogram name (is_in_ms name) ∷ record_ name value tags ∷ [],
    )

-- `latest.set(key, [value, tags])`.
abbrev pub set_latest : Latest → List Latest → List Latest
set_latest l [] = l ∷ []
set_latest l (m ∷ ms) =
    let rest = set_latest l ms in if text_eq m.key l.key then l ∷ ms else m ∷ rest

-- `gauges.get(name)`.
abbrev pub entry : Text → List (Text × List Latest) → Option (List Latest)
entry name [] = none
entry name ((n, latest) ∷ gs) =
    let rest = entry name gs in if text_eq n name then some latest else rest

abbrev pub update : Text → List Latest → List (Text × List Latest) → List (Text × List Latest)
update name latest [] = (name, latest) ∷ []
update name latest ((n, old) ∷ gs) =
    let rest = update name latest gs in if text_eq n name then (n, latest) ∷ gs else (n, old) ∷ rest

abbrev pub creating : Text → Option (List Latest) → List MeterCall
creating name none = create_gauge name ∷ []
creating name (some latest) = []

unfoldable pub gauge : (Tags → Text) → Text → ℕ → Option Tags → Sink → Sink × List MeterCall
unfolding tag_key
gauge stringify name value tags s =
    let found = entry name s.gauges in
    let l : Latest = record { key = tag_key stringify tags; value = value; tags = tags } in
    (
      record s { gauges = update name (set_latest l (or_default found [])) s.gauges },
      creating name found,
    )

-- What the callback of a gauge observes.
unfoldable pub observes : Text → Sink → List (ℕ × Option Tags)
observes name s = map (λ l. (l.value, l.tags)) (or_default (entry name s.gauges) [])

pub data Call : Type 0 where
  counts measures gauges : (name : Text) → (value : ℕ) → (tags : Option Tags) → Call

unfoldable pub step : (Tags → Text) → Sink → Call → Sink × List MeterCall
unfolding counter histogram gauge
step stringify s (counts name value tags) = counter name value tags s
step stringify s (measures name value tags) = histogram name value tags s
step stringify s (gauges name value tags) = gauge stringify name value tags s

unfoldable pub run : (Tags → Text) → Sink → List Call → Sink × List MeterCall
unfolding step
run stringify s [] = (s, [])
run stringify s (c ∷ cs) =
    let (s', said) = step stringify s c in
    let (s'', later) = run stringify s' cs in (s'', said ++ later)
