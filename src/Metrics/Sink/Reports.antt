-- ===== src/Metrics/Sink/Reports.antt =====
-- What the gauges report, and how often instruments are created.
use vereda.Common.{
  ℕ, ◌≤◌, ◌≡◌, refl, sym, ap, subst, true, some, List, [], ◌∷◌, length, inl, inr, Bool-cases,
  or_default, if◌then◌else◌, arith,
}
use vereda.Common.Text.{Text, text_eq, text_eq_sound}
use vereda.Metrics.{Tags}
use vereda.Metrics.Sink.{Latest, Sink, Call, gauges, tag_key, entry, update}
use vereda.Metrics.Sink.Keys.{Differs}

-- What is reported under a key.
abbrev pub reported : Text → List Latest → List ℕ
reported key [] = []
reported key (l ∷ ls) =
    let rest = reported key ls in if text_eq l.key key then l.value ∷ rest else rest

-- What the gauge of this name reports under a key.
abbrev pub reports : (key name : Text) → Sink → List ℕ
reports key name s = reported key (or_default (entry name s.gauges) [])

-- The last value of a list of calls for the gauge of this name, under a key.
abbrev pub last_value : (Tags → Text) → (key name : Text) → List Call → List ℕ → List ℕ
last_value stringify key name [] before = before
last_value stringify key name (gauges n value tags ∷ cs) before = last_value stringify key name cs (
    if text_eq n name
    then (if text_eq (tag_key stringify tags) key then value ∷ [] else before)
    else before)
last_value stringify key name (_ ∷ cs) before = last_value stringify key name cs before

-- No call sets the gauge of this name for these tags.
abbrev pub Unset : (name : Text) → Tags → List Call → Type 0
Unset name ts [] = Unit {0}
Unset name ts (gauges n value tags ∷ cs) =
    (text_eq n name ≡ true → Differs ts tags) × Unset name ts cs
Unset name ts (_ ∷ cs) = Unset name ts cs

-- Texts that are equal to one text.
text_eq_via : (t u v : Text) → text_eq t v ≡ true → text_eq u v ≡ true → text_eq t u ≡ true
text_eq_via t u v h k = subst (λ w. text_eq t w ≡ true) (sym (text_eq_sound u v k)) h

text_eq_moved : (t u v : Text) → text_eq t u ≡ true → text_eq t v ≡ text_eq u v
text_eq_moved t u v h = ap (λ w. text_eq w v) (text_eq_sound t u h)

pub entry-update :
    (name n : Text) (ls : List Latest) (gs : List (Text × List Latest))
    → entry name (update n ls gs) ≡ (if text_eq n name then some ls else entry name gs)
entry-update name n ls [] = refl
entry-update name n ls ((m, old) ∷ gs) = elim (Bool-cases (text_eq m n)) [
  | inl e ↦ ground (arith, text_eq_moved m n name e)
  | inr e ↦ ground (arith, text_eq_via m n name, entry-update name n ls gs)
]

abbrev OnePerKey : Sink → Type 0
OnePerKey s = (key name : Text) → length (reports key name s) ≤ 1

module _ (stringify : Tags → Text) where
  -- What a call of the sink makes of a gauge's report.
  abbrev told : (key name : Text) → Call → List ℕ → List ℕ
  told key name c before = last_value stringify key name (c ∷ []) before
