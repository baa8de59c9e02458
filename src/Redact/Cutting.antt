-- ===== src/Redact/Cutting.antt =====
-- How texts come apart at a mark, and what the parts of a redacted text are.
use vereda.Common.{
  ℕ, ◌≡◌, refl, ap, ◌∙◌, Bool, true, false, not, ◌&&◌, none, some, List, [], ◌∷◌, ◌++◌, inl, inr,
  Option-cases, ◌==◌, arith,
}
use vereda.Common.Text.{Text}
use vereda.Redact.{question_mark, ampersand, cut, split, join, redact_query_values}

-- Whether `c` does not occur.
abbrev pub free : ℕ → Text → Bool
free c [] = true
free c (d ∷ t) = not (d == c) && free c t

pub free-head : (c d : ℕ) (t : Text) → free c (d ∷ t) ≡ true → (d == c) ≡ false
free-head c d t h = ground (arith, h)

pub free-tail : (c d : ℕ) (t : Text) → free c (d ∷ t) ≡ true → free c t ≡ true
free-tail c d t h = ground (arith, h)

pub free-append : (c : ℕ) (t u : Text) → free c t ≡ true → free c u ≡ true → free c (t ++ u) ≡ true
free-append c [] u h k = k
free-append c (d ∷ t) u h k = rw (free-head c d t h, free-append c t u (free-tail c d t h) k) refl

pub cut-free : (c : ℕ) (t : Text) → free c t ≡ true → cut c t ≡ (t, none)
cut-free c [] h = refl
cut-free c (d ∷ t) h = rw (free-head c d t h, cut-free c t (free-tail c d t h)) refl

pub cut-at : (c : ℕ) (t u : Text) → free c t ≡ true → cut c (t ++ (c ∷ u)) ≡ (t, some u)
cut-at c [] u h = ground arith
cut-at c (d ∷ t) u h = rw (free-head c d t h, cut-at c t u (free-tail c d t h)) refl

pub split-free : (t : Text) → free ampersand t ≡ true → split t ≡ (t, [])
split-free [] h = refl
split-free (d ∷ t) h = rw (free-head ampersand d t h, split-free t (free-tail ampersand d t h)) refl

split-at :
    (t u part : Text) (parts : List Text)
    → free ampersand t ≡ true
    → split u ≡ (part, parts)
    → split (t ++ (ampersand ∷ u)) ≡ (t, part ∷ parts)
split-at [] u part parts h e = rw e refl
split-at (d ∷ t) u part parts h e =
    rw (free-head ampersand d t h, split-at t u part parts (free-tail ampersand d t h) e) refl

abbrev pub all_free : ℕ → List Text → Bool
all_free c [] = true
all_free c (t ∷ ts) = free c t && all_free c ts

pub split-join :
    (part : Text) (parts : List Text)
    → free ampersand part ≡ true
    → all_free ampersand parts ≡ true
    → split (join part parts) ≡ (part, parts)
split-join part [] h k = split-free part h
split-join part (next ∷ parts) h k =
    split-at part (join next parts) next parts h
      (split-join next parts (ground (arith, k)) (ground (arith, k)))

pub free-join :
    (c : ℕ) (part : Text) (parts : List Text)
    → (ampersand == c) ≡ false
    → free c part ≡ true
    → all_free c parts ≡ true
    → free c (join part parts) ≡ true
free-join c part [] n h k = h
free-join c part (next ∷ parts) n h k =
    free-append c part (ampersand ∷ join next parts) h
      (rw (n, free-join c next parts n (ground (arith, k)) (ground (arith, k))) refl)

-- A text without `?` is left as it is, also in front of another.
redact_query_values-cons :
    (c : ℕ) (t : Text)
    → (c == question_mark) ≡ false
    → redact_query_values (c ∷ t) ≡ c ∷ redact_query_values t
unfolding redact_query_values
redact_query_values-cons c t h = elim (Option-cases (cut question_mark t).1) [
  | inl e ↦ rw (h, e) refl
  | inr (rest, e) ↦ rw (h, e) refl
]

pub redact_query_values-append :
    (p t : Text)
    → free question_mark p ≡ true
    → redact_query_values (p ++ t) ≡ p ++ redact_query_values t
redact_query_values-append [] t h = refl
redact_query_values-append (c ∷ p) t h =
    redact_query_values-cons c (p ++ t) (free-head question_mark c p h)
    ∙ ap (λ u. c ∷ u) (redact_query_values-append p t (free-tail question_mark c p h))

pub redact_query_values-free : (t : Text) → free question_mark t ≡ true → redact_query_values t ≡ t
unfolding redact_query_values
redact_query_values-free t h = rw (cut-free question_mark t h) refl
