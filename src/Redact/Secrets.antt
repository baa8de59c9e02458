-- ===== src/Redact/Secrets.antt =====
-- What is logged of a URL by its parts.
use vereda.Common.{
  ℕ, ◌≡◌, refl, ap, ◌∙◌, Bool, true, false, ◌&&◌, Option, none, some, List, [], ◌∷◌, ◌++◌, map,
  append-nil, ◌==◌, arith,
}
use vereda.Common.Text.{Text, codes}
use vereda.Redact.{
  question_mark, hash, ampersand, equals, is_scheme_char, cut, join, redact_pair, with_fragment,
  redact_query_values, redact_url,
}
use vereda.Redact.Cutting.{
  free, free-append, cut-free, cut-at, split-join, all_free, free-join, redact_query_values-append,
  redact_query_values-free,
}
use vereda.Redact.Hidden.{
  Pair, Url, render_value, render_pair, render_query, render_userinfo, render, hide_secret,
  hide_pair, hide_query, hide, every, in_host, every_of, good_pair, good_pairs, WellFormed,
  redact_userinfo-render,
}

value-redacted :
    (key : Text) (value : Option Text)
    → free equals key ≡ true
    → redact_pair (render_value key value) ≡ render_value key (hide_secret value)
value-redacted key none h = rw (cut-free equals key h) refl
value-redacted key (some v) h = rw (cut-at equals key v h) refl

pairs-redacted :
    (ps : List Pair)
    → good_pairs ps ≡ true
    → map redact_pair (map render_pair ps) ≡ map render_pair (map hide_pair ps)
pairs-redacted [] h = refl
pairs-redacted (p ∷ ps) h =
    rw (value-redacted p.key p.value (ground (arith, h)), pairs-redacted ps (ground (arith, h)))
      refl

value-free :
    (c : ℕ) (key : Text) (value : Option Text)
    → (equals == c) ≡ false
    → free c key ≡ true
    → every_of (λ v. free c v) value ≡ true
    → free c (render_value key value) ≡ true
value-free c key none n h k = h
value-free c key (some v) n h k = free-append c key (equals ∷ v) h (rw (n, k) refl)

good_value :
    (value : Option Text)
    → every_of (λ v. free ampersand v && free hash v) value ≡ true
    → (every_of (λ v. free ampersand v) value ≡ true) × (every_of (λ v. free hash v) value ≡ true)
good_value none h = (refl, refl)
good_value (some v) h = (ground (arith, h), ground (arith, h))

pair-free :
    (p : Pair)
    → good_pair p ≡ true
    → (free ampersand (render_pair p) ≡ true) × (free hash (render_pair p) ≡ true)
pair-free p h =
    let v = good_value p.value (ground (arith, h)) in
    (
      value-free ampersand p.key p.value refl (ground (arith, h)) v.0,
      value-free hash p.key p.value refl (ground (arith, h)) v.1,
    )

pairs-free :
    (ps : List Pair)
    → good_pairs ps ≡ true
    → (all_free ampersand (map render_pair ps) ≡ true) × (all_free hash (map render_pair ps) ≡ true)
pairs-free [] h = (refl, refl)
pairs-free (p ∷ ps) h =
    let v = pair-free p (ground (arith, h)) in
    let w = pairs-free ps (ground (arith, h)) in (rw (v.0, w.0) refl, rw (v.1, w.1) refl)

cut-fragment :
    (t : Text) (f : Option Text) → free hash t ≡ true → cut hash (t ++ with_fragment f) ≡ (t, f)
cut-fragment t none h = rw (append-nil t) (cut-free hash t h)
cut-fragment t (some f) h = cut-at hash t f h

query-redacted :
    (q : Option (Pair × List Pair)) (f : Option Text)
    → every_of (λ q. good_pair q.0 && good_pairs q.1) q ≡ true
    → every_of (λ t. free question_mark t) f ≡ true
    → redact_query_values (render_query q ++ with_fragment f)
      ≡ render_query (hide_query q) ++ with_fragment f
unfolding redact_query_values
query-redacted none none h k = refl
query-redacted none (some f) h k = redact_query_values-free (hash ∷ f) (rw k refl)
query-redacted (some (p, ps)) f h k =
    let v = pair-free p (ground (arith, h)) in
    let w = pairs-free ps (ground (arith, h)) in
    let query : Text = join (render_pair p) (map render_pair ps) in
    rw
      (
        cut-fragment query f (free-join hash (render_pair p) (map render_pair ps) refl v.1 w.1),
        split-join (render_pair p) (map render_pair ps) v.0 w.0,
        value-redacted p.key p.value (ground (arith, h)),
        pairs-redacted ps (ground (arith, h)),
      )
      refl

every-free :
    (p : ℕ → Bool) (t : Text)
    → ((c : ℕ) → p c ≡ true → (c == question_mark) ≡ false)
    → every p t ≡ true
    → free question_mark t ≡ true
every-free p [] k h = refl
every-free p (c ∷ t) k h = rw (k c (ground (arith, h)), every-free p t k (ground (arith, h))) refl

userinfo-free : (u : Option Text) → free question_mark (render_userinfo (hide_secret u)) ≡ true
userinfo-free none = refl
userinfo-free (some u) = refl

-- A URL is logged as the same URL with its secrets replaced: for every URL of a scheme, an optional
-- userinfo, a host, a path, an optional query and an optional fragment, each free of the
-- marks that would end it, and the fragment free of question marks, redaction replaces the userinfo by `[redacted]`, and so the value of each
-- query parameter that has one, and changes nothing else; what is logged does not depend
-- on the secrets.
pub redact_url-render : (u : Url) → WellFormed u → redact_url (render u) ≡ render (hide u)
unfolding redact_url
redact_url-render u v =
    let skip = redact_query_values-append in
    let scheme_free : free question_mark (u.scheme_head ∷ u.scheme_tail) ≡ true =
      every-free (λ c. is_scheme_char c) (u.scheme_head ∷ u.scheme_tail) (λ c h. ground (arith, h))
        (ground (arith, v.letter, v.scheme)) in
    let host_free = every-free in_host u.host (λ c h. ground (arith, h)) v.hosts in
    rw (redact_userinfo-render u v) (
      skip (u.scheme_head ∷ u.scheme_tail) _ scheme_free
      ∙ ap (λ t. u.scheme_head ∷ (u.scheme_tail ++ t))
          (skip (codes "://") _ refl
            ∙ ap (λ t. codes "://" ++ t)
                (skip (render_userinfo (hide_secret u.userinfo)) _ (userinfo-free u.userinfo)
                  ∙ ap (λ t. render_userinfo (hide_secret u.userinfo) ++ t)
                      (skip u.host _ host_free
                        ∙ ap (λ t. u.host ++ t)
                            (skip u.path _ v.no_query
                              ∙ ap (λ t. u.path ++ t)
                                  (query-redacted u.query u.fragment v.pairs v.fragments))))))
