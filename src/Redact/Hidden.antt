-- ===== src/Redact/Hidden.antt =====
-- URLs by their parts, and what redaction leaves of them.
use vereda.Common.{
  ℕ, ◌≡◌, refl, ap, ◌∙◌, Bool, true, not, ◌&&◌, Option, none, some, List, [], ◌∷◌, ◌++◌, map,
  append_assoc, ◌==◌, arith,
}
use vereda.Common.Text.{Text, codes}
use vereda.Redact.{
  question_mark, hash, ampersand, equals, at_sign, redacted, is_letter, is_scheme_char,
  ends_authority, after_at, hide_at, hide_after_scheme, redact_userinfo, join, with_fragment,
}
use vereda.Redact.Cutting.{free}

pub record Pair : Type 0 where
  pub key : Text
  pub value : Option Text

pub record Url : Type 0 where
  pub scheme_head : ℕ
  pub scheme_tail : Text
  pub userinfo : Option Text
  pub host : Text
  pub path : Text
  pub query : Option (Pair × List Pair)
  pub fragment : Option Text

abbrev pub render_value : (key : Text) → Option Text → Text
render_value key none = key
render_value key (some value) = key ++ (equals ∷ value)

abbrev pub render_pair : Pair → Text
render_pair p = render_value p.key p.value

abbrev pub render_query : Option (Pair × List Pair) → Text
render_query none = []
render_query (some (p, ps)) = question_mark ∷ join (render_pair p) (map render_pair ps)

abbrev pub render_userinfo : Option Text → Text
render_userinfo none = []
render_userinfo (some u) = u ++ (at_sign ∷ [])

abbrev pub render : Url → Text
render u =
    u.scheme_head
    ∷ (u.scheme_tail
        ++ (codes "://"
            ++ (render_userinfo u.userinfo
                ++ (u.host ++ (u.path ++ (render_query u.query ++ with_fragment u.fragment))))))

-- The URL without its secrets.
abbrev pub hide_secret : Option Text → Option Text
hide_secret none = none
hide_secret (some secret) = some redacted

abbrev pub hide_pair : Pair → Pair
hide_pair p = record p { value = hide_secret p.value }

abbrev pub hide_query : Option (Pair × List Pair) → Option (Pair × List Pair)
hide_query none = none
hide_query (some (p, ps)) = some (hide_pair p, map hide_pair ps)

abbrev pub hide : Url → Url
hide u = record {
  scheme_head = u.scheme_head;
  scheme_tail = u.scheme_tail;
  userinfo = hide_secret u.userinfo;
  host = u.host;
  path = u.path;
  query = hide_query u.query;
  fragment = u.fragment;
}

-- Each part is free of the marks that would end it.
abbrev pub every : (ℕ → Bool) → Text → Bool
every p [] = true
every p (c ∷ t) = p c && every p t

abbrev pub in_authority : ℕ → Bool
in_authority c = not (ends_authority c)

abbrev pub in_host : ℕ → Bool
in_host c = not (ends_authority c) && not (c == at_sign)

abbrev pub starts_path : Text → Bool
starts_path [] = true
starts_path (c ∷ t) = c == 47

abbrev pub every_of : {A : Type 0} → (A → Bool) → Option A → Bool
every_of p none = true
every_of p (some a) = p a

abbrev pub good_pair : Pair → Bool
good_pair p =
    free ampersand p.key
    && free hash p.key
    && free equals p.key
    && every_of (λ v. free ampersand v && free hash v) p.value

abbrev pub good_pairs : List Pair → Bool
good_pairs [] = true
good_pairs (p ∷ ps) = good_pair p && good_pairs ps

pub record WellFormed (u : Url) : Type 0 where
  pub letter : is_letter u.scheme_head ≡ true
  pub scheme : every is_scheme_char u.scheme_tail ≡ true
  pub authority : every_of (λ t. every in_authority t) u.userinfo ≡ true
  pub hosts : every in_host u.host ≡ true
  pub slashes : starts_path u.path ≡ true
  pub no_query : free question_mark u.path ≡ true
  pub pairs : every_of (λ q. good_pair q.0 && good_pairs q.1) u.query ≡ true
  pub fragments : every_of (λ t. free question_mark t) u.fragment ≡ true

after_at-host :
    (host t : Text) → every in_host host ≡ true → after_at t ≡ none → after_at (host ++ t) ≡ none
after_at-host [] t h e = e
after_at-host (c ∷ host) t h e = rw (after_at-host host t (ground (arith, h)) e) (ground (arith, h))

after_at-userinfo :
    (u t : Text)
    → every in_authority u ≡ true
    → after_at t ≡ none
    → after_at (u ++ (at_sign ∷ t)) ≡ some t
after_at-userinfo [] t h e = rw e refl
after_at-userinfo (c ∷ u) t h e =
    rw (after_at-userinfo u t (ground (arith, h)) e) (ground (arith, h))

scheme-kept :
    (s t : Text)
    → every is_scheme_char s ≡ true
    → hide_after_scheme (s ++ (codes "://" ++ t)) ≡ s ++ (codes "://" ++ hide_at t (after_at t))
scheme-kept [] t h = refl
scheme-kept (c ∷ s) t h = rw (scheme-kept s t (ground (arith, h))) (ground (arith, h))

after_at-path :
    (path : Text) (q : Option (Pair × List Pair)) (f : Option Text)
    → starts_path path ≡ true
    → after_at (path ++ (render_query q ++ with_fragment f)) ≡ none
after_at-path [] none none h = refl
after_at-path [] none (some f) h = refl
after_at-path [] (some q) f h = refl
after_at-path (c ∷ path) q f h = ground (arith, h)

-- Redaction of the userinfo.
abbrev pub hide_userinfo : Url → Url
hide_userinfo u = record {
  scheme_head = u.scheme_head;
  scheme_tail = u.scheme_tail;
  userinfo = hide_secret u.userinfo;
  host = u.host;
  path = u.path;
  query = u.query;
  fragment = u.fragment;
}

hide_at-userinfo :
    (userinfo : Option Text) (t : Text)
    → every_of (λ u. every in_authority u) userinfo ≡ true
    → after_at t ≡ none
    → hide_at (render_userinfo userinfo ++ t) (after_at (render_userinfo userinfo ++ t))
      ≡ render_userinfo (hide_secret userinfo) ++ t
hide_at-userinfo none t h e = rw e refl
hide_at-userinfo (some u) t h e =
    rw (append_assoc u (at_sign ∷ []) t, after_at-userinfo u t h e) refl

pub redact_userinfo-render :
    (u : Url) → WellFormed u → redact_userinfo (render u) ≡ render (hide_userinfo u)
unfolding redact_userinfo
redact_userinfo-render u v =
    let tail : Text = u.host ++ (u.path ++ (render_query u.query ++ with_fragment u.fragment)) in
    let none_left : after_at tail ≡ none =
      after_at-host u.host _ v.hosts (after_at-path u.path u.query u.fragment v.slashes) in
    rw v.letter (
      ap (λ t. u.scheme_head ∷ t)
        (scheme-kept u.scheme_tail (render_userinfo u.userinfo ++ tail) v.scheme
          ∙ ap (λ t. u.scheme_tail ++ (codes "://" ++ t))
              (hide_at-userinfo u.userinfo tail v.authority none_left)))
