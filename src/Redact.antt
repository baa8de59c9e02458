-- ===== src/Redact.antt =====
-- src/core/redact.ts: the URL as it may be logged. A URL is a text of code units; the pattern USERINFO
-- is a function that finds the last `@` of the authority.
pub mod Cutting
pub mod Hidden
pub mod Secrets
mod Examples
use vereda.Common.{
  ℕ, Bool, true, false, ◌&&◌, ◌||◌, Option, none, some, List, [], ◌∷◌, ◌++◌, map, leb, ◌==◌,
  if◌then◌else◌,
}
use vereda.Common.Text.{Text, codes, literal}

abbrev pub question_mark : ℕ
question_mark = 63

abbrev pub hash : ℕ
hash = 35

abbrev pub ampersand : ℕ
ampersand = 38

abbrev pub equals : ℕ
equals = 61

abbrev pub at_sign : ℕ
at_sign = 64

abbrev pub redacted : Text
redacted = codes "[redacted]"

abbrev pub is_letter : ℕ → Bool
is_letter c = (leb 97 c && leb c 122) || (leb 65 c && leb c 90)

-- `[a-zA-Z\d+.-]`.
abbrev pub is_scheme_char : ℕ → Bool
is_scheme_char c = is_letter c || (leb 48 c && leb c 57) || c == 43 || c == 46 || c == 45

-- `/`, `?` or `#`, which end the authority.
abbrev pub ends_authority : ℕ → Bool
ends_authority c = c == 47 || c == question_mark || c == hash

abbrev pub this_at : ℕ → Text → Option Text → Option Text
this_at c t (some rest) = some rest
this_at c t none = if c == at_sign then some t else none

-- What follows the last `@` of the authority: `[^/?#]*@`, which is greedy.
abbrev pub after_at : Text → Option Text
after_at [] = none
after_at (c ∷ t) = let rest = after_at t in if ends_authority c then none else this_at c t rest

abbrev pub hide_at : Text → Option Text → Text
hide_at t none = t
hide_at t (some rest) = redacted ++ (at_sign ∷ rest)

-- `://` and what follows it; any other text is left as it is.
abbrev pub hide_authority : Text → Option Text → Text
hide_authority t none = t
hide_authority t (some rest) = codes "://" ++ hide_at rest (after_at rest)

abbrev pub hide_after_slashes : Text → Text
hide_after_slashes t = hide_authority t (literal (codes "://") t)

-- The rest of the scheme.
abbrev pub hide_after_scheme : Text → Text
hide_after_scheme [] = []
hide_after_scheme (c ∷ t) =
    let rest = hide_after_scheme t in
    if is_scheme_char c then c ∷ rest else hide_after_slashes (c ∷ t)

unfoldable pub redact_userinfo : Text → Text
redact_userinfo [] = []
redact_userinfo (c ∷ t) = if is_letter c then c ∷ hide_after_scheme t else c ∷ t

-- What stands before the first `c`, and what after it.
abbrev pub cut : ℕ → Text → Text × Option Text
cut c [] = ([], none)
cut c (d ∷ t) =
    let (before, after) = cut c t in if d == c then ([], some t) else (d ∷ before, after)

-- `split("&")`, the first part apart from the others.
abbrev pub split : Text → Text × List Text
split [] = ([], [])
split (c ∷ t) =
    let (part, parts) = split t in if c == ampersand then ([], part ∷ parts) else (c ∷ part, parts)

-- `join("&")`.
abbrev pub join : Text → List Text → Text
join part [] = part
join part (next ∷ parts) = part ++ (ampersand ∷ join next parts)

abbrev pub hide_value : Text → (key : Text) → Option Text → Text
hide_value pair key none = pair
hide_value pair key (some value) = key ++ (equals ∷ redacted)

abbrev pub redact_pair : Text → Text
redact_pair pair = let (key, value) = cut equals pair in hide_value pair key value

abbrev pub redact_pairs : Text → Text
redact_pairs query =
    let (part, parts) = split query in join (redact_pair part) (map redact_pair parts)

abbrev pub with_fragment : Option Text → Text
with_fragment none = []
with_fragment (some fragment) = hash ∷ fragment

abbrev pub redact_after : Text → (base : Text) → Option Text → Text
redact_after url base none = url
redact_after url base (some rest) =
    let (query, fragment) = cut hash rest in
    base ++ (question_mark ∷ (redact_pairs query ++ with_fragment fragment))

unfoldable pub redact_query_values : Text → Text
redact_query_values url = let (base, rest) = cut question_mark url in redact_after url base rest

unfoldable pub redact_url : Text → Text
redact_url url = redact_query_values (redact_userinfo url)
