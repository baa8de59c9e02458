-- ===== src/RetryAfter.antt =====
-- src/queue/executor.ts: parseRetryAfter and parseHttpDate. A header value is a text of code units; the
-- current time and year, and `Date.UTC`, are parameters. The patterns of HTTP_DATES are parsers that
-- take a part off the front of a text.
pub mod Digits
pub mod RoundTrip
mod Examples
use vereda.Common.{
  ℕ, zero, suc, ◌+◌, ◌-◌, ◌*◌, String, Bool, true, false, ◌&&◌, ◌||◌, Option, none, some, List, [],
  ◌∷◌, ltb, leb, ◌==◌, if◌then◌else◌,
}
use vereda.Common.Text.{Text, codes, literal}

-- The code units that `trim` takes away.
abbrev pub is_space : ℕ → Bool
is_space c =
    (leb 9 c && leb c 13)
    || c == 32
    || c == 160
    || c == 5760
    || (leb 8192 c && leb c 8202)
    || c == 8232
    || c == 8233
    || c == 8239
    || c == 8287
    || c == 12288
    || c == 65279

abbrev pub trim_left : Text → Text
trim_left [] = []
trim_left (c ∷ t) = let rest = trim_left t in if is_space c then rest else c ∷ t

abbrev pub keep_end : ℕ → Text → Text
keep_end c [] = if is_space c then [] else c ∷ []
keep_end c (d ∷ t) = c ∷ d ∷ t

abbrev pub trim_right : Text → Text
trim_right [] = []
trim_right (c ∷ t) = keep_end c (trim_right t)

abbrev pub trim : Text → Text
trim t = trim_right (trim_left t)

abbrev pub is_digit : ℕ → Bool
is_digit c = leb 48 c && leb c 57

abbrev pub all_digits : Text → Bool
all_digits [] = true
all_digits (c ∷ t) = is_digit c && all_digits t

-- `/^\d+$/.test(t)`.
abbrev pub is_number : Text → Bool
is_number [] = false
is_number (c ∷ t) = all_digits (c ∷ t)

-- `Number(t)` of a text of digits.
abbrev pub number_from : ℕ → Text → ℕ
number_from n [] = n
number_from n (c ∷ t) = number_from (n * 10 + (c - 48)) t

-- A part of a pattern: its value and the text that follows it.
abbrev pub Part : Type 0 → Type 0
Part A = Text → Option (A × Text)

-- The first alternative of a list of names that the text starts with, by its place.
abbrev pub one_of_from : ℕ → List Text → Part ℕ
one_of_from i [] t = none
one_of_from i (name ∷ names) t = elim (literal name t) [
  | some rest ↦ some (i, rest)
  | none ↦ one_of_from (suc i) names t
]

abbrev pub two_digits : Part ℕ
two_digits (a ∷ b ∷ t) =
    if is_digit a && is_digit b then some ((a - 48) * 10 + (b - 48), t) else none
two_digits (a ∷ []) = none
two_digits [] = none

-- `[ \d]\d`, where a space counts nothing.
abbrev pub padded_digits : Part ℕ
padded_digits (a ∷ b ∷ t) =
    if a == 32 && is_digit b then some (b - 48, t) else two_digits (a ∷ b ∷ t)
padded_digits (a ∷ []) = none
padded_digits [] = none

abbrev pub then_part : {A B : Type 0} → Option A → (A → Option B) → Option B
then_part none f = none
then_part (some a) f = f a

abbrev pub four_digits : Part ℕ
four_digits t =
    then_part (two_digits t) (λ (a, t). then_part (two_digits t) (λ (b, t). some (a * 100 + b, t)))

abbrev pub months : List Text
months =
    codes "Jan"
    ∷ codes "Feb"
    ∷ codes "Mar"
    ∷ codes "Apr"
    ∷ codes "May"
    ∷ codes "Jun"
    ∷ codes "Jul"
    ∷ codes "Aug"
    ∷ codes "Sep"
    ∷ codes "Oct"
    ∷ codes "Nov"
    ∷ codes "Dec"
    ∷ []

abbrev pub short_days : List Text
short_days =
    codes "Mon"
    ∷ codes "Tue"
    ∷ codes "Wed"
    ∷ codes "Thu"
    ∷ codes "Fri"
    ∷ codes "Sat"
    ∷ codes "Sun"
    ∷ []

abbrev pub long_days : List Text
long_days =
    codes "Monday"
    ∷ codes "Tuesday"
    ∷ codes "Wednesday"
    ∷ codes "Thursday"
    ∷ codes "Friday"
    ∷ codes "Saturday"
    ∷ codes "Sunday"
    ∷ []

pub record Time : Type 0 where
  pub h : ℕ
  pub m : ℕ
  pub s : ℕ

abbrev pub time : Part Time
time t = then_part (two_digits t) (λ (h, t). then_part (literal (codes ":") t) (λ t.
    then_part (two_digits t) (λ (m, t).
      then_part (literal (codes ":") t)
        (λ t. then_part (two_digits t) (λ (s, t). some (record { h = h; m = m; s = s }, t))))))

-- The groups of a match; `month` counts from 0.
pub record Groups : Type 0 where
  pub year : ℕ
  pub two_digit_year : Bool
  pub month : ℕ
  pub day : ℕ
  pub time : Time

abbrev pub at_end : {A : Type 0} → A → Text → Option A
at_end a [] = some a
at_end a (c ∷ t) = none

abbrev pub fixdate : Text → Option Groups
fixdate t = then_part (one_of_from 0 short_days t) (λ (w, t).
    then_part (literal (codes ", ") t) (λ t. then_part (two_digits t) (λ (day, t).
      then_part (literal (codes " ") t) (λ t. then_part (one_of_from 0 months t) (λ (month, t).
        then_part (literal (codes " ") t) (λ t. then_part (four_digits t) (λ (year, t).
          then_part (literal (codes " ") t) (λ t. then_part (time t) (λ (at_, t).
            then_part (literal (codes " GMT") t) (λ t.
              at_end
                (record {
                  year = year;
                  two_digit_year = false;
                  month = month;
                  day = day;
                  time = at_;
                })
                t))))))))))

abbrev pub rfc850 : Text → Option Groups
rfc850 t = then_part (one_of_from 0 long_days t) (λ (w, t). then_part (literal (codes ", ") t) (λ t.
    then_part (two_digits t) (λ (day, t). then_part (literal (codes "-") t) (λ t.
      then_part (one_of_from 0 months t) (λ (month, t). then_part (literal (codes "-") t) (λ t.
        then_part (two_digits t) (λ (year, t). then_part (literal (codes " ") t) (λ t.
          then_part (time t) (λ (at_, t). then_part (literal (codes " GMT") t) (λ t.
            at_end
              (record { year = year; two_digit_year = true; month = month; day = day; time = at_ })
              t))))))))))

abbrev pub asctime : Text → Option Groups
asctime t = then_part (one_of_from 0 short_days t) (λ (w, t).
    then_part (literal (codes " ") t) (λ t. then_part (one_of_from 0 months t) (λ (month, t).
      then_part (literal (codes " ") t) (λ t. then_part (padded_digits t) (λ (day, t).
        then_part (literal (codes " ") t) (λ t. then_part (time t) (λ (at_, t).
          then_part (literal (codes " ") t) (λ t. then_part (four_digits t) (λ (year, t).
            at_end
              (record { year = year; two_digit_year = false; month = month; day = day; time = at_ })
              t)))))))))

abbrev pub first_match : List (Option Groups) → Option Groups
first_match [] = none
first_match (some g ∷ rest) = some g
first_match (none ∷ rest) = first_match rest

abbrev pub full_year : (this_year : ℕ) → Groups → ℕ
full_year this_year g =
    if g.two_digit_year
    then (if ltb (this_year + 50) (g.year + 2000) then g.year + 2000 - 100 else g.year + 2000)
    else g.year

-- What the parser reads off its surroundings: the time, the UTC year, and `Date.UTC`.
pub record Clock : Type 0 where
  pub now : ℕ
  pub this_year : ℕ
  pub utc : (year month day : ℕ) → Time → ℕ

unfoldable pub parse_http_date : Clock → Text → Option ℕ
parse_http_date clock value =
    then_part (first_match (fixdate value ∷ rfc850 value ∷ asctime value ∷ []))
      (λ g. some (clock.utc (full_year clock.this_year g) g.month g.day g.time))

-- An absent header is the same as an empty one.
unfoldable pub parse_retry_after : Clock → Text → Option ℕ
parse_retry_after clock header =
    let trimmed = trim header in
    if is_number trimmed
    then some (number_from 0 trimmed * 1000)
    else then_part (parse_http_date clock trimmed) (λ at_. some (at_ - clock.now))
