-- ===== src/RetryAfter/RoundTrip.antt =====
-- The values that a server writes in a `Retry-After` header, and what is read of them.
use vereda.Common.{
  ℕ, ◌+◌, ◌-◌, ◌*◌, ◌/◌, ◌%◌, ◌<◌, ◌≡◌, refl, ap, ◌∙◌, false, Option, some, ◌++◌, arith,
}
use vereda.Common.Text.{Text, codes}
use vereda.RetryAfter.{
  then_part, one_of_from, four_digits, months, short_days, Time, time, Groups, fixdate, Clock,
  parse_http_date, parse_retry_after, trim, trim_left, trim_right, is_number,
}
use vereda.RetryAfter.Digits.{
  decimal, padded, two_digits-padded, decimal_on-digits, decimal_on-number, number_from-decimal_on,
  trim-digits, trim_right-append,
}

pub data Weekday : Type 0 where
  mon tue wed thu fri sat sun : Weekday

pub data Month : Type 0 where
  jan feb mar apr may jun jul aug sep oct nov dec : Month

abbrev pub day_name : Weekday → Text
day_name mon = codes "Mon"
day_name tue = codes "Tue"
day_name wed = codes "Wed"
day_name thu = codes "Thu"
day_name fri = codes "Fri"
day_name sat = codes "Sat"
day_name sun = codes "Sun"

abbrev pub day_index : Weekday → ℕ
day_index mon = 0
day_index tue = 1
day_index wed = 2
day_index thu = 3
day_index fri = 4
day_index sat = 5
day_index sun = 6

abbrev pub month_name : Month → Text
month_name jan = codes "Jan"
month_name feb = codes "Feb"
month_name mar = codes "Mar"
month_name apr = codes "Apr"
month_name may = codes "May"
month_name jun = codes "Jun"
month_name jul = codes "Jul"
month_name aug = codes "Aug"
month_name sep = codes "Sep"
month_name oct = codes "Oct"
month_name nov = codes "Nov"
month_name dec = codes "Dec"

abbrev pub month_index : Month → ℕ
month_index jan = 0
month_index feb = 1
month_index mar = 2
month_index apr = 3
month_index may = 4
month_index jun = 5
month_index jul = 6
month_index aug = 7
month_index sep = 8
month_index oct = 9
month_index nov = 10
month_index dec = 11

-- What a server can ask for: a number of seconds, or a date.
pub record Date : Type 0 where
  pub weekday : Weekday
  pub day : ℕ
  pub month : Month
  pub year : ℕ
  pub time : Time

pub data Wait : Type 0 where
  seconds : ℕ → Wait
  until : Date → Wait

abbrev pub four : ℕ → Text
four n = padded (n / 100) ++ padded (n % 100)

abbrev pub print_time : Time → Text → Text
print_time t rest = padded t.h ++ (codes ":" ++ (padded t.m ++ (codes ":" ++ (padded t.s ++ rest))))

-- An IMF-fixdate: `Sun, 06 Nov 1994 08:49:37 GMT`.
abbrev pub print_date : Date → Text
print_date d =
    day_name d.weekday
    ++ (codes ", "
        ++ (padded d.day
            ++ (codes " "
                ++ (month_name d.month
                    ++ (codes " "
                        ++ (four d.year ++ (codes " " ++ print_time d.time (codes " GMT"))))))))

abbrev pub print : Wait → Text
print (seconds n) = decimal n
print (until d) = print_date d

-- The wait in milliseconds.
abbrev pub meaning : Clock → Wait → ℕ
meaning clock (seconds n) = n * 1000
meaning clock (until d) = clock.utc d.year (month_index d.month) d.day d.time - clock.now

-- Fields that fit their digits.
abbrev pub Fits : Wait → Type 0
Fits (seconds n) = Unit {0}
Fits (until d) =
    (d.day < 100) × (d.year < 10000) × (d.time.h < 100) × (d.time.m < 100) × (d.time.s < 100)

one_of-day :
    (w : Weekday) (t : Text) → one_of_from 0 short_days (day_name w ++ t) ≡ some (day_index w, t)
one_of-day mon t = refl
one_of-day tue t = refl
one_of-day wed t = refl
one_of-day thu t = refl
one_of-day fri t = refl
one_of-day sat t = refl
one_of-day sun t = refl

one_of-month :
    (m : Month) (t : Text) → one_of_from 0 months (month_name m ++ t) ≡ some (month_index m, t)
one_of-month jan t = refl
one_of-month feb t = refl
one_of-month mar t = refl
one_of-month apr t = refl
one_of-month may t = refl
one_of-month jun t = refl
one_of-month jul t = refl
one_of-month aug t = refl
one_of-month sep t = refl
one_of-month oct t = refl
one_of-month nov t = refl
one_of-month dec t = refl

then_part-some :
    {A B : Type 0}
    → (o : Option A) (a : A) (f : A → Option B) (r : Option B) → o ≡ some a
    → f a ≡ r
    → then_part o f ≡ r
then_part-some o a f r e h = rw e h

time-printed :
    (t : Time) (rest : Text)
    → t.h < 100
    → t.m < 100
    → t.s < 100
    → time (print_time t rest) ≡ some (t, rest)
time-printed t rest h m s = then_part-some _ _ _ _ (two_digits-padded t.h _ h) (
    then_part-some _ _ _ _ (two_digits-padded t.m _ m)
      (then_part-some _ _ _ _ (two_digits-padded t.s _ s) refl))

four_digits-printed : (n : ℕ) (t : Text) → n < 10000 → four_digits (four n ++ t) ≡ some (n, t)
four_digits-printed n t h =
    let same : n / 100 * 100 + n % 100 ≡ n = omega arith in
    then_part-some _ _ _ _ (two_digits-padded (n / 100) _ (omega (arith, h))) (
      then_part-some _ _ _ _ (two_digits-padded (n % 100) _ (omega arith))
        (ap (λ k. some (k, t)) same))

abbrev groups_of : Date → Groups
groups_of d = record {
  year = d.year;
  two_digit_year = false;
  month = month_index d.month;
  day = d.day;
  time = d.time;
}

fixdate-printed : (d : Date) → Fits (until d) → fixdate (print_date d) ≡ some (groups_of d)
fixdate-printed d (day, year, h, m, s) = then_part-some _ _ _ _ (one_of-day d.weekday _) (
    then_part-some _ _ _ _ (two_digits-padded d.day _ day) (
      then_part-some _ _ _ _ (one_of-month d.month _) (
        then_part-some _ _ _ _ (four_digits-printed d.year _ year)
          (then_part-some _ _ _ _ (time-printed d.time _ h m s) refl))))

trim_left-day : (w : Weekday) (t : Text) → trim_left (day_name w ++ t) ≡ day_name w ++ t
trim_left-day mon t = refl
trim_left-day tue t = refl
trim_left-day wed t = refl
trim_left-day thu t = refl
trim_left-day fri t = refl
trim_left-day sat t = refl
trim_left-day sun t = refl

is_number-day : (w : Weekday) (t : Text) → is_number (day_name w ++ t) ≡ false
is_number-day mon t = refl
is_number-day tue t = refl
is_number-day wed t = refl
is_number-day thu t = refl
is_number-day fri t = refl
is_number-day sat t = refl
is_number-day sun t = refl

trim-print_date : (d : Date) → trim (print_date d) ≡ print_date d
trim-print_date d =
    ap (λ t. trim_right t) (trim_left-day d.weekday _)
    ∙ trim_right-append (day_name d.weekday) _ _ (
        trim_right-append (codes ", " ++ (padded d.day ++ codes " ") ++ month_name d.month) _ _
          refl)

-- What a server writes is read back: a number of seconds as that many thousand milliseconds, and a date
-- in the preferred form (IMF-fixdate), with a year of four digits and each other field of two, as the
-- time from now until then, or 0 when it is past.
pub parse_retry_after-print :
    (clock : Clock) (w : Wait) → Fits w → parse_retry_after clock (print w) ≡ some (meaning clock w)
unfolding parse_retry_after parse_http_date
parse_retry_after-print clock (seconds n) v =
    rw
      (
        trim-digits (decimal n) (decimal_on-digits n n (omega arith)),
        decimal_on-number n n (omega arith),
        number_from-decimal_on n n (omega arith),
      )
      refl
parse_retry_after-print clock (until d) v =
    rw (trim-print_date d, is_number-day d.weekday _, fixdate-printed d v) refl
