-- ===== src/RetryAfter/Examples.antt =====
-- A date, written and read, and values that are none.
use vereda.Common.{◌+◌, ◌*◌, ◌≡◌, refl, none, some, arith}
use vereda.Common.Text.{codes}
use vereda.RetryAfter.{Clock, parse_http_date, parse_retry_after}
use vereda.RetryAfter.RoundTrip.{until, sun, nov, Date, print, meaning, parse_retry_after-print}

-- Seconds of a day, in place of `Date.UTC`.
abbrev clock : Clock
clock = record {
  now = 31000000;
  this_year = 1994;
  utc = λ year month day t. (t.h * 3600 + t.m * 60 + t.s) * 1000;
}

abbrev date : Date
date = record {
  weekday = sun;
  day = 6;
  month = nov;
  year = 1994;
  time = record { h = 8; m = 49; s = 37 };
}

written : print (until date) ≡ codes "Sun, 06 Nov 1994 08:49:37 GMT"
written = refl

seconds_read : parse_retry_after clock (codes " 120 ") ≡ some 120000
unfolding parse_retry_after
seconds_read = refl

asctime_read : parse_retry_after clock (codes "Sun Nov  6 08:49:37 1994") ≡ some 777000
unfolding parse_retry_after parse_http_date
asctime_read = refl

rfc850_read : parse_retry_after clock (codes "Sunday, 06-Nov-94 08:49:37 GMT") ≡ some 777000
unfolding parse_retry_after parse_http_date
rfc850_read = refl

fraction_refused : parse_retry_after clock (codes "1.5") ≡ none
unfolding parse_retry_after parse_http_date
fraction_refused = refl

negative_refused : parse_retry_after clock (codes "-5") ≡ none
unfolding parse_retry_after parse_http_date
negative_refused = refl

parse_retry_after-print_example :
    parse_retry_after clock (print (until date)) ≡ some (meaning clock (until date))
parse_retry_after-print_example =
    parse_retry_after-print clock (until date)
      (ground arith, ground arith, ground arith, ground arith, ground arith)
