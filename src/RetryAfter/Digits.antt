-- ===== src/RetryAfter/Digits.antt =====
-- Numbers written in decimal, and what the parts of a pattern read off them.
use vereda.Common.{
  ℕ, zero, suc, ◌+◌, ◌-◌, ◌*◌, ◌/◌, ◌%◌, ◌≤◌, ◌<◌, ◌≡◌, refl, ap, true, false, some, [], ◌∷◌, ◌++◌,
  inl, inr, Bool-cases, ltb, if◌then◌else◌, arith,
}
use vereda.Common.Text.{Text}
use vereda.RetryAfter.{
  is_space, trim_left, keep_end, trim_right, trim, is_digit, all_digits, is_number, number_from,
  two_digits,
}

-- A number in decimal, for which `fuel` is at least the number.
abbrev pub decimal_on : (fuel n : ℕ) → Text
decimal_on zero n = (48 + n) ∷ []
decimal_on (suc fuel) n =
    let more = decimal_on fuel (n / 10) in
    if ltb n 10 then (48 + n) ∷ [] else more ++ ((48 + n % 10) ∷ [])

abbrev pub decimal : ℕ → Text
decimal n = decimal_on n n

-- Two digits, with a leading zero.
abbrev pub padded : ℕ → Text
padded n = (48 + n / 10) ∷ (48 + n % 10) ∷ []

pub two_digits-padded : (n : ℕ) (t : Text) → n < 100 → two_digits (padded n ++ t) ≡ some (n, t)
two_digits-padded n t h =
    let tens : n / 10 < 10 = omega (arith, h) in
    let ones : n % 10 < 10 = omega arith in
    let d1 : is_digit (48 + n / 10) ≡ true = ground (arith, tens) in
    let d0 : is_digit (48 + n % 10) ≡ true = ground (arith, ones) in
    let same : (48 + n / 10 - 48) * 10 + (48 + n % 10 - 48) ≡ n = omega arith in
    rw (d1, d0) (ap (λ k. some (k, t)) same)

number_from-append :
    (n d : ℕ) (t : Text) → number_from n (t ++ (d ∷ [])) ≡ number_from n t * 10 + (d - 48)
number_from-append n d [] = refl
number_from-append n d (c ∷ t) = number_from-append (n * 10 + (c - 48)) d t

all_digits-append :
    (t u : Text) → all_digits t ≡ true → all_digits u ≡ true → all_digits (t ++ u) ≡ true
all_digits-append [] u h k = k
all_digits-append (c ∷ t) u h k = ground (arith, h, all_digits-append t u (ground (arith, h)) k)

pub decimal_on-digits : (fuel n : ℕ) → n ≤ fuel → all_digits (decimal_on fuel n) ≡ true
decimal_on-digits zero n h = ground (arith, h)
decimal_on-digits (suc fuel) n h = elim (Bool-cases (ltb n 10)) [
  | inl e ↦ rw e (ground (arith, e))
  | inr e ↦ rw e (
      all_digits-append (decimal_on fuel (n / 10)) ((48 + n % 10) ∷ [])
        (decimal_on-digits fuel (n / 10) (ground (arith, h, e))) (ground arith))
]

pub number_from-decimal_on : (fuel n : ℕ) → n ≤ fuel → number_from 0 (decimal_on fuel n) ≡ n
number_from-decimal_on zero n h = ground (arith, h)
number_from-decimal_on (suc fuel) n h = elim (Bool-cases (ltb n 10)) [
  | inl e ↦ rw e (ground (arith, e))
  | inr e ↦
      let below : n / 10 ≤ fuel = ground (arith, h, e) in
      rw (e, number_from-append 0 (48 + n % 10) (decimal_on fuel (n / 10)))
        (omega (arith, number_from-decimal_on fuel (n / 10) below))
]

is_number-append :
    (t : Text) (c : ℕ) → all_digits t ≡ true → is_digit c ≡ true → is_number (t ++ (c ∷ [])) ≡ true
is_number-append [] c h k = ground (arith, k)
is_number-append (d ∷ t) c h k = all_digits-append (d ∷ t) (c ∷ []) h (ground (arith, k))

pub decimal_on-number : (fuel n : ℕ) → n ≤ fuel → is_number (decimal_on fuel n) ≡ true
decimal_on-number zero n h = ground (arith, h)
decimal_on-number (suc fuel) n h = elim (Bool-cases (ltb n 10)) [
  | inl e ↦ rw e (ground (arith, e))
  | inr e ↦ rw e (
      is_number-append (decimal_on fuel (n / 10)) (48 + n % 10)
        (decimal_on-digits fuel (n / 10) (ground (arith, h, e))) (ground arith))
]

digit_is_no_space : (c : ℕ) → is_digit c ≡ true → is_space c ≡ false
digit_is_no_space c h = ground (arith, h)

trim_left-digits : (t : Text) → all_digits t ≡ true → trim_left t ≡ t
trim_left-digits [] h = refl
trim_left-digits (c ∷ t) h = rw (digit_is_no_space c (ground (arith, h))) refl

keep_end-digit : (c : ℕ) (t : Text) → is_digit c ≡ true → keep_end c t ≡ c ∷ t
keep_end-digit c [] h = rw (digit_is_no_space c h) refl
keep_end-digit c (d ∷ t) h = refl

trim_right-digits : (t : Text) → all_digits t ≡ true → trim_right t ≡ t
trim_right-digits [] h = refl
trim_right-digits (c ∷ t) h =
    rw (trim_right-digits t (ground (arith, h))) (keep_end-digit c t (ground (arith, h)))

pub trim-digits : (t : Text) → all_digits t ≡ true → trim t ≡ t
trim-digits t h = rw (trim_left-digits t h) (trim_right-digits t h)

keep_end-more : (p : Text) (b c : ℕ) (t : Text) → keep_end b (p ++ (c ∷ t)) ≡ b ∷ (p ++ (c ∷ t))
keep_end-more [] b c t = refl
keep_end-more (x ∷ p) b c t = refl

-- What ends in a letter is not trimmed at its end.
pub trim_right-append :
    (p : Text) (c : ℕ) (t : Text)
    → trim_right (c ∷ t) ≡ c ∷ t
    → trim_right (p ++ (c ∷ t)) ≡ p ++ (c ∷ t)
trim_right-append [] c t h = h
trim_right-append (b ∷ p) c t h = rw (trim_right-append p c t h) (keep_end-more p b c t)
