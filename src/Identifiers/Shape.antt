-- ===== src/Identifiers/Shape.antt =====
-- What the identifiers look like, and how even their characters are.
use vereda.Common.{
  ℕ, zero, suc, ◌+◌, ◌/◌, ◌%◌, ◌<◌, ◌≡◌, refl, ap, subst, Bool-cases, or_default, inl, inr, Bool,
  true, false, List, [], ◌∷◌, length, get_elem?, includes, leb, ◌==◌, ◌&&◌, ◌||◌, if◌then◌else◌,
  arith,
}
use vereda.Common.Text.{Text}
use vereda.Identifiers.{chars, char_of, nanoid, hex_digit, hyphen, uuid_v4}

-- How many of the numbers below `n` have the property.
abbrev pub tally : (ℕ → Bool) → ℕ → ℕ
tally p zero = 0
tally p (suc n) = (if p n then 1 else 0) + tally p n

-- A lower-case hexadecimal digit.
abbrev pub is_hex : ℕ → Bool
is_hex c = (leb 48 c && leb c 57) || (leb 97 c && leb c 102)

-- The places of the hyphens; place 14 holds the version, place 19 the variant.
abbrev pub fits : (i c : ℕ) → Bool
fits i c =
    if includes i (8 ∷ 13 ∷ 18 ∷ 23 ∷ [])
    then c == hyphen
    else if i == 14
    then c == 52
    else if i == 19
    then includes c (56 ∷ 57 ∷ 97 ∷ 98 ∷ [])
    else is_hex c

abbrev pub all_fit : (i : ℕ) → Text → Bool
all_fit i [] = true
all_fit i (c ∷ t) = fits i c && all_fit (suc i) t

eq_of_test : (a b : ℕ) → (a == b) ≡ true → a ≡ b
eq_of_test a b h = ground arith

check_alphabet : List ℕ → Bool
check_alphabet [] = true
check_alphabet (c ∷ cs) = (tally (λ b. char_of b == c) 256 == 4) && check_alphabet cs

even : check_alphabet chars ≡ true
unfolding check_alphabet char_of
even = refl

first : (a b : Bool) → (a && b) ≡ true → a ≡ true
first true b h = refl
first false b h = h

second : (a b : Bool) → (a && b) ≡ true → b ≡ true
second true b h = h
second false b h = absurd (cc)

four : (d : ℕ) (cs : Text) → check_alphabet (d ∷ cs) ≡ true → tally (λ b. char_of b == d) 256 ≡ 4
unfolding check_alphabet
four d cs h =
    eq_of_test (tally (λ b. char_of b == d) 256) 4
      (first (tally (λ b. char_of b == d) 256 == 4) (check_alphabet cs) h)

rest : (d : ℕ) (cs : Text) → check_alphabet (d ∷ cs) ≡ true → check_alphabet cs ≡ true
unfolding check_alphabet
rest d cs h = second (tally (λ b. char_of b == d) 256 == 4) (check_alphabet cs) h

abbrev pub AllBytes : List ℕ → Type 0
AllBytes [] = Unit {0}
AllBytes (b ∷ bs) = (b < 256) × AllBytes bs

check_alphabet_sound :
    (cs : Text) (c : ℕ)
    → check_alphabet cs ≡ true
    → includes c cs ≡ true
    → tally (λ b. char_of b == c) 256 ≡ 4
check_alphabet_sound [] c h i = absurd (cc)
check_alphabet_sound (d ∷ cs) c h i = elim (Bool-cases (d == c)) [
  | inl e ↦ subst (λ x. tally (λ b. char_of b == x) 256 ≡ 4) (eq_of_test d c e) (four d cs h)
  | inr e ↦ check_alphabet_sound cs c (rest d cs h) (ground (arith, i, e))
]

all_below : (ℕ → Bool) → ℕ → Bool
all_below p zero = true
all_below p (suc n) = p n && all_below p n

all_below_sound : (p : ℕ → Bool) (n i : ℕ) → all_below p n ≡ true → i < n → p i ≡ true
unfolding all_below
all_below_sound p zero i h lt = absurd (omega arith)
all_below_sound p (suc n) i h lt = elim (Bool-cases (n == i)) [
  | inl e ↦ subst (λ k. p k ≡ true) (eq_of_test n i e) (first (p n) (all_below p n) h)
  | inr e ↦ all_below_sound p n i (second (p n) (all_below p n) h) (ground (arith, e, lt))
]

each_known : all_below (λ i. includes (or_default (get_elem? chars i) 0) chars) 64 ≡ true
unfolding all_below
each_known = refl

char_of-known : (byte : ℕ) → includes (char_of byte) chars ≡ true
unfolding char_of
char_of-known byte =
    all_below_sound (λ i. includes (or_default (get_elem? chars i) 0) chars) 64 (byte % 64)
      each_known (omega arith)

abbrev pub AllKnown : Text → Type 0
AllKnown [] = Unit {0}
AllKnown (c ∷ t) = (includes c chars ≡ true) × AllKnown t

nanoid-AllKnown : (bytes : List ℕ) → AllKnown (nanoid bytes)
unfolding nanoid
nanoid-AllKnown [] = tt
nanoid-AllKnown (byte ∷ bytes) = (char_of-known byte, nanoid-AllKnown bytes)

length-nanoid : (bytes : List ℕ) → length (nanoid bytes) ≡ length bytes
unfolding nanoid
length-nanoid [] = refl
length-nanoid (byte ∷ bytes) = ap suc (length-nanoid bytes)

-- An id has one character for each random byte, each of them one of the 64 characters, and no character is more
-- likely than another: each of the 64 is the character of exactly four of the 256 bytes.
pub nanoid_lem :
    (bytes : List ℕ) (c : ℕ)
    → includes c chars ≡ true
    → (length (nanoid bytes) ≡ length bytes)
      × AllKnown (nanoid bytes)
      × (tally (λ b. char_of b == c) 256 ≡ 4)
nanoid_lem bytes c h =
    (length-nanoid bytes, nanoid-AllKnown bytes, check_alphabet_sound chars c even h)

and_true : {a b : Bool} → a ≡ true → b ≡ true → (a && b) ≡ true
and_true {a} h k = rw (h, k) refl

hex_high : (b : ℕ) → b < 256 → is_hex (hex_digit (b / 16)) ≡ true
hex_high b h = ground arith

hex_low : (b : ℕ) → is_hex (hex_digit (b % 16)) ≡ true
hex_low b = ground arith

version_digit : (b : ℕ) → (hex_digit ((b % 16 + 64) / 16) == 52) ≡ true
version_digit b = ground arith

variant_digit : (b : ℕ) → includes (hex_digit ((b % 64 + 128) / 16)) (56 ∷ 57 ∷ 97 ∷ 98 ∷ []) ≡ true
variant_digit b = ground arith

-- A version 4 UUID: 36 characters, of which those at 8, 13, 18 and 23 are hyphens, the one at 14 is `4`, the one
-- at 19 is `8`, `9`, `a` or `b`, and all others are lower-case hexadecimal digits, for any 16 bytes.
pub uuid_v4_lem :
    (b0 b1 b2 b3 b4 b5 b6 b7 b8 b9 b10 b11 b12 b13 b14 b15 : ℕ)
    → AllBytes
        (b0 ∷ b1 ∷ b2 ∷ b3 ∷ b4 ∷ b5 ∷ b6 ∷ b7 ∷ b8 ∷ b9 ∷ b10 ∷ b11 ∷ b12 ∷ b13 ∷ b14 ∷ b15 ∷ [])
    → (length (
          uuid_v4 (
            b0 ∷ b1 ∷ b2 ∷ b3 ∷ b4 ∷ b5 ∷ b6 ∷ b7 ∷ b8 ∷ b9 ∷ b10 ∷ b11 ∷ b12 ∷ b13 ∷ b14 ∷ b15
            ∷ []))
        ≡ 36)
      × (all_fit 0 (
            uuid_v4 (
              b0 ∷ b1 ∷ b2 ∷ b3 ∷ b4 ∷ b5 ∷ b6 ∷ b7 ∷ b8 ∷ b9 ∷ b10 ∷ b11 ∷ b12 ∷ b13 ∷ b14 ∷ b15
              ∷ []))
          ≡ true)
unfolding uuid_v4
uuid_v4_lem b0 b1 b2 b3 b4 b5 b6 b7 b8 b9 b10 b11 b12 b13 b14 b15 h = (
  refl,
  and_true (hex_high b0 (omega arith)) (
      and_true (hex_low b0) (
        and_true (hex_high b1 (omega arith)) (
          and_true (hex_low b1) (
            and_true (hex_high b2 (omega arith)) (
              and_true (hex_low b2) (
                and_true (hex_high b3 (omega arith)) (
                  and_true (hex_low b3) (
                    and_true (hex_high b4 (omega arith)) (
                      and_true (hex_low b4) (
                        and_true (hex_high b5 (omega arith)) (
                          and_true (hex_low b5) (
                            and_true (version_digit b6) (
                              and_true (hex_low (b6 % 16 + 64)) (
                                and_true (hex_high b7 (omega arith)) (
                                  and_true (hex_low b7) (
                                    and_true (variant_digit b8) (
                                      and_true (hex_low (b8 % 64 + 128)) (
                                        and_true (hex_high b9 (omega arith)) (
                                          and_true (hex_low b9) (
                                            and_true (hex_high b10 (omega arith)) (
                                              and_true (hex_low b10) (
                                                and_true (hex_high b11 (omega arith)) (
                                                  and_true (hex_low b11) (
                                                    and_true (hex_high b12 (omega arith)) (
                                                      and_true (hex_low b12) (
                                                        and_true (hex_high b13 (omega arith)) (
                                                          and_true (hex_low b13) (
                                                            and_true (hex_high b14 (omega arith)) (
                                                            and_true (hex_low b14) (
                                                            and_true (hex_high b15 (omega arith)) (
                                                            and_true (hex_low b15)
                                                            (refl)))))))))))))))))))))))))))))))),
)
