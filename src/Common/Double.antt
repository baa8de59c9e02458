-- ===== src/Common/Double.antt =====
-- Doubles, as far as the code computes with them: quotients and products of numbers from 0 on, in the
-- range of a double's exponent. Each operation is rounded to 53 bits, to the nearest and ties to even.
use native.Mathlib.Nat.{one-le-pow, mul-le-mul_right, le_of_mul-le-mul_right}
use vereda.Common.{
  ℕ, zero, suc, ◌+◌, ◌-◌, ◌*◌, ◌/◌, ◌%◌, ◌^◌, Bool, true, false, ◌&&◌, ◌||◌, ltb, leb, ◌==◌,
  if◌then◌else◌, ◌≤◌, ◌<◌, ◌≡◌, refl, sym, inl, inr, Bool-cases, arith,
}

-- `numerator / 2 ^ lift`.
pub record Double : Type 0 where
  pub numerator : ℕ
  pub lift : ℕ

abbrev pub whole : ℕ → Double
whole n = record { numerator = n; lift = 0 }

-- How many binary digits a number below 2^fuel has.
unfoldable bits : (fuel n : ℕ) → ℕ
bits zero n = 0
bits (suc fuel) n = elim (n == 0) [ true ↦ 0 | false ↦ suc (bits fuel (n / 2)) ]

bits-zero : (fuel : ℕ) → bits fuel 0 ≡ 0
unfolding bits
bits-zero zero = refl
bits-zero (suc fuel) = refl

bits-suc : (fuel n : ℕ) → 0 < n → bits (suc fuel) n ≡ suc (bits fuel (n / 2))
unfolding bits
bits-suc fuel n p = ground (arith, p)

-- Enough fuel gives the number of digits: a number from 1 on is below `2 ^ bits`, and its double is not.
bits-lem : (fuel n : ℕ) → n < 2 ^ fuel → 0 < n → (n < 2 ^ bits fuel n) × (2 ^ bits fuel n ≤ 2 * n)
bits-lem zero n h p = absurd (omega (arith, h, p))
bits-lem (suc fuel) n h p = elim (Bool-cases (n / 2 == 0)) [
  | inl e ↦
      let low : n / 2 ≡ 0 = ground (arith, e) in
      rw (bits-suc fuel n p, low, bits-zero fuel) (omega (arith, low, p), omega (arith, p))
  | inr e ↦
      let both = bits-lem fuel (n / 2) (omega (arith, h)) (ground (arith, e)) in
      rw (bits-suc fuel n p) (omega (arith, both.0), omega (arith, both.1))
]

-- Operands have 53 digits, or 54 with a last one of 0, and a product of two at most 108.
abbrev width : ℕ
width = 160

abbrev rounds_up : (q r d : ℕ) → Bool
rounds_up q r d = ltb d (2 * r) || ((2 * r == d) && (q % 2 == 1))

abbrev to_nearest : (n d : ℕ) → ℕ
to_nearest n d = if rounds_up (n / d) (n % d) d then n / d + 1 else n / d

-- The quotient of `n` and `d` is at least 2^52; with one bit more it is halved once.
abbrev scaled : (n d down lift : ℕ) → Double
scaled n d down lift =
    let extra : ℕ = if leb (2 ^ 53) (n / d) then 1 else 0 in
    record { numerator = to_nearest n (d * 2 ^ extra) * 2 ^ (down + extra); lift = lift }

-- `n / d`, divided by `2 ^ lift`.
abbrev nearest : (n d lift : ℕ) → Double
nearest n d lift =
    let up : ℕ = 53 + bits width d - bits width n in
    let down : ℕ = bits width n - (53 + bits width d) in
    scaled (n * 2 ^ up) (d * 2 ^ down) down (up + lift)

unfoldable pub quotient : (n d : ℕ) → Double
unfolding bits
quotient n d = nearest n d 0

unfoldable pub product : Double → Double → Double
unfolding bits
product x y = nearest (x.numerator * y.numerator) 1 (x.lift + y.lift)

-- `x > k`.
abbrev pub exceeds : Double → ℕ → Bool
exceeds x k = ltb (k * 2 ^ x.lift) x.numerator

-- `k >= x`.
abbrev pub reached : ℕ → Double → Bool
reached k x = leb x.numerator (k * 2 ^ x.lift)

-- `Math.max`.
abbrev pub larger : Double → Double → Double
larger x y = if ltb (x.numerator * 2 ^ y.lift) (y.numerator * 2 ^ x.lift) then y else x

power_positive : (k : ℕ) → 0 < 2 ^ k
power_positive k = omega (arith, one-le-pow k 2 (omega arith))

-- With `a / b <= c / d` and `c / d <= r`.
below : (a b c d r : ℕ) → 0 < d → a * d ≤ c * b → c ≤ r * d → a ≤ r * b
below a b c d r p h k =
    let swap : r * d * b ≡ r * b * d = omega arith in
    le_of_mul-le-mul_right (omega (arith, h, mul-le-mul_right b k, swap)) p

left_and : (p q : Bool) → (q ≡ true → p ≡ true) → q ≡ p && q
left_and true q h = refl
left_and false true h = sym (h refl)
left_and false false h = refl

right_and : (p q : Bool) → (p ≡ true → q ≡ true) → p ≡ p && q
right_and true q h = sym (h refl)
right_and false q h = refl

-- A number has reached the larger of two when it has reached both.
pub reached-larger : (r : ℕ) (x y : Double) → reached r (larger x y) ≡ reached r x && reached r y
reached-larger r x y =
    let over = below x.numerator (2 ^ x.lift) y.numerator (2 ^ y.lift) r (power_positive y.lift) in
    let under = below y.numerator (2 ^ y.lift) x.numerator (2 ^ x.lift) r (power_positive x.lift) in
    elim (Bool-cases (ltb (x.numerator * 2 ^ y.lift) (y.numerator * 2 ^ x.lift))) [
      | inl e ↦ rw e (
          left_and (reached r x) (reached r y)
            (λ h. ground (arith, over (ground (arith, e)) (ground (arith, h)))))
      | inr e ↦ rw e (
          right_and (reached r x) (reached r y)
            (λ h. ground (arith, under (ground (arith, e)) (ground (arith, h)))))
    ]
