-- ===== src/FaultyFetch.antt =====
-- src/testing/index.ts: the generator mulberry32 and the draws of faultyFetch; its options and what a
-- fault does stand in Options and Faults. A number that `>>> 0` or a bitwise operator brings into 32
-- bits is one below 2^32; a draw is its numerator over 2^32.
pub mod Draws
pub mod Options
pub mod Faults
pub mod Works
mod Examples
use vereda.Common.{
  ℕ, zero, suc, ◌+◌, ◌-◌, ◌*◌, ◌/◌, ◌%◌, ◌^◌, min, Bool, true, false, Option, none, some, List, [],
  ◌∷◌, ltb, not, if◌then◌else◌,
}

abbrev pub word : ℕ
word = 4294967296

-- Bit by bit, on as many bits as the fuel says.
abbrev pub bits_on : (ℕ → ℕ → ℕ) → (fuel a b : ℕ) → ℕ
bits_on op zero a b = 0
bits_on op (suc fuel) a b = op (a % 2) (b % 2) + 2 * bits_on op fuel (a / 2) (b / 2)

abbrev pub xor : ℕ → ℕ → ℕ
xor a b = bits_on (λ x y. (x + y) % 2) 32 a b

abbrev pub bit_or : ℕ → ℕ → ℕ
bit_or a b = bits_on (λ x y. (x + y + x * y) % 2) 32 a b

-- `Math.imul`, up to its sign.
abbrev pub imul : ℕ → ℕ → ℕ
imul a b = a * b % word

abbrev pub mixed : ℕ → ℕ
mixed t = imul (xor t (t / 2 ^ 15)) (bit_or t 1)

abbrev pub mixed_again : ℕ → ℕ
mixed_again t = xor t ((t + imul (xor t (t / 2 ^ 7)) (bit_or t 61)) % word)

abbrev pub output : ℕ → ℕ
output t = xor t (t / 2 ^ 14) % word

abbrev pub next_state : ℕ → ℕ
next_state state = (state + 1831565813) % word

-- The state before draw number `i`.
unfoldable pub state_at : (seed i : ℕ) → ℕ
state_at seed zero = seed % word
state_at seed (suc i) = next_state (state_at seed i)

-- Draw number `i` of the generator.
unfoldable pub mulberry32 : (seed i : ℕ) → ℕ
mulberry32 seed i = output (mixed_again (mixed (next_state (state_at seed i))))

-- A rate from 0 to 1, as a fraction.
pub record Rate : Type 0 where
  pub num : ℕ
  pub den : ℕ

-- What a call of the fetch gets: the number of its fault, if any, and the one it would have got.
pub data Answer : Type 0 where
  not_matched : Answer
  passes faulted : (pick : ℕ) → Answer

abbrev pub pick_of : (draw faults : ℕ) → ℕ
pick_of draw faults = min (draw * faults / word) (faults - 1)

abbrev pub answer : (is_faulted : Bool) → (pick : ℕ) → Answer
answer true pick = faulted pick
answer false pick = passes pick

-- One call: its answer, and how many draws have been taken after it.
unfoldable pub call :
    Rate → (faults : ℕ) → (draws : ℕ → ℕ) → (matches : Bool) → (taken : ℕ) → Answer × ℕ
call rate faults draws matches taken = if not matches then (not_matched, taken) else (
  answer (ltb (draws taken * rate.den) (rate.num * word)) (pick_of (draws (taken + 1)) faults),
  taken + 2,
)

unfoldable pub run : Rate → (faults : ℕ) → (draws : ℕ → ℕ) → (taken : ℕ) → List Bool → List Answer
run rate faults draws taken [] = []
run rate faults draws taken (matches ∷ calls) =
    let (first, taken') = call rate faults draws matches taken in
    first ∷ run rate faults draws taken' calls
