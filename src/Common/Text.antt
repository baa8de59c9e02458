-- ===== src/Common/Text.antt =====
-- Texts as lists of code units, for methods and the names of headers and partitions.
-- Of `toUpperCase` and of the case-insensitive comparison of header names the ASCII letters are kept.
use Prim.Native.Nat.{ℕ, ◌+◌, ◌-◌}
use Prim.Native.Char.{code}
use Prim.Native.String.{String}
use mathlib.Core.Path.{◌≡◌, refl}
use mathlib.Core.Bool.{Bool, true, false, ◌&&◌}
use mathlib.Core.Option.{Option, none, some}
use mathlib.Core.List.{List, [], ◌∷◌, map}
use native.Mathlib.Omega.{arith}
use vereda.Common.Tests.{◌==◌, leb, if◌then◌else◌}

abbrev pub Text : Type 0
Text = List ℕ

-- The code units of a literal.
abbrev pub codes : String → Text
codes String.[] = []
codes (String.◌∷◌ c s) = code c ∷ codes s

abbrev pub text_eq : Text → Text → Bool
text_eq [] [] = true
text_eq [] (b ∷ bs) = false
text_eq (a ∷ as') [] = false
text_eq (a ∷ as') (b ∷ bs) = if a == b then text_eq as' bs else false

abbrev pub upper_code : ℕ → ℕ
upper_code c = if leb b'a' c && leb c b'z' then c - 32 else c

abbrev pub lower_code : ℕ → ℕ
lower_code c = if leb b'A' c && leb c b'Z' then c + 32 else c

abbrev pub to_upper_case : Text → Text
to_upper_case = map upper_code

abbrev pub to_lower_case : Text → Text
to_lower_case = map lower_code

-- Whether some text of a list is equal to `t`.
abbrev pub has_text : Text → List Text → Bool
has_text t [] = false
has_text t (u ∷ us) = if text_eq u t then true else has_text t us

-- What follows a literal that the text starts with.
abbrev pub literal : Text → Text → Option Text
literal [] t = some t
literal (c ∷ cs) [] = none
literal (c ∷ cs) (d ∷ t) = let rest = literal cs t in if c == d then rest else none

pub text_eq_refl : (t : Text) → text_eq t t ≡ true
text_eq_refl [] = refl
text_eq_refl (a ∷ as') = ground (arith, text_eq_refl as')

pub text_eq_sound : (t u : Text) → text_eq t u ≡ true → t ≡ u
text_eq_sound [] [] h = refl
text_eq_sound [] (b ∷ bs) h = ground arith
text_eq_sound (a ∷ as') [] h = ground arith
text_eq_sound (a ∷ as') (b ∷ bs) h = ground (arith, text_eq_sound as' bs)
