-- ===== src/Identifiers.antt =====
-- src/core/nanoid.ts: nanoid and uuidV4. `crypto.getRandomValues` gives the bytes, which are arguments.
pub mod Shape
mod Examples
use vereda.Common.{
  ℕ, zero, suc, ◌+◌, ◌-◌, ◌/◌, ◌%◌, Bool, true, false, Option, none, some, List, [], ◌∷◌, ◌++◌,
  get_elem?, or_default, ltb, ◌==◌, if◌then◌else◌,
}
use vereda.Common.Text.{Text, codes}

abbrev pub chars : Text
chars = codes "ABCDEFGHIJKLMNOPQRSTUVWXYZabcdefghijklmnopqrstuvwxyz0123456789_-"

-- `chars[byte & 63]`.
unfoldable pub char_of : ℕ → ℕ
char_of byte = or_default (get_elem? chars (byte % 64)) 0

unfoldable pub nanoid : (bytes : List ℕ) → Text
unfolding char_of
nanoid [] = []
nanoid (byte ∷ bytes) = char_of byte ∷ nanoid bytes

-- A digit of `toString(16)`.
abbrev pub hex_digit : ℕ → ℕ
hex_digit n = if ltb n 10 then 48 + n else 87 + n

-- `b.toString(16).padStart(2, "0")`, of a byte.
abbrev pub hex : ℕ → Text
hex b = hex_digit (b / 16) ∷ hex_digit (b % 16) ∷ []

-- The version in byte 6 and the variant in byte 8: `(b & 0x0f) | 0x40` and `(b & 0x3f) | 0x80`.
abbrev pub marked : (i byte : ℕ) → ℕ
marked i byte = if i == 6 then byte % 16 + 64 else if i == 8 then byte % 64 + 128 else byte

-- The bytes from number `i` on, as `Array.from(bytes, …).join("")`.
abbrev pub hex_from : (i : ℕ) → List ℕ → Text
hex_from i [] = []
hex_from i (byte ∷ bytes) = hex (marked i byte) ++ hex_from (suc i) bytes

abbrev pub take : ℕ → Text → Text
take zero t = []
take (suc n) [] = []
take (suc n) (c ∷ t) = c ∷ take n t

abbrev pub drop : ℕ → Text → Text
drop zero t = t
drop (suc n) [] = []
drop (suc n) (c ∷ t) = drop n t

abbrev pub hyphen : ℕ
hyphen = 45

-- The five slices, with hyphens between them.
abbrev pub grouped : Text → Text
grouped t =
    take 8 t
    ++ (hyphen
        ∷ (take 4 (drop 8 t)
            ++ (hyphen
                ∷ (take 4 (drop 12 t) ++ (hyphen ∷ (take 4 (drop 16 t) ++ (hyphen ∷ drop 20 t)))))))

unfoldable pub uuid_v4 : (bytes : List ℕ) → Text
uuid_v4 bytes = grouped (hex_from 0 bytes)
