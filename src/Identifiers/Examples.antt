-- ===== src/Identifiers/Examples.antt =====
-- The UUID of sixteen bytes, and a nanoid of three.
use vereda.Common.{ℕ, ◌≡◌, ◌==◌, refl, true, List, [], ◌∷◌, length, arith}
use vereda.Common.Text.{codes}
use vereda.Identifiers.{nanoid, char_of, uuid_v4}
use vereda.Identifiers.Shape.{AllKnown, tally, all_fit, nanoid_lem, uuid_v4_lem}

abbrev bytes : List ℕ
bytes = 0 ∷ 17 ∷ 34 ∷ 51 ∷ 68 ∷ 85 ∷ 102 ∷ 119 ∷ 136 ∷ 153 ∷ 170 ∷ 187 ∷ 204 ∷ 221 ∷ 238 ∷ 255 ∷ []

uuid : uuid_v4 bytes ≡ codes "00112233-4455-4677-8899-aabbccddeeff"
unfolding uuid_v4
uuid = refl

id : nanoid (0 ∷ 65 ∷ 255 ∷ []) ≡ codes "AB-"
unfolding nanoid
id = refl

nanoid_lem_example :
    (length (nanoid (0 ∷ 65 ∷ 255 ∷ [])) ≡ 3)
    × AllKnown (nanoid (0 ∷ 65 ∷ 255 ∷ []))
    × (tally (λ b. char_of b == 65) 256 ≡ 4)
nanoid_lem_example = nanoid_lem (0 ∷ 65 ∷ 255 ∷ []) 65 refl

uuid_v4_lem_example : (length (uuid_v4 bytes) ≡ 36) × (all_fit 0 (uuid_v4 bytes) ≡ true)
uuid_v4_lem_example =
    uuid_v4_lem 0 17 34 51 68 85 102 119 136 153 170 187 204 221 238 255 (omega arith)
