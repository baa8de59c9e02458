-- ===== src/Executor/Bytes/Whole.antt =====
-- The bytes of a body do not depend on how the stream cuts them.
use vereda.Common.{
  ℕ, ◌+◌, ◌≡◌, refl, sym, ap, ◌∙◌, false, some, List, [], ◌∷◌, ◌++◌, append-nil, append_assoc,
  length, length-append, arith, inl, inr, Bool-cases, if◌then◌else◌,
}
use vereda.Executor.Bytes.{Bytes, Reading, bytes, zeros, put_at, set_at, collect, fill, read_bytes}

abbrev pub concat : List Bytes → Bytes
concat [] = []
concat (c ∷ cs) = c ++ concat cs

put_at-zeros : (c z : Bytes) → put_at (zeros (length c) ++ z) c ≡ some (c ++ z)
put_at-zeros [] z = refl
put_at-zeros (x ∷ c) z = rw (put_at-zeros c z) refl

zeros-append : (c d : Bytes) → zeros (length (c ++ d)) ≡ zeros (length c) ++ zeros (length d)
zeros-append [] d = refl
zeros-append (x ∷ c) d = ap (λ zs. 0 ∷ zs) (zeros-append c d)

-- A chunk goes where the earlier ones end.
set_at-append :
    (d z c r : Bytes) → put_at z c ≡ some r → set_at (d ++ z) (length d) c ≡ some (d ++ r)
set_at-append [] z c r h = h
set_at-append (x ∷ d) z c r h = rw (set_at-append d z c r h) refl

collect-all :
    (chunks : List Bytes) (len : ℕ) (values : List Bytes)
    → collect chunks len values ≡ (chunks ++ values, len + length (concat values))
collect-all chunks len [] = ground (arith, append-nil chunks)
collect-all chunks len (v ∷ values) =
    let rest : ℕ = length (concat values) in
    let total : len + length v + rest ≡ len + length (v ++ concat values) =
      omega (arith, length-append v (concat values)) in
    let order : (chunks ++ (v ∷ [])) ++ values ≡ chunks ++ (v ∷ values) =
      append_assoc chunks (v ∷ []) values in
    collect-all (chunks ++ (v ∷ [])) (len + length v) values ∙ (λ i. (order i, total i))

fill-placed :
    (bs bs' : Bytes) (offset : ℕ) (c : Bytes) (cs : List Bytes)
    → set_at bs offset c ≡ some bs'
    → fill bs offset (c ∷ cs) ≡ fill bs' (offset + length c) cs
fill-placed bs bs' offset c cs h = ground (arith, h)

fill-concat :
    (d : Bytes) (cs : List Bytes)
    → fill (d ++ zeros (length (concat cs))) (length d) cs ≡ some (d ++ concat cs)
fill-concat d [] = refl
fill-concat d (c ∷ cs) =
    let z : Bytes = zeros (length (concat cs)) in
    let placed : set_at (d ++ zeros (length (c ++ concat cs))) (length d) c ≡ some (d ++ (c ++ z)) =
      set_at-append d (zeros (length (c ++ concat cs))) c (c ++ z)
        (ap (λ b. put_at b c) (zeros-append c (concat cs)) ∙ put_at-zeros c z) in
    fill-placed (d ++ zeros (length (c ++ concat cs))) (d ++ (c ++ z)) (length d) c cs placed
    ∙ rw (sym (append_assoc d c z), sym (length-append d c), sym (append_assoc d c (concat cs)))
        (fill-concat (d ++ c) cs)

-- A body that is read to its end arrives whole, however the stream cuts it into chunks: what readBytes returns
-- is the bytes of the chunks one after another, and no chunk is refused for lack of room, when
-- no read rejects and the signal is not aborted then; without a body it is no bytes.
pub read_bytes-concat :
    (r : Reading)
    → r.breaks ≡ false
    → r.aborted_then ≡ false
    → read_bytes r ≡ bytes (if r.has_body then concat r.chunks else [])
unfolding read_bytes
read_bytes-concat r b a = elim (Bool-cases r.has_body) [
  | inl has ↦ rw (has, b, a, collect-all [] 0 r.chunks) (ground (arith, fill-concat [] r.chunks))
  | inr none' ↦ rw none' refl
]
