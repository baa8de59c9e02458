-- ===== src/Buckets/Ascending.antt =====
-- Buckets in the order of their starts, as a clock that does not go back leaves them.
use vereda.Common.{ℕ, ◌+◌, ◌≤◌, ◌≡◌, refl, List, [], ◌∷◌, keep, inl, inr, Bool-cases, arith}
use vereda.Buckets.{within, bump_last}

module _ {B : Type 0} (start : B → ℕ) where
  -- The starts rise, from `lo` to `hi` at most.
  abbrev pub Ascending : (lo hi : ℕ) → List B → Type 0
  Ascending lo hi [] = Unit {0}
  Ascending lo hi (b ∷ bs) = (lo ≤ start b) × (start b ≤ hi) × Ascending (start b) hi bs

  Ascending-mono :
      (lo lo' hi hi' : ℕ) (bs : List B)
      → lo ≤ lo'
      → hi' ≤ hi
      → Ascending lo' hi' bs
      → Ascending lo hi bs
  Ascending-mono lo lo' hi hi' [] l h a = tt
  Ascending-mono lo lo' hi hi' (b ∷ bs) l h a = (
    omega (arith, a.0),
    omega (arith, a.1),
    Ascending-mono (start b) (start b) hi hi' bs (omega arith) h a.2,
  )

  -- Where the first bucket is still covered, all are.
  pub keep-all :
      (size now lo hi : ℕ) (bs : List B)
      → now ≤ lo + size
      → Ascending lo hi bs
      → keep (within start size now) bs ≡ bs
  keep-all size now lo hi [] h a = refl
  keep-all size now lo hi (b ∷ bs) h a =
      ground (arith, a.0, keep-all size now (start b) hi bs (omega (arith, a.0)) a.2)

  pub keep-Ascending :
      (size now lo hi : ℕ) (bs : List B)
      → Ascending lo hi bs
      → Ascending lo hi (keep (within start size now) bs)
  keep-Ascending size now lo hi [] a = tt
  keep-Ascending size now lo hi (b ∷ bs) a = elim (Bool-cases (within start size now b)) [
    | inl fresh ↦ rw fresh (a.0, a.1, keep-Ascending size now (start b) hi bs a.2)
    | inr stale ↦ rw stale (
        Ascending-mono lo (start b) hi hi _ a.0 (omega arith)
          (keep-Ascending size now (start b) hi bs a.2))
  ]

  pub bump_last-Ascending :
      (write : B → B) (empty : B) (lo hi : ℕ) (bs : List B)
      → ((b : B) → start (write b) ≡ start b)
      → lo ≤ start empty
      → hi ≤ start empty
      → Ascending lo hi bs
      → Ascending lo (start empty) (bump_last start write empty bs)
  unfolding bump_last
  bump_last-Ascending write empty lo hi [] same l h a =
      (omega (arith, same empty), omega (arith, same empty), tt)
  bump_last-Ascending write empty lo hi (b ∷ []) same l h a =
      ground (arith, same empty, same b, a.0, a.1)
  bump_last-Ascending write empty lo hi (b ∷ c ∷ bs) same l h a = (
    a.0,
    omega (arith, a.1),
    bump_last-Ascending write empty (start b) hi (c ∷ bs) same (omega (arith, a.1)) h a.2,
  )
