-- ===== src/FaultyFetch/Draws.antt =====
-- What the rate decides, and what it does not.
use vereda.Common.{
  ℕ, ◌+◌, ◌*◌, ◌≤◌, ◌≡◌, refl, Bool, true, false, Option, none, some, List, [], ◌∷◌, ltb, arith,
}
use vereda.FaultyFetch.{
  Rate, Answer, not_matched, passes, faulted, pick_of, answer, word, call, run,
}

-- The fault that a call gets or would have got.
abbrev pub pick : Answer → Option ℕ
pick not_matched = none
pick (passes p) = some p
pick (faulted p) = some p

abbrev pub is_faulted : Answer → Bool
is_faulted (faulted p) = true
is_faulted _ = false

-- `b` has the pick of `a`, and a fault wherever `a` has one.
pub record Follows (a b : Answer) : Type 0 where
  pub same_pick : pick a ≡ pick b
  pub more : is_faulted a ≡ true → is_faulted b ≡ true

abbrev pub AllFollow : List Answer → List Answer → Type 0
AllFollow [] [] = Unit {0}
AllFollow (a ∷ as') (b ∷ bs) = Follows a b × AllFollow as' bs
AllFollow [] (b ∷ bs) = ⊥
AllFollow (a ∷ as') [] = ⊥

answer-Follows : (b c : Bool) (p : ℕ) → (b ≡ true → c ≡ true) → Follows (answer b p) (answer c p)
answer-Follows true true p h = record { same_pick = refl; more = (λ e. e) }
answer-Follows true false p h = record { same_pick = refl; more = (λ e. ground (arith, h refl)) }
answer-Follows false true p h = record { same_pick = refl; more = (λ e. refl) }
answer-Follows false false p h = record { same_pick = refl; more = (λ e. e) }

module _ (den low high faults : ℕ) (draws : ℕ → ℕ) (le : low ≤ high) where
  abbrev rate : ℕ → Rate
  rate num = record { num = num; den = den }

  call-Follows :
      (matches : Bool) (taken : ℕ)
      → Follows
          (call (rate low) faults draws matches taken).0
          (call (rate high) faults draws matches taken).0
        × ((call (rate low) faults draws matches taken).1
            ≡ (call (rate high) faults draws matches taken).1)
  unfolding call
  call-Follows false taken = (record { same_pick = refl; more = (λ e. e) }, refl)
  call-Follows true taken = (
    answer-Follows (ltb (draws taken * den) (low * word)) (ltb (draws taken * den) (high * word))
        (pick_of (draws (taken + 1)) faults) (λ e. ground (arith, e, le)),
    refl,
  )

  -- A higher rate changes nothing but which calls get a fault: with the same draws, every call that got
  -- one still does, and each gets, or would have got, the same one.
  run-AllFollow :
      (taken : ℕ) (calls : List Bool)
      → AllFollow
          (run (rate low) faults draws taken calls)
          (run (rate high) faults draws taken calls)
  unfolding run
  run-AllFollow taken [] = tt
  run-AllFollow taken (matches ∷ calls) =
      let one = call-Follows matches taken in
      (one.0, rw one.1 (run-AllFollow (call (rate high) faults draws matches taken).1 calls))
