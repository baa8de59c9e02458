-- ===== src/Pause/Extend.antt =====
-- A pause after a sequence of pushbacks, against the list of them.
use vereda.Common.{ℕ, ◌+◌, ◌-◌, ◌≡◌, refl, ◌∙◌, min, max, List, [], ◌∷◌, arith}
use vereda.Pause.{PartitionPause, extend, remaining}

-- A host's pushbacks, each with its `Retry-After` and the time it arrives.
abbrev pub extend_all : PartitionPause → List (ℕ × ℕ) → PartitionPause
extend_all p [] = p
extend_all p ((ms, now) ∷ more) = extend_all (extend p ms now) more

-- The latest end that one of the pushbacks asks for, within the limit, and `until` itself.
abbrev pub latest_end : (until max_pause_ms : ℕ) → List (ℕ × ℕ) → ℕ
latest_end u m [] = u
latest_end u m ((ms, now) ∷ more) = max (now + min ms m) (latest_end u m more)

extend_all-fields :
    (p : PartitionPause) (l : List (ℕ × ℕ))
    → ((extend_all p l).max_pause_ms ≡ p.max_pause_ms)
      × ((extend_all p l).until ≡ latest_end p.until p.max_pause_ms l)
unfolding extend
extend_all-fields p [] = (refl, refl)
extend_all-fields p ((ms, now) ∷ more) =
    let ih = extend_all-fields (extend p ms now) more in
    (ih.0, ih.1 ∙ latest_end-max p.until p.max_pause_ms (now + min ms p.max_pause_ms) more)
  where
    latest_end-max :
        (u m e : ℕ) (l : List (ℕ × ℕ)) → latest_end (max u e) m l ≡ max e (latest_end u m l)
    latest_end-max u m e [] = omega arith
    latest_end-max u m e ((a, b) ∷ l) = omega (arith, latest_end-max u m e l)

-- After any sequence of pushbacks the pause ends at the latest end that any of them asked for, cut
-- at `maxPauseMs` from its arrival, and never before the end that already stood; what remains at
-- `now` is the distance to that end.
remaining-extend_all :
    (p : PartitionPause) (l : List (ℕ × ℕ)) (now : ℕ)
    → remaining (extend_all p l) now ≡ latest_end p.until p.max_pause_ms l - now
unfolding remaining
remaining-extend_all p l now = rw ((extend_all-fields p l).1) refl
