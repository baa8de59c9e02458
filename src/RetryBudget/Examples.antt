-- ===== src/RetryBudget/Examples.antt =====
-- A fifth of the requests, and no less than one retry a second, over a window of one second.
use vereda.Common.{◌≡◌, refl, true, false, List, [], ◌∷◌, some}
use vereda.Common.Double.{product, quotient, reached}
use vereda.RetryBudget.{RetryBudgetConfig, new, allowed}
use vereda.RetryBudget.Admission.{Op, requests, withdraws, answers, spec_answers, answers-new}

abbrev config : RetryBudgetConfig
config = record { scale = 5; ratio = 1; window_ms = 1000; min_retries_per_sec = some 5 }

-- The third withdrawal comes when the window no longer covers the first.
abbrev history : List Op
history = requests 5000 ∷ withdraws 10 ∷ requests 20 ∷ withdraws 30 ∷ withdraws 1500 ∷ []

answers_lem : spec_answers config 0 [] history ≡ true ∷ false ∷ true ∷ []
unfolding product quotient
answers_lem = refl

answers-new_example : answers (new (some config)) 0 history ≡ spec_answers config 0 [] history
answers-new_example = answers-new config history

-- At a ratio of 0.07, a hundred requests grant an eighth retry.
eighth_granted :
    reached 7 (
      allowed
        (record { scale = 100; ratio = 7; window_ms = 1000; min_retries_per_sec = some 0 })
        100)
    ≡ false
unfolding product quotient
eighth_granted = refl
