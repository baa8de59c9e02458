-- ===== src/Emitter/Snapshot.antt =====
-- Which listeners an emission calls.
use vereda.Common.{
  ℕ, ◌≡◌, refl, sym, ap, ◌∙◌, Bool, true, false, List, [], ◌∷◌, ◌++◌, append-nil, append_assoc,
  keep, or_default, inl, inr, Bool-cases, if◌then◌else◌,
}
use vereda.Common.Text.{Text, text_eq, text_eq_refl}
use vereda.Emitter.{Listeners, get, on, Behaviour, Emission, call_each, emit}

call_each-called :
    (behaves : ℕ → Behaviour) (ls : List ℕ) (s : Emission)
    → (call_each behaves ls s).called ≡ s.called ++ ls
call_each-called behaves [] s = sym (append-nil s.called)
call_each-called behaves (l ∷ ls) s =
    call_each-called behaves ls _ ∙ append_assoc s.called (l ∷ []) ls

report_one :
    (b : Bool) (r k : List ℕ) (l : ℕ)
    → (if b then r ++ (l ∷ []) else r) ++ k ≡ r ++ (if b then l ∷ k else k)
report_one true r k l = append_assoc r (l ∷ []) k
report_one false r k l = refl

call_each-reported :
    (behaves : ℕ → Behaviour) (ls : List ℕ) (s : Emission)
    → (call_each behaves ls s).reported ≡ s.reported ++ keep (λ l. (behaves l).throws) ls
call_each-reported behaves [] s = sym (append-nil s.reported)
call_each-reported behaves (l ∷ ls) s =
    call_each-reported behaves ls _
    ∙ report_one (behaves l).throws s.reported (keep (λ l. (behaves l).throws) ls) l

get-on :
    (event : Text) (l : ℕ) (ls : Listeners)
    → or_default (get event (on event l ls)) [] ≡ or_default (get event ls) [] ++ (l ∷ [])
get-on event l [] = rw (text_eq_refl event) refl
get-on event l ((name, list) ∷ rest) = elim (Bool-cases (text_eq name event)) [
  | inl e ↦ rw (e, e) refl
  | inr e ↦ rw (e, e) (get-on event l rest)
]

-- Whatever the listeners do when they are called (register and remove listeners, throw), an emission
-- calls those that were registered for its event when it began, in the order of their
-- registration and as often as they were registered, and reports the error of each one
-- that throws; one that has just been registered is the last to be called.
pub emit-on :
    (behaves : ℕ → Behaviour) (event : Text) (l : ℕ) (ls : Listeners)
    → ((emit behaves event ls).called ≡ or_default (get event ls) [])
      × ((emit behaves event ls).reported
          ≡ keep (λ l. (behaves l).throws) (emit behaves event ls).called)
      × ((emit behaves event (on event l ls)).called ≡ (emit behaves event ls).called ++ (l ∷ []))
unfolding emit
emit-on behaves event l ls =
    let start : Listeners → Emission =
      λ ls. record { listeners = ls; called = []; reported = [] } in
    let called : (ls : Listeners) → (emit behaves event ls).called ≡ or_default (get event ls) [] =
      λ ls. call_each-called behaves (or_default (get event ls) []) (start ls) in
    (
      called ls,
      call_each-reported behaves (or_default (get event ls) []) (start ls)
          ∙ ap (λ xs. keep (λ l. (behaves l).throws) xs) (sym (called ls)),
      called (on event l ls) ∙ get-on event l ls ∙ ap (λ xs. xs ++ (l ∷ [])) (sym (called ls)),
    )
