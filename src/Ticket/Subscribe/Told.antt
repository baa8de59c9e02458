-- ===== src/Ticket/Subscribe/Told.antt =====
-- How what a subscriber was told stands to what the ticket has emitted.
use vereda.Common.{◌≡◌, ◌⊎◌, refl, inl, inr, Bool, true, false, List, [], ◌∷◌, ◌++◌, length, arith}
use vereda.Ticket.{TicketUpdate, on_cancelled, Ticket}
use vereda.Ticket.Lifecycle.{Consistent}
use vereda.Ticket.Subscribe.{Subscription, Event, interrupted, on_update, updates_of, hears}
use vereda.Ticket.Subscribe.Says.{terminal}

-- The entries of a list, one after another, in front of another.
abbrev pub onto {ℓ} : {A : Type ℓ} → List A → List A → List A
onto [] ys = ys
onto (x ∷ xs) ys = onto xs (x ∷ ys)

pub onto-snoc {ℓ} :
    {A : Type ℓ} (xs : List A) (x : A) (ys : List A) → onto (xs ++ (x ∷ [])) ys ≡ x ∷ onto xs ys
onto-snoc [] x ys = refl
onto-snoc (y ∷ xs) x ys = onto-snoc xs x (y ∷ ys)

pub onto-two {ℓ} :
    {A : Type ℓ} (xs : List A) (x y : A) (ys : List A)
    → onto (xs ++ (x ∷ y ∷ [])) ys ≡ y ∷ x ∷ onto xs ys
onto-two [] x y ys = refl
onto-two (z ∷ xs) x y ys = onto-two xs x y (z ∷ ys)

-- Whether a listener before the subscriber's cancels within an emission.
abbrev pub any_interrupted : {A : Type 0} → List (Event A) → Bool
any_interrupted [] = false
any_interrupted (interrupted op ∷ es) = true
any_interrupted (_ ∷ es) = any_interrupted es

-- What was delivered, against the updates that were emitted in addition to `base`: the same, in the same order;
-- or the last two, the update that a listener has answered with a cancellation and the cancellation,
-- have changed places.
abbrev pub Told :
    {A : Type 0} → (answered : Bool) → (base delivered emitted : List (TicketUpdate A)) → Type 0
Told {A} answered base delivered emitted =
    (emitted ≡ onto delivered base)
    ⊎ ((answered ≡ true)
        × (us : List (TicketUpdate A)) × (u : TicketUpdate A) × (delivered
            ≡ us ++ (on_cancelled ∷ u ∷ []))
        × (emitted ≡ onto (us ++ (u ∷ on_cancelled ∷ [])) base))

module _ {A : Type 0} where
  pub hears-none : (us : List (TicketUpdate A)) (s : Subscription A) → hears (length us) us s ≡ s
  hears-none [] s = refl
  hears-none (u ∷ us) s = ground arith

  pub hears-one :
      (u : TicketUpdate A) (us : List (TicketUpdate A)) (s : Subscription A)
      → hears (length us) (u ∷ us) s ≡ on_update u s
  hears-one u us s = ground arith

  abbrev pub Phase : Subscription A → Type 0
  Phase s =
      ((s.returned ≡ false) × (s.listening ≡ true))
      ⊎ ((s.returned ≡ true) × (s.listening ≡ false) × (s.updates ≡ []) × (s.over ≡ true))

  pub record Inv (answered : Bool) (base : List (TicketUpdate A)) (t : Ticket A)
      (s : Subscription A) : Type 0 where
    pub consistent : Consistent t
    pub told : Told answered base (s.yielded ++ s.updates) (updates_of t.emitted)
    pub settled :
        (updates_of t.emitted ≡ onto (s.yielded ++ s.updates) base) ⊎ (terminal t.status ≡ true)
    pub over_when : s.over ≡ terminal t.status
    pub phase : Phase s

  pub listens :
      (s : Subscription A) → Phase s → s.over ≡ false → (s.returned ≡ false) × (s.listening ≡ true)
  listens s (inl v) h = v
  listens s (inr v) h = absurd (cc)

  pub in_order :
      (t : Ticket A) (log : List (TicketUpdate A))
      → (updates_of t.emitted ≡ log) ⊎ (terminal t.status ≡ true)
      → terminal t.status ≡ false
      → updates_of t.emitted ≡ log
  in_order t log (inl e) h = e
  in_order t log (inr e) h = absurd (cc)
