-- ===== src/Middleware/Defaults.antt =====
-- Which headers a request goes out with.
use vereda.Common.{
  ◌≤◌, ◌≡◌, refl, ap, Bool, true, false, List, [], ◌∷◌, ◌++◌, append-nil, length, inl, inr,
  Bool-cases, if◌then◌else◌, arith,
}
use vereda.Common.Text.{Text, text_eq, text_eq_sound, to_lower_case}
use vereda.Idempotency.{Headers, is_named, values_of}
use vereda.Middleware.{has, add_missing, default_headers}

abbrev is_some_of {ℓ} : {A : Type ℓ} → List A → Bool
is_some_of [] = false
is_some_of (x ∷ xs) = true

values_of-append :
    (name : Text) (hs ks : Headers)
    → values_of name (hs ++ ks) ≡ values_of name hs ++ values_of name ks
values_of-append name [] ks = refl
values_of-append name (h ∷ hs) ks = ground (arith, values_of-append name hs ks)

-- The values that are there, or the others where none is.
abbrev pub own_or {ℓ} : {A : Type ℓ} → List A → List A → List A
own_or [] ys = ys
own_or (x ∷ xs) ys = x ∷ xs

has-values :
    (key : Text) (hs : Headers) → has key hs ≡ is_some_of (values_of (to_lower_case key) hs)
has-values key [] = refl
has-values key (h ∷ hs) = ground (arith, has-values key hs)

nil_of_le : (t : Text) (ts : List Text) → length (t ∷ ts) ≤ 1 → ts ≡ []
nil_of_le t [] h = refl
nil_of_le t (u ∷ ts) h = absurd (omega arith)

module _ (name : Text) where
  -- An entry of this name gives it a value where it has none; another leaves its values.
  values_of-add :
      (e : Text × Text) (hs : Headers)
      → values_of name (add_missing e hs)
        ≡ (if is_named name e then own_or (values_of name hs) (e.1 ∷ []) else values_of name hs)
  values_of-add (k, v) hs = elim (Bool-cases (text_eq (to_lower_case k) name)) [
    | inl n ↦
        let same : to_lower_case k ≡ name = text_eq_sound (to_lower_case k) name n in
        ground (
          arith,
          n,
          has-values k hs,
          ap (λ t. values_of t hs) same,
          values_of-append name hs ((k, v) ∷ []),
        )
    | inr n ↦
        ground (arith, n, values_of-append name hs ((k, v) ∷ []), append-nil (values_of name hs))
  ]

  -- Default headers fill in what is missing: where the request has a header of this name, however it is written, it keeps
  -- its values, and otherwise it gets the default's, if there is one, when the entries of `new Headers` have each name once.
  pub values_of-default_headers :
      (es hs : Headers)
      → length (values_of name es) ≤ 1
      → values_of name (default_headers es hs) ≡ own_or (values_of name hs) (values_of name es)
  unfolding default_headers
  values_of-default_headers [] hs h = ground arith
  values_of-default_headers (e ∷ es) hs h = ground (
    arith,
    values_of-add e hs,
    values_of-default_headers es (add_missing e hs),
    nil_of_le e.1 (values_of name es),
  )
