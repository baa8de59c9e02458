-- ===== src/Tracing/Spans.antt =====
-- How often a span has been ended, and the map from tickets to their spans.
use vereda.Common.{
  ℕ, zero, suc, ◌+◌, ◌*◌, ◌≤◌, ◌<◌, ◌≡◌, refl, ap, some, List, [], ◌∷◌, ◌++◌, length, length-append,
  count, ltb, ◌==◌, if◌then◌else◌, arith,
}
use vereda.Tracing.{Span, on_span, end_span, end_each, get, put, delete}

abbrev pub ends_of : ℕ → List Span → ℕ
ends_of i [] = 0
ends_of zero (s ∷ ss) = s.ends
ends_of (suc i) (s ∷ ss) = ends_of i ss

-- Whether `i` is one of the first `n` numbers.
abbrev pub within : ℕ → ℕ → ℕ
within i n = if ltb i n then 1 else 0

abbrev pub same : ℕ → ℕ → ℕ
same s i = if s == i then 1 else 0

abbrev pub keys : List (ℕ × ℕ) → List ℕ
keys [] = []
keys ((k, s) ∷ rest) = k ∷ keys rest

abbrev pub values : List (ℕ × ℕ) → List ℕ
values [] = []
values ((k, s) ∷ rest) = s ∷ values rest

pub length-on_span :
    (f : Span → Span) (n : ℕ) (ss : List Span) → length (on_span f n ss) ≡ length ss
unfolding on_span
length-on_span f n [] = refl
length-on_span f zero (s ∷ ss) = refl
length-on_span f (suc n) (s ∷ ss) = ap suc (length-on_span f n ss)

-- A method that ends a span `k` times.
pub ends-on_span :
    (f : Span → Span) (k : ℕ)
    → ((s : Span) → (f s).ends ≡ s.ends + k)
    → (i n : ℕ) (ss : List Span) → n < length ss
    → ends_of i (on_span f n ss) ≡ ends_of i ss + same n i * k
unfolding on_span
ends-on_span f k e i n [] h = absurd (omega arith)
ends-on_span f k e zero zero (s ∷ ss) h = omega (arith, e s)
ends-on_span f k e (suc i) zero (s ∷ ss) h = ground arith
ends-on_span f k e zero (suc n) (s ∷ ss) h = ground arith
ends-on_span f k e (suc i) (suc n) (s ∷ ss) h =
    ground (arith, ends-on_span f k e i n ss (omega arith))

pub ends-quiet :
    (f : Span → Span)
    → ((s : Span) → (f s).ends ≡ s.ends)
    → (i n : ℕ) (ss : List Span) → ends_of i (on_span f n ss) ≡ ends_of i ss
unfolding on_span
ends-quiet f e i n [] = refl
ends-quiet f e zero zero (s ∷ ss) = e s
ends-quiet f e (suc i) zero (s ∷ ss) = refl
ends-quiet f e zero (suc n) (s ∷ ss) = refl
ends-quiet f e (suc i) (suc n) (s ∷ ss) = ends-quiet f e i n ss

pub ends-start :
    (i : ℕ) (ss : List Span) (s : Span) → s.ends ≡ 0 → ends_of i (ss ++ (s ∷ [])) ≡ ends_of i ss
ends-start zero [] s h = h
ends-start (suc i) [] s h = refl
ends-start zero (r ∷ ss) s h = refl
ends-start (suc i) (r ∷ ss) s h = ends-start i ss s h

pub within-on_span :
    (f : Span → Span) (i n : ℕ) (ss : List Span)
    → within i (length (on_span f n ss)) ≡ within i (length ss)
within-on_span f i n ss = ap (within i) (length-on_span f n ss)

pub within-start :
    (i : ℕ) (ss : List Span) (s : Span)
    → within i (length (ss ++ (s ∷ []))) ≡ within i (length ss) + same (length ss) i
within-start i ss s = rw (length-append ss (s ∷ [])) (ground arith)

-- A key that is new.
module _ (id s : ℕ) where
  pub values-put :
      (i : ℕ) (m : List (ℕ × ℕ))
      → count id (keys m) ≡ 0
      → count i (values (put id s m)) ≡ count i (values m) + same s i
  values-put i [] h = omega arith
  values-put i ((k, v) ∷ m) h = ground (arith, values-put i m)

  pub keys-put :
      (i : ℕ) (m : List (ℕ × ℕ))
      → count id (keys m) ≡ 0
      → count i (keys (put id s m)) ≡ count i (keys m) + same id i
  keys-put i [] h = omega arith
  keys-put i ((k, v) ∷ m) h = ground (arith, keys-put i m)

  pub values-delete :
      (i : ℕ) (m : List (ℕ × ℕ))
      → get id m ≡ some s
      → count i (values (delete id m)) + same s i ≡ count i (values m)
  values-delete i [] h = cc
  values-delete i ((k, v) ∷ m) h = ground (arith, values-delete i m)

pub keys-delete-le : (id i : ℕ) (m : List (ℕ × ℕ)) → count i (keys (delete id m)) ≤ count i (keys m)
keys-delete-le id i [] = omega arith
keys-delete-le id i ((k, v) ∷ m) = ground (arith, keys-delete-le id i m)

pub length-end_each : (m : List (ℕ × ℕ)) (ss : List Span) → length (end_each m ss) ≡ length ss
unfolding end_each
length-end_each [] ss = refl
length-end_each ((k, s) ∷ m) ss =
    omega (arith, length-end_each m (on_span end_span s ss), length-on_span end_span s ss)

pub ends-end_each :
    (i : ℕ) (m : List (ℕ × ℕ)) (ss : List Span)
    → ((j : ℕ) → 0 < count j (values m) → j < length ss)
    → ends_of i (end_each m ss) ≡ ends_of i ss + count i (values m)
unfolding end_each
ends-end_each i [] ss h = omega arith
ends-end_each i ((k, s) ∷ m) ss h =
    let here : s < length ss = h s (ground arith) in
    omega (
      arith,
      ends-end_each i m (on_span end_span s ss)
          (λ j p. rw (length-on_span end_span s ss) (h j (ground arith))),
      ends-on_span end_span 1 (λ r. refl) i s ss here,
    )

pub within-end_each :
    (i : ℕ) (m : List (ℕ × ℕ)) (ss : List Span)
    → within i (length (end_each m ss)) ≡ within i (length ss)
within-end_each i m ss = ap (within i) (length-end_each m ss)
