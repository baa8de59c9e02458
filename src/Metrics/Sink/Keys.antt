-- ===== src/Metrics/Sink/Keys.antt =====
-- The key of a tag set does not depend on the order in which its tags are given, and on all else that
-- they are.
use vereda.Common.{
  ℕ, ◌+◌, ◌≡◌, ◌≢◌, refl, sym, ap, ◌∙◌, true, false, not, ◌&&◌, [], ◌∷◌, Option, none, some, inl,
  inr, Bool-cases, if◌then◌else◌, arith,
}
use vereda.Common.Text.{Text, text_eq, text_eq_sound}
use vereda.Metrics.{Tags}
use vereda.Metrics.Sink.{text_lt, insert, sort, tag_key}

-- The same tags in another order. A tag set has each key once, so what changes places has two keys.
pub data Reordered : Tags → Tags → Type 0 where
  same : {ts : Tags} → Reordered ts ts
  swapped :
      {a b : Text × Text} {ts : Tags}
      → text_eq a.0 b.0 ≡ false
      → Reordered (a ∷ b ∷ ts) (b ∷ a ∷ ts)
  under : {a : Text × Text} {ts us : Tags} → Reordered ts us → Reordered (a ∷ ts) (a ∷ us)
  then_ : {ts us vs : Tags} → Reordered ts us → Reordered us vs → Reordered ts vs

text_lt-total : (a b : Text) → text_eq a b ≡ false → text_lt a b ≡ not (text_lt b a)
text_lt-total [] [] h = absurd (cc)
text_lt-total [] (b ∷ bs) h = refl
text_lt-total (a ∷ as') [] h = refl
text_lt-total (a ∷ as') (b ∷ bs) h = ground (arith, text_lt-total as' bs)

text_lt-between : (y b a : Text) → text_lt y b ≡ false → text_lt y a ≡ true → text_lt b a ≡ true
text_lt-between [] [] a h k = k
text_lt-between [] (b ∷ bs) a h k = absurd (cc)
text_lt-between (y ∷ ys) [] [] h k = absurd (cc)
text_lt-between (y ∷ ys) [] (a ∷ as') h k = refl
text_lt-between (y ∷ ys) (b ∷ bs) [] h k = absurd (cc)
text_lt-between (y ∷ ys) (b ∷ bs) (a ∷ as') h k = ground (arith, text_lt-between ys bs as')

insert-insert :
    (a b : Text × Text) (ts : Tags)
    → text_eq a.0 b.0 ≡ false
    → insert a (insert b ts) ≡ insert b (insert a ts)
insert-insert a b [] h = ground (arith, text_lt-total a.0 b.0 h)
insert-insert a b (y ∷ ts) h = ground (
  arith,
  insert-insert a b ts h,
  text_lt-total a.0 b.0 h,
  text_lt-between y.0 b.0 a.0,
  text_lt-between y.0 a.0 b.0,
)

pub sort-Reordered : {ts us : Tags} → Reordered ts us → sort ts ≡ sort us
sort-Reordered same = refl
sort-Reordered (swapped {a} {b} {ts} h) = insert-insert a b (sort ts) h
sort-Reordered (under {a} r) = ap (insert a) (sort-Reordered r)
sort-Reordered (then_ r s) = sort-Reordered r ∙ sort-Reordered s

pub tag_key-Reordered :
    (stringify : Tags → Text) {ts us : Tags}
    → Reordered ts us
    → tag_key stringify (some ts) ≡ tag_key stringify (some us)
unfolding tag_key
tag_key-Reordered stringify r = ap stringify (sort-Reordered r)

-- How often a tag, its name and value, is in a set.
abbrev pub times : Text × Text → Tags → ℕ
times x [] = 0
times x (y ∷ ys) = (if text_eq x.0 y.0 && text_eq x.1 y.1 then 1 else 0) + times x ys

times-insert : (x y : Text × Text) (ts : Tags) → times x (insert y ts) ≡ times x (y ∷ ts)
times-insert x y [] = refl
times-insert x y (z ∷ ts) = ground (arith, times-insert x y ts)

times-sort : (x : Text × Text) (ts : Tags) → times x (sort ts) ≡ times x ts
times-sort x [] = refl
times-sort x (t ∷ ts) = times-insert x t (sort ts) ∙ omega (arith, times-sort x ts)

-- Tags that are not these, in whatever order.
abbrev pub Differs : Tags → Option Tags → Type 0
Differs ts none = Unit {0}
Differs ts (some us) = (x : Text × Text) × (times x ts ≢ times x us)

-- Different lists of pairs are different JSON, and none is empty.
abbrev pub IsJson : (stringify : Tags → Text) → Type 0
IsJson stringify =
    ((ts us : Tags) → stringify ts ≡ stringify us → ts ≡ us) × ((ts : Tags) → stringify ts ≢ [])

tag_key-apart :
    (stringify : Tags → Text) (ts : Tags) (tags : Option Tags)
    → IsJson stringify
    → Differs ts tags
    → tag_key stringify tags ≢ tag_key stringify (some ts)
unfolding tag_key
tag_key-apart stringify ts none json d e = json.1 (sort ts) (sym e)
tag_key-apart stringify ts (some us) json (x, d) e =
    d (sym (times-sort x ts) ∙ ap (times x) (sym (json.0 (sort us) (sort ts) e)) ∙ times-sort x us)

pub tag_key-Differs :
    (stringify : Tags → Text) (ts : Tags) (tags : Option Tags)
    → IsJson stringify
    → Differs ts tags
    → text_eq (tag_key stringify tags) (tag_key stringify (some ts)) ≡ false
tag_key-Differs stringify ts tags json d =
    elim (Bool-cases (text_eq (tag_key stringify tags) (tag_key stringify (some ts)))) [
      | inl e ↦ absurd (tag_key-apart stringify ts tags json d (text_eq_sound _ _ e))
      | inr e ↦ e
    ]
