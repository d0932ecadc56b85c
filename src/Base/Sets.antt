-- ===== src/Base/Sets.antt =====
-- The laws of texts in lists and sets: `in`, `set.add`, `set.update` and `sorted`.
use Prim.Native.Nat.{ℕ, suc}
use Prim.Native.Nat.{Ordering, compare as compare_ℕ}
use Prim.Native.Char.{code}
use Prim.Native.String.compare
use Prim.Native.String.{String, compare, then as chain}
use text.Mathlib.Text.{is_le}
use mathlib.Core.Path.{◌≡◌, refl, ap, ◌∙◌}
use mathlib.Core.Logic.{inl, inr}
use mathlib.Core.Bool.{Bool, true, false, ◌||◌}
use mathlib.Core.List.{List, [], ◌∷◌, ◌++◌}
use native.Mathlib.Omega.{arith}
use skill_code_review.Base.Tests.{Bool-cases}
use skill_code_review.Base.Lists.{length, All, Some}
use skill_code_review.Base.Text.{
  str_eq, str_eq_iff, contains, add, update, sort_insert, sort, sorted, str_leb,
}

pub contains-append :
    (k : String) (xs ys : List String) → contains k (xs ++ ys) ≡ (contains k xs || contains k ys)
unfolding contains
contains-append k [] ys = refl
contains-append k (x ∷ xs) ys = ground (arith, contains-append k xs ys)

pub contains-add :
    (k : String) (s : List String) (x : String)
    → contains k (add s x) ≡ (contains k s || str_eq x k)
unfolding add
contains-add k s x = elim (Bool-cases (contains x s)) [
  | inl old ↦ rw old (elim (Bool-cases (str_eq x k)) [
    | inl same ↦
        let e : x ≡ k = (str_eq_iff x k).0 same in
        let here : contains k s ≡ true = (rw e at old) in ground arith
    | inr differ ↦ ground arith
  ])
  | inr new ↦ rw (new, contains-append k s (x ∷ [])) (unfold contains in ground arith)
]

pub contains-update :
    (k : String) (s xs : List String) → contains k (update s xs) ≡ (contains k s || contains k xs)
unfolding update contains
contains-update k s [] = ground arith
contains-update k s (x ∷ xs) = ground (arith, contains-update k (add s x) xs, contains-add k s x)

-- No text stands in the list twice.
abbrev pub Distinct : List String → Type 0
Distinct [] = Unit
Distinct (x ∷ xs) = (contains x xs ≡ false) × Distinct xs

Distinct-snoc :
    (xs : List String) (x : String) → Distinct xs → contains x xs ≡ false → Distinct (xs ++ x ∷ [])
unfolding contains
Distinct-snoc [] x d h = (refl, tt)
Distinct-snoc (y ∷ ys) x d h = (
  contains-append y ys (x ∷ []) ∙ ground (arith, d.0, str_eq_iff x y, str_eq_iff y x),
  Distinct-snoc ys x d.1 (ground arith),
)

pub add-Distinct : (s : List String) (x : String) → Distinct s → Distinct (add s x)
unfolding add
add-Distinct s x d = elim (Bool-cases (contains x s)) [
  | inl old ↦ rw old d
  | inr new ↦ rw new (Distinct-snoc s x d new)
]

pub update-Distinct : (s xs : List String) → Distinct s → Distinct (update s xs)
unfolding update
update-Distinct s [] d = d
update-Distinct s (x ∷ xs) d = update-Distinct (add s x) xs (add-Distinct s x d)

module _ {ℓ} {A : Type ℓ} (before : A → A → Bool) where
  length-sort_insert : (x : A) (xs : List A) → length (sort_insert before x xs) ≡ suc (length xs)
  unfolding sort_insert
  length-sort_insert x [] = refl
  length-sort_insert x (y ∷ ys) = ground (arith, length-sort_insert x ys)

  pub length-sort : (xs : List A) → length (sort before xs) ≡ length xs
  unfolding sort
  length-sort [] = refl
  length-sort (x ∷ xs) = length-sort_insert x (sort before xs) ∙ ap suc (length-sort xs)

  -- Neighbours stand in the order of `before`.
  abbrev pub InOrder : List A → Type 0
  InOrder [] = Unit
  InOrder (x ∷ []) = Unit
  InOrder (x ∷ y ∷ ys) = (before x y ≡ true) × InOrder (y ∷ ys)

  module _ (total : (x y : A) → before x y ≡ false → before y x ≡ true) where
    sort_insert-InOrder_behind :
        (z x : A) (xs : List A)
        → before z x ≡ true
        → InOrder (z ∷ xs)
        → InOrder (z ∷ sort_insert before x xs)
    unfolding sort_insert
    sort_insert-InOrder_behind z x [] h o = (h, tt)
    sort_insert-InOrder_behind z x (y ∷ ys) h o = elim (Bool-cases (before x y)) [
      | inl first ↦ rw first (h, (first, o.1))
      | inr later ↦ rw later (o.0, sort_insert-InOrder_behind y x ys (total x y later) o.1)
    ]

    sort_insert-InOrder : (x : A) (xs : List A) → InOrder xs → InOrder (sort_insert before x xs)
    unfolding sort_insert
    sort_insert-InOrder x [] o = tt
    sort_insert-InOrder x (y ∷ ys) o = elim (Bool-cases (before x y)) [
      | inl first ↦ rw first (first, o)
      | inr later ↦ rw later (sort_insert-InOrder_behind y x ys (total x y later) o)
    ]

    pub sort-InOrder : (xs : List A) → InOrder (sort before xs)
    unfolding sort
    sort-InOrder [] = tt
    sort-InOrder (x ∷ xs) = sort_insert-InOrder x (sort before xs) (sort-InOrder xs)

contains-sort_insert :
    (k x : String) (xs : List String)
    → contains k (sort_insert str_leb x xs) ≡ (str_eq x k || contains k xs)
unfolding sort_insert contains
contains-sort_insert k x [] = refl
contains-sort_insert k x (y ∷ ys) = ground (arith, contains-sort_insert k x ys)

pub contains-sorted : (k : String) (xs : List String) → contains k (sorted xs) ≡ contains k xs
unfolding sorted sort contains
contains-sorted k [] = refl
contains-sorted k (x ∷ xs) =
    contains-sort_insert k x (sort str_leb xs) ∙ ap (λ b. str_eq x k || b) (contains-sorted k xs)

pub length-sorted : (xs : List String) → length (sorted xs) ≡ length xs
unfolding sorted
length-sorted xs = length-sort str_leb xs

abbrev mirror : Ordering → Ordering
mirror Ordering.lt = Ordering.gt
mirror Ordering.eq = Ordering.eq
mirror Ordering.gt = Ordering.lt

mirror-then : (o p : Ordering) → chain (mirror o) (mirror p) ≡ mirror (chain o p)
mirror-then Ordering.lt p = refl
mirror-then Ordering.eq p = refl
mirror-then Ordering.gt p = refl

compare_ℕ-mirror : (a b : ℕ) → compare_ℕ b a ≡ mirror (compare_ℕ a b)
compare_ℕ-mirror a b = ground arith

compare-mirror : (s t : String) → compare t s ≡ mirror (compare s t)
compare-mirror String.[] String.[] = rw compare.nil-nil
compare-mirror String.[] (String.◌∷◌ d t) = rw (compare.nil-cons, compare.cons-nil)
compare-mirror (String.◌∷◌ c s) String.[] = rw (compare.nil-cons, compare.cons-nil)
compare-mirror (String.◌∷◌ c s) (String.◌∷◌ d t) =
    rw (compare.cons-cons d c t s, compare.cons-cons c d s t)
      (rw (compare_ℕ-mirror (code c) (code d), compare-mirror s t) (mirror-then _ _))

is_le-mirror : (o : Ordering) → is_le o ≡ false → is_le (mirror o) ≡ true
is_le-mirror Ordering.lt h = cc
is_le-mirror Ordering.eq h = cc
is_le-mirror Ordering.gt h = refl

pub str_leb_total : (s t : String) → str_leb s t ≡ false → str_leb t s ≡ true
str_leb_total s t h = rw (compare-mirror s t) (is_le-mirror (compare s t) h)

pub sorted-InOrder : (xs : List String) → InOrder str_leb (sorted xs)
unfolding sorted
sorted-InOrder xs = sort-InOrder str_leb str_leb_total xs

Distinct-sort_insert :
    (x : String) (xs : List String)
    → contains x xs ≡ false
    → Distinct xs
    → Distinct (sort_insert str_leb x xs)
unfolding sort_insert contains
Distinct-sort_insert x [] h d = (refl, tt)
Distinct-sort_insert x (y ∷ ys) h d = elim (Bool-cases (str_leb x y)) [
  | inl first ↦ rw first (h, d)
  | inr later ↦ rw later (
    contains-sort_insert y x ys ∙ ground (arith, d.0, str_eq_iff x y, str_eq_iff y x),
    Distinct-sort_insert x ys (ground arith) d.1,
  )
]

pub Distinct-sorted : (xs : List String) → Distinct xs → Distinct (sorted xs)
unfolding sorted sort
Distinct-sorted [] d = tt
Distinct-sorted (x ∷ xs) d =
    Distinct-sort_insert x (sorted xs) (contains-sorted x xs ∙ d.0) (Distinct-sorted xs d.1)

module _ {ℓ κ} {A : Type ℓ} (before : A → A → Bool) (P : A → Type κ) where
  All-sort_insert : (x : A) (xs : List A) → P x → All P xs → All P (sort_insert before x xs)
  unfolding sort_insert
  All-sort_insert x [] h hs = (h, tt)
  All-sort_insert x (y ∷ ys) h hs = elim (Bool-cases (before x y)) [
    | inl first ↦ rw first (h, hs)
    | inr later ↦ rw later (hs.0, All-sort_insert x ys h hs.1)
  ]

  pub All-sort : (xs : List A) → All P xs → All P (sort before xs)
  unfolding sort
  All-sort [] hs = tt
  All-sort (x ∷ xs) hs = All-sort_insert x (sort before xs) hs.0 (All-sort xs hs.1)

module _ {ℓ} {A : Type ℓ} (before : A → A → Bool) (P : A → Type 0) where
  pub Some-sort_insert_new : (x : A) (xs : List A) → P x → Some P (sort_insert before x xs)
  unfolding sort_insert
  Some-sort_insert_new x [] h = inl h
  Some-sort_insert_new x (y ∷ ys) h = elim (Bool-cases (before x y)) [
    | inl first ↦ rw first (inl h)
    | inr later ↦ rw later (inr (Some-sort_insert_new x ys h))
  ]

  pub Some-sort_insert_old : (x : A) (xs : List A) → Some P xs → Some P (sort_insert before x xs)
  unfolding sort_insert
  Some-sort_insert_old x [] h = absurd h
  Some-sort_insert_old x (y ∷ ys) h = elim (Bool-cases (before x y)) [
    | inl first ↦ rw first (inr h)
    | inr later ↦
        rw later
          (elim h [ inl here ↦ inl here | inr behind ↦ inr (Some-sort_insert_old x ys behind) ])
  ]

  pub Some-sort : (xs : List A) → Some P xs → Some P (sort before xs)
  unfolding sort
  Some-sort [] h = absurd h
  Some-sort (x ∷ xs) (inl h) = Some-sort_insert_new x (sort before xs) h
  Some-sort (x ∷ xs) (inr h) = Some-sort_insert_old x (sort before xs) (Some-sort xs h)
