-- ===== src/Merger/Reported.antt =====
-- code_review/handlers.py `handle_merge_specialist_outputs`: the keys of the planned units, and of those
-- that some iteration has an output for.
use skill_code_review.Base.{
  ℕ, suc, Bool, true, false, ◌&&◌, ◌||◌, not, Option, none, some, List, [], ◌∷◌, ◌++◌, ◌≡◌, refl,
  sym, ap, ◌∙◌, arith, ℤ, pos, negsuc, eq_ℤ, any, keep, Dict, sort, sort_insert, str_eq_iff,
  str_eq_refl, Bool-cases, inl, inr,
}
use skill_code_review.Value.{Value, get, ensure_list}
use skill_code_review.Merger.{
  Key, eq_key, key_leb, has_key, dicts, key_of, add_key, planned_units, Outputs, put, put_at,
  put_outputs, dedupe, output_keys, missing_units,
}

eq_ℤ_path : (a b : ℤ) → eq_ℤ a b ≡ true → a ≡ b
eq_ℤ_path (pos m) (pos n) h = ap pos (ground (arith, h))
eq_ℤ_path (pos m) (negsuc n) h = absurd (ground (arith, h))
eq_ℤ_path (negsuc m) (pos n) h = absurd (ground (arith, h))
eq_ℤ_path (negsuc m) (negsuc n) h = ap negsuc (ground (arith, h))

eq_ℤ_refl : (a : ℤ) → eq_ℤ a a ≡ true
eq_ℤ_refl a = ground arith

pub eq_key_path : (j k : Key) → eq_key j k ≡ true → j ≡ k
eq_key_path (a, i) (b, j) h =
    let e : a ≡ b = (str_eq_iff a b).0 (ground (arith, h)) in
    let q : i ≡ j = eq_ℤ_path i j (ground (arith, h)) in rw (e, q) refl

pub eq_key_refl : (k : Key) → eq_key k k ≡ true
eq_key_refl (a, i) = rw (str_eq_refl a, eq_ℤ_refl i) refl

abbrev is_key : Option Key → Key → Bool
is_key none k = false
is_key (some j) k = eq_key j k

-- A unit, or an output of a unit, has the key.
abbrev pub names_key : Key → Dict Value → Bool
names_key k d = is_key (key_of d) k

-- Some iteration has an output for the key.
abbrev pub is_reported : Key → List (Dict Value) → Bool
is_reported k payloads =
    any (λ p. any (names_key k) (dicts (ensure_list (get p "iter_outputs")))) payloads

has_key-append :
    (k : Key) (xs ys : List Key) → has_key k (xs ++ ys) ≡ (has_key k xs || has_key k ys)
has_key-append k [] ys = refl
has_key-append k (x ∷ xs) ys = ground (arith, has_key-append k xs ys)

is_key-add_key :
    (o : Option Key) (ks : List Key) (k : Key)
    → has_key k (add_key o ks) ≡ (has_key k ks || is_key o k)
is_key-add_key none ks k = ground arith
is_key-add_key (some j) ks k = elim (Bool-cases (has_key j ks)) [
  | inl old ↦ elim (Bool-cases (eq_key j k)) [
    | inl same ↦
        let e : has_key k ks ≡ true = ap (λ i. has_key i ks) (sym (eq_key_path j k same)) ∙ old in
        rw (old, e) refl
    | inr differ ↦ rw (old, differ) (ground arith)
  ]
  | inr new ↦ rw (new, has_key-append k ks (j ∷ [])) (ground arith)
]

has_key-planned_units :
    (units : List (Dict Value)) (planned : List Key) (k : Key)
    → has_key k (planned_units planned units) ≡ (has_key k planned || any (names_key k) units)
unfolding planned_units
has_key-planned_units [] planned k = ground arith
has_key-planned_units (u ∷ units) planned k = ground (
  arith,
  has_key-planned_units units (add_key (key_of u) planned) k,
  is_key-add_key (key_of u) planned k,
)

has_key-put :
    (j k : Key) (out : Dict Value) (outs : Outputs)
    → has_key k (output_keys (put j out outs)) ≡ (has_key k (output_keys outs) || eq_key j k)
unfolding put
has_key-put j k out [] = ground arith
has_key-put j k out ((i, old) ∷ outs) = elim (Bool-cases (eq_key i j)) [
  | inl same ↦
      let e : eq_key i k ≡ eq_key j k = ap (λ q. eq_key q k) (eq_key_path i j same) in
      rw (same, e) (ground arith)
  | inr differ ↦ rw (differ, has_key-put j k out outs) (ground arith)
]

has_key-put_at :
    (o : Option Key) (k : Key) (n : ℕ) (u : Dict Value) (outs : Outputs)
    → has_key k (output_keys (put_at o n u outs)) ≡ (has_key k (output_keys outs) || is_key o k)
has_key-put_at none k n u outs = ground arith
has_key-put_at (some j) k n u outs = has_key-put j k _ outs

has_key-put_outputs :
    (k : Key) (n : ℕ) (us : List (Dict Value)) (outs : Outputs)
    → has_key k (output_keys (put_outputs n us outs))
      ≡ (has_key k (output_keys outs) || any (names_key k) us)
unfolding put_outputs
has_key-put_outputs k n [] outs = ground arith
has_key-put_outputs k n (u ∷ us) outs = ground (
  arith,
  has_key-put_outputs k n us (put_at (key_of u) n u outs),
  has_key-put_at (key_of u) k n u outs,
)

pub has_key-dedupe :
    (k : Key) (n : ℕ) (payloads : List (Dict Value)) (outs : Outputs)
    → has_key k (output_keys (dedupe n payloads outs))
      ≡ (has_key k (output_keys outs) || is_reported k payloads)
unfolding dedupe
has_key-dedupe k n [] outs = ground arith
has_key-dedupe k n (p ∷ payloads) outs = ground (
  arith,
  has_key-dedupe k (suc n) payloads
      (put_outputs n (dicts (ensure_list (get p "iter_outputs"))) outs),
  has_key-put_outputs k n (dicts (ensure_list (get p "iter_outputs"))) outs,
)

has_key-sort_insert :
    (k j : Key) (ks : List Key)
    → has_key k (sort_insert key_leb j ks) ≡ (eq_key j k || has_key k ks)
unfolding sort_insert
has_key-sort_insert k j [] = refl
has_key-sort_insert k j (i ∷ ks) = elim (Bool-cases (key_leb j i)) [
  | inl first ↦ rw first refl
  | inr later ↦ rw (later, has_key-sort_insert k j ks) (ground arith)
]

has_key-sort : (k : Key) (ks : List Key) → has_key k (sort key_leb ks) ≡ has_key k ks
unfolding sort
has_key-sort k [] = refl
has_key-sort k (j ∷ ks) =
    has_key-sort_insert k j (sort key_leb ks) ∙ ap (λ b. eq_key j k || b) (has_key-sort k ks)

has_key-keep :
    (p : Key → Bool) (k : Key) (ks : List Key) → has_key k (keep p ks) ≡ (has_key k ks && p k)
has_key-keep p k [] = refl
has_key-keep p k (j ∷ ks) = elim (Bool-cases (p j)) [
  | inl stays ↦ rw stays (ground (arith, has_key-keep p k ks, same_test stays))
  | inr goes ↦ rw goes (ground (arith, has_key-keep p k ks, same_test goes))
]
  where
    same_test : {b : Bool} → p j ≡ b → eq_key j k ≡ true → p k ≡ b
    same_test e same = ap p (sym (eq_key_path j k same)) ∙ e

-- A missing unit is one that is planned and that no iteration has an output for.
pub has_key-missing_units :
    (units payloads : List (Dict Value)) (k : Key)
    → has_key k (missing_units (planned_units [] units) (dedupe 1 payloads []))
      ≡ (any (names_key k) units && not (is_reported k payloads))
unfolding missing_units
has_key-missing_units units payloads k =
    has_key-sort k _
    ∙ has_key-keep _ k (planned_units [] units)
    ∙ rw (has_key-planned_units units [] k, has_key-dedupe k 1 payloads []) refl
