-- ===== src/Planner/Slices.antt =====
-- code_review/handlers.py `handle_plan_specialist_batches`: the sub-batches of one leaf. The
-- slices that the loop over `sub_idx` cuts are the files of the leaf, in order, none left out.
use skill_code_review.Base.{
  ℕ, zero, suc, ◌+◌, ◌-◌, ◌*◌, ◌≤◌, ◌<◌, min, String, false, List, [], ◌∷◌, ◌++◌, ◌≡◌, refl, sym,
  ap, ◌∙◌, ltb, leb, length, take, drop, slice, flat_map, arith, take-append-drop, drop-drop,
  drop_all, length-drop, Bool-cases, leb→le, inl, inr, append-nil,
}
use native.Mathlib.Nat.{div-add-mod', mod-lt}
use skill_code_review.Planner.{slices, math_ceil, file_units, tokens_per_file}

-- `math_ceil` rounds up.
pub mul-math_ceil-ge : (num den : ℕ) → 0 < den → num ≤ math_ceil num den * den
unfolding math_ceil
mul-math_ceil-ge num den h =
    ground (arith, div-add-mod' (num + (den - 1)) den, mod-lt (num + (den - 1)) h)

pub math_ceil-lt : (num den : ℕ) → 0 < den → math_ceil num den * den < num + den
unfolding math_ceil
math_ceil-lt num den h =
    ground (arith, div-add-mod' (num + (den - 1)) den, mod-lt (num + (den - 1)) h)

take-min {ℓ} : {A : Type ℓ} (n : ℕ) (xs : List A) → take (min n (length xs)) xs ≡ take n xs
take-min zero xs = let e : min zero (length xs) ≡ 0 = omega arith in rw e
take-min (suc n) [] = let e : min (suc n) zero ≡ 0 = omega arith in rw e
take-min (suc n) (x ∷ xs) =
    let e : min (suc n) (suc (length xs)) ≡ suc (min n (length xs)) = omega arith in
    rw e (ap (λ r. x ∷ r) (take-min n xs))

-- A slice and what stands behind it.
slice-append-drop :
    (xs : List String) (start c : ℕ)
    → start ≤ length xs
    → slice start (min (start + c) (length xs)) xs ++ drop (start + c) xs ≡ drop start xs
slice-append-drop xs start c h =
    let ys = drop start xs in
    let e : min (start + c) (length xs) - start ≡ min c (length ys) =
      omega (arith, length-drop start xs) in
    rw (e, take-min c ys, ← drop-drop start c (start + c) xs refl) (take-append-drop c ys)

next_start : (i c : ℕ) → suc i * c ≡ i * c + c
next_start i c = omega arith

not_past : (n m : ℕ) → leb n m ≡ false → m < n
not_past n m h = ground arith

slices-files :
    (leaf_id : String) (subs c : ℕ) (files : List String) (left i : ℕ)
    → length files ≤ (i + left) * c
    → flat_map (λ u. u.files) (slices leaf_id subs c files left i) ≡ drop (i * c) files
unfolding slices
slices-files leaf_id subs c files zero i h = sym (drop_all (i * c) files (omega arith))
slices-files leaf_id subs c files (suc left) i h = elim (Bool-cases (leb (length files) (i * c))) [
  | inl past ↦ rw past (sym (drop_all (i * c) files (leb→le _ _ past)))
  | inr inside ↦
      rw (inside, slices-files leaf_id subs c files left (suc i) (omega arith))
        (rw (ap (λ k. drop k files) (next_start i c)) (
          slice-append-drop files (i * c) c
            (omega (arith, not_past (length files) (i * c) inside))))
]

pos_factor : (q m n : ℕ) → n ≤ q * m → 0 < n → 0 < q
pos_factor zero m n h p = absurd (omega arith)
pos_factor (suc q) m n h p = omega arith

pub math_ceil-pos : (num den : ℕ) → 0 < den → 0 < num → 0 < math_ceil num den
math_ceil-pos num den h p = pos_factor (math_ceil num den) den num (mul-math_ceil-ge num den h) p

-- `sub_count` chunks of `chunk_size` hold all the files.
chunks-ge : (n subs : ℕ) → 0 < subs → n ≤ (0 + subs) * math_ceil n subs
chunks-ge n subs h = omega (arith, mul-math_ceil-ge n subs h)

slices_cover :
    (leaf_id : String) (subs c : ℕ) (files : List String)
    → length files ≤ (0 + subs) * c
    → flat_map (λ u. u.files) (slices leaf_id subs c files subs 0) ≡ files
slices_cover leaf_id subs c files h =
    let e : 0 * c ≡ 0 = omega arith in
    slices-files leaf_id subs c files subs 0 h ∙ ap (λ k. drop k files) e

-- The files of the units of one leaf are the files of the leaf, in their order.
pub file_units-files :
    (max_leaf_tokens : ℕ) (leaf_id : String) (files : List String)
    → 0 < max_leaf_tokens
    → flat_map (λ u. u.files) (file_units max_leaf_tokens leaf_id files) ≡ files
unfolding file_units
file_units-files max_leaf_tokens leaf_id [] h = refl
file_units-files max_leaf_tokens leaf_id (f ∷ fs) h =
    elim (Bool-cases (ltb max_leaf_tokens (length (f ∷ fs) * tokens_per_file))) [
      | inl large ↦ rw large (
          slices_cover leaf_id _ _ (f ∷ fs)
            (chunks-ge (length (f ∷ fs)) _ (math_ceil-pos _ max_leaf_tokens h (omega arith))))
      | inr small ↦ rw small (append-nil (f ∷ fs))
    ]
