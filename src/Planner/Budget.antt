-- ===== src/Planner/Budget.antt =====
-- code_review/handlers.py `handle_plan_specialist_batches`: how large the slices of a split leaf are,
-- and how many there are.
use skill_code_review.Base.{
  ℕ, zero, suc, ◌+◌, ◌-◌, ◌*◌, ◌≤◌, ◌<◌, min, String, List, [], ◌∷◌, ltb, leb, length, drop, arith,
  length-take, Bool-cases, inl, inr, All,
}
use native.Mathlib.Nat.{mul-le-mul_left}
use skill_code_review.Planner.{WorkUnit, slices, math_ceil, file_units, tokens_per_file}
use skill_code_review.Planner.Slices.{mul-math_ceil-ge, math_ceil-lt, math_ceil-pos}

-- The estimated tokens of a unit stay below the budget and one file more.
abbrev pub FitsBudget : ℕ → WorkUnit → Type 0
FitsBudget max_leaf_tokens u = length u.files * tokens_per_file < max_leaf_tokens + tokens_per_file

slices-length :
    (leaf_id : String) (subs c : ℕ) (files : List String) (left i : ℕ)
    → All (λ u. length u.files ≤ c) (slices leaf_id subs c files left i)
unfolding slices
slices-length leaf_id subs c files zero i = tt
slices-length leaf_id subs c files (suc left) i = elim (Bool-cases (leb (length files) (i * c))) [
  | inl past ↦ rw past tt
  | inr inside ↦ rw inside (
    omega (arith, length-take (min (i * c + c) (length files) - i * c) (drop (i * c) files)),
    slices-length leaf_id subs c files left (suc i),
  )
]

All-imp {ℓ κ μ} :
    {A : Type ℓ} (P : A → Type κ) (Q : A → Type μ) (xs : List A)
    → ((x : A) → P x → Q x)
    → All P xs
    → All Q xs
All-imp P Q [] f h = tt
All-imp P Q (x ∷ xs) f h = (f x h.0, All-imp P Q xs f h.1)

-- c = ceil(n / s) and s >= n * 500 / m give (c - 1) * 500 < m.
chunk_bound :
    (n s c m : ℕ)
    → c * s < n + s
    → n * tokens_per_file ≤ s * m
    → c * tokens_per_file < m + tokens_per_file
chunk_bound n s c m h k = elim (Bool-cases (ltb (c * tokens_per_file) (m + tokens_per_file))) [
  | inl below ↦ ground arith
  | inr above ↦
      let le : m + tokens_per_file ≤ c * tokens_per_file = ground arith in
      absurd (omega (arith, mul-le-mul_left s le))
]

chunk-lt :
    (n m : ℕ)
    → 0 < n
    → 0 < m
    → math_ceil n (math_ceil (n * tokens_per_file) m) * tokens_per_file < m + tokens_per_file
chunk-lt n m hn hm =
    chunk_bound n _ _ m (math_ceil-lt n _ (math_ceil-pos (n * tokens_per_file) m hm (omega arith)))
      (mul-math_ceil-ge (n * tokens_per_file) m hm)

below_bound : (a c m : ℕ) → a ≤ c → c * 500 < m + 500 → a * 500 < m + 500
below_bound a c m le lt = omega arith

-- Every unit of a leaf is over the token budget by less than one file, also where one file alone
-- is over it.
pub file_units-FitsBudget :
    (max_leaf_tokens : ℕ) (leaf_id : String) (files : List String)
    → 0 < max_leaf_tokens
    → All (FitsBudget max_leaf_tokens) (file_units max_leaf_tokens leaf_id files)
unfolding file_units
file_units-FitsBudget m leaf_id [] h = (omega arith, tt)
file_units-FitsBudget m leaf_id (f ∷ fs) h =
    let n = length (f ∷ fs) in
    let subs = math_ceil (n * tokens_per_file) m in
    elim (Bool-cases (ltb m (n * tokens_per_file))) [
      | inl large ↦ rw large (
          All-imp _ (FitsBudget m) _
            (λ u le. below_bound (length u.files) _ m le (chunk-lt n m (omega arith) h))
            (slices-length leaf_id subs (math_ceil n subs) (f ∷ fs) subs 0))
      | inr small ↦ rw small (ground arith, tt)
    ]
