-- ===== src/Coverage/Rows.antt =====
-- code_review/handlers.py `handle_verify_coverage`: the rows of the matrix, and their files.
use skill_code_review.Base.{
  String, Bool, true, false, ◌||◌, some, List, [], ◌∷◌, ◌≡◌, refl, sym, ap, ◌∙◌, arith, any,
  contains, Dict, lookup, keys, str_eq, str_eq_iff, str_eq_refl, Bool-cases, inl, inr, Distinct,
  All, map, contains-sorted, sorted-InOrder, Distinct-sorted, InOrder, str_leb, sort, sort_insert,
  sorted,
}
use skill_code_review.Value.{Value, get, ensure_list, strings}
use skill_code_review.Coverage.{found, Wiki, Row, rows, row_before}
use skill_code_review.Coverage.Credit.{credited, flags, covers, rescues}

-- The changed files of the run, as texts.
abbrev pub changed_files : Dict Value → List String
changed_files env = strings (ensure_list (get env "changed_paths"))

-- Someone reviews a file: a finding about it is flagged by them, or a picked leaf of theirs covers
-- it, or they rescued it.
abbrev pub is_reviewer : Wiki → Dict Value → String → String → Bool
is_reviewer w env file who =
    (any (flags file who) (ensure_list (get env "findings"))
      || any (covers w file who) (ensure_list (get env "picked_leaves")))
    || any (rescues file who) (ensure_list (get env "coverage_rescues"))

module _ (reviewer : String → String → Bool) where
  pub entries-reviewer :
      (e d : Dict (List String))
      → Distinct (keys d)
      → ((k : String) → contains k (keys d) ≡ true → lookup k e ≡ lookup k d)
      → ((k : String)
          → contains k (keys d) ≡ true
          → (who : String) → credited e k who ≡ reviewer k who)
      → All (λ row. (who : String) → contains who row.1 ≡ reviewer row.0 who) d
  unfolding keys contains lookup
  entries-reviewer e [] h same r = tt
  entries-reviewer e ((j, s) ∷ d) h same r = (
    λ who. sym (ap (λ o. contains who (found o)) at_j) ∙ r j j_in who,
    entries-reviewer e d h.1 behind (λ k m. r k (ground (arith, m))),
  )
    where
      j_in : contains j (keys ((j, s) ∷ d)) ≡ true
      j_in = rw (str_eq_refl j) refl

      at_j : lookup j e ≡ some s
      at_j = same j j_in ∙ rw (str_eq_refl j) refl

      behind : (k : String) → contains k (keys d) ≡ true → lookup k e ≡ lookup k d
      behind k m = elim (Bool-cases (str_eq j k)) [
        | inl equal ↦
            let q : j ≡ k = (str_eq_iff j k).0 equal in
            let new : contains k (keys d) ≡ false = ap (λ i. contains i (keys d)) (sym q) ∙ h.0 in
            cc
        | inr differ ↦ same k (ground (arith, m)) ∙ rw differ refl
      ]

  -- A row lists the reviewers of its file, sorted and each once.
  abbrev pub RowFits : Row → Type 0
  RowFits row =
      InOrder str_leb row.reviewers
      × Distinct row.reviewers
      × ((who : String) → contains who row.reviewers ≡ reviewer row.file who)

  pub rows-RowFits :
      (d : Dict (List String))
      → All (λ row. Distinct row.1) d
      → All (λ row. (who : String) → contains who row.1 ≡ reviewer row.0 who) d
      → All RowFits (rows d)
  unfolding rows
  rows-RowFits [] h r = tt
  rows-RowFits ((file, s) ∷ d) h r = (
    (sorted-InOrder s, Distinct-sorted s h.0, λ who. contains-sorted who s ∙ r.0 who),
    rows-RowFits d h.1 r.1,
  )

abbrev pub files_of : List Row → List String
files_of matrix = map (λ r. r.file) matrix

pub files_of-rows : (d : Dict (List String)) → files_of (rows d) ≡ keys d
unfolding rows keys
files_of-rows [] = refl
files_of-rows ((file, s) ∷ d) = ap (λ r. file ∷ r) (files_of-rows d)

files_of-sort_insert :
    (r : Row) (rs : List Row)
    → files_of (sort_insert row_before r rs) ≡ sort_insert str_leb r.file (files_of rs)
unfolding sort_insert
files_of-sort_insert r [] = refl
files_of-sort_insert r (s ∷ rs) = elim (Bool-cases (str_leb r.file s.file)) [
  | inl first ↦ rw first refl
  | inr later ↦ rw later (ap (λ q. s.file ∷ q) (files_of-sort_insert r rs))
]

pub files_of-sort : (rs : List Row) → files_of (sort row_before rs) ≡ sorted (files_of rs)
unfolding sort sorted
files_of-sort [] = refl
files_of-sort (r ∷ rs) =
    files_of-sort_insert r (sort row_before rs) ∙ ap (sort_insert str_leb r.file) (files_of-sort rs)
