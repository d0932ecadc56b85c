-- ===== src/Coverage/Matrix.antt =====
-- code_review/handlers.py `handle_verify_coverage`: the coverage matrix and the gaps.
use skill_code_review.Base.{
  String, true, false, ◌||◌, List, [], ◌∷◌, ◌≡◌, ◌↔◌, refl, sym, ap, ◌∙◌, arith, any, contains,
  update, Dict, lookup, str_eq, str_eq_iff, str_eq_refl, Bool-cases, inl, inr, Distinct, All, ltb,
  length, update-Distinct, contains-sorted, sorted-InOrder, Distinct-sorted, InOrder, str_leb,
  All-sort, sort, sorted, contains-update,
}
use skill_code_review.Value.{Value, get, ensure_list}
use skill_code_review.Result.{ok, >>=-eq-ok, ok-injective}
use skill_code_review.Coverage.{
  credit_findings, credit_leaves, credit_rescues, no_reviewers, Wiki, Row, Coverage, rows,
  row_before, is_gap, gaps_of, report, verify_coverage,
}
use skill_code_review.Coverage.Credit.{
  credited, covers, rescues, credited-credit_findings, credited-credit_leaves,
  credited-credit_rescues,
}
use skill_code_review.Coverage.Invariant.{
  Sound, credit_findings-Sound, credit_leaves-Sound, credit_rescues-Sound, All-contained,
  no_reviewers-Sound,
}
use skill_code_review.Coverage.Rows.{
  changed_files, is_reviewer, entries-reviewer, RowFits, rows-RowFits, files_of, files_of-rows,
  files_of-sort,
}

-- What the credits come to: the files are the changed ones, and the reviewers those that the run
-- names.
abbrev Credits : Wiki → Dict Value → Dict (List String) → Type 0
Credits w env d =
    Sound (update [] (changed_files env)) d
    × ((file : String)
        → contains file (changed_files env) ≡ true
        → (who : String) → credited d file who ≡ is_reviewer w env file who)

credited-no_reviewers :
    (changed : List String) (file who : String) → credited (no_reviewers changed) file who ≡ false
unfolding no_reviewers lookup contains
credited-no_reviewers [] file who = refl
credited-no_reviewers (f ∷ fs) file who = elim (Bool-cases (str_eq f file)) [
  | inl here ↦ rw here refl
  | inr later ↦ rw later (credited-no_reviewers fs file who)
]

contains-changed :
    (env : Dict Value) (file : String)
    → contains file (update [] (changed_files env)) ≡ contains file (changed_files env)
contains-changed env file = contains-update file [] (changed_files env) ∙ unfold contains in refl

-- A run that returns reports credits.
verify_coverage-Credits :
    (w : Wiki) (env : Dict Value) (r : Coverage)
    → verify_coverage w env ≡ ok r
    → (d : Dict (List String)) × Credits w env d × (r ≡ report d)
unfolding verify_coverage
verify_coverage-Credits w env r e =
    let changed = update [] (changed_files env) in
    let leaves = ensure_list (get env "picked_leaves") in
    let rescue_list = ensure_list (get env "coverage_rescues") in
    let (found_by, got, rest) =
      >>=-eq-ok (credit_findings changed (ensure_list (get env "findings")) (no_reviewers changed))
        _ e in
    (
      credit_rescues changed rescue_list (credit_leaves w changed leaves found_by),
      (
        credit_rescues-Sound changed rescue_list _ (
            credit_leaves-Sound changed w leaves found_by (All-contained changed)
              (credit_findings-Sound changed _ _ _ got (no_reviewers-Sound changed))),
        λ file m who.
            let known : contains file changed ≡ true = contains-changed env file ∙ m in
            credited-credit_rescues changed file known who rescue_list _
            ∙ ap (λ b. b || any (rescues file who) rescue_list)
                (credited-credit_leaves changed file known who w leaves found_by
                  ∙ ap (λ b. b || any (covers w file who) leaves)
                      (credited-credit_findings changed file known who _ _ found_by got
                        ∙ rw (credited-no_reviewers changed file who) refl)),
      ),
      sym (ok-injective rest),
    )

-- A coverage run that returns has a row for each changed file, once, in the order of the files, and
-- for no other file. A row lists, sorted and each once, those who review its file: who flags a
-- finding about it, whose picked leaf covers it, or who rescued it.
pub verify_coverage-matrix :
    (w : Wiki) (env : Dict Value) (r : Coverage)
    → verify_coverage w env ≡ ok r
    → let matrix = r.coverage_matrix in
      InOrder str_leb (files_of matrix)
      × Distinct (files_of matrix)
      × ((file : String) → contains file (files_of matrix) ≡ contains file (changed_files env))
      × All (RowFits (is_reviewer w env)) matrix
unfolding report
verify_coverage-matrix w env r e =
    let (d, ((k, s), credits), q) = verify_coverage-Credits w env r e in
    let changed = update [] (changed_files env) in
    let files : files_of (sort row_before (rows d)) ≡ sorted changed =
      files_of-sort (rows d) ∙ ap sorted (files_of-rows d ∙ k) in
    let once : Distinct changed = update-Distinct [] (changed_files env) tt in
    rw q (
      rw files (sorted-InOrder changed),
      rw files (Distinct-sorted changed once),
      λ file. rw files (contains-sorted file changed ∙ contains-changed env file),
      All-sort row_before (RowFits (is_reviewer w env)) (rows d) (
          rows-RowFits (is_reviewer w env) d s (
            entries-reviewer (is_reviewer w env) d d (rw k once) (λ i m. refl)
              (λ file m. credits file (sym (contains-changed env file) ∙ rw (sym k) m)))),
    )

few-Distinct :
    (xs : List String)
    → Distinct xs
    → (ltb (length xs) 2 ≡ true)
      ↔ ((a b : String) → contains a xs ≡ true → contains b xs ≡ true → a ≡ b)
unfolding contains
few-Distinct [] d = (λ h a b m n. cc, λ f. refl)
few-Distinct (x ∷ []) d = (
  λ h a b m n.
      sym ((str_eq_iff x a).0 (ground (arith, m))) ∙ (str_eq_iff x b).0 (ground (arith, n)),
  λ f. refl,
)
few-Distinct (x ∷ y ∷ ys) d = (
  λ h. absurd (ground (arith, h)),
  λ f.
      let same : x ≡ y = f x y (rw (str_eq_refl x) refl) (rw (str_eq_refl y) (ground arith)) in
      let twice : str_eq y x ≡ true = (str_eq_iff y x).1 (sym same) in
      absurd (ground (arith, d.0, twice)),
)

gaps-files :
    (file : String) (rs : List Row)
    → contains file (files_of rs) ≡ false
    → contains file (gaps_of rs) ≡ false
unfolding gaps_of contains
gaps-files file [] m = refl
gaps-files file (r ∷ rs) m = ground (arith, m, gaps-files file rs)

-- A listed file has a row, and is a gap exactly if the row is one.
row_of :
    (P : Row → Type 0) (file : String) (rs : List Row)
    → All P rs
    → Distinct (files_of rs)
    → contains file (files_of rs) ≡ true
    → (r : Row) × (r.file ≡ file) × P r × (contains file (gaps_of rs) ≡ is_gap r)
unfolding gaps_of contains
row_of P file [] h d m = cc
row_of P file (r ∷ rs) h d m = elim (Bool-cases (str_eq r.file file)) [
  | inl here ↦
      let q : r.file ≡ file = (str_eq_iff r.file file).0 here in
      let once : contains file (files_of rs) ≡ false =
        ap (λ f. contains f (files_of rs)) (sym q) ∙ d.0 in
      (r, q, h.0, ground (arith, here, gaps-files file rs once))
  | inr later ↦
      let (s, q, p, g) = row_of P file rs h.1 d.1 (ground (arith, m, later)) in
      (s, q, p, ground (arith, later, g))
]

report-gaps :
    (w : Wiki) (env : Dict Value) (r : Coverage)
    → verify_coverage w env ≡ ok r
    → (r.coverage_gaps ≡ gaps_of r.coverage_matrix)
      × (r.coverage_rule_violated ≡ ltb 0 (length (gaps_of r.coverage_matrix)))
unfolding report
report-gaps w env r e = let (d, c, q) = verify_coverage-Credits w env r e in rw q (refl, refl)

-- After a coverage run that returns, a changed file is among the gaps exactly if it has not got two
-- different reviewers, and the coverage rule is violated exactly if there is a gap.
pub verify_coverage-gaps :
    (w : Wiki) (env : Dict Value) (r : Coverage) (file : String)
    → verify_coverage w env ≡ ok r
    → contains file (changed_files env) ≡ true
    → ((contains file r.coverage_gaps ≡ true) ↔ (
        (a b : String) → is_reviewer w env file a ≡ true → is_reviewer w env file b ≡ true → a ≡ b))
      × (r.coverage_rule_violated ≡ ltb 0 (length r.coverage_gaps))
verify_coverage-gaps w env r file e m =
    let (ordered, once, files, fits) = verify_coverage-matrix w env r e in
    let (gaps, violated) = report-gaps w env r e in
    let (row, q, fit, g) =
      row_of (RowFits (is_reviewer w env)) file r.coverage_matrix fits once (files file ∙ m) in
    let few = few-Distinct row.reviewers fit.1 in
    let who_is : (a : String) → contains a row.reviewers ≡ is_reviewer w env file a =
      λ a. fit.2 a ∙ ap (λ f. is_reviewer w env f a) q in
    (
      rw (gaps, g)
          (
            λ h a b ma mb. few.0 h a b (who_is a ∙ ma) (who_is b ∙ mb),
            λ f. few.1 (λ a b ma mb. f a b (sym (who_is a) ∙ ma) (sym (who_is b) ∙ mb)),
          ),
      rw gaps violated,
    )
