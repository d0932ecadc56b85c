-- ===== src/Exits/Agreement.antt =====
-- code_review/handlers.py: the early exits against the handlers whose outputs they stand for.
use skill_code_review.Base.{
  String, ◌||◌, List, [], ◌∷◌, ◌≡◌, refl, ap, sym, ◌∙◌, arith, Bool-cases, inl, inr, contains, sort,
  sort_insert, update, sorted, contains-update, str_eq, Dict,
}
use skill_code_review.Value.{Value, get, ensure_list, strings}
use skill_code_review.Result.{ok}
use skill_code_review.Coverage.{
  Wiki, Coverage, Row, verify_coverage, report, rows, no_reviewers, gaps_of, row_before,
}
use skill_code_review.Exits.{stage_a_empty, unreviewed}

-- Rows without reviewers.
abbrev bare : List String → List Row
bare files = rows (no_reviewers files)

-- Whether the row of a file is a row of the list, without reviewers.
gaps-sort_insert :
    (k file : String) (rs : List Row)
    → contains k (gaps_of (sort_insert row_before (unreviewed file) rs))
      ≡ (str_eq file k || contains k (gaps_of rs))
unfolding sort_insert gaps_of contains
gaps-sort_insert k file [] = refl
gaps-sort_insert k file (r ∷ rs) = elim (Bool-cases (row_before (unreviewed file) r)) [
  | inl first ↦ rw first refl
  | inr later ↦ rw later (ground (arith, gaps-sort_insert k file rs))
]

gaps-bare :
    (k : String) (files : List String)
    → contains k (gaps_of (sort row_before (bare files))) ≡ contains k files
unfolding sort rows no_reviewers contains sorted sort_insert gaps_of
gaps-bare k [] = refl
gaps-bare k (file ∷ files) =
    gaps-sort_insert k file (sort row_before (bare files))
    ∙ ap (λ b. str_eq file k || b) (gaps-bare k files)

-- The exit for a review without candidates reports as gaps just the files that the coverage reports
-- when there are no findings, no picked leaves and no rescues.
pub stage_a_empty-gaps :
    (w : Wiki) (env : Dict Value)
    → ensure_list (get env "findings") ≡ []
    → ensure_list (get env "picked_leaves") ≡ []
    → ensure_list (get env "coverage_rescues") ≡ []
    → (c : Coverage) × (verify_coverage w env ≡ ok c)
      × ((k : String) → contains k (stage_a_empty env).0.coverage_gaps ≡ contains k c.coverage_gaps)
unfolding verify_coverage stage_a_empty contains
stage_a_empty-gaps w env no_findings no_leaves no_rescues =
    let changed = update [] (strings (ensure_list (get env "changed_paths"))) in
    (
      report (no_reviewers changed),
      rw (no_findings, no_leaves, no_rescues) refl,
      λ k.
          unfold report in
          sym (
            gaps-bare k changed
            ∙ (contains-update k [] (strings (ensure_list (get env "changed_paths"))) ∙ refl)),
    )
