-- ===== src/Tests/Judging.antt =====
-- Examples for the coverage, the readiness and the verifier's counts.
use skill_code_review.Glob.{strip, minimatch}
use skill_code_review.Base.{
  sorted, sort_insert, sort, add, update, ℕ, ◌+◌, String, true, ◌&&◌, ◌||◌, not, none, some, List,
  [], ◌∷◌, ◌≡◌, ◌↔◌, refl, pos, All, length, contains, Dict, InOrder, str_leb, Distinct, ltb, leb,
  lookup, insert, if◌then◌else◌, str_eq,
}
use skill_code_review.Value.{
  nonempty_str, strings, Value, bool, int, str, get, array, object, ensure_dict, ensure_list,
  truthy,
}
use skill_code_review.Result.{iterate, ok}
use skill_code_review.Coverage.{Wiki, Coverage, verify_coverage}
use skill_code_review.Coverage.Rows.{changed_files, is_reviewer, files_of, RowFits}
use skill_code_review.Coverage.Matrix.{verify_coverage-matrix, verify_coverage-gaps}
use skill_code_review.Readiness.{
  Readiness, Gate, go, no_go, pass, na, gate_names, blocking_flagged_by,
  synthesize_release_readiness,
}
use skill_code_review.Readiness.Outcome.{Labelled, some_blocked, synthesize-verdict}
use skill_code_review.Verifier.{
  is_verifier_stuck, count_of, read_verifier_rejection_counts, verifier_stuck,
}
use skill_code_review.Verifier.Counts.{reject_times, reject_times-is_stuck, verifier_stuck-resets}
use skill_code_review.Verifier.Degraded.{synthesize-degraded_run}

-- A wiki in which one leaf is about Python files.
abbrev wiki : Wiki
wiki = record {
  frontmatter = λ path.
      if str_eq path "lang/python.md"
      then some (("activation", object (("file_globs", array (str "*.py" ∷ [])) ∷ [])) ∷ [])
      else none;
}

abbrev finding : Value
finding = object (
    ("file", str "a.py")
    ∷ ("severity", str "critical")
    ∷ ("flagged_by", array (str "sec-tests" ∷ []))
    ∷ [])

abbrev judged_env : Dict Value
judged_env =
    ("changed_paths", array (str "b.ts" ∷ str "a.py" ∷ []))
    ∷ ("findings", array (finding ∷ []))
    ∷ (
      "picked_leaves",
      array (
          object (
            ("id", str "lang-python")
            ∷ ("path", str "lang/python.md")
            ∷ ("dimensions", array (str "correctness" ∷ []))
            ∷ [])
          ∷ []),
    )
    ∷ []

abbrev coverage : Coverage
coverage = record {
  coverage_matrix =
      record { file = "a.py"; reviewers = "lang-python" ∷ "sec-tests" ∷ [] }
      ∷ record { file = "b.ts"; reviewers = [] }
      ∷ [];
  coverage_gaps = "b.ts" ∷ [];
  coverage_rule_violated = true;
}

coverage_run : verify_coverage wiki judged_env ≡ ok coverage
unfolding verify_coverage ensure_list get lookup ensure_dict contains update strings add iterate
    sort nonempty_str minimatch insert sort_insert sorted
coverage_run = refl

verify_coverage-matrix_example :
    InOrder str_leb (files_of coverage.coverage_matrix)
    × Distinct (files_of coverage.coverage_matrix)
    × ((file : String)
        → contains file (files_of coverage.coverage_matrix)
          ≡ contains file (changed_files judged_env))
    × All (RowFits (is_reviewer wiki judged_env)) coverage.coverage_matrix
verify_coverage-matrix_example = verify_coverage-matrix wiki judged_env coverage coverage_run

b_changed : contains "b.ts" (changed_files judged_env) ≡ true
unfolding contains get strings ensure_list lookup
b_changed = refl

verify_coverage-gaps_example :
    ((contains "b.ts" coverage.coverage_gaps ≡ true) ↔ (
      (a b : String)
      → is_reviewer wiki judged_env "b.ts" a ≡ true
      → is_reviewer wiki judged_env "b.ts" b ≡ true
      → a ≡ b))
    × (coverage.coverage_rule_violated ≡ ltb 0 (length coverage.coverage_gaps))
verify_coverage-gaps_example =
    verify_coverage-gaps wiki judged_env coverage "b.ts" coverage_run b_changed

abbrev empty_gate : ℕ → String → Gate
empty_gate number name = record {
  number = number;
  name = name;
  status = na;
  contributing_leaves = [];
  blocker_count = 0;
}

abbrev readiness : Readiness
readiness = record {
  gates =
      empty_gate 1 "SOLID & Clean Code"
      ∷ empty_gate 2 "Error Handling & Resilience"
      ∷ record {
        number = 3;
        name = "Code Quality & Type Safety";
        status = pass;
        contributing_leaves = "lang-python" ∷ [];
        blocker_count = 0;
      }
      ∷ empty_gate 4 "Test Coverage"
      ∷ empty_gate 5 "Architecture & Design"
      ∷ empty_gate 6 "Security & Safety"
      ∷ empty_gate 7 "Documentation"
      ∷ empty_gate 8 "Domain-specific quality"
      ∷ [];
  verdict = go;
}

readiness_run : synthesize_release_readiness judged_env ≡ ok readiness
unfolding synthesize_release_readiness ensure_list get lookup contains nonempty_str strings sorted
    sort ensure_dict update sort_insert add strip
readiness_run = refl

synthesize-verdict_example :
    (blocking : List String) × (blocking_flagged_by (ensure_list (get judged_env "findings"))
      ≡ ok blocking)
    × Labelled 1 gate_names readiness.gates
    × (readiness.verdict ≡ (
        if some_blocked blocking (ensure_list (get judged_env "picked_leaves")) 1 gate_names
          || truthy (get judged_env "coverage_rule_violated")
        then no_go
        else go))
synthesize-verdict_example = synthesize-verdict judged_env readiness readiness_run

reject_times-is_stuck_example :
    is_verifier_stuck (reject_times 2 (("llm_trim", 1) ∷ []) "llm_trim") (some "llm_trim") ≡ (
      if str_eq "llm_trim" "llm_trim"
      then leb 3 (count_of (("llm_trim", 1) ∷ []) "llm_trim" + 2)
      else is_verifier_stuck (("llm_trim", 1) ∷ []) (some "llm_trim"))
reject_times-is_stuck_example =
    reject_times-is_stuck 2 (("llm_trim", 1) ∷ []) "llm_trim" "llm_trim" refl refl

abbrev stuck_env : Dict Value
stuck_env =
    (
      "verifier_rejection_counts",
      object (("scan_project", int (pos 1)) ∷ ("llm_trim", int (pos 3)) ∷ []),
    )
    ∷ []

verifier_stuck-resets_example :
    (is_verifier_stuck (verifier_stuck stuck_env).verifier_rejection_counts (some "llm_trim") ≡ (
      is_verifier_stuck (read_verifier_rejection_counts stuck_env) (some "llm_trim")
      && not (str_eq (verifier_stuck stuck_env).stuck_state_id "llm_trim")))
    × ((verifier_stuck stuck_env).rejection_count
        ≡ count_of
            (read_verifier_rejection_counts stuck_env)
            (verifier_stuck stuck_env).stuck_state_id)
verifier_stuck-resets_example = verifier_stuck-resets stuck_env "llm_trim" refl

synthesize-degraded_run_example :
    synthesize_release_readiness (insert "degraded_run" (bool true) judged_env)
    ≡ synthesize_release_readiness judged_env
synthesize-degraded_run_example = synthesize-degraded_run judged_env (bool true)
