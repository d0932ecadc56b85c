-- ===== src/Tests/Planning.antt =====
-- Examples for the planner, the triage, the globs and the state machine.
use skill_code_review.Base.{
  ◌≤◌, String, true, false, ◌&&◌, ◌||◌, none, some, List, [], ◌∷◌, ◌++◌, ◌≡◌, refl, arith, ℤ, pos,
  All, length, flat_map, if◌then◌else◌, lookup, contains, Dict, sorted, sort, sort_insert, update,
  add, InOrder, str_leb, str_eq, Distinct,
}
use skill_code_review.Value.{
  Value, infinity, int, str, get, array, object, as_list, ensure_dict, ensure_list,
}
use skill_code_review.Result.{Parsers, ok, raise, overflow_error}
use skill_code_review.Planner.{plan_specialist_batches, file_units, leaf_file_set, leaf_globs}
use skill_code_review.Planner.Coverage.{
  planned_files, picked_leaves, changed_paths, scope, batch_size, plan-files, plan-batches,
}
use skill_code_review.Planner.Packing.{IsFull, Numbered}
use skill_code_review.Planner.Files.{in_scope, contains-leaf_file_set, plan-total_files}
use skill_code_review.Planner.Budget.{FitsBudget, file_units-FitsBudget}
use skill_code_review.Triage.{
  Triage, sensitive, signals_fired, cap_overridden, risk_tier_triage, diff_stat,
  detect_risk_signals, iac_present, path_signals,
}
use skill_code_review.Triage.Bounds.{InRange, TierFits, triage-TierFits, triage-infinite_override}
use skill_code_review.Triage.Signals.{some_path_gives, detect_risk_signals-contains}
use skill_code_review.Spec.{
  StateId, write_run_directory, emit_stdout, terminal, risk_tier_triage as triage_state,
}
use skill_code_review.Spec.Runs.{visits, entry, visits-entry}

abbrev leaf : String → List Value → Value
leaf leaf_id globs = object (("id", str leaf_id) ∷ ("file_globs", array globs) ∷ [])

-- Five changed files, two leaves, batches of two units, and at most 1,000 tokens a leaf: the first
-- leaf is cut into units of two files.
abbrev review_env : Dict Value
review_env =
    ("tier", str "full")
    ∷ ("args", object (("batch_size", int (pos 2)) ∷ ("max_leaf_tokens", int (pos 1000)) ∷ []))
    ∷ (
      "changed_paths",
      array (str "a.py" ∷ str "b.py" ∷ str "c.ts" ∷ str "d/e.py" ∷ str "f.md" ∷ []),
    )
    ∷ ("picked_leaves", array (leaf "lang-all" [] ∷ leaf "lang-python" (str "**/*.py" ∷ []) ∷ []))
    ∷ []

plan-files_example :
    planned_files (plan_specialist_batches review_env)
    ≡ flat_map (scope (changed_paths review_env)) (picked_leaves review_env)
plan-files_example = plan-files review_env

plan-batches_example :
    let p = plan_specialist_batches review_env in
    All (IsFull (batch_size review_env)) p.specialist_batches
    × Numbered 1 p.specialist_batches
    × (p.total_batches ≡ length p.specialist_batches)
plan-batches_example = plan-batches review_env

plan-total_files_example :
    let p = plan_specialist_batches review_env in
    (files : List String) × Distinct files
    × ((k : String) → contains k files ≡ contains k (planned_files p))
    × (p.total_files_planned ≡ length files)
plan-total_files_example = plan-total_files review_env

abbrev python_leaf : Dict Value
python_leaf = ("id", str "lang-python") ∷ ("file_globs", array (str "**/*.py" ∷ [])) ∷ []

contains-leaf_file_set_example :
    contains "d/e.py" (leaf_file_set python_leaf ("d/e.py" ∷ "f.md" ∷ [])) ≡ (
      contains "d/e.py" ("d/e.py" ∷ "f.md" ∷ [])
      && in_scope (as_list (leaf_globs python_leaf)) "d/e.py")
contains-leaf_file_set_example =
    contains-leaf_file_set python_leaf ("d/e.py" ∷ "f.md" ∷ []) "d/e.py"

file_units-FitsBudget_example :
    All (FitsBudget 1200) (file_units 1200 "leaf" ("a" ∷ "b" ∷ "c" ∷ []))
file_units-FitsBudget_example =
    file_units-FitsBudget 1200 "leaf" ("a" ∷ "b" ∷ "c" ∷ []) (omega arith)

-- Parsers that read one text each.
abbrev parsers : Parsers
parsers = record {
  parse_int = λ s. none;
  parse_float = λ s. if str_eq s "inf" then some (infinity true) else none;
}

abbrev triage_env : Dict Value
triage_env =
    ("changed_paths", array (str "src/auth.py" ∷ []))
    ∷ ("diff_stats", object (("lines_changed", int (pos 4)) ∷ ("files_changed", int (pos 1)) ∷ []))
    ∷ ("args", object (("max-reviewers", int (pos 90)) ∷ []))
    ∷ []

abbrev triage_result : Triage
triage_result = record {
  tier = sensitive;
  cap = 50;
  tier_rationale = cap_overridden (signals_fired ("keyword:auth" ∷ [])) 50;
  risk_signals = "keyword:auth" ∷ [];
  scope_overrides_present = false;
}

triage_run : risk_tier_triage parsers triage_env ≡ ok triage_result
unfolding risk_tier_triage get lookup ensure_dict sorted sort ensure_list update path_signals add
    contains sort_insert
triage_run = refl

triage-TierFits_example :
    let stats = ensure_dict (get triage_env "diff_stats") in
    (lines : ℤ) × (files : ℤ) × (diff_stat parsers stats "lines_changed" ≡ ok lines)
    × (diff_stat parsers stats "files_changed" ≡ ok files)
    × InRange 50
    × TierFits ("keyword:auth" ∷ []) lines files sensitive
triage-TierFits_example = triage-TierFits parsers triage_env triage_result triage_run

abbrev infinite_env : Dict Value
infinite_env =
    ("diff_stats", object (("lines_changed", int (pos 4)) ∷ ("files_changed", int (pos 1)) ∷ []))
    ∷ ("args", object (("max-reviewers", str "inf") ∷ []))
    ∷ []

triage-infinite_override_example : risk_tier_triage parsers infinite_env ≡ raise overflow_error
triage-infinite_override_example =
    triage-infinite_override parsers infinite_env "inf" true (pos 4) (pos 1)
      (unfold get lookup ensure_dict in refl) refl (unfold diff_stat get lookup ensure_dict in refl)
      (unfold diff_stat get lookup ensure_dict in refl)

abbrev profile : Dict Value
profile = ("iac", array (str "terraform" ∷ [])) ∷ []

detect_risk_signals-contains_example :
    InOrder str_leb (detect_risk_signals (str "k8s/app.yaml" ∷ []) profile)
    × (contains "profile:iac-present" (detect_risk_signals (str "k8s/app.yaml" ∷ []) profile) ≡ (
        some_path_gives "profile:iac-present" (str "k8s/app.yaml" ∷ [])
        || (iac_present profile && str_eq "profile:iac-present" "profile:iac-present")))
detect_risk_signals-contains_example =
    detect_risk_signals-contains (str "k8s/app.yaml" ∷ []) profile "profile:iac-present"

visits-entry_example :
    (before : List StateId) × (visits (λ n text. false) 20 entry
      ≡ before ++ write_run_directory ∷ emit_stdout ∷ terminal ∷ [])
    × (length (visits (λ n text. false) 20 entry) ≤ 16)
visits-entry_example = visits-entry (λ n text. false) 20 (omega arith)

abbrev scanned : List String
scanned = ("args" ∷ "loop_iters" ∷ []) ++ ("project_profile" ∷ "changed_paths" ∷ "diff_stats" ∷ [])
