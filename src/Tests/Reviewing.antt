-- ===== src/Tests/Reviewing.antt =====
-- Examples for the loop of a review.
use skill_code_review.Base.{
  insert, lookup, ℕ, String, Bool, Option, none, some, List, [], ◌∷◌, ◌++◌, ◌≡◌, ◌≤◌, refl, Dict,
  str_eq,
}
use skill_code_review.Value.{get, Value, null, str, array}
use skill_code_review.Runner.{Outcome, output}
use skill_code_review.Merger.{Outputs}
use skill_code_review.Spec.{
  verifier_stuck_predicate, id_text, StateId, scan_project, risk_tier_triage, short_circuit_exit,
  write_run_directory,
}
use skill_code_review.Spec.Runs.{next_state}
use skill_code_review.Review.{
  Engine, Executed, executed, Advance, advance_fault, moved, Stage, in_worker, in_inline,
  in_advance, Stop, stopped, run_review,
}
use skill_code_review.Review.Measure.{Follows, Answers}
use skill_code_review.Review.Steps.{stage}
use skill_code_review.Review.Finish.{write_rows, emit_rows}
use skill_code_review.Review.Termination.{run_review-stops, run_review-finished}
use skill_code_review.Tests.Activating.{numbers_only, show}

-- A review of a trivial change: the only predicate that holds is that of the short circuit.
abbrev is_trivial : String → Bool
is_trivial text =
    str_eq text "tier == 'trivial' AND len(risk_signals) == 0 AND NOT scope_overrides_present"

abbrev answer : Option StateId → Advance
answer none = advance_fault "no transition"
answer (some t) = moved (some t)

abbrev execute : StateId → Option ℕ → Dict Value → Executed
execute short_circuit_exit n env = executed (("verdict", str "GO") ∷ ("findings", array []) ∷ [])
execute write_run_directory n env = executed (("run_dir_path", str "runs/1") ∷ [])
execute s n env = executed []

abbrev engine : Engine
engine = record { execute = execute; advance = λ s n env out. answer (next_state is_trivial s) }

answer-Answers :
    (s : StateId) (n : Option ℕ) (o : Option StateId)
    → next_state is_trivial s ≡ o
    → Answers s n (answer o)
answer-Answers s n none h = tt
answer-Answers s n (some t) h = (is_trivial, h)

engine-Follows : Follows engine
engine-Follows s n env out = answer-Answers s n (next_state is_trivial s) refl

abbrev scanner : ℕ → Outcome
scanner n = output (("project_profile", str "small") ∷ [])

abbrev no_findings : Dict Value → Dict Value
no_findings u = []

abbrev no_times : List Stage → Outputs → Value
no_times stages results = null

run_review-stops_example :
    (e : Stop) × (stages : List Stage) × ((steps : ℕ)
      → 79 ≤ steps
      → run_review numbers_only show engine scanner no_findings no_times 2 steps []
        ≡ (stopped e, stages))
run_review-stops_example =
    run_review-stops numbers_only show engine engine-Follows scanner no_findings no_times 2 []

-- The states before the run directory is written.
abbrev first_stages : List Stage
first_stages =
    stage in_worker scan_project none
    ∷ stage in_advance scan_project none
    ∷ stage in_inline risk_tier_triage none
    ∷ stage in_advance risk_tier_triage none
    ∷ stage in_inline short_circuit_exit none
    ∷ stage in_advance short_circuit_exit none
    ∷ []

run_review-finished_example :
    (before : List Stage) × (first_stages ++ (write_rows ++ emit_rows)
      ≡ before ++ (write_rows ++ emit_rows))
unfolding run_review id_text next_state verifier_stuck_predicate get lookup insert
run_review-finished_example =
    run_review-finished numbers_only show engine engine-Follows scanner no_findings no_times 2 []
      {verdict = str "GO"} {run_dir_path = str "runs/1"} {findings = array []} refl
