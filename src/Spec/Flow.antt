-- ===== src/Spec/Flow.antt =====
-- code_review/spec.py: every name that a state reads is an argument of the run or an output of a state
-- before it, on each run that does not go through `verifier_stuck`.
use skill_code_review.Base.{
  String, Bool, true, false, ◌||◌, some, List, [], ◌∷◌, ◌++◌, ◌≡◌, contains, all,
}
use skill_code_review.Spec.{
  StateId, scan_project, risk_tier_triage, activate_leaves, tree_descend, llm_trim, tool_discovery,
  plan_specialist_batches, dispatch_specialists, merge_specialist_outputs, collect_findings,
  rank_findings, verify_coverage, synthesize_release_readiness, write_run_directory, emit_stdout,
  short_circuit_exit, stage_a_empty, verifier_stuck, terminal, Body, inline, worker, loop, final,
  Precondition, present, array_in, nonempty, empty, equal,
}
use skill_code_review.Spec.Runs.{state_of, entry, Evaluator, next_state}

abbrev inputs_of : Body → List String
inputs_of inline = []
inputs_of (worker role inputs) = inputs
inputs_of (loop role inputs limit field) = inputs
inputs_of final = []

-- What the preconditions name; one that asks for an empty list holds without it too.
abbrev named_in : List Precondition → List String
named_in [] = []
named_in (present x ∷ ps) = x ∷ named_in ps
named_in (array_in x ∷ ps) = x ∷ named_in ps
named_in (nonempty x ∷ ps) = x ∷ named_in ps
named_in (equal x v ∷ ps) = x ∷ named_in ps
named_in (empty x ∷ ps) = named_in ps

-- The names that a state reads: the inputs of its worker, and what its preconditions name.
abbrev pub reads : StateId → List String
reads s = named_in (state_of s).preconditions ++ inputs_of (state_of s).body

abbrev pub is_impasse : StateId → Bool
is_impasse verifier_stuck = true
is_impasse _ = false

-- A run has come to a state, with these names in its environment. `run_review` starts with two, and
-- merges the outputs of each state.
pub data Arrives : StateId → List String → Type 0 where
  start : Arrives entry ("args" ∷ "loop_iters" ∷ [])
  step :
      {s t : StateId} {env : List String} (eval : Evaluator)
      → Arrives s env
      → next_state eval s ≡ some t
      → is_impasse t ≡ false
      → Arrives t (env ++ (state_of s).outputs)

abbrev given_base : List String
given_base = "args" ∷ "loop_iters" ∷ []

abbrev given_scan : List String
given_scan = given_base ++ ("project_profile" ∷ "changed_paths" ∷ "diff_stats" ∷ [])

abbrev given_tier : List String
given_tier =
    given_scan
    ++ ("tier" ∷ "cap" ∷ "tier_rationale" ∷ "risk_signals" ∷ "scope_overrides_present" ∷ [])

abbrev given_activation : List String
given_activation = given_tier ++ ("activated_leaves" ∷ [])

abbrev given_descent : List String
given_descent = given_activation ++ ("stage_a_candidates" ∷ "descent_path" ∷ [])

abbrev given_leaves : List String
given_leaves = given_descent ++ ("picked_leaves" ∷ "rejected_leaves" ∷ "coverage_rescues" ∷ [])

abbrev given_tools : List String
given_tools = given_leaves ++ ("tool_results" ∷ [])

abbrev given_plan : List String
given_plan = given_tools ++ ("specialist_batches" ∷ "total_batches" ∷ "total_files_planned" ∷ [])

abbrev given_merge : List String
given_merge = given_plan ++ ("specialist_outputs" ∷ [])

abbrev given_findings : List String
given_findings = given_merge ++ ("findings" ∷ "severity_counts" ∷ [])

abbrev given_coverage : List String
given_coverage =
    given_findings ++ ("coverage_matrix" ∷ "coverage_gaps" ∷ "coverage_rule_violated" ∷ [])

abbrev given_verdict : List String
given_verdict =
    given_tier
    ++ ("findings" ∷ "severity_counts" ∷ "coverage_matrix" ∷ "coverage_gaps" ∷ "gates" ∷ "verdict"
        ∷ [])

abbrev given_run_dir : List String
given_run_dir = given_verdict ++ ("run_dir_path" ∷ [])

-- The names that are there whenever a run comes to the state.
abbrev given : StateId → List String
given scan_project = given_base
given risk_tier_triage = given_scan
given activate_leaves = given_tier
given tree_descend = given_activation
given llm_trim = given_descent
given tool_discovery = given_leaves
given plan_specialist_batches = given_tools
given dispatch_specialists = given_plan
given merge_specialist_outputs = given_plan
given collect_findings = given_merge
given rank_findings = given_findings
given verify_coverage = given_findings
given synthesize_release_readiness = given_coverage
given write_run_directory = given_verdict
given emit_stdout = given_run_dir
given short_circuit_exit = given_tier
given stage_a_empty = given_activation
given verifier_stuck = []
given terminal = given_run_dir

abbrev pub within : List String → List String → Bool
within xs env = all (λ x. contains x env) xs

-- The outputs of `s` give what is there in its target `t`.
abbrev gives : StateId → StateId → Bool
gives s t = is_impasse t || within (given t) (given s ++ (state_of s).outputs)

abbrev consistent : StateId → Bool
consistent s = is_impasse s || all (λ tr. gives s tr.to) (state_of s).transitions
