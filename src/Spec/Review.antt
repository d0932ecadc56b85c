-- ===== src/Spec/Review.antt =====
-- code_review/spec.py: the states from the plan of the batches to the end, with the early exits.
use skill_code_review.Base.{[], ◌∷◌}
use skill_code_review.Spec.{
  dispatch_specialists, merge_specialist_outputs, collect_findings, rank_findings, verify_coverage,
  synthesize_release_readiness, write_run_directory, emit_stdout, verifier_stuck, terminal, always,
  predicate, inline, worker, loop, final, present, array_in, empty, equal, State,
  verifier_stuck_predicate, in_set, to_state,
}

-- `_plan_specialist_batches`
abbrev pub plan_specialist_batches_state : State
plan_specialist_batches_state = record {
  body = inline;
  preconditions = array_in "picked_leaves" ∷ present "changed_paths" ∷ [];
  outputs = "specialist_batches" ∷ "total_batches" ∷ "total_files_planned" ∷ [];
  post_validations =
      "len(specialist_batches) >= 0" ∷ "total_batches >= 0" ∷ "total_files_planned >= 0"
      ∷ "(len(picked_leaves) == 0) OR (total_batches > 0)" ∷ [];
  allowed_tools = [];
  transitions =
      to_state merge_specialist_outputs (predicate "total_batches == 0")
      ∷ to_state dispatch_specialists always
      ∷ [];
}

-- `_dispatch_specialists`
abbrev pub dispatch_specialists_state : State
dispatch_specialists_state = record {
  body =
      loop "specialist-batch"
        ("project_profile" ∷ "changed_paths" ∷ "tool_results" ∷ "specialist_batches"
          ∷ "total_batches" ∷ "picked_leaves" ∷ [])
        64 "loop_done";
  preconditions =
      array_in "picked_leaves" ∷ present "specialist_batches" ∷ present "total_batches" ∷ [];
  outputs = "batch_index" ∷ "iter_outputs" ∷ "loop_done" ∷ [];
  post_validations = [];
  allowed_tools =
      "Read" ∷ "Grep" ∷ "Glob" ∷ "WebFetch" ∷ "Bash(git diff:*)" ∷ "Bash(git log:*)" ∷ "Task" ∷ [];
  transitions =
      to_state verifier_stuck (verifier_stuck_predicate dispatch_specialists)
      ∷ to_state merge_specialist_outputs always
      ∷ [];
}

-- `_merge_specialist_outputs`
abbrev pub merge_specialist_outputs_state : State
merge_specialist_outputs_state = record {
  body = inline;
  preconditions = present "specialist_batches" ∷ present "total_files_planned" ∷ [];
  outputs = "specialist_outputs" ∷ [];
  post_validations = "len(specialist_outputs) >= 0" ∷ [];
  allowed_tools = [];
  transitions = to_state collect_findings always ∷ [];
}

-- `_collect_findings`
abbrev pub collect_findings_state : State
collect_findings_state = record {
  body = inline;
  preconditions = present "specialist_outputs" ∷ [];
  outputs = "findings" ∷ "severity_counts" ∷ [];
  post_validations = "len(findings) >= 0" ∷ [];
  allowed_tools = [];
  transitions = to_state rank_findings always ∷ [];
}

-- `_rank_findings`
abbrev pub rank_findings_state : State
rank_findings_state = record {
  body = worker "finding-ranker" ("findings" ∷ "changed_paths" ∷ "args" ∷ []);
  preconditions = present "findings" ∷ [];
  outputs = "findings" ∷ "severity_counts" ∷ [];
  post_validations = "len(findings) >= 0" ∷ [];
  allowed_tools = [];
  transitions =
      to_state verifier_stuck (verifier_stuck_predicate rank_findings)
      ∷ to_state verify_coverage always
      ∷ [];
}

-- `_verify_coverage`
abbrev pub verify_coverage_state : State
verify_coverage_state = record {
  body = inline;
  preconditions = present "findings" ∷ present "picked_leaves" ∷ present "changed_paths" ∷ [];
  outputs = "coverage_matrix" ∷ "coverage_gaps" ∷ "coverage_rule_violated" ∷ [];
  post_validations = "len(coverage_matrix) >= 0" ∷ [];
  allowed_tools = [];
  transitions = to_state synthesize_release_readiness always ∷ [];
}

-- `_synthesize_release_readiness`
abbrev pub synthesize_release_readiness_state : State
synthesize_release_readiness_state = record {
  body = inline;
  preconditions = present "findings" ∷ present "picked_leaves" ∷ [];
  outputs = "gates" ∷ "verdict" ∷ [];
  post_validations =
      (in_set "verdict" ("GO" ∷ "CONDITIONAL" ∷ "NO-GO" ∷ [])) ∷ "len(gates) == 8" ∷ [];
  allowed_tools = [];
  transitions = to_state write_run_directory always ∷ [];
}

-- `_write_run_directory`
abbrev pub write_run_directory_state : State
write_run_directory_state = record {
  body = inline;
  preconditions = present "verdict" ∷ present "gates" ∷ [];
  outputs = "run_dir_path" ∷ [];
  post_validations = "len(run_dir_path) > 0" ∷ [];
  allowed_tools = [];
  transitions = to_state emit_stdout always ∷ [];
}

-- `_emit_stdout`
abbrev pub emit_stdout_state : State
emit_stdout_state = record {
  body = inline;
  preconditions = present "run_dir_path" ∷ [];
  outputs = [];
  post_validations = [];
  allowed_tools = [];
  transitions = to_state terminal always ∷ [];
}

-- `_short_circuit_exit`
abbrev pub short_circuit_exit_state : State
short_circuit_exit_state = record {
  body = inline;
  preconditions = equal "tier" "trivial" ∷ [];
  outputs =
      "findings" ∷ "severity_counts" ∷ "coverage_matrix" ∷ "coverage_gaps" ∷ "gates" ∷ "verdict"
      ∷ "short_circuited" ∷ [];
  post_validations = "verdict == 'GO'" ∷ "len(findings) == 0" ∷ [];
  allowed_tools = [];
  transitions = to_state write_run_directory always ∷ [];
}

-- `_stage_a_empty`
abbrev pub stage_a_empty_state : State
stage_a_empty_state = record {
  body = inline;
  preconditions = empty "stage_a_candidates" ∷ [];
  outputs =
      "findings" ∷ "severity_counts" ∷ "coverage_matrix" ∷ "coverage_gaps" ∷ "gates" ∷ "verdict"
      ∷ "degraded_run" ∷ [];
  post_validations = "verdict == 'CONDITIONAL'" ∷ "degraded_run == true" ∷ [];
  allowed_tools = [];
  transitions = to_state write_run_directory always ∷ [];
}

-- `_verifier_stuck`
abbrev pub verifier_stuck_state : State
verifier_stuck_state = record {
  body = inline;
  preconditions = present "verifier_rejection_counts" ∷ [];
  outputs = "verifier_stuck" ∷ "degraded_run" ∷ "verifier_rejection_counts" ∷ "failed_units" ∷ [];
  post_validations = "degraded_run == true" ∷ [];
  allowed_tools = [];
  transitions = to_state synthesize_release_readiness always ∷ [];
}

-- `_terminal`
abbrev pub terminal_state : State
terminal_state = record {
  body = final;
  preconditions = [];
  outputs = [];
  post_validations = [];
  allowed_tools = [];
  transitions = [];
}
