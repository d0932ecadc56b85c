-- ===== src/Spec/Selection.antt =====
-- code_review/spec.py: the states from the scan of the project to the discovery of tools.
use skill_code_review.Base.{[], ◌∷◌}
use skill_code_review.Spec.{
  scan_project, risk_tier_triage, activate_leaves, tree_descend, llm_trim, tool_discovery,
  plan_specialist_batches, short_circuit_exit, stage_a_empty, verifier_stuck, always, predicate,
  inline, worker, present, array_in, nonempty, State, verifier_stuck_predicate, in_set, to_state,
}

-- `_scan_project`
abbrev pub scan_project_state : State
scan_project_state = record {
  body = worker "project-scanner" ("args" ∷ []);
  preconditions = [];
  outputs = "project_profile" ∷ "changed_paths" ∷ "diff_stats" ∷ [];
  post_validations = "len(project_profile.languages) > 0" ∷ "diff_stats.lines_changed >= 0" ∷ [];
  allowed_tools =
      "Bash(git diff:*)" ∷ "Bash(git log:*)" ∷ "Bash(git status:*)" ∷ "Bash(git ls-files:*)"
      ∷ "Bash(cat:*)" ∷ "Read" ∷ "Glob" ∷ [];
  transitions =
      to_state verifier_stuck (verifier_stuck_predicate scan_project)
      ∷ to_state risk_tier_triage always
      ∷ [];
}

-- `_risk_tier_triage`
abbrev pub risk_tier_triage_state : State
risk_tier_triage_state = record {
  body = inline;
  preconditions = present "project_profile" ∷ present "changed_paths" ∷ present "diff_stats" ∷ [];
  outputs = "tier" ∷ "cap" ∷ "tier_rationale" ∷ "risk_signals" ∷ "scope_overrides_present" ∷ [];
  post_validations =
      (in_set "tier" ("trivial" ∷ "lite" ∷ "full" ∷ "sensitive" ∷ []))
      ∷ "cap >= 3 AND cap <= 50"
      ∷ [];
  allowed_tools = [];
  transitions =
      to_state short_circuit_exit
        (predicate "tier == 'trivial' AND len(risk_signals) == 0 AND NOT scope_overrides_present")
      ∷ to_state activate_leaves always
      ∷ [];
}

-- `_activate_leaves`
abbrev pub activate_leaves_state : State
activate_leaves_state = record {
  body = inline;
  preconditions = present "project_profile" ∷ present "changed_paths" ∷ [];
  outputs = "activated_leaves" ∷ [];
  post_validations = "len(activated_leaves) >= 0" ∷ [];
  allowed_tools = [];
  transitions =
      to_state stage_a_empty (predicate "len(activated_leaves) == 0")
      ∷ to_state tree_descend always
      ∷ [];
}

-- `_tree_descend`
abbrev pub tree_descend_state : State
tree_descend_state = record {
  body =
      worker "tree-descender"
        ("project_profile" ∷ "changed_paths" ∷ "tier" ∷ "activated_leaves" ∷ []);
  preconditions = present "project_profile" ∷ present "tier" ∷ present "activated_leaves" ∷ [];
  outputs = "stage_a_candidates" ∷ "descent_path" ∷ [];
  post_validations = "len(stage_a_candidates) >= 0" ∷ [];
  allowed_tools = "Read" ∷ [];
  transitions =
      to_state verifier_stuck (verifier_stuck_predicate tree_descend)
      ∷ to_state stage_a_empty (predicate "len(stage_a_candidates) == 0")
      ∷ to_state llm_trim always
      ∷ [];
}

-- `_llm_trim`
abbrev pub llm_trim_state : State
llm_trim_state = record {
  body =
      worker "trim-candidates"
        ("project_profile" ∷ "changed_paths" ∷ "tier" ∷ "cap" ∷ "stage_a_candidates" ∷ []);
  preconditions = nonempty "stage_a_candidates" ∷ present "cap" ∷ [];
  outputs = "picked_leaves" ∷ "rejected_leaves" ∷ "coverage_rescues" ∷ [];
  post_validations = "len(picked_leaves) >= 0" ∷ [];
  allowed_tools = [];
  transitions =
      to_state verifier_stuck (verifier_stuck_predicate llm_trim)
      ∷ to_state tool_discovery always
      ∷ [];
}

-- `_tool_discovery`
abbrev pub tool_discovery_state : State
tool_discovery_state = record {
  body = worker "tool-runner" ("picked_leaves" ∷ "args" ∷ []);
  preconditions = array_in "picked_leaves" ∷ [];
  outputs = "tool_results" ∷ [];
  post_validations = [];
  allowed_tools =
      "Bash(eslint:*)" ∷ "Bash(ruff:*)" ∷ "Bash(mypy:*)" ∷ "Bash(npm test:*)" ∷ "Bash(pytest:*)"
      ∷ "Bash(cargo:*)" ∷ "Bash(go test:*)" ∷ "Bash(which:*)" ∷ "Read" ∷ [];
  transitions =
      to_state verifier_stuck (verifier_stuck_predicate tool_discovery)
      ∷ to_state plan_specialist_batches always
      ∷ [];
}
