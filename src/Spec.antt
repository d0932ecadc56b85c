-- ===== src/Spec.antt =====
-- code_review/spec.py, the state machine of a review: the states and what their transitions,
-- preconditions and outputs say. Prompts, response schemas and verifiers are not modelled.
pub mod Selection
pub mod Review
pub mod Runs
pub mod Flow
use Prim.Native.String.{◌++◌ as ◌<>◌}
use skill_code_review.Base.{
  ℕ, zero, suc, String, Bool, true, false, Option, none, some, List, [], ◌∷◌, if◌then◌else◌,
}

pub data StateId : Type 0 where
  scan_project : StateId
  risk_tier_triage : StateId
  activate_leaves : StateId
  tree_descend : StateId
  llm_trim : StateId
  tool_discovery : StateId
  plan_specialist_batches : StateId
  dispatch_specialists : StateId
  merge_specialist_outputs : StateId
  collect_findings : StateId
  rank_findings : StateId
  verify_coverage : StateId
  synthesize_release_readiness : StateId
  write_run_directory : StateId
  emit_stdout : StateId
  short_circuit_exit : StateId
  stage_a_empty : StateId
  verifier_stuck : StateId
  terminal : StateId

-- The `id` of a state.
unfoldable pub id_text : StateId → String
id_text scan_project = "scan_project"
id_text risk_tier_triage = "risk_tier_triage"
id_text activate_leaves = "activate_leaves"
id_text tree_descend = "tree_descend"
id_text llm_trim = "llm_trim"
id_text tool_discovery = "tool_discovery"
id_text plan_specialist_batches = "plan_specialist_batches"
id_text dispatch_specialists = "dispatch_specialists"
id_text merge_specialist_outputs = "merge_specialist_outputs"
id_text collect_findings = "collect_findings"
id_text rank_findings = "rank_findings"
id_text verify_coverage = "verify_coverage"
id_text synthesize_release_readiness = "synthesize_release_readiness"
id_text write_run_directory = "write_run_directory"
id_text emit_stdout = "emit_stdout"
id_text short_circuit_exit = "short_circuit_exit"
id_text stage_a_empty = "stage_a_empty"
id_text verifier_stuck = "verifier_stuck"
id_text terminal = "terminal"

-- When a transition is taken: `always`, or by a predicate that the engine evaluates.
pub data Guard : Type 0 where
  always : Guard
  predicate : String → Guard

pub record Transition : Type 0 where
  pub to : StateId
  pub when : Guard

-- What a state does: it runs an inline handler of its own name, a worker with a role and the names
-- of its inputs, or a worker in a loop, with the greatest number of iterations and the field that
-- ends it; the last state does nothing.
pub data Body : Type 0 where
  inline : Body
  worker : String → List String → Body
  loop : String → List String → ℕ → String → Body
  final : Body

-- The texts of `preconditions`: `x exists in run state`, `x is an array`, `x is non-empty`,
-- `x is empty` and `x == 'v'`.
pub data Precondition : Type 0 where
  present array_in nonempty empty : String → Precondition
  equal : String → String → Precondition

pub record State : Type 0 where
  pub body : Body
  pub preconditions : List Precondition
  pub outputs : List String
  pub post_validations : List String
  pub allowed_tools : List String
  pub transitions : List Transition

-- `_verifier_stuck_predicate`
unfoldable pub verifier_stuck_predicate : StateId → Guard
unfolding id_text
verifier_stuck_predicate state_id =
    predicate ("verifier_rejection_counts." <> (id_text state_id <> " >= 3"))

-- `_in_set`
unfoldable pub in_set : String → List String → String
in_set field [] = ""
in_set field (value ∷ []) = field <> (" == '" <> (value <> "'"))
in_set field (value ∷ v ∷ values) =
    field <> (" == '" <> (value <> ("' OR " <> in_set field (v ∷ values))))

abbrev pub to_state : StateId → Guard → Transition
to_state s guard = record { to = s; when = guard }
