-- ===== src/Spec/Runs.antt =====
-- code_review/spec.py `build_spec` as the engine runs it: the first transition whose guard holds is
-- taken. How a predicate is evaluated is the engine's, and is an argument.
use skill_code_review.Base.{
  ℕ, zero, suc, ◌≤◌, ◌<◌, String, Bool, true, false, Option, none, some, List, [], ◌∷◌, ◌++◌, ◌≡◌,
  ◌⊎◌, inl, inr, refl, ap, arith, length, if◌then◌else◌,
}
use skill_code_review.Spec.{
  verifier_stuck_predicate, StateId, scan_project, risk_tier_triage, activate_leaves, tree_descend,
  llm_trim, tool_discovery, plan_specialist_batches, dispatch_specialists, merge_specialist_outputs,
  collect_findings, rank_findings, verify_coverage, synthesize_release_readiness,
  write_run_directory, emit_stdout, short_circuit_exit, stage_a_empty, verifier_stuck, terminal,
  Guard, always, predicate, Transition, State,
}
use skill_code_review.Spec.Selection.{
  scan_project_state, risk_tier_triage_state, activate_leaves_state, tree_descend_state,
  llm_trim_state, tool_discovery_state,
}
use skill_code_review.Spec.Review.{
  plan_specialist_batches_state, dispatch_specialists_state, merge_specialist_outputs_state,
  collect_findings_state, rank_findings_state, verify_coverage_state,
  synthesize_release_readiness_state, write_run_directory_state, emit_stdout_state,
  short_circuit_exit_state, stage_a_empty_state, verifier_stuck_state, terminal_state,
}

-- `build_spec`, by the id of a state.
unfoldable pub state_of : StateId → State
state_of scan_project = scan_project_state
state_of risk_tier_triage = risk_tier_triage_state
state_of activate_leaves = activate_leaves_state
state_of tree_descend = tree_descend_state
state_of llm_trim = llm_trim_state
state_of tool_discovery = tool_discovery_state
state_of plan_specialist_batches = plan_specialist_batches_state
state_of dispatch_specialists = dispatch_specialists_state
state_of merge_specialist_outputs = merge_specialist_outputs_state
state_of collect_findings = collect_findings_state
state_of rank_findings = rank_findings_state
state_of verify_coverage = verify_coverage_state
state_of synthesize_release_readiness = synthesize_release_readiness_state
state_of write_run_directory = write_run_directory_state
state_of emit_stdout = emit_stdout_state
state_of short_circuit_exit = short_circuit_exit_state
state_of stage_a_empty = stage_a_empty_state
state_of verifier_stuck = verifier_stuck_state
state_of terminal = terminal_state

-- The states that `build_spec` lists, in its order.
abbrev pub spec_states : List StateId
spec_states =
    scan_project ∷ risk_tier_triage ∷ activate_leaves ∷ tree_descend ∷ llm_trim ∷ tool_discovery
    ∷ plan_specialist_batches ∷ dispatch_specialists ∷ merge_specialist_outputs ∷ collect_findings
    ∷ rank_findings ∷ verify_coverage ∷ synthesize_release_readiness ∷ write_run_directory
    ∷ emit_stdout ∷ short_circuit_exit ∷ stage_a_empty ∷ verifier_stuck ∷ terminal ∷ []

-- `entry`
abbrev pub entry : StateId
entry = scan_project

-- A predicate's value in the run state.
abbrev pub Evaluator : Type 0
Evaluator = String → Bool

abbrev pub holds : Evaluator → Guard → Bool
holds eval always = true
holds eval (predicate text) = eval text

unfoldable pub first_transition : Evaluator → List Transition → Option StateId
first_transition eval [] = none
first_transition eval (t ∷ ts) =
    let later = first_transition eval ts in if holds eval t.when then some t.to else later

unfoldable pub next_state : Evaluator → StateId → Option StateId
unfolding state_of first_transition
next_state eval s = first_transition eval (state_of s).transitions

-- How many transitions are left at most.
abbrev pub rank : StateId → ℕ
rank scan_project = 15
rank risk_tier_triage = 14
rank activate_leaves = 13
rank tree_descend = 12
rank llm_trim = 11
rank tool_discovery = 10
rank plan_specialist_batches = 9
rank dispatch_specialists = 8
rank merge_specialist_outputs = 7
rank collect_findings = 6
rank rank_findings = 5
rank verify_coverage = 4
rank synthesize_release_readiness = 3
rank write_run_directory = 2
rank emit_stdout = 1
rank short_circuit_exit = 3
rank stage_a_empty = 3
rank verifier_stuck = 4
rank terminal = 0

-- A state below the rank `r`, and not an exit unless `r` is one.
abbrev pub Below : ℕ → StateId → Type 0
Below r t = (rank t < r) × (2 < r → 2 ≤ rank t)

branch :
    {P : StateId → Type 0} (b : Bool) (x y : StateId)
    → P x
    → P y
    → (t : StateId) × ((if b then some x else some y) ≡ some t) × P t
branch true x y h i = (x, refl, h)
branch false x y h i = (y, refl, i)

-- A test before a choice that is made.
branch_before :
    {P : StateId → Type 0} (b : Bool) (x : StateId) (o : Option StateId)
    → P x
    → (t : StateId) × (o ≡ some t) × P t
    → (t : StateId) × ((if b then some x else o) ≡ some t) × P t
branch_before true x o h i = (x, refl, h)
branch_before false x o h i = i

-- Every state but the last has a next one, whatever the predicates evaluate to, and its rank is
-- lower; the last has none.
pub next_state-rank :
    (eval : Evaluator) (s : StateId)
    → ((s ≡ terminal) × (next_state eval s ≡ none))
      ⊎ ((t : StateId) × (next_state eval s ≡ some t) × Below (rank s) t)
unfolding next_state
next_state-rank eval scan_project = inr (
    branch {P = Below 15} (holds eval (verifier_stuck_predicate scan_project)) verifier_stuck
      risk_tier_triage (omega arith, λ h. omega arith) (omega arith, λ h. omega arith))
next_state-rank eval risk_tier_triage = inr (
    branch {P = Below 14}
      (holds eval
        (predicate "tier == 'trivial' AND len(risk_signals) == 0 AND NOT scope_overrides_present"))
      short_circuit_exit activate_leaves (omega arith, λ h. omega arith)
      (omega arith, λ h. omega arith))
next_state-rank eval activate_leaves = inr (
    branch {P = Below 13} (holds eval (predicate "len(activated_leaves) == 0")) stage_a_empty
      tree_descend (omega arith, λ h. omega arith) (omega arith, λ h. omega arith))
next_state-rank eval tree_descend = inr (
    branch_before {P = Below 12} (holds eval (verifier_stuck_predicate tree_descend)) verifier_stuck
      _ (omega arith, λ h. omega arith)
      (branch {P = Below 12} (holds eval (predicate "len(stage_a_candidates) == 0")) stage_a_empty
        llm_trim (omega arith, λ h. omega arith) (omega arith, λ h. omega arith)))
next_state-rank eval llm_trim = inr (
    branch {P = Below 11} (holds eval (verifier_stuck_predicate llm_trim)) verifier_stuck
      tool_discovery (omega arith, λ h. omega arith) (omega arith, λ h. omega arith))
next_state-rank eval tool_discovery = inr (
    branch {P = Below 10} (holds eval (verifier_stuck_predicate tool_discovery)) verifier_stuck
      plan_specialist_batches (omega arith, λ h. omega arith) (omega arith, λ h. omega arith))
next_state-rank eval plan_specialist_batches = inr (
    branch {P = Below 9} (holds eval (predicate "total_batches == 0")) merge_specialist_outputs
      dispatch_specialists (omega arith, λ h. omega arith) (omega arith, λ h. omega arith))
next_state-rank eval dispatch_specialists = inr (
    branch {P = Below 8} (holds eval (verifier_stuck_predicate dispatch_specialists)) verifier_stuck
      merge_specialist_outputs (omega arith, λ h. omega arith) (omega arith, λ h. omega arith))
next_state-rank eval merge_specialist_outputs =
    inr (collect_findings, refl, (omega arith, λ h. omega (arith, h)))
next_state-rank eval collect_findings =
    inr (rank_findings, refl, (omega arith, λ h. omega (arith, h)))
next_state-rank eval rank_findings = inr (
    branch {P = Below 5} (holds eval (verifier_stuck_predicate rank_findings)) verifier_stuck
      verify_coverage (omega arith, λ h. omega arith) (omega arith, λ h. omega arith))
next_state-rank eval verify_coverage =
    inr (synthesize_release_readiness, refl, (omega arith, λ h. omega (arith, h)))
next_state-rank eval synthesize_release_readiness =
    inr (write_run_directory, refl, (omega arith, λ h. omega (arith, h)))
next_state-rank eval write_run_directory =
    inr (emit_stdout, refl, (omega arith, λ h. omega (arith, h)))
next_state-rank eval emit_stdout = inr (terminal, refl, (omega arith, λ h. omega (arith, h)))
next_state-rank eval short_circuit_exit =
    inr (write_run_directory, refl, (omega arith, λ h. omega (arith, h)))
next_state-rank eval stage_a_empty =
    inr (write_run_directory, refl, (omega arith, λ h. omega (arith, h)))
next_state-rank eval verifier_stuck =
    inr (synthesize_release_readiness, refl, (omega arith, λ h. omega (arith, h)))
next_state-rank eval terminal = inl (refl, refl)

-- The states that a run visits from `s` on, with at most `n` transitions; the engine evaluates the
-- predicates of each transition in the run state of that moment.
abbrev onward : (StateId → List StateId) → Option StateId → List StateId
onward visit none = []
onward visit (some t) = visit t

unfoldable pub visits : (ℕ → Evaluator) → ℕ → StateId → List StateId
unfolding next_state
visits evals zero s = s ∷ []
visits evals (suc n) s = s ∷ onward (λ t. visits evals n t) (next_state (evals n) s)

abbrev exit : List StateId
exit = write_run_directory ∷ emit_stdout ∷ terminal ∷ []

pub low_rank : (s : StateId) → (rank s < 2) ⊎ (s ≡ write_run_directory) ⊎ (2 < rank s)
low_rank scan_project = inr (inr (omega arith))
low_rank risk_tier_triage = inr (inr (omega arith))
low_rank activate_leaves = inr (inr (omega arith))
low_rank tree_descend = inr (inr (omega arith))
low_rank llm_trim = inr (inr (omega arith))
low_rank tool_discovery = inr (inr (omega arith))
low_rank plan_specialist_batches = inr (inr (omega arith))
low_rank dispatch_specialists = inr (inr (omega arith))
low_rank merge_specialist_outputs = inr (inr (omega arith))
low_rank collect_findings = inr (inr (omega arith))
low_rank rank_findings = inr (inr (omega arith))
low_rank verify_coverage = inr (inr (omega arith))
low_rank synthesize_release_readiness = inr (inr (omega arith))
low_rank write_run_directory = inr (inl refl)
low_rank emit_stdout = inl (omega arith)
low_rank short_circuit_exit = inr (inr (omega arith))
low_rank stage_a_empty = inr (inr (omega arith))
low_rank verifier_stuck = inr (inr (omega arith))
low_rank terminal = inl (omega arith)

visits-write :
    (evals : ℕ → Evaluator) (n : ℕ) → visits evals (suc (suc n)) write_run_directory ≡ exit
unfolding visits
visits-write evals zero = refl
visits-write evals (suc n) = refl

at_exit :
    (evals : ℕ → Evaluator) (n : ℕ) (s : StateId)
    → s ≡ write_run_directory
    → rank s ≤ suc n
    → (before : List StateId) × (visits evals (suc n) s ≡ before ++ exit)
      × (length (before ++ exit) ≤ suc (rank s))
at_exit evals zero s e k = absurd (omega (arith, ap rank e, k))
at_exit evals (suc n) s e k = rw e ([], visits-write evals n, omega arith)

visits-exit :
    (evals : ℕ → Evaluator) (n : ℕ) (s : StateId)
    → 2 ≤ rank s
    → rank s ≤ n
    → (before : List StateId) × (visits evals n s ≡ before ++ exit)
      × (length (before ++ exit) ≤ suc (rank s))
unfolding visits
visits-exit evals zero s h k = absurd (omega (arith, h, k))
visits-exit evals (suc n) s h k = elim (low_rank s) [
  | inl low ↦ absurd (omega (arith, low, h))
  | inr (inl here) ↦ at_exit evals n s here k
  | inr (inr high) ↦ elim (next_state-rank (evals n) s) [
    | inl (last, nothing) ↦ absurd (omega (arith, high, ap rank last))
    | inr (t, next, (lower, far)) ↦
        let (before, v, bound) = visits-exit evals n t (far high) (omega (arith, lower, k)) in
        (s ∷ before, rw next (ap (λ r. s ∷ r) v), omega (arith, bound, lower))
  ]
]

-- A run from the first state visits `write_run_directory`, then `emit_stdout`, and ends in the last
-- state right behind them, whatever the predicates evaluate to. It visits at most 16 states; 15
-- transitions are enough.
pub visits-entry :
    (evals : ℕ → Evaluator) (n : ℕ)
    → 15 ≤ n
    → (before : List StateId) × (visits evals n entry
        ≡ before ++ write_run_directory ∷ emit_stdout ∷ terminal ∷ [])
      × (length (visits evals n entry) ≤ 16)
visits-entry evals n h =
    let (before, v, bound) = visits-exit evals n entry (omega arith) h in (before, v, rw v bound)
