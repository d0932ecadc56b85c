-- ===== src/Review/Finish.antt =====
-- code_review/runner.py `run_review`: what is recorded when a run is near its end: the state that
-- writes the run directory, then the one that prints the report.
use skill_code_review.Base.{
  ℕ, ◌≤◌, ◌<◌, false, Option, none, some, List, [], ◌∷◌, ◌++◌, ◌≡◌, ◌∙◌, ◌⊎◌, inl, inr, refl, sym,
  ap, arith, append_assoc,
}
use skill_code_review.Spec.{
  StateId, scan_project, risk_tier_triage, activate_leaves, tree_descend, llm_trim, tool_discovery,
  plan_specialist_batches, dispatch_specialists, merge_specialist_outputs, collect_findings,
  rank_findings, verify_coverage, synthesize_release_readiness, write_run_directory, emit_stdout,
  short_circuit_exit, stage_a_empty, verifier_stuck, terminal,
}
use skill_code_review.Spec.Runs.{state_of, rank, next_state, next_state-rank}
use skill_code_review.Review.{Stage, in_inline, in_advance}
use skill_code_review.Review.Measure.{IsTransition, limit_of}
use skill_code_review.Review.Steps.{is_final, scope_of, stage, Moves}

-- The rows of the state that writes the run directory, and of the one that prints the report.
abbrev pub write_rows : List Stage
write_rows =
    stage in_inline write_run_directory none ∷ stage in_advance write_run_directory none ∷ []

abbrev pub emit_rows : List Stage
emit_rows = stage in_inline emit_stdout none ∷ stage in_advance emit_stdout none ∷ []

-- The states at the end of a run, and that the others are away from it.
pub near_exit :
    (s : StateId)
    → (s ≡ terminal)
      ⊎ (s ≡ emit_stdout)
      ⊎ (s ≡ write_run_directory)
      ⊎ ((2 < rank s) × (is_final (state_of s).body ≡ false))
unfolding state_of
near_exit scan_project = inr (inr (inr (omega arith, refl)))
near_exit risk_tier_triage = inr (inr (inr (omega arith, refl)))
near_exit activate_leaves = inr (inr (inr (omega arith, refl)))
near_exit tree_descend = inr (inr (inr (omega arith, refl)))
near_exit llm_trim = inr (inr (inr (omega arith, refl)))
near_exit tool_discovery = inr (inr (inr (omega arith, refl)))
near_exit plan_specialist_batches = inr (inr (inr (omega arith, refl)))
near_exit dispatch_specialists = inr (inr (inr (omega arith, refl)))
near_exit merge_specialist_outputs = inr (inr (inr (omega arith, refl)))
near_exit collect_findings = inr (inr (inr (omega arith, refl)))
near_exit rank_findings = inr (inr (inr (omega arith, refl)))
near_exit verify_coverage = inr (inr (inr (omega arith, refl)))
near_exit synthesize_release_readiness = inr (inr (inr (omega arith, refl)))
near_exit write_run_directory = inr (inr (inl refl))
near_exit emit_stdout = inr (inl refl)
near_exit short_circuit_exit = inr (inr (inr (omega arith, refl)))
near_exit stage_a_empty = inr (inr (inr (omega arith, refl)))
near_exit verifier_stuck = inr (inr (inr (omega arith, refl)))
near_exit terminal = inl refl

-- A transition from a state away from the end leads to none of the last two states.
far_transition : (s t : StateId) → 2 < rank s → IsTransition s t → 2 ≤ rank t
far_transition s t high (eval, next) = elim (next_state-rank eval s) [
  | inl (last, nothing) ↦ let q : none ≡ some t = sym nothing ∙ next in cc
  | inr (u, moves, (lower, far)) ↦
      let e : some u ≡ some t = sym moves ∙ next in
      let q : u ≡ t = cc in omega (arith, ap rank q, far high)
]

-- The only way to `emit_stdout` is from `write_run_directory`, and the only way to the last state
-- from `emit_stdout`.
before_emit : (s : StateId) → IsTransition s emit_stdout → s ≡ write_run_directory
unfolding next_state
before_emit s (eval, next) = elim (near_exit s) [
  | inl e ↦ let q : next_state eval terminal ≡ some emit_stdout = (rw e at next) in cc
  | inr (inl e) ↦ let q : next_state eval emit_stdout ≡ some emit_stdout = (rw e at next) in cc
  | inr (inr (inl e)) ↦ e
  | inr (inr (inr (high, other))) ↦
      let q : 2 ≤ rank emit_stdout = far_transition s emit_stdout high (eval, next) in
      absurd (omega (arith, q))
]

before_terminal : (s : StateId) → IsTransition s terminal → s ≡ emit_stdout
unfolding next_state
before_terminal s (eval, next) = elim (near_exit s) [
  | inl e ↦ let q : next_state eval terminal ≡ some terminal = (rw e at next) in cc
  | inr (inl e) ↦ e
  | inr (inr (inl e)) ↦
      let q : next_state eval write_run_directory ≡ some terminal = (rw e at next) in cc
  | inr (inr (inr (high, other))) ↦
      let q : 2 ≤ rank terminal = far_transition s terminal high (eval, next) in
      absurd (omega (arith, q))
]

abbrev pub Ends : List Stage → List Stage → Type 0
Ends rows stages = (before : List Stage) × (stages ≡ before ++ rows)

-- What is recorded when the run is near its end.
abbrev pub Recorded : StateId → Option ℕ → List Stage → Type 0
Recorded s n stages =
    (s ≡ write_run_directory → n ≡ none)
    × (s ≡ emit_stdout → (n ≡ none) × Ends write_rows stages)
    × (s ≡ terminal → Ends (write_rows ++ emit_rows) stages)

abbrev pub rows_of : StateId → Option ℕ → List Stage
rows_of s n = stage (scope_of (state_of s).body) s n ∷ stage in_advance s n ∷ []

-- The states near the end have no loop.
no_loop :
    (s t : StateId)
    → t ≡ s
    → 0 < limit_of (state_of s).body
    → (n : Option ℕ) (stages : List Stage) → Recorded t n stages
unfolding state_of
no_loop s t same looped n stages = (
  λ e. absurd (omega (arith, (rw (sym same ∙ e) at looped))),
  λ e. absurd (omega (arith, (rw (sym same ∙ e) at looped))),
  λ e. absurd (omega (arith, (rw (sym same ∙ e) at looped))),
)

after_write :
    (s : StateId) (n : Option ℕ) (stages : List Stage)
    → Recorded s n stages
    → s ≡ write_run_directory
    → Ends write_rows (stages ++ rows_of s n)
unfolding state_of
after_write s n stages (write, emit, last) e = (stages, rw e (rw (write e) refl))

after_emit :
    (s : StateId) (n : Option ℕ) (stages : List Stage)
    → Recorded s n stages
    → s ≡ emit_stdout
    → Ends (write_rows ++ emit_rows) (stages ++ rows_of s n)
unfolding state_of
after_emit s n stages (write, emit, last) e =
    let (first, (before, wrote)) = emit e in
    (before, rw e (rw first (rw wrote (append_assoc before write_rows emit_rows))))

pub Recorded-Moves :
    (s t : StateId) (n m : Option ℕ) (stages : List Stage)
    → Recorded s n stages
    → Moves s t m
    → Recorded t m (stages ++ rows_of s n)
Recorded-Moves s t n m stages r (inl (same, looped)) = no_loop s t same looped m _
Recorded-Moves s t n m stages r (inr ((eval, next), first)) = (
  λ e. first,
  λ e. (first, after_write s n stages r (before_emit s (eval, next ∙ ap (λ x. some x) e))),
  λ e. after_emit s n stages r (before_terminal s (eval, next ∙ ap (λ x. some x) e)),
)
