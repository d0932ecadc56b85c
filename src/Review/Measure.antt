-- ===== src/Review/Measure.antt =====
-- code_review/runner.py `run_review`: how many rounds are left, from the ranks of the states and from
-- the iterations of the loop, for an engine that follows code_review/spec.py.
use skill_code_review.Base.{
  ℕ, zero, suc, ◌+◌, ◌-◌, ◌≤◌, ◌<◌, Option, none, some, ◌≡◌, ◌∙◌, inl, inr, refl, sym, ap, arith,
  leb, ltb, if◌then◌else◌, Dict,
}
use skill_code_review.Value.{Value}
use skill_code_review.Spec.{
  StateId, scan_project, risk_tier_triage, activate_leaves, tree_descend, llm_trim, tool_discovery,
  plan_specialist_batches, dispatch_specialists, merge_specialist_outputs, collect_findings,
  rank_findings, verify_coverage, synthesize_release_readiness, write_run_directory, emit_stdout,
  short_circuit_exit, stage_a_empty, verifier_stuck, terminal, Body, loop,
}
use skill_code_review.Spec.Runs.{rank, next_state, next_state-rank, state_of, Evaluator}
use skill_code_review.Review.{
  Engine, Advance, advance_fault, loop_continue, at_terminal, moved, next_or,
}
use skill_code_review.Review.Batches.{batch_index_of}

-- What the engine may answer in the state `s` in the iteration `n`: a fault, the next iteration of a
-- loop within the loop's limit, or the state of the first transition whose guard holds.
abbrev pub IsTransition : StateId → StateId → Type 0
IsTransition s t = (eval : Evaluator) × (next_state eval s ≡ some t)

abbrev pub limit_of : Body → ℕ
limit_of (loop role ks max_iterations done_field) = max_iterations
limit_of _ = 0

abbrev pub Answers : StateId → Option ℕ → Advance → Type 0
Answers s n (advance_fault reason) = Unit
Answers s n (loop_continue m) = (batch_index_of n < m) × (m ≤ limit_of (state_of s).body)
Answers s n at_terminal = IsTransition s terminal
Answers s n (moved t) = IsTransition s (next_or t)

-- The engine follows the specification.
abbrev pub Follows : Engine → Type 0
Follows engine =
    (s : StateId) (n : Option ℕ) (env out : Dict Value) → Answers s n (engine.advance s n env out)

-- The rounds that the loop's iterations may still take.
abbrev pub iterations_left : ℕ → ℕ → ℕ
iterations_left rank_s batch_index =
    if ltb 8 rank_s then 63 else if leb 8 rank_s then 64 - batch_index else 0

-- The rounds left, the last one not counted.
abbrev pub rounds_left : StateId → Option ℕ → ℕ
rounds_left s n = rank s + iterations_left (rank s) (batch_index_of n)

-- Only one state has a loop, of 64 iterations at most.
loop_state :
    (s : StateId) (m : ℕ) → 0 < m → m ≤ limit_of (state_of s).body → (rank s ≡ 8) × (m ≤ 64)
unfolding state_of
loop_state scan_project m h k = absurd (omega (arith, h, k))
loop_state risk_tier_triage m h k = absurd (omega (arith, h, k))
loop_state activate_leaves m h k = absurd (omega (arith, h, k))
loop_state tree_descend m h k = absurd (omega (arith, h, k))
loop_state llm_trim m h k = absurd (omega (arith, h, k))
loop_state tool_discovery m h k = absurd (omega (arith, h, k))
loop_state plan_specialist_batches m h k = absurd (omega (arith, h, k))
loop_state dispatch_specialists m h k = (refl, k)
loop_state merge_specialist_outputs m h k = absurd (omega (arith, h, k))
loop_state collect_findings m h k = absurd (omega (arith, h, k))
loop_state rank_findings m h k = absurd (omega (arith, h, k))
loop_state verify_coverage m h k = absurd (omega (arith, h, k))
loop_state synthesize_release_readiness m h k = absurd (omega (arith, h, k))
loop_state write_run_directory m h k = absurd (omega (arith, h, k))
loop_state emit_stdout m h k = absurd (omega (arith, h, k))
loop_state short_circuit_exit m h k = absurd (omega (arith, h, k))
loop_state stage_a_empty m h k = absurd (omega (arith, h, k))
loop_state verifier_stuck m h k = absurd (omega (arith, h, k))
loop_state terminal m h k = absurd (omega (arith, h, k))

-- Another iteration, within the limit, leaves less rounds.
pub rounds_left-loop :
    (s : StateId) (n : Option ℕ) (m : ℕ)
    → batch_index_of n < m
    → m ≤ limit_of (state_of s).body
    → rounds_left s (some m) < rounds_left s n
rounds_left-loop s n zero h k = absurd (omega (arith, h))
rounds_left-loop s n (suc m) h k =
    let (at_loop, within) = loop_state s (suc m) (omega arith) k in
    rw at_loop (omega (arith, h, within))

batch_index_of-positive : (n : Option ℕ) → 0 < batch_index_of n
batch_index_of-positive none = omega arith
batch_index_of-positive (some zero) = omega arith
batch_index_of-positive (some (suc n)) = omega arith

fewer : (a b i : ℕ) → a < b → 0 < i → a + iterations_left a 1 < b + iterations_left b i
fewer a b i h k = ground (arith, h, k)

-- So does a transition.
pub rounds_left-transition :
    (s : StateId) (n : Option ℕ) (t : StateId)
    → IsTransition s t
    → rounds_left t none < rounds_left s n
rounds_left-transition s n t (eval, next) = elim (next_state-rank eval s) [
  | inl (last, nothing) ↦ let q : none ≡ some t = sym nothing ∙ next in cc
  | inr (u, moves, (lower, far)) ↦
      let e : some u ≡ some t = sym moves ∙ next in
      let q : u ≡ t = cc in
      let l : rank t < rank s = omega (arith, ap rank q, lower) in
      fewer (rank t) (rank s) (batch_index_of n) l (batch_index_of-positive n)
]
