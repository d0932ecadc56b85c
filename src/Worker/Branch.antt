-- ===== src/Worker/Branch.antt =====
-- code_review/runner.py: the worker branch of `run_review` under an outage of the model.
use skill_code_review.Base.{
  ℕ, suc, ◌+◌, String, some, [], ◌∷◌, ◌≡◌, refl, Dict, str_eq, str_eq_iff, if◌then◌else◌,
  Bool-cases, inl, inr,
}
use skill_code_review.Value.{Value, array}
use skill_code_review.Result.{Parsers}
use skill_code_review.Runner.{Outcome}
use skill_code_review.Worker.{
  WorkerRun, Transient, outputs, fault, count_degraded, run_worker, after_call, degrade,
  floor_outputs, end_floor,
}
use skill_code_review.Worker.Floor.{coverage_floor}
use skill_code_review.Worker.Retries.{Outage, After, events, transient, call_worker-Outage}

module _ (p : Parsers) (show : Value → String) (state_id : String) (inputs env : Dict Value)
    (dispatch : ℕ → Outcome) where
  -- Under an outage of all `max_retries + 1` calls, tool discovery goes on with no tool results and
  -- counts a degraded worker, and every other worker state ends the run with a fault that names the
  -- last exception. Either way the hook is called `max_retries + 1` times, with back-offs between.
  pub run_worker-Outage :
      (max_retries : ℕ) (r : WorkerRun)
      → Outage dispatch r.calls (suc max_retries)
      → (t : Transient) × (s : WorkerRun) × (transient (dispatch (r.calls + max_retries)) ≡ some t)
        × After r s 0 max_retries
        × (events s ≡ events r + suc max_retries)
        × (run_worker p show state_id inputs env dispatch max_retries r ≡ (
            if str_eq state_id "tool_discovery"
            then (outputs (("tool_results", array []) ∷ []), count_degraded s)
            else (fault t, s)))
  unfolding run_worker after_call degrade floor_outputs end_floor coverage_floor
  run_worker-Outage max_retries r o =
      let (t, s, last, returns, after, counted) = call_worker-Outage dispatch max_retries 0 r o in
      (
        t,
        s,
        last,
        after,
        counted,
        rw returns (elim (Bool-cases (str_eq state_id "tool_discovery")) [
          | inl tools ↦ rw tools (rw ((str_eq_iff state_id "tool_discovery").0 tools) refl)
          | inr other ↦ rw other refl
        ]),
      )
