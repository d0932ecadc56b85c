-- ===== src/Review/Termination.antt =====
-- code_review/runner.py `run_review`: the loop ends before `_MAX_STEPS`, and a run that finishes has
-- written and printed its report.
use skill_code_review.Base.{
  ℕ, zero, suc, ◌≤◌, ◌<◌, String, Bool, true, false, Option, none, List, [], ◌++◌, ◌≡◌, ◌∙◌, inl,
  inr, refl, sym, ap, arith, Dict,
}
use skill_code_review.Value.{Value}
use skill_code_review.Result.{Parsers}
use skill_code_review.Runner.{Outcome}
use skill_code_review.Merger.{Outputs}
use skill_code_review.Spec.{StateId}
use skill_code_review.Spec.Runs.{state_of, entry}
use skill_code_review.Review.{
  Engine, Stage, Progress, Stop, finished, RunEnd, stopped, max_steps_exceeded, drive, round, stop,
  go, run_review, initial, max_steps,
}
use skill_code_review.Review.Measure.{Follows, rounds_left}
use skill_code_review.Review.Steps.{is_finished, is_final, round-After}
use skill_code_review.Review.Finish.{
  write_rows, emit_rows, Ends, Recorded, Recorded-Moves, near_exit,
}

abbrev is_finished_end : RunEnd → Bool
is_finished_end (stopped e) = is_finished e
is_finished_end max_steps_exceeded = false

-- A final state is the last one.
final_state :
    (s : StateId) (n : Option ℕ) (stages : List Stage)
    → Recorded s n stages
    → is_final (state_of s).body ≡ true
    → Ends (write_rows ++ emit_rows) stages
unfolding state_of
final_state s n stages (write, emit, last) h = elim (near_exit s) [
  | inl e ↦ last e
  | inr (inl e) ↦ let q : false ≡ true = (rw e at h) in cc
  | inr (inr (inl e)) ↦ let q : false ≡ true = (rw e at h) in cc
  | inr (inr (inr (high, other))) ↦ let q : false ≡ true = sym other ∙ h in cc
]

entry-Recorded : Recorded entry none []
entry-Recorded = (λ e. cc, λ e. cc, λ e. cc)

ended :
    {e : Stop} {st stages : List Stage} {verdict run_dir_path findings : Value}
    → ◌≡◌ {A = RunEnd × List Stage}
        (stopped e, st)
        (stopped (finished verdict run_dir_path findings), stages)
    → is_finished e ≡ true
ended same = ap (λ x. is_finished_end (x.0)) same

module _ (p : Parsers) (show : Value → String) (engine : Engine) (follows : Follows engine)
    (dispatch_worker : ℕ → Outcome) (specialist : Dict Value → Dict Value)
    (timings : List Stage → Outputs → Value) (max_retries : ℕ) where
  -- The end of a run, for each number of rounds that is enough.
  abbrev Drives : StateId → Option ℕ → Progress → Stop → List Stage → Type 0
  Drives s n pr e stages =
      (k : ℕ)
      → rounds_left s n < k
      → drive p show engine dispatch_worker specialist timings max_retries k s n pr
        ≡ (stopped e, stages)

  Drives-stop :
      (s : StateId) (n : Option ℕ) (pr : Progress) (e : Stop) (stages : List Stage)
      → round p show engine dispatch_worker specialist timings max_retries s n pr ≡ stop e stages
      → Drives s n pr e stages
  unfolding drive
  Drives-stop s n pr e stages stops zero h = absurd (omega (arith, h))
  Drives-stop s n pr e stages stops (suc k) h = rw stops refl

  Drives-go :
      (s t : StateId) (n m : Option ℕ) (pr next : Progress) (e : Stop) (stages : List Stage)
      → round p show engine dispatch_worker specialist timings max_retries s n pr ≡ go t m next
      → rounds_left t m < rounds_left s n
      → Drives t m next e stages
      → Drives s n pr e stages
  unfolding drive
  Drives-go s t n m pr next e stages goes less drives zero h = absurd (omega (arith, h))
  Drives-go s t n m pr next e stages goes less drives (suc k) h =
      rw goes (drives k (omega (arith, h, less)))

  drive-Drives :
      (bound : ℕ) (s : StateId) (n : Option ℕ) (pr : Progress)
      → rounds_left s n < bound
      → Recorded s n pr.stages
      → (e : Stop) × (stages : List Stage) × Drives s n pr e stages
        × (is_finished e ≡ true → Ends (write_rows ++ emit_rows) stages)
  drive-Drives zero s n pr h r = absurd (omega (arith, h))
  drive-Drives (suc bound) s n pr h r =
      elim (round-After p show engine follows dispatch_worker specialist timings max_retries s n
        pr) [
          | inl (e, stages, stops, last) ↦ (
            e,
            stages,
            Drives-stop s n pr e stages stops,
            λ done. rw ((last done).1) (final_state s n pr.stages r ((last done).0)),
          )
          | inr (t, m, next, goes, less, moves, rows) ↦
              let (e, stages, drives, ends) =
                drive-Drives bound t m next (omega (arith, h, less))
                  (rw rows (Recorded-Moves s t n m pr.stages r moves)) in
              (e, stages, Drives-go s t n m pr next e stages goes less drives, ends)
        ]

  -- An engine that follows the specification makes every review end: the run stops by itself, with a
  -- result, a fault or an exception, in the same way for each limit of 79 rounds or more, so that the
  -- limit `_MAX_STEPS` of 512 rounds is never exceeded.
  pub run_review-stops :
      (args : Dict Value)
      → (e : Stop) × (stages : List Stage) × ((steps : ℕ)
          → 79 ≤ steps
          → run_review p show engine dispatch_worker specialist timings max_retries steps args
            ≡ (stopped e, stages))
  unfolding run_review
  run_review-stops args =
      let (e, stages, drives, ends) =
        drive-Drives 79 entry none (initial args) (omega arith) entry-Recorded in
      (e, stages, λ steps h. drives steps (omega (arith, h)))

  -- A review that finishes with a result has written its run directory and printed its report: the
  -- last stages that it has recorded are those of `write_run_directory` and of `emit_stdout`, each
  -- with the engine's advance behind it.
  pub run_review-finished :
      (args : Dict Value) {verdict run_dir_path findings : Value} {stages : List Stage}
      → run_review p show engine dispatch_worker specialist timings max_retries max_steps args
        ≡ (stopped (finished verdict run_dir_path findings), stages)
      → (before : List Stage) × (stages ≡ before ++ (write_rows ++ emit_rows))
  unfolding run_review
  run_review-finished args {verdict} {run_dir_path} {findings} {stages} returns =
      let (e, st, drives, ends) =
        drive-Drives 79 entry none (initial args) (omega arith) entry-Recorded in
      let same : ◌≡◌ {A = RunEnd × List Stage} (stopped e, st)
          (stopped (finished verdict run_dir_path findings), stages) =
        sym (drives max_steps (omega arith)) ∙ returns in
      let (before, rows) = ends (ended same) in (before, sym (ap (λ x. x.1) same) ∙ rows)
