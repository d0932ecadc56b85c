-- ===== src/Review/Steps.antt =====
-- code_review/runner.py `run_review`: what one round of the loop does to the state, to the number of
-- rounds left and to the recorded stages.
use skill_code_review.Base.{
  ℕ, ◌<◌, String, Bool, true, false, Option, none, some, List, [], ◌∷◌, ◌++◌, ◌≡◌, ◌∙◌, ◌⊎◌, inl,
  inr, refl, ap, Dict, arith,
}
use skill_code_review.Value.{Value, null, bool, int, float, str, list, dict}
use skill_code_review.Result.{Parsers}
use skill_code_review.Runner.{Outcome}
use skill_code_review.Merger.{Outputs}
use skill_code_review.Worker.{WorkerRun, WorkerEnd, outputs, fault, crash, floor_crash}
use skill_code_review.Spec.{StateId, Body, inline, worker, loop, final}
use skill_code_review.Spec.Runs.{state_of}
use skill_code_review.Review.{
  Executed, executed, refused, Advance, advance_fault, loop_continue, at_terminal, moved, Engine,
  Scope, in_inline, in_loop, in_worker, in_advance, Stage, Progress, Stop, finished, Step, stop, go,
  record_stage, follow_advance, advance_with, after_inline, after_loop, append_iteration,
  after_worker, round_on, round,
}
use skill_code_review.Review.Measure.{
  Answers, Follows, IsTransition, limit_of, rounds_left, rounds_left-loop, rounds_left-transition,
}

abbrev pub is_finished : Stop → Bool
is_finished (finished verdict run_dir_path findings) = true
is_finished _ = false

abbrev pub is_final : Body → Bool
is_final final = true
is_final _ = false

abbrev pub scope_of : Body → Scope
scope_of inline = in_inline
scope_of (loop role ks max_iterations done_field) = in_loop
scope_of _ = in_worker

abbrev pub stage : Scope → StateId → Option ℕ → Stage
stage scope s n = record { scope = scope; name = s; iteration_n = n }

-- A round ends the run, with a result in a final state only, or goes on: to the same state where it
-- has a loop, or by a transition.
abbrev pub Stops : Body → List Stage → Step → Type 0
Stops b stages σ =
    (e : Stop) × (st : List Stage) × (σ ≡ stop e st)
    × (is_finished e ≡ true → (is_final b ≡ true) × (st ≡ stages))

abbrev pub Moves : StateId → StateId → Option ℕ → Type 0
Moves s t m = ((t ≡ s) × (0 < limit_of (state_of s).body)) ⊎ (IsTransition s t × (m ≡ none))

abbrev pub Goes : StateId → Option ℕ → List Stage → Step → Type 0
Goes s n stages σ =
    (t : StateId) × (m : Option ℕ) × (pr : Progress) × (σ ≡ go t m pr)
    × (rounds_left t m < rounds_left s n)
    × Moves s t m
    × (pr.stages ≡ stages)

-- What a round comes to, from the stages `before` it, with the row of its branch.
abbrev pub After : StateId → Option ℕ → Body → List Stage → Step → Type 0
After s n b before σ =
    Stops b before σ ⊎ Goes s n (before ++ stage (scope_of b) s n ∷ stage in_advance s n ∷ []) σ

append-append {ℓ} :
    {A : Type ℓ} (xs : List A) (x y : A) → (xs ++ x ∷ []) ++ y ∷ [] ≡ xs ++ x ∷ y ∷ []
append-append [] x y = refl
append-append (z ∷ xs) x y = ap (λ ws. z ∷ ws) (append-append xs x y)

module _ (engine : Engine) (follows : Follows engine) (s : StateId) (n : Option ℕ) (b : Body) where
  follow_advance-After :
      (a : Advance) (out : Dict Value) (pr : Progress) (before : List Stage)
      → Answers s n a
      → pr.stages ≡ before ++ stage (scope_of b) s n ∷ stage in_advance s n ∷ []
      → After s n b before (follow_advance s a out pr)
  follow_advance-After (advance_fault reason) out pr before h rows = inl (_, _, refl, λ q. cc)
  follow_advance-After (loop_continue m) out pr before (later, within) rows = inr (
    s,
    some m,
    _,
    refl,
    rounds_left-loop s n m later within,
    inl (refl, omega (arith, later, within)),
    rows,
  )
  follow_advance-After at_terminal out pr before moves rows =
      inr (_, none, _, refl, rounds_left-transition s n _ moves, inr (moves, refl), rows)
  follow_advance-After (moved t) out pr before moves rows =
      inr (_, none, _, refl, rounds_left-transition s n _ moves, inr (moves, refl), rows)

  -- The advance behind a branch that has recorded its row.
  advance_with-After :
      (out : Dict Value) (pr : Progress) (before : List Stage)
      → pr.stages ≡ before ++ stage (scope_of b) s n ∷ []
      → After s n b before (advance_with engine s n out pr)
  unfolding advance_with
  advance_with-After out pr before row =
      follow_advance-After (engine.advance s n pr.env out) out (record_stage in_advance s n pr)
        before (follows s n pr.env out)
        (ap (λ st. st ++ stage in_advance s n ∷ []) row
          ∙ append-append before (stage (scope_of b) s n) (stage in_advance s n))

module _ (engine : Engine) (follows : Follows engine) (s : StateId) (n : Option ℕ) where
  after_inline-After :
      (x : Executed) (pr : Progress) → After s n inline pr.stages (after_inline engine s n x pr)
  unfolding after_inline
  after_inline-After (executed out) pr =
      advance_with-After engine follows s n inline out (record_stage in_inline s n pr) pr.stages
        refl
  after_inline-After (refused reason) pr = inl (_, _, refl, λ q. cc)

  module _ (role : String) (ks : List String) where
    after_worker-After :
        (x : WorkerEnd × WorkerRun) (pr : Progress)
        → After s n (worker role ks) pr.stages (after_worker engine s n x pr)
    unfolding after_worker
    after_worker-After (outputs out, r) pr =
        advance_with-After engine follows s n (worker role ks) out
          (record_stage in_worker s n (record pr { run = r })) pr.stages refl
    after_worker-After (fault t, r) pr = inl (_, _, refl, λ q. cc)
    after_worker-After (crash name, r) pr = inl (_, _, refl, λ q. cc)
    after_worker-After (floor_crash exc, r) pr = inl (_, _, refl, λ q. cc)

    module _ (max_iterations : ℕ) (done_field : String) where
      append_iteration-After :
          (v : Value) (out : Dict Value) (results : Outputs) (pr : Progress)
          → After s n
              (loop role ks max_iterations done_field)
              pr.stages
              (append_iteration engine s n v out results pr)
      append_iteration-After (list vs) out results pr =
          advance_with-After engine follows s n (loop role ks max_iterations done_field) out _
            pr.stages refl
      append_iteration-After null out results pr = inl (_, _, refl, λ q. cc)
      append_iteration-After (bool x) out results pr = inl (_, _, refl, λ q. cc)
      append_iteration-After (int x) out results pr = inl (_, _, refl, λ q. cc)
      append_iteration-After (float x) out results pr = inl (_, _, refl, λ q. cc)
      append_iteration-After (str x) out results pr = inl (_, _, refl, λ q. cc)
      append_iteration-After (dict x) out results pr = inl (_, _, refl, λ q. cc)

      after_loop-After :
          (x : Option (Dict Value × Outputs)) (pr : Progress)
          → After s n
              (loop role ks max_iterations done_field)
              pr.stages
              (after_loop engine s n x pr)
      unfolding after_loop
      after_loop-After none pr = inl (_, _, refl, λ q. cc)
      after_loop-After (some (out, results)) pr = append_iteration-After _ out results pr

module _ (p : Parsers) (show : Value → String) (engine : Engine) (follows : Follows engine)
    (dispatch_worker : ℕ → Outcome) (specialist : Dict Value → Dict Value)
    (timings : List Stage → Outputs → Value) (max_retries : ℕ) where
  round_on-After :
      (b : Body) (s : StateId) (n : Option ℕ) (pr : Progress)
      → After s n b pr.stages
          (round_on p show engine dispatch_worker specialist timings max_retries b s n pr)
  unfolding round_on
  round_on-After final s n pr = inl (_, _, refl, λ q. (refl, refl))
  round_on-After inline s n pr = after_inline-After engine follows s n _ _
  round_on-After (loop role ks max_iterations done_field) s n pr =
      after_loop-After engine follows s n role ks max_iterations done_field _ pr
  round_on-After (worker role ks) s n pr = after_worker-After engine follows s n role ks _ pr

  -- One round in the state `s`.
  pub round-After :
      (s : StateId) (n : Option ℕ) (pr : Progress)
      → After s n
          (state_of s).body
          pr.stages
          (round p show engine dispatch_worker specialist timings max_retries s n pr)
  unfolding round
  round-After s n pr = round_on-After (state_of s).body s n pr
