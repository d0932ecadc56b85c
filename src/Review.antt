-- ===== src/Review.antt =====
-- code_review/runner.py `run_review`: the loop that drives a review through the states of
-- code_review/spec.py. The engine's `execute_inline` and `advance` are an argument, so are the hook
-- of the workers, what `_dispatch_one` gives for a unit, and the artifact of the measured times.
pub mod Batches
pub mod Measure
pub mod Steps
pub mod Finish
pub mod Termination
use skill_code_review.Base.{
  ℕ, zero, suc, String, Option, none, some, List, [], ◌∷◌, ◌++◌, Dict, lookup, insert, update_dict,
  map,
}
use skill_code_review.Value.{Value, null, list, array, object, get, elements, of_elements}
use skill_code_review.Result.{Exception, Parsers}
use skill_code_review.Runner.{Outcome}
use skill_code_review.Merger.{Outputs}
use skill_code_review.Worker.{
  WorkerRun, Transient, WorkerEnd, outputs, fault, crash, floor_crash, run_worker,
}
use skill_code_review.Spec.{StateId, terminal, id_text, Body, inline, worker, loop, final}
use skill_code_review.Spec.Runs.{state_of, entry}
use Batches.{loop_outputs}

-- What `execute_inline` gives: the outputs, or the reason of a fault.
pub data Executed : Type 0 where
  executed : Dict Value → Executed
  refused : String → Executed

-- What `advance` gives. In `moved none` there is no next state.
pub data Advance : Type 0 where
  advance_fault : String → Advance
  loop_continue : ℕ → Advance
  at_terminal : Advance
  moved : Option StateId → Advance

-- Both take the context: the current state, the number of the iteration, and the environment.
pub record Engine : Type 0 where
  pub execute : StateId → Option ℕ → Dict Value → Executed
  pub advance : StateId → Option ℕ → Dict Value → Dict Value → Advance

-- `scope` of a row of `stage_timings`.
pub data Scope : Type 0 where
  in_inline in_loop in_worker in_advance : Scope

-- A row of `stage_timings`, without the time.
pub record Stage : Type 0 where
  pub scope : Scope
  pub name : StateId
  pub iteration_n : Option ℕ

-- The variables that the loop changes, but for the state and the iteration.
pub record Progress : Type 0 where
  pub env : Dict Value
  pub unit_results : Outputs
  pub stages : List Stage
  pub run : WorkerRun

-- How a round ends the run: with the result, with a fault, or by an exception.
pub data Stop : Type 0 where
  finished : Value → Value → Value → Stop
  inline_fault : StateId → String → Stop
  worker_fault : StateId → Transient → Stop
  engine_fault : String → Stop
  worker_raised : String → Stop
  floor_raised : Exception → Stop
  malformed_batches : Stop

pub data RunEnd : Type 0 where
  stopped : Stop → RunEnd
  max_steps_exceeded : RunEnd

pub data Step : Type 0 where
  stop : Stop → List Stage → Step
  go : StateId → Option ℕ → Progress → Step

-- `_record_stage`
abbrev pub record_stage : Scope → StateId → Option ℕ → Progress → Progress
record_stage scope s n pr = record pr {
  stages = pr.stages ++ record { scope = scope; name = s; iteration_n = n } ∷ [];
}

-- `{k: env.get(k) for k in st.worker.inputs}`
abbrev pub worker_inputs : Dict Value → List String → Dict Value
worker_inputs env ks = map (λ k. (k, get env k)) ks

-- `env.get("findings", [])`
abbrev pub findings_or : Option Value → Value
findings_or none = array []
findings_or (some v) = v

-- `env = {**env, **outputs}`
abbrev pub merge_env : Dict Value → Progress → Progress
merge_env out pr = record pr { env = update_dict pr.env out }

-- `adv.next_state or "terminal"`
abbrev pub next_or : Option StateId → StateId
next_or none = terminal
next_or (some t) = t

-- What follows the engine's answer in the state `s`.
abbrev pub follow_advance : StateId → Advance → Dict Value → Progress → Step
follow_advance s (advance_fault reason) out pr = stop (engine_fault reason) pr.stages
follow_advance s (loop_continue n) out pr = go s (some n) (merge_env out pr)
follow_advance s at_terminal out pr = go terminal none (merge_env out pr)
follow_advance s (moved t) out pr = go (next_or t) none (merge_env out pr)

module _ (engine : Engine) (s : StateId) (n : Option ℕ) where
  -- The engine's advance with the outputs of the state.
  unfoldable pub advance_with : Dict Value → Progress → Step
  advance_with out pr =
      follow_advance s (engine.advance s n pr.env out) out (record_stage in_advance s n pr)

  -- The branch for an inline state, behind the engine's `execute_inline`.
  unfoldable pub after_inline : Executed → Progress → Step
  unfolding advance_with
  after_inline (executed out) pr = advance_with out (record_stage in_inline s n pr)
  after_inline (refused reason) pr =
      stop (inline_fault s reason) (record_stage in_inline s n pr).stages

  -- `env["loop_iters"].append(outputs)`
  abbrev pub append_iteration : Value → Dict Value → Outputs → Progress → Step
  append_iteration (list vs) out results pr = advance_with out (
      record_stage in_loop s n (record pr {
        env = insert "loop_iters" (array (elements vs ++ object out ∷ [])) pr.env;
        unit_results = results;
      }))
  append_iteration _ out results pr = stop malformed_batches pr.stages

  -- The branch for a loop.
  unfoldable pub after_loop : Option (Dict Value × Outputs) → Progress → Step
  unfolding advance_with
  after_loop none pr = stop malformed_batches pr.stages
  after_loop (some (out, results)) pr = append_iteration (get pr.env "loop_iters") out results pr

  -- The branch for a worker, behind `run_worker`.
  unfoldable pub after_worker : WorkerEnd × WorkerRun → Progress → Step
  unfolding advance_with
  after_worker (outputs out, r) pr =
      advance_with out (record_stage in_worker s n (record pr { run = r }))
  after_worker (fault t, r) pr = stop (worker_fault s t) (record_stage in_worker s n pr).stages
  after_worker (crash name, r) pr = stop (worker_raised name) pr.stages
  after_worker (floor_crash exc, r) pr = stop (floor_raised exc) pr.stages

abbrev pub drive_on :
    (StateId → Option ℕ → Progress → RunEnd × List Stage) → Step → RunEnd × List Stage
drive_on continue (stop e stages) = (stopped e, stages)
drive_on continue (go s n pr) = continue s n pr

-- The variables before the loop.
abbrev pub initial : Dict Value → Progress
initial args = record {
  env = ("args", object args) ∷ ("loop_iters", array []) ∷ [];
  unit_results = [];
  stages = [];
  run = record {
    rate_limit_events = 0;
    overflow_splits = 0;
    degraded_workers = 0;
    coverage_floor_used = 0;
    calls = 0;
    slept = [];
  };
}

module _ (p : Parsers) (show : Value → String) (engine : Engine) (dispatch_worker : ℕ → Outcome)
    (specialist : Dict Value → Dict Value) (timings : List Stage → Outputs → Value)
    (max_retries : ℕ) where
  -- `env["timings"] = ...`
  abbrev pub with_timings : Progress → Progress
  with_timings pr = record pr { env = insert "timings" (timings pr.stages pr.unit_results) pr.env }

  -- One round of the loop, by the body of the state.
  unfoldable pub round_on : Body → StateId → Option ℕ → Progress → Step
  unfolding after_inline after_loop after_worker loop_outputs run_worker
  round_on final s n pr =
      stop
        (finished (get pr.env "verdict") (get pr.env "run_dir_path")
          (findings_or (lookup "findings" pr.env)))
        pr.stages
  round_on inline s n pr =
      let timed = with_timings pr in after_inline engine s n (engine.execute s n timed.env) timed
  round_on (loop role ks max_iterations done_field) s n pr =
      after_loop engine s n (loop_outputs p specialist n pr.env pr.unit_results) pr
  round_on (worker role ks) s n pr =
      after_worker engine s n
        (run_worker p show (id_text s) (worker_inputs pr.env ks) pr.env dispatch_worker max_retries
          pr.run)
        pr

  unfoldable pub round : StateId → Option ℕ → Progress → Step
  unfolding round_on state_of
  round s n pr = round_on (state_of s).body s n pr

  -- The loop, for at most `steps` rounds.
  unfoldable pub drive : ℕ → StateId → Option ℕ → Progress → RunEnd × List Stage
  unfolding round
  drive zero s n pr = (max_steps_exceeded, pr.stages)
  drive (suc steps) s n pr = drive_on (drive steps) (round s n pr)

  -- `run_review`, with `steps` for `_MAX_STEPS`.
  unfoldable pub run_review : ℕ → Dict Value → RunEnd × List Stage
  unfolding drive
  run_review steps args = drive steps entry none (initial args)

-- `_MAX_STEPS`
abbrev pub max_steps : ℕ
max_steps = 512
