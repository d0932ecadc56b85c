-- ===== src/Worker.antt =====
-- code_review/runner.py: the worker states, `_call_worker_resilient` and the worker branch of
-- `run_review`, with the coverage floor between the worker and the engine. The worker hook is an
-- argument: what it does at its n-th call.
pub mod Floor
pub mod Picks
pub mod Retries
pub mod Branch
use skill_code_review.Base.{
  ℕ, zero, suc, ◌+◌, String, Bool, true, false, Option, none, some, List, [], ◌∷◌, ◌++◌, str_eq,
  if◌then◌else◌, Dict,
}
use skill_code_review.Value.{Value, array}
use skill_code_review.Result.{Result, ok, raise, Exception, Parsers, ◌>>=◌}
use skill_code_review.Runner.{Outcome, rate_limited, overflow, error, output}
use Floor.{coverage_floor, Floored}

-- The counters of `RunnerStats` that a worker state changes, with how often the hook has been called
-- and the exponents of the back-offs slept.
pub record WorkerRun : Type 0 where
  pub rate_limit_events : ℕ
  pub overflow_splits : ℕ
  pub degraded_workers : ℕ
  pub coverage_floor_used : ℕ
  pub calls : ℕ
  pub slept : List ℕ

-- The two exceptions that are retried.
pub data Transient : Type 0 where
  rate_limit context_overflow : Transient

-- How `_call_worker_resilient` ends: with the outputs, or by one of the exceptions.
pub data Reply : Type 0 where
  replied : Dict Value → Reply
  gave_up : Transient → Reply
  failed : String → Reply

abbrev pub count_call : WorkerRun → WorkerRun
count_call r = record r { calls = r.calls + 1 }

abbrev pub count_event : Transient → WorkerRun → WorkerRun
count_event rate_limit r = record r { rate_limit_events = r.rate_limit_events + 1 }
count_event context_overflow r = record r { overflow_splits = r.overflow_splits + 1 }

-- `sleep(base_backoff * (2 ** attempt))`
abbrev pub sleep : ℕ → WorkerRun → WorkerRun
sleep attempt r = record r { slept = r.slept ++ attempt ∷ [] }

-- An `except` branch with no retry left, and with one.
abbrev pub raise_again : Transient → WorkerRun → Reply × WorkerRun
raise_again t r = (gave_up t, count_event t r)

abbrev pub try_again :
    (WorkerRun → Reply × WorkerRun) → ℕ → Transient → WorkerRun → Reply × WorkerRun
try_again again attempt t r = again (sleep attempt (count_event t r))

-- What follows a call of the hook.
unfoldable pub react :
    (Transient → WorkerRun → Reply × WorkerRun) → Outcome → WorkerRun → Reply × WorkerRun
react on_transient (output out) r = (replied out, r)
react on_transient (error name) r = (failed name, r)
react on_transient rate_limited r = on_transient rate_limit r
react on_transient overflow r = on_transient context_overflow r

-- `_call_worker_resilient` from the attempt `attempt` on, with `left` retries left of `max_retries`.
unfoldable pub call_worker : (ℕ → Outcome) → ℕ → ℕ → WorkerRun → Reply × WorkerRun
unfolding react
call_worker dispatch zero attempt r = react raise_again (dispatch r.calls) (count_call r)
call_worker dispatch (suc left) attempt r =
    react (try_again (call_worker dispatch left (suc attempt)) attempt) (dispatch r.calls)
      (count_call r)

-- `_DEGRADABLE_WORKERS.get(state_id)`, applied.
abbrev pub fallback : String → Option (Dict Value)
fallback state_id =
    if str_eq state_id "tool_discovery" then some (("tool_results", array []) ∷ []) else none

-- What a worker state comes to: outputs for the engine, a fault that ends the run, or an exception
-- that leaves `run_review`.
pub data WorkerEnd : Type 0 where
  outputs : Dict Value → WorkerEnd
  fault : Transient → WorkerEnd
  crash : String → WorkerEnd
  floor_crash : Exception → WorkerEnd

abbrev pub count_floor : Bool → WorkerRun → WorkerRun
count_floor true r = record r { coverage_floor_used = r.coverage_floor_used + 1 }
count_floor false r = r

unfoldable pub end_floor : Result Floored → WorkerRun → WorkerEnd × WorkerRun
end_floor (ok f) r = (outputs f.outputs, count_floor f.used r)
end_floor (raise exc) r = (floor_crash exc, r)

abbrev pub count_degraded : WorkerRun → WorkerRun
count_degraded r = record r { degraded_workers = r.degraded_workers + 1 }

module _ (p : Parsers) (show : Value → String) (state_id : String) (inputs env : Dict Value) where
  -- The outputs through the coverage floor.
  unfoldable pub floor_outputs : Dict Value → WorkerRun → WorkerEnd × WorkerRun
  unfolding end_floor coverage_floor
  floor_outputs out r = end_floor (coverage_floor p show state_id inputs out env) r

  unfoldable pub degrade : Option (Dict Value) → Transient → WorkerRun → WorkerEnd × WorkerRun
  unfolding floor_outputs
  degrade none t r = (fault t, r)
  degrade (some out) t r = floor_outputs out (count_degraded r)

  unfoldable pub after_call : Reply → WorkerRun → WorkerEnd × WorkerRun
  unfolding floor_outputs degrade
  after_call (replied out) r = floor_outputs out r
  after_call (gave_up t) r = degrade (fallback state_id) t r
  after_call (failed name) r = (crash name, r)

  -- The worker branch of `run_review`, up to the engine's advance.
  unfoldable pub run_worker : (ℕ → Outcome) → ℕ → WorkerRun → WorkerEnd × WorkerRun
  unfolding call_worker after_call
  run_worker dispatch max_retries r =
      let (reply, s) = call_worker dispatch max_retries 0 r in after_call reply s
