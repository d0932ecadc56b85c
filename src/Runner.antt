-- ===== src/Runner.antt =====
-- code_review/runner.py: `_dispatch_one` with `_split_unit`, on the state of `RunnerStats` and of the
-- limiter. The dispatch hook is an argument: what it does at its n-th call. The cost stamp and the
-- cost totals only label the results, and are left out: the stamp is an argument.
pub mod Concurrency
pub mod Bounds
pub mod Dispatch
pub mod Total
pub use Concurrency.{Limiter}
unfoldable pub use Concurrency.{new_limiter, acquire, release, penalize, reward}
use Prim.Native.String.{◌++◌ as ◌<>◌}
use skill_code_review.Base.{
  ℕ, zero, suc, ◌+◌, ◌/◌, String, Bool, true, false, Option, none, some, List, [], ◌∷◌, ◌++◌, leb,
  if◌then◌else◌, length, take, drop, Dict, lookup, insert, keys, update_dict,
}
use skill_code_review.Value.{Value, str, list, dict, get, elements, entries, array, null}
use skill_code_review.Result.{
  Result, ok, raise, Exception, type_error, recursion_error, ◌>>=◌, characters, key_values,
}
use skill_code_review.Planner.{WorkUnit}

-- What a call of the hook comes to: one of the two exceptions that it knows, another exception by
-- the name of its type, or an output.
pub data Outcome : Type 0 where
  rate_limited overflow : Outcome
  error : String → Outcome
  output : Dict Value → Outcome

-- The counters of `RunnerStats` that the workers change.
pub record Stats : Type 0 where
  pub dispatched : ℕ
  pub failed : ℕ
  pub retries : ℕ
  pub rate_limit_events : ℕ
  pub overflow_splits : ℕ

-- The state that a dispatch changes: the limiter, the counters, how often the hook has been called,
-- and the exponents of the back-offs slept.
pub record Run : Type 0 where
  pub limiter : Limiter
  pub stats : Stats
  pub calls : ℕ
  pub slept : List ℕ

-- `{**unit, "files": files}`
abbrev pub with_files : WorkUnit → List String → WorkUnit
with_files unit files = record {
  leaf_id = unit.leaf_id;
  sub_index = unit.sub_index;
  total_subs = unit.total_subs;
  files = files;
}

-- `_split_unit`
unfoldable pub split_unit : WorkUnit → Option (WorkUnit × WorkUnit)
split_unit unit =
    let mid = length unit.files / 2 in
    if leb (length unit.files) 1
    then none
    else some (with_files unit (take mid unit.files), with_files unit (drop mid unit.files))

-- `_bump`
abbrev pub bump_retries : Stats → Stats
bump_retries s = record {
  dispatched = s.dispatched;
  failed = s.failed;
  retries = s.retries + 1;
  rate_limit_events = s.rate_limit_events;
  overflow_splits = s.overflow_splits;
}

abbrev pub bump_rate_limit : Stats → Stats
bump_rate_limit s = record {
  dispatched = s.dispatched;
  failed = s.failed;
  retries = s.retries;
  rate_limit_events = s.rate_limit_events + 1;
  overflow_splits = s.overflow_splits;
}

abbrev pub bump_overflow : Stats → Stats
bump_overflow s = record {
  dispatched = s.dispatched;
  failed = s.failed;
  retries = s.retries;
  rate_limit_events = s.rate_limit_events;
  overflow_splits = s.overflow_splits + 1;
}

abbrev pub bump_failed : Stats → Stats
bump_failed s = record {
  dispatched = s.dispatched;
  failed = s.failed + 1;
  retries = s.retries;
  rate_limit_events = s.rate_limit_events;
  overflow_splits = s.overflow_splits;
}

abbrev pub bump_dispatched : Stats → Stats
bump_dispatched s = record {
  dispatched = s.dispatched + 1;
  failed = s.failed;
  retries = s.retries;
  rate_limit_events = s.rate_limit_events;
  overflow_splits = s.overflow_splits;
}

abbrev pub with_stats : Run → Stats → Run
with_stats r s = record { limiter = r.limiter; stats = s; calls = r.calls; slept = r.slept }

abbrev pub with_limiter : Run → Limiter → Run
with_limiter r l = record { limiter = l; stats = r.stats; calls = r.calls; slept = r.slept }

abbrev pub sleep : Run → ℕ → Run
sleep r exponent = record {
  limiter = r.limiter;
  stats = r.stats;
  calls = r.calls;
  slept = r.slept ++ exponent ∷ [];
}

-- The call of the hook inside `acquire` and `release`.
abbrev pub called : Run → Run
called r = record {
  limiter = release (acquire r.limiter);
  stats = r.stats;
  calls = r.calls + 1;
  slept = r.slept;
}

abbrev pub Dispatched : Type 0
Dispatched = Result (Dict Value × Run)

-- The inner function `failed`.
unfoldable pub failed_unit : WorkUnit → String → Run → Dispatched
failed_unit unit reason r = ok (
  ("id", str unit.leaf_id)
      ∷ ("status", str "failed")
      ∷ ("findings", array [])
      ∷ ("skip_reason", str reason)
      ∷ [],
  with_stats r (bump_failed r.stats),
)

abbrev pub if_absent : Option Value → Dict Value → Dict Value → Dict Value
if_absent none with_default d = with_default
if_absent (some w) with_default d = d

-- `out.setdefault(k, v)`
abbrev pub set_default : String → Value → Dict Value → Dict Value
set_default k v d = if_absent (lookup k d) (insert k v d) d

-- The branch without an exception.
unfoldable pub completed_unit : WorkUnit → Dict Value → Run → Dispatched
completed_unit unit out r = ok (
  set_default "findings" (array [])
      (set_default "status" (str "completed") (set_default "id" (str unit.leaf_id) out)),
  with_limiter (with_stats r (bump_dispatched r.stats)) (reward r.limiter),
)

-- What `merged.extend(v)` adds.
unfoldable pub extension : Value → Result (List Value)
extension (list vs) = ok (elements vs)
extension (str s) = ok (characters s)
extension (dict fs) = ok (key_values (keys (entries fs)))
extension _ = raise type_error

abbrev pub value_or_list : Option Value → Value
value_or_list none = array []
value_or_list (some v) = v

-- `r.get("findings", [])`
abbrev pub findings_value : Dict Value → Value
findings_value r = value_or_list (lookup "findings" r)

-- The result that stands for both halves, with the cost stamp.
abbrev pub overflow_out : String → List Value → Dict Value → Dict Value
overflow_out leaf_id merged cost =
    update_dict
      (("id", str leaf_id) ∷ ("status", str "completed") ∷ ("findings", array merged) ∷ []) cost

-- The hook, the cost stamp of the results of a split, and `max_retries`.
module _ (dispatch : ℕ → WorkUnit → Outcome) (stamp : List (Dict Value) → Dict Value)
    (max_retries : ℕ) where
  -- The two halves of a unit, one after the other, and the result that stands for both.
  unfoldable pub both_halves :
      (WorkUnit → Run → Dispatched) → WorkUnit → WorkUnit → WorkUnit → Run → Dispatched
  unfolding extension
  both_halves dispatch_half unit a b r = do
    first ← dispatch_half a r
    found_first ← extension (findings_value first.0)
    second ← dispatch_half b first.1
    found_second ← extension (findings_value second.0)
    ok (
      overflow_out unit.leaf_id (found_first ++ found_second) (stamp (first.0 ∷ second.0 ∷ [])),
      second.1,
    )

  -- The branch of a context overflow.
  unfoldable pub overflow_branch :
      (WorkUnit → Run → Dispatched) → WorkUnit → Option (WorkUnit × WorkUnit) → Run → Dispatched
  unfolding both_halves failed_unit
  overflow_branch dispatch_half unit none r =
      failed_unit unit "context overflow; single file too large" r
  overflow_branch dispatch_half unit (some (a, b)) r =
      both_halves dispatch_half unit a b (with_stats r (bump_overflow r.stats))

  -- The state behind a rate limit, and behind another exception.
  abbrev pub after_rate_limit : Run → Run
  after_rate_limit r =
      with_limiter (with_stats r (bump_retries (bump_rate_limit r.stats))) (penalize r.limiter)

  abbrev pub after_error : Run → Run
  after_error r = with_stats r (bump_retries r.stats)

  -- What follows a call, by its outcome: `retry` goes on with the loop after a back-off, and is
  -- `none` when the retries are used up.
  unfoldable pub follow :
      (WorkUnit → Run → Dispatched)
      → Option (Run → Dispatched)
      → WorkUnit
      → Outcome
      → Run
      → Dispatched
  unfolding overflow_branch failed_unit completed_unit split_unit
  follow dispatch_half none unit rate_limited r =
      failed_unit unit "rate-limited after retries" (after_rate_limit r)
  follow dispatch_half (some retry) unit rate_limited r = retry (after_rate_limit r)
  follow dispatch_half retry unit overflow r =
      overflow_branch dispatch_half unit (split_unit unit) r
  follow dispatch_half none unit (error name) r =
      failed_unit unit ("error after retries: " <> name) (after_error r)
  follow dispatch_half (some retry) unit (error name) r = retry (after_error r)
  follow dispatch_half retry unit (output out) r = completed_unit unit out r

  -- The loop with `left` retries to go and `attempt` of them behind it.
  unfoldable pub attempts : (WorkUnit → Run → Dispatched) → ℕ → ℕ → WorkUnit → Run → Dispatched
  unfolding follow
  attempts dispatch_half zero attempt unit r =
      follow dispatch_half none unit (dispatch r.calls unit) (called r)
  attempts dispatch_half (suc left) attempt unit r =
      follow dispatch_half
        (some (λ s. attempts dispatch_half left (suc attempt) unit (sleep s attempt))) unit
        (dispatch r.calls unit) (called r)

  -- `_dispatch_one`, with calls of itself nested at most `depth` deep.
  unfoldable pub dispatch_one : ℕ → WorkUnit → Run → Dispatched
  unfolding attempts
  dispatch_one zero unit r = raise recursion_error
  dispatch_one (suc depth) unit r = attempts (λ u s. dispatch_one depth u s) max_retries 0 unit r
