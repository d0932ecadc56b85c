-- ===== src/Pipeline.antt =====
-- code_review/runner.py, the branch of `run_review` for the state `dispatch_specialists`, and the
-- environment that it hands to `handle_merge_specialist_outputs`: the planner's batches, and one
-- payload for each of them. `_dispatch_units` gives one result for each unit; which one is an
-- argument.
pub mod Encoding
pub mod Union
pub mod Returns
pub mod Whole
use skill_code_review.Base.{
  ℕ, zero, suc, String, Bool, List, [], ◌∷◌, ℤ, pos, map, flat_map, ◌==◌, if◌then◌else◌, Option,
  none, some, Dict,
}
use skill_code_review.Value.{Value, bool, int, str, array, object}
use skill_code_review.Planner.{WorkUnit, Batch, Plan}
use skill_code_review.Merger.{Key, eq_key, Outputs, put}

-- A unit and a batch as the dicts that the planner returns.
unfoldable pub unit_fields : WorkUnit → Dict Value
unit_fields u =
    ("leaf_id", str u.leaf_id)
    ∷ ("sub_index", int (pos u.sub_index))
    ∷ ("total_subs", int (pos u.total_subs))
    ∷ ("files", array (map str u.files))
    ∷ []

unfoldable pub batch_fields : Batch → Dict Value
unfolding unit_fields
batch_fields b =
    ("batch_index", int (pos b.batch_index))
    ∷ ("units", array (map (λ u. object (unit_fields u)) b.units))
    ∷ []

abbrev pub unit_key : WorkUnit → Key
unit_key u = (u.leaf_id, pos u.sub_index)

-- `results[key] = fut.result()` over the units.
unfoldable pub dispatch_units : (WorkUnit → Dict Value) → List WorkUnit → Outputs → Outputs
unfolding put
dispatch_units result [] results = results
dispatch_units result (u ∷ units) results =
    dispatch_units result units (put (unit_key u) (result u) results)

-- `unit_results.get(key, {...})`
unfoldable pub result_of : Key → String → Outputs → Dict Value
result_of k leaf_id [] =
    ("id", str leaf_id)
    ∷ ("status", str "failed")
    ∷ ("findings", array [])
    ∷ ("skip_reason", str "no result")
    ∷ []
result_of k leaf_id ((j, out) ∷ results) =
    let later = result_of k leaf_id results in if eq_key j k then out else later

-- One element of `iter_outputs`.
unfoldable pub unit_output : Outputs → WorkUnit → Dict Value
unfolding result_of
unit_output results u =
    ("leaf_id", str u.leaf_id)
    ∷ ("sub_index", int (pos u.sub_index))
    ∷ ("specialist_output", object (result_of (unit_key u) u.leaf_id results))
    ∷ []

-- The outputs of one iteration of the loop.
unfoldable pub iteration : Outputs → ℕ → ℕ → List WorkUnit → Dict Value
unfolding unit_output
iteration results total batch_index units =
    ("batch_index", int (pos batch_index))
    ∷ ("iter_outputs", array (map (λ u. object (unit_output results u)) units))
    ∷ ("loop_done", bool (batch_index == total))
    ∷ []

-- `env["loop_iters"]` behind the loop: the iteration `batch_index` has the units of the batch with
-- that number, from 1 on.
unfoldable pub loop_iters : Outputs → ℕ → ℕ → List Batch → List (Dict Value)
unfolding iteration
loop_iters results total batch_index [] = []
loop_iters results total batch_index (b ∷ batches) =
    iteration results total batch_index b.units ∷ loop_iters results total (suc batch_index) batches

abbrev pub plan_units_of : Plan → List WorkUnit
plan_units_of p = flat_map (λ b. b.units) p.specialist_batches

abbrev pub loop_payloads : (WorkUnit → Dict Value) → Plan → List (Dict Value)
loop_payloads result p =
    loop_iters (dispatch_units result (plan_units_of p) []) p.total_batches 1 p.specialist_batches
