-- ===== src/Review/Batches.antt =====
-- code_review/runner.py `run_review`, the branch for a loop: the units are dispatched before the
-- first iteration, and an iteration reports the results of its batch. Batches and units of another
-- shape than the planner writes raise an exception (`none`).
use skill_code_review.Base.{
  ℕ, zero, suc, ◌-◌, Bool, true, Option, none, some, List, [], ◌∷◌, ◌++◌, Dict, lookup, ℤ, pos,
  str_eq, if◌then◌else◌,
}
use skill_code_review.Value.{
  value_or, Value, bool, int, str, list, dict, end, array, object, get, elements, entries, truthy,
}
use skill_code_review.Result.{Result, ok, Parsers, to_int}
use skill_code_review.Merger.{Key, Outputs, put, equals_int}
use skill_code_review.Pipeline.{result_of}

-- `[x for x in v]`, where each is used as a dict.
unfoldable pub all_dicts : List Value → Option (List (Dict Value))
all_dicts [] = some []
all_dicts (dict fs ∷ vs) = elim (all_dicts vs) [ none ↦ none | some ds ↦ some (entries fs ∷ ds) ]
all_dicts (_ ∷ vs) = none

-- `env.get("specialist_batches") or []`
abbrev pub batches_of : Value → Option (List Value)
batches_of (list vs) = some (elements vs)
batches_of v = if truthy v then none else some []

-- `b.get("units", [])`
abbrev pub units_in : Option Value → Option (List (Dict Value))
units_in none = some []
units_in (some (list vs)) = all_dicts (elements vs)
units_in (some (str s)) = if str_eq s "" then some [] else none
units_in (some (dict end)) = some []
units_in (some _) = none

abbrev pub units_of : Value → Option (List (Dict Value))
units_of (dict fs) = units_in (lookup "units" (entries fs))
units_of _ = none

abbrev pub append_some : {A : Type 0} → Option (List A) → Option (List A) → Option (List A)
append_some (some xs) (some ys) = some (xs ++ ys)
append_some _ _ = none

-- `[u for b in batches for u in b.get("units", [])]`
unfoldable pub units_of_all : List Value → Option (List (Dict Value))
unfolding all_dicts
units_of_all [] = some []
units_of_all (b ∷ batches) = append_some (units_of b) (units_of_all batches)

-- A key of the results; a `leaf_id` that is no text counts as malformed.
abbrev pub key_at : Value → Result ℤ → Option Key
key_at (str leaf_id) (ok sub_index) = some (leaf_id, sub_index)
key_at _ _ = none

-- `iteration_n or 1`
abbrev pub batch_index_of : Option ℕ → ℕ
batch_index_of (some (suc n)) = suc n
batch_index_of _ = 1

module _ (p : Parsers) (specialist : Dict Value → Dict Value) where
  -- `(u.get("leaf_id", ""), int(u.get("sub_index", 1)))`
  abbrev pub future_key : Dict Value → Option Key
  future_key u =
      key_at (value_or (str "") (lookup "leaf_id" u))
        (to_int p (value_or (int (pos 1)) (lookup "sub_index" u)))

  -- `results` of `_dispatch_units`.
  unfoldable pub dispatch_all : List (Dict Value) → Outputs → Option Outputs
  unfolding put
  dispatch_all [] results = some results
  dispatch_all (u ∷ units) results = elim (future_key u) [
    | none ↦ none
    | some k ↦ dispatch_all units (put k (specialist u) results)
  ]

  -- One element of `iter_outputs`; `u["leaf_id"]` and `u["sub_index"]` must be there.
  abbrev pub report_by : Outputs → Value → Value → Option Key → Option (Dict Value)
  report_by results leaf_id sub_index none = none
  report_by results leaf_id sub_index (some k) = some (
      ("leaf_id", leaf_id)
      ∷ ("sub_index", sub_index)
      ∷ ("specialist_output", object (result_of k k.0 results))
      ∷ [])

  abbrev pub unit_report : Outputs → Option Value → Option Value → Option (Dict Value)
  unit_report results (some leaf_id) (some sub_index) =
      report_by results leaf_id sub_index (key_at leaf_id (to_int p sub_index))
  unit_report results _ _ = none

  unfoldable pub unit_reports : Outputs → List (Dict Value) → Option (List Value)
  unit_reports results [] = some []
  unit_reports results (u ∷ units) =
      elim (unit_report results (lookup "leaf_id" u) (lookup "sub_index" u)) [
        | none ↦ none
        | some r ↦ elim (unit_reports results units) [
          | none ↦ none
          | some rs ↦ some (object r ∷ rs)
        ]
      ]

  -- `batches[batch_index - 1] if batch_index - 1 < len(batches) else {"units": []}`
  unfoldable pub units_at : ℕ → List Value → Option (List (Dict Value))
  units_at i [] = some []
  units_at zero (b ∷ batches) = units_of b
  units_at (suc i) (b ∷ batches) = units_at i batches

  -- `batch_index == env.get("total_batches", batch_index)`
  abbrev pub is_last : ℕ → Option Value → Bool
  is_last batch_index none = true
  is_last batch_index (some v) = equals_int v (pos batch_index)

  -- `if not unit_results:`
  abbrev pub results_for : List Value → Outputs → Option Outputs
  results_for batches (r ∷ results) = some (r ∷ results)
  results_for batches [] = elim (units_of_all batches) [
    | none ↦ none
    | some units ↦ dispatch_all units []
  ]

  abbrev pub outputs_of : ℕ → Dict Value → List Value → Dict Value
  outputs_of batch_index env reports =
      ("batch_index", int (pos batch_index))
      ∷ ("iter_outputs", array reports)
      ∷ ("loop_done", bool (is_last batch_index (lookup "total_batches" env)))
      ∷ []

  abbrev pub reports_for : ℕ → List Value → Outputs → Option (List Value)
  reports_for batch_index batches results = elim (units_at (batch_index - 1) batches) [
    | none ↦ none
    | some units ↦ unit_reports results units
  ]

  -- The outputs of the iteration, with the results behind it.
  unfoldable pub loop_outputs : Option ℕ → Dict Value → Outputs → Option (Dict Value × Outputs)
  unfolding units_of_all dispatch_all unit_reports units_at
  loop_outputs iteration_n env unit_results = elim (batches_of (get env "specialist_batches")) [
    | none ↦ none
    | some batches ↦ elim (results_for batches unit_results) [
      | none ↦ none
      | some results ↦ elim (reports_for (batch_index_of iteration_n) batches results) [
        | none ↦ none
        | some reports ↦ some (outputs_of (batch_index_of iteration_n) env reports, results)
      ]
    ]
  ]
