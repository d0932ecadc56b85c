-- ===== src/Tests/Running.antt =====
-- Examples for the merge of the outputs and the runner.
use skill_code_review.Base.{
  sort_insert, contains, add, update, insert, sort, ℕ, ◌≤◌, ◌<◌, true, false, ◌&&◌, not, none, some,
  List, [], ◌∷◌, ◌++◌, ◌≡◌, ◌⊎◌, refl, arith, pos, length, leb, ltb, leb_ℤ, Dict, lookup,
  if◌then◌else◌,
}
use skill_code_review.Value.{
  ensure_dict, strings, Value, int, str, get, array, object, as_int, ensure_list,
}
use skill_code_review.Result.{iterate, ok, raise, dispatch_loop_exited_early}
use skill_code_review.Planner.{WorkUnit}
use skill_code_review.Merger.{
  severity_rank, key_of, Key, Merged, has_key, dicts, batch_units, int_or_zero,
  resolve_iteration_payloads, merge_specialist_outputs,
}
use skill_code_review.Merger.Reported.{is_reported}
use skill_code_review.Merger.Drained.{planned_in, merge-all_reported, merge-missing}
use skill_code_review.Merger.Trim.{guard_size, output_budget, total_size, trim_lowest_priority_unit}
use skill_code_review.Merger.Trim.Shrinking.{AllShrunk}
use skill_code_review.Merger.Trim.Guard.{guard_size-AllShrunk}
use skill_code_review.Runner.{release, Outcome, overflow, output, Run, dispatch_one, split_unit}
use skill_code_review.Runner.Concurrency.{new_limiter, may_acquire, acquire}
use skill_code_review.Runner.Bounds.{done, then_step, acquires, Bounded, Steps-Bounded}
use skill_code_review.Runner.Dispatch.{split_unit-files}
use skill_code_review.Runner.Total.{dispatch_one-overflow}

abbrev unit : Dict Value
unit =
    ("leaf_id", str "lang-python")
    ∷ ("sub_index", int (pos 1))
    ∷ ("files", array (str "a.py" ∷ []))
    ∷ []

abbrev batches : List Value
batches = object (("units", array (object unit ∷ [])) ∷ []) ∷ []

abbrev specialist_output : Dict Value
specialist_output = ("id", str "lang-python") ∷ ("findings", array []) ∷ []

-- A run with one unit, whose output one iteration of the loop has.
abbrev merged_env : Dict Value
merged_env =
    ("specialist_batches", array batches)
    ∷ ("total_files_planned", int (pos 1))
    ∷ (
      "loop_iters",
      array (
          object (
            (
              "iter_outputs",
              array (
                  object (
                    ("leaf_id", str "lang-python")
                    ∷ ("sub_index", int (pos 1))
                    ∷ ("specialist_output", object specialist_output)
                    ∷ [])
                  ∷ []),
            )
            ∷ [])
          ∷ []),
    )
    ∷ []

abbrev merged : Merged
merged = record {
  specialist_outputs = specialist_output ∷ [];
  pending_writes = record { key = ("lang-python", pos 1); iter_n = int (pos 1) } ∷ [];
  union_files = "a.py" ∷ [];
}

abbrev small : Dict Value → ℕ
small out = 10

merged_run : merge_specialist_outputs small merged_env ≡ ok merged
unfolding merge_specialist_outputs ensure_list get lookup iterate sort insert update strings add
    contains
merged_run = refl

units_of_batches :
    batch_units (dicts (ensure_list (get merged_env "specialist_batches"))) ≡ ok (unit ∷ [])
unfolding batch_units ensure_list get lookup iterate
units_of_batches = refl

unit_planned : planned_in ("lang-python", pos 1) (unit ∷ []) ≡ true
unfolding get key_of lookup
unit_planned = refl

merge-all_reported_example :
    (is_reported ("lang-python", pos 1) (resolve_iteration_payloads merged_env) ≡ true)
    × (leb_ℤ (int_or_zero (as_int (get merged_env "total_files_planned"))) (pos 1) ≡ true)
merge-all_reported_example =
    merge-all_reported small merged_env merged (unit ∷ []) ("lang-python", pos 1) merged_run
      units_of_batches unit_planned

-- The same run without an iteration.
abbrev early_env : Dict Value
early_env = ("specialist_batches", array batches) ∷ []

early_units :
    batch_units (dicts (ensure_list (get early_env "specialist_batches"))) ≡ ok (unit ∷ [])
unfolding batch_units ensure_list get lookup iterate
early_units = refl

early_unreported : is_reported ("lang-python", pos 1) (resolve_iteration_payloads early_env) ≡ false
unfolding resolve_iteration_payloads get lookup
early_unreported = refl

merge-missing_example :
    (missing : List Key) × (merge_specialist_outputs small early_env
      ≡ raise (dispatch_loop_exited_early missing))
    × ((j : Key)
        → has_key j missing ≡ (
            planned_in j (unit ∷ []) && not (is_reported j (resolve_iteration_payloads early_env))))
merge-missing_example =
    merge-missing small early_env (unit ∷ []) ("lang-python", pos 1) early_units unit_planned
      early_unreported

-- A size that only an output without findings keeps within the budget.
abbrev finding : Value → Value
finding severity = object (("severity", severity) ∷ [])

abbrev large_output : Dict Value
large_output = ("findings", array (finding (str "critical") ∷ finding (str "minor") ∷ [])) ∷ []

abbrev trimmed_output : Dict Value
trimmed_output = ("findings", array (finding (str "critical") ∷ [])) ∷ []

abbrev two_findings : Dict Value → ℕ
two_findings out = if ltb 1 (length (ensure_list (get out "findings"))) then 200000000 else 10

guard_run : guard_size two_findings (large_output ∷ []) ≡ ok (trimmed_output ∷ [])
unfolding guard_size ensure_list get lookup sort sort_insert severity_rank ensure_dict insert
guard_run = refl

guard_size-AllShrunk_example :
    AllShrunk (large_output ∷ []) (trimmed_output ∷ [])
    × ((total_size two_findings (trimmed_output ∷ []) ≤ output_budget)
        ⊎ (trim_lowest_priority_unit two_findings (trimmed_output ∷ []) ≡ none))
guard_size-AllShrunk_example =
    guard_size-AllShrunk two_findings (large_output ∷ []) (trimmed_output ∷ []) guard_run

abbrev three_files : WorkUnit
three_files = record {
  leaf_id = "lang-python";
  sub_index = 1;
  total_subs = 1;
  files = "a" ∷ "b" ∷ "c" ∷ [];
}

split_unit-files_example :
    (a b : WorkUnit) × (split_unit three_files ≡ some (a, b))
    × (a.files ++ b.files ≡ "a" ∷ "b" ∷ "c" ∷ [])
    × (a.leaf_id ≡ "lang-python")
    × (b.leaf_id ≡ "lang-python")
    × (1 ≤ length a.files)
    × (length a.files < 3)
    × (1 ≤ length b.files)
    × (length b.files < 3)
split_unit-files_example = split_unit-files three_files (omega arith)

one_acquired : may_acquire (new_limiter 4 1) ≡ true
unfolding may_acquire new_limiter
one_acquired = refl

Steps-Bounded_example : Bounded (acquire (new_limiter 4 1))
Steps-Bounded_example =
    Steps-Bounded 4 1 (acquire (new_limiter 4 1)) (omega arith) (omega arith)
      (then_step done (acquires one_acquired))

-- A hook that can take one file only, and one for which every call overflows; no cost stamp.
abbrev one_file_only : ℕ → WorkUnit → Outcome
one_file_only n u = if leb (length u.files) 1 then output [] else overflow

abbrev no_stamp : List (Dict Value) → Dict Value
no_stamp rs = []

abbrev start_run : Run
start_run = record {
  limiter = new_limiter 4 1;
  stats = record {
    dispatched = 0;
    failed = 0;
    retries = 0;
    rate_limit_events = 0;
    overflow_splits = 0;
  };
  calls = 0;
  slept = [];
}

abbrev always_overflow : ℕ → WorkUnit → Outcome
always_overflow n u = overflow

abbrev two_files : WorkUnit
two_files = record {
  leaf_id = "lang-python";
  sub_index = 1;
  total_subs = 1;
  files = "a" ∷ "b" ∷ [];
}

abbrev overflow_result : Dict Value
overflow_result =
    ("id", str "lang-python") ∷ ("status", str "completed") ∷ ("findings", array []) ∷ []

-- Both halves have failed.
abbrev overflow_run : Run
overflow_run = record {
  limiter = new_limiter 4 1;
  stats = record {
    dispatched = 0;
    failed = 2;
    retries = 0;
    rate_limit_events = 0;
    overflow_splits = 1;
  };
  calls = 3;
  slept = [];
}

overflowed :
    dispatch_one always_overflow no_stamp 2 2 two_files start_run
    ≡ ok (overflow_result, overflow_run)
unfolding dispatch_one lookup new_limiter release acquire
overflowed = refl

dispatch_one-overflow_example : lookup "status" overflow_result ≡ some (str "completed")
dispatch_one-overflow_example =
    dispatch_one-overflow always_overflow no_stamp 2 2 two_files start_run overflow_run
      overflow_result (λ rs. unfold lookup in refl) refl (omega arith) overflowed
