-- ===== src/Merger/Trim.antt =====
-- code_review/handlers.py `_severity_rank`, `_trim_lowest_priority_unit` and the aggregate-size
-- guard of `handle_merge_specialist_outputs`. `_serialised_size`, the bytes of a JSON text that
-- Python's `json` writes, is an argument.
pub mod Shrinking
pub mod Guard
use skill_code_review.Base.{
  ℕ, zero, suc, ◌+◌, ◌-◌, ◌*◌, max, String, Bool, true, false, ◌&&◌, Option, none, some, List, [],
  ◌∷◌, ltb, leb, ◌==◌, if◌then◌else◌, length, Dict, insert, sort, keys,
}
use skill_code_review.Value.{
  Value, null, list, dict, str, get, as_str, as_list, ensure_dict, elements, entries, array, truthy,
}
use skill_code_review.Result.{Result, ok, raise, Exception, type_error, ◌>>=◌}
use skill_code_review.Glob.{codes}
use skill_code_review.Triage.{lower}

abbrev pub eq_codes : List ℕ → List ℕ → Bool
eq_codes [] [] = true
eq_codes [] (d ∷ t) = false
eq_codes (c ∷ s) [] = false
eq_codes (c ∷ s) (d ∷ t) = c == d && eq_codes s t

-- `_SEVERITY_RANK.get(s, 0)` for the code points of a text.
unfoldable pub rank_of : List ℕ → ℕ
rank_of s =
    if eq_codes s (codes "critical")
    then 3
    else if eq_codes s (codes "important")
    then 2
    else if eq_codes s (codes "minor")
    then 1
    else 0

unfoldable pub rank_at : Option String → ℕ
unfolding rank_of lower
rank_at none = 0
rank_at (some sev) = rank_of (lower (codes sev))

-- `_severity_rank`; a finding that is no dict has no severity.
unfoldable pub severity_rank : Value → ℕ
unfolding rank_at
severity_rank finding = rank_at (as_str (get (ensure_dict finding) "severity"))

abbrev pub less_severe : Value → Value → Bool
less_severe f g = leb (severity_rank f) (severity_rank g)

-- `_AGGREGATE_OUTPUT_BUDGET_BYTES`
abbrev pub output_budget : ℕ
output_budget = 100 * 1024 * 1024

abbrev pub findings_of : Dict Value → Option (List Value)
findings_of out = as_list (get out "findings")

-- `len(out.get("findings") or [])`
unfoldable pub count_findings : Value → Result ℕ
count_findings (list vs) = ok (length (elements vs))
count_findings (str s) = ok (length (codes s))
count_findings (dict fs) = ok (length (keys (entries fs)))
count_findings v = if truthy v then raise type_error else ok 0

-- `max_passes`
unfoldable pub max_passes : List (Dict Value) → Result ℕ
unfolding count_findings
max_passes [] = ok 0
max_passes (out ∷ outs) = do
  n ← count_findings (get out "findings")
  m ← max_passes outs
  ok (n + m)

abbrev pub put_first : List (Dict Value) → Option (Dict Value × ℕ) → Option (List (Dict Value) × ℕ)
put_first outs none = none
put_first outs (some (out, freed)) = some (out ∷ outs, freed)

abbrev pub put_before : Dict Value → Option (List (Dict Value) × ℕ) → Option (List (Dict Value) × ℕ)
put_before out none = none
put_before out (some (outs, freed)) = some (out ∷ outs, freed)

-- The rest of the loop after a pass, which stops it if it has not trimmed anything.
abbrev pub after :
    (ℕ → List (Dict Value) → List (Dict Value))
    → List (Dict Value)
    → Option (List (Dict Value) × ℕ)
    → List (Dict Value)
after rest outs none = outs
after rest outs (some (trimmed, freed)) = rest freed trimmed

module _ (size : Dict Value → ℕ) where
  -- The largest of the sizes.
  unfoldable pub largest : List (Dict Value) → ℕ
  largest [] = 0
  largest (out ∷ outs) = max (size out) (largest outs)

  abbrev pub total_size : List (Dict Value) → ℕ
  total_size [] = 0
  total_size (out ∷ outs) = size out + total_size outs

  -- The output with the findings `left`, and the bytes that this frees; none if it frees nothing.
  abbrev pub with_findings : Dict Value → List Value → Option (Dict Value × ℕ)
  with_findings target left =
      let trimmed = insert "findings" (array left) target in
      if leb (size target) (size trimmed) then none else some (trimmed, size target - size trimmed)

  -- The target without the first of the findings that are sorted by severity.
  unfoldable pub drop_first : Dict Value → List Value → Option (Dict Value × ℕ)
  drop_first target [] = none
  drop_first target (lowest ∷ left) = with_findings target left

  unfoldable pub shrink_at : Dict Value → Option (List Value) → Option (Dict Value × ℕ)
  unfolding drop_first
  shrink_at target none = none
  shrink_at target (some findings) = drop_first target (sort less_severe findings)

  unfoldable pub shrink : Dict Value → Option (Dict Value × ℕ)
  unfolding shrink_at
  shrink target = shrink_at target (findings_of target)

  -- The first output with the size `biggest` is the target.
  unfoldable pub trim_at : ℕ → List (Dict Value) → Option (List (Dict Value) × ℕ)
  unfolding shrink
  trim_at biggest [] = none
  trim_at biggest (out ∷ outs) =
      let later = trim_at biggest outs in
      if size out == biggest then put_first outs (shrink out) else put_before out later

  -- `_trim_lowest_priority_unit`: the outputs afterwards and the bytes freed, or none where it
  -- returns `(False, 0)`.
  unfoldable pub trim_lowest_priority_unit : List (Dict Value) → Option (List (Dict Value) × ℕ)
  unfolding largest trim_at
  trim_lowest_priority_unit outs = trim_at (largest outs) outs

  -- The loop `while aggregate_bytes > budget and passes < max_passes`, with `left` passes to go.
  unfoldable pub trim_loop : ℕ → ℕ → List (Dict Value) → List (Dict Value)
  unfolding trim_lowest_priority_unit
  trim_loop zero aggregate outs = outs
  trim_loop (suc left) aggregate outs =
      let more =
        after (λ freed trimmed. trim_loop left (aggregate - freed) trimmed) outs
          (trim_lowest_priority_unit outs) in
      if ltb output_budget aggregate then more else outs

  -- The guard.
  unfoldable pub guard_size : List (Dict Value) → Result (List (Dict Value))
  unfolding max_passes trim_loop
  guard_size outs =
      if ltb output_budget (total_size outs)
      then (do passes ← max_passes outs; ok (trim_loop passes (total_size outs) outs))
      else ok outs
