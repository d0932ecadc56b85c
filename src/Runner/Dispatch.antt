-- ===== src/Runner/Dispatch.antt =====
-- code_review/runner.py `_dispatch_one`: it returns, it gives its place in the pool back, and what a
-- split of an overflowing unit reports.
use skill_code_review.Base.{
  ◌/◌, ◌≤◌, ◌<◌, String, false, none, some, List, [], ◌++◌, ◌≡◌, refl, ap, ◌∙◌, arith, leb, length,
  take, drop, Dict, lookup, inl, inr, le→leb, length-take, length-drop, take-append-drop,
  lookup-insert, str_eq, Option-cases,
}
use skill_code_review.Value.{Value, str, array}
use skill_code_review.Result.{ok}
use skill_code_review.Planner.{WorkUnit}
use skill_code_review.Runner.{
  with_files, value_or_list, Run, reward, split_unit, Dispatched, failed_unit, completed_unit,
  extension, findings_value, set_default,
}

pub split_unit-few : (u : WorkUnit) → length u.files ≤ 1 → split_unit u ≡ none
unfolding split_unit
split_unit-few u h = rw (le→leb (length u.files) 1 h) refl

-- A unit with two files or more is cut into two for the same leaf, whose files are those of the
-- unit in the same order; each has at least one file, and fewer than the unit.
pub split_unit-files :
    (u : WorkUnit)
    → 2 ≤ length u.files
    → (a b : WorkUnit) × (split_unit u ≡ some (a, b))
      × (a.files ++ b.files ≡ u.files)
      × (a.leaf_id ≡ u.leaf_id)
      × (b.leaf_id ≡ u.leaf_id)
      × (1 ≤ length a.files)
      × (length a.files < length u.files)
      × (1 ≤ length b.files)
      × (length b.files < length u.files)
unfolding split_unit
split_unit-files u h =
    let many : leb (length u.files) 1 ≡ false = ground (arith, h) in
    let mid = length u.files / 2 in
    (
      with_files u (take mid u.files),
      with_files u (drop mid u.files),
      rw many refl,
      take-append-drop mid u.files,
      refl,
      refl,
      omega (arith, length-take mid u.files, h),
      omega (arith, length-take mid u.files, h),
      omega (arith, length-drop mid u.files, h),
      omega (arith, length-drop mid u.files, h),
    )

-- The findings of a result can be taken up in a merged result.
abbrev pub HasFindings : Dict Value → Type 0
HasFindings out = (fs : List Value) × (extension (findings_value out) ≡ ok fs)

-- A dispatch from the state `r` returns: it neither raises nor nests too deep, and as many workers
-- are in flight behind it as before.
abbrev pub Returns : Dispatched → Run → Type 0
Returns d r =
    (out : Dict Value) × (s : Run) × (d ≡ ok (out, s))
    × (s.limiter.inflight ≡ r.limiter.inflight)
    × HasFindings out

pub failed_unit-Returns :
    (u : WorkUnit) (reason : String) (r q : Run)
    → r.limiter.inflight ≡ q.limiter.inflight
    → Returns (failed_unit u reason r) q
unfolding failed_unit extension lookup
failed_unit-Returns u reason r q h = (_, _, refl, h, ([], refl))

lookup-set_default :
    (k j : String) (v : Value) (d : Dict Value)
    → str_eq k j ≡ false
    → lookup j (set_default k v d) ≡ lookup j d
lookup-set_default k j v d h = elim (Option-cases (lookup k d)) [
  | inl absent ↦ rw (absent, lookup-insert k j v d, h) refl
  | inr (w, present) ↦ rw present refl
]

HasFindings-set_default :
    (k : String) (v : Value) (d : Dict Value)
    → str_eq k "findings" ≡ false
    → HasFindings d
    → HasFindings (set_default k v d)
HasFindings-set_default k v d h (fs, e) =
    (fs, ap (λ o. extension (value_or_list o)) (lookup-set_default k "findings" v d h) ∙ e)

HasFindings-set_findings :
    (d : Dict Value) → HasFindings d → HasFindings (set_default "findings" (array []) d)
unfolding extension
HasFindings-set_findings d (fs, e) = elim (Option-cases (lookup "findings" d)) [
  | inl absent ↦
      rw absent (
        [],
        ap (λ o. extension (value_or_list o)) (lookup-insert "findings" "findings" (array []) d),
      )
  | inr (w, present) ↦ rw present (fs, e)
]

pub completed_unit-Returns :
    (u : WorkUnit) (out : Dict Value) (r q : Run)
    → HasFindings out
    → r.limiter.inflight ≡ q.limiter.inflight
    → Returns (completed_unit u out r) q
unfolding completed_unit reward
completed_unit-Returns u out r q f h = (
  _,
  _,
  refl,
  h,
  HasFindings-set_findings _ (
      HasFindings-set_default "status" (str "completed") _ refl
        (HasFindings-set_default "id" (str u.leaf_id) out refl f)),
)
