-- ===== src/Merger/Drained.antt =====
-- code_review/handlers.py `handle_merge_specialist_outputs`: which units are planned, which are
-- reported, and when the merge raises `DispatchLoopExitedEarlyError`.
use skill_code_review.Base.{
  ℕ, String, Bool, true, false, ◌&&◌, not, List, [], ◌∷◌, ◌≡◌, refl, sym, ap, ◌∙◌, arith, ℤ, pos,
  length, any, Dict, Bool-cases, inl, inr, leb_ℤ,
}
use skill_code_review.Value.{Value, get, as_int, ensure_list}
use skill_code_review.Result.{
  ok, raise, missed_file, dispatch_loop_exited_early, >>=-eq-ok, ok-injective,
}
use skill_code_review.Merger.{
  Key, has_key, dicts, planned_units, dedupe, missing_units, check_drained, check_files,
  int_or_zero, merge_units, nothing_merged, guard_size, merge_payloads, merge_specialist_outputs,
  batch_units, resolve_iteration_payloads, Merged,
}
use skill_code_review.Merger.Reported.{names_key, is_reported, has_key-missing_units}

abbrev pub planned_in : Key → List (Dict Value) → Bool
planned_in k units = any (names_key k) units

check_drained-nonempty :
    (k : Key) (missing : List Key)
    → has_key k missing ≡ true
    → check_drained missing ≡ raise (dispatch_loop_exited_early missing)
check_drained-nonempty k [] h = cc
check_drained-nonempty k (j ∷ missing) h = refl

-- If a planned unit has no output in any iteration, the merge raises
-- `DispatchLoopExitedEarlyError`, and names as missing the planned units without an output and no
-- others.
pub merge-missing :
    (size : Dict Value → ℕ) (env : Dict Value) (units : List (Dict Value)) (k : Key)
    → batch_units (dicts (ensure_list (get env "specialist_batches"))) ≡ ok units
    → let payloads = resolve_iteration_payloads env in
      planned_in k units ≡ true
      → is_reported k payloads ≡ false
      → (missing : List Key) × (merge_specialist_outputs size env
          ≡ raise (dispatch_loop_exited_early missing))
        × ((j : Key) → has_key j missing ≡ (planned_in j units && not (is_reported j payloads)))
unfolding merge_specialist_outputs merge_payloads
merge-missing size env units k e planned unreported =
    let payloads = resolve_iteration_payloads env in
    let missing = missing_units (planned_units [] units) (dedupe 1 payloads []) in
    let named : has_key k missing ≡ true =
      has_key-missing_units units payloads k ∙ rw (planned, unreported) refl in
    (
      missing,
      rw (e, check_drained-nonempty k missing named) refl,
      has_key-missing_units units payloads,
    )

check_drained-ok :
    (missing : List Key) (u : Unit {0}) (k : Key)
    → check_drained missing ≡ ok u
    → has_key k missing ≡ false
check_drained-ok [] u k h = refl
check_drained-ok (j ∷ missing) u k h = cc

reported :
    (k : Key) (units payloads : List (Dict Value))
    → planned_in k units ≡ true
    → has_key k (missing_units (planned_units [] units) (dedupe 1 payloads [])) ≡ false
    → is_reported k payloads ≡ true
reported k units payloads planned drained =
    let q = sym (has_key-missing_units units payloads k) ∙ drained in ground (arith, q, planned)

check_files-ok :
    (files : List String) (total : ℤ) (u : Unit {0})
    → check_files files total ≡ ok u
    → leb_ℤ total (pos (length files)) ≡ true
check_files-ok files total u h = elim (Bool-cases (leb_ℤ total (pos (length files)))) [
  | inl enough ↦ enough
  | inr few ↦ let q : raise (missed_file (length files) total) ≡ ok u = (rw few at h) in cc
]

-- What a merge that returns has been through.
pub merge_payloads-ok :
    (size : Dict Value → ℕ) (units : List (Dict Value)) (total : ℤ) (payloads : List (Dict Value))
    (m : Merged)
    → merge_payloads size units total payloads ≡ ok m
    → ((k : Key)
        → has_key k (missing_units (planned_units [] units) (dedupe 1 payloads [])) ≡ false)
      × (n : Merged) × (merge_units units (dedupe 1 payloads []) nothing_merged ≡ ok n)
      × (guard_size size n.specialist_outputs ≡ ok m.specialist_outputs)
      × (n.union_files ≡ m.union_files)
      × (n.pending_writes ≡ m.pending_writes)
      × (leb_ℤ total (pos (length m.union_files)) ≡ true)
unfolding merge_payloads
merge_payloads-ok size units total payloads m e =
    let missing = missing_units (planned_units [] units) (dedupe 1 payloads []) in
    let (u, drained, e2) = >>=-eq-ok (check_drained missing) _ e in
    let (n, merged, e3) =
      >>=-eq-ok (merge_units units (dedupe 1 payloads []) nothing_merged) _ e2 in
    let (outputs, guarded, e4) = >>=-eq-ok (guard_size size n.specialist_outputs) _ e3 in
    let (v, counted, e5) = >>=-eq-ok (check_files n.union_files total) _ e4 in
    let same = ok-injective e5 in
    (
      λ k. check_drained-ok missing u k drained,
      n,
      merged,
      guarded ∙ ap (λ r. ok (r.specialist_outputs)) same,
      ap (λ r. r.union_files) same,
      ap (λ r. r.pending_writes) same,
      ap (λ r. leb_ℤ total (pos (length r.union_files))) (sym same)
          ∙ check_files-ok n.union_files total v counted,
    )

-- After a merge that returns, every planned unit has an output in some iteration, and the merged
-- files are at least as many as the planner counted.
pub merge-all_reported :
    (size : Dict Value → ℕ) (env : Dict Value) (m : Merged) (units : List (Dict Value)) (k : Key)
    → merge_specialist_outputs size env ≡ ok m
    → batch_units (dicts (ensure_list (get env "specialist_batches"))) ≡ ok units
    → planned_in k units ≡ true
    → (is_reported k (resolve_iteration_payloads env) ≡ true)
      × (leb_ℤ (int_or_zero (as_int (get env "total_files_planned"))) (pos (length m.union_files))
          ≡ true)
unfolding merge_specialist_outputs
merge-all_reported size env m units k e got planned =
    let payloads = resolve_iteration_payloads env in
    let total = int_or_zero (as_int (get env "total_files_planned")) in
    let e1 : merge_payloads size units total payloads ≡ ok m = (rw got at e) in
    let (drained, n, merged, guarded, files, writes, counted) =
      merge_payloads-ok size units total payloads m e1 in
    (reported k units payloads planned (drained k), counted)
