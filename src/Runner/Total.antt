-- ===== src/Runner/Total.antt =====
-- code_review/runner.py `_dispatch_one`: it always returns a result, and what a split reports.
use skill_code_review.Base.{
  ℕ, zero, suc, ◌≤◌, ◌<◌, none, some, List, [], ◌∷◌, ◌≡◌, refl, sym, ap, ◌∙◌, length, Dict, lookup,
  lookup-update_dict,
}
use skill_code_review.Value.{Value, str}
use skill_code_review.Result.{ok, >>=-eq-ok, ok-injective}
use skill_code_review.Planner.{WorkUnit}
use skill_code_review.Runner.{
  Outcome, overflow, output, Run, split_unit, called, Dispatched, extension, findings_value,
  both_halves, overflow_branch, follow, attempts, dispatch_one, with_stats, bump_overflow,
}
use skill_code_review.Runner.Dispatch.{HasFindings, Returns, split_unit-files}

module _ (dispatch : ℕ → WorkUnit → Outcome) (stamp : List (Dict Value) → Dict Value)
    (max_retries : ℕ)
    (has_findings : (n : ℕ) (u : WorkUnit) (out : Dict Value)
      → dispatch n u ≡ output out
      → HasFindings out)
    (no_findings : (rs : List (Dict Value)) → lookup "findings" (stamp rs) ≡ none) where
  -- A unit with fewer than `n` files, but at least one, is dispatched by `d`.
  abbrev Smaller : ℕ → (WorkUnit → Run → Dispatched) → Type 0
  Smaller n d =
      (u : WorkUnit) (r : Run) → 1 ≤ length u.files → length u.files < n → Returns (d u r) r

module _ (dispatch : ℕ → WorkUnit → Outcome) (stamp : List (Dict Value) → Dict Value)
    (max_retries : ℕ) where
  attempts-overflow :
      (d : WorkUnit → Run → Dispatched) (left attempt : ℕ) (u : WorkUnit) (r : Run)
      → dispatch r.calls u ≡ overflow
      → attempts dispatch stamp max_retries d left attempt u r
        ≡ overflow_branch dispatch stamp max_retries d u (split_unit u) (called r)
  unfolding attempts follow
  attempts-overflow d zero attempt u r e = rw e refl
  attempts-overflow d (suc left) attempt u r e = rw e refl

  -- If the first call for a unit with two files or more overflows, and the cost stamp sets no status,
  -- then the result that stands for the unit has the status `completed` whenever the dispatch
  -- returns, whatever becomes of the two halves.
  pub dispatch_one-overflow :
      (depth : ℕ) (u : WorkUnit) (r s : Run) (out : Dict Value)
      → ((rs : List (Dict Value)) → lookup "status" (stamp rs) ≡ none)
      → dispatch r.calls u ≡ overflow
      → 2 ≤ length u.files
      → dispatch_one dispatch stamp max_retries depth u r ≡ ok (out, s)
      → lookup "status" out ≡ some (str "completed")
  unfolding dispatch_one overflow_branch both_halves lookup
  dispatch_one-overflow zero u r s out free e h q = cc
  dispatch_one-overflow (suc depth) u r s out free e h q =
      let d : WorkUnit → Run → Dispatched =
        λ v t. dispatch_one dispatch stamp max_retries depth v t in
      let (a, b, split, joined, ia, ib, pa, la, pb, lb) = split_unit-files u h in
      let t = with_stats (called r) (bump_overflow (called r).stats) in
      let both : both_halves dispatch stamp max_retries d u a b t ≡ ok (out, s) =
        sym (attempts-overflow d max_retries 0 u r e ∙ rw split refl) ∙ q in
      let (x, got_x, e1) = >>=-eq-ok (d a t) _ both in
      let (fs, got_fs, e2) = >>=-eq-ok (extension (findings_value x.0)) _ e1 in
      let (y, got_y, e3) = >>=-eq-ok (d b x.1) _ e2 in
      let (gs, got_gs, e4) = >>=-eq-ok (extension (findings_value y.0)) _ e3 in
      ap (λ z. lookup "status" z.0) (sym (ok-injective e4))
      ∙ lookup-update_dict "status" (stamp (x.0 ∷ y.0 ∷ [])) _ (free (x.0 ∷ y.0 ∷ []))
