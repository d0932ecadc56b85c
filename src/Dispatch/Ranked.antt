-- ===== src/Dispatch/Ranked.antt =====
-- code_review/dispatch.py `_apply_rank_decisions`: no finding is lost but those that the ranker drops.
use skill_code_review.Base.{
  ℕ, suc, ◌+◌, ◌≤◌, String, false, List, [], ◌∷◌, ◌≡◌, refl, ◌∙◌, arith, Bool-cases, inl, inr,
  str_eq, if◌then◌else◌, Dict, lookup, insert, lookup-insert, length,
}
use skill_code_review.Value.{Value, Float, float, get, truthy}
use skill_code_review.Result.{ok, Parsers}
use skill_code_review.Dispatch.Ranking.{
  Decisions, decision_for, read_decisions, rank_threshold, Counts, RankedFindings, count_severity,
  confidence_of, ranked_finding, add_ranked, rank_from, apply_rank_decisions, severity_text,
}

-- The findings that no decision drops, in order.
abbrev pub kept_from : Decisions → ℕ → List (Dict Value) → List (Dict Value)
kept_from by_i idx [] = []
kept_from by_i idx (f ∷ findings) =
    if truthy (get (decision_for idx by_i) "drop")
    then kept_from by_i (suc idx) findings
    else f ∷ kept_from by_i (suc idx) findings

-- A finding as it was, but for the two entries of the ranking.
abbrev pub SameFinding : Dict Value → Dict Value → Type 0
SameFinding f nf =
    (k : String)
    → str_eq "primary" k ≡ false
    → str_eq "defect_confidence" k ≡ false
    → lookup k nf ≡ lookup k f

abbrev pub Pairwise : List (Dict Value) → List (Dict Value) → Type 0
Pairwise [] [] = Unit
Pairwise [] (g ∷ gs) = ⊥
Pairwise (f ∷ fs) [] = ⊥
Pairwise (f ∷ fs) (g ∷ gs) = SameFinding f g × Pairwise fs gs

abbrev pub total : Counts → ℕ
total c = c.critical + c.important + c.minor

total-count_severity : (sev : String) (c : Counts) → total (count_severity sev c) ≤ total c + 1
total-count_severity sev c = ground arith

module _ (p : Parsers) (show : Value → String) (lower : String → String) where
  ranked_finding-SameFinding :
      (f d : Dict Value) (conf thr : Float)
      → SameFinding f (ranked_finding p show lower f d conf thr)
  ranked_finding-SameFinding f d conf thr k not_primary not_conf =
      lookup-insert "primary" k _ (insert "defect_confidence" (float conf) f)
      ∙ (rw not_primary (lookup-insert "defect_confidence" k (float conf) f ∙ rw not_conf refl))

  -- Every confidence that a decision gives can be read as a float.
  abbrev pub AreReadable : Decisions → Type 0
  AreReadable by_i =
      (idx : ℕ) (f : Dict Value)
      → (conf : Float) × (confidence_of p show lower
            (get (decision_for idx by_i) "defect_confidence") f
          ≡ ok conf)

  rank_from-kept :
      (thr : Float) (by_i : Decisions) (idx : ℕ) (findings : List (Dict Value))
      → AreReadable by_i
      → (r : RankedFindings) × (rank_from p show lower thr by_i idx findings ≡ ok r)
        × Pairwise (kept_from by_i idx findings) r.findings
        × (total r.counts ≤ length r.findings)
  unfolding rank_from
  rank_from-kept thr by_i idx [] readable = (
    record { findings = []; counts = record { critical = 0; important = 0; minor = 0 } },
    refl,
    tt,
    omega arith,
  )
  rank_from-kept thr by_i idx (f ∷ findings) readable =
      let d = decision_for idx by_i in
      let (rest, ranked, pairs, counted) = rank_from-kept thr by_i (suc idx) findings readable in
      elim (Bool-cases (truthy (get d "drop"))) [
        | inl dropped ↦ (rest, rw dropped ranked, rw dropped pairs, counted)
        | inr kept ↦
            let (conf, read) = readable idx f in
            let nf = ranked_finding p show lower f d conf thr in
            (
              add_ranked p show lower nf rest,
              rw (kept, read, ranked) refl,
              rw kept (ranked_finding-SameFinding f d conf thr, pairs),
              omega (
                arith,
                counted,
                total-count_severity (severity_text p show lower nf) rest.counts,
              ),
            )
      ]

  -- If the threshold and the confidences can be read, the ranking returns, and its findings are just
  -- those that no decision drops, in their order, each with all its entries but `defect_confidence` and
  -- `primary`; so a finding that the ranker leaves out is kept. The severity counts come to no more
  -- than the findings.
  pub apply_rank_decisions-kept :
      (findings : List (Dict Value)) (decisions : Value) (args : Dict Value) {thr : Float}
      → rank_threshold p args ≡ ok thr
      → AreReadable (read_decisions decisions)
      → (r : RankedFindings) × (apply_rank_decisions p show lower findings decisions args ≡ ok r)
        × Pairwise (kept_from (read_decisions decisions) 0 findings) r.findings
        × (total r.counts ≤ length r.findings)
  unfolding apply_rank_decisions
  apply_rank_decisions-kept findings decisions args {thr} threshold readable =
      let (r, returns, pairs, counted) =
        rank_from-kept thr (read_decisions decisions) 0 findings readable in
      (r, rw threshold returns, pairs, counted)
