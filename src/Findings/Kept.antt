-- ===== src/Findings/Kept.antt =====
-- code_review/handlers.py `handle_collect_findings`: no finding of a completed specialist is lost.
use skill_code_review.Base.{
  String, List, [], ◌∷◌, ◌≡◌, refl, ap, inl, inr, Some, Some-map, Some-sort, Dict, values, sort,
  map,
}
use skill_code_review.Value.{Value, Float}
use skill_code_review.Result.{ok, Parsers}
use skill_code_review.Characters.{Characters}
use skill_code_review.Findings.Shape.{Finding, Specialist, Issue}
use skill_code_review.Findings.Dedupe.{collect_specialists, issue_leb}
use skill_code_review.Findings.Cluster.{Embedder, semantic_merge}
use skill_code_review.Findings.Gate.{Collected, gate_findings, gate_issue, primary_threshold}
use skill_code_review.Findings.Standing.{Stands}
use skill_code_review.Findings.Grouping.{semantic_merge-Stands}
use skill_code_review.Findings.{merged_issues, collect_findings}
use skill_code_review.Findings.Reporting.{
  Reports, Reports-Stands, All-imp, AllReported, ArePlain, collect_specialists-All,
}

issues_of-gated :
    (t : Float) (issues : List Issue) → map (λ g. g.issue) (map (gate_issue t) issues) ≡ issues
unfolding gate_issue
issues_of-gated t [] = refl
issues_of-gated t (i ∷ issues) = ap (λ r. i ∷ r) (issues_of-gated t issues)

Some-member :
    (P : Issue → Type 0) (xs : List Issue) → Some P xs → (x : Issue) × Some (λ j. j ≡ x) xs × P x
Some-member P [] h = absurd h
Some-member P (x ∷ xs) (inl h) = (x, inl refl, h)
Some-member P (x ∷ xs) (inr h) = let (y, found, p) = Some-member P xs h in (y, inr found, p)

module _ (ch : Characters) (p : Parsers) (embed : Embedder) (show : Value → String) where
  merged-Reports :
      (issues : List Issue) (id : String) (f : Finding)
      → Some (Reports id f) issues
      → Some
          (Reports id f)
          (sort (issue_leb ch) (semantic_merge ch embed (sort (issue_leb ch) issues)))
  merged-Reports issues id f h =
      let (i, found, r) =
        Some-member (Reports id f) (sort (issue_leb ch) issues)
          (Some-sort (issue_leb ch) (Reports id f) issues h) in
      let merged = semantic_merge ch embed (sort (issue_leb ch) issues) in
      Some-sort (issue_leb ch) (Reports id f) merged (
        Some-map (Stands i) (Reports id f) merged (λ g s. Reports-Stands id f i g s r)
          (semantic_merge-Stands ch embed (sort (issue_leb ch) issues) i found))

  AllReported-imp :
      (xs ys : List Issue) (specialists : List Specialist)
      → ((id : String) (f : Finding) → Some (Reports id f) xs → Some (Reports id f) ys)
      → AllReported ch show specialists xs
      → AllReported ch show specialists ys
  AllReported-imp xs ys [] h r = tt
  AllReported-imp xs ys (s ∷ specialists) h r = (
    λ completed.
        All-imp (λ f. Some (Reports s.id f) xs) (λ f. Some (Reports s.id f) ys) s.findings (h s.id)
          (r.0 completed),
    AllReported-imp xs ys specialists h r.1,
  )

  -- The handler returns whenever the threshold can be read, and then every finding of a completed
  -- specialist is reported: by an entry for the same file, no less severe, that names the specialist
  -- in `flagged_by`. This is for files without a colon, and whatever the embedder says.
  pub collect_findings-reported :
      (specialists : List Specialist) (args : Dict Value) {t : Float}
      → ArePlain ch show specialists
      → primary_threshold p args ≡ ok t
      → (c : Collected) × (collect_findings ch p embed show specialists args ≡ ok c)
        × AllReported ch show specialists (map (λ g. g.issue) c.findings)
  unfolding collect_findings merged_issues
  collect_findings-reported specialists args {t} plain threshold =
      let collected = values (collect_specialists ch show specialists []) in
      let merged = sort (issue_leb ch) (semantic_merge ch embed (sort (issue_leb ch) collected)) in
      (
        gate_findings t merged,
        rw threshold refl,
        rw (issues_of-gated t merged) (
            AllReported-imp collected merged specialists (merged-Reports collected)
              (collect_specialists-All ch show specialists [] plain tt).1),
      )
