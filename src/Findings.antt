-- ===== src/Findings.antt =====
-- code_review/handlers.py, handler 3: `handle_collect_findings`. The findings of the completed
-- specialists are deduplicated by file, line and title, sorted, merged where they are near
-- duplicates, and marked as primary.
pub mod Shape
pub mod Dedupe
pub mod Cluster
pub mod Gate
pub mod Roots
pub mod Standing
pub mod Grouping
pub mod Colons
pub mod Reporting
pub mod Kept
use skill_code_review.Base.{String, List, [], ◌∷◌, sort, Dict, length, tally, values, ℕ, Bool}
use skill_code_review.Value.{Value}
use skill_code_review.Result.{Result, ok, Parsers, ◌>>=◌}
use skill_code_review.Characters.{Characters}
use Shape.{Finding, Specialist, Issue}
use Dedupe.{collect_specialists, issue_leb}
use Cluster.{Embedder, semantic_merge}
use Gate.{Collected, gate_findings, primary_threshold}

module _ (ch : Characters) (p : Parsers) (embed : Embedder) where
  -- The issues as they stand before the gate: deduplicated, sorted, merged and sorted again.
  unfoldable pub merged_issues : (Value → String) → List Specialist → List Issue
  unfolding collect_specialists semantic_merge
  merged_issues show specialists = sort (issue_leb ch) (
      semantic_merge ch embed
        (sort (issue_leb ch) (values (collect_specialists ch show specialists []))))

  -- `handle_collect_findings`
  unfoldable pub collect_findings :
      (Value → String) → List Specialist → Dict Value → Result Collected
  unfolding merged_issues gate_findings primary_threshold
  collect_findings show specialists args = do
    prim_t ← primary_threshold p args
    ok (gate_findings prim_t (merged_issues show specialists))
