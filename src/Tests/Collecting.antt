-- ===== src/Tests/Collecting.antt =====
-- Examples for the collection of the findings.
use skill_code_review.Findings.Dedupe.{finding_leb}
use skill_code_review.Base.{
  contains, add, update, sorted, sort_insert, insert, values, sort, lookup, String, Bool, true,
  Option, none, some, List, [], ◌∷◌, ◌≡◌, refl, pos, map,
}
use skill_code_review.Result.{Result, ok, raise}
use skill_code_review.Findings.{collect_findings}
use skill_code_review.Findings.Shape.{rank, Finding, Specialist}
use skill_code_review.Findings.Cluster.{better_of, Embedder}
use skill_code_review.Findings.Gate.{Collected, primary_threshold, default_threshold}
use skill_code_review.Findings.Kept.{collect_findings-reported}
use skill_code_review.Findings.Reporting.{AllReported}
use skill_code_review.Findings.Colons.{has_colon}
use skill_code_review.Tests.Activating.{ascii, numbers_only, show}

abbrev finding : String → Option String → Finding
finding title severity = record {
  severity = severity;
  file = "a.py";
  line = some (pos 3);
  title = some title;
  description = none;
  confidence = none;
  rest = [];
}

abbrev specialist : String → Finding → Specialist
specialist id f = record { id = id; completed = true; findings = f ∷ [] }

-- The same line by two specialists, in other words and of another severity.
abbrev two_specialists : List Specialist
two_specialists =
    specialist "lang-python" (finding "no check" (some "minor"))
    ∷ specialist "sec-input" (finding "unchecked input" (some "critical"))
    ∷ []

abbrev no_embedder : Embedder
no_embedder texts = none

collect_findings-reported_example :
    (c : Collected) × (collect_findings ascii numbers_only no_embedder show two_specialists []
      ≡ ok c)
    × AllReported ascii show two_specialists (map (λ g. g.issue) c.findings)
unfolding has_colon primary_threshold lookup
collect_findings-reported_example =
    collect_findings-reported ascii numbers_only no_embedder show two_specialists []
      {t = default_threshold} ((refl, tt), ((refl, tt), tt)) refl

abbrev flagged_of : Result Collected → List (List String × Bool)
flagged_of (ok c) = map (λ g. (g.issue.flagged_by, g.primary)) c.findings
flagged_of (raise exc) = []

-- The two are merged to the critical one, which both have flagged.
collect_two :
    flagged_of (collect_findings ascii numbers_only no_embedder show two_specialists [])
    ≡ (("lang-python" ∷ "sec-input" ∷ [], true) ∷ [])
unfolding collect_findings lookup sort values insert sort_insert finding_leb rank sorted better_of
    update add contains
collect_two = refl
