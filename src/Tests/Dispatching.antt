-- ===== src/Tests/Dispatching.antt =====
-- Examples for the early exits, the verifier panel and the dispatchers.
use skill_code_review.Base.{
  ℕ, zero, suc, ◌≤◌, String, true, false, Option, none, some, List, [], ◌∷◌, ◌≡◌, refl, arith, Dict,
  lookup, contains, str_eq, if◌then◌else◌, length, tally, Distinct, take, pos, keys,
}
use skill_code_review.Value.{
  Value, null, str, int, bool, array, object, get, ensure_list, truthy, item, nil,
}
use skill_code_review.Result.{ok}
use skill_code_review.Coverage.{Wiki, Coverage, verify_coverage}
use skill_code_review.Exits.{stage_a_empty}
use skill_code_review.Exits.Agreement.{stage_a_empty-gaps}
use skill_code_review.Panel.{Answer, answered, raised, llm_verifier_handler}
use skill_code_review.Panel.Closed.{has_passed, approvals_of, llm_verifier_handler-votes}
use skill_code_review.Dispatch.Leaves.{rehydrate}
use skill_code_review.Dispatch.Rehydration.{echoed, rehydrate-compact_leaf, rehydrate-covers}
use skill_code_review.Dispatch.Ranking.{
  RankedFindings, rank_threshold, read_decisions, apply_rank_decisions, decision_for, confidence_of,
  severity_text, conf_of,
}
use skill_code_review.Dispatch.Ranked.{
  Pairwise, kept_from, total, AreReadable, apply_rank_decisions-kept,
}
use skill_code_review.Findings.Gate.{default_threshold}
use skill_code_review.Tests.Activating.{numbers_only, show}
use skill_code_review.Base.{◌==◌}
use skill_code_review.Value.{Fields, end, field, dict}
use skill_code_review.Characters.{Characters}
use skill_code_review.Value.{Float, nan}
use skill_code_review.Cost.{Tokens, CostFields, estimated}

abbrev one_file : Dict Value
one_file = ("changed_paths", array (str "b.py" ∷ str "a.py" ∷ str "b.py" ∷ [])) ∷ []

abbrev no_wiki : Wiki
no_wiki = record { frontmatter = λ path. none }

stage_a_empty-gaps_example :
    (c : Coverage) × (verify_coverage no_wiki one_file ≡ ok c)
    × ((k : String)
        → contains k (stage_a_empty one_file).0.coverage_gaps ≡ contains k c.coverage_gaps)
unfolding get lookup ensure_list
stage_a_empty-gaps_example = stage_a_empty-gaps no_wiki one_file refl refl refl

abbrev loads : String → Option Value
loads s = if str_eq s "yes" then some (object (("verdict", str "passed") ∷ [])) else none

-- One slot answers, the next raises.
abbrev dispatcher : ℕ → Answer
dispatcher zero = answered "yes"
dispatcher (suc n) = raised "TimeoutError"

llm_verifier_handler-votes_example :
    (length (llm_verifier_handler loads show (some dispatcher) 3) ≡ 3)
    × (tally has_passed (llm_verifier_handler loads show (some dispatcher) 3)
        ≡ approvals_of loads show (some dispatcher) 3)
llm_verifier_handler-votes_example = llm_verifier_handler-votes loads show (some dispatcher) 3

abbrev four_covers : List Value
four_covers = str "a" ∷ str "b" ∷ str "c" ∷ str "d" ∷ []

abbrev heavy_leaf : Dict Value
heavy_leaf =
    ("id", str "lang-python")
    ∷ ("covers", array four_covers)
    ∷ ("audit_surface", array four_covers)
    ∷ []

abbrev heavy_index : Dict (Dict Value)
heavy_index = ("lang-python", heavy_leaf) ∷ []

heavy_leaf-Distinct : Distinct (keys heavy_leaf)
unfolding keys contains
heavy_leaf-Distinct = (refl, (refl, (refl, tt)))

rehydrate-compact_leaf_example :
    (out : Dict Value) × (rehydrate (echoed heavy_leaf heavy_index) heavy_index ≡ ok (out ∷ []))
    × ((k : String) → str_eq "covers" k ≡ false → lookup k out ≡ lookup k heavy_leaf)
unfolding lookup
rehydrate-compact_leaf_example =
    rehydrate-compact_leaf heavy_leaf heavy_index heavy_leaf-Distinct refl refl

rehydrate-covers_example :
    (out : Dict Value) × (rehydrate (echoed heavy_leaf heavy_index) heavy_index ≡ ok (out ∷ []))
    × (get out "covers" ≡ array (take 3 four_covers))
unfolding lookup get
rehydrate-covers_example =
    rehydrate-covers heavy_leaf heavy_index {v = str "a"}
      {vs = item (str "b") (item (str "c") (item (str "d") nil))} heavy_leaf-Distinct refl refl refl

abbrev two_findings : List (Dict Value)
two_findings = (("severity", str "minor") ∷ []) ∷ (("severity", str "critical") ∷ []) ∷ []

-- The first finding is dropped, the second left out.
abbrev decisions : Value
decisions = array (object (("i", int (pos 0)) ∷ ("drop", bool true) ∷ []) ∷ [])

abbrev same : String → String
same s = s

decisions-readable : AreReadable numbers_only show same (read_decisions decisions)
unfolding read_decisions decision_for confidence_of get lookup
decisions-readable zero f = (conf_of (severity_text numbers_only show same f), refl)
decisions-readable (suc idx) f = (conf_of (severity_text numbers_only show same f), ground arith)

apply_rank_decisions-kept_example :
    (r : RankedFindings) × (apply_rank_decisions numbers_only show same two_findings decisions []
      ≡ ok r)
    × Pairwise (kept_from (read_decisions decisions) 0 two_findings) r.findings
    × (total r.counts ≤ length r.findings)
unfolding rank_threshold get lookup truthy
apply_rank_decisions-kept_example =
    apply_rank_decisions-kept numbers_only show same two_findings decisions []
      {thr = default_threshold} refl decisions-readable

-- No character is a space.
abbrev plain : Characters
plain = record {
  is_space = λ c. false;
  is_alnum = λ c. true;
  same_letter = λ a b. a == b;
  lower = λ s. s;
}

abbrev answered_object : Fields
answered_object = field "id" null (field "status" (str "completed") end)

-- The parser knows one text.
abbrev load_braces : List ℕ → Option Value
load_braces [] = none
load_braces (c ∷ t) = some (dict answered_object)

abbrev free_of_charge : String → Tokens → Float
free_of_charge tier t = nan

-- The counts of a call without a usage.
abbrev counts : CostFields
counts = record { tokens = estimated "review" "ok: {x} done"; cost_usd = null }
