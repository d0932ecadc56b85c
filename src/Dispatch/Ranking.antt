-- ===== src/Dispatch/Ranking.antt =====
-- code_review/dispatch.py `_apply_rank_decisions` with `_default_conf`: the ranker's decisions are
-- put onto the findings by their index.
use skill_code_review.Base.{
  ℕ, suc, ◌+◌, String, Bool, ◌||◌, Option, none, some, List, [], ◌∷◌, str_eq, if◌then◌else◌, ℤ, pos,
  eq_ℤ, Dict, lookup, insert,
}
use skill_code_review.Value.{
  value_or, Value, Float, ratio, bool, int, float, str, list, get, as_int, as_dict, elements,
  truthy,
}
use skill_code_review.Result.{Result, ok, Parsers, to_float, ◌>>=◌}
use skill_code_review.Findings.Shape.{float_lt, float_eq}
use skill_code_review.Findings.Gate.{default_threshold, or_default}

-- `by_i`: a later decision for an index stands in front of an earlier one.
abbrev pub Decisions : Type 0
Decisions = List (ℤ × Dict Value)

abbrev pub decision_at : Option (Dict Value) → Option ℤ → Decisions → Decisions
decision_at (some d) (some i) by_i = (i, d) ∷ by_i
decision_at d i by_i = by_i

abbrev pub index_of : Option (Dict Value) → Option ℤ
index_of none = none
index_of (some d) = as_int (get d "i")

unfoldable pub decisions_from : List Value → Decisions → Decisions
decisions_from [] by_i = by_i
decisions_from (v ∷ vs) by_i =
    decisions_from vs (decision_at (as_dict v) (index_of (as_dict v)) by_i)

unfoldable pub read_decisions : Value → Decisions
unfolding decisions_from
read_decisions (list vs) = decisions_from (elements vs) []
read_decisions _ = []

-- `by_i.get(idx, {})`
unfoldable pub decision_for : ℕ → Decisions → Dict Value
decision_for idx [] = []
decision_for idx ((i, d) ∷ by_i) = if eq_ℤ i (pos idx) then d else decision_for idx by_i

-- `args.get("primary-threshold") or 0.75`
unfoldable pub rank_threshold : Parsers → Dict Value → Result Float
unfolding truthy or_default
rank_threshold p args =
    if truthy (get args "primary-threshold")
    then or_default (to_float p (get args "primary-threshold"))
    else ok default_threshold

-- What `_SEV_DEFAULT_CONF` has for a severity in lower case; `0.5` for the others.
abbrev pub conf_of : String → Float
conf_of sev =
    if str_eq sev "critical"
    then ratio (pos 9) 9
    else if str_eq sev "important"
    then ratio (pos 7) 9
    else if str_eq sev "minor"
    then ratio (pos 1) 3
    else ratio (pos 1) 1

abbrev pub float_geq : Float → Float → Bool
float_geq a b = float_lt b a || float_eq b a

-- `severity_counts`
pub record Counts : Type 0 where
  pub critical : ℕ
  pub important : ℕ
  pub minor : ℕ

abbrev pub count_severity : String → Counts → Counts
count_severity sev c =
    if str_eq sev "critical"
    then record c { critical = c.critical + 1 }
    else if str_eq sev "important"
    then record c { important = c.important + 1 }
    else if str_eq sev "minor"
    then record c { minor = c.minor + 1 }
    else c

pub record RankedFindings : Type 0 where
  pub findings : List (Dict Value)
  pub counts : Counts

abbrev pub primary_of : Value → Float → Float → Bool
primary_of (bool b) conf thr = b
primary_of _ conf thr = float_geq conf thr

-- `show` is `str`, `lower` is `str.lower`.
module _ (p : Parsers) (show : Value → String) (lower : String → String) where
  -- `str(f.get("severity", "")).lower()`
  abbrev pub severity_text : Dict Value → String
  severity_text f = lower (show (value_or (str "") (lookup "severity" f)))

  -- `float(conf) if isinstance(conf, (int, float)) else _default_conf(f)`
  unfoldable pub confidence_of : Value → Dict Value → Result Float
  confidence_of (int n) f = to_float p (int n)
  confidence_of (bool b) f = to_float p (bool b)
  confidence_of (float x) f = ok x
  confidence_of _ f = ok (conf_of (severity_text f))

  -- `nf`
  abbrev pub ranked_finding : Dict Value → Dict Value → Float → Float → Dict Value
  ranked_finding f d conf thr =
      insert "primary" (bool (primary_of (get d "primary") conf thr))
        (insert "defect_confidence" (float conf) f)

  abbrev pub add_ranked : Dict Value → RankedFindings → RankedFindings
  add_ranked nf r = record {
    findings = nf ∷ r.findings;
    counts = count_severity (severity_text nf) r.counts;
  }

  -- The loop over the findings from the index `idx` on.
  unfoldable pub rank_from : Float → Decisions → ℕ → List (Dict Value) → Result RankedFindings
  unfolding confidence_of
  rank_from thr by_i idx [] =
      ok (record { findings = []; counts = record { critical = 0; important = 0; minor = 0 } })
  rank_from thr by_i idx (f ∷ findings) =
      let d = decision_for idx by_i in
      let rest = rank_from thr by_i (suc idx) findings in
      let ranked =
        confidence_of (get d "defect_confidence") f
        >>= (λ conf. rest >>= (λ r. ok (add_ranked (ranked_finding f d conf thr) r))) in
      if truthy (get d "drop") then rest else ranked

  -- `_apply_rank_decisions`
  unfoldable pub apply_rank_decisions :
      List (Dict Value) → Value → Dict Value → Result RankedFindings
  unfolding rank_threshold read_decisions rank_from
  apply_rank_decisions findings decisions args = do
    thr ← rank_threshold p args
    rank_from thr (read_decisions decisions) 0 findings
