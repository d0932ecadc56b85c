-- ===== src/Findings/Gate.antt =====
-- code_review/handlers.py `handle_collect_findings`: the selectivity gate behind the merge, which
-- marks the primary findings, and the counts.
use skill_code_review.Base.{
  ℕ, String, Bool, false, ◌&&◌, ◌||◌, none, some, List, leb, str_eq, pos, Dict, lookup, length,
  tally, map,
}
use skill_code_review.Value.{Value, Float, ratio}
use skill_code_review.Result.{Result, ok, raise, type_error, value_error, Parsers, to_float}
use skill_code_review.Findings.Shape.{Finding, Issue, float_lt, float_eq}

-- An entry of the output: `corroboration` and `primary` are added.
pub record Gated : Type 0 where
  pub issue : Issue
  pub corroboration : ℕ
  pub primary : Bool

pub record Collected : Type 0 where
  pub findings : List Gated
  pub critical : ℕ
  pub important : ℕ
  pub minor : ℕ
  pub primary_count : ℕ

-- `0.75`
abbrev pub default_threshold : Float
default_threshold = ratio (pos 3) 3

unfoldable pub or_default : Result Float → Result Float
or_default (ok t) = ok t
or_default (raise type_error) = ok default_threshold
or_default (raise value_error) = ok default_threshold
or_default (raise exc) = raise exc

-- `prim_t`; only a `TypeError` or a `ValueError` of `float` gives the default.
unfoldable pub primary_threshold : Parsers → Dict Value → Result Float
unfolding or_default
primary_threshold p args = elim (lookup "primary-threshold" args) [
  | none ↦ ok default_threshold
  | some v ↦ or_default (to_float p v)
]

abbrev pub has_severity : String → Finding → Bool
has_severity s f = elim f.severity [ none ↦ false | some t ↦ str_eq t s ]

-- `primary`: by the confidence where there is one, else by the severity and the corroboration.
unfoldable pub is_primary : Float → Issue → Bool
unfolding float_lt float_eq
is_primary prim_t i = elim i.finding.confidence [
  | some c ↦ float_lt prim_t c || float_eq prim_t c
  | none ↦
      has_severity "critical" i.finding
      || (has_severity "important" i.finding && leb 2 (length i.flagged_by))
]

unfoldable pub gate_issue : Float → Issue → Gated
unfolding is_primary
gate_issue prim_t i = record {
  issue = i;
  corroboration = length i.flagged_by;
  primary = is_primary prim_t i;
}

unfoldable pub gate_findings : Float → List Issue → Collected
unfolding gate_issue
gate_findings prim_t issues = record {
  findings = map (gate_issue prim_t) issues;
  critical = tally (λ i. has_severity "critical" i.finding) issues;
  important = tally (λ i. has_severity "important" i.finding) issues;
  minor = tally (λ i. has_severity "minor" i.finding) issues;
  primary_count = tally (is_primary prim_t) issues;
}
