-- ===== src/Findings/Shape.antt =====
-- code_review/handlers.py: the findings that `handle_collect_findings` reads and writes. A finding is
-- read as a record: its file, title and description are texts, its line an integer and its
-- confidence a number, or they are absent, which is what dispatch.py leaves of a specialist's output
-- that keeps to the prompt. A finding carries no `__winner` or `__origin` of its own.
use skill_code_review.Base.{
  ℕ, suc, ◌+◌, ◌*◌, String, Bool, true, false, ◌&&◌, not, Option, none, some, List, ltb, ◌==◌, ℤ,
  pos, pos_part, neg_part, Dict,
}
use skill_code_review.Value.{Value, Float, nan, infinity, ratio}
use skill_code_review.Glob.{codes}
use skill_code_review.Merger.Trim.{rank_of}

pub record Finding : Type 0 where
  pub severity : Option String
  -- `finding.get("file") or ""`
  pub file : String
  pub line : Option ℤ
  pub title : Option String
  pub description : Option String
  pub confidence : Option Float
  -- The other entries, which are passed on.
  pub rest : Dict Value

-- An element of `specialist_outputs`: `completed` is `status == "completed"`.
pub record Specialist : Type 0 where
  pub id : String
  pub completed : Bool
  pub findings : List Finding

-- An entry of `findings`: `count` is `merged_count`, where it has been written.
pub record Issue : Type 0 where
  pub finding : Finding
  pub flagged_by : List String
  pub winner : String
  pub count : Option ℕ

-- `_SEVERITY_RANK.get(f.get("severity", ""), 0)`
abbrev pub rank_at : Option String → ℕ
rank_at none = 0
rank_at (some s) = rank_of (codes s)

unfoldable pub rank : Finding → ℕ
unfolding rank_of
rank f = rank_at f.severity

abbrev pub text_or : Option String → String
text_or none = ""
text_or (some s) = s

-- `a < b` on floats.
unfoldable pub float_lt : Float → Float → Bool
float_lt nan b = false
float_lt a nan = false
float_lt (infinity s) (infinity t) = not s && t
float_lt (infinity s) (ratio n d) = not s
float_lt (ratio n d) (infinity t) = t
float_lt (ratio m d) (ratio n e) =
    ltb (pos_part m * suc e + neg_part n * suc d) (pos_part n * suc d + neg_part m * suc e)

-- `a == b` on floats.
unfoldable pub float_eq : Float → Float → Bool
float_eq (infinity true) (infinity true) = true
float_eq (infinity false) (infinity false) = true
float_eq (ratio m d) (ratio n e) =
    (pos_part m * suc e + neg_part n * suc d) == (pos_part n * suc d + neg_part m * suc e)
float_eq a b = false

abbrev pub zero_float : Float
zero_float = ratio (pos 0) 0

-- `float(f.get("confidence") or 0.0)`
abbrev pub conf_or_zero : Option Float → Float
conf_or_zero none = zero_float
conf_or_zero (some c) = c
