-- ===== src/Exits.antt =====
-- code_review/handlers.py, handlers 8 and 9: `handle_short_circuit_exit` and `handle_stage_a_empty`,
-- which end a review early with what the later states would have written.
pub mod Agreement
use skill_code_review.Base.{ℕ, suc, String, Bool, true, List, [], ◌∷◌, map, Dict}
use skill_code_review.Value.{Value, get, ensure_list, strings}
use skill_code_review.Readiness.{Gate, Verdict, go, conditional, na, gate_names}
use skill_code_review.Coverage.{Row}

-- The outputs of both, but for the flag: `findings` is empty and the severity counts are zero.
pub record Exit : Type 0 where
  pub findings : List Value
  pub critical : ℕ
  pub important : ℕ
  pub minor : ℕ
  pub coverage_matrix : List Row
  pub coverage_gaps : List String
  pub gates : List Gate
  pub verdict : Verdict

pub data Flag : Type 0 where
  short_circuited degraded_run : Flag

-- `[{...} for i, name in enumerate(_GATE_NAMES)]`, from the number `n` on.
unfoldable pub gates_na : ℕ → List String → List Gate
gates_na n [] = []
gates_na n (name ∷ names) =
    record { number = n; name = name; status = na; contributing_leaves = []; blocker_count = 0 }
    ∷ gates_na (suc n) names

-- `handle_short_circuit_exit`
unfoldable pub short_circuit_exit : Exit × Flag
unfolding gates_na
short_circuit_exit = (
  record {
    findings = [];
    critical = 0;
    important = 0;
    minor = 0;
    coverage_matrix = [];
    coverage_gaps = [];
    gates = gates_na 1 gate_names;
    verdict = go;
  },
  short_circuited,
)

abbrev pub unreviewed : String → Row
unreviewed file = record { file = file; reviewers = [] }

-- `handle_stage_a_empty`
unfoldable pub stage_a_empty : Dict Value → Exit × Flag
unfolding gates_na
stage_a_empty env =
    let safe_paths = strings (ensure_list (get env "changed_paths")) in
    (
      record {
        findings = [];
        critical = 0;
        important = 0;
        minor = 0;
        coverage_matrix = map unreviewed safe_paths;
        coverage_gaps = safe_paths;
        gates = gates_na 1 gate_names;
        verdict = conditional;
      },
      degraded_run,
    )
