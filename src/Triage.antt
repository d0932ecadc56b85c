-- ===== src/Triage.antt =====
-- code_review/handlers.py, handler 1: `handle_risk_tier_triage` with `_detect_risk_signals`,
-- `_detect_scope_overrides` and `_clamp_cap`. It buckets a diff into a risk tier and sets the cap on
-- specialists.
pub mod Patterns
pub mod Bounds
pub mod Signals
unfoldable pub use Patterns.{
  has_word, begins, risk_keywords, high_risk_patterns, path_signals, lower,
}
use skill_code_review.Base.{
  ℕ, zero, suc, ◌+◌, ◌-◌, min, max, String, Bool, true, false, ◌&&◌, ◌||◌, not, Option, none, some,
  List, [], ◌∷◌, ◌++◌, ℤ, pos, negsuc, pos_part, ltb, leb, leb_ℤ, eq_ℤ, ◌==◌, if◌then◌else◌, length,
  take, any, sorted, update, add, Dict, lookup,
}
use skill_code_review.Value.{
  Value, Float, nan, infinity, ratio, null, str, list, get, ensure_list, ensure_dict, as_list,
  truthy, is_none, item, nil,
}
use skill_code_review.Result.{
  Result, ok, raise, Exception, type_error, value_error, overflow_error, ◌>>=◌, Parsers, to_int,
  to_float, int_of_float,
}

pub data RiskTier : Type 0 where
  trivial lite full sensitive : RiskTier

-- The texts of `tier_rationale`, with what is put into them.
pub data Rationale : Type 0 where
  signals_fired : List String → Rationale
  large_diff small_diff : ℤ → ℤ → Rationale
  single_file : Rationale
  cap_overridden : Rationale → ℕ → Rationale

pub record Triage : Type 0 where
  pub tier : RiskTier
  pub cap : ℕ
  pub tier_rationale : Rationale
  pub risk_signals : List String
  pub scope_overrides_present : Bool

-- The loop of `_detect_risk_signals` over the changed paths.
unfoldable pub signals_of : List String → List Value → List String
signals_of signals [] = signals
signals_of signals (str path ∷ paths) = signals_of (update signals (path_signals path)) paths
signals_of signals (_ ∷ paths) = signals_of signals paths

abbrev pub iac_present : Dict Value → Bool
iac_present project_profile = elim (get project_profile "iac") [
  | list (item v vs) ↦ true
  | _ ↦ false
]

-- `_detect_risk_signals`
unfoldable pub detect_risk_signals : List Value → Dict Value → List String
unfolding signals_of
detect_risk_signals changed_paths project_profile =
    let signals = signals_of [] changed_paths in
    sorted (if iac_present project_profile then add signals "profile:iac-present" else signals)

abbrev pub scope_override_keys : List String
scope_override_keys =
    "scope-dir" ∷ "scope-lang" ∷ "scope-framework" ∷ "scope-reviewer" ∷ "scope-severity"
    ∷ "scope-gate" ∷ []

-- `_detect_scope_overrides`
unfoldable pub detect_scope_overrides : Dict Value → Bool
detect_scope_overrides args_bag = any (λ key. not (is_none (get args_bag key))) scope_override_keys

-- `_TIER_CAPS`
unfoldable pub tier_cap : RiskTier → ℕ
tier_cap trivial = 3
tier_cap lite = 8
tier_cap full = 20
tier_cap sensitive = 30

-- `max(3, min(50, n))`
unfoldable pub clamp : ℤ → ℕ
clamp n = max 3 (min 50 (pos_part n))

-- The `if` chain on the signals and the size of the diff.
unfoldable pub choose_tier : List String → ℤ → ℤ → RiskTier × Rationale
choose_tier (s ∷ signals) lines files = (sensitive, signals_fired (take 3 (s ∷ signals)))
choose_tier [] lines files =
    if not (leb_ℤ lines (pos 100)) || not (leb_ℤ files (pos 5))
    then (full, large_diff lines files)
    else if leb_ℤ lines (pos 10) && eq_ℤ files (pos 1)
    then (trivial, single_file)
    else (lite, small_diff lines files)

module _ (p : Parsers) where
  -- `try: n = float(v) except (TypeError, ValueError): n = None`
  unfoldable pub float_or_none : Value → Result (Option Float)
  unfolding to_float
  float_or_none v = elim (to_float p v) [
    | ok f ↦ ok (some f)
    | raise type_error ↦ ok none
    | raise value_error ↦ ok none
    | raise e ↦ raise e
  ]

  -- The cap and the rationale under `--max-reviewers`: `n == n` fails for a NaN only.
  unfoldable pub override_by : Option Float → ℕ → Rationale → Result (ℕ × Rationale)
  unfolding int_of_float clamp
  override_by none limit why = ok (limit, why)
  override_by (some nan) limit why = ok (limit, why)
  override_by (some f) limit why = do n ← int_of_float f; ok (clamp n, cap_overridden why (clamp n))

  unfoldable pub override_cap : Value → ℕ → Rationale → Result (ℕ × Rationale)
  unfolding float_or_none override_by
  override_cap null limit why = ok (limit, why)
  override_cap v limit why = do n ← float_or_none v; override_by n limit why

  -- `int(diff_stats.get(key, 0) or 0)`
  unfoldable pub diff_stat : Dict Value → String → Result ℤ
  unfolding to_int truthy
  diff_stat diff_stats key =
      let v = get diff_stats key in if truthy v then to_int p v else ok (pos 0)

  -- From the tier on: the part of the handler behind the reading of its inputs.
  unfoldable pub decide_triage : List String → Bool → Value → ℤ → ℤ → Result Triage
  unfolding choose_tier override_cap tier_cap
  decide_triage risk_signals overrides max_reviewers lines_changed files_changed = do
    let chosen = choose_tier risk_signals lines_changed files_changed
    final ← override_cap max_reviewers (tier_cap chosen.0) chosen.1
    ok (record {
      tier = chosen.0;
      cap = final.0;
      tier_rationale = final.1;
      risk_signals = risk_signals;
      scope_overrides_present = overrides;
    })

  -- `handle_risk_tier_triage`
  unfoldable pub risk_tier_triage : Dict Value → Result Triage
  unfolding detect_risk_signals detect_scope_overrides diff_stat decide_triage
  risk_tier_triage env = do
    let changed_paths = ensure_list (get env "changed_paths")
    let diff_stats = ensure_dict (get env "diff_stats")
    let project_profile = ensure_dict (get env "project_profile")
    let args_bag = ensure_dict (get env "args")
    lines_changed ← diff_stat diff_stats "lines_changed"
    files_changed ← diff_stat diff_stats "files_changed"
    decide_triage (detect_risk_signals changed_paths project_profile)
        (detect_scope_overrides args_bag) (get args_bag "max-reviewers") lines_changed files_changed
