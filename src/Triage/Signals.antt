-- ===== src/Triage/Signals.antt =====
-- code_review/handlers.py `_detect_risk_signals`: which signals are reported, and in which order.
use skill_code_review.Base.{
  String, Bool, true, false, ◌&&◌, ◌||◌, List, [], ◌∷◌, ◌≡◌, ap, ◌∙◌, if◌then◌else◌, arith, Dict,
  contains, add, update, str_eq, InOrder, str_leb, sorted-InOrder, contains-sorted, contains-add,
  contains-update,
}
use skill_code_review.Value.{Value, str}
use skill_code_review.Triage.{detect_risk_signals, signals_of, iac_present, path_signals}

-- Some changed path gives the signal `s`.
abbrev pub some_path_gives : String → List Value → Bool
some_path_gives s [] = false
some_path_gives s (str path ∷ paths) = contains s (path_signals path) || some_path_gives s paths
some_path_gives s (_ ∷ paths) = some_path_gives s paths

contains-signals_of :
    (s : String) (signals : List String) (paths : List Value)
    → contains s (signals_of signals paths) ≡ (contains s signals || some_path_gives s paths)
unfolding signals_of
contains-signals_of s signals [] = ground arith
contains-signals_of s signals (str path ∷ paths) = ground (
  arith,
  contains-signals_of s (update signals (path_signals path)) paths,
  contains-update s signals (path_signals path),
)
contains-signals_of s signals (_ ∷ paths) = contains-signals_of s signals paths

-- The signals come sorted; one is reported exactly when some changed path gives it, or when it is
-- `profile:iac-present` and the profile lists infrastructure code.
pub detect_risk_signals-contains :
    (paths : List Value) (profile : Dict Value) (s : String)
    → InOrder str_leb (detect_risk_signals paths profile)
      × (contains s (detect_risk_signals paths profile)
          ≡ (some_path_gives s paths || (iac_present profile && str_eq "profile:iac-present" s)))
unfolding detect_risk_signals contains
detect_risk_signals-contains paths profile s =
    (sorted-InOrder _, contains-sorted s _ ∙ by_profile (iac_present profile))
  where
    by_profile :
        (b : Bool)
        → contains s
            (if b then add (signals_of [] paths) "profile:iac-present" else signals_of [] paths)
          ≡ (some_path_gives s paths || (b && str_eq "profile:iac-present" s))
    by_profile true =
        contains-add s (signals_of [] paths) "profile:iac-present"
        ∙ ap (λ b. b || str_eq "profile:iac-present" s) (contains-signals_of s [] paths)
    by_profile false = contains-signals_of s [] paths ∙ ground arith
