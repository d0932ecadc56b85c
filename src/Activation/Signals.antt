-- ===== src/Activation/Signals.antt =====
-- code_review/handlers.py `_file_globs_match` and `_structural_signals_match`.
use skill_code_review.Base.{
  String, Bool, false, ◌&&◌, not, List, [], ◌∷◌, ◌++◌, any, map, contains, str_eq, Dict, flat_map,
  if◌then◌else◌,
}
use skill_code_review.Value.{Value, bool, get, ensure_list, strings}
use skill_code_review.Glob.{minimatch}
use skill_code_review.Characters.{Characters}

-- `_file_globs_match`; globs and paths that are no texts are passed over, and so is the empty glob.
unfoldable pub file_globs_match : Value → List Value → Bool
file_globs_match globs changed_paths =
    any (λ g. not (str_eq g "") && any (λ p. minimatch p g) (strings changed_paths))
      (strings (ensure_list globs))

abbrev pub profile_keys : List String
profile_keys = "languages" ∷ "frameworks" ∷ "ci" ∷ "container" ∷ "iac" ∷ "build" ∷ "lint" ∷ []

abbrev pub is_true : Value → Bool
is_true (bool b) = b
is_true _ = false

module _ (ch : Characters) where
  -- `haystack`, as a list in which only membership is asked.
  unfoldable pub profile_words : Dict Value → List String
  profile_words project_profile =
      flat_map (λ key. map ch.lower (strings (ensure_list (get project_profile key)))) profile_keys
      ++ (if is_true (get project_profile "monorepo") then "monorepo" ∷ [] else [])

  -- `_structural_signals_match`
  unfoldable pub structural_signals_match : Value → Dict Value → Bool
  unfolding profile_words
  structural_signals_match signals project_profile =
      any (λ s. contains (ch.lower s) (profile_words project_profile))
        (strings (ensure_list signals))
