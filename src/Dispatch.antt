-- ===== src/Dispatch.antt =====
-- code_review/dispatch.py: what the dispatchers do around a call of a model, on the inputs before it
-- and on the parsed answer behind it.
pub mod Nulls
pub mod Leaves
pub mod Ranking
pub mod Clean
pub mod Answers
pub mod Braces
pub mod Stripping
pub mod Wrapped
pub mod Filtering
pub mod Rehydration
pub mod Ranked
use skill_code_review.Base.{
  String, Bool, true, false, ◌||◌, Option, none, some, List, [], ◌∷◌, any, contains, str_eq,
  if◌then◌else◌,
}
use skill_code_review.Glob.{codes}
use skill_code_review.Triage.{begins}

-- What `_route_tier` returns.
pub data Tier : Type 0 where
  strong cheap : Tier

abbrev pub strong_prefixes : List String
strong_prefixes = "sec-" ∷ "lang-" ∷ "fw-" ∷ "orm-" ∷ "footgun-" ∷ "reliability-" ∷ "data-" ∷ []

-- `_route_tier`, for dimensions that are texts.
unfoldable pub route_tier : String → List String → Tier
route_tier leaf_id dimensions =
    if contains "security" dimensions || contains "correctness" dimensions
    then strong
    else if any (λ prefix. begins (codes prefix) (codes leaf_id)) strong_prefixes
        || str_eq leaf_id "principle-fail-fast"
    then strong
    else cheap
