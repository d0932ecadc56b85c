-- ===== src/Dispatch/Wrapped.antt =====
-- code_review/dispatch.py `_parse_json` and `dispatch_specialist`: an object with text around it is
-- found, and what comes of its `id`.
use skill_code_review.Base.{String, Option, none, some, ◌≡◌, refl, Dict}
use skill_code_review.Value.{Value, str, entries, of_entries, object}
use skill_code_review.Characters.{Characters}
use skill_code_review.Runner.{output}
use skill_code_review.Dispatch.Nulls.{strip_nulls, strip_fields}
use skill_code_review.Dispatch.Answers.{clean}
use skill_code_review.Dispatch.Stripping.{kept}

-- The `id` of the specialist's output, by the one that the model has answered: its own, the leaf's
-- where it gave none, and none at all where it gave a null.
abbrev pub id_from : String → Option Value → Option Value
id_from leaf_id none = some (str leaf_id)
id_from leaf_id (some v) = kept (some v)

module _ (leaf_id : String) (wall_ms : Value) (cost : Dict Value) where
  cleaned :
      (out : Dict Value)
      → clean out (strip_nulls (object out)) ≡ output (entries (strip_fields (of_entries out)))
  unfolding strip_nulls
  cleaned out = refl
