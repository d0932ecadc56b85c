-- ===== src/Tests/Whole.antt =====
-- An example of plan, dispatch and merge together.
use skill_code_review.Base.{[], ◌∷◌, ℕ, pos, map, Dict}
use skill_code_review.Value.{Value, int, str, array, object}
use skill_code_review.Planner.{WorkUnit, Plan, plan_specialist_batches}
use skill_code_review.Pipeline.{batch_fields, loop_payloads}

-- One leaf about three files, with at most 500 tokens: three units in batches of two.
abbrev plan_env : Dict Value
plan_env =
    ("args", object (("batch_size", int (pos 2)) ∷ ("max_leaf_tokens", int (pos 500)) ∷ []))
    ∷ ("changed_paths", array (str "a.py" ∷ str "b.py" ∷ str "c.py" ∷ []))
    ∷ ("picked_leaves", array (object (("id", str "lang-python") ∷ []) ∷ []))
    ∷ []

abbrev plan : Plan
plan = plan_specialist_batches plan_env

abbrev no_findings : WorkUnit → Dict Value
no_findings u = ("id", str u.leaf_id) ∷ ("findings", array []) ∷ []

abbrev loop_env : Dict Value
loop_env =
    ("specialist_batches", array (map (λ b. object (batch_fields b)) plan.specialist_batches))
    ∷ ("total_files_planned", int (pos plan.total_files_planned))
    ∷ ("loop_iters", array (map object (loop_payloads no_findings plan)))
    ∷ []

abbrev small : Dict Value → ℕ
small out = 10
