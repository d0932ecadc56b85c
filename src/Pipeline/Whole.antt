-- ===== src/Pipeline/Whole.antt =====
-- code_review/handlers.py and code_review/runner.py: plan, dispatch and merge together.
use skill_code_review.Base.{ℕ, Dict}
use skill_code_review.Value.{Value}
use skill_code_review.Result.{Result, ok, ◌>>=◌}
use skill_code_review.Merger.{Merged, guard_size}

-- What the merge returns for its merged units, once the size guard has gone over them.
abbrev pub guarded : (Dict Value → ℕ) → Merged → Result Merged
guarded size n = guard_size size n.specialist_outputs >>= (λ outputs. ok (record {
  specialist_outputs = outputs;
  pending_writes = n.pending_writes;
  union_files = n.union_files;
}))
