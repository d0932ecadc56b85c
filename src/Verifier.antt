-- ===== src/Verifier.antt =====
-- code_review/handlers.py, handler 12: `handle_verifier_stuck`, and the counts of rejections by the
-- verifier that it reads (`_read_verifier_rejection_counts`, `_bump_verifier_rejection_counts` and
-- `_is_verifier_stuck`).
pub mod Counts
pub mod Degraded
use skill_code_review.Base.{
  ℕ, zero, suc, ◌+◌, String, Bool, true, false, ◌&&◌, Option, none, some, List, [], ◌∷◌, ◌++◌, ℤ,
  pos, negsuc, leb, if◌then◌else◌, str_eq, Dict, lookup, insert,
}
use skill_code_review.Value.{Value, get, as_int, ensure_dict, nonempty_str}

-- `_VERIFIER_REJECTION_LIMIT`
abbrev pub rejection_limit : ℕ
rejection_limit = 3

abbrev pub keep_count : String → Option ℤ → Dict ℕ → Dict ℕ
keep_count k (some (pos n)) counts = (k, n) ∷ counts
keep_count k _ counts = counts

unfoldable pub counts_in : Dict Value → Dict ℕ
counts_in [] = []
counts_in ((k, v) ∷ raw) = keep_count k (as_int v) (counts_in raw)

-- `_read_verifier_rejection_counts`: entries that are no numbers, or negative, are dropped.
unfoldable pub read_verifier_rejection_counts : Dict Value → Dict ℕ
unfolding counts_in
read_verifier_rejection_counts env = counts_in (ensure_dict (get env "verifier_rejection_counts"))

-- `counts.get(state_id, 0)`
abbrev pub count_or_zero : Option ℕ → ℕ
count_or_zero none = 0
count_or_zero (some n) = n

abbrev pub count_of : Dict ℕ → String → ℕ
count_of counts state_id = count_or_zero (lookup state_id counts)

-- `not state_id`, for a text or `None`.
abbrev pub named : Option String → Option String
named none = none
named (some s) = if str_eq s "" then none else some s

abbrev bump : Dict ℕ → Option String → Dict ℕ
bump counts none = counts
bump counts (some state_id) = insert state_id (count_of counts state_id + 1) counts

-- `_bump_verifier_rejection_counts`
unfoldable pub bump_verifier_rejection_counts : Dict ℕ → Option String → Dict ℕ
bump_verifier_rejection_counts counts state_id = bump counts (named state_id)

abbrev at_limit : Dict ℕ → Option String → Bool
at_limit counts none = false
at_limit counts (some state_id) = leb rejection_limit (count_of counts state_id)

-- `_is_verifier_stuck`
unfoldable pub is_verifier_stuck : Dict ℕ → Option String → Bool
is_verifier_stuck counts state_id = at_limit counts (named state_id)

-- The first state at the limit or above it.
unfoldable pub first_stuck : Dict ℕ → Option String
first_stuck [] = none
first_stuck ((state_id, count) ∷ counts) =
    let later = first_stuck counts in if leb rejection_limit count then some state_id else later

-- An element of `failed_units`.
pub data FailedUnit : Type 0 where
  failed_leaf : String → FailedUnit
  failed_batch : ℤ → FailedUnit

pub record VerifierStuck : Type 0 where
  pub stuck_state_id : String
  pub rejection_count : ℕ
  pub limit : ℕ
  pub degraded_run : Bool
  pub verifier_rejection_counts : Dict ℕ
  pub failed_units : List FailedUnit

abbrev pub or_else_stuck : Option String → Option String → Option String
or_else_stuck (some s) found = some s
or_else_stuck none found = found

-- `stuck_state_id`: the one that is given, or else the first in the counts.
unfoldable pub stuck_state : Dict Value → Dict ℕ → Option String
unfolding first_stuck
stuck_state env counts =
    or_else_stuck (nonempty_str (get env "stuck_state_id")) (first_stuck counts)

abbrev pub text_or_empty : Option String → String
text_or_empty none = ""
text_or_empty (some s) = s

abbrev pub reset : Option String → Dict ℕ → Dict ℕ
reset none counts = counts
reset (some s) counts = insert s 0 counts

abbrev pub leaf_failure : Option String → List FailedUnit
leaf_failure none = []
leaf_failure (some leaf_id) = failed_leaf leaf_id ∷ []

abbrev pub batch_failure : Option ℤ → List FailedUnit
batch_failure none = []
batch_failure (some n) = failed_batch n ∷ []

-- `handle_verifier_stuck`
unfoldable pub verifier_stuck : Dict Value → VerifierStuck
unfolding read_verifier_rejection_counts stuck_state
verifier_stuck env =
    let counts = read_verifier_rejection_counts env in
    let stuck = stuck_state env counts in
    record {
      stuck_state_id = text_or_empty stuck;
      rejection_count = count_of counts (text_or_empty stuck);
      limit = rejection_limit;
      degraded_run = true;
      verifier_rejection_counts = reset stuck counts;
      failed_units =
          leaf_failure (nonempty_str (get env "current_leaf_id"))
          ++ batch_failure (as_int (get env "current_batch_index"));
    }
