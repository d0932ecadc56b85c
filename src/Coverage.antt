-- ===== src/Coverage.antt =====
-- code_review/handlers.py, handler 4: `handle_verify_coverage` with `_read_leaf_globs`. It credits
-- reviewers to the changed files and reports the files with fewer than two.
pub mod Credit
pub mod Invariant
pub mod Rows
pub mod Matrix
use skill_code_review.Base.{
  ℕ, zero, suc, String, Bool, true, false, ◌&&◌, ◌||◌, not, Option, none, some, List, [], ◌∷◌, ltb,
  if◌then◌else◌, length, any, sorted, sort, contains, update, add, Dict, lookup, insert, keep,
  str_leb,
}
use skill_code_review.Value.{
  Value, null, list, dict, get, ensure_list, ensure_dict, as_dict, as_str, as_list, elements,
  strings, nonempty_str,
}
use skill_code_review.Result.{Result, ok, raise, ◌>>=◌, iterate}
use skill_code_review.Glob.{minimatch}

pub record Row : Type 0 where
  pub file : String
  pub reviewers : List String

pub record Coverage : Type 0 where
  pub coverage_matrix : List Row
  pub coverage_gaps : List String
  pub coverage_rule_violated : Bool

-- The metadata of the leaf file that a path names: none if the path leads to no file inside
-- `reviewers.wiki`, or if the frontmatter loader fails.
pub record Wiki : Type 0 where
  pub frontmatter : String → Option (Dict Value)

-- `reviewers_by_file.setdefault(file, set())`
abbrev pub found : Option (List String) → List String
found none = []
found (some reviewers) = reviewers

-- `reviewers_by_file.setdefault(file, set()).update(ids)`
unfoldable pub credit : String → List String → Dict (List String) → Dict (List String)
credit file ids d = insert file (update (found (lookup file d)) ids) d

-- The file and the ids that a finding credits, by the file it names and the value of `flagged_by`.
unfoldable pub flag_at :
    List String → Option String → Value → Result (Option (String × List String))
flag_at changed none flagged_by = ok none
flag_at changed (some file) flagged_by =
    if contains file changed
    then (do ids ← iterate flagged_by; ok (some (file, strings ids)))
    else ok none

-- One finding; one that is no dict names no file.
unfoldable pub flagged : List String → Value → Result (Option (String × List String))
unfolding flag_at
flagged changed finding =
    flag_at changed (as_str (get (ensure_dict finding) "file"))
      (get (ensure_dict finding) "flagged_by")

abbrev pub credit_flagged : Option (String × List String) → Dict (List String) → Dict (List String)
credit_flagged none d = d
credit_flagged (some (file, ids)) d = credit file ids d

-- Source (a)
unfoldable pub credit_findings :
    List String → List Value → Dict (List String) → Result (Dict (List String))
unfolding flagged credit
credit_findings changed [] d = ok d
credit_findings changed (f ∷ findings) d = do
  c ← flagged changed f
  credit_findings changed findings (credit_flagged c d)

-- `reviewers_by_file.setdefault(file, set()).add(leaf_id)` for the files that pass the test.
unfoldable pub credit_files :
    (String → Bool) → String → List String → Dict (List String) → Dict (List String)
unfolding credit
credit_files p leaf_id [] d = d
credit_files p leaf_id (file ∷ files) d =
    let credited = credit file (leaf_id ∷ []) d in
    credit_files p leaf_id files (if p file then credited else d)

-- Whether a leaf with these globs reviews a file: all files without an activation block, and no
-- file with an empty list.
abbrev pub reviews : Option (List String) → String → Bool
reviews none file = true
reviews (some globs) file = any (λ g. minimatch file g) globs

-- The globs of the metadata: none without an activation block.
unfoldable pub activation_globs : Dict Value → Option (List String)
activation_globs metadata = elim (as_dict (get metadata "activation")) [
  | none ↦ none
  | some activation ↦ some (strings (ensure_list (get activation "file_globs")))
]

-- The id of a leaf that is a dict, if it is a text that is not empty.
unfoldable pub reviewer_id : Value → Option String
reviewer_id leaf = nonempty_str (get (ensure_dict leaf) "id")

-- Source (b) for one leaf.
unfoldable pub credit_leaf_at :
    Option String → Option (List String) → List String → Dict (List String) → Dict (List String)
unfolding credit_files
credit_leaf_at none globs changed d = d
credit_leaf_at (some leaf_id) globs changed d = credit_files (reviews globs) leaf_id changed d

module _ (w : Wiki) where
  -- `_read_leaf_globs`
  unfoldable pub read_leaf_globs : Value → Option (List String)
  unfolding activation_globs
  read_leaf_globs leaf_path = elim (nonempty_str leaf_path) [
    | none ↦ none
    | some path ↦ elim (w.frontmatter path) [
      | none ↦ none
      | some metadata ↦ activation_globs metadata
    ]
  ]

  unfoldable pub credit_leaf : List String → Value → Dict (List String) → Dict (List String)
  unfolding credit_leaf_at read_leaf_globs reviewer_id
  credit_leaf changed leaf d =
      credit_leaf_at (reviewer_id leaf) (read_leaf_globs (get (ensure_dict leaf) "path")) changed d

  unfoldable pub credit_leaves : List String → List Value → Dict (List String) → Dict (List String)
  unfolding credit_leaf
  credit_leaves changed [] d = d
  credit_leaves changed (leaf ∷ leaves) d =
      credit_leaves changed leaves (credit_leaf changed leaf d)

-- The file and the leaf of a rescue, where both are texts and the file is a changed one.
unfoldable pub rescue_at :
    List String → Option String → Option String → Option (String × List String)
rescue_at changed none who = none
rescue_at changed (some file) none = none
rescue_at changed (some file) (some leaf_id) =
    if contains file changed then some (file, leaf_id ∷ []) else none

unfoldable pub rescued : List String → Value → Option (String × List String)
unfolding rescue_at
rescued changed rescue =
    rescue_at changed (as_str (get (ensure_dict rescue) "file"))
      (as_str (get (ensure_dict rescue) "rescued_leaf"))

-- Source (c)
unfoldable pub credit_rescues : List String → List Value → Dict (List String) → Dict (List String)
unfolding rescued credit
credit_rescues changed [] d = d
credit_rescues changed (rescue ∷ rescues) d =
    credit_rescues changed rescues (credit_flagged (rescued changed rescue) d)

-- `for changed_file in changed_path_set: reviewers_by_file.setdefault(changed_file, set())`
unfoldable pub no_reviewers : List String → Dict (List String)
no_reviewers [] = []
no_reviewers (file ∷ files) = (file, []) ∷ no_reviewers files

unfoldable pub rows : Dict (List String) → List Row
rows [] = []
rows ((file, reviewers) ∷ d) = record { file = file; reviewers = sorted reviewers } ∷ rows d

abbrev pub row_before : Row → Row → Bool
row_before r s = str_leb r.file s.file

abbrev pub is_gap : Row → Bool
is_gap r = ltb (length r.reviewers) 2

unfoldable pub gaps_of : List Row → List String
gaps_of [] = []
gaps_of (r ∷ matrix) = let rest = gaps_of matrix in if is_gap r then r.file ∷ rest else rest

-- What is reported for the credits.
unfoldable pub report : Dict (List String) → Coverage
unfolding rows gaps_of
report d =
    let matrix = sort row_before (rows d) in
    record {
      coverage_matrix = matrix;
      coverage_gaps = gaps_of matrix;
      coverage_rule_violated = ltb 0 (length (gaps_of matrix));
    }

-- `handle_verify_coverage`
unfoldable pub verify_coverage : Wiki → Dict Value → Result Coverage
unfolding no_reviewers credit_findings credit_leaves credit_rescues report
verify_coverage w env = do
  let changed = update [] (strings (ensure_list (get env "changed_paths")))
  by_findings ← credit_findings changed (ensure_list (get env "findings")) (no_reviewers changed)
  let by_leaves = credit_leaves w changed (ensure_list (get env "picked_leaves")) by_findings
  ok (report (credit_rescues changed (ensure_list (get env "coverage_rescues")) by_leaves))
