-- ===== src/Planner/Files.antt =====
-- code_review/handlers.py `_leaf_file_set` and the file count of `handle_plan_specialist_batches`.
use skill_code_review.Base.{
  String, Bool, true, Option, none, some, List, [], ◌∷◌, ◌++◌, ◌≡◌, refl, sym, ap, ◌∙◌, ◌&&◌, not,
  length, arith, contains, add, update, Dict, str_eq_iff, Distinct, update-Distinct,
  contains-update,
}
use skill_code_review.Value.{Value, as_list}
use skill_code_review.Planner.{
  WorkUnit, plan_specialist_batches, leaf_file_set, files_of_globs, leaf_globs, matched_files,
  some_glob, union_files,
}
use skill_code_review.Planner.Coverage.{planned_files, unit_files, plan-units, all_units}

contains-matched_files :
    (globs : List Value) (k : String) (seen paths : List String)
    → contains k (matched_files globs seen paths)
      ≡ (contains k paths && (some_glob globs k && not (contains k seen)))
unfolding matched_files contains
contains-matched_files globs k seen [] = refl
contains-matched_files globs k seen (path ∷ paths) = ground (
  arith,
  str_eq_iff path k,
  contains-matched_files globs k (path ∷ seen) paths,
  contains-matched_files globs k seen paths,
)

-- Whether a leaf is about a path: every path without globs, and otherwise one that a glob matches.
abbrev pub in_scope : Option (List Value) → String → Bool
in_scope none path = true
in_scope (some []) path = true
in_scope (some (g ∷ globs)) path = some_glob (g ∷ globs) path

contains-files_of_globs :
    (o : Option (List Value)) (paths : List String) (k : String)
    → contains k (files_of_globs o paths) ≡ (contains k paths && in_scope o k)
unfolding files_of_globs
contains-files_of_globs none paths k = ground arith
contains-files_of_globs (some []) paths k = ground arith
contains-files_of_globs (some (g ∷ globs)) paths k =
    contains-matched_files (g ∷ globs) k [] paths ∙ unfold contains in ground arith

-- The files of a leaf are the changed paths that it is about: all of them if it has no globs, and
-- otherwise those that one of its globs matches.
pub contains-leaf_file_set :
    (leaf : Dict Value) (paths : List String) (k : String)
    → contains k (leaf_file_set leaf paths)
      ≡ (contains k paths && in_scope (as_list (leaf_globs leaf)) k)
unfolding leaf_file_set
contains-leaf_file_set leaf paths k = contains-files_of_globs (as_list (leaf_globs leaf)) paths k

update-append : (s xs ys : List String) → update s (xs ++ ys) ≡ update (update s xs) ys
unfolding update
update-append s [] ys = refl
update-append s (x ∷ xs) ys = update-append (add s x) xs ys

union_files-eq-update :
    (seen : List String) (units : List WorkUnit)
    → union_files seen units ≡ update seen (unit_files units)
unfolding union_files
union_files-eq-update seen [] = unfold update in refl
union_files-eq-update seen (u ∷ units) =
    union_files-eq-update (update seen u.files) units
    ∙ sym (update-append seen u.files (unit_files units))

-- `total_files_planned` counts the planned files, each once: it is the length of a list without
-- repetitions that holds the same texts as the batches do.
pub plan-total_files :
    (env : Dict Value)
    → let p = plan_specialist_batches env in
      (files : List String) × Distinct files
      × ((k : String) → contains k files ≡ contains k (planned_files p))
      × (p.total_files_planned ≡ length files)
unfolding contains
plan-total_files env = (
  update [] (unit_files (all_units env)),
  update-Distinct [] (unit_files (all_units env)) tt,
  λ k. rw (plan-units env) (contains-update k [] (unit_files (all_units env))),
  unfold plan_specialist_batches in ap length (union_files-eq-update [] (all_units env)),
)
