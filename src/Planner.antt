-- ===== src/Planner.antt =====
-- code_review/handlers.py, handler 10: `handle_plan_specialist_batches` and its helpers
-- `_math_ceil` and `_leaf_file_set`. It turns the picked leaves into batches of work units, and
-- cuts the files of a large leaf into several units.
pub mod Slices
pub mod Packing
pub mod Coverage
pub mod Budget
pub mod Files
use skill_code_review.Base.{
  ℕ, zero, suc, ◌+◌, ◌-◌, ◌*◌, ◌/◌, ◌%◌, min, String, Bool, true, false, ◌&&◌, ◌||◌, not, Option,
  none, some, List, [], ◌∷◌, ◌++◌, ℤ, pos, negsuc, ltb, leb, ◌==◌, str_eq, if◌then◌else◌, length,
  slice, contains, update, Dict,
}
use skill_code_review.Value.{
  Value, str, list, dict, get, as_int, as_list, as_dict, as_str, ensure_list, ensure_dict,
  nonempty_str, strings, is_none,
}
use skill_code_review.Glob.{minimatch}

pub record WorkUnit : Type 0 where
  pub leaf_id : String
  pub sub_index : ℕ
  pub total_subs : ℕ
  pub files : List String

pub record Batch : Type 0 where
  pub batch_index : ℕ
  pub units : List WorkUnit

pub record Plan : Type 0 where
  pub specialist_batches : List Batch
  pub total_batches : ℕ
  pub total_files_planned : ℕ

-- `_TIER_BATCH_SIZE.get(tier if isinstance(tier, str) else "", 4)`
unfoldable pub tier_batch_size : Value → ℕ
tier_batch_size (str t) =
    if str_eq t "trivial"
    then 3
    else if str_eq t "lite"
    then 4
    else if str_eq t "full"
    then 5
    else if str_eq t "sensitive"
    then 3
    else 4
tier_batch_size _ = 4

-- `isinstance(v, int) and v > 0`, with the number; otherwise the default.
unfoldable pub positive_or : ℕ → Value → ℕ
positive_or default v = elim (as_int v) [
  | some (pos n) ↦ if ltb 0 n then n else default
  | _ ↦ default
]

abbrev pub tokens_per_file : ℕ
tokens_per_file = 500

abbrev pub default_max_leaf_tokens : ℕ
default_max_leaf_tokens = 80000

-- `_math_ceil` on numbers that are not negative: `-(-num // den)` rounds up.
unfoldable pub math_ceil : ℕ → ℕ → ℕ
math_ceil num den = if leb den 0 then 0 else (num + (den - 1)) / den

-- The inner loop of `_leaf_file_set` at one path that is not in `seen` yet.
unfoldable pub some_glob : List Value → String → Bool
some_glob [] path = false
some_glob (v ∷ globs) path = elim (nonempty_str v) [
  | none ↦ some_glob globs path
  | some glob ↦ minimatch path glob || some_glob globs path
]

-- The outer loop; `seen` holds what is in `matched`.
unfoldable pub matched_files : List Value → List String → List String → List String
unfolding some_glob
matched_files globs seen [] = []
matched_files globs seen (path ∷ paths) =
    let taken = matched_files globs (path ∷ seen) paths in
    let passed = matched_files globs seen paths in
    if some_glob globs path && not (contains path seen) then path ∷ taken else passed

-- The globs of a leaf: those of its activation block, or those hoisted onto the leaf.
unfoldable pub leaf_globs : Dict Value → Value
leaf_globs leaf =
    let hoisted = get leaf "file_globs" in
    elim (as_dict (get leaf "activation")) [
      | none ↦ hoisted
      | some activation ↦
          let globs = get activation "file_globs" in if is_none globs then hoisted else globs
    ]

-- The paths for globs that are no list or an empty one, and for others.
unfoldable pub files_of_globs : Option (List Value) → List String → List String
unfolding matched_files
files_of_globs none changed_paths = changed_paths
files_of_globs (some []) changed_paths = changed_paths
files_of_globs (some (g ∷ globs)) changed_paths = matched_files (g ∷ globs) [] changed_paths

-- `_leaf_file_set`
unfoldable pub leaf_file_set : Dict Value → List String → List String
unfolding leaf_globs files_of_globs
leaf_file_set leaf changed_paths = files_of_globs (as_list (leaf_globs leaf)) changed_paths

-- The loop `for sub_idx in range(sub_count)`, with `left` rounds to go.
unfoldable pub slices : String → ℕ → ℕ → List String → ℕ → ℕ → List WorkUnit
slices leaf_id sub_count chunk_size files zero sub_idx = []
slices leaf_id sub_count chunk_size files (suc left) sub_idx =
    let slice_start = sub_idx * chunk_size in
    let slice_end = min (slice_start + chunk_size) (length files) in
    let rest = slices leaf_id sub_count chunk_size files left (suc sub_idx) in
    if leb (length files) slice_start
    then []
    else record {
      leaf_id = leaf_id;
      sub_index = sub_idx + 1;
      total_subs = sub_count;
      files = slice slice_start slice_end files;
    }
      ∷ rest

abbrev pub single : String → List String → WorkUnit
single leaf_id files = record { leaf_id = leaf_id; sub_index = 1; total_subs = 1; files = files }

-- The units that one leaf adds, by the tests on its files and their estimated tokens.
unfoldable pub file_units : ℕ → String → List String → List WorkUnit
unfolding slices math_ceil
file_units max_leaf_tokens leaf_id [] = single leaf_id [] ∷ []
file_units max_leaf_tokens leaf_id (f ∷ fs) =
    let files = f ∷ fs in
    let estimated_tokens = length files * tokens_per_file in
    let sub_count = math_ceil estimated_tokens max_leaf_tokens in
    let chunk_size = math_ceil (length files) sub_count in
    if ltb max_leaf_tokens estimated_tokens
    then slices leaf_id sub_count chunk_size files sub_count 0
    else single leaf_id files ∷ []

-- `isinstance(leaf, dict)` and its id, a text that is not empty.
unfoldable pub leaf_id_of : Value → Option String
leaf_id_of leaf = elim (as_dict leaf) [ none ↦ none | some d ↦ nonempty_str (get d "id") ]

-- One round of the loop over the picked leaves.
unfoldable pub leaf_units : ℕ → List String → Value → List WorkUnit
unfolding leaf_id_of file_units leaf_file_set
leaf_units max_leaf_tokens changed_paths leaf = elim (leaf_id_of leaf) [
  | none ↦ []
  | some leaf_id ↦
      file_units max_leaf_tokens leaf_id (leaf_file_set (ensure_dict leaf) changed_paths)
]

unfoldable pub plan_units : ℕ → List String → List Value → List WorkUnit
unfolding leaf_units
plan_units max_leaf_tokens changed_paths [] = []
plan_units max_leaf_tokens changed_paths (leaf ∷ leaves) =
    leaf_units max_leaf_tokens changed_paths leaf ++ plan_units max_leaf_tokens changed_paths leaves

-- The loop `for i in range(0, len(units), batch_size)`; `index` is `len(batches) + 1`. At most
-- `len(units)` rounds are made.
unfoldable pub pack : ℕ → List WorkUnit → ℕ → ℕ → ℕ → List Batch
pack batch_size units zero i index = []
pack batch_size units (suc fuel) i index =
    let rest = pack batch_size units fuel (i + batch_size) (suc index) in
    if ltb i (length units)
    then record { batch_index = index; units = slice i (i + batch_size) units } ∷ rest
    else []

-- `union_files`
unfoldable pub union_files : List String → List WorkUnit → List String
union_files seen [] = seen
union_files seen (u ∷ units) = union_files (update seen u.files) units

-- `handle_plan_specialist_batches`
unfoldable pub plan_specialist_batches : Dict Value → Plan
unfolding plan_units pack union_files tier_batch_size positive_or
plan_specialist_batches env =
    let args_bag = ensure_dict (get env "args") in
    let picked_leaves = ensure_list (get env "picked_leaves") in
    let changed_paths = strings (ensure_list (get env "changed_paths")) in
    let batch_size = positive_or (tier_batch_size (get env "tier")) (get args_bag "batch_size") in
    let max_leaf_tokens = positive_or default_max_leaf_tokens (get args_bag "max_leaf_tokens") in
    let units = plan_units max_leaf_tokens changed_paths picked_leaves in
    let batches = pack batch_size units (length units) 0 1 in
    record {
      specialist_batches = batches;
      total_batches = length batches;
      total_files_planned = length (union_files [] units);
    }
