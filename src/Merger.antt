-- ===== src/Merger.antt =====
-- code_review/handlers.py, handler 11: `handle_merge_specialist_outputs` with
-- `_resolve_iteration_payloads` and the size guard. It folds the iterations of the dispatch loop
-- into one output for each planned unit, and raises if a planned unit or file is missing.
pub mod Trim
pub mod Reported
pub mod Drained
unfoldable pub use Trim.{
  guard_size, trim_loop, trim_lowest_priority_unit, severity_rank, max_passes,
}
use skill_code_review.Base.{
  ℕ, zero, suc, ◌+◌, ◌*◌, String, Bool, true, false, ◌&&◌, ◌||◌, not, Option, none, some, List, [],
  ◌∷◌, ◌++◌, ℤ, pos, negsuc, eq_ℤ, leb_ℤ, ltb, leb, ◌==◌, if◌then◌else◌, length, any, keep, map,
  contains, update, Dict, lookup, insert, sort, str_eq, str_leb, pos_part, neg_part,
}
use skill_code_review.Value.{
  value_or, Value, Float, nan, infinity, ratio, null, bool, int, float, str, list, dict, get,
  as_str, as_int, as_list, as_dict, ensure_list, ensure_dict, elements, entries, array, object,
  truthy, strings,
}
use skill_code_review.Result.{
  Result, ok, raise, Exception, type_error, missed_file, dispatch_loop_exited_early, ◌>>=◌, iterate,
}

-- `(leaf_id, sub_index)`
abbrev pub Key : Type 0
Key = String × ℤ

abbrev pub eq_key : Key → Key → Bool
eq_key a b = str_eq a.0 b.0 && eq_ℤ a.1 b.1

-- The order of the tuples.
abbrev pub key_leb : Key → Key → Bool
key_leb a b = if str_eq a.0 b.0 then leb_ℤ a.1 b.1 else str_leb a.0 b.0

abbrev pub has_key : Key → List Key → Bool
has_key k ks = any (λ j. eq_key j k) ks

-- The elements of a list that are dicts.
unfoldable pub dicts : List Value → List (Dict Value)
dicts [] = []
dicts (dict fs ∷ vs) = entries fs ∷ dicts vs
dicts (_ ∷ vs) = dicts vs

abbrev pub key_from : Option String → Option ℤ → Option Key
key_from (some leaf_id) (some sub_index) = some (leaf_id, sub_index)
key_from _ _ = none

-- The key of a unit or of its output, where the id is a text and the index a number.
unfoldable pub key_of : Dict Value → Option Key
key_of d = key_from (as_str (get d "leaf_id")) (as_int (get d "sub_index"))

-- `for unit in batch.get("units") or []` over the batches: the units that are dicts, in order.
unfoldable pub batch_units : List (Dict Value) → Result (List (Dict Value))
unfolding dicts
batch_units [] = ok []
batch_units (batch ∷ batches) = do
  units ← iterate (get batch "units")
  rest ← batch_units batches
  ok (dicts units ++ rest)

abbrev pub add_key : Option Key → List Key → List Key
add_key none ks = ks
add_key (some k) ks = if has_key k ks then ks else ks ++ k ∷ []

-- `planned_units`
unfoldable pub planned_units : List Key → List (Dict Value) → List Key
unfolding key_of
planned_units planned [] = planned
planned_units planned (u ∷ units) = planned_units (add_key (key_of u) planned) units

-- The dicts of a list, or else what the next key gives.
abbrev pub dicts_or : Option (List Value) → List (Dict Value) → List (Dict Value)
dicts_or none next_key = next_key
dicts_or (some vs) next_key = dicts vs

-- The last iteration alone, from the fields that it has left in the environment.
abbrev pub last_payload : Dict Value → Option (List Value) → List (Dict Value)
last_payload env none = []
last_payload env (some vs) =
    (("batch_index", value_or (int (pos 1)) (lookup "batch_index" env))
      ∷ ("iter_outputs", array vs)
      ∷ ("loop_done", bool (truthy (value_or (bool true) (lookup "loop_done" env))))
      ∷ [])
    ∷ []

-- `_resolve_iteration_payloads`
unfoldable pub resolve_iteration_payloads : Dict Value → List (Dict Value)
unfolding dicts
resolve_iteration_payloads env = dicts_or (as_list (get env "specialist_outputs_by_iter")) (
    dicts_or (as_list (get env "loop_iters")) (
      dicts_or (as_list (get env "iteration_outputs"))
        (last_payload env (as_list (get env "iter_outputs")))))

abbrev pub Outputs : Type 0
Outputs = List (Key × Dict Value)

-- `deduped[key] = out`: an entry that is written again keeps its place.
unfoldable pub put : Key → Dict Value → Outputs → Outputs
put k out [] = (k, out) ∷ []
put k out ((j, old) ∷ outs) = if eq_key j k then (j, out) ∷ outs else (j, old) ∷ put k out outs

-- One element of `iter_outputs` in the iteration `iter_n`.
abbrev pub put_at : Option Key → ℕ → Dict Value → Outputs → Outputs
put_at none iter_n unit_out outs = outs
put_at (some k) iter_n unit_out outs = put k (insert "__iter_n" (int (pos iter_n)) unit_out) outs

unfoldable pub put_outputs : ℕ → List (Dict Value) → Outputs → Outputs
unfolding key_of put
put_outputs iter_n [] outs = outs
put_outputs iter_n (u ∷ unit_outs) outs =
    put_outputs iter_n unit_outs (put_at (key_of u) iter_n u outs)

-- The loop over the payloads from the iteration `iter_n` on.
unfoldable pub dedupe : ℕ → List (Dict Value) → Outputs → Outputs
unfolding put_outputs dicts
dedupe iter_n [] outs = outs
dedupe iter_n (payload ∷ payloads) outs =
    dedupe (suc iter_n) payloads
      (put_outputs iter_n (dicts (ensure_list (get payload "iter_outputs"))) outs)

abbrev pub output_keys : Outputs → List Key
output_keys outs = map (λ o. o.0) outs

-- `sorted(planned_units - set(deduped.keys()))`
unfoldable pub missing_units : List Key → Outputs → List Key
missing_units planned outs = sort key_leb (keep (λ k. not (has_key k (output_keys outs))) planned)

-- `v == n`; a float is compared by its value.
unfoldable pub equals_int : Value → ℤ → Bool
equals_int (bool true) n = eq_ℤ (pos 1) n
equals_int (bool false) n = eq_ℤ (pos 0) n
equals_int (int m) n = eq_ℤ m n
equals_int (float (ratio m d)) n =
    (pos_part m + neg_part n * suc d) == (pos_part n * suc d + neg_part m)
equals_int _ n = false

abbrev pub equals_str : Option String → String → Bool
equals_str none s = false
equals_str (some t) s = str_eq t s

-- `unit.get("leaf_id") == leaf_id and unit.get("sub_index") == sub_index`
unfoldable pub is_unit : Key → Dict Value → Bool
unfolding equals_int
is_unit k u = equals_str (as_str (get u "leaf_id")) k.0 && equals_int (get u "sub_index") k.1

-- The files of the planned units with this key, added to `union_files`.
unfoldable pub add_files : Key → List (Dict Value) → List String → Result (List String)
unfolding is_unit
add_files k [] union_files = ok union_files
add_files k (u ∷ units) union_files =
    let passed = add_files k units union_files in
    let added =
      iterate (get u "files")
      >>= (λ files. add_files k units (update union_files (strings files))) in
    if is_unit k u then added else passed

-- A shard that is written: what its path is made of. Its content is the specialist output at the
-- same place of the list of outputs.
pub record Shard : Type 0 where
  pub key : Key
  pub iter_n : Value

pub record Merged : Type 0 where
  pub specialist_outputs : List (Dict Value)
  pub pending_writes : List Shard
  pub union_files : List String

-- `{**specialist_output, "id": leaf_id}` where it has no id that is a text.
unfoldable pub stamp_id : String → Dict Value → Dict Value
stamp_id leaf_id out = elim (as_str (get out "id")) [
  | none ↦ insert "id" (str leaf_id) out
  | some i ↦ out
]

-- One round of the loop over `deduped`, before what `rest` does: an output that is no dict is passed
-- over.
unfoldable pub merge_unit :
    (Merged → Result Merged)
    → List (Dict Value)
    → Key
    → Dict Value
    → Option (Dict Value)
    → Merged
    → Result Merged
unfolding add_files stamp_id
merge_unit rest units k unit_out none m = rest m
merge_unit rest units k unit_out (some out) m = do
  union_files ← add_files k units m.union_files
  rest (record {
    specialist_outputs = m.specialist_outputs ++ stamp_id k.0 out ∷ [];
    pending_writes = m.pending_writes ++ record { key = k; iter_n = get unit_out "__iter_n" } ∷ [];
    union_files = union_files;
  })

unfoldable pub merge_units : List (Dict Value) → Outputs → Merged → Result Merged
unfolding merge_unit
merge_units units [] m = ok m
merge_units units ((k, unit_out) ∷ outs) m =
    merge_unit (λ n. merge_units units outs n) units k unit_out
      (as_dict (get unit_out "specialist_output")) m

abbrev pub nothing_merged : Merged
nothing_merged = record { specialist_outputs = []; pending_writes = []; union_files = [] }

abbrev pub check_drained : List Key → Result {0} (Unit {0})
check_drained [] = ok tt
check_drained (k ∷ missing) = raise (dispatch_loop_exited_early (k ∷ missing))

abbrev pub int_or_zero : Option ℤ → ℤ
int_or_zero none = pos 0
int_or_zero (some n) = n

-- The last check, behind the writes.
abbrev pub check_files : List String → ℤ → Result {0} (Unit {0})
check_files union_files total =
    if leb_ℤ total (pos (length union_files))
    then ok tt
    else raise (missed_file (length union_files) total)

-- From the reading of the inputs on.
module _ (size : Dict Value → ℕ) where
  unfoldable pub merge_payloads : List (Dict Value) → ℤ → List (Dict Value) → Result Merged
  unfolding planned_units dedupe missing_units merge_units guard_size
  merge_payloads units total payloads = do
    let deduped = dedupe 1 payloads []
    drained ← check_drained (missing_units (planned_units [] units) deduped)
    m ← merge_units units deduped nothing_merged
    outputs ← guard_size size m.specialist_outputs
    counted ← check_files m.union_files total
    ok (record {
      specialist_outputs = outputs;
      pending_writes = m.pending_writes;
      union_files = m.union_files;
    })

  -- `handle_merge_specialist_outputs`
  unfoldable pub merge_specialist_outputs : Dict Value → Result Merged
  unfolding batch_units resolve_iteration_payloads merge_payloads
  merge_specialist_outputs env = do
    units ← batch_units (dicts (ensure_list (get env "specialist_batches")))
    merge_payloads units (int_or_zero (as_int (get env "total_files_planned")))
        (resolve_iteration_payloads env)
