-- ===== src/Dispatch/Leaves.antt =====
-- code_review/dispatch.py `_compact_leaf`, `_compact_inputs`, `_index_by_id` and `_rehydrate`: leaves
-- are made small for the prompt, and made whole again from the answer.
use skill_code_review.Base.{
  String, Bool, true, false, not, Option, none, some, List, [], ◌∷◌, take, contains, str_eq,
  if◌then◌else◌, Dict, lookup, insert, update_dict,
}
use skill_code_review.Value.{
  Value, Items, null, str, list, dict, nil, item, get, as_str, as_list, as_dict, elements, entries,
  array, object,
}
use skill_code_review.Result.{Result, ok, raise, type_error, ◌>>=◌}

-- `_HEAVY_LEAF_KEYS` and `_LEAF_LIST_KEYS`
abbrev pub heavy_leaf_keys : List String
heavy_leaf_keys = "covers" ∷ "audit_surface" ∷ []

abbrev pub leaf_list_keys : List String
leaf_list_keys = "activated_leaves" ∷ "stage_a_candidates" ∷ "candidate_leaves" ∷ []

-- `{k: v for k, v in d.items() if p(k, v)}`
unfoldable pub filter_entries : (String → Value → Bool) → Dict Value → Dict Value
filter_entries p [] = []
filter_entries p ((k, v) ∷ d) = if p k v then (k, v) ∷ filter_entries p d else filter_entries p d

abbrev pub is_light : String → Value → Bool
is_light k v = not (contains k heavy_leaf_keys)

-- `if isinstance(cov, list) and cov: out["covers"] = cov[:3]`
abbrev pub with_hint : Option (List Value) → Dict Value → Dict Value
with_hint none out = out
with_hint (some []) out = out
with_hint (some (v ∷ cov)) out = insert "covers" (array (take 3 (v ∷ cov))) out

-- `_compact_leaf`
unfoldable pub compact_leaf : Dict Value → Dict Value
unfolding filter_entries
compact_leaf leaf = with_hint (as_list (get leaf "covers")) (filter_entries is_light leaf)

abbrev pub compact_value : Value → Value
compact_value (dict fs) = object (compact_leaf (entries fs))
compact_value v = v

unfoldable pub compact_items : Items → Items
unfolding compact_leaf
compact_items nil = nil
compact_items (item v vs) = item (compact_value v) (compact_items vs)

abbrev pub compact_at : Value → String → Dict Value → Dict Value
compact_at (list vs) k out = insert k (list (compact_items vs)) out
compact_at v k out = out

unfoldable pub compact_keys : List String → Dict Value → Dict Value
unfolding compact_items
compact_keys [] out = out
compact_keys (k ∷ ks) out = compact_keys ks (compact_at (get out k) k out)

-- `_compact_inputs`
unfoldable pub compact_inputs : Dict Value → Dict Value
unfolding compact_keys
compact_inputs inputs = compact_keys leaf_list_keys inputs

abbrev pub index_at : Option (Dict Value) → Option String → Dict (Dict Value) → Dict (Dict Value)
index_at (some leaf) (some leaf_id) index = insert leaf_id leaf index
index_at leaf leaf_id index = index

unfoldable pub index_from : List Value → Dict (Dict Value) → Dict (Dict Value)
index_from [] index = index
index_from (v ∷ vs) index = index_from vs (
    index_at (as_dict v) (elim (as_dict v) [ none ↦ none | some leaf ↦ as_str (get leaf "id") ])
      index)

-- `_index_by_id`
unfoldable pub index_by_id : Value → Dict (Dict Value)
unfolding index_from
index_by_id (list vs) = index_from (elements vs) []
index_by_id _ = []

-- `v not in (None, [], "")`
abbrev pub is_filled : String → Value → Bool
is_filled k null = false
is_filled k (list nil) = false
is_filled k (str s) = not (str_eq s "")
is_filled k v = true

-- `source_by_id.get(p.get("id", ""))`: a list or a dict is not hashable.
unfoldable pub source_of : Dict (Dict Value) → Option Value → Result (Option (Dict Value))
source_of source_by_id none = ok (lookup "" source_by_id)
source_of source_by_id (some (str s)) = ok (lookup s source_by_id)
source_of source_by_id (some (list vs)) = raise type_error
source_of source_by_id (some (dict fs)) = raise type_error
source_of source_by_id (some _) = ok none

-- The pick over its source, where there is one that is not empty.
abbrev pub over_source : Option (Dict Value) → Dict Value → Dict Value
over_source none p = p
over_source (some []) p = p
over_source (some (e ∷ full)) p = update_dict (e ∷ full) (filter_entries is_filled p)

-- `_rehydrate`; picks that are no dicts are passed over.
unfoldable pub rehydrate_picks : List Value → Dict (Dict Value) → Result (List (Dict Value))
unfolding source_of filter_entries
rehydrate_picks [] source_by_id = ok []
rehydrate_picks (dict p ∷ picked) source_by_id = do
  full ← source_of source_by_id (lookup "id" (entries p))
  rest ← rehydrate_picks picked source_by_id
  ok (over_source full (entries p) ∷ rest)
rehydrate_picks (_ ∷ picked) source_by_id = rehydrate_picks picked source_by_id

unfoldable pub rehydrate : Value → Dict (Dict Value) → Result (List (Dict Value))
unfolding rehydrate_picks
rehydrate (list vs) source_by_id = rehydrate_picks (elements vs) source_by_id
rehydrate _ source_by_id = ok []
