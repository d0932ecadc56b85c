-- ===== src/Activation.antt =====
-- code_review/handlers.py, handler 2: `handle_activate_leaves` with `_evaluate_activation` and the
-- entries that `_enumerate_wiki_leaves` makes of the leaf files.
pub mod Keyword
pub mod Signals
pub mod Fields
pub mod Escalation
pub mod Closure
pub mod Listing
pub mod Words
use skill_code_review.Base.{
  ℕ, zero, suc, String, Bool, true, false, ◌||◌, not, Option, none, some, List, [], ◌∷◌, ◌++◌, any,
  map, sorted, sort, str_leb, Dict, lookup, insert, keys, values, if◌then◌else◌, length,
}
use skill_code_review.Value.{
  Value, null, str, dict, get, ensure_list, ensure_dict, entries, strings, nonempty_str, truthy,
  array, as_list, as_str, is_none,
}
use skill_code_review.Result.{Result, ok, raise, ◌>>=◌, type_error}
use skill_code_review.Characters.{Characters}
use Keyword.{keyword_matches}
use Signals.{file_globs_match, structural_signals_match}
use Fields.{leaf_entry, v2_fields, put_unless_none}

-- A leaf with its id and its activation block, as both passes read it.
pub record Node : Type 0 where
  pub leaf_id : String
  pub leaf : Dict Value
  pub activation : Dict Value

-- `leaf.get("activation") or {}`, of which `.get` is asked: a value that is true and no dict has
-- no `get`, and raises.
unfoldable pub activation_of : Value → Result (Dict Value)
activation_of (dict fs) = ok (entries fs)
activation_of v = if truthy v then raise type_error else ok []

-- `activated` and `descent_signals`, in the order of insertion.
pub record Activated : Type 0 where
  pub leaves : Dict (Dict Value)
  pub signals : Dict (List String)

-- The node of a leaf, in front of those of the leaves behind it; none without an id.
unfoldable pub node_at : Option String → Dict Value → Result (List Node) → Result (List Node)
unfolding activation_of
node_at none leaf rest = rest
node_at (some leaf_id) leaf rest = do
  activation ← activation_of (get leaf "activation")
  nodes ← rest
  ok (record { leaf_id = leaf_id; leaf = leaf; activation = activation } ∷ nodes)

-- The nodes of the leaves that have an id. Both loops begin with this; the first loop reads every
-- activation block, so that the second cannot raise.
unfoldable pub nodes_of : List (Dict Value) → Result (List Node)
unfolding node_at
nodes_of [] = ok []
nodes_of (leaf ∷ leaves) = node_at (nonempty_str (get leaf "id")) leaf (nodes_of leaves)

abbrev pub is_some {ℓ} : {A : Type ℓ} → Option A → Bool
is_some none = false
is_some (some a) = true

-- `leaf_id in activated`
abbrev pub is_active : Activated → String → Bool
is_active s leaf_id = is_some (lookup leaf_id s.leaves)

abbrev pub activate : Node → List String → Activated → Activated
activate n signals s = record {
  leaves = insert n.leaf_id n.leaf s.leaves;
  signals = insert n.leaf_id signals s.signals;
}

abbrev pub when_signalled : Node → List String → Activated → Activated
when_signalled n [] s = s
when_signalled n (f ∷ fired) s = activate n (f ∷ fired) s

-- `any(parent_id in activated for parent_id in escalate_from)`
unfoldable pub is_triggered : Node → Activated → Bool
is_triggered n s = any (is_active s) (strings (ensure_list (get n.activation "escalation_from")))

abbrev pub nothing_activated : Activated
nothing_activated = record { leaves = []; signals = [] }

-- One leaf of the second pass, with `changed`.
unfoldable pub escalate_node : Node → Activated × Bool → Activated × Bool
unfolding is_triggered
escalate_node n (s, changed) =
    if is_active s n.leaf_id
    then (s, changed)
    else if is_triggered n s
    then (activate n ("escalation_from" ∷ []) s, true)
    else (s, changed)

-- The body of the `while` loop.
unfoldable pub escalation_round : List Node → Activated × Bool → Activated × Bool
unfolding escalate_node
escalation_round [] s = s
escalation_round (n ∷ nodes) s = escalation_round nodes (escalate_node n s)

-- The `while` loop, with `rounds` of the cap left.
unfoldable pub escalate : ℕ → List Node → Activated → Activated
unfolding escalation_round
escalate zero nodes s = s
escalate (suc rounds) nodes s =
    let (next, changed) = escalation_round nodes (s, false) in
    elim changed [ true ↦ escalate rounds nodes next | false ↦ next ]

abbrev pub signals_or_none : Option (List String) → List String
signals_or_none none = []
signals_or_none (some fired) = fired

abbrev pub id_before : String × Dict Value → String × Dict Value → Bool
id_before a b = str_leb a.0 b.0

-- `{f: leaf[f] for f in _V2_FIELDS if leaf.get(f) is not None}` over what is there already.
unfoldable pub copy_fields : List String → Dict Value → Dict Value → Dict Value
copy_fields [] leaf out = out
copy_fields (field ∷ fields) leaf out =
    copy_fields fields leaf (put_unless_none field (get leaf field) out)

abbrev pub texts : List String → Value
texts ss = array (map str ss)

abbrev pub with_globs : Option (List Value) → Dict Value → Dict Value
with_globs none out = out
with_globs (some globs) out = insert "file_globs" (array globs) out

-- One element of `activated_leaves`, for the leaf that stands under `leaf_id`.
unfoldable pub activated_leaf : Activated → String × Dict Value → Dict Value
unfolding copy_fields
activated_leaf s (leaf_id, leaf) = copy_fields v2_fields leaf (
    with_globs (as_list (get leaf "file_globs")) (
      ("id", str leaf_id)
      ∷ ("path", get leaf "path")
      ∷ ("activation_match", texts (sorted (signals_or_none (lookup leaf_id s.signals))))
      ∷ []))

module _ (ch : Characters) where
  -- `fired`
  unfoldable pub fired_signals : List Value → Dict Value → String → Node → List String
  unfolding file_globs_match keyword_matches structural_signals_match
  fired_signals changed_paths project_profile diff_text n =
      (if file_globs_match (get n.activation "file_globs") changed_paths
        then "file_globs" ∷ []
        else [])
      ++ ((if keyword_matches ch (get n.activation "keyword_matches") diff_text
            then "keyword_matches" ∷ []
            else [])
          ++ (if structural_signals_match ch (get n.activation "structural_signals") project_profile
              then "structural_signals" ∷ []
              else []))

  -- The first pass.
  unfoldable pub first_pass : List Value → Dict Value → String → List Node → Activated → Activated
  unfolding fired_signals
  first_pass changed_paths project_profile diff_text [] s = s
  first_pass changed_paths project_profile diff_text (n ∷ nodes) s =
      first_pass changed_paths project_profile diff_text nodes
        (when_signalled n (fired_signals changed_paths project_profile diff_text n) s)

  -- `_evaluate_activation` up to the sorting.
  unfoldable pub evaluate_activation :
      List (Dict Value) → List Value → Dict Value → String → Result Activated
  unfolding nodes_of first_pass escalate
  evaluate_activation leaves changed_paths project_profile diff_text = do
    nodes ← nodes_of leaves
    ok (
        escalate (suc (length leaves)) nodes
          (first_pass changed_paths project_profile diff_text nodes nothing_activated))

  -- `handle_activate_leaves` on the leaves of the wiki and the text of the diff.
  unfoldable pub activate_leaves :
      List (Dict Value) → String → Dict Value → Result (List (Dict Value))
  unfolding evaluate_activation activated_leaf
  activate_leaves leaves diff_text env = do
    s ←
        evaluate_activation leaves (ensure_list (get env "changed_paths"))
          (ensure_dict (get env "project_profile")) diff_text
    ok (map (activated_leaf s) (sort id_before s.leaves))

abbrev pub keep_entry : Option (Dict Value) → List (Dict Value) → List (Dict Value)
keep_entry none leaves = leaves
keep_entry (some leaf) leaves = leaf ∷ leaves

-- The entries of the files that the walk through the wiki has loaded, each with its path.
unfoldable pub wiki_entries : List (String × Dict Value) → List (Dict Value)
unfolding leaf_entry
wiki_entries [] = []
wiki_entries ((path, metadata) ∷ files) = keep_entry (leaf_entry path metadata) (wiki_entries files)

abbrev pub text_or_empty : Option String → String
text_or_empty none = ""
text_or_empty (some s) = s

abbrev pub leaf_before : Dict Value → Dict Value → Bool
leaf_before a b =
    str_leb (text_or_empty (as_str (get a "id"))) (text_or_empty (as_str (get b "id")))

-- `_enumerate_wiki_leaves` behind the walk.
unfoldable pub enumerate_wiki_leaves : List (String × Dict Value) → List (Dict Value)
unfolding wiki_entries
enumerate_wiki_leaves files = sort leaf_before (wiki_entries files)
