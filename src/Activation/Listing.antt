-- ===== src/Activation/Listing.antt =====
-- code_review/handlers.py `handle_activate_leaves`: what the list of activated leaves holds.
use skill_code_review.Base.{
  String, true, false, ◌||◌, List, [], ◌∷◌, ◌≡◌, refl, ap, ◌∙◌, ◌↔◌, arith, inl, inr, sorted,
  Bool-cases, map, sort, sort_insert, str_leb, str_leb_total, InOrder, sort-InOrder, Dict, lookup,
  lookup-insert, contains, str_eq, keys, none, some, Option,
}
use skill_code_review.Value.{
  Value, str, get, ensure_list, ensure_dict, strings, is_none, array, as_list,
}
use skill_code_review.Result.{ok}
use skill_code_review.Characters.{Characters}
use skill_code_review.Activation.{
  Node, Activated, is_some, nodes_of, fired_signals, activate_leaves, activated_leaf, copy_fields,
  id_before, with_globs, texts, signals_or_none,
}
use skill_code_review.Activation.Fields.{v2_fields, put_unless_none}
use skill_code_review.Activation.Escalation.{Activates}
use skill_code_review.Activation.Closure.{evaluate-Activates}

lookup-put_unless_none :
    (k field : String) (v : Value) (out : Dict Value)
    → str_eq field k ≡ false
    → lookup k (put_unless_none field v out) ≡ lookup k out
lookup-put_unless_none k field v out differ = elim (Bool-cases (is_none v)) [
  | inl absent ↦ rw absent refl
  | inr present ↦ rw present (lookup-insert field k v out ∙ rw differ refl)
]

lookup-copy_fields :
    (k : String) (fields : List String) (leaf out : Dict Value)
    → contains k fields ≡ false
    → lookup k (copy_fields fields leaf out) ≡ lookup k out
unfolding copy_fields contains
lookup-copy_fields k [] leaf out h = refl
lookup-copy_fields k (field ∷ fields) leaf out h =
    lookup-copy_fields k fields leaf (put_unless_none field (get leaf field) out) (ground arith)
    ∙ lookup-put_unless_none k field (get leaf field) out (ground arith)

lookup-with_globs :
    (globs : Option (List Value)) (out : Dict Value)
    → lookup "id" (with_globs globs out) ≡ lookup "id" out
lookup-with_globs none out = refl
lookup-with_globs (some globs) out = lookup-insert "file_globs" "id" (array globs) out

activated_leaf-id :
    (s : Activated) (entry : String × Dict Value) → get (activated_leaf s entry) "id" ≡ str entry.0
unfolding activated_leaf get contains lookup
activated_leaf-id s (leaf_id, leaf) =
    let head : Dict Value =
      ("id", str leaf_id)
      ∷ ("path", get leaf "path")
      ∷ ("activation_match", texts (sorted (signals_or_none (lookup leaf_id s.signals))))
      ∷ [] in
    let globs = as_list (get leaf "file_globs") in
    ap (λ o. elim o as (λ _. Value) [ none ↦ Value.null | some v ↦ v ])
      (lookup-copy_fields "id" v2_fields leaf (with_globs globs head) refl
        ∙ lookup-with_globs globs head)

-- The ids of the listed leaves.
abbrev pub ids_of : List (Dict Value) → List String
ids_of out = strings (map (λ leaf. get leaf "id") out)

ids_of-activated :
    (s : Activated) (entries : Dict (Dict Value))
    → ids_of (map (activated_leaf s) entries) ≡ keys entries
unfolding strings keys
ids_of-activated s [] = refl
ids_of-activated s ((k, leaf) ∷ entries) =
    rw (activated_leaf-id s (k, leaf)) (ap (λ ks. k ∷ ks) (ids_of-activated s entries))

contains-keys : (k : String) (d : Dict (Dict Value)) → contains k (keys d) ≡ is_some (lookup k d)
unfolding contains keys lookup
contains-keys k [] = refl
contains-keys k ((j, v) ∷ d) = ground (arith, contains-keys k d)

contains-keys-sort_insert :
    (k : String) (entry : String × Dict Value) (d : Dict (Dict Value))
    → contains k (keys (sort_insert id_before entry d)) ≡ (str_eq entry.0 k || contains k (keys d))
unfolding contains keys sort_insert
contains-keys-sort_insert k e [] = refl
contains-keys-sort_insert k e (f ∷ d) = elim (Bool-cases (id_before e f)) [
  | inl first ↦ rw first refl
  | inr later ↦ rw later (ground (arith, contains-keys-sort_insert k e d))
]

contains-keys-sort :
    (k : String) (d : Dict (Dict Value))
    → contains k (keys (sort id_before d)) ≡ contains k (keys d)
unfolding contains keys sort
contains-keys-sort k [] = refl
contains-keys-sort k (e ∷ d) =
    contains-keys-sort_insert k e (sort id_before d)
    ∙ ap (λ b. str_eq e.0 k || b) (contains-keys-sort k d)

keys-InOrder : (d : Dict (Dict Value)) → InOrder id_before d → InOrder str_leb (keys d)
unfolding keys
keys-InOrder [] o = tt
keys-InOrder (e ∷ []) o = tt
keys-InOrder (e ∷ f ∷ d) o = (o.0, keys-InOrder (f ∷ d) o.1)

-- Where the activation blocks can be read, the handler returns leaves in the order of their ids,
-- and an id is listed exactly when a signal of a leaf with that id fires (a glob on a changed path,
-- a keyword in the diff, or a word of the project profile), or an activated leaf stands in its
-- `escalation_from`. So the rounds of the second pass are enough.
pub activate_leaves-Activates :
    (ch : Characters) (leaves : List (Dict Value)) (diff_text : String) (env : Dict Value)
    {nodes : List Node}
    → nodes_of leaves ≡ ok nodes
    → (out : List (Dict Value)) × (activate_leaves ch leaves diff_text env ≡ ok out)
      × InOrder str_leb (ids_of out)
      × ((k : String)
          → (contains k (ids_of out) ≡ true)
            ↔ Activates
                (fired_signals ch
                  (ensure_list (get env "changed_paths"))
                  (ensure_dict (get env "project_profile"))
                  diff_text)
                nodes
                k)
unfolding activate_leaves
activate_leaves-Activates ch leaves diff_text env {nodes} read =
    let (s, returns, activated) =
      evaluate-Activates ch leaves (ensure_list (get env "changed_paths"))
        (ensure_dict (get env "project_profile")) diff_text read in
    let entries : Dict (Dict Value) = sort id_before s.leaves in
    let listed : ids_of (map (activated_leaf s) entries) ≡ keys entries =
      ids_of-activated s entries in
    (
      map (activated_leaf s) entries,
      rw returns refl,
      rw listed (
          keys-InOrder entries
            (sort-InOrder id_before (λ a b h. str_leb_total a.0 b.0 h) s.leaves)),
      λ k. rw (listed, contains-keys-sort k s.leaves, contains-keys k s.leaves) (activated k),
    )
