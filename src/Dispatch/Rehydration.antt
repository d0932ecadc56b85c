-- ===== src/Dispatch/Rehydration.antt =====
-- code_review/dispatch.py `_compact_leaf` and `_rehydrate`: the round trip of a leaf that the model
-- gives back as it was sent.
use skill_code_review.Base.{
  String, true, false, ◌||◌, Option, none, some, List, [], ◌∷◌, ◌≡◌, ◌≢◌, refl, ap, sym, ◌∙◌, inl,
  inr, arith, Bool-cases, Option-cases, take, contains, str_eq, str_eq_iff, if◌then◌else◌, Dict,
  lookup, lookup-insert, insert, keys, Distinct, update_dict, lookup-update_dict,
  lookup-update_dict-some,
}
use skill_code_review.Value.{
  Value, Items, null, str, list, item, get, as_list, elements, array, object,
}
use skill_code_review.Result.{ok}
use skill_code_review.Dispatch.Leaves.{
  heavy_leaf_keys, filter_entries, is_light, with_hint, compact_leaf, is_filled, source_of,
  over_source, rehydrate,
}
use skill_code_review.Pipeline.Encoding.{entries-of_entries}
use skill_code_review.Dispatch.Filtering.{
  filter-Distinct, lookup-filter_kept, lookup-filter_none, lookup-filter_dropped,
}

lookup-light :
    (k : String) (d : Dict Value)
    → lookup k (filter_entries is_light d)
      ≡ (if contains k heavy_leaf_keys then none else lookup k d)
unfolding lookup filter_entries
lookup-light k [] = ground arith
lookup-light k ((j, v) ∷ d) = elim (Bool-cases (str_eq j k)) [
  | inl same ↦
      let e : j ≡ k = (str_eq_iff j k).0 same in
      elim (Bool-cases (contains k heavy_leaf_keys)) [
        | inl heavy ↦ rw (e, heavy) (lookup-light k d ∙ rw heavy refl)
        | inr light ↦ rw (e, light) (rw (ap (λ i. str_eq i k) (sym e) ∙ same) refl)
      ]
  | inr differ ↦ elim (Bool-cases (contains j heavy_leaf_keys)) [
    | inl heavy ↦ rw (heavy, differ) (lookup-light k d)
    | inr light ↦ rw (light, differ) (lookup-light k d)
  ]
]

str_eq-flip : (i j : String) → str_eq i j ≡ false → str_eq j i ≡ false
str_eq-flip i j h = ground (arith, str_eq_iff i j, str_eq_iff j i)

contains-insert :
    (k j : String) (v : Value) (d : Dict Value)
    → contains k (keys (insert j v d)) ≡ (contains k (keys d) || str_eq j k)
unfolding contains keys insert
contains-insert k j v [] = ground arith
contains-insert k j v ((i, w) ∷ d) = elim (Bool-cases (str_eq i j)) [
  | inl same ↦ let e : i ≡ j = (str_eq_iff i j).0 same in rw (same, e) (ground arith)
  | inr differ ↦ rw differ (ground (arith, contains-insert k j v d))
]

pub insert-Distinct :
    (j : String) (v : Value) (d : Dict Value) → Distinct (keys d) → Distinct (keys (insert j v d))
unfolding keys insert
insert-Distinct j v [] u = (unfold contains in refl, tt)
insert-Distinct j v ((i, w) ∷ d) u = elim (Bool-cases (str_eq i j)) [
  | inl same ↦ rw same u
  | inr differ ↦
      rw differ
        (contains-insert i j v d ∙ rw (u.0, str_eq-flip i j differ) refl, insert-Distinct j v d u.1)
]

with_hint-Distinct :
    (cov : Option (List Value)) (out : Dict Value)
    → Distinct (keys out)
    → Distinct (keys (with_hint cov out))
with_hint-Distinct none out u = u
with_hint-Distinct (some []) out u = u
with_hint-Distinct (some (v ∷ cov)) out u =
    insert-Distinct "covers" (array (take 3 (v ∷ cov))) out u

compact_leaf-Distinct :
    (leaf : Dict Value) → Distinct (keys leaf) → Distinct (keys (compact_leaf leaf))
unfolding compact_leaf
compact_leaf-Distinct leaf u =
    with_hint-Distinct (as_list (get leaf "covers")) (filter_entries is_light leaf)
      (filter-Distinct is_light leaf u)

lookup-with_hint :
    (k : String) (cov : Option (List Value)) (out : Dict Value)
    → str_eq "covers" k ≡ false
    → lookup k (with_hint cov out) ≡ lookup k out
lookup-with_hint k none out differ = refl
lookup-with_hint k (some []) out differ = refl
lookup-with_hint k (some (v ∷ cov)) out differ =
    lookup-insert "covers" k (array (take 3 (v ∷ cov))) out ∙ rw differ refl

lookup-compact_leaf :
    (k : String) (leaf : Dict Value)
    → str_eq "covers" k ≡ false
    → lookup k (compact_leaf leaf) ≡ (if contains k heavy_leaf_keys then none else lookup k leaf)
unfolding compact_leaf
lookup-compact_leaf k leaf differ =
    lookup-with_hint k (as_list (get leaf "covers")) (filter_entries is_light leaf) differ
    ∙ lookup-light k leaf

-- What a leaf gets back under a key whose value the answer has, has not, or has as an empty one.
module _ (leaf c : Dict Value) (distinct : Distinct (keys c)) where
  abbrev merged : Dict Value
  merged = update_dict leaf (filter_entries is_filled c)

  merged-kept :
      (k : String) (v : Value)
      → lookup k c ≡ some v
      → is_filled k v ≡ true
      → lookup k merged ≡ some v
  merged-kept k v h filled =
      lookup-update_dict-some k (filter_entries is_filled c) leaf
        (filter-Distinct is_filled c distinct) (lookup-filter_kept is_filled k c v h filled)

  merged-absent : (k : String) → lookup k c ≡ none → lookup k merged ≡ lookup k leaf
  merged-absent k h =
      lookup-update_dict k (filter_entries is_filled c) leaf (lookup-filter_none is_filled k c h)

  merged-same : (k : String) → lookup k c ≡ lookup k leaf → lookup k merged ≡ lookup k leaf
  merged-same k h = elim (Option-cases (lookup k c)) [
    | inl absent ↦ merged-absent k absent
    | inr (v, present) ↦ elim (Bool-cases (is_filled k v)) [
      | inl filled ↦ merged-kept k v present filled ∙ (sym present ∙ h)
      | inr empty ↦
          lookup-update_dict k (filter_entries is_filled c) leaf
            (lookup-filter_dropped is_filled k c v distinct present empty)
    ]
  ]

over_source-merged :
    (leaf c : Dict Value)
    → leaf ≢ []
    → over_source (some leaf) c ≡ update_dict leaf (filter_entries is_filled c)
over_source-merged [] c h = absurd (h refl)
over_source-merged (e ∷ leaf) c h = refl

id-light :
    (leaf : Dict Value)
    → (if contains "id" heavy_leaf_keys then none else lookup "id" leaf) ≡ lookup "id" leaf
unfolding contains
id-light leaf = refl

some-entry : (leaf : Dict Value) (id : String) → lookup "id" leaf ≡ some (str id) → leaf ≢ []
unfolding lookup
some-entry [] id h e = cc
some-entry (x ∷ leaf) id h e = cc

module _ (leaf : Dict Value) (index : Dict (Dict Value)) where
  -- The pick of a leaf that came back as it was sent.
  abbrev pub echoed : Value
  echoed = array (object (compact_leaf leaf) ∷ [])

  abbrev whole : Dict Value
  whole = update_dict leaf (filter_entries is_filled (compact_leaf leaf))

  rehydrate-whole :
      (id : String)
      → lookup "id" leaf ≡ some (str id)
      → lookup id index ≡ some leaf
      → rehydrate echoed index ≡ ok (whole ∷ [])
  unfolding rehydrate source_of
  rehydrate-whole id has_id found = rw (entries-of_entries (compact_leaf leaf)) (
      rw (lookup-compact_leaf "id" leaf refl ∙ (id-light leaf ∙ has_id)) (
        rw found (
          ap (λ o. ok (o ∷ []))
            (over_source-merged leaf (compact_leaf leaf) (some-entry leaf id has_id)))))

  whole-lookup :
      (k : String)
      → Distinct (keys leaf)
      → str_eq "covers" k ≡ false
      → lookup k whole ≡ lookup k leaf
  whole-lookup k u differ = elim (Bool-cases (contains k heavy_leaf_keys)) [
    | inl heavy ↦
        merged-absent leaf (compact_leaf leaf) (compact_leaf-Distinct leaf u) k
          (lookup-compact_leaf k leaf differ ∙ rw heavy refl)
    | inr light ↦
        merged-same leaf (compact_leaf leaf) (compact_leaf-Distinct leaf u) k
          (lookup-compact_leaf k leaf differ ∙ rw light refl)
  ]

  -- A leaf that is compacted for the prompt and comes back in the answer as it was sent is whole again
  -- behind the rehydration: every entry is that of the source, but for `covers`. The leaf has a text
  -- as its id, it stands under it in the index, and no key twice.
  pub rehydrate-compact_leaf :
      {id : String}
      → Distinct (keys leaf)
      → lookup "id" leaf ≡ some (str id)
      → lookup id index ≡ some leaf
      → (out : Dict Value) × (rehydrate echoed index ≡ ok (out ∷ []))
        × ((k : String) → str_eq "covers" k ≡ false → lookup k out ≡ lookup k leaf)
  rehydrate-compact_leaf {id} u has_id found =
      (whole, rehydrate-whole id has_id found, λ k differ. whole-lookup k u differ)

  -- The same leaf comes back with three of its `covers` at most: the hint that the prompt carries wins
  -- over the source, so that a leaf with more of them has lost the rest.
  pub rehydrate-covers :
      {id : String} {v : Value} {vs : Items}
      → Distinct (keys leaf)
      → lookup "id" leaf ≡ some (str id)
      → lookup id index ≡ some leaf
      → get leaf "covers" ≡ list (item v vs)
      → (out : Dict Value) × (rehydrate echoed index ≡ ok (out ∷ []))
        × (get out "covers" ≡ array (take 3 (v ∷ elements vs)))
  unfolding get compact_leaf
  rehydrate-covers {id} {v} {vs} u has_id found covers = (
    whole,
    rehydrate-whole id has_id found,
    ap (λ o. elim o as (λ _. Value) [ none ↦ null | some w ↦ w ])
        (merged-kept leaf (compact_leaf leaf) (compact_leaf-Distinct leaf u) "covers"
          (array (take 3 (v ∷ elements vs)))
          (rw covers (
            lookup-insert "covers" "covers" (array (take 3 (v ∷ elements vs)))
              (filter_entries is_light leaf)))
          refl),
  )
