-- ===== src/Pipeline/Union.antt =====
-- code_review/handlers.py `handle_merge_specialist_outputs`: the files that the merge of a full set
-- of outputs has, and how many they are.
use skill_code_review.Base.{
  String, Bool, ◌&&◌, ◌||◌, List, [], ◌∷◌, ◌++◌, ◌≡◌, refl, arith, map, any, All, some, Dict,
  lookup, Bool-cases, inl, inr, contains, update, contains-update, Distinct, update-Distinct,
}
use skill_code_review.Value.{Value, str, get, as_dict}
use skill_code_review.Result.{ok, iterate}
use skill_code_review.Planner.{WorkUnit}
use skill_code_review.Merger.{
  merge_unit, Key, eq_key, Outputs, Merged, add_files, is_unit, merge_units, stamp_id,
}
use skill_code_review.Pipeline.{unit_fields, unit_key}
use skill_code_review.Pipeline.Encoding.{strings-map, elements-of_elements}

-- The file stands in one of the units with the key.
abbrev pub in_units : String → Key → List WorkUnit → Bool
in_units f k us = any (λ u. eq_key (unit_key u) k && contains f u.files) us

is_unit-unit_fields : (k : Key) (u : WorkUnit) → is_unit k (unit_fields u) ≡ eq_key (unit_key u) k
unfolding is_unit unit_fields get lookup
is_unit-unit_fields k u = refl

add_files-map :
    (k : Key) (us : List WorkUnit) (s : List String)
    → Distinct s
    → (t : List String) × (add_files k (map unit_fields us) s ≡ ok t)
      × Distinct t
      × ((f : String) → contains f t ≡ (contains f s || in_units f k us))
unfolding add_files unit_fields get lookup iterate
add_files-map k [] s d = (s, refl, d, λ f. ground arith)
add_files-map k (u ∷ us) s d = elim (Bool-cases (eq_key (unit_key u) k)) [
  | inl here ↦
      let added = update s u.files in
      let (t, e, dt, c) = add_files-map k us added (update-Distinct s u.files d) in
      (
        t,
        rw
            (
              is_unit-unit_fields k u,
              here,
              elements-of_elements (map str u.files),
              strings-map u.files,
            )
            e,
        dt,
        λ g. ground (arith, c g, contains-update g s u.files, here),
      )
  | inr other ↦
      let (t, e, dt, c) = add_files-map k us s d in
      (t, rw (is_unit-unit_fields k u, other) e, dt, λ g. ground (arith, c g, other))
]

-- An output that the merger takes up.
abbrev pub HasOutput : Dict Value → Type 0
HasOutput d = (out : Dict Value) × (as_dict (get d "specialist_output") ≡ some out)

-- The file stands in a unit with the key of one of the outputs.
abbrev pub covered : List WorkUnit → Outputs → String → Bool
covered us outs f = any (λ o. in_units f o.0 us) outs

pub merge_units-map :
    (us : List WorkUnit) (outs : Outputs) (m : Merged)
    → All (λ o. HasOutput o.1) outs
    → Distinct m.union_files
    → (n : Merged) × (merge_units (map unit_fields us) outs m ≡ ok n)
      × Distinct n.union_files
      × ((f : String) → contains f n.union_files ≡ (contains f m.union_files || covered us outs f))
unfolding merge_units merge_unit
merge_units-map us [] m h d = (m, refl, d, λ f. ground arith)
merge_units-map us ((k, unit_out) ∷ outs) m ((out, has), h) d =
    let (t, e, dt, c) = add_files-map k us m.union_files d in
    let (n, q, dn, cn) =
      merge_units-map us outs
        (record {
          specialist_outputs = m.specialist_outputs ++ stamp_id k.0 out ∷ [];
          pending_writes =
              m.pending_writes ++ record { key = k; iter_n = get unit_out "__iter_n" } ∷ [];
          union_files = t;
        })
        h dt in
    (n, rw (has, e) q, dn, λ f. ground (arith, cn f, c f))
