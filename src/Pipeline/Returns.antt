-- ===== src/Pipeline/Returns.antt =====
-- code_review/handlers.py and code_review/runner.py: the merge of what the loop has run over the
-- planner's batches.
use skill_code_review.Base.{
  ℕ, suc, ◌≤◌, String, true, false, List, [], ◌∷◌, ◌≡◌, refl, sym, ap, ◌∙◌, arith, map, All, Option,
  none, some, Dict, lookup, insert, lookup-insert, Bool-cases, inl, inr, length, contains, str_eq,
  str_eq_iff, str_eq_refl, Distinct, if◌then◌else◌,
}
use skill_code_review.Value.{Value, get, as_dict, object, null, ensure_list}
use skill_code_review.Planner.{WorkUnit, Batch}
use skill_code_review.Merger.{Key, eq_key, Outputs, put, put_at, put_outputs, dedupe, key_of}
use skill_code_review.Pipeline.{unit_output, iteration, loop_iters}
use skill_code_review.Pipeline.Encoding.{elements-of_elements, dicts-map}
use skill_code_review.Pipeline.Union.{HasOutput}

abbrev pub AllOutputs : Outputs → Type 0
AllOutputs outs = All (λ o. HasOutput o.1) outs

put-AllOutputs :
    (k : Key) (d : Dict Value) (outs : Outputs)
    → HasOutput d
    → AllOutputs outs
    → AllOutputs (put k d outs)
unfolding put
put-AllOutputs k d [] h hs = (h, tt)
put-AllOutputs k d ((j, old) ∷ outs) h hs = elim (Bool-cases (eq_key j k)) [
  | inl same ↦ rw same (h, hs.1)
  | inr differ ↦ rw differ (hs.0, put-AllOutputs k d outs h hs.1)
]

HasOutput-insert : (v : Value) (d : Dict Value) → HasOutput d → HasOutput (insert "__iter_n" v d)
unfolding get
HasOutput-insert v d (out, e) = (
  out,
  ap (λ o. as_dict (elim o [ none ↦ null | some w ↦ w ]))
        (lookup-insert "__iter_n" "specialist_output" v d)
      ∙ e,
)

unit_output-HasOutput : (results : Outputs) (u : WorkUnit) → HasOutput (unit_output results u)
unfolding unit_output get lookup
unit_output-HasOutput results u = (_, refl)

put_outputs-AllOutputs :
    (results : Outputs) (n : ℕ) (us : List WorkUnit) (outs : Outputs)
    → AllOutputs outs
    → AllOutputs (put_outputs n (map (unit_output results) us) outs)
unfolding put_outputs
put_outputs-AllOutputs results n [] outs h = h
put_outputs-AllOutputs results n (u ∷ us) outs h =
    put_outputs-AllOutputs results n us _ (one_more (key_of (unit_output results u)))
  where
    one_more : (o : Option Key) → AllOutputs (put_at o n (unit_output results u) outs)
    one_more none = h
    one_more (some k) =
        put-AllOutputs k _ outs (HasOutput-insert _ _ (unit_output-HasOutput results u)) h

pub dedupe-AllOutputs :
    (results : Outputs) (total n m : ℕ) (batches : List Batch) (outs : Outputs)
    → AllOutputs outs
    → AllOutputs (dedupe m (loop_iters results total n batches) outs)
unfolding dedupe loop_iters iteration get lookup ensure_list
dedupe-AllOutputs results total n m [] outs h = h
dedupe-AllOutputs results total n m (b ∷ batches) outs h =
    dedupe-AllOutputs results total (suc n) (suc m) batches _ (
      rw
        (
          elements-of_elements (map (λ u. object (unit_output results u)) b.units),
          dicts-map (unit_output results) b.units,
        )
        (put_outputs-AllOutputs results m b.units outs h))

-- `ys` without one `x`.
abbrev remove : String → List String → List String
remove x [] = []
remove x (y ∷ ys) = let rest = remove x ys in if str_eq y x then ys else y ∷ rest

length-remove :
    (x : String) (ys : List String) → contains x ys ≡ true → length ys ≡ suc (length (remove x ys))
unfolding contains
length-remove x [] h = cc
length-remove x (y ∷ ys) h = elim (Bool-cases (str_eq y x)) [
  | inl here ↦ rw here refl
  | inr later ↦ rw later (ap suc (length-remove x ys (ground (arith, h, later))))
]

contains-remove :
    (x k : String) (ys : List String)
    → str_eq x k ≡ false
    → contains k (remove x ys) ≡ contains k ys
unfolding contains
contains-remove x k [] h = refl
contains-remove x k (y ∷ ys) h = elim (Bool-cases (str_eq y x)) [
  | inl here ↦
      let e : str_eq y k ≡ false = ap (λ i. str_eq i k) ((str_eq_iff y x).0 here) ∙ h in
      rw (here, e) refl
  | inr later ↦ rw (later, contains-remove x k ys h) refl
]

-- A list without repetitions is at most as long as one that holds all its texts.
pub Distinct-length :
    (xs ys : List String)
    → Distinct xs
    → ((k : String) → contains k xs ≡ true → contains k ys ≡ true)
    → length xs ≤ length ys
unfolding contains
Distinct-length [] ys d h = omega arith
Distinct-length (x ∷ xs) ys d h = omega (
  arith,
  length-remove x ys (h x (rw (str_eq_refl x) refl)),
  Distinct-length xs (remove x ys) d.1 (λ k m. elim (Bool-cases (str_eq x k)) [
    | inl same ↦
        let new : contains k xs ≡ false =
          ap (λ i. contains i xs) (sym ((str_eq_iff x k).0 same)) ∙ d.0 in
        cc
    | inr differ ↦ contains-remove x k ys differ ∙ h k (ground (arith, m))
  ]),
)
