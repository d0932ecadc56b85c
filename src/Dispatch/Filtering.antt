-- ===== src/Dispatch/Filtering.antt =====
-- code_review/dispatch.py: what a dict comprehension with a test leaves of a leaf.
use skill_code_review.Base.{
  String, Bool, true, false, Option, none, some, some-injective, [], ◌∷◌, ◌≡◌, refl, ap, sym, ◌∙◌,
  inl, inr, arith, Bool-cases, contains, str_eq, str_eq_iff, Dict, lookup, keys, Distinct,
  lookup-absent,
}
use skill_code_review.Value.{Value}
use skill_code_review.Dispatch.Leaves.{filter_entries}

module _ (p : String → Value → Bool) where
  -- A filter adds no key.
  contains-filter :
      (k : String) (d : Dict Value)
      → contains k (keys d) ≡ false
      → contains k (keys (filter_entries p d)) ≡ false
  unfolding contains keys filter_entries
  contains-filter k [] h = refl
  contains-filter k ((j, v) ∷ d) h = elim (Bool-cases (p j v)) [
    | inl kept ↦ rw kept (ground (arith, contains-filter k d))
    | inr dropped ↦ rw dropped (contains-filter k d (ground arith))
  ]

  pub filter-Distinct : (d : Dict Value) → Distinct (keys d) → Distinct (keys (filter_entries p d))
  unfolding keys filter_entries
  filter-Distinct [] u = tt
  filter-Distinct ((j, v) ∷ d) u = elim (Bool-cases (p j v)) [
    | inl kept ↦ rw kept (contains-filter j d u.0, filter-Distinct d u.1)
    | inr dropped ↦ rw dropped (filter-Distinct d u.1)
  ]

  -- An entry with another key makes no difference.
  skip-lookup :
      (k j : String) (w : Value) (d : Dict Value) (o : Option Value)
      → str_eq j k ≡ false
      → lookup k (filter_entries p d) ≡ o
      → lookup k (filter_entries p ((j, w) ∷ d)) ≡ o
  unfolding lookup filter_entries
  skip-lookup k j w d o differ h = elim (Bool-cases (p j w)) [
    | inl kept ↦ rw (kept, differ) h
    | inr dropped ↦ rw dropped h
  ]

  pub lookup-filter_kept :
      (k : String) (d : Dict Value) (v : Value)
      → lookup k d ≡ some v
      → p k v ≡ true
      → lookup k (filter_entries p d) ≡ some v
  unfolding lookup filter_entries
  lookup-filter_kept k [] v h kept = cc
  lookup-filter_kept k ((j, w) ∷ d) v h kept = elim (Bool-cases (str_eq j k)) [
    | inl same ↦
        let e : j ≡ k = (str_eq_iff j k).0 same in
        let wv : w ≡ v = some-injective (rw same at h) in
        let kept' : p j w ≡ true = (rw (e, wv) kept) in rw kept' (rw same (ap (λ x. some x) wv))
    | inr differ ↦
        skip-lookup k j w d (some v) differ (lookup-filter_kept k d v (rw differ at h) kept)
  ]

  pub lookup-filter_none :
      (k : String) (d : Dict Value) → lookup k d ≡ none → lookup k (filter_entries p d) ≡ none
  unfolding lookup filter_entries
  lookup-filter_none k [] h = refl
  lookup-filter_none k ((j, w) ∷ d) h = elim (Bool-cases (str_eq j k)) [
    | inl same ↦ let q : some w ≡ none = (rw same at h) in cc
    | inr differ ↦ skip-lookup k j w d none differ (lookup-filter_none k d (rw differ at h))
  ]

  pub lookup-filter_dropped :
      (k : String) (d : Dict Value) (v : Value)
      → Distinct (keys d)
      → lookup k d ≡ some v
      → p k v ≡ false
      → lookup k (filter_entries p d) ≡ none
  unfolding lookup filter_entries keys
  lookup-filter_dropped k [] v u h dropped = cc
  lookup-filter_dropped k ((j, w) ∷ d) v u h dropped = elim (Bool-cases (str_eq j k)) [
    | inl same ↦
        let e : j ≡ k = (str_eq_iff j k).0 same in
        let wv : w ≡ v = some-injective (rw same at h) in
        let dropped' : p j w ≡ false = (rw (e, wv) dropped) in
        let gone : contains k (keys d) ≡ false = ap (λ i. contains i (keys d)) (sym e) ∙ u.0 in
        rw dropped' (lookup-filter_none k d (lookup-absent k d gone))
    | inr differ ↦
        skip-lookup k j w d none differ (lookup-filter_dropped k d v u.1 (rw differ at h) dropped)
  ]
