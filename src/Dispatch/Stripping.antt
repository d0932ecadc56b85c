-- ===== src/Dispatch/Stripping.antt =====
-- code_review/dispatch.py `_strip_nulls`: what is left under a key of a dict.
use skill_code_review.Base.{
  String, false, Option, none, some, [], ◌∷◌, ◌≡◌, ◌∙◌, refl, sym, ap, inl, inr, Bool-cases, Dict,
  lookup, keys, contains, str_eq, str_eq_iff, Distinct, lookup-absent,
}
use skill_code_review.Value.{
  Value, Fields, null, bool, int, float, str, list, dict, end, field, entries, of_entries,
}
use skill_code_review.Dispatch.Nulls.{strip_nulls, strip_fields}

pub of_entries-entries : (fs : Fields) → of_entries (entries fs) ≡ fs
of_entries-entries end = refl
of_entries-entries (field k v fs) = ap (λ r. field k v r) (of_entries-entries fs)

-- What is left under a key: nothing of a null.
abbrev pub kept : Option Value → Option Value
kept none = none
kept (some null) = none
kept (some v) = some (strip_nulls v)

lookup-field :
    (k j : String) (v w : Value) (rest clean_rest : Dict Value)
    → kept (some v) ≡ some w
    → lookup k clean_rest ≡ kept (lookup k rest)
    → lookup k ((j, w) ∷ clean_rest) ≡ kept (lookup k ((j, v) ∷ rest))
unfolding lookup
lookup-field k j v w rest clean_rest h later = elim (Bool-cases (str_eq j k)) [
  | inl same ↦ rw same (sym h)
  | inr differ ↦ rw differ later
]

pub lookup-strip_fields :
    (k : String) (d : Dict Value)
    → Distinct (keys d)
    → lookup k (entries (strip_fields (of_entries d))) ≡ kept (lookup k d)
unfolding lookup strip_fields keys
lookup-strip_fields k [] u = refl
lookup-strip_fields k ((j, null) ∷ d) u = elim (Bool-cases (str_eq j k)) [
  | inl same ↦
      let gone : contains k (keys d) ≡ false = (rw ((str_eq_iff j k).0 same) at u.0) in
      lookup-strip_fields k d u.1 ∙ rw (lookup-absent k d gone) (rw same refl)
  | inr differ ↦ lookup-strip_fields k d u.1 ∙ rw differ refl
]
lookup-strip_fields k ((j, bool b) ∷ d) u =
    lookup-field k j _ _ d _ refl (lookup-strip_fields k d u.1)
lookup-strip_fields k ((j, int n) ∷ d) u =
    lookup-field k j _ _ d _ refl (lookup-strip_fields k d u.1)
lookup-strip_fields k ((j, float f) ∷ d) u =
    lookup-field k j _ _ d _ refl (lookup-strip_fields k d u.1)
lookup-strip_fields k ((j, str s) ∷ d) u =
    lookup-field k j _ _ d _ refl (lookup-strip_fields k d u.1)
lookup-strip_fields k ((j, list vs) ∷ d) u =
    lookup-field k j _ _ d _ refl (lookup-strip_fields k d u.1)
lookup-strip_fields k ((j, dict fs) ∷ d) u =
    lookup-field k j _ _ d _ refl (lookup-strip_fields k d u.1)
