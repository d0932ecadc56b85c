-- ===== src/Base/Assoc.antt =====
-- Python's `dict` with text keys, in insertion order: an entry that is written again keeps its
-- place, and a new one goes to the end.
use Prim.Native.String.{String}
use mathlib.Core.Path.{◌≡◌, refl, ap, ◌∙◌, sym}
use mathlib.Core.Option.{Option, none, some}
use mathlib.Core.Logic.{inl, inr}
use mathlib.Core.Bool.{false}
use mathlib.Core.List.{List, [], ◌∷◌}
use native.Mathlib.Omega.{arith}
use skill_code_review.Base.Tests.{if◌then◌else◌, Bool-cases}
use skill_code_review.Base.Sets.{Distinct}
use skill_code_review.Base.Text.{str_eq, str_eq_iff, contains}

abbrev pub Dict {ℓ} : Type ℓ → Type ℓ
Dict V = List (String × V)

module _ {ℓ} {V : Type ℓ} where
  unfoldable pub lookup : String → Dict V → Option V
  lookup k [] = none
  lookup k ((j, v) ∷ d) = if str_eq j k then some v else lookup k d

  -- `d[k] = v`
  unfoldable pub insert : String → V → Dict V → Dict V
  insert k v [] = (k, v) ∷ []
  insert k v ((j, w) ∷ d) = if str_eq j k then (j, v) ∷ d else (j, w) ∷ insert k v d

  unfoldable pub keys : Dict V → List String
  keys [] = []
  keys ((k, v) ∷ d) = k ∷ keys d

  unfoldable pub values : Dict V → List V
  values [] = []
  values ((k, v) ∷ d) = v ∷ values d

  pub lookup-insert :
      (k j : String) (v : V) (d : Dict V)
      → lookup j (insert k v d) ≡ (if str_eq k j then some v else lookup j d)
  unfolding lookup insert
  lookup-insert k j v [] = refl
  lookup-insert k j v ((i, w) ∷ d) =
      ground (arith, str_eq_iff k j, str_eq_iff i k, str_eq_iff i j, lookup-insert k j v d)

  -- `d.update(e)`
  abbrev pub update_dict : Dict V → Dict V → Dict V
  update_dict d [] = d
  update_dict d ((k, v) ∷ e) = update_dict (insert k v d) e

  pub lookup-update_dict :
      (k : String) (e d : Dict V) → lookup k e ≡ none → lookup k (update_dict d e) ≡ lookup k d
  unfolding lookup
  lookup-update_dict k [] d h = refl
  lookup-update_dict k ((j, v) ∷ e) d h = elim (Bool-cases (str_eq j k)) [
    | inl same ↦ let q : some v ≡ none = (rw same at h) in cc
    | inr differ ↦
        lookup-update_dict k e (insert j v d) (rw differ at h)
        ∙ (lookup-insert j k v d ∙ rw differ refl)
  ]

  pub lookup-absent : (k : String) (d : Dict V) → contains k (keys d) ≡ false → lookup k d ≡ none
  unfolding lookup keys contains
  lookup-absent k [] h = refl
  lookup-absent k ((j, v) ∷ d) h = ground (arith, lookup-absent k d)

  -- What is updated wins, if no key stands in it twice.
  pub lookup-update_dict-some :
      (k : String) (e d : Dict V) {v : V}
      → Distinct (keys e)
      → lookup k e ≡ some v
      → lookup k (update_dict d e) ≡ some v
  unfolding lookup keys
  lookup-update_dict-some k [] d u h = cc
  lookup-update_dict-some k ((j, w) ∷ e) d {v} u h = elim (Bool-cases (str_eq j k)) [
    | inl same ↦
        let j_is_k : j ≡ k = (str_eq_iff j k).0 same in
        let w_is_v : some w ≡ some v = (rw same at h) in
        let gone : contains k (keys e) ≡ false = ap (λ i. contains i (keys e)) (sym j_is_k) ∙ u.0 in
        lookup-update_dict k e (insert j w d) (lookup-absent k e gone)
        ∙ (lookup-insert j k w d ∙ rw same w_is_v)
    | inr differ ↦ lookup-update_dict-some k e (insert j w d) u.1 (rw differ at h)
  ]
