-- ===== src/Merger/Trim/Shrinking.antt =====
-- code_review/handlers.py, the aggregate-size guard: when outputs have lost nothing but findings.
use skill_code_review.Base.{
  ◌≤◌, String, Bool, Option, none, some, List, [], ◌∷◌, ◌≡◌, inl, inr, refl, ap, ◌∙◌, arith,
  if◌then◌else◌, tally, Dict, lookup, insert, lookup-insert, sort, sort_insert, str_eq, Bool-cases,
}
use skill_code_review.Value.{Value, null, get, as_list, elements, of_elements, array}
use skill_code_review.Merger.Trim.{less_severe, findings_of}

abbrev pub or_empty : Option (List Value) → List Value
or_empty none = []
or_empty (some findings) = findings

-- The findings of an output.
abbrev pub findings : Dict Value → List Value
findings out = or_empty (findings_of out)

-- A field of an output besides its findings.
abbrev pub other_field : String → Dict Value → Option Value
other_field k out = if str_eq "findings" k then none else lookup k out

-- An output has lost nothing but findings: the other fields are the same, and no finding is new.
abbrev pub Shrunk : Dict Value → Dict Value → Type 0
Shrunk out left =
    ((k : String) → other_field k left ≡ other_field k out)
    × ((p : Value → Bool) → tally p (findings left) ≤ tally p (findings out))

-- The outputs are as many, in the same order, and each has lost nothing but findings.
abbrev pub AllShrunk : List (Dict Value) → List (Dict Value) → Type 0
AllShrunk [] [] = Unit
AllShrunk [] (left ∷ lefts) = ⊥
AllShrunk (out ∷ outs) [] = ⊥
AllShrunk (out ∷ outs) (left ∷ lefts) = Shrunk out left × AllShrunk outs lefts

pub Shrunk-self : (out : Dict Value) → Shrunk out out
Shrunk-self out = (λ k. refl, λ p. omega arith)

Shrunk-trans : (a b c : Dict Value) → Shrunk a b → Shrunk b c → Shrunk a c
Shrunk-trans a b c (f, g) (h, i) = (λ k. h k ∙ f k, λ p. omega (arith, g p, i p))

pub AllShrunk-self : (outs : List (Dict Value)) → AllShrunk outs outs
AllShrunk-self [] = tt
AllShrunk-self (out ∷ outs) = (Shrunk-self out, AllShrunk-self outs)

pub AllShrunk-trans :
    (xs ys zs : List (Dict Value)) → AllShrunk xs ys → AllShrunk ys zs → AllShrunk xs zs
AllShrunk-trans [] [] zs h i = i
AllShrunk-trans [] (y ∷ ys) zs h i = absurd h
AllShrunk-trans (x ∷ xs) [] zs h i = absurd h
AllShrunk-trans (x ∷ xs) (y ∷ ys) [] h i = absurd i
AllShrunk-trans (x ∷ xs) (y ∷ ys) (z ∷ zs) h i =
    (Shrunk-trans x y z h.0 i.0, AllShrunk-trans xs ys zs h.1 i.1)

tally-sort_insert :
    (p : Value → Bool) (f : Value) (fs : List Value)
    → tally p (sort_insert less_severe f fs) ≡ tally p (f ∷ fs)
unfolding sort_insert
tally-sort_insert p f [] = refl
tally-sort_insert p f (g ∷ fs) = elim (Bool-cases (less_severe f g)) [
  | inl first ↦ rw first refl
  | inr later ↦ rw later (omega (arith, tally-sort_insert p f fs))
]

pub tally-sort : (p : Value → Bool) (fs : List Value) → tally p (sort less_severe fs) ≡ tally p fs
unfolding sort
tally-sort p [] = refl
tally-sort p (f ∷ fs) = omega (arith, tally-sort_insert p f (sort less_severe fs), tally-sort p fs)

elements-of_elements : (vs : List Value) → elements (of_elements vs) ≡ vs
elements-of_elements [] = refl
elements-of_elements (v ∷ vs) = ap (λ r. v ∷ r) (elements-of_elements vs)

pub findings-insert :
    (vs : List Value) (out : Dict Value) → findings (insert "findings" (array vs) out) ≡ vs
unfolding get
findings-insert vs out =
    ap (λ o. or_empty (as_list (elim o [ none ↦ null | some v ↦ v ])))
      (lookup-insert "findings" "findings" (array vs) out)
    ∙ elements-of_elements vs

pub other_field-insert :
    (k : String) (v : Value) (out : Dict Value)
    → other_field k (insert "findings" v out) ≡ other_field k out
other_field-insert k v out = elim (Bool-cases (str_eq "findings" k)) [
  | inl same ↦ rw same refl
  | inr differ ↦ rw (differ, lookup-insert "findings" k v out, differ) refl
]
