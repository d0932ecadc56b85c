-- ===== src/Activation/Words.antt =====
-- code_review/handlers.py `_compile_keyword`: the search against its description, a whole word of
-- the text in any case.
use skill_code_review.Base.{ℕ, true, Option, List, [], ◌∷◌, ◌++◌, ◌≡◌}
use skill_code_review.Characters.{Characters}
use skill_code_review.Activation.Keyword.{is_edge, first, last, guards_left, guards_right}

-- The last character of `front`, or else the one before it.
abbrev behind : Option ℕ → List ℕ → Option ℕ
behind before [] = before
behind before (c ∷ front) = last (c ∷ front)

module _ (ch : Characters) where
  -- Two words whose characters match one by one.
  abbrev pub SameWord : List ℕ → List ℕ → Type 0
  SameWord [] [] = Unit
  SameWord [] (c ∷ word) = ⊥
  SameWord (k ∷ norm) [] = ⊥
  SameWord (k ∷ norm) (c ∷ word) = (ch.same_letter k c ≡ true) × SameWord norm word

  -- The text holds the keyword, with no letter or digit beside an end that is one.
  pub record Occurs (norm text : List ℕ) : Type 0 where
    pub before : List ℕ
    pub word : List ℕ
    pub after : List ℕ
    pub cut : text ≡ before ++ (word ++ after)
    pub same : SameWord norm word
    pub left_edge : guards_left ch norm ≡ true → is_edge (last before) ≡ true
    pub right_edge : guards_right ch norm ≡ true → is_edge (first after) ≡ true

  -- What the search looks for behind the character `before`.
  abbrev OccursAfter : List ℕ → Option ℕ → List ℕ → Type 0
  OccursAfter norm before s =
      (front : List ℕ) × (word : List ℕ) × (after : List ℕ) × (s ≡ front ++ (word ++ after))
      × SameWord norm word
      × (guards_left ch norm ≡ true → is_edge (behind before front) ≡ true)
      × (guards_right ch norm ≡ true → is_edge (first after) ≡ true)
