-- ===== src/Glob/Meaning.antt =====
-- code_review/handlers.py `_compile_glob`: what a compiled pattern means, stated without the
-- search, and the proof that the search decides it.
use skill_code_review.Base.{ℕ, Bool, true, List, [], ◌∷◌, ◌++◌, ◌≡◌, ◌⊎◌, All}
use skill_code_review.Glob.{
  Piece, any_dirs, anything, segment, one_char, choice, literal, not_slash, not_newline,
}

abbrev Is : (ℕ → Bool) → ℕ → Type 0
Is ok c = ok c ≡ true

abbrev pub OneOf : List ℕ → List (List ℕ) → Type 0
OneOf a [] = ⊥
OneOf a (alt ∷ alts) = (a ≡ alt) ⊎ OneOf a alts

-- What one part of a pattern matches.
abbrev pub Fits : Piece → List ℕ → Type 0
Fits any_dirs a = (a ≡ []) ⊎ ((b : List ℕ) × (a ≡ b ++ b'/' ∷ []) × All (Is not_newline) b)
Fits anything a = All (Is not_newline) a
Fits segment a = All (Is not_slash) a
Fits one_char a = (c : ℕ) × (a ≡ c ∷ []) × Is not_slash c
Fits (choice alts) a = OneOf a alts
Fits (literal ch) a = a ≡ ch ∷ []

-- A text matches a pattern when it is cut into parts that match the parts of the pattern.
pub data Matches : List Piece → List ℕ → Type 0 where
  done : Matches [] []
  next :
      {p : Piece} {ps : List Piece} (a : List ℕ) {b s : List ℕ}
      → Fits p a
      → Matches ps b
      → s ≡ a ++ b
      → Matches (p ∷ ps) s

-- A cut of `s` into what `P` holds of and what `k` accepts.
abbrev Cut : (List ℕ → Type 0) → (List ℕ → Bool) → List ℕ → Type 0
Cut P k s = (a : List ℕ) × (b : List ℕ) × (s ≡ a ++ b) × P a × (k b ≡ true)
