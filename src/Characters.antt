-- ===== src/Characters.antt =====
-- What code_review/ asks of Python's character database and of `re.IGNORECASE`, as arguments, and
-- `str.strip` on code points.
use skill_code_review.Base.{ℕ, String, Bool, List, [], ◌∷◌, if◌then◌else◌}

pub record Characters : Type 0 where
  -- `str.isspace` and `str.isalnum` of one character.
  pub is_space : ℕ → Bool
  pub is_alnum : ℕ → Bool
  -- Whether a character of a pattern matches one of the text under `re.IGNORECASE`.
  pub same_letter : ℕ → ℕ → Bool
  -- `str.lower`
  pub lower : String → String

module _ (ch : Characters) where
  -- `s.lstrip()`
  unfoldable pub strip_left : List ℕ → List ℕ
  strip_left [] = []
  strip_left (c ∷ s) = let rest = strip_left s in if ch.is_space c then rest else c ∷ s

  abbrev pub unless_space : ℕ → List ℕ → List ℕ
  unless_space c [] = if ch.is_space c then [] else c ∷ []
  unless_space c (d ∷ s) = c ∷ d ∷ s

  -- `s.rstrip()`
  unfoldable pub strip_right : List ℕ → List ℕ
  strip_right [] = []
  strip_right (c ∷ s) = unless_space c (strip_right s)

  -- `s.strip()`
  unfoldable pub strip_spaces : List ℕ → List ℕ
  unfolding strip_left strip_right
  strip_spaces s = strip_right (strip_left s)
