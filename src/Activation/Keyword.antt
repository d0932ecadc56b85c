-- ===== src/Activation/Keyword.antt =====
-- code_review/handlers.py `_compile_keyword` and `_keyword_matches`: whole words of the diff, in
-- any case.
use skill_code_review.Base.{
  ℕ, String, Bool, true, false, ◌&&◌, ◌||◌, not, Option, none, some, List, [], ◌∷◌, leb, any,
  if◌then◌else◌,
}
use skill_code_review.Value.{Value, ensure_list, strings}
use skill_code_review.Glob.{codes}
use skill_code_review.Characters.{Characters, strip_spaces}

-- `[A-Za-z0-9]`
abbrev pub is_ascii_alnum : ℕ → Bool
is_ascii_alnum c =
    (leb b'A' c && leb c b'Z') || (leb b'a' c && leb c b'z') || (leb b'0' c && leb c b'9')

-- The character beside a match, if there is one, is no ASCII letter or digit.
abbrev pub is_edge : Option ℕ → Bool
is_edge none = true
is_edge (some c) = not (is_ascii_alnum c)

abbrev pub first : List ℕ → Option ℕ
first [] = none
first (c ∷ s) = some c

unfoldable pub last : List ℕ → Option ℕ
last [] = none
last (c ∷ []) = some c
last (c ∷ d ∷ s) = last (d ∷ s)

abbrev pub holds_at : (ℕ → Bool) → Option ℕ → Bool
holds_at test none = false
holds_at test (some c) = test c

abbrev pub right_fits : Bool → Option (List ℕ) → Bool
right_fits guarded none = false
right_fits guarded (some rest) = not guarded || is_edge (first rest)

module _ (ch : Characters) where
  -- Whether the pattern guards its left and its right end: `norm[:1].isalnum()` and
  -- `norm[-1:].isalnum()`.
  abbrev pub guards_left : List ℕ → Bool
  guards_left norm = holds_at ch.is_alnum (first norm)

  unfoldable pub guards_right : List ℕ → Bool
  unfolding last
  guards_right norm = holds_at ch.is_alnum (last norm)

  -- The escaped keyword at the start of the text, with what is behind it.
  unfoldable pub begins_with : List ℕ → List ℕ → Option (List ℕ)
  begins_with [] s = some s
  begins_with (k ∷ norm) [] = none
  begins_with (k ∷ norm) (c ∷ s) = if ch.same_letter k c then begins_with norm s else none

  -- The compiled pattern at a place of the text, with the character `before` it.
  unfoldable pub matches_at : List ℕ → Option ℕ → List ℕ → Bool
  unfolding begins_with guards_right
  matches_at norm before s =
      (not (guards_left norm) || is_edge before)
      && right_fits (guards_right norm) (begins_with norm s)

  unfoldable pub search_from : List ℕ → Option ℕ → List ℕ → Bool
  unfolding matches_at
  search_from norm before [] = matches_at norm before []
  search_from norm before (c ∷ s) = matches_at norm before (c ∷ s) || search_from norm (some c) s

  -- `_compile_keyword(norm).search(text)`
  unfoldable pub search_keyword : List ℕ → List ℕ → Bool
  unfolding search_from
  search_keyword norm text = search_from norm none text

  abbrev pub nonempty_search : List ℕ → List ℕ → Bool
  nonempty_search [] text = false
  nonempty_search (k ∷ norm) text = search_keyword (k ∷ norm) text

  abbrev pub any_keyword : List String → List ℕ → Bool
  any_keyword keywords [] = false
  any_keyword keywords (c ∷ text) =
      any (λ kw. nonempty_search (strip_spaces ch (codes kw)) (c ∷ text)) keywords

  -- `_keyword_matches`; keywords that are no texts are passed over.
  unfoldable pub keyword_matches : Value → String → Bool
  unfolding strip_spaces search_keyword
  keyword_matches keywords diff_text =
      any_keyword (strings (ensure_list keywords)) (codes diff_text)
