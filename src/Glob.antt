-- ===== src/Glob.antt =====
-- code_review/handlers.py: `_compile_glob` and `_minimatch`, the glob grammar that decides which
-- changed files a reviewer leaf is about. Texts are lists of code points.
pub mod Meaning
use Prim.Native.Char.{code}
use Prim.Native.String
use skill_code_review.Base.{
  ℕ, zero, suc, ◌+◌, String, Bool, true, false, ◌&&◌, ◌||◌, not, Option, none, some, List, [], ◌∷◌,
  ◌++◌, ◌==◌, length, take, any, if◌then◌else◌,
}

-- The code points of a text.
abbrev pub codes : String → List ℕ
codes String.[] = []
codes (String.◌∷◌ c s) = code c ∷ codes s

-- The parts of the pattern that `_compile_glob` joins, in the order of its branches:
-- `(?:.*/)?`, `.*`, `[^/]*`, `[^/]`, `(?:a|b)` and one escaped character.
pub data Piece : Type 0 where
  any_dirs anything segment one_char : Piece
  choice : List (List ℕ) → Piece
  literal : ℕ → Piece

-- `glob[i + k : i + k + 1] == ch` for the text behind position `i`.
abbrev pub is_next : ℕ → List ℕ → Bool
is_next ch [] = false
is_next ch (c ∷ rest) = c == ch

abbrev pub is_second : ℕ → List ℕ → Bool
is_second ch [] = false
is_second ch (c ∷ rest) = is_next ch rest

-- `glob.find("}", i)`, counted from the character behind `{`.
unfoldable pub find_close : List ℕ → Option ℕ
find_close [] = none
find_close (c ∷ rest) = elim (c == b'}') [
  | true ↦ some 0
  | false ↦ elim (find_close rest) [ none ↦ none | some n ↦ some (suc n) ]
]

-- The parts of a split, with one more character in front.
abbrev pub onto_first : Bool → ℕ → List (List ℕ) → List (List ℕ)
onto_first true c parts = [] ∷ parts
onto_first false c [] = (c ∷ []) ∷ []
onto_first false c (p ∷ parts) = (c ∷ p) ∷ parts

-- `text.split(",")`
unfoldable pub split_commas : List ℕ → List (List ℕ)
split_commas [] = [] ∷ []
split_commas (c ∷ rest) = onto_first (c == b',') c (split_commas rest)

-- One round of the loop at the character `ch` with `rest` behind it: the part that is appended,
-- and how many characters `i` moves over besides `ch`.
unfoldable pub next_piece : ℕ → List ℕ → Piece × ℕ
unfolding find_close split_commas
next_piece ch rest =
    if ch == b'*' && is_next b'*' rest && is_second b'/' rest
    then (any_dirs, 2)
    else if ch == b'*' && is_next b'*' rest
    then (anything, 1)
    else if ch == b'*'
    then (segment, 0)
    else if ch == b'?'
    then (one_char, 0)
    else if ch == b'{'
    then elim (find_close rest) [
      | none ↦ (literal ch, 0)
      | some close ↦ (choice (split_commas (take close rest)), suc close)
    ]
    else (literal ch, 0)

-- The loop `while i < len(glob)`; `skip` is what the last rounds have moved `i` over.
unfoldable pub compile : ℕ → List ℕ → List Piece
unfolding next_piece
compile skip [] = []
compile (suc skip) (ch ∷ rest) = compile skip rest
compile zero (ch ∷ rest) = let (p, skip) = next_piece ch rest in p ∷ compile skip rest

-- `text[len(alt):]` where `text` starts with `alt`.
unfoldable pub strip : List ℕ → List ℕ → Option (List ℕ)
strip [] s = some s
strip (a ∷ alt) [] = none
strip (a ∷ alt) (c ∷ s) = if a == c then strip alt s else none

abbrev pub not_newline : ℕ → Bool
not_newline c = not (c == 10)

abbrev pub not_slash : ℕ → Bool
not_slash c = not (c == b'/')

-- `X*` for a class of characters, before what `k` accepts.
unfoldable pub star : (ℕ → Bool) → (List ℕ → Bool) → List ℕ → Bool
star ok k [] = k []
star ok k (c ∷ s) = k (c ∷ s) || (ok c && star ok k s)

-- `.*/`
unfoldable pub to_slash : (List ℕ → Bool) → List ℕ → Bool
to_slash k [] = false
to_slash k (c ∷ s) = (c == b'/' && k s) || (not_newline c && to_slash k s)

abbrev pub behind : (List ℕ → Bool) → Option (List ℕ) → Bool
behind k none = false
behind k (some s) = k s

-- `(?:a|b)`
unfoldable pub one_of : (List ℕ → Bool) → List (List ℕ) → List ℕ → Bool
one_of k [] s = false
one_of k (alt ∷ alts) s = behind k (strip alt s) || one_of k alts s

unfoldable pub one : (ℕ → Bool) → (List ℕ → Bool) → List ℕ → Bool
one ok k [] = false
one ok k (c ∷ s) = ok c && k s

unfoldable pub piece : Piece → (List ℕ → Bool) → List ℕ → Bool
unfolding star to_slash one_of one strip
piece any_dirs k s = k s || to_slash k s
piece anything k s = star not_newline k s
piece segment k s = star not_slash k s
piece one_char k s = one not_slash k s
piece (choice alts) k s = one_of k alts s
piece (literal ch) k s = one (λ c. c == ch) k s

abbrev pub is_nil : List ℕ → Bool
is_nil [] = true
is_nil (c ∷ s) = false

-- Whether the whole of a text fits the pieces: what `re` decides between `^` and `$`. `.` does not
-- match a newline, `[^/]` does.
unfoldable pub accepts : List Piece → List ℕ → Bool
unfolding piece
accepts [] s = is_nil s
accepts (p ∷ ps) s = piece p (accepts ps) s

-- The text without a last newline, before which `$` matches too.
unfoldable pub chomp : List ℕ → Option (List ℕ)
chomp [] = none
chomp (c ∷ []) = if c == 10 then some [] else none
chomp (c ∷ d ∷ s) = elim (chomp (d ∷ s)) [ none ↦ none | some r ↦ some (c ∷ r) ]

unfoldable pub minimatch_codes : List ℕ → List ℕ → Bool
unfolding compile accepts chomp
minimatch_codes path glob =
    let ps = compile 0 glob in accepts ps path || behind (accepts ps) (chomp path)

-- `_minimatch(path, glob)`
unfoldable pub minimatch : String → String → Bool
unfolding minimatch_codes
minimatch path glob = minimatch_codes (codes path) (codes glob)
