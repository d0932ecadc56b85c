-- ===== src/Triage/Patterns.antt =====
-- code_review/handlers.py `_RISK_KEYWORDS`, `_build_high_risk_patterns` and the body of the loop of
-- `_detect_risk_signals`: the signals that one changed path gives.
use Prim.Native.String.{◌++◌ as ◌<>◌}
use skill_code_review.Base.{
  ℕ, ◌+◌, String, Bool, true, false, ◌&&◌, ◌||◌, not, none, some, List, [], ◌∷◌, ◌++◌, leb, ◌==◌,
  if◌then◌else◌, any, flat_map,
}
use skill_code_review.Glob.{codes, strip}

abbrev pub risk_keywords : List String
risk_keywords =
    "auth" ∷ "crypto" ∷ "secret" ∷ "password" ∷ "token" ∷ "infra" ∷ "deploy" ∷ "migration"
    ∷ "migrate" ∷ "iam" ∷ "rbac" ∷ "oauth" ∷ "jwt" ∷ "session" ∷ "key" ∷ "tls" ∷ "ssl" ∷ "cert"
    ∷ "kms" ∷ "vault" ∷ []

-- What a pattern asks of the text behind its words: nothing, `$`, or `($|\.|/)`.
pub data Tail : Type 0 where
  anywhere at_end file_end : Tail

-- A regular expression of the list: `anchored` is a leading `(^|/)`, and `words` are the literal
-- texts that follow (two where the source has `ya?ml`).
pub record PathPattern : Type 0 where
  pub source : String
  pub anchored : Bool
  pub words : List String
  pub tail : Tail

abbrev pattern_of : String → Bool → List String → Tail → PathPattern
pattern_of source anchored words tail = record {
  source = source;
  anchored = anchored;
  words = words;
  tail = tail;
}

abbrev pub high_risk_patterns : List PathPattern
high_risk_patterns =
    pattern_of "(^|/)Dockerfile($|\\.|/)" true ("Dockerfile" ∷ []) file_end
    ∷ pattern_of "\\.tf$" false (".tf" ∷ []) at_end
    ∷ pattern_of "(^|/)k8s/" true ("k8s/" ∷ []) anywhere
    ∷ pattern_of "(^|/)kubernetes/" true ("kubernetes/" ∷ []) anywhere
    ∷ pattern_of "(^|/)helm/" true ("helm/" ∷ []) anywhere
    ∷ pattern_of "\\.cdk\\.ts$" false (".cdk.ts" ∷ []) at_end
    ∷ pattern_of "(^|/)serverless\\.ya?ml$" true ("serverless.yaml" ∷ "serverless.yml" ∷ []) at_end
    ∷ pattern_of "(^|/)Pulumi\\.ya?ml$" true ("Pulumi.yaml" ∷ "Pulumi.yml" ∷ []) at_end
    ∷ pattern_of "(^|/)\\.github/workflows/" true (".github/workflows/" ∷ []) anywhere
    ∷ pattern_of "(^|/)\\.gitlab-ci\\.ya?ml$" true (".gitlab-ci.yaml" ∷ ".gitlab-ci.yml" ∷ [])
        at_end
    ∷ pattern_of "(^|/)migrations/" true ("migrations/" ∷ []) anywhere
    ∷ pattern_of "(^|/)prisma/migrations/" true ("prisma/migrations/" ∷ []) anywhere
    ∷ pattern_of "(^|/)alembic/" true ("alembic/" ∷ []) anywhere
    ∷ pattern_of "(^|/)flyway/" true ("flyway/" ∷ []) anywhere
    ∷ pattern_of "(^|/)atlas/" true ("atlas/" ∷ []) anywhere
    ∷ []

-- One character of `str.lower`. Of the characters outside ASCII only those are changed that give
-- ASCII letters (the Kelvin sign, and the dotted capital I, which becomes two characters): the
-- readers look for ASCII words only.
unfoldable pub lower_char : ℕ → List ℕ
lower_char c =
    if leb b'A' c && leb c b'Z'
    then (c + 32) ∷ []
    else if c == 0x212a
    then b'k' ∷ []
    else if c == 0x130
    then b'i' ∷ 0x307 ∷ []
    else c ∷ []

unfoldable pub lower : List ℕ → List ℕ
unfolding lower_char
lower s = flat_map lower_char s

-- `text.startswith(word)`, with what is behind.
abbrev pub begins : List ℕ → List ℕ → Bool
begins word s = elim (strip word s) [ none ↦ false | some rest ↦ true ]

-- `word in text`
unfoldable pub has_word : List ℕ → List ℕ → Bool
unfolding strip
has_word word [] = begins word []
has_word word (c ∷ s) = begins word (c ∷ s) || has_word word s

unfoldable pub tail_fits : Tail → List ℕ → Bool
tail_fits anywhere s = true
tail_fits at_end [] = true
tail_fits at_end (c ∷ []) = c == 10
tail_fits at_end (c ∷ d ∷ s) = false
tail_fits file_end [] = true
tail_fits file_end (c ∷ []) = c == 10 || c == b'.' || c == b'/'
tail_fits file_end (c ∷ d ∷ s) = c == b'.' || c == b'/'

-- The words and the tail, at the start of the text.
unfoldable pub fits_here : PathPattern → List ℕ → Bool
unfolding strip tail_fits
fits_here p s =
    any (λ w. elim (strip (codes w) s) [ none ↦ false | some rest ↦ tail_fits p.tail rest ]) p.words

-- The words and the tail behind a later position: anywhere, or behind a `/`.
unfoldable pub fits_later : PathPattern → List ℕ → Bool
unfolding fits_here
fits_later p [] = false
fits_later p (c ∷ s) = ((not p.anchored || c == b'/') && fits_here p s) || fits_later p s

-- `pattern.search(path)`
unfoldable pub search_path : PathPattern → List ℕ → Bool
unfolding fits_here fits_later
search_path p s = fits_here p s || fits_later p s

unfoldable pub keyword_signals : List ℕ → List String → List String
unfolding has_word
keyword_signals low [] = []
keyword_signals low (kw ∷ kws) =
    let rest = keyword_signals low kws in
    if has_word (codes kw) low then ("keyword:" <> kw) ∷ rest else rest

-- The patterns are tried in order, and the first that fits ends the loop.
unfoldable pub pattern_signal : List ℕ → List PathPattern → List String
unfolding search_path
pattern_signal path [] = []
pattern_signal path (p ∷ ps) =
    if search_path p path then ("path:" <> p.source) ∷ [] else pattern_signal path ps

-- The signals that one path adds, in the order of the two inner loops.
unfoldable pub path_signals : String → List String
unfolding lower keyword_signals pattern_signal
path_signals path =
    keyword_signals (lower (codes path)) risk_keywords
    ++ pattern_signal (codes path) high_risk_patterns
