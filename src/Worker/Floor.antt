-- ===== src/Worker/Floor.antt =====
-- code_review/runner.py `_coverage_floor`: leaves picked without a model where the trimming worker
-- has picked none.
use skill_code_review.Base.{
  ℕ, suc, ◌+◌, ◌-◌, String, Bool, true, false, ◌&&◌, not, Option, none, some, List, [], ◌∷◌, any,
  length, take, sort, contains, str_eq, leb, if◌then◌else◌, Dict, lookup, insert, ℤ, pos, negsuc,
  map, update,
}
use skill_code_review.Value.{
  value_or, Value, null, int, str, list, dict, get, truthy, elements, entries, array, object,
}
use skill_code_review.Result.{Result, ok, raise, type_error, Parsers, to_int, iterate, ◌>>=◌}
use skill_code_review.Glob.{codes}
use skill_code_review.Triage.{has_word, begins}
use skill_code_review.Merger.{dicts}

pub record Floored : Type 0 where
  pub outputs : Dict Value
  pub used : Bool

-- `a or b`
abbrev pub or_value : Value → Value → Value
or_value a b = if truthy a then a else b

-- `_FLOOR_PREFIXES`
abbrev pub floor_prefixes : List String
floor_prefixes = "lang-" ∷ "fw-" ∷ "sec-" ∷ "footgun-" ∷ "orm-" ∷ "reliability-" ∷ "data-" ∷ []

-- The members of `set(v)` that are texts; a list or a dict among the elements is not hashable.
unfoldable pub hashed_texts : List Value → Result (List String)
hashed_texts [] = ok []
hashed_texts (list vs ∷ rest) = raise type_error
hashed_texts (dict fs ∷ rest) = raise type_error
hashed_texts (str s ∷ rest) = hashed_texts rest >>= λ ss. ok (s ∷ ss)
hashed_texts (_ ∷ rest) = hashed_texts rest

-- `len(v or [])`
unfoldable pub length_of : Value → Result ℕ
length_of v = iterate v >>= λ vs. ok (length vs)

-- `(v or {}).get(k)`
unfoldable pub get_in : Value → String → Result Value
get_in (dict fs) k = ok (get (entries fs) k)
get_in v k = if truthy v then raise type_error else ok null

module _ (p : Parsers) (show : Value → String) where
  -- The languages of the project: `str(x)` of each.
  unfoldable pub project_languages : Dict Value → Result (List String)
  unfolding get_in
  project_languages env = do
    languages ← get_in (get env "project_profile") "languages"
    vs ← iterate languages
    ok (update [] (map show vs))

  -- `score`, with the parts that do not raise.
  abbrev pub score_of : List String → List String → String → ℕ → ℕ
  score_of langs dims lid matches =
      (if contains "security" dims then 3 else if contains "correctness" dims then 3 else 0)
      + (if any (λ prefix. begins (codes prefix) (codes lid)) floor_prefixes then 2 else 0)
      + (if any (λ lang. not (str_eq lang "") && has_word (codes lang) (codes lid)) langs
          then 1
          else 0)
      + matches

  unfoldable pub score : List String → Dict Value → Result ℕ
  unfolding hashed_texts length_of
  score langs leaf = do
    vs ← iterate (get leaf "dimensions")
    dims ← hashed_texts vs
    matches ← length_of (get leaf "activation_match")
    ok (score_of langs dims (show (value_or (str "") (lookup "id" leaf))) matches)

  unfoldable pub scores : List String → List (Dict Value) → Result (List (Dict Value × ℕ))
  unfolding score
  scores langs [] = ok []
  scores langs (leaf ∷ leaves) = do
    s ← score langs leaf
    rest ← scores langs leaves
    ok ((leaf, s) ∷ rest)

  abbrev pub scores_above : Dict Value × ℕ → Dict Value × ℕ → Bool
  scores_above a b = leb b.1 a.1

  -- `ranked[:cap]`
  abbrev pub up_to {ℓ} : {A : Type ℓ} → ℤ → List A → List A
  up_to (pos n) ranked = take n ranked
  up_to (negsuc n) ranked = take (length ranked - suc n) ranked

  -- One element of `picked`.
  abbrev pub pick : Dict Value → Value
  pick leaf = object (
      ("id", get leaf "id")
      ∷ ("path", get leaf "path")
      ∷ ("justification", str "deterministic coverage floor (LLM trim returned empty)")
      ∷ ("dimensions", or_value (get leaf "dimensions") (array []))
      ∷ [])

  unfoldable pub picks : List (Dict Value × ℕ) → List Value
  picks [] = []
  picks ((leaf, s) ∷ ranked) =
      if truthy (get leaf "id") && truthy (get leaf "path")
      then pick leaf ∷ picks ranked
      else picks ranked

  -- `d.setdefault(k, [])`
  abbrev pub put_if_absent : Option Value → String → Dict Value → Dict Value
  put_if_absent none k d = insert k (array []) d
  put_if_absent (some v) k d = d

  abbrev pub set_default : String → Dict Value → Dict Value
  set_default k d = put_if_absent (lookup k d) k d

  unfoldable pub with_picks : Dict Value → List Value → Floored
  with_picks out [] = record { outputs = out; used = false }
  with_picks out (v ∷ picked) = record {
    outputs =
        set_default "coverage_rescues"
          (set_default "rejected_leaves" (insert "picked_leaves" (array (v ∷ picked)) out));
    used = true;
  }

  -- The floor for the leaves that were activated.
  unfoldable pub floor_from : List Value → Dict Value → Dict Value → Result Floored
  unfolding project_languages scores picks with_picks dicts
  floor_from [] out env = ok (record { outputs = out; used = false })
  floor_from (v ∷ activated) out env = do
    cap ← to_int p (or_value (or_value (get env "cap") (get env "tier_cap")) (int (pos 20)))
    langs ← project_languages env
    scored ← scores langs (dicts (v ∷ activated))
    ok (with_picks out (picks (up_to cap (sort scores_above scored))))

  abbrev pub floor_of : Value → Dict Value → Dict Value → Result Floored
  floor_of (list vs) out env = floor_from (elements vs) out env
  floor_of v out env = ok (record { outputs = out; used = false })

  -- `_coverage_floor`
  unfoldable pub coverage_floor : String → Dict Value → Dict Value → Dict Value → Result Floored
  unfolding floor_from
  coverage_floor state_id inputs out env =
      if str_eq state_id "llm_trim" && not (truthy (get out "picked_leaves"))
      then floor_of
          (or_value (get env "activated_leaves")
            (or_value (get inputs "stage_a_candidates") (array [])))
          out env
      else ok (record { outputs = out; used = false })
