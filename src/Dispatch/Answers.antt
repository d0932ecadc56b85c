-- ===== src/Dispatch/Answers.antt =====
-- code_review/dispatch.py `_raise_for_signal` and `_parse_json`, and what `dispatch_specialist` does
-- with the text that the model answers. `json.loads`, the measured time and the price are
-- arguments. Texts are lists of code points.
use skill_code_review.Base.{
  ℕ, suc, ◌-◌, String, Bool, ◌&&◌, ◌||◌, Option, none, some, List, [], ◌∷◌, ◌==◌, leb, ltb,
  if◌then◌else◌, take, drop, Dict, lookup, insert, update_dict,
}
use skill_code_review.Value.{Value, str, dict, entries, object}
use skill_code_review.Value.{Float}
use skill_code_review.Result.{Result, ok, raise, Exception, value_error, Parsers}
use skill_code_review.Cost.{Tokens, CostFields, call_cost_fields, stamp_fields}
use skill_code_review.Glob.{codes}
use skill_code_review.Triage.Patterns.{begins, has_word}
use skill_code_review.Characters.{Characters, strip_spaces}
use skill_code_review.Runner.{Outcome, rate_limited, overflow, error, output}
use skill_code_review.Dispatch.Nulls.{strip_nulls}

-- `part in t`
abbrev pub has : String → List ℕ → Bool
has part t = has_word (codes part) t

-- `_raise_for_signal` on the text in lower case: what it raises, if anything.
unfoldable pub signal : List ℕ → Option Outcome
unfolding has_word
signal low =
    if (has "rate" low && has "limit" low) || (has "429" low || has "overloaded" low)
    then some rate_limited
    else if has "context" low && (has "overflow" low || (has "too long" low || has "exceed" low))
    then some overflow
    else if has "prompt is too long" low || has "maximum context" low
    then some overflow
    else none

abbrev pub is_letter : ℕ → Bool
is_letter c = (leb b'a' c && leb c b'z') || (leb b'A' c && leb c b'Z')

-- Behind `[a-zA-Z]*\n?`.
unfoldable pub after_letters : List ℕ → List ℕ
after_letters [] = []
after_letters (c ∷ t) =
    let rest = after_letters t in if is_letter c then rest else if c == b'\n' then t else c ∷ t

abbrev pub ticks : List ℕ
ticks = codes "```"

-- The text before the last occurrence of the ticks.
unfoldable pub before_ticks : List ℕ → Option (List ℕ)
before_ticks [] = none
before_ticks (c ∷ t) = elim (before_ticks t) [
  | some s ↦ some (c ∷ s)
  | none ↦ if begins ticks (c ∷ t) then some [] else none
]

abbrev pub text_or : List ℕ → Option (List ℕ) → List ℕ
text_or t none = t
text_or t (some s) = s

-- The text without a fence around it.
unfoldable pub unfenced : List ℕ → List ℕ
unfolding after_letters before_ticks
unfenced t =
    let inner = after_letters (drop 3 t) in
    if begins ticks t then text_or inner (before_ticks inner) else t

-- `t.find(c)` and `t.rfind(c)`; `none` is -1.
unfoldable pub find_first : ℕ → List ℕ → Option ℕ
find_first c [] = none
find_first c (d ∷ t) =
    let later : Option ℕ = elim (find_first c t) [ none ↦ none | some n ↦ some (suc n) ] in
    if d == c then some 0 else later

unfoldable pub find_last : ℕ → List ℕ → Option ℕ
find_last c [] = none
find_last c (d ∷ t) = elim (find_last c t) [
  | some n ↦ some (suc n)
  | none ↦ if d == c then some 0 else none
]

-- `t[a:b + 1]` where `a >= 0 and b > a`.
abbrev pub slice_at : List ℕ → Option ℕ → Option ℕ → List ℕ
slice_at t (some a) (some b) = if ltb a b then take (suc b - a) (drop a t) else t
slice_at t _ _ = t

unfoldable pub braced : List ℕ → List ℕ
unfolding find_first find_last
braced t = slice_at t (find_first b'{' t) (find_last b'}' t)

-- The parsed object, or another value under `_raw`.
abbrev pub as_output : Value → Outcome
as_output (dict fs) = output (entries fs)
as_output v = output (("_raw", v) ∷ [])

abbrev pub or_transient : Option Outcome → Outcome
or_transient none = rate_limited
or_transient (some o) = o

-- `out.setdefault("id", leaf_id)`
abbrev pub set_default_id : Option Value → String → Dict Value → Dict Value
set_default_id none leaf_id out = insert "id" (str leaf_id) out
set_default_id (some v) leaf_id out = out

abbrev pub stamped : Value → Dict Value → Dict Value → Dict Value
stamped wall_ms cost out = update_dict (insert "wall_ms" wall_ms out) cost

abbrev pub with_id : String → Dict Value → Dict Value
with_id leaf_id out = set_default_id (lookup "id" out) leaf_id out

-- `cleaned if isinstance(cleaned, dict) else out`
abbrev pub clean : Dict Value → Value → Outcome
clean out (dict fs) = output (entries fs)
clean out v = output out

abbrev pub specialist_outcome : String → Value → Dict Value → Outcome → Outcome
specialist_outcome leaf_id wall_ms cost (output out) =
    let whole = with_id leaf_id (stamped wall_ms cost out) in
    clean whole (strip_nulls (object whole))
specialist_outcome leaf_id wall_ms cost o = o

-- The name of the type of an exception that a count of tokens may raise.
abbrev pub exception_name : Exception → String
exception_name value_error = "ValueError"
exception_name _ = "OverflowError"

abbrev pub stamped_outcome :
    String → Value → (CostFields → Dict Value) → Result CostFields → Outcome → Outcome
stamped_outcome leaf_id wall_ms stamp (ok c) (output out) =
    specialist_outcome leaf_id wall_ms (stamp c) (output out)
stamped_outcome leaf_id wall_ms stamp (raise exc) (output out) = error (exception_name exc)
stamped_outcome leaf_id wall_ms stamp r o = o

module _ (ch : Characters) (loads : List ℕ → Option Value) where
  abbrev pub parsed : Option Value → String → Outcome
  parsed (some v) text = as_output v
  parsed none text = or_transient (signal (codes (ch.lower text)))

  abbrev pub parse_stripped : List ℕ → String → Outcome
  parse_stripped [] text = rate_limited
  parse_stripped (c ∷ t) text = parsed (loads (braced (unfenced (c ∷ t)))) text

  -- `_parse_json`
  unfoldable pub parse_json : String → Outcome
  unfolding strip_spaces signal unfenced braced
  parse_json text = parse_stripped (strip_spaces ch (codes text)) text

  -- `dispatch_specialist` behind the call of the model that has answered `text`, with its usage.
  unfoldable pub dispatch_specialist :
      Parsers
      → (String → Tokens → Float)
      → String
      → String
      → Option (Dict Value)
      → Value
      → String
      → String
      → Outcome
  unfolding parse_json call_cost_fields stamp_fields
  dispatch_specialist p est_cost leaf_id tier usage wall_ms prompt text =
      stamped_outcome leaf_id wall_ms (stamp_fields est_cost tier)
        (call_cost_fields p usage prompt text) (parse_json text)
