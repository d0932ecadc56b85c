-- ===== src/Cost.antt =====
-- code_review/cost.py and `_stamp_cost` of code_review/dispatch.py: the token counts of a call and
-- the fields that it is stamped with. The price, a product of floats, is an argument.
pub mod Counted
use skill_code_review.Base.{
  ℕ, zero, suc, ◌+◌, ◌/◌, String, Bool, true, false, ◌&&◌, Option, none, some, List, [], ◌∷◌, ℤ,
  pos, eq_ℤ, length, if◌then◌else◌, Dict,
}
use skill_code_review.Value.{Value, Float, null, int, float, str, dict, get, entries, object}
use skill_code_review.Result.{Result, ok, raise, Parsers, int_of_float, to_float, ◌>>=◌}
use skill_code_review.Glob.{codes}

-- `est_tokens_from_chars`: the fourth part of the characters, rounded up.
unfoldable pub est_tokens_from_chars : String → ℕ
est_tokens_from_chars text = (length (codes text) + 3) / 4

-- `_as_int(v) or 0`; `int` raises on an infinity and on NaN.
unfoldable pub tokens_at : Value → Result ℤ
tokens_at (int n) = ok n
tokens_at (float f) = int_of_float f
tokens_at _ = ok (pos 0)

-- `float(v) if isinstance(v, (int, float)) and not isinstance(v, bool) else None`
unfoldable pub cost_of : Parsers → Value → Result Value
cost_of p (int n) = do f ← to_float p (int n); ok (float f)
cost_of p (float f) = ok (float f)
cost_of p _ = ok null

abbrev pub is_number : Value → Bool
is_number (int n) = true
is_number (float f) = true
is_number (Value.bool b) = true
is_number _ = false

pub record Tokens : Type 0 where
  pub tokens_in : ℤ
  pub tokens_out : ℤ
  pub cache_create : ℤ
  pub cache_read : ℤ

unfoldable pub read_tokens : Value → Value → Value → Value → Result Tokens
unfolding tokens_at
read_tokens v_in v_out v_create v_read = do
  tokens_in ← tokens_at v_in
  tokens_out ← tokens_at v_out
  cache_create ← tokens_at v_create
  cache_read ← tokens_at v_read
  ok (record {
    tokens_in = tokens_in;
    tokens_out = tokens_out;
    cache_create = cache_create;
    cache_read = cache_read;
  })

abbrev pub usage_dict : Tokens → Value → Dict Value
usage_dict t cost =
    ("in_tokens", int t.tokens_in)
    ∷ ("out_tokens", int t.tokens_out)
    ∷ ("cache_create", int t.cache_create)
    ∷ ("cache_read", int t.cache_read)
    ∷ ("cost_usd", cost)
    ∷ []

-- `u`: what the envelope has under `usage`, if it is a dict.
abbrev pub usage_of : Value → Dict Value
usage_of (dict fs) = entries fs
usage_of _ = []

abbrev pub is_dict : Value → Bool
is_dict (dict fs) = true
is_dict _ = false

unfoldable pub envelope_usage : Parsers → Dict Value → Value → Result (Option (Dict Value))
unfolding read_tokens cost_of
envelope_usage p u cost = do
  t ←
      read_tokens (get u "input_tokens") (get u "output_tokens")
        (get u "cache_creation_input_tokens") (get u "cache_read_input_tokens")
  c ← cost_of p cost
  ok (some (usage_dict t c))

-- `usage_from_envelope`
unfoldable pub usage_from_envelope : Parsers → Value → Result (Option (Dict Value))
unfolding envelope_usage
usage_from_envelope p (dict fs) =
    let usage = get (entries fs) "usage" in
    let cost = get (entries fs) "total_cost_usd" in
    let read = envelope_usage p (usage_of usage) cost in
    if is_dict usage then read else if is_number cost then read else ok none
usage_from_envelope p _ = ok none

-- The counts by the characters of the prompt and of the response.
unfoldable pub estimated : String → String → Tokens
unfolding est_tokens_from_chars
estimated prompt response_text = record {
  tokens_in = pos (est_tokens_from_chars prompt);
  tokens_out = pos (est_tokens_from_chars response_text);
  cache_create = pos 0;
  cache_read = pos 0;
}

abbrev pub all_zero : Tokens → Bool
all_zero t =
    (eq_ℤ t.tokens_in (pos 0) && eq_ℤ t.tokens_out (pos 0))
    && (eq_ℤ t.cache_create (pos 0) && eq_ℤ t.cache_read (pos 0))

-- The counts of the usage, or the estimate where all of them are zero.
unfoldable pub counted_or : Tokens → String → String → Tokens
unfolding estimated
counted_or t prompt response_text = if all_zero t then estimated prompt response_text else t

pub record CostFields : Type 0 where
  pub tokens : Tokens
  pub cost_usd : Value

-- The fields for the counts that a usage has.
unfoldable pub usage_fields : Parsers → Dict Value → String → String → Tokens → Result CostFields
unfolding counted_or cost_of
usage_fields p usage prompt response_text t = do
  c ← cost_of p (get usage "cost_usd")
  ok (record { tokens = counted_or t prompt response_text; cost_usd = c })

-- `call_cost_fields`, without `tier` and `est_cost`.
unfoldable pub call_cost_fields :
    Parsers → Option (Dict Value) → String → String → Result CostFields
unfolding read_tokens usage_fields
call_cost_fields p none prompt response_text =
    ok (record { tokens = estimated prompt response_text; cost_usd = null })
call_cost_fields p (some usage) prompt response_text = do
  t ←
      read_tokens (get usage "in_tokens") (get usage "out_tokens") (get usage "cache_create")
        (get usage "cache_read")
  usage_fields p usage prompt response_text t

-- `_stamp_cost`, as the fields that `out` is updated with; `est_cost` is the price for the tier.
unfoldable pub stamp_fields : (String → Tokens → Float) → String → CostFields → Dict Value
stamp_fields est_cost tier c =
    ("tier", str tier)
    ∷ ("tokens_in", int c.tokens.tokens_in)
    ∷ ("tokens_out", int c.tokens.tokens_out)
    ∷ ("cache_create", int c.tokens.cache_create)
    ∷ ("cache_read", int c.tokens.cache_read)
    ∷ ("cost_usd", c.cost_usd)
    ∷ ("est_cost", float (est_cost tier c.tokens))
    ∷ []
