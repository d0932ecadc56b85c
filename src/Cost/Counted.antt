-- ===== src/Cost/Counted.antt =====
-- code_review/cost.py `call_cost_fields`: a call that has a prompt or an answer is never free.
use skill_code_review.Base.{
  ◌<◌, String, false, Option, none, some, length, ◌≡◌, ◌⊎◌, inl, inr, sym, ap, ◌∙◌, arith,
  Bool-cases, Dict,
}
use skill_code_review.Value.{Value, get}
use skill_code_review.Result.{ok, Parsers, >>=-eq-ok, ok-injective}
use skill_code_review.Glob.{codes}
use skill_code_review.Cost.{
  est_tokens_from_chars, Tokens, read_tokens, cost_of, estimated, all_zero, counted_or, CostFields,
  usage_fields, call_cost_fields,
}

est_tokens-positive : (text : String) → 0 < length (codes text) → 0 < est_tokens_from_chars text
unfolding est_tokens_from_chars
est_tokens-positive text h = omega (arith, h)

estimated-counted :
    (prompt response_text : String)
    → (0 < length (codes prompt)) ⊎ (0 < length (codes response_text))
    → all_zero (estimated prompt response_text) ≡ false
unfolding estimated
estimated-counted prompt response_text (inl h) = ground (arith, est_tokens-positive prompt h)
estimated-counted prompt response_text (inr h) = ground (arith, est_tokens-positive response_text h)

counted_or-counted :
    (t : Tokens) (prompt response_text : String)
    → (0 < length (codes prompt)) ⊎ (0 < length (codes response_text))
    → all_zero (counted_or t prompt response_text) ≡ false
unfolding counted_or
counted_or-counted t prompt response_text h = elim (Bool-cases (all_zero t)) [
  | inl zeros ↦ rw zeros (estimated-counted prompt response_text h)
  | inr some_count ↦ rw some_count some_count
]

usage_fields-counted :
    (p : Parsers) (usage : Dict Value) (prompt response_text : String) (t : Tokens) {c : CostFields}
    → (0 < length (codes prompt)) ⊎ (0 < length (codes response_text))
    → usage_fields p usage prompt response_text t ≡ ok c
    → all_zero c.tokens ≡ false
unfolding usage_fields
usage_fields-counted p usage prompt response_text t h returns =
    let (cost, priced, last) =
      >>=-eq-ok (cost_of p (get usage "cost_usd"))
        (λ v. ok (record { tokens = counted_or t prompt response_text; cost_usd = v })) returns in
    sym (ap (λ c. all_zero c.tokens) (ok-injective last))
    ∙ counted_or-counted t prompt response_text h

-- The counts of a call with a prompt or with an answer are not all zero.
pub call_cost_fields-counted :
    (p : Parsers) (usage : Option (Dict Value)) (prompt response_text : String) {c : CostFields}
    → (0 < length (codes prompt)) ⊎ (0 < length (codes response_text))
    → call_cost_fields p usage prompt response_text ≡ ok c
    → all_zero c.tokens ≡ false
unfolding call_cost_fields
call_cost_fields-counted p none prompt response_text h returns =
    sym (ap (λ c. all_zero c.tokens) (ok-injective returns))
    ∙ estimated-counted prompt response_text h
call_cost_fields-counted p (some usage) prompt response_text h returns =
    let (t, counts, rest) =
      >>=-eq-ok
        (read_tokens (get usage "in_tokens") (get usage "out_tokens") (get usage "cache_create")
          (get usage "cache_read"))
        (usage_fields p usage prompt response_text) returns in
    usage_fields-counted p usage prompt response_text t h rest
