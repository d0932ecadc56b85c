-- ===== src/Panel.antt =====
-- code_review/verifier_handler.py: `_parse_vote` and `llm_verifier_handler`, the panel of votes on a
-- worker's outputs. The dispatcher, and what `json.loads` makes of a text, are arguments.
pub mod Closed
use skill_code_review.Base.{
  ℕ, zero, suc, String, Bool, true, false, Option, none, some, List, [], ◌∷◌, str_eq, if◌then◌else◌,
  Dict, lookup,
}
use skill_code_review.Value.{value_or, Value, str, dict, get, entries, as_str}

pub data VerifierVerdict : Type 0 where
  passed rejected : VerifierVerdict

-- Why a vote is as it is: the text that the payload gives, cut to 280 characters, or what went wrong.
pub data Reason : Type 0 where
  no_llm_dispatcher_registered : Reason
  dispatcher_raised : String → Reason
  not_json : Reason
  not_object : Value → Reason
  unknown_verdict : Value → Reason
  given : String → Reason

pub record VerifierVote : Type 0 where
  pub verdict : VerifierVerdict
  pub reason : Reason

abbrev pub reject : Reason → VerifierVote
reject reason = record { verdict = rejected; reason = reason }

-- A call of the dispatcher: an answer, or an exception by the name of its type.
pub data Answer : Type 0 where
  answered : String → Answer
  raised : String → Answer

-- `cut` is `str(v)[:280]`.
module _ (loads : String → Option Value) (cut : Value → String) where
  abbrev pub vote_with : VerifierVerdict → Dict Value → VerifierVote
  vote_with verdict payload = record {
    verdict = verdict;
    reason = given (cut (value_or (str "") (lookup "reason" payload)));
  }

  abbrev pub vote_by : Option String → Dict Value → VerifierVote
  vote_by none payload = reject (unknown_verdict (get payload "verdict"))
  vote_by (some verdict) payload =
      if str_eq verdict "passed"
      then vote_with passed payload
      else if str_eq verdict "rejected"
      then vote_with rejected payload
      else reject (unknown_verdict (get payload "verdict"))

  unfoldable pub vote_of : Value → VerifierVote
  vote_of (dict fs) = vote_by (as_str (get (entries fs) "verdict")) (entries fs)
  vote_of v = reject (not_object v)

  abbrev pub vote_read : Option Value → VerifierVote
  vote_read none = reject not_json
  vote_read (some v) = vote_of v

  -- `_parse_vote`
  unfoldable pub parse_vote : String → VerifierVote
  unfolding vote_of
  parse_vote raw = vote_read (loads raw)

  abbrev pub vote_on : Answer → VerifierVote
  vote_on (answered raw) = parse_vote raw
  vote_on (raised name) = reject (dispatcher_raised name)

  -- The loop over the slots, with `left` of them to go.
  unfoldable pub votes_from : (ℕ → Answer) → ℕ → ℕ → List VerifierVote
  unfolding parse_vote
  votes_from dispatcher slot zero = []
  votes_from dispatcher slot (suc left) =
      vote_on (dispatcher slot) ∷ votes_from dispatcher (suc slot) left

  abbrev pub refusals : ℕ → List VerifierVote
  refusals zero = []
  refusals (suc n) = reject no_llm_dispatcher_registered ∷ refusals n

  -- `llm_verifier_handler`
  unfoldable pub llm_verifier_handler : Option (ℕ → Answer) → ℕ → List VerifierVote
  unfolding votes_from
  llm_verifier_handler none parallel_count = refusals parallel_count
  llm_verifier_handler (some dispatcher) parallel_count = votes_from dispatcher 0 parallel_count
