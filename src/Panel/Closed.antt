-- ===== src/Panel/Closed.antt =====
-- code_review/verifier_handler.py: the panel fails closed.
use skill_code_review.Base.{
  ℕ, zero, suc, ◌+◌, String, Bool, true, false, Option, none, some, ◌≡◌, refl, ap, arith, str_eq,
  if◌then◌else◌, length, tally,
}
use skill_code_review.Value.{
  Value, Fields, null, bool, int, float, str, list, dict, get, entries, as_str,
}
use skill_code_review.Panel.{
  passed, rejected, VerifierVote, Answer, answered, raised, vote_by, vote_of, parse_vote, vote_on,
  vote_read, votes_from, refusals, llm_verifier_handler,
}

abbrev pub has_passed : VerifierVote → Bool
has_passed v = elim v.verdict [ passed ↦ true | rejected ↦ false ]

-- A value that passes: an object whose `verdict` is the text `passed`.
abbrev pub says_passed : Value → Bool
says_passed (dict fs) = elim (as_str (get (entries fs) "verdict")) [
  | none ↦ false
  | some s ↦ str_eq s "passed"
]
says_passed v = false

abbrev pub reads_passed : Option Value → Bool
reads_passed none = false
reads_passed (some v) = says_passed v

module _ (loads : String → Option Value) (cut : Value → String) where
  -- An answer that passes.
  abbrev pub approves : Answer → Bool
  approves (answered raw) = reads_passed (loads raw)
  approves (raised name) = false

  -- How many of the slots from the first on approve.
  abbrev pub approvals : (ℕ → Answer) → ℕ → ℕ → ℕ
  approvals dispatcher slot zero = 0
  approvals dispatcher slot (suc left) =
      (if approves (dispatcher slot) then 1 else 0) + approvals dispatcher (suc slot) left

  has_passed-vote_by :
      (verdict : Option String) (fs : Fields)
      → has_passed (vote_by loads cut verdict (entries fs))
        ≡ (elim verdict as (λ _. Bool) [ none ↦ false | some s ↦ str_eq s "passed" ])
  has_passed-vote_by none fs = refl
  has_passed-vote_by (some s) fs = ground arith

  has_passed-vote_of : (v : Value) → has_passed (vote_of loads cut v) ≡ says_passed v
  unfolding vote_of
  has_passed-vote_of null = refl
  has_passed-vote_of (bool b) = refl
  has_passed-vote_of (int n) = refl
  has_passed-vote_of (float f) = refl
  has_passed-vote_of (str s) = refl
  has_passed-vote_of (list vs) = refl
  has_passed-vote_of (dict fs) = has_passed-vote_by (as_str (get (entries fs) "verdict")) fs

  has_passed-vote_read : (o : Option Value) → has_passed (vote_read loads cut o) ≡ reads_passed o
  has_passed-vote_read none = refl
  has_passed-vote_read (some v) = has_passed-vote_of v

  has_passed-vote_on : (a : Answer) → has_passed (vote_on loads cut a) ≡ approves a
  unfolding parse_vote
  has_passed-vote_on (answered raw) = has_passed-vote_read (loads raw)
  has_passed-vote_on (raised name) = refl

  votes_from-tally :
      (dispatcher : ℕ → Answer) (slot left : ℕ)
      → (length (votes_from loads cut dispatcher slot left) ≡ left)
        × (tally has_passed (votes_from loads cut dispatcher slot left)
            ≡ approvals dispatcher slot left)
  unfolding votes_from
  votes_from-tally dispatcher slot zero = (refl, refl)
  votes_from-tally dispatcher slot (suc left) =
      let (count, votes) = votes_from-tally dispatcher (suc slot) left in
      (ap suc count, rw (has_passed-vote_on (dispatcher slot)) (omega (arith, votes)))

  refusals-tally :
      (n : ℕ) → (length (refusals loads cut n) ≡ n) × (tally has_passed (refusals loads cut n) ≡ 0)
  refusals-tally zero = (refl, refl)
  refusals-tally (suc n) =
      let (count, votes) = refusals-tally n in (ap suc count, omega (arith, votes))

  abbrev pub approvals_of : Option (ℕ → Answer) → ℕ → ℕ
  approvals_of none n = 0
  approvals_of (some dispatcher) n = approvals dispatcher 0 n

  -- The panel casts as many votes as it is asked for, and fails closed: the votes that pass are as
  -- many as the slots whose answer reads as an object with the verdict `passed`. An answer that is no
  -- JSON, no object or of another verdict rejects, so does a dispatcher that raises, and without a
  -- dispatcher no vote passes.
  pub llm_verifier_handler-votes :
      (dispatcher : Option (ℕ → Answer)) (parallel_count : ℕ)
      → (length (llm_verifier_handler loads cut dispatcher parallel_count) ≡ parallel_count)
        × (tally has_passed (llm_verifier_handler loads cut dispatcher parallel_count)
            ≡ approvals_of dispatcher parallel_count)
  unfolding llm_verifier_handler
  llm_verifier_handler-votes none n = refusals-tally n
  llm_verifier_handler-votes (some dispatcher) n = votes_from-tally dispatcher 0 n
