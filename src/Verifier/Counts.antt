-- ===== src/Verifier/Counts.antt =====
-- code_review/handlers.py: the counts of rejections, how they reach the limit, and what
-- `handle_verifier_stuck` resets.
use skill_code_review.Base.{
  ℕ, zero, suc, ◌+◌, String, Bool, false, ◌&&◌, not, Option, none, some, ◌≡◌, inl, inr, refl, ap,
  ◌∙◌, arith, leb, if◌then◌else◌, str_eq, str_eq_iff, str_eq_refl, Dict, lookup-insert, Bool-cases,
}
use skill_code_review.Value.{Value}
use skill_code_review.Verifier.{
  count_of, named, bump_verifier_rejection_counts, is_verifier_stuck, text_or_empty, reset,
  stuck_state, read_verifier_rejection_counts, verifier_stuck,
}

-- One state is rejected `n` times.
unfoldable pub reject_times : ℕ → Dict ℕ → String → Dict ℕ
unfolding bump_verifier_rejection_counts
reject_times zero counts state_id = counts
reject_times (suc n) counts state_id =
    reject_times n (bump_verifier_rejection_counts counts (some state_id)) state_id

named-nonempty : (s : String) → str_eq s "" ≡ false → named (some s) ≡ some s
named-nonempty s h = rw h refl

count_of-bump :
    (counts : Dict ℕ) (s k : String)
    → str_eq s "" ≡ false
    → count_of (bump_verifier_rejection_counts counts (some s)) k
      ≡ (if str_eq s k then count_of counts s + 1 else count_of counts k)
unfolding bump_verifier_rejection_counts
count_of-bump counts s k h =
    rw (named-nonempty s h, lookup-insert s k (count_of counts s + 1) counts)
      (elim (Bool-cases (str_eq s k)) [ inl same ↦ rw same refl | inr differ ↦ rw differ refl ])

count_of-reject_times :
    (n : ℕ) (counts : Dict ℕ) (s k : String)
    → str_eq s "" ≡ false
    → count_of (reject_times n counts s) k
      ≡ (if str_eq s k then count_of counts s + n else count_of counts k)
unfolding reject_times
count_of-reject_times zero counts s k h = elim (Bool-cases (str_eq s k)) [
  | inl same ↦ let e : s ≡ k = (str_eq_iff s k).0 same in rw same (rw e (omega arith))
  | inr differ ↦ rw differ refl
]
count_of-reject_times (suc n) counts s k h =
    let once = count_of-bump counts s s h in
    let here = count_of-bump counts s k h in
    count_of-reject_times n (bump_verifier_rejection_counts counts (some s)) s k h
    ∙ ground (arith, once, here, str_eq_refl s)

-- A state with a name is stuck, after `n` more rejections, exactly if they are three with those it
-- had; the rejections do not change whether another state is stuck.
pub reject_times-is_stuck :
    (n : ℕ) (counts : Dict ℕ) (s k : String)
    → str_eq s "" ≡ false
    → str_eq k "" ≡ false
    → is_verifier_stuck (reject_times n counts s) (some k)
      ≡ (if str_eq s k then leb 3 (count_of counts s + n) else is_verifier_stuck counts (some k))
unfolding is_verifier_stuck
reject_times-is_stuck n counts s k h hk =
    rw (named-nonempty k hk, count_of-reject_times n counts s k h) (ground arith)

count_of-reset :
    (o : Option String) (counts : Dict ℕ) (k : String)
    → count_of (reset o counts) k
      ≡ elim o [ none ↦ count_of counts k | some s ↦ if str_eq s k then 0 else count_of counts k ]
count_of-reset none counts k = refl
count_of-reset (some s) counts k =
    rw (lookup-insert s k 0 counts)
      (elim (Bool-cases (str_eq s k)) [ inl same ↦ rw same refl | inr differ ↦ rw differ refl ])

abbrev pub is_state : Option String → String → Bool
is_state none k = false
is_state (some s) k = str_eq s k

is_state-text :
    (o : Option String) (k : String)
    → str_eq k "" ≡ false
    → is_state o k ≡ str_eq (text_or_empty o) k
is_state-text none k h = ground (arith, h, str_eq_iff "" k, str_eq_iff k "")
is_state-text (some s) k h = refl

reset-is_stuck :
    (o : Option String) (counts : Dict ℕ) (k : String)
    → str_eq k "" ≡ false
    → is_verifier_stuck (reset o counts) (some k)
      ≡ (is_verifier_stuck counts (some k) && not (is_state o k))
unfolding is_verifier_stuck
reset-is_stuck none counts k h = ground arith
reset-is_stuck (some s) counts k h =
    rw (named-nonempty k h, lookup-insert s k 0 counts)
      (elim (Bool-cases (str_eq s k)) [
        | inl same ↦ rw same (ground arith)
        | inr differ ↦ rw differ (ground arith)
      ])

-- After `handle_verifier_stuck`, the state that it records is no longer stuck, and every other state
-- is stuck exactly if it was before. The record holds the count that the state had.
pub verifier_stuck-resets :
    (env : Dict Value) (k : String)
    → str_eq k "" ≡ false
    → let counts = read_verifier_rejection_counts env in
      let r = verifier_stuck env in
      (is_verifier_stuck r.verifier_rejection_counts (some k)
        ≡ (is_verifier_stuck counts (some k) && not (str_eq r.stuck_state_id k)))
      × (r.rejection_count ≡ count_of counts r.stuck_state_id)
unfolding verifier_stuck
verifier_stuck-resets env k h =
    let counts = read_verifier_rejection_counts env in
    (
      reset-is_stuck (stuck_state env counts) counts k h
          ∙ ap (λ b. is_verifier_stuck counts (some k) && not b)
              (is_state-text (stuck_state env counts) k h),
      refl,
    )
