-- ===== src/Runner/Bounds.antt =====
-- code_review/runner.py `_AdaptiveLimiter`: the bounds on the limit and on the workers in flight.
use skill_code_review.Base.{ℕ, ◌≤◌, ◌<◌, true, ◌≡◌, refl, arith, ltb, Bool-cases, inl, inr}
use skill_code_review.Runner.Concurrency.{
  Limiter, new_limiter, may_acquire, acquire, release, penalize, reward,
}

-- A step of some worker; an `acquire` that has to wait is no step.
pub data Step : Limiter → Limiter → Type 0 where
  acquires : {l : Limiter} → may_acquire l ≡ true → Step l (acquire l)
  releases : {l : Limiter} → 0 < l.inflight → Step l (release l)
  penalizes : {l : Limiter} → Step l (penalize l)
  rewards : {l : Limiter} → Step l (reward l)

-- What the workers may have made of a limiter, in any order of their steps.
pub data Steps : Limiter → Limiter → Type 0 where
  done : {l : Limiter} → Steps l l
  then_step : {l m n : Limiter} → Steps l m → Step m n → Steps l n

abbrev pub Bounded : Limiter → Type 0
Bounded l =
    (1 ≤ l.minimum)
    × (l.minimum ≤ l.limit)
    × (l.limit ≤ l.maximum)
    × (l.inflight ≤ l.maximum)
    × (l.minimum ≤ l.stats_min)
    × (l.stats_min ≤ l.limit)
    × (l.stats_max ≡ l.maximum)

start-Bounded : (n k : ℕ) → 1 ≤ n → k ≤ n → Bounded (new_limiter n k)
unfolding new_limiter
start-Bounded n k h i = (
  omega arith,
  omega (arith, h, i),
  omega arith,
  omega arith,
  omega (arith, h, i),
  omega arith,
  refl,
)

Step-Bounded : (l m : Limiter) → Step l m → Bounded l → Bounded m
unfolding may_acquire acquire release penalize reward
Step-Bounded l m (acquires free) (a, b, c, d, e, f, g) = (a, b, c, ground (arith, free, c), e, f, g)
Step-Bounded l m (releases some_in) (a, b, c, d, e, f, g) = (a, b, c, omega (arith, d), e, f, g)
Step-Bounded l m penalizes (a, b, c, d, e, f, g) =
    (a, omega arith, omega (arith, b, c), d, omega (arith, e), omega arith, g)
Step-Bounded l m rewards (a, b, c, d, e, f, g) = elim (Bool-cases (ltb l.limit l.maximum)) [
  | inl grows ↦
      rw grows (
        a,
        omega (arith, b),
        ground (arith, grows),
        d,
        e,
        omega (arith, f),
        ground (arith, g, grows),
      )
  | inr full ↦ rw full (a, b, c, d, e, f, g)
]

-- If at least one worker is allowed, and no more are asked for as the minimum than as the maximum,
-- then after any steps of the workers in any order the limit is between the minimum and the maximum,
-- and no more workers are in flight than the maximum. The least limit that the statistics report is
-- one that was in these bounds and is at most the present one.
pub Steps-Bounded :
    (max_workers min_workers : ℕ) (l : Limiter)
    → 1 ≤ max_workers
    → min_workers ≤ max_workers
    → Steps (new_limiter max_workers min_workers) l
    → Bounded l
Steps-Bounded n k l h i steps = from_start (new_limiter n k) l steps (start-Bounded n k h i)
  where
    from_start : (l m : Limiter) → Steps l m → Bounded l → Bounded m
    from_start l m done b = b
    from_start l m (then_step {m = k} steps s) b = Step-Bounded k m s (from_start l k steps b)
