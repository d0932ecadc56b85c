-- ===== src/Runner/Concurrency.antt =====
-- code_review/runner.py `_AdaptiveLimiter`. `acquire` waits until a place is free: the model's
-- `acquire` is what it does then, and `may_acquire` is what it waits for.
use skill_code_review.Base.{ℕ, ◌+◌, ◌-◌, ◌/◌, min, max, Bool, ltb, if◌then◌else◌}

pub record Limiter : Type 0 where
  pub limit : ℕ
  pub maximum : ℕ
  pub minimum : ℕ
  pub inflight : ℕ
  pub stats_min : ℕ
  pub stats_max : ℕ

-- `__init__`
unfoldable pub new_limiter : ℕ → ℕ → Limiter
new_limiter limit minimum = record {
  limit = limit;
  maximum = limit;
  minimum = max 1 minimum;
  inflight = 0;
  stats_min = limit;
  stats_max = limit;
}

unfoldable pub may_acquire : Limiter → Bool
may_acquire l = ltb l.inflight l.limit

unfoldable pub acquire : Limiter → Limiter
acquire l = record {
  limit = l.limit;
  maximum = l.maximum;
  minimum = l.minimum;
  inflight = l.inflight + 1;
  stats_min = l.stats_min;
  stats_max = l.stats_max;
}

unfoldable pub release : Limiter → Limiter
release l = record {
  limit = l.limit;
  maximum = l.maximum;
  minimum = l.minimum;
  inflight = l.inflight - 1;
  stats_min = l.stats_min;
  stats_max = l.stats_max;
}

unfoldable pub penalize : Limiter → Limiter
penalize l =
    let limit = max l.minimum (l.limit / 2) in
    record {
      limit = limit;
      maximum = l.maximum;
      minimum = l.minimum;
      inflight = l.inflight;
      stats_min = min l.stats_min limit;
      stats_max = l.stats_max;
    }

unfoldable pub reward : Limiter → Limiter
reward l =
    let grows = ltb l.limit l.maximum in
    record {
      limit = if grows then l.limit + 1 else l.limit;
      maximum = l.maximum;
      minimum = l.minimum;
      inflight = l.inflight;
      stats_min = l.stats_min;
      stats_max = if grows then max l.stats_max (l.limit + 1) else l.stats_max;
    }
