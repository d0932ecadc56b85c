-- ===== src/Worker/Retries.antt =====
-- code_review/runner.py `_call_worker_resilient`: an outage that ends in time does no harm, and one
-- that does not is raised behind the last retry.
use skill_code_review.Base.{
  ℕ, zero, suc, ◌+◌, ◌≤◌, ◌<◌, Option, none, some, List, [], ◌∷◌, ◌++◌, ◌≡◌, ◌≢◌, refl, ap, sym,
  ◌∙◌, arith, append-nil, append_assoc, Option-cases, Dict, inl, inr, some-injective,
}
use skill_code_review.Value.{Value}
use skill_code_review.Runner.{Outcome, rate_limited, overflow, error, output}
use skill_code_review.Worker.{
  WorkerRun, Transient, rate_limit, context_overflow, Reply, replied, gave_up, count_call,
  count_event, sleep, react, call_worker, try_again, raise_again,
}

-- The exception that is retried, if the hook raises one.
abbrev pub transient : Outcome → Option Transient
transient rate_limited = some rate_limit
transient overflow = some context_overflow
transient (error name) = none
transient (output out) = none

-- `attempt`, `attempt + 1`, …
abbrev pub counting : ℕ → ℕ → List ℕ
counting attempt zero = []
counting attempt (suc k) = attempt ∷ counting (suc attempt) k

abbrev pub events : WorkerRun → ℕ
events r = r.rate_limit_events + r.overflow_splits

react-transient :
    (on_transient : Transient → WorkerRun → Reply × WorkerRun) (o : Outcome) (t : Transient)
    (r : WorkerRun)
    → transient o ≡ some t
    → react on_transient o r ≡ on_transient t r
unfolding react
react-transient on_transient rate_limited t r e = ap (λ u. on_transient u r) (some-injective e)
react-transient on_transient overflow t r e = ap (λ u. on_transient u r) (some-injective e)
react-transient on_transient (error name) t r e = cc
react-transient on_transient (output out) t r e = cc

count_event-events : (t : Transient) (r : WorkerRun) → events (count_event t r) ≡ events r + 1
count_event-events rate_limit r = omega arith
count_event-events context_overflow r = omega arith

count_event-calls : (t : Transient) (r : WorkerRun) → (count_event t r).calls ≡ r.calls
count_event-calls rate_limit r = refl
count_event-calls context_overflow r = refl

count_event-slept : (t : Transient) (r : WorkerRun) → (count_event t r).slept ≡ r.slept
count_event-slept rate_limit r = refl
count_event-slept context_overflow r = refl

count_event-others :
    (t : Transient) (r : WorkerRun)
    → ((count_event t r).degraded_workers ≡ r.degraded_workers)
      × ((count_event t r).coverage_floor_used ≡ r.coverage_floor_used)
count_event-others rate_limit r = (refl, refl)
count_event-others context_overflow r = (refl, refl)

-- What `k` failed attempts from `attempt` on leave behind, and a last call.
pub record After (r s : WorkerRun) (attempt k : ℕ) : Type 0 where
  pub calls : s.calls ≡ r.calls + suc k
  pub slept : s.slept ≡ r.slept ++ counting attempt k
  pub degraded : s.degraded_workers ≡ r.degraded_workers
  pub floor : s.coverage_floor_used ≡ r.coverage_floor_used

module _ (dispatch : ℕ → Outcome) where
  -- The `k` calls from the `n`-th on are rate-limited or overflow the context.
  abbrev pub Outage : ℕ → ℕ → Type 0
  Outage n k = (i : ℕ) → i < k → transient (dispatch (n + i)) ≢ none

  Outage-first : (n k : ℕ) → Outage n (suc k) → (t : Transient) × (transient (dispatch n) ≡ some t)
  Outage-first n k o = elim (Option-cases (transient (dispatch n))) [
    | inl steady ↦
        absurd (o 0 (omega arith) (ap (λ m. transient (dispatch m)) (omega arith) ∙ steady))
    | inr found ↦ found
  ]

  Outage-rest : (n k : ℕ) → Outage n (suc k) → Outage (n + 1) k
  Outage-rest n k o i h steady =
      o (suc i) (omega arith) (ap (λ m. transient (dispatch m)) (omega arith) ∙ steady)

  -- The state in which the next attempt begins.
  abbrev retried : Transient → ℕ → WorkerRun → WorkerRun
  retried t attempt r = sleep attempt (count_event t (count_call r))

  retried-After :
      (t : Transient) (attempt k : ℕ) (r s : WorkerRun)
      → After (retried t attempt r) s (suc attempt) k
      → After r s attempt (suc k)
  retried-After t attempt k r s a = record {
    calls = a.calls ∙ omega (arith, count_event-calls t (count_call r));
    slept =
        a.slept
        ∙ rw (count_event-slept t (count_call r))
            (append_assoc r.slept (attempt ∷ []) (counting (suc attempt) k));
    degraded = a.degraded ∙ (count_event-others t (count_call r)).0;
    floor = a.floor ∙ (count_event-others t (count_call r)).1;
  }

  call_worker-output :
      (left attempt : ℕ) (r : WorkerRun) (out : Dict Value)
      → dispatch r.calls ≡ output out
      → call_worker dispatch left attempt r ≡ (replied out, count_call r)
  unfolding call_worker react
  call_worker-output zero attempt r out e = rw e refl
  call_worker-output (suc left) attempt r out e = rw e refl

  call_worker-retry :
      (left attempt : ℕ) (r : WorkerRun) (t : Transient)
      → transient (dispatch r.calls) ≡ some t
      → call_worker dispatch (suc left) attempt r
        ≡ call_worker dispatch left (suc attempt) (retried t attempt r)
  unfolding call_worker
  call_worker-retry left attempt r t e =
      react-transient (try_again (call_worker dispatch left (suc attempt)) attempt)
        (dispatch r.calls) t (count_call r) e

  call_worker-last :
      (attempt : ℕ) (r : WorkerRun) (t : Transient)
      → transient (dispatch r.calls) ≡ some t
      → call_worker dispatch zero attempt r ≡ (gave_up t, count_event t (count_call r))
  unfolding call_worker
  call_worker-last attempt r t e = react-transient raise_again (dispatch r.calls) t (count_call r) e

  retried-calls :
      (t : Transient) (attempt : ℕ) (r : WorkerRun) → (retried t attempt r).calls ≡ r.calls + 1
  retried-calls t attempt r = count_event-calls t (count_call r)

  retried-events :
      (t : Transient) (attempt : ℕ) (r : WorkerRun) → events (retried t attempt r) ≡ events r + 1
  retried-events t attempt r = count_event-events t (count_call r)

  retried-Outage :
      (t : Transient) (attempt k : ℕ) (r : WorkerRun)
      → Outage r.calls (suc k)
      → Outage (retried t attempt r).calls k
  retried-Outage t attempt k r o = rw (retried-calls t attempt r) (Outage-rest r.calls k o)

  -- If the hook replies behind `k` failed calls, and there are as many retries, the worker's outputs
  -- are that reply: the hook is called `k + 1` times, and the back-offs double from the first.
  pub call_worker-recovers :
      (k left attempt : ℕ) (r : WorkerRun) (out : Dict Value)
      → k ≤ left
      → Outage r.calls k
      → dispatch (r.calls + k) ≡ output out
      → (s : WorkerRun) × (call_worker dispatch left attempt r ≡ (replied out, s))
        × After r s attempt k
        × (events s ≡ events r + k)
  call_worker-recovers zero left attempt r out h o e = (
    count_call r,
    call_worker-output left attempt r out (ap dispatch {x = r.calls} (omega arith) ∙ e),
    record { calls = omega arith; slept = sym (append-nil r.slept); degraded = refl; floor = refl },
    omega arith,
  )
  call_worker-recovers (suc k) zero attempt r out h o e = absurd (omega arith)
  call_worker-recovers (suc k) (suc left) attempt r out h o e =
      let (t, raised) = Outage-first r.calls k o in
      let now : WorkerRun = retried t attempt r in
      let (s, returns, after, counted) =
        call_worker-recovers k left (suc attempt) now out (omega arith)
          (retried-Outage t attempt k r o)
          (ap dispatch {x = now.calls + k} (omega (arith, retried-calls t attempt r)) ∙ e) in
      (
        s,
        call_worker-retry left attempt r t raised ∙ returns,
        retried-After t attempt k r s after,
        omega (arith, counted, retried-events t attempt r),
      )

  -- If every call fails, the exception of the last one is raised behind `left` retries.
  pub call_worker-Outage :
      (left attempt : ℕ) (r : WorkerRun)
      → Outage r.calls (suc left)
      → (t : Transient) × (s : WorkerRun) × (transient (dispatch (r.calls + left)) ≡ some t)
        × (call_worker dispatch left attempt r ≡ (gave_up t, s))
        × After r s attempt left
        × (events s ≡ events r + suc left)
  call_worker-Outage zero attempt r o =
      let (t, raised) = Outage-first r.calls 0 o in
      (
        t,
        count_event t (count_call r),
        ap (λ m. transient (dispatch m)) {y = r.calls} (omega arith) ∙ raised,
        call_worker-last attempt r t raised,
        record {
          calls = count_event-calls t (count_call r);
          slept = count_event-slept t (count_call r) ∙ sym (append-nil r.slept);
          degraded = (count_event-others t (count_call r)).0;
          floor = (count_event-others t (count_call r)).1;
        },
        count_event-events t (count_call r),
      )
  call_worker-Outage (suc left) attempt r o =
      let (t, raised) = Outage-first r.calls (suc left) o in
      let now : WorkerRun = retried t attempt r in
      let (u, s, last, returns, after, counted) =
        call_worker-Outage left (suc attempt) now (retried-Outage t attempt (suc left) r o) in
      (
        u,
        s,
        ap (λ m. transient (dispatch m)) {y = now.calls + left}
              (omega (arith, retried-calls t attempt r))
            ∙ last,
        call_worker-retry left attempt r t raised ∙ returns,
        retried-After t attempt left r s after,
        omega (arith, counted, retried-events t attempt r),
      )
