-- ===== src/Merger/Trim/Guard.antt =====
-- code_review/handlers.py, the aggregate-size guard of `handle_merge_specialist_outputs`: what it
-- may take away, and where it stops.
use skill_code_review.Base.{
  ℕ, zero, suc, ◌+◌, ◌-◌, ◌≤◌, ◌<◌, Bool, false, Option, none, some, List, [], ◌∷◌, ◌≡◌, ◌⊎◌, inl,
  inr, refl, sym, ap, ◌∙◌, arith, ltb, leb, ◌==◌, length, tally, Dict, insert, sort, Bool-cases,
  Option-cases, length-sort, some-injective,
}
use mathlib.Core.Path.{subst}
use skill_code_review.Value.{Value, null, list, get, as_list, array}
use skill_code_review.Result.{ok, ◌>>=◌, >>=-eq-ok, ok-injective}
use skill_code_review.Merger.Trim.{
  less_severe, output_budget, findings_of, count_findings, max_passes, largest, total_size,
  drop_first, shrink_at, shrink, put_first, put_before, trim_at, trim_lowest_priority_unit,
  trim_loop, guard_size,
}
use skill_code_review.Merger.Trim.Shrinking.{
  or_empty, findings, Shrunk, AllShrunk, Shrunk-self, AllShrunk-self, AllShrunk-trans, tally-sort,
  findings-insert, other_field-insert,
}

module _ (size : Dict Value → ℕ) where
  -- One pass takes one finding, and frees what the size has fallen by.
  abbrev Less : Dict Value → Dict Value → ℕ → Type 0
  Less out left freed =
      Shrunk out left
      × (suc (length (findings left)) ≡ length (findings out))
      × (size left + freed ≡ size out)
      × (0 < freed)

  insert-Less :
      (target : Dict Value) (lowest : Value) (left : List Value)
      → ((p : Value → Bool) → tally p (lowest ∷ left) ≡ tally p (findings target))
      → suc (length left) ≡ length (findings target)
      → let trimmed = insert "findings" (array left) target in
        leb (size target) (size trimmed) ≡ false → Less target trimmed (size target - size trimmed)
  insert-Less target lowest left t n h = (
    (
      λ k. other_field-insert k (array left) target,
      λ p. rw (findings-insert left target) (omega (arith, t p)),
    ),
    rw (findings-insert left target) n,
    ground (arith, h),
    ground (arith, h),
  )

  drop_first-Less :
      (target : Dict Value) (fs : List Value) (left : Dict Value) (freed : ℕ)
      → ((p : Value → Bool) → tally p fs ≡ tally p (findings target))
      → length fs ≡ length (findings target)
      → drop_first size target fs ≡ some (left, freed)
      → Less target left freed
  unfolding drop_first
  drop_first-Less target [] left freed t n e = cc
  drop_first-Less target (lowest ∷ rest) left freed t n e =
      let trimmed = insert "findings" (array rest) target in
      elim (Bool-cases (leb (size target) (size trimmed))) [
        | inl kept ↦ let q : none ≡ some (left, freed) = (rw kept at e) in cc
        | inr shrinks ↦
            let q : some (trimmed, size target - size trimmed) ≡ some (left, freed) =
              (rw shrinks at e) in
            let r : (trimmed, size target - size trimmed) ≡ (left, freed) = some-injective q in
            subst (λ z. Less target z.0 z.1) r (insert-Less target lowest rest t n shrinks)
      ]

  shrink_at-Less :
      (target : Dict Value) (o : Option (List Value)) (left : Dict Value) (freed : ℕ)
      → findings_of target ≡ o
      → shrink_at size target o ≡ some (left, freed)
      → Less target left freed
  unfolding shrink_at
  shrink_at-Less target none left freed q e = cc
  shrink_at-Less target (some fs) left freed q e =
      let same : fs ≡ findings target = ap or_empty (sym q) in
      drop_first-Less target (sort less_severe fs) left freed
        (λ p. tally-sort p fs ∙ ap (tally p) same) (length-sort less_severe fs ∙ ap length same) e

  abbrev pub total_findings : List (Dict Value) → ℕ
  total_findings [] = 0
  total_findings (out ∷ outs) = length (findings out) + total_findings outs

  abbrev AllLess : List (Dict Value) → List (Dict Value) → ℕ → Type 0
  AllLess outs lefts freed =
      AllShrunk outs lefts
      × (suc (total_findings lefts) ≡ total_findings outs)
      × (total_size size lefts + freed ≡ total_size size outs)
      × (0 < freed)

  put_first-AllLess :
      (out : Dict Value) (outs : List (Dict Value)) (o : Option (Dict Value × ℕ))
      (lefts : List (Dict Value)) (freed : ℕ)
      → ((left : Dict Value) (n : ℕ) → o ≡ some (left, n) → Less out left n)
      → put_first outs o ≡ some (lefts, freed)
      → AllLess (out ∷ outs) lefts freed
  put_first-AllLess out outs none lefts freed h e = cc
  put_first-AllLess out outs (some (left, n)) lefts freed h e =
      let (s, c, z, p) = h left n refl in
      subst (λ q. AllLess (out ∷ outs) q.0 q.1) (some-injective e)
        ((s, AllShrunk-self outs), omega (arith, c), omega (arith, z), p)

  put_before-AllLess :
      (out : Dict Value) (outs : List (Dict Value)) (o : Option (List (Dict Value) × ℕ))
      (lefts : List (Dict Value)) (freed : ℕ)
      → ((rest : List (Dict Value)) (n : ℕ) → o ≡ some (rest, n) → AllLess outs rest n)
      → put_before out o ≡ some (lefts, freed)
      → AllLess (out ∷ outs) lefts freed
  put_before-AllLess out outs none lefts freed h e = cc
  put_before-AllLess out outs (some (rest, n)) lefts freed h e =
      let (s, c, z, p) = h rest n refl in
      subst (λ q. AllLess (out ∷ outs) q.0 q.1) (some-injective e)
        ((Shrunk-self out, s), omega (arith, c), omega (arith, z), p)

  trim_at-AllLess :
      (biggest : ℕ) (outs lefts : List (Dict Value)) (freed : ℕ)
      → trim_at size biggest outs ≡ some (lefts, freed)
      → AllLess outs lefts freed
  unfolding trim_at
  trim_at-AllLess biggest [] lefts freed e = cc
  trim_at-AllLess biggest (out ∷ outs) lefts freed e = elim (Bool-cases (size out == biggest)) [
    | inl here ↦
        put_first-AllLess out outs (shrink size out) lefts freed
          (λ left n q. shrink_at-Less out (findings_of out) left n refl (unfold shrink in q))
          (rw here at e)
    | inr later ↦
        put_before-AllLess out outs (trim_at size biggest outs) lefts freed
          (λ rest n q. trim_at-AllLess biggest outs rest n q) (rw later at e)
  ]

  trim_loop-AllShrunk :
      (left aggregate : ℕ) (outs : List (Dict Value))
      → AllShrunk outs (trim_loop size left aggregate outs)
  unfolding trim_loop trim_lowest_priority_unit
  trim_loop-AllShrunk zero aggregate outs = AllShrunk-self outs
  trim_loop-AllShrunk (suc left) aggregate outs = elim (Bool-cases (ltb output_budget aggregate)) [
    | inr fits ↦ rw fits (AllShrunk-self outs)
    | inl over ↦ elim (Option-cases (trim_lowest_priority_unit size outs)) [
      | inl stuck ↦ rw (over, stuck) (AllShrunk-self outs)
      | inr ((trimmed, freed), e) ↦
          rw (over, e)
            (AllShrunk-trans outs trimmed (trim_loop size left (aggregate - freed) trimmed)
              (trim_at-AllLess (largest size outs) outs trimmed freed e).0
              (trim_loop-AllShrunk left (aggregate - freed) trimmed))
    ]
  ]

  trim_loop-stops :
      (left aggregate : ℕ) (outs : List (Dict Value))
      → total_findings outs ≤ left
      → aggregate ≡ total_size size outs
      → let lefts = trim_loop size left aggregate outs in
        (total_size size lefts ≤ output_budget) ⊎ (trim_lowest_priority_unit size lefts ≡ none)
  unfolding trim_loop trim_lowest_priority_unit
  trim_loop-stops zero aggregate outs h q =
      elim (Option-cases (trim_lowest_priority_unit size outs)) [
        | inl stuck ↦ inr stuck
        | inr ((trimmed, freed), e) ↦
            let less = trim_at-AllLess (largest size outs) outs trimmed freed e in
            absurd (omega (arith, less.1, h))
      ]
  trim_loop-stops (suc left) aggregate outs h q = elim (Bool-cases (ltb output_budget aggregate)) [
    | inr fits ↦ rw fits (inl (ground (arith, fits, q)))
    | inl over ↦ elim (Option-cases (trim_lowest_priority_unit size outs)) [
      | inl stuck ↦ rw (over, stuck) (inr stuck)
      | inr ((trimmed, freed), e) ↦
          let less = trim_at-AllLess (largest size outs) outs trimmed freed e in
          rw (over, e)
            (trim_loop-stops left (aggregate - freed) trimmed (omega (arith, less.1, h))
              (omega (arith, less.2, q)))
    ]
  ]

count_findings-bound :
    (v : Value) (n : ℕ) → count_findings v ≡ ok n → length (or_empty (as_list v)) ≤ n
unfolding count_findings
count_findings-bound (list vs) n e = omega (arith, ok-injective e)
count_findings-bound null n e = omega arith
count_findings-bound _ n e = omega arith

max_passes-bound :
    (size : Dict Value → ℕ) (outs : List (Dict Value)) (n : ℕ)
    → max_passes outs ≡ ok n
    → total_findings size outs ≤ n
unfolding max_passes
max_passes-bound size [] n e = omega arith
max_passes-bound size (out ∷ outs) n e =
    let (a, got, e1) = >>=-eq-ok (count_findings (get out "findings")) _ e in
    let (b, more, e2) = >>=-eq-ok (max_passes outs) _ e1 in
    omega (
      arith,
      count_findings-bound (get out "findings") a got,
      max_passes-bound size outs b more,
      ok-injective e2,
    )

-- The size guard keeps every output in its place, with all its fields but some of its findings, and
-- no finding is new. It stops with a total within the budget, or where no further pass can trim.
pub guard_size-AllShrunk :
    (size : Dict Value → ℕ) (outs lefts : List (Dict Value))
    → guard_size size outs ≡ ok lefts
    → AllShrunk outs lefts
      × ((total_size size lefts ≤ output_budget) ⊎ (trim_lowest_priority_unit size lefts ≡ none))
unfolding guard_size
guard_size-AllShrunk size outs lefts e =
    elim (Bool-cases (ltb output_budget (total_size size outs))) [
      | inl over ↦
          let q : (max_passes outs >>= (λ n. ok (trim_loop size n (total_size size outs) outs)))
              ≡ ok lefts =
            (rw over at e) in
          let (n, got, e1) = >>=-eq-ok (max_passes outs) _ q in
          rw (sym (ok-injective e1)) (
            trim_loop-AllShrunk size n (total_size size outs) outs,
            trim_loop-stops size n (total_size size outs) outs (max_passes-bound size outs n got)
                refl,
          )
      | inr fits ↦
          let q : ok outs ≡ ok lefts = (rw fits at e) in
          rw (sym (ok-injective q)) (AllShrunk-self outs, inl (ground (arith, fits)))
    ]
