-- ===== src/Readiness/Outcome.antt =====
-- code_review/handlers.py `handle_synthesize_release_readiness`: the shape of the result, and when
-- the verdict is NO-GO.
use skill_code_review.Base.{
  ℕ, suc, String, Bool, false, ◌&&◌, ◌||◌, not, none, some, List, [], ◌∷◌, ◌≡◌, refl, sym, ap, ◌∙◌,
  ◌==◌, if◌then◌else◌, any, contains, Dict, keep, tally, arith, Bool-cases, inl, inr,
}
use skill_code_review.Value.{Value, get, ensure_list, ensure_dict, as_str, truthy}
use skill_code_review.Result.{ok, >>=-eq-ok, ok-injective}
use skill_code_review.Readiness.{
  Gate, go, no_go, Readiness, gate_names, contributes, text_ids, gate_of, gates_from, is_fail,
  blocking_flagged_by, synthesize_release_readiness,
}

-- The id of a leaf is a text that a blocking finding is flagged by.
abbrev pub is_flagged : List String → Value → Bool
is_flagged blocking leaf = elim (as_str (get (ensure_dict leaf) "id")) [
  | none ↦ false
  | some leaf_id ↦ contains leaf_id blocking
]

-- A leaf blocks a gate.
abbrev pub blocks : List String → ℕ → Value → Bool
blocks blocking number leaf = contributes number leaf && is_flagged blocking leaf

-- Some picked leaf blocks one of the gates from `number` on, as many as there are names.
abbrev pub some_blocked : List String → List Value → ℕ → List String → Bool
some_blocked blocking leaves number [] = false
some_blocked blocking leaves number (name ∷ names) =
    any (blocks blocking number) leaves || some_blocked blocking leaves (suc number) names

any-text_ids :
    (blocking : List String) (leaf : Value) (leaves : List Value)
    → any (λ i. contains i blocking) (text_ids (leaf ∷ leaves))
      ≡ (is_flagged blocking leaf || any (λ i. contains i blocking) (text_ids leaves))
unfolding text_ids
any-text_ids blocking leaf leaves = ground arith

any_flagged :
    (blocking : List String) (number : ℕ) (leaves : List Value)
    → any (λ i. contains i blocking) (text_ids (keep (contributes number) leaves))
      ≡ any (blocks blocking number) leaves
any_flagged blocking number [] = unfold text_ids in refl
any_flagged blocking number (leaf ∷ leaves) = elim (Bool-cases (contributes number leaf)) [
  | inl here ↦
      rw (here, any-text_ids blocking leaf (keep (contributes number) leaves))
        (ap (λ b. is_flagged blocking leaf || b) (any_flagged blocking number leaves))
  | inr absent ↦ rw absent (any_flagged blocking number leaves)
]

any-tally : (p : String → Bool) (xs : List String) → (tally p xs == 0) ≡ not (any p xs)
any-tally p [] = refl
any-tally p (x ∷ xs) = ground (arith, any-tally p xs)

-- A gate fails exactly when one of the leaves that contribute to it is flagged.
is_fail-gate_of :
    (blocking : List String) (number : ℕ) (name : String) (leaves : List Value)
    → is_fail (gate_of blocking number name leaves)
      ≡ any (λ i. contains i blocking) (text_ids leaves)
unfolding gate_of
is_fail-gate_of blocking number name [] = refl
is_fail-gate_of blocking number name (leaf ∷ leaves) =
    rw (any-tally (λ i. contains i blocking) (text_ids (leaf ∷ leaves))) (ground arith)

any_fail-gates_from :
    (blocking : List String) (leaves : List Value) (number : ℕ) (names : List String)
    → any is_fail (gates_from blocking leaves number names)
      ≡ some_blocked blocking leaves number names
unfolding gates_from
any_fail-gates_from blocking leaves number [] = refl
any_fail-gates_from blocking leaves number (name ∷ names) = rw (
  is_fail-gate_of blocking number name (keep (contributes number) leaves),
  any_flagged blocking number leaves,
  any_fail-gates_from blocking leaves (suc number) names,
)

-- The gates carry the given names, and are numbered from `number` on.
abbrev pub Labelled : ℕ → List String → List Gate → Type 0
Labelled number [] [] = Unit
Labelled number [] (g ∷ gates) = ⊥
Labelled number (name ∷ names) [] = ⊥
Labelled number (name ∷ names) (g ∷ gates) =
    (g.number ≡ number) × (g.name ≡ name) × Labelled (suc number) names gates

gate_of-label :
    (blocking : List String) (number : ℕ) (name : String) (leaves : List Value)
    → let g = gate_of blocking number name leaves in (g.number ≡ number) × (g.name ≡ name)
unfolding gate_of
gate_of-label blocking number name [] = (refl, refl)
gate_of-label blocking number name (leaf ∷ leaves) = (refl, refl)

gates_from-Labelled :
    (blocking : List String) (leaves : List Value) (number : ℕ) (names : List String)
    → Labelled number names (gates_from blocking leaves number names)
unfolding gates_from
gates_from-Labelled blocking leaves number [] = tt
gates_from-Labelled blocking leaves number (name ∷ names) =
    let (n, l) = gate_of-label blocking number name (keep (contributes number) leaves) in
    (n, l, gates_from-Labelled blocking leaves (suc number) names)

-- A synthesis that returns has the eight gates with their names and the numbers 1 to 8. Its verdict
-- is NO-GO if the coverage rule is violated, or if some picked leaf contributes to one of the gates
-- and its id is among those that the blocking findings are flagged by; otherwise it is GO.
pub synthesize-verdict :
    (env : Dict Value) (r : Readiness)
    → synthesize_release_readiness env ≡ ok r
    → (blocking : List String) × (blocking_flagged_by (ensure_list (get env "findings"))
        ≡ ok blocking)
      × Labelled 1 gate_names r.gates
      × (r.verdict ≡ (
          if some_blocked blocking (ensure_list (get env "picked_leaves")) 1 gate_names
            || truthy (get env "coverage_rule_violated")
          then no_go
          else go))
unfolding synthesize_release_readiness
synthesize-verdict env r e =
    let leaves = ensure_list (get env "picked_leaves") in
    let (blocking, got, rest) =
      >>=-eq-ok (blocking_flagged_by (ensure_list (get env "findings"))) _ e in
    let same = ok-injective rest in
    (
      blocking,
      got,
      rw (sym same) (gates_from-Labelled blocking leaves 1 gate_names),
      ap (λ q. q.verdict) (sym same)
          ∙ ap (λ b. if b || truthy (get env "coverage_rule_violated") then no_go else go)
              (any_fail-gates_from blocking leaves 1 gate_names),
    )
