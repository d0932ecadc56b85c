-- ===== src/Worker/Picks.antt =====
-- code_review/runner.py `_coverage_floor`: how many leaves it picks, and which.
use skill_code_review.Base.{
  ℕ, zero, suc, ◌≤◌, min, String, true, false, Option, none, some, List, [], ◌∷◌, ◌≡◌, ◌≢◌, refl,
  ap, sym, ◌∙◌, ◌⊎◌, inl, inr, arith, All, All-sort, length, length-take, length-sort, take, sort,
  Dict, lookup, insert, str_eq, pos,
}
use skill_code_review.Value.{
  Value, int, list, get, get-insert, truthy, elements, array, Items, nil, item,
}
use skill_code_review.Result.{ok, Parsers, to_int, >>=-eq-ok, ok-injective}
use skill_code_review.Merger.{dicts}
use skill_code_review.Worker.Floor.{
  Floored, coverage_floor, floor_from, or_value, project_languages, scores, score, pick, picks,
  with_picks, set_default, put_if_absent, scores_above,
}

-- A leaf that can be picked: it has an id and a path.
abbrev pub IsPickable : Dict Value → Type 0
IsPickable leaf = (truthy (get leaf "id") ≡ true) × (truthy (get leaf "path") ≡ true)

module _ (p : Parsers) (show : Value → String) where
  -- The entry of one of the leaves.
  abbrev pub IsPickOf : List (Dict Value) → Value → Type 0
  IsPickOf [] v = ⊥
  IsPickOf (leaf ∷ leaves) v = (v ≡ pick p show leaf) ⊎ IsPickOf leaves v

  get-put_if_absent :
      (o : Option Value) (k : String) (d : Dict Value)
      → str_eq k "picked_leaves" ≡ false
      → get (put_if_absent p show o k d) "picked_leaves" ≡ get d "picked_leaves"
  get-put_if_absent none k d differ = get-insert k "picked_leaves" (array []) d ∙ rw differ refl
  get-put_if_absent (some v) k d differ = refl

  get-with_picks :
      (out : Dict Value) (v : Value) (picked : List Value)
      → get (with_picks p show out (v ∷ picked)).outputs "picked_leaves" ≡ array (v ∷ picked)
  unfolding with_picks
  get-with_picks out v picked =
      let chosen = insert "picked_leaves" (array (v ∷ picked)) out in
      let with_rejected = set_default p show "rejected_leaves" chosen in
      get-put_if_absent (lookup "coverage_rescues" with_rejected) "coverage_rescues" with_rejected
        refl
      ∙ (get-put_if_absent (lookup "rejected_leaves" chosen) "rejected_leaves" chosen refl
          ∙ get-insert "picked_leaves" "picked_leaves" (array (v ∷ picked)) out)

  length-scores :
      (langs : List String) (leaves : List (Dict Value)) (scored : List (Dict Value × ℕ))
      → scores p show langs leaves ≡ ok scored
      → length scored ≡ length leaves
  unfolding scores
  length-scores langs [] scored e = rw (sym (ok-injective e)) refl
  length-scores langs (leaf ∷ leaves) scored e =
      let (s, _, e') = >>=-eq-ok (score p show langs leaf) _ e in
      let (rest, scored_rest, e'') = >>=-eq-ok (scores p show langs leaves) _ e' in
      rw (sym (ok-injective e'')) (ap suc (length-scores langs leaves rest scored_rest))

  -- What holds of the leaves holds of the leaves with their scores.
  All-scores {κ} :
      (P : Dict Value → Type κ) (langs : List String) (leaves : List (Dict Value))
      (scored : List (Dict Value × ℕ))
      → scores p show langs leaves ≡ ok scored
      → All P leaves
      → All (λ e. P e.0) scored
  unfolding scores
  All-scores P langs [] scored e h = rw (sym (ok-injective e)) tt
  All-scores P langs (leaf ∷ leaves) scored e h =
      let (s, _, e') = >>=-eq-ok (score p show langs leaf) _ e in
      let (rest, scored_rest, e'') = >>=-eq-ok (scores p show langs leaves) _ e' in
      rw (sym (ok-injective e'')) (h.0, All-scores P langs leaves rest scored_rest h.1)

  All-of_leaves {κ} :
      (P : Dict Value → Type κ) (leaves : List (Dict Value))
      → ((leaf : Dict Value) → IsPickOf leaves (pick p show leaf) → P leaf)
      → All P leaves
  All-of_leaves P [] h = tt
  All-of_leaves P (leaf ∷ leaves) h =
      (h leaf (inl refl), All-of_leaves P leaves (λ l i. h l (inr i)))

  All-take {ℓ κ} :
      {A : Type ℓ} (P : A → Type κ) (n : ℕ) (xs : List A) → All P xs → All P (take n xs)
  All-take P zero xs h = tt
  All-take P (suc n) [] h = tt
  All-take P (suc n) (x ∷ xs) h = (h.0, All-take P n xs h.1)

  All-pair {ℓ κ μ} :
      {A : Type ℓ} (P : A → Type κ) (Q : A → Type μ) (xs : List A)
      → All P xs
      → All Q xs
      → All (λ x. P x × Q x) xs
  All-pair P Q [] hp hq = tt
  All-pair P Q (x ∷ xs) hp hq = ((hp.0, hq.0), All-pair P Q xs hp.1 hq.1)

  abbrev Ranked : List (Dict Value) → Dict Value × ℕ → Type 0
  Ranked leaves e = IsPickable e.0 × IsPickOf leaves (pick p show e.0)

  picks-All :
      (leaves : List (Dict Value)) (ranked : List (Dict Value × ℕ))
      → All (Ranked leaves) ranked
      → (length (picks p show ranked) ≡ length ranked) × All (IsPickOf leaves) (picks p show ranked)
  unfolding picks
  picks-All leaves [] h = (refl, tt)
  picks-All leaves ((leaf, s) ∷ ranked) h =
      let (count, of_leaves) = picks-All leaves ranked h.1 in
      rw (h.0.0.0, h.0.0.1) (ap suc count, (h.0.1, of_leaves))

  -- The picked leaves, when there is one at least.
  with_picks-some :
      (out : Dict Value) (picked : List Value)
      → 1 ≤ length picked
      → get (with_picks p show out picked).outputs "picked_leaves" ≡ array picked
  with_picks-some out [] h = absurd (omega arith)
  with_picks-some out (v ∷ picked) h = get-with_picks out v picked

  length-positive {ℓ} : {A : Type ℓ} (xs : List A) → xs ≢ [] → 1 ≤ length xs
  length-positive [] h = absurd (h refl)
  length-positive (x ∷ xs) h = omega arith

  IsPickOf-All : (leaves : List (Dict Value)) → All (λ l. IsPickOf leaves (pick p show l)) leaves
  IsPickOf-All leaves = All-of_leaves (λ l. IsPickOf leaves (pick p show l)) leaves (λ l i. i)

  -- If the trimming worker picks no leaf while leaves with ids and paths were activated, then the
  -- floor picks among them: as many as the cap allows, or all of them. So the review has a leaf.
  -- The cap is positive, and the languages and the scores can be read.
  pub coverage_floor-picks :
      (inputs out env : Dict Value) {vs : Items} {c : ℕ} {langs : List String}
      {scored : List (Dict Value × ℕ)}
      → truthy (get out "picked_leaves") ≡ false
      → get env "activated_leaves" ≡ list vs
      → dicts (elements vs) ≢ []
      → All IsPickable (dicts (elements vs))
      → to_int p (or_value (or_value (get env "cap") (get env "tier_cap")) (int (pos 20)))
        ≡ ok (pos (suc c))
      → project_languages p show env ≡ ok langs
      → scores p show langs (dicts (elements vs)) ≡ ok scored
      → (f : Floored) × (picked : List Value) × (coverage_floor p show "llm_trim" inputs out env
          ≡ ok f)
        × (get f.outputs "picked_leaves" ≡ array picked)
        × (length picked ≡ min (suc c) (length (dicts (elements vs))))
        × All (IsPickOf (dicts (elements vs))) picked
  unfolding coverage_floor floor_from truthy
  coverage_floor-picks inputs out env {vs = nil} u a some_leaf pickable cap languages
        scored_leaves =
      absurd (some_leaf (unfold dicts in refl))
  coverage_floor-picks inputs out env {vs = item v vs} {c} {langs} {scored} unpicked activated
        some_leaf pickable cap languages scored_leaves =
      let leaves = dicts (elements (item v vs)) in
      let top = take (suc c) (sort (scores_above p show) scored) in
      let count : length top ≡ min (suc c) (length leaves) =
        length-take (suc c) (sort (scores_above p show) scored)
        ∙ ap (min (suc c)) (
            length-sort (scores_above p show) scored
            ∙ length-scores langs leaves scored scored_leaves) in
      let ranked = All-take (Ranked leaves) (suc c) (sort (scores_above p show) scored) (
        All-sort (scores_above p show) (Ranked leaves) scored (
          All-pair (λ e. IsPickable e.0) (λ e. IsPickOf leaves (pick p show e.0)) scored
            (All-scores IsPickable langs leaves scored scored_leaves pickable)
            (All-scores (λ l. IsPickOf leaves (pick p show l)) langs leaves scored scored_leaves
              (IsPickOf-All leaves)))) in
      let (picked_count, of_leaves) = picks-All leaves top ranked in
      (
        with_picks p show out (picks p show top),
        picks p show top,
        rw (unpicked, activated) (rw (cap, languages, scored_leaves) refl),
        with_picks-some out (picks p show top)
            (omega (arith, picked_count, count, length-positive leaves some_leaf)),
        picked_count ∙ count,
        of_leaves,
      )
