-- ===== src/Findings/Standing.antt =====
-- code_review/handlers.py `_semantic_merge`: the issue that a group of issues is merged to stands for
-- each of them.
use skill_code_review.Base.{
  ℕ, suc, ◌+◌, ◌≤◌, ◌<◌, String, true, List, [], ◌∷◌, ◌≡◌, refl, sym, ◌∙◌, ◌⊎◌, inl, inr, arith,
  Bool-cases, All, Some, Some-map, contains, update, contains-sorted, contains-update,
}
use skill_code_review.Value.{Float}
use skill_code_review.Findings.Shape.{Finding, Issue, rank, zero_float, float_eq}
use skill_code_review.Findings.Cluster.{
  better_of, best, all_flagged, max_confidence, with_confidence, merge_group, merge_members,
}

-- `g` stands for `m`: it is in the same file, it is no less severe, and whoever flagged `m` is named.
pub record Stands (m g : Issue) : Type 0 where
  pub file : g.finding.file ≡ m.finding.file
  pub severe : rank m.finding ≤ rank g.finding
  pub flags : (id : String) → contains id m.flagged_by ≡ true → contains id g.flagged_by ≡ true

pub le→lt_suc : {m n : ℕ} → m ≤ n → 0 + m < suc n
le→lt_suc h = omega arith

pub Stands-refl : (m : Issue) → Stands m m
Stands-refl m = record { file = refl; severe = omega arith; flags = λ id h. h }

better_of-rank :
    (a b : Issue)
    → (rank a.finding ≤ rank (better_of a b).finding)
      × (rank b.finding ≤ rank (better_of a b).finding)
unfolding better_of
better_of-rank a b = ground arith

better_of-file :
    (file : String) (a b : Issue)
    → a.finding.file ≡ file
    → b.finding.file ≡ file
    → (better_of a b).finding.file ≡ file
unfolding better_of
better_of-file file a b h k = ground arith

best-rank :
    (a : Issue) (bs : List Issue)
    → (rank a.finding ≤ rank (best a bs).finding)
      × All (λ b. rank b.finding ≤ rank (best a bs).finding) bs
unfolding best
best-rank a [] = (omega arith, tt)
best-rank a (b ∷ bs) =
    let (up, rest) = best-rank (better_of a b) bs in
    let (up_a, up_b) = better_of-rank a b in
    (omega (arith, up, up_a), (omega (arith, up, up_b), rest))

best-file :
    (file : String) (a : Issue) (bs : List Issue)
    → a.finding.file ≡ file
    → All (λ b. b.finding.file ≡ file) bs
    → (best a bs).finding.file ≡ file
unfolding best
best-file file a [] h hs = h
best-file file a (b ∷ bs) h hs =
    best-file file (better_of a b) bs (better_of-file file a b h hs.0) hs.1

contains-all_flagged :
    (id : String) (flagged : List String) (members : List Issue)
    → (contains id flagged ≡ true) ⊎ Some (λ m. contains id m.flagged_by ≡ true) members
    → contains id (all_flagged flagged members) ≡ true
unfolding all_flagged
contains-all_flagged id flagged [] (inl h) = h
contains-all_flagged id flagged [] (inr h) = absurd h
contains-all_flagged id flagged (m ∷ members) (inl h) =
    contains-all_flagged id (update flagged m.flagged_by) members
      (inl (contains-update id flagged m.flagged_by ∙ rw h refl))
contains-all_flagged id flagged (m ∷ members) (inr (inl h)) =
    contains-all_flagged id (update flagged m.flagged_by) members
      (inl (contains-update id flagged m.flagged_by ∙ rw h (ground arith)))
contains-all_flagged id flagged (m ∷ members) (inr (inr h)) =
    contains-all_flagged id (update flagged m.flagged_by) members (inr h)

with_confidence-same :
    (c : Float) (f : Finding)
    → ((with_confidence c f).file ≡ f.file) × (rank (with_confidence c f) ≡ rank f)
unfolding rank
with_confidence-same c f = elim (Bool-cases (float_eq c zero_float)) [
  | inl none_found ↦ rw none_found (refl, refl)
  | inr found ↦ rw found (refl, refl)
]

of-member :
    (P : Issue → Type 0) (i : Issue) (xs : List Issue) → All P xs → Some (λ j. j ≡ i) xs → P i
of-member P i [] hs h = absurd h
of-member P i (x ∷ xs) hs (inl e) = rw (sym e) hs.0
of-member P i (x ∷ xs) hs (inr h) = of-member P i xs hs.1 h

-- The issue of a group of two at least stands for a member.
merge_group-Stands :
    (file : String) (m n : Issue) (members : List Issue) (i : Issue)
    → All (λ j. j.finding.file ≡ file) (m ∷ n ∷ members)
    → Some (λ j. j ≡ i) (m ∷ n ∷ members)
    → Stands i (merge_group m (n ∷ members))
unfolding merge_group
merge_group-Stands file m n members i files found =
    let rep = best m (n ∷ members) in
    let same = with_confidence-same (max_confidence zero_float (m ∷ n ∷ members)) rep.finding in
    let ranks = best-rank m (n ∷ members) in
    record {
      file =
          same.0
          ∙ (best-file file m (n ∷ members) files.0 files.1
              ∙ sym (of-member (λ j. j.finding.file ≡ file) i (m ∷ n ∷ members) files found));
      severe =
          rw same.1
            (of-member (λ j. rank j.finding ≤ rank rep.finding) i (m ∷ n ∷ members) ranks found);
      flags = λ id h.
          contains-sorted id (all_flagged [] (m ∷ n ∷ members))
          ∙ contains-all_flagged id [] (m ∷ n ∷ members) (
              inr (
                Some-map (λ j. j ≡ i) (λ j. contains id j.flagged_by ≡ true) (m ∷ n ∷ members)
                  (λ j e. rw e h) found));
    }

-- An issue that is among the members is stood for.
pub merge_members-Stands :
    (file : String) (members : List Issue) (i : Issue)
    → All (λ j. j.finding.file ≡ file) members
    → Some (λ j. j ≡ i) members
    → Some (Stands i) (merge_members members)
unfolding merge_group
merge_members-Stands file [] i files found = absurd found
merge_members-Stands file (m ∷ []) i files (inl e) = inl (rw e (Stands-refl i))
merge_members-Stands file (m ∷ []) i files (inr h) = absurd h
merge_members-Stands file (m ∷ n ∷ members) i files found =
    inl (merge_group-Stands file m n members i files found)
