-- ===== src/Findings/Grouping.antt =====
-- code_review/handlers.py `_semantic_merge`: an issue that is merged is stood for by the issue of its
-- group, which is no less severe and names every specialist that flagged it.
use skill_code_review.Base.{
  ℕ, zero, suc, ◌+◌, ◌*◌, ◌≤◌, ◌<◌, String, Bool, true, List, [], ◌∷◌, ◌≡◌, refl, ap, sym, ◌∙◌, ◌⊎◌,
  inl, inr, arith, Bool-cases, ◌==◌, ==_iff, length, map, All, Some, Some-map, All-append,
  Some-append_left, Some-append_right, str_eq, str_eq_iff, and-true, Option,
}
use mathlib.Core.Path.{subst}
use skill_code_review.Characters.{Characters}
use skill_code_review.Findings.Shape.{Issue}
use skill_code_review.Findings.Cluster.{
  Parents, find, link_rows, Groups, add_member, group, merge_members, merge_groups, are_together,
  merge_issues, semantic_merge, Embedder, range_from, issue_at, find_fuel, finding_text,
}
use skill_code_review.Findings.Roots.{Found, find-Found, Linked, link_rows-Linked, pairs}
use skill_code_review.Findings.Standing.{Stands, le→lt_suc, Stands-refl, merge_members-Stands}

-- The indices of a group have the file of its root.
abbrev OneFile : (ℕ → Issue) → ℕ × List ℕ → Type 0
OneFile issue g = All (λ i. (issue i).finding.file ≡ (issue g.0).finding.file) g.1

abbrev Holds : ℕ → ℕ × List ℕ → Type 0
Holds i g = Some (λ j. j ≡ i) g.1

All-map {ℓ} :
    {A B : Type ℓ} (f : A → B) (P : B → Type 0) (xs : List A)
    → All (λ x. P (f x)) xs
    → All P (map f xs)
All-map f P [] h = tt
All-map f P (x ∷ xs) h = (h.0, All-map f P xs h.1)

Some-of_map {ℓ} :
    {A B : Type ℓ} (f : A → B) (P : B → Type 0) (xs : List A)
    → Some (λ x. P (f x)) xs
    → Some P (map f xs)
Some-of_map f P [] h = h
Some-of_map f P (x ∷ xs) (inl h) = inl h
Some-of_map f P (x ∷ xs) (inr h) = inr (Some-of_map f P xs h)

merge_groups-Stands :
    (issue : ℕ → Issue) (groups : Groups) (i : ℕ)
    → All (OneFile issue) groups
    → Some (Holds i) groups
    → Some (Stands (issue i)) (merge_groups issue groups)
unfolding merge_groups
merge_groups-Stands issue [] i files h = absurd h
merge_groups-Stands issue ((root, members) ∷ groups) i files (inl h) =
    Some-append_left (Stands (issue i)) (merge_members (map issue members))
      (merge_groups issue groups)
      (merge_members-Stands (issue root).finding.file (map issue members) (issue i)
        (All-map issue (λ j. j.finding.file ≡ (issue root).finding.file) members files.0)
        (Some-of_map issue (λ j. j ≡ issue i) members
          (Some-map (λ j. j ≡ i) (λ j. issue j ≡ issue i) members (λ j e. ap issue e) h)))
merge_groups-Stands issue ((root, members) ∷ groups) i files (inr h) =
    Some-append_right (Stands (issue i)) (merge_members (map issue members))
      (merge_groups issue groups) (merge_groups-Stands issue groups i files.1 h)

add_member-Holds_new : (root i : ℕ) (groups : Groups) → Some (Holds i) (add_member root i groups)
unfolding add_member
add_member-Holds_new root i [] = inl (inl refl)
add_member-Holds_new root i ((r, members) ∷ groups) = elim (Bool-cases (r == root)) [
  | inl same ↦ rw same (inl (Some-append_right (λ j. j ≡ i) members (i ∷ []) (inl refl)))
  | inr differ ↦ rw differ (inr (add_member-Holds_new root i groups))
]

add_member-Holds_old :
    (root k i : ℕ) (groups : Groups)
    → Some (Holds i) groups
    → Some (Holds i) (add_member root k groups)
unfolding add_member
add_member-Holds_old root k i [] h = absurd h
add_member-Holds_old root k i ((r, members) ∷ groups) h = elim (Bool-cases (r == root)) [
  | inl same ↦ rw same (elim h [
    | inl here ↦ inl (Some-append_left (λ j. j ≡ i) members (k ∷ []) here)
    | inr later ↦ inr later
  ])
  | inr differ ↦ rw differ (elim h [
    | inl here ↦ inl here
    | inr later ↦ inr (add_member-Holds_old root k i groups later)
  ])
]

add_member-OneFile :
    (issue : ℕ → Issue) (root i : ℕ) (groups : Groups)
    → (issue i).finding.file ≡ (issue root).finding.file
    → All (OneFile issue) groups
    → All (OneFile issue) (add_member root i groups)
unfolding add_member
add_member-OneFile issue root i [] e h = ((e, tt), tt)
add_member-OneFile issue root i ((r, members) ∷ groups) e h = elim (Bool-cases (r == root)) [
  | inl same ↦
      let same_root : r ≡ root = (==_iff r root).0 same in
      rw same (
        All-append (λ j. (issue j).finding.file ≡ (issue r).finding.file) members (i ∷ []) h.0
            (e ∙ sym (ap (λ x. (issue x).finding.file) same_root), tt),
        h.1,
      )
  | inr differ ↦ rw differ (h.0, add_member-OneFile issue root i groups e h.1)
]

module _ (issue : ℕ → Issue) (fuel now : ℕ) (enough : now < fuel) where
  abbrev file_at : ℕ → String
  file_at i = (issue i).finding.file

  group-All :
      (is : List ℕ) (parent : Parents) (groups : Groups)
      → Linked file_at parent now
      → All (OneFile issue) groups
      → All (OneFile issue) (group fuel is parent groups)
        × ((i : ℕ)
            → (Some (Holds i) groups) ⊎ Some (λ j. j ≡ i) is
            → Some (Holds i) (group fuel is parent groups))
  unfolding group
  group-All [] parent groups l files =
      (files, λ i h. elim h [ inl old ↦ old | inr none_left ↦ absurd none_left ])
  group-All (k ∷ is) parent groups (date, d, keeps) files =
      let (root, after) = find fuel parent k in
      let f : Found file_at parent date now k (find fuel parent k) =
        find-Found file_at date now fuel parent k d keeps (omega arith) in
      let (files', holds) =
        group-All is after (add_member root k groups) (date, f.dated, f.keeps)
          (add_member-OneFile issue root k groups (sym f.same_mark) files) in
      (
        files',
        λ i h. holds i (elim h [
          | inl old ↦ inl (add_member-Holds_old root k i groups old)
          | inr new ↦ elim new [
            | inl e ↦ inl (rw (sym e) (add_member-Holds_new root k groups))
            | inr later ↦ inr later
          ]
        ]),
      )

index_of :
    (default x : Issue) (xs : List Issue)
    → Some (λ j. j ≡ x) xs
    → (k : ℕ) × (k < length xs) × (issue_at default xs k ≡ x)
unfolding issue_at
index_of default x [] h = absurd h
index_of default x (y ∷ xs) (inl e) = (0, omega arith, e)
index_of default x (y ∷ xs) (inr h) =
    let (k, small, e) = index_of default x xs h in (suc k, omega arith, e)

range_from-has : (k s n : ℕ) → s ≤ k → k < s + n → Some (λ j. j ≡ k) (range_from s n)
unfolding range_from
range_from-has k s zero h l = absurd (omega arith)
range_from-has k s (suc n) h l = elim (Bool-cases (s == k)) [
  | inl same ↦ inl ((==_iff s k).0 same)
  | inr differ ↦ inr (range_from-has k (suc s) n (ground arith) (omega arith))
]

length-range_from : (s n : ℕ) → length (range_from s n) ≡ n
unfolding range_from
length-range_from s zero = refl
length-range_from s (suc n) = ap suc (length-range_from (suc s) n)

square : (m k : ℕ) → k ≤ m * m → m + k ≤ suc m * suc m
square m k h = grind arith

pairs-le : (mark : ℕ → String) (is : List ℕ) → pairs mark is ≤ length is * length is
pairs-le mark [] = omega arith
pairs-le mark (i ∷ later) = square (length later) (pairs mark later) (pairs-le mark later)

module _ (ch : Characters) (embed : Embedder) where
  are_together-file :
      (vectors : Option (ℕ → ℕ → Bool)) (issue : ℕ → Issue) (i j : ℕ)
      → are_together ch embed vectors issue i j ≡ true
      → (issue i).finding.file ≡ (issue j).finding.file
  unfolding are_together
  are_together-file vectors issue i j h =
      (str_eq_iff (issue i).finding.file (issue j).finding.file).0
        (and-true (str_eq (issue i).finding.file (issue j).finding.file) _ h).0

  merge_issues-Stands :
      (first : Issue) (others : List Issue) (i : Issue)
      → Some (λ j. j ≡ i) (first ∷ others)
      → Some (Stands i) (merge_issues ch embed first others)
  unfolding merge_issues
  merge_issues-Stands first others i h =
      let issues = first ∷ others in
      let n = length issues in
      let indices = range_from 0 n in
      let issue : ℕ → Issue = issue_at first issues in
      let file : ℕ → String = λ k. (issue k).finding.file in
      let vectors = embed (map (λ j. finding_text j.finding) issues) in
      let together = are_together ch embed vectors issue in
      let parent = link_rows together (find_fuel n) indices (λ x. x) in
      let now = 0 + pairs file indices in
      let small : now < find_fuel n =
        le→lt_suc (
          subst (λ l. pairs file indices ≤ l * l) (length-range_from 0 n)
            (pairs-le file indices)) in
      let linked : Linked file parent now =
        link_rows-Linked file together (are_together-file vectors issue) (find_fuel n) indices
          (λ x. x) 0 small ((λ x. 0), (λ x. (omega arith, inl refl)), λ x. refl) in
      let (k, in_range, e) = index_of first i issues h in
      let (files, holds) = group-All issue (find_fuel n) now small indices parent [] linked tt in
      subst (λ m. Some (Stands m) (merge_groups issue (group (find_fuel n) indices parent []))) e
        (merge_groups-Stands issue (group (find_fuel n) indices parent []) k files
          (holds k (inr (range_from-has k 0 n (omega arith) (omega arith)))))

  -- Whatever is merged, an issue is stood for in the result.
  pub semantic_merge-Stands :
      (issues : List Issue) (i : Issue)
      → Some (λ j. j ≡ i) issues
      → Some (Stands i) (semantic_merge ch embed issues)
  unfolding semantic_merge
  semantic_merge-Stands [] i h = absurd h
  semantic_merge-Stands (a ∷ []) i (inl e) = inl (rw e (Stands-refl i))
  semantic_merge-Stands (a ∷ []) i (inr h) = absurd h
  semantic_merge-Stands (a ∷ b ∷ issues) i h = merge_issues-Stands a (b ∷ issues) i h
