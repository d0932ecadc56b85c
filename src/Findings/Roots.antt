-- ===== src/Findings/Roots.antt =====
-- code_review/handlers.py `_semantic_merge`: the union-find. Every search for a root ends, and the
-- links stay within what the linked pairs have in common.
use skill_code_review.Base.{
  ℕ, zero, suc, ◌+◌, ◌-◌, ◌≤◌, ◌<◌, Bool, true, false, List, [], ◌∷◌, ◌≡◌, refl, ap, sym, ◌∙◌, ◌⊎◌,
  inl, inr, arith, Bool-cases, ◌==◌, ==_iff, if◌then◌else◌, length,
}
use skill_code_review.Findings.Cluster.{Parents, point, find, link, link_row, link_rows}

-- Every parent that is not the index itself has a later date, and no date is later than `now`.
abbrev pub Dated : Parents → (ℕ → ℕ) → ℕ → Type 0
Dated parent date now = (x : ℕ) → (date x ≤ now) × ((parent x ≡ x) ⊎ (date x < date (parent x)))

-- An index and its parent agree on `mark`.
abbrev pub Keeps {ℓ} : {M : Type ℓ} → (ℕ → M) → Parents → Type ℓ
Keeps mark parent = (x : ℕ) → mark (parent x) ≡ mark x

not-same : (a b : ℕ) → (a == b) ≡ false → a ≡ b → ⊥
not-same a b h e = ground arith

point_self : (parent : Parents) (x v : ℕ) → point parent x v x ≡ v
point_self parent x v = ground arith

-- To show something of every entry, show it of the new one and of the old ones.
point-cases {ℓ} :
    (P : ℕ → ℕ → Type ℓ) (parent : Parents) (x v : ℕ)
    → P x v
    → ((y : ℕ) → P y (parent y))
    → (y : ℕ) → P y (point parent x v y)
point-cases P parent x v new old y = elim (Bool-cases (y == x)) [
  | inl same ↦ let e : y ≡ x = (==_iff y x).0 same in rw (same, e) new
  | inr differ ↦ rw differ (old y)
]

-- What the search from `x` ends with.
pub record Found {ℓ} {M : Type ℓ} (mark : ℕ → M) (parent : Parents) (date : ℕ → ℕ) (now x : ℕ)
    (r : ℕ × Parents) : Type ℓ where
  pub is_root : r.1 r.0 ≡ r.0
  pub dated : Dated r.1 date now
  pub roots_stay : (y : ℕ) → parent y ≡ y → r.1 y ≡ y
  pub keeps : Keeps mark r.1
  pub same_mark : mark r.0 ≡ mark x

halved-root :
    (parent : Parents) (x y : ℕ)
    → (parent x == x) ≡ false
    → parent y ≡ y
    → point parent x (parent (parent x)) y ≡ y
halved-root parent x y differ root = elim (Bool-cases (y == x)) [
  | inl same ↦
      let e : y ≡ x = (==_iff y x).0 same in
      absurd (not-same (parent x) x differ (sym (ap parent e) ∙ (root ∙ e)))
  | inr other ↦ rw other root
]

module _ {ℓ} {M : Type ℓ} (mark : ℕ → M) (date : ℕ → ℕ) (now : ℕ) where
  up-later :
      (parent : Parents) (x : ℕ)
      → Dated parent date now
      → date x < date (parent x)
      → date x < date (parent (parent x))
  up-later parent x d later = elim ((d (parent x)).1) [
    | inl root ↦ rw root later
    | inr further ↦ omega arith
  ]

  -- The halved path.
  halve-Dated :
      (parent : Parents) (x : ℕ)
      → Dated parent date now
      → date x < date (parent x)
      → Dated (point parent x (parent (parent x))) date now
  halve-Dated parent x d later =
      point-cases (λ y v. (date y ≤ now) × ((v ≡ y) ⊎ (date y < date v))) parent x
        (parent (parent x)) ((d x).0, inr (up-later parent x d later)) d

  later-of :
      (parent : Parents) (x : ℕ)
      → Dated parent date now
      → (parent x == x) ≡ false
      → date x < date (parent x)
  later-of parent x d h = elim ((d x).1) [
    | inl root ↦ absurd (not-same (parent x) x h root)
    | inr later ↦ later
  ]

  -- With more fuel than there are dates left, the search ends at a root. It moves no root, keeps the
  -- marks, and the root has the mark of the index that it began at.
  pub find-Found :
      (fuel : ℕ) (parent : Parents) (x : ℕ)
      → Dated parent date now
      → Keeps mark parent
      → now - date x < fuel
      → Found mark parent date now x (find fuel parent x)
  unfolding find
  find-Found zero parent x d k h = absurd (omega arith)
  find-Found (suc fuel) parent x d k h = elim (Bool-cases (parent x == x)) [
    | inl same ↦ rw same (record {
      is_root = (==_iff (parent x) x).0 same;
      dated = d;
      roots_stay = λ y r. r;
      keeps = k;
      same_mark = refl;
    })
    | inr differ ↦
        let later = later-of parent x d differ in
        let up = parent (parent x) in
        let halved = point parent x up in
        let f : Found mark halved date now up (find fuel halved up) =
          find-Found fuel halved up (halve-Dated parent x d later)
            (point-cases (λ y v. mark v ≡ mark y) parent x up (k (parent x) ∙ k x) k)
            (omega (arith, up-later parent x d later, (d x).0, (d up).0)) in
        rw differ (record {
          is_root = f.is_root;
          dated = f.dated;
          roots_stay = λ y r. f.roots_stay y (halved-root parent x y differ r);
          keeps = f.keeps;
          same_mark = f.same_mark ∙ (k (parent x) ∙ k x);
        })
  ]

-- The dates when the root `rj` has got the next one.
abbrev pub redate : (ℕ → ℕ) → ℕ → ℕ → ℕ → ℕ
redate date rj now y = if y == rj then suc now else date y

redate-later : (date : ℕ → ℕ) (rj now y : ℕ) → date y ≤ now → date y ≤ redate date rj now y
redate-later date rj now y h = ground arith

redate-root : (date : ℕ → ℕ) (rj now : ℕ) → redate date rj now rj ≡ suc now
redate-root date rj now = ground arith

redate-other : (date : ℕ → ℕ) (rj now y : ℕ) → (y == rj) ≡ false → redate date rj now y ≡ date y
redate-other date rj now y h = rw h refl

point-Dated :
    (parent : Parents) (date : ℕ → ℕ) (now ri rj : ℕ)
    → Dated parent date now
    → parent ri ≡ ri
    → parent rj ≡ rj
    → Dated (point parent ri rj) (redate date rj now) (suc now)
point-Dated parent date now ri rj d root_i root_j y = (
  ground (arith, (d y).0),
  point-cases (λ y v. (v ≡ y) ⊎ (redate date rj now y < redate date rj now v)) parent ri rj
      (elim (Bool-cases (ri == rj)) [
        | inl same ↦ inl (sym ((==_iff ri rj).0 same))
        | inr differ ↦ inr (
            rw (redate-other date rj now ri differ, redate-root date rj now)
              (omega (arith, (d ri).0)))
      ])
      (λ y. elim ((d y).1) [
        | inl root ↦ inl root
        | inr later ↦ elim (Bool-cases (y == rj)) [
          | inl same ↦
              let e : y ≡ rj = (==_iff y rj).0 same in
              let e' : parent y ≡ y = ap parent e ∙ (root_j ∙ sym e) in
              absurd (omega (arith, later, ap date e'))
          | inr differ ↦ inr (
              rw (redate-other date rj now y differ)
                (omega (arith, later, redate-later date rj now (parent y) (d (parent y)).0)))
        ]
      ])
      y,
)

module _ {ℓ} {M : Type ℓ} (mark : ℕ → M) where
  -- The links of a state in which every search ends: there are dates, and `now` is the last.
  abbrev pub Linked : Parents → ℕ → Type ℓ
  Linked parent now = (date : ℕ → ℕ) × Dated parent date now × Keeps mark parent

  pub link-Linked :
      (fuel : ℕ) (parent : Parents) (i j now : ℕ)
      → now < fuel
      → mark i ≡ mark j
      → Linked parent now
      → Linked (link fuel parent i j) (suc now)
  unfolding link
  link-Linked fuel parent i j now h e (date, d, k) =
      let (rj, after_j) = find fuel parent j in
      let fj : Found mark parent date now j (find fuel parent j) =
        find-Found mark date now fuel parent j d k (omega arith) in
      let (ri, after_i) = find fuel after_j i in
      let fi : Found mark after_j date now i (find fuel after_j i) =
        find-Found mark date now fuel after_j i fj.dated fj.keeps (omega arith) in
      (
        redate date rj now,
        point-Dated after_i date now ri rj fi.dated fi.is_root (fi.roots_stay rj fj.is_root),
        point-cases (λ y v. mark v ≡ mark y) after_i ri rj
            (fj.same_mark ∙ (sym e ∙ sym fi.same_mark)) fi.keeps,
      )

  pub Linked-later :
      (parent : Parents) (now later : ℕ) → now ≤ later → Linked parent now → Linked parent later
  Linked-later parent now later h (date, d, k) = (date, λ x. (omega (arith, (d x).0), (d x).1), k)

  -- How many pairs the two loops go through.
  abbrev pub pairs : List ℕ → ℕ
  pairs [] = 0
  pairs (i ∷ later) = length later + pairs later

  module _ (together : ℕ → ℕ → Bool) (same_mark : (i j : ℕ) → together i j ≡ true → mark i ≡ mark j)
      (fuel : ℕ) where
    pub link_row-Linked :
        (i : ℕ) (js : List ℕ) (parent : Parents) (now : ℕ)
        → now + length js < fuel
        → Linked parent now
        → Linked (link_row together fuel i js parent) (now + length js)
    unfolding link_row
    link_row-Linked i [] parent now h l = Linked-later parent now (now + 0) (omega arith) l
    link_row-Linked i (j ∷ js) parent now h l = elim (Bool-cases (together i j)) [
      | inl linked ↦ rw linked (
          Linked-later _ (suc now + length js) (now + suc (length js)) (omega arith) (
            link_row-Linked i js (link fuel parent i j) (suc now) (omega arith)
              (link-Linked fuel parent i j now (omega arith) (same_mark i j linked) l)))
      | inr apart ↦ rw apart (
          Linked-later _ (now + length js) (now + suc (length js)) (omega arith)
            (link_row-Linked i js parent now (omega arith) l))
    ]

    pub link_rows-Linked :
        (is : List ℕ) (parent : Parents) (now : ℕ)
        → now + pairs is < fuel
        → Linked parent now
        → Linked (link_rows together fuel is parent) (now + pairs is)
    unfolding link_rows
    link_rows-Linked [] parent now h l = Linked-later parent now (now + 0) (omega arith) l
    link_rows-Linked (i ∷ later) parent now h l =
        Linked-later _ (now + length later + pairs later) (now + pairs (i ∷ later)) (omega arith) (
          link_rows-Linked later (link_row together fuel i later parent) (now + length later)
            (omega arith) (link_row-Linked i later parent now (omega arith) l))
