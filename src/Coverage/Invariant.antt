-- ===== src/Coverage/Invariant.antt =====
-- code_review/handlers.py `handle_verify_coverage`: the files that `reviewers_by_file` holds.
use skill_code_review.Base.{
  String, Bool, true, Option, none, some, List, [], ◌∷◌, ◌≡◌, refl, sym, ap, ◌∙◌, arith, contains,
  update, Dict, lookup, insert, keys, str_eq, str_eq_refl, Bool-cases, inl, inr, Distinct, All,
  update-Distinct,
}
use skill_code_review.Value.{Value, strings}
use skill_code_review.Result.{ok, ◌>>=◌, >>=-eq-ok, ok-injective, iterate}
use skill_code_review.Coverage.{
  found, credit, credit_flagged, credit_findings, flagged, flag_at, credit_files, credit_leaf,
  credit_leaf_at, credit_leaves, credit_rescues, rescued, rescue_at, no_reviewers, Wiki, reviews,
}

keys-insert :
    (k : String) (v : List String) (d : Dict (List String))
    → contains k (keys d) ≡ true
    → keys (insert k v d) ≡ keys d
unfolding keys insert contains
keys-insert k v [] h = cc
keys-insert k v ((j, w) ∷ d) h = elim (Bool-cases (str_eq j k)) [
  | inl here ↦ rw here refl
  | inr later ↦ rw later (ap (λ r. j ∷ r) (keys-insert k v d (ground arith)))
]

-- The files are those of the changed set, each once, and none has got reviewers twice.
abbrev pub Sound : List String → Dict (List String) → Type 0
Sound changed d = (keys d ≡ changed) × All (λ row. Distinct row.1) d

Distinct-found :
    (file : String) (d : Dict (List String))
    → All (λ row. Distinct row.1) d
    → Distinct (found (lookup file d))
unfolding lookup
Distinct-found file [] h = tt
Distinct-found file ((k, s) ∷ d) h = elim (Bool-cases (str_eq k file)) [
  | inl here ↦ rw here h.0
  | inr later ↦ rw later (Distinct-found file d h.1)
]

All-insert :
    (k : String) (v : List String) (d : Dict (List String))
    → Distinct v
    → All (λ row. Distinct row.1) d
    → All (λ row. Distinct row.1) (insert k v d)
unfolding insert
All-insert k v [] hv h = (hv, tt)
All-insert k v ((j, w) ∷ d) hv h = elim (Bool-cases (str_eq j k)) [
  | inl here ↦ rw here (hv, h.1)
  | inr later ↦ rw later (h.0, All-insert k v d hv h.1)
]

module _ (changed : List String) where
  credit-Sound :
      (file : String) (ids : List String) (d : Dict (List String))
      → contains file changed ≡ true
      → Sound changed d
      → Sound changed (credit file ids d)
  unfolding credit
  credit-Sound file ids d h (k, a) = (
    keys-insert file (update (found (lookup file d)) ids) d (rw k h) ∙ k,
    All-insert file _ d (update-Distinct _ ids (Distinct-found file d a)) a,
  )

  flag_at-Sound :
      (o : Option String) (v : Value) (c : Option (String × List String)) (d : Dict (List String))
      → flag_at changed o v ≡ ok c
      → Sound changed d
      → Sound changed (credit_flagged c d)
  unfolding flag_at
  flag_at-Sound none v c d q s = rw (sym (ok-injective q)) s
  flag_at-Sound (some file) v c d q s = elim (Bool-cases (contains file changed)) [
    | inl known ↦
        let q2 : (iterate v >>= (λ ids. ok (some (file, strings ids)))) ≡ ok c = (rw known at q) in
        let (ids, got, rest) = >>=-eq-ok (iterate v) _ q2 in
        rw (sym (ok-injective rest)) (credit-Sound file (strings ids) d known s)
    | inr unknown ↦ let q2 : ok none ≡ ok c = (rw unknown at q) in rw (sym (ok-injective q2)) s
  ]

  pub credit_findings-Sound :
      (findings : List Value) (d e : Dict (List String))
      → credit_findings changed findings d ≡ ok e
      → Sound changed d
      → Sound changed e
  unfolding credit_findings flagged
  credit_findings-Sound [] d e q s = rw (sym (ok-injective q)) s
  credit_findings-Sound (f ∷ findings) d e q s =
      let (c, got, rest) = >>=-eq-ok (flagged changed f) _ q in
      credit_findings-Sound findings (credit_flagged c d) e rest (flag_at-Sound _ _ c d got s)

  credit_files-Sound :
      (p : String → Bool) (who : String) (files : List String) (d : Dict (List String))
      → All (λ f. contains f changed ≡ true) files
      → Sound changed d
      → Sound changed (credit_files p who files d)
  unfolding credit_files
  credit_files-Sound p who [] d h s = s
  credit_files-Sound p who (f ∷ files) d h s = elim (Bool-cases (p f)) [
    | inl fits ↦ rw fits (credit_files-Sound p who files _ h.1 (credit-Sound f (who ∷ []) d h.0 s))
    | inr fails ↦ rw fails (credit_files-Sound p who files d h.1 s)
  ]

  credit_leaf_at-Sound :
      (o : Option String) (globs : Option (List String)) (d : Dict (List String))
      → All (λ f. contains f changed ≡ true) changed
      → Sound changed d
      → Sound changed (credit_leaf_at o globs changed d)
  unfolding credit_leaf_at
  credit_leaf_at-Sound none globs d h s = s
  credit_leaf_at-Sound (some who) globs d h s = credit_files-Sound (reviews globs) who changed d h s

  pub credit_leaves-Sound :
      (w : Wiki) (leaves : List Value) (d : Dict (List String))
      → All (λ f. contains f changed ≡ true) changed
      → Sound changed d
      → Sound changed (credit_leaves w changed leaves d)
  unfolding credit_leaves credit_leaf
  credit_leaves-Sound w [] d h s = s
  credit_leaves-Sound w (leaf ∷ leaves) d h s =
      credit_leaves-Sound w leaves _ h (credit_leaf_at-Sound _ _ d h s)

  rescue_at-Sound :
      (o i : Option String) (d : Dict (List String))
      → Sound changed d
      → Sound changed (credit_flagged (rescue_at changed o i) d)
  unfolding rescue_at
  rescue_at-Sound none i d s = s
  rescue_at-Sound (some file) none d s = s
  rescue_at-Sound (some file) (some who) d s = elim (Bool-cases (contains file changed)) [
    | inl known ↦ rw known (credit-Sound file (who ∷ []) d known s)
    | inr unknown ↦ rw unknown s
  ]

  pub credit_rescues-Sound :
      (rs : List Value) (d : Dict (List String))
      → Sound changed d
      → Sound changed (credit_rescues changed rs d)
  unfolding credit_rescues rescued
  credit_rescues-Sound [] d s = s
  credit_rescues-Sound (r ∷ rs) d s = credit_rescues-Sound rs _ (rescue_at-Sound _ _ d s)

module _ (xs : List String) where
  All-within :
      (ys : List String)
      → ((k : String) → contains k ys ≡ true → contains k xs ≡ true)
      → All (λ f. contains f xs ≡ true) ys
  unfolding contains
  All-within [] h = tt
  All-within (y ∷ ys) h =
      (h y (rw (str_eq_refl y) refl), All-within ys (λ k m. h k (ground (arith, m))))

  pub All-contained : All (λ f. contains f xs ≡ true) xs
  All-contained = All-within xs (λ k m. m)

pub no_reviewers-Sound : (changed : List String) → Sound changed (no_reviewers changed)
unfolding no_reviewers keys
no_reviewers-Sound [] = (refl, tt)
no_reviewers-Sound (f ∷ fs) = let (k, a) = no_reviewers-Sound fs in (ap (λ r. f ∷ r) k, (tt, a))
