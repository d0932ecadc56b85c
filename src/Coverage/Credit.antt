-- ===== src/Coverage/Credit.antt =====
-- code_review/handlers.py `handle_verify_coverage`: who is credited with which file.
use skill_code_review.Base.{
  String, Bool, true, false, ◌&&◌, ◌||◌, Option, none, some, List, [], ◌∷◌, ◌≡◌, refl, sym, ap, ◌∙◌,
  arith, any, contains, update, Dict, lookup, str_eq, str_eq_iff, lookup-insert, contains-update,
  Bool-cases, inl, inr,
}
use skill_code_review.Value.{Value, get, ensure_dict, as_str, strings}
use skill_code_review.Result.{Result, ok, raise, ◌>>=◌, >>=-eq-ok, ok-injective, iterate}
use skill_code_review.Coverage.{
  found, flag_at, rescue_at, credit_leaf_at, credit, credit_flagged, credit_findings, flagged,
  credit_files, credit_leaf, credit_leaves, credit_rescues, rescued, Wiki, reviews, read_leaf_globs,
  reviewer_id,
}

abbrev pub credited : Dict (List String) → String → String → Bool
credited d file who = contains who (found (lookup file d))

credited-credit :
    (file : String) (ids : List String) (d : Dict (List String)) (g who : String)
    → credited (credit file ids d) g who ≡ (credited d g who || (str_eq file g && contains who ids))
unfolding credit
credited-credit file ids d g who = elim (Bool-cases (str_eq file g)) [
  | inl same ↦
      let e : file ≡ g = (str_eq_iff file g).0 same in
      rw (lookup-insert file g (update (found (lookup file d)) ids) d, same)
        (contains-update who (found (lookup file d)) ids
          ∙ ap (λ f. contains who (found (lookup f d)) || contains who ids) e)
  | inr differ ↦
      rw (lookup-insert file g (update (found (lookup file d)) ids) d, differ) (ground arith)
]

abbrev names : Option (String × List String) → String → String → Bool
names none g who = false
names (some (file, ids)) g who = str_eq file g && contains who ids

credited-credit_flagged :
    (c : Option (String × List String)) (d : Dict (List String)) (g who : String)
    → credited (credit_flagged c d) g who ≡ (credited d g who || names c g who)
credited-credit_flagged none d g who = ground arith
credited-credit_flagged (some (file, ids)) d g who = credited-credit file ids d g who

-- The ids that iterating over a value gives.
abbrev pub ids_in : Result (List Value) → List String
ids_in (ok ids) = strings ids
ids_in (raise e) = []

abbrev flags_at : Option String → Value → String → String → Bool
flags_at none v file who = false
flags_at (some f) v file who = str_eq f file && contains who (ids_in (iterate v))

-- A finding is about the file and is flagged by the reviewer.
abbrev pub flags : String → String → Value → Bool
flags file who finding =
    flags_at (as_str (get (ensure_dict finding) "file")) (get (ensure_dict finding) "flagged_by")
      file who

abbrev covers_at : Option String → Option (List String) → String → String → Bool
covers_at none globs file who = false
covers_at (some leaf_id) globs file who = reviews globs file && str_eq leaf_id who

-- A leaf is credited with the file.
abbrev pub covers : Wiki → String → String → Value → Bool
covers w file who leaf =
    covers_at (reviewer_id leaf) (read_leaf_globs w (get (ensure_dict leaf) "path")) file who

abbrev rescues_at : Option String → Option String → String → String → Bool
rescues_at none i file who = false
rescues_at (some f) none file who = false
rescues_at (some f) (some leaf_id) file who = str_eq f file && str_eq leaf_id who

-- A rescue names the file and the reviewer.
abbrev pub rescues : String → String → Value → Bool
rescues file who rescue =
    rescues_at (as_str (get (ensure_dict rescue) "file"))
      (as_str (get (ensure_dict rescue) "rescued_leaf")) file who

module _ (changed : List String) (g : String) (h : contains g changed ≡ true) (who : String) where
  other_file : (file : String) → contains file changed ≡ false → str_eq file g ≡ false
  other_file file unknown = elim (Bool-cases (str_eq file g)) [
    | inl same ↦
        let e : file ≡ g = (str_eq_iff file g).0 same in
        let against : contains g changed ≡ false = (rw e at unknown) in cc
    | inr differ ↦ differ
  ]

  same_test :
      (p : String → Bool) (file : String) {b : Bool} → p file ≡ b → str_eq file g ≡ true → p g ≡ b
  same_test p file e same = ap p (sym ((str_eq_iff file g).0 same)) ∙ e

  names-flag_at :
      (o : Option String) (v : Value) (c : Option (String × List String))
      → flag_at changed o v ≡ ok c
      → names c g who ≡ flags_at o v g who
  unfolding flag_at
  names-flag_at none v c e = rw (sym (ok-injective e)) refl
  names-flag_at (some file) v c e = elim (Bool-cases (contains file changed)) [
    | inl known ↦
        let e2 : (iterate v >>= (λ ids. ok (some (file, strings ids)))) ≡ ok c = (rw known at e) in
        let (ids, got, rest) = >>=-eq-ok (iterate v) _ e2 in rw (sym (ok-injective rest), got) refl
    | inr unknown ↦
        let e2 : ok none ≡ ok c = (rw unknown at e) in
        rw (sym (ok-injective e2), other_file file unknown) refl
  ]

  pub credited-credit_findings :
      (findings : List Value) (d e : Dict (List String))
      → credit_findings changed findings d ≡ ok e
      → credited e g who ≡ (credited d g who || any (flags g who) findings)
  unfolding credit_findings flagged
  credited-credit_findings [] d e q = rw (sym (ok-injective q)) (ground arith)
  credited-credit_findings (f ∷ findings) d e q =
      let (c, got, rest) = >>=-eq-ok (flagged changed f) _ q in
      ground (
        arith,
        credited-credit_findings findings (credit_flagged c d) e rest,
        credited-credit_flagged c d g who,
        names-flag_at _ _ c got,
      )

  credited-credit_files :
      (p : String → Bool) (leaf_id : String) (files : List String) (d : Dict (List String))
      → credited (credit_files p leaf_id files d) g who
        ≡ (credited d g who || (contains g files && (p g && str_eq leaf_id who)))
  unfolding credit_files contains
  credited-credit_files p leaf_id [] d = ground arith
  credited-credit_files p leaf_id (file ∷ files) d = elim (Bool-cases (p file)) [
    | inl fits ↦ rw fits (
        ground (
          arith,
          credited-credit_files p leaf_id files (credit file (leaf_id ∷ []) d),
          credited-credit file (leaf_id ∷ []) d g who,
          same_test p file fits,
        ))
    | inr fails ↦
        rw fails (ground (arith, credited-credit_files p leaf_id files d, same_test p file fails))
  ]

  credited-credit_leaf_at :
      (o : Option String) (globs : Option (List String)) (d : Dict (List String))
      → credited (credit_leaf_at o globs changed d) g who
        ≡ (credited d g who || covers_at o globs g who)
  unfolding credit_leaf_at
  credited-credit_leaf_at none globs d = ground arith
  credited-credit_leaf_at (some leaf_id) globs d =
      rw (credited-credit_files (reviews globs) leaf_id changed d, h) refl

  pub credited-credit_leaves :
      (w : Wiki) (leaves : List Value) (d : Dict (List String))
      → credited (credit_leaves w changed leaves d) g who
        ≡ (credited d g who || any (covers w g who) leaves)
  unfolding credit_leaves credit_leaf
  credited-credit_leaves w [] d = ground arith
  credited-credit_leaves w (leaf ∷ leaves) d = ground (
    arith,
    credited-credit_leaves w leaves (credit_leaf w changed leaf d),
    credited-credit_leaf_at (reviewer_id leaf) (read_leaf_globs w (get (ensure_dict leaf) "path"))
        d,
  )

  names-rescue_at :
      (o i : Option String) → names (rescue_at changed o i) g who ≡ rescues_at o i g who
  unfolding rescue_at contains
  names-rescue_at none i = refl
  names-rescue_at (some file) none = refl
  names-rescue_at (some file) (some leaf_id) = elim (Bool-cases (contains file changed)) [
    | inl known ↦ rw known (ground arith)
    | inr unknown ↦ rw (unknown, other_file file unknown) refl
  ]

  pub credited-credit_rescues :
      (rs : List Value) (d : Dict (List String))
      → credited (credit_rescues changed rs d) g who ≡ (credited d g who || any (rescues g who) rs)
  unfolding credit_rescues rescued
  credited-credit_rescues [] d = ground arith
  credited-credit_rescues (r ∷ rs) d = ground (
    arith,
    credited-credit_rescues rs (credit_flagged (rescued changed r) d),
    credited-credit_flagged (rescued changed r) d g who,
    names-rescue_at (as_str (get (ensure_dict r) "file"))
        (as_str (get (ensure_dict r) "rescued_leaf")),
  )
