-- ===== src/Dispatch/Braces.antt =====
-- code_review/dispatch.py `_parse_json`: the slice from the first opening brace to the last closing one.
use skill_code_review.Base.{
  ℕ, suc, ◌+◌, ◌-◌, String, true, Option, none, some, List, [], ◌∷◌, ◌++◌, ◌==◌, ltb, length,
  length-append, take, drop, ◌≡◌, ◌∙◌, refl, sym, ap, arith, inl, inr, Bool-cases, Option-cases,
  append_assoc,
}
use skill_code_review.Value.{Value}
use skill_code_review.Characters.{Characters}
use skill_code_review.Dispatch.Answers.{
  unfenced, find_first, find_last, slice_at, braced, parsed, parse_stripped,
}

find_first-append :
    (c : ℕ) (prefix t : List ℕ)
    → (c == c) ≡ true
    → find_first c prefix ≡ none
    → find_first c (prefix ++ c ∷ t) ≡ some (length prefix)
unfolding find_first
find_first-append c [] t same h = rw same refl
find_first-append c (d ∷ prefix) t same h = elim (Bool-cases (d == c)) [
  | inl here ↦ let q : some 0 ≡ none = (rw here at h) in cc
  | inr other ↦ elim (Option-cases (find_first c prefix)) [
    | inl absent ↦ rw other (rw (find_first-append c prefix t same absent) refl)
    | inr (n, found) ↦ let q : some (suc n) ≡ none = (rw found at (rw other at h)) in cc
  ]
]

find_last-append :
    (c : ℕ) (t suffix : List ℕ)
    → (c == c) ≡ true
    → find_last c suffix ≡ none
    → find_last c (t ++ c ∷ suffix) ≡ some (length t)
unfolding find_last
find_last-append c [] suffix same h = rw h (rw same refl)
find_last-append c (d ∷ t) suffix same h = rw (find_last-append c t suffix same h) refl

drop-append : (xs ys : List ℕ) → drop (length xs) (xs ++ ys) ≡ ys
drop-append [] ys = refl
drop-append (x ∷ xs) ys = drop-append xs ys

take-append : (xs ys : List ℕ) → take (length xs) (xs ++ ys) ≡ xs
take-append [] ys = refl
take-append (x ∷ xs) ys = ap (λ r. x ∷ r) (take-append xs ys)

slice-body :
    (prefix mid suffix : List ℕ)
    → slice_at
        (prefix ++ ((b'{' ∷ mid) ++ b'}' ∷ suffix))
        (some (length prefix))
        (some (length (prefix ++ b'{' ∷ mid)))
      ≡ (b'{' ∷ mid) ++ b'}' ∷ []
slice-body prefix mid suffix =
    let body : List ℕ = (b'{' ∷ mid) ++ b'}' ∷ [] in
    let long : length (prefix ++ b'{' ∷ mid) ≡ length prefix + suc (length mid) =
      length-append prefix (b'{' ∷ mid) in
    let later : ltb (length prefix) (length (prefix ++ b'{' ∷ mid)) ≡ true = ground (arith, long) in
    let many : suc (length (prefix ++ b'{' ∷ mid)) - length prefix ≡ length body =
      omega (arith, long, length-append (b'{' ∷ mid) (b'}' ∷ [])) in
    rw later (
      rw many (
        rw (drop-append prefix ((b'{' ∷ mid) ++ b'}' ∷ suffix)) (
          ap (take (length body)) (sym (append_assoc (b'{' ∷ mid) (b'}' ∷ []) suffix))
          ∙ take-append body suffix)))

-- The slice from the first opening brace to the last closing one.
pub braced-wrapped :
    (prefix mid suffix : List ℕ)
    → find_first b'{' prefix ≡ none
    → find_last b'}' suffix ≡ none
    → braced (prefix ++ ((b'{' ∷ mid) ++ b'}' ∷ suffix)) ≡ (b'{' ∷ mid) ++ b'}' ∷ []
unfolding braced
braced-wrapped prefix mid suffix first last =
    let whole = prefix ++ ((b'{' ∷ mid) ++ b'}' ∷ suffix) in
    let body : List ℕ = (b'{' ∷ mid) ++ b'}' ∷ [] in
    let a : find_first b'{' whole ≡ some (length prefix) =
      find_first-append b'{' prefix (mid ++ b'}' ∷ suffix) refl first in
    let b : find_last b'}' whole ≡ some (length (prefix ++ b'{' ∷ mid)) =
      ap (find_last b'}') (sym (append_assoc prefix (b'{' ∷ mid) (b'}' ∷ suffix)))
      ∙ find_last-append b'}' (prefix ++ b'{' ∷ mid) suffix refl last in
    rw (a, b) (slice-body prefix mid suffix)

pub parse_stripped-nonempty :
    (ch : Characters) (loads : List ℕ → Option Value) (prefix t : List ℕ) (c : ℕ) (text : String)
    → parse_stripped ch loads (prefix ++ c ∷ t) text
      ≡ parsed ch loads (loads (braced (unfenced (prefix ++ c ∷ t)))) text
parse_stripped-nonempty ch loads [] t c text = refl
parse_stripped-nonempty ch loads (d ∷ prefix) t c text = refl
