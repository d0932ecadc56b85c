-- ===== src/Findings/Colons.antt =====
-- code_review/handlers.py `_dedup_key`: findings with one key are of one file.
use Prim.Native.Char.{Char, code}
use Prim.Native.String.{◌++◌ as ◌<>◌}
use text.Mathlib.TextLemmas.{cons-append, nil-append}
use skill_code_review.Base.{
  String, Bool, true, false, ◌||◌, ◌≡◌, refl, ap, sym, ◌∙◌, inl, inr, arith, Bool-cases, ◌==◌,
  if◌then◌else◌,
}
use skill_code_review.Value.{Value}
use skill_code_review.Characters.{Characters}
use skill_code_review.Findings.Shape.{Finding}
use skill_code_review.Findings.Dedupe.{dedup_key}

-- The text has no colon.
unfoldable pub has_colon : String → Bool
has_colon String.[] = false
has_colon (String.◌∷◌ c s) = code c == b':' || has_colon s

before_colon : String → String
before_colon String.[] = ""
before_colon (String.◌∷◌ c s) = if code c == b':' then "" else String.◌∷◌ c (before_colon s)

or-colon : (c : Char) (s : String) → (code c == b':') ≡ true → has_colon (String.◌∷◌ c s) ≡ true
unfolding has_colon
or-colon c s h = rw h refl

or-later :
    (c : Char) (s : String)
    → (code c == b':') ≡ false
    → has_colon (String.◌∷◌ c s) ≡ false
    → has_colon s ≡ false
unfolding has_colon
or-later c s h k = ground arith

before_colon-append : (s t : String) → has_colon s ≡ false → before_colon (s <> ("::" <> t)) ≡ s
unfolding before_colon has_colon
before_colon-append String.[] t h = rw (nil-append ("::" <> t)) (rw (cons-append ":" ":" t) refl)
before_colon-append (String.◌∷◌ c s) t h =
    rw (cons-append c s ("::" <> t)) (elim (Bool-cases (code c == b':')) [
      | inl colon ↦ cc (sym (or-colon c s colon) ∙ h)
      | inr other ↦
          rw other (ap (λ r. String.◌∷◌ c r) (before_colon-append s t (or-later c s other h)))
    ])

module _ (ch : Characters) (show : Value → String) where
  -- Findings with one key are of one file, if the files have no colons.
  pub dedup_key-file :
      (f g : Finding)
      → has_colon f.file ≡ false
      → has_colon g.file ≡ false
      → dedup_key ch show f ≡ dedup_key ch show g
      → f.file ≡ g.file
  unfolding dedup_key
  dedup_key-file f g hf hg e =
      sym (before_colon-append f.file _ hf) ∙ (ap before_colon e ∙ before_colon-append g.file _ hg)
