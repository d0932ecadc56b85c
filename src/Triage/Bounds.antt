-- ===== src/Triage/Bounds.antt =====
-- code_review/handlers.py `handle_risk_tier_triage`: the state's post-validation on `cap`, and what
-- the tiers say about the diff.
use skill_code_review.Base.{
  ℕ, ◌≤◌, String, Bool, true, false, ◌&&◌, ◌||◌, not, Option, none, some, List, [], ◌∷◌, ◌≡◌, ◌≢◌,
  refl, ℤ, pos, leb_ℤ, eq_ℤ, arith, Bool-cases, inl, inr, Dict,
}
use skill_code_review.Value.{
  Value, Float, nan, infinity, ratio, null, str, get, ensure_dict, ensure_list,
}
use skill_code_review.Result.{ok, raise, overflow_error, >>=-eq-ok, Parsers, truncate}
use skill_code_review.Triage.{
  Triage, RiskTier, trivial, lite, full, sensitive, Rationale, risk_tier_triage, override_cap,
  override_by, float_or_none, clamp, tier_cap, choose_tier, diff_stat, decide_triage,
  detect_risk_signals, detect_scope_overrides,
}

abbrev pub InRange : ℕ → Type 0
InRange cap = (3 ≤ cap) × (cap ≤ 50)

clamp-InRange : (n : ℤ) → InRange (clamp n)
unfolding clamp
clamp-InRange n = (omega arith, omega arith)

tier_cap-InRange : (t : RiskTier) → InRange (tier_cap t)
unfolding tier_cap
tier_cap-InRange trivial = omega arith
tier_cap-InRange lite = omega arith
tier_cap-InRange full = omega arith
tier_cap-InRange sensitive = omega arith

-- What a tier says of a diff: of its signals, and of its lines and files.
abbrev pub TierFits : List String → ℤ → ℤ → RiskTier → Type 0
TierFits signals lines files sensitive = signals ≢ []
TierFits signals lines files full =
    (signals ≡ []) × ((leb_ℤ lines (pos 100) && leb_ℤ files (pos 5)) ≡ false)
TierFits signals lines files trivial =
    (signals ≡ []) × (leb_ℤ lines (pos 10) ≡ true) × (eq_ℤ files (pos 1) ≡ true)
TierFits signals lines files lite =
    (signals ≡ []) × (leb_ℤ lines (pos 100) ≡ true) × (leb_ℤ files (pos 5) ≡ true)

choose_tier-TierFits :
    (signals : List String) (lines files : ℤ)
    → TierFits signals lines files (choose_tier signals lines files).0
unfolding choose_tier
choose_tier-TierFits (s ∷ signals) lines files = λ e. cc
choose_tier-TierFits [] lines files =
    elim (Bool-cases (not (leb_ℤ lines (pos 100)) || not (leb_ℤ files (pos 5)))) [
      | inl large ↦ rw large (refl, ground (arith, large))
      | inr small ↦ elim (Bool-cases (leb_ℤ lines (pos 10) && eq_ℤ files (pos 1))) [
        | inl tiny ↦ rw (small, tiny) (refl, ground (arith, tiny), ground (arith, tiny))
        | inr other ↦ rw (small, other) (refl, ground (arith, small), ground (arith, small))
      ]
    ]

TierFits-of :
    {signals fired : List String} (lines files : ℤ) {t : RiskTier}
    → t ≡ (choose_tier signals lines files).0
    → fired ≡ signals
    → TierFits fired lines files t
TierFits-of {signals = signals} lines files h k =
    rw (h, k) (choose_tier-TierFits signals lines files)

module _ (p : Parsers) where
  override_by-InRange :
      (o : Option Float) (limit : ℕ) (why : Rationale) (r : ℕ × Rationale)
      → InRange limit
      → override_by p o limit why ≡ ok r
      → InRange r.0
  unfolding override_by
  override_by-InRange none limit why r h e = ground arith
  override_by-InRange (some nan) limit why r h e = ground arith
  override_by-InRange (some (infinity s)) limit why r h e = cc
  override_by-InRange (some (ratio n d)) limit why r h e =
      ground (arith, clamp-InRange (truncate n d))

  override_cap-InRange :
      (v : Value) (limit : ℕ) (why : Rationale) (r : ℕ × Rationale)
      → InRange limit
      → override_cap p v limit why ≡ ok r
      → InRange r.0
  unfolding override_cap
  override_cap-InRange null limit why r h e = ground arith
  override_cap-InRange v limit why r h e =
      let (o, got, rest) = >>=-eq-ok (float_or_none p v) (λ n. override_by p n limit why) e in
      override_by-InRange o limit why r h rest

  decide_triage-lem :
      (signals : List String) (overrides : Bool) (v : Value) (lines files : ℤ) (r : Triage)
      → decide_triage p signals overrides v lines files ≡ ok r
      → InRange r.cap × (r.tier ≡ (choose_tier signals lines files).0) × (r.risk_signals ≡ signals)
  unfolding decide_triage
  decide_triage-lem signals overrides v lines files r e =
      let (final, got, rest) = >>=-eq-ok (override_cap p v _ _) _ e in
      let bounds : InRange final.0 =
        override_cap-InRange v _ _ final (tier_cap-InRange (choose_tier signals lines files).0)
          got in
      ground (arith, bounds)

  infinite_override :
      (signals : List String) (overrides : Bool) (s : String) (sign : Bool) (lines files : ℤ)
      → p.parse_float s ≡ some (infinity sign)
      → decide_triage p signals overrides (str s) lines files ≡ raise overflow_error
  unfolding decide_triage
  infinite_override signals overrides s sign lines files parsed = ground arith

  abbrev signals_of_env : Dict Value → List String
  signals_of_env env =
      detect_risk_signals (ensure_list (get env "changed_paths"))
        (ensure_dict (get env "project_profile"))

  -- A triage that returns has read both sizes of the diff, and its cap lies in [3, 50]. A sensitive
  -- tier has a risk signal, and every other tier has none; a full diff has more than 100 lines or
  -- more than 5 files, a lite one has not, and a trivial one has one file and at most 10 lines.
  pub triage-TierFits :
      (env : Dict Value) (r : Triage)
      → risk_tier_triage p env ≡ ok r
      → let stats = ensure_dict (get env "diff_stats") in
        (lines : ℤ) × (files : ℤ) × (diff_stat p stats "lines_changed" ≡ ok lines)
        × (diff_stat p stats "files_changed" ≡ ok files)
        × InRange r.cap
        × TierFits r.risk_signals lines files r.tier
  unfolding risk_tier_triage
  triage-TierFits env r e =
      let stats = ensure_dict (get env "diff_stats") in
      let (lines, got_lines, e') = >>=-eq-ok (diff_stat p stats "lines_changed") _ e in
      let (files, got_files, e'') = >>=-eq-ok (diff_stat p stats "files_changed") _ e' in
      let (kept, tier, signals) =
        decide_triage-lem (signals_of_env env)
          (detect_scope_overrides (ensure_dict (get env "args")))
          (get (ensure_dict (get env "args")) "max-reviewers") lines files r e'' in
      (lines, files, got_lines, got_files, kept, TierFits-of lines files tier signals)

  -- `--max-reviewers` given as a text that `float` reads as an infinity: the handler raises an
  -- `OverflowError` once the sizes of the diff are read, since only `TypeError` and `ValueError`
  -- are caught, and only around `float`.
  pub triage-infinite_override :
      (env : Dict Value) (s : String) (sign : Bool) (lines files : ℤ)
      → get (ensure_dict (get env "args")) "max-reviewers" ≡ str s
      → p.parse_float s ≡ some (infinity sign)
      → diff_stat p (ensure_dict (get env "diff_stats")) "lines_changed" ≡ ok lines
      → diff_stat p (ensure_dict (get env "diff_stats")) "files_changed" ≡ ok files
      → risk_tier_triage p env ≡ raise overflow_error
  unfolding risk_tier_triage
  triage-infinite_override env s sign lines files given parsed l f =
      rw (l, f, given) (infinite_override _ _ s sign lines files parsed)
