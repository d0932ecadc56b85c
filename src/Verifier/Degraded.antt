-- ===== src/Verifier/Degraded.antt =====
-- code_review/handlers.py `handle_verifier_stuck` and `handle_synthesize_release_readiness`: what
-- `degraded_run` does to the verdict.
use skill_code_review.Base.{
  ◌∙◌, if◌then◌else◌, String, str_eq, false, Dict, insert, lookup, lookup-insert, ◌≡◌, refl, ap,
  none, some,
}
use skill_code_review.Value.{Value, get, null}
use skill_code_review.Readiness.{synthesize_release_readiness}

get-insert :
    (k j : String) (v : Value) (d : Dict Value)
    → str_eq k j ≡ false
    → get (insert k v d) j ≡ get d j
unfolding get
get-insert k j v d h =
    let same : lookup j (insert k v d) ≡ lookup j d =
      lookup-insert k j v d ∙ ap (λ b. if b then some v else lookup j d) h in
    ap (λ o. elim o [ none ↦ null | some w ↦ w ]) same

-- The readiness of a run does not depend on `degraded_run`: with any value of it, the gates and the
-- verdict are those of the same run without it.
pub synthesize-degraded_run :
    (env : Dict Value) (v : Value)
    → synthesize_release_readiness (insert "degraded_run" v env) ≡ synthesize_release_readiness env
unfolding synthesize_release_readiness
synthesize-degraded_run env v =
    rw
      (
        get-insert "degraded_run" "findings" v env refl,
        get-insert "degraded_run" "picked_leaves" v env refl,
        get-insert "degraded_run" "coverage_rule_violated" v env refl,
      )
      refl
