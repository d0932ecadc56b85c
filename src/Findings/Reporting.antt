-- ===== src/Findings/Reporting.antt =====
-- code_review/handlers.py `handle_collect_findings`: the issue that reports a finding stays in the dict
-- of the merged findings, which later findings of the same key only make more severe.
use skill_code_review.Base.{
  ◌≤◌, String, true, false, ◌||◌, Option, none, some, some-injective, List, [], ◌∷◌, ◌≡◌, refl, sym,
  ◌∙◌, inl, inr, arith, Bool-cases, if◌then◌else◌, All, Some, contains, add, sorted,
  contains-sorted, contains-add, str_eq, str_eq_iff, str_eq_refl, Dict, lookup, insert, values,
}
use skill_code_review.Value.{Value}
use skill_code_review.Characters.{Characters}
use skill_code_review.Findings.Shape.{Finding, Specialist, Issue, rank}
use skill_code_review.Findings.Dedupe.{
  dedup_key, existing_wins, merge_into, merge_at, collect_finding, collect_from,
  collect_specialists,
}
use skill_code_review.Findings.Standing.{Stands}
use skill_code_review.Findings.Colons.{has_colon, dedup_key-file}

-- The issue `g` reports the finding `f` of the specialist `id`.
pub record Reports (id : String) (f : Finding) (g : Issue) : Type 0 where
  pub file : g.finding.file ≡ f.file
  pub severe : rank f ≤ rank g.finding
  pub flags : contains id g.flagged_by ≡ true

pub Reports-Stands :
    (id : String) (f : Finding) (e g : Issue) → Stands e g → Reports id f e → Reports id f g
Reports-Stands id f e g s r = record {
  file = s.file ∙ r.file;
  severe = omega (arith, s.severe, r.severe);
  flags = s.flags id r.flags;
}

contains-merged :
    (id specialist_id : String) (flagged : List String)
    → contains id (sorted (add flagged specialist_id))
      ≡ (contains id flagged || str_eq specialist_id id)
contains-merged id specialist_id flagged =
    contains-sorted id (add flagged specialist_id) ∙ contains-add id flagged specialist_id

merge_into-Stands :
    (e : Issue) (id : String) (f : Finding) → e.finding.file ≡ f.file → Stands e (merge_into e id f)
unfolding existing_wins
merge_into-Stands e id f same = record {
  file = ground arith;
  severe = ground arith;
  flags = λ k h. contains-merged k id e.flagged_by ∙ rw h refl;
}

merge_into-Reports :
    (e : Issue) (id : String) (f : Finding)
    → e.finding.file ≡ f.file
    → Reports id f (merge_into e id f)
unfolding existing_wins
merge_into-Reports e id f same = record {
  file = ground arith;
  severe = ground arith;
  flags = contains-merged id id e.flagged_by ∙ rw (str_eq_refl id) (ground arith);
}

merge_at-new : (id : String) (f : Finding) → Reports id f (merge_at none id f)
unfolding contains
merge_at-new id f = record { file = refl; severe = omega arith; flags = rw (str_eq_refl id) refl }

pub All-imp :
    (P Q : Finding → Type 0) (xs : List Finding) → ((x : Finding) → P x → Q x) → All P xs → All Q xs
All-imp P Q [] f h = tt
All-imp P Q (x ∷ xs) f h = (f x h.0, All-imp P Q xs f h.1)

module _ (ch : Characters) (show : Value → String) where
  -- An entry stands under the key of its finding, whose file has no colon.
  abbrev IsKeyed : String × Issue → Type 0
  IsKeyed (k, e) = (dedup_key ch show e.finding ≡ k) × (has_colon e.finding.file ≡ false)

  lookup-IsKeyed :
      (key : String) (d : Dict Issue) (e : Issue)
      → All IsKeyed d
      → lookup key d ≡ some e
      → IsKeyed (key, e)
  unfolding lookup
  lookup-IsKeyed key [] e keyed l = cc
  lookup-IsKeyed key ((j, w) ∷ d) e keyed l = elim (Bool-cases (str_eq j key)) [
    | inl same ↦
        let e' : w ≡ e = some-injective (rw same at l) in
        rw (sym ((str_eq_iff j key).0 same), sym e') keyed.0
    | inr differ ↦ lookup-IsKeyed key d e keyed.1 (rw differ at l)
  ]

  insert-IsKeyed :
      (key : String) (new : Issue) (d : Dict Issue)
      → IsKeyed (key, new)
      → All IsKeyed d
      → All IsKeyed (insert key new d)
  unfolding insert
  insert-IsKeyed key new [] k keyed = (k, tt)
  insert-IsKeyed key new ((j, e) ∷ d) k keyed = elim (Bool-cases (str_eq j key)) [
    | inl same ↦ rw same (rw ((str_eq_iff j key).0 same) k, keyed.1)
    | inr differ ↦ rw differ (keyed.0, insert-IsKeyed key new d k keyed.1)
  ]

  insert-Reports_new :
      (id : String) (f : Finding) (key : String) (new : Issue) (d : Dict Issue)
      → Reports id f new
      → Some (Reports id f) (values (insert key new d))
  unfolding insert values
  insert-Reports_new id f key new [] r = inl r
  insert-Reports_new id f key new ((j, e) ∷ d) r = elim (Bool-cases (str_eq j key)) [
    | inl same ↦ rw same (inl r)
    | inr differ ↦ rw differ (inr (insert-Reports_new id f key new d r))
  ]

  insert-Reports_old :
      (id : String) (f : Finding) (key : String) (new : Issue) (d : Dict Issue)
      → ((e : Issue) → lookup key d ≡ some e → Stands e new)
      → Some (Reports id f) (values d)
      → Some (Reports id f) (values (insert key new d))
  unfolding insert values lookup
  insert-Reports_old id f key new [] h r = absurd r
  insert-Reports_old id f key new ((j, e) ∷ d) h r = elim (Bool-cases (str_eq j key)) [
    | inl same ↦ rw same (elim r [
      | inl here ↦ inl (Reports-Stands id f e new (h e (rw same refl)) here)
      | inr later ↦ inr later
    ])
    | inr differ ↦ rw differ (elim r [
      | inl here ↦ inl here
      | inr later ↦ inr (insert-Reports_old id f key new d (λ w l. h w (rw differ l)) later)
    ])
  ]

  -- What stands under the key of a finding, once it is collected.
  abbrev pub collected : String → Finding → Option Issue → Issue
  collected id f found = merge_at found id f

  collected-all :
      (id : String) (f : Finding) (found : Option Issue)
      → has_colon f.file ≡ false
      → ((e : Issue) → found ≡ some e → IsKeyed (dedup_key ch show f, e))
      → IsKeyed (dedup_key ch show f, collected id f found)
        × Reports id f (collected id f found)
        × ((e : Issue) → found ≡ some e → Stands e (collected id f found))
  collected-all id f none plain keyed = ((refl, plain), merge_at-new id f, λ e none_found. cc)
  collected-all id f (some w) plain keyed =
      let (k, w_plain) = keyed w refl in
      let same : w.finding.file ≡ f.file = dedup_key-file ch show w.finding f w_plain plain k in
      (
        elim (Bool-cases (existing_wins w id f)) [
          | inl old ↦ rw old (k, w_plain)
          | inr new ↦ rw new (refl, plain)
        ],
        merge_into-Reports w id f same,
        λ e h. rw (sym (some-injective h)) (merge_into-Stands w id f same),
      )

  abbrev IsPlain : Finding → Type 0
  IsPlain f = has_colon f.file ≡ false

  collect_from-All :
      (id : String) (fs : List Finding) (d : Dict Issue)
      → All IsPlain fs
      → All IsKeyed d
      → All IsKeyed (collect_from ch show id fs d)
        × ((k : String) (g : Finding)
            → Some (Reports k g) (values d)
            → Some (Reports k g) (values (collect_from ch show id fs d)))
        × All (λ f. Some (Reports id f) (values (collect_from ch show id fs d))) fs
  unfolding collect_from collect_finding
  collect_from-All id [] d plain keyed = (keyed, λ k g r. r, tt)
  collect_from-All id (f ∷ fs) d plain keyed =
      let key = dedup_key ch show f in
      let new = merge_at (lookup key d) id f in
      let (k, reports, stands) =
        collected-all id f (lookup key d) plain.0 (λ e l. lookup-IsKeyed key d e keyed l) in
      let (keyed', old, rest) =
        collect_from-All id fs (insert key new d) plain.1 (insert-IsKeyed key new d k keyed) in
      (
        keyed',
        λ j g r. old j g (insert-Reports_old j g key new d stands r),
        (old id f (insert-Reports_new id f key new d reports), rest),
      )

  -- Every finding of a completed specialist is reported.
  abbrev pub AllReported : List Specialist → List Issue → Type 0
  AllReported specialists issues =
      All (λ s. s.completed ≡ true → All (λ f. Some (Reports s.id f) issues) s.findings) specialists

  abbrev pub ArePlain : List Specialist → Type 0
  ArePlain specialists = All (λ s. All IsPlain s.findings) specialists

  abbrev after_specialist : Specialist → Dict Issue → Dict Issue
  after_specialist s d = if s.completed then collect_from ch show s.id s.findings d else d

  after_specialist-All :
      (s : Specialist) (d : Dict Issue)
      → All IsPlain s.findings
      → All IsKeyed d
      → All IsKeyed (after_specialist s d)
        × ((k : String) (g : Finding)
            → Some (Reports k g) (values d)
            → Some (Reports k g) (values (after_specialist s d)))
        × (s.completed ≡ true
            → All (λ f. Some (Reports s.id f) (values (after_specialist s d))) s.findings)
  after_specialist-All s d plain keyed = elim (Bool-cases s.completed) [
    | inl completed ↦
        let (keyed', old, new) = collect_from-All s.id s.findings d plain keyed in
        rw completed (keyed', old, λ _. new)
    | inr skipped ↦ rw skipped (keyed, (λ k g r. r), λ completed. cc)
  ]

  pub collect_specialists-All :
      (specialists : List Specialist) (d : Dict Issue)
      → ArePlain specialists
      → All IsKeyed d
      → ((k : String) (g : Finding)
          → Some (Reports k g) (values d)
          → Some (Reports k g) (values (collect_specialists ch show specialists d)))
        × AllReported specialists (values (collect_specialists ch show specialists d))
  unfolding collect_specialists
  collect_specialists-All [] d plain keyed = (λ k g r. r, tt)
  collect_specialists-All (s ∷ specialists) d plain keyed =
      let next = after_specialist s d in
      let (keyed', old, new) = after_specialist-All s d plain.0 keyed in
      let (later, rest) = collect_specialists-All specialists next plain.1 keyed' in
      (
        λ k g r. later k g (old k g r),
        (
          λ completed.
              All-imp (λ f. Some (Reports s.id f) (values next))
                (λ f. Some (Reports s.id f) (values (collect_specialists ch show specialists next)))
                s.findings (later s.id) (new completed),
          rest,
        ),
      )
