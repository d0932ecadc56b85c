-- ===== src/Findings/Dedupe.antt =====
-- code_review/handlers.py: `_normalise_title`, `_dedup_key`, `_pick_winner`, the loop of
-- `handle_collect_findings` over the specialists, and `_sort_key`.
use Prim.Native.Char.{code}
use Prim.Native.String.{◌++◌ as ◌<>◌}
use skill_code_review.Base.{
  String, Bool, true, false, ◌&&◌, Option, none, some, List, [], ◌∷◌, ltb, ◌==◌, str_eq, str_leb,
  if◌then◌else◌, ℤ, pos, eq_ℤ, leb_ℤ, Dict, lookup, insert, add, sorted,
}
use skill_code_review.Value.{Value, int}
use skill_code_review.Characters.{Characters}
use skill_code_review.Findings.Shape.{Finding, Specialist, Issue, rank}

module _ (ch : Characters) where
  -- The text with its outer spaces taken away and each inner run of them made one: what `strip` and
  -- then `re.sub(r"\s+", " ", …)` leave. `behind` says that the character in front was a space, and
  -- `started` that there has been a character that is none.
  unfoldable pub squeeze : Bool → Bool → String → String
  squeeze started behind String.[] = ""
  squeeze started behind (String.◌∷◌ c s) =
      let skip = squeeze started true s in
      let go = squeeze true false s in
      if ch.is_space (code c)
      then skip
      else if started && behind
      then " " <> String.◌∷◌ c go
      else String.◌∷◌ c go

  -- `_normalise_title`; `lower` neither makes a space nor takes one away.
  unfoldable pub normalise_title : Option String → String
  unfolding squeeze
  normalise_title none = ""
  normalise_title (some title) = squeeze false false (ch.lower title)

  abbrev pub line_text : (Value → String) → Option ℤ → String
  line_text show none = ""
  line_text show (some n) = show (int n)

  -- `_dedup_key`; `show` is `str`.
  unfoldable pub dedup_key : (Value → String) → Finding → String
  unfolding normalise_title
  dedup_key show f =
      f.file <> ("::" <> (line_text show f.line <> ("::" <> normalise_title f.title)))

-- `_pick_winner(existing, f_stamped) is existing`: of equal severities the smaller origin wins.
unfoldable pub existing_wins : Issue → String → Finding → Bool
existing_wins existing specialist_id f =
    if rank existing.finding == rank f
    then str_leb existing.winner specialist_id
    else ltb (rank f) (rank existing.finding)

-- `winner_origin or specialist_id`
abbrev pub origin_or : String → String → String
origin_or winner specialist_id = if str_eq winner "" then specialist_id else winner

abbrev pub merge_into : Issue → String → Finding → Issue
merge_into existing specialist_id f = record {
  finding = if existing_wins existing specialist_id f then existing.finding else f;
  flagged_by = sorted (add existing.flagged_by specialist_id);
  winner =
      if existing_wins existing specialist_id f
      then origin_or existing.winner specialist_id
      else specialist_id;
  count = none;
}

abbrev pub merge_at : Option Issue → String → Finding → Issue
merge_at none specialist_id f = record {
  finding = f;
  flagged_by = specialist_id ∷ [];
  winner = specialist_id;
  count = none;
}
merge_at (some existing) specialist_id f = merge_into existing specialist_id f

module _ (ch : Characters) (show : Value → String) where
  -- One finding: `merged[key] = {...}`.
  unfoldable pub collect_finding : String → Finding → Dict Issue → Dict Issue
  unfolding dedup_key existing_wins
  collect_finding specialist_id f merged =
      let key = dedup_key ch show f in
      insert key (merge_at (lookup key merged) specialist_id f) merged

  unfoldable pub collect_from : String → List Finding → Dict Issue → Dict Issue
  unfolding collect_finding
  collect_from specialist_id [] merged = merged
  collect_from specialist_id (f ∷ findings) merged =
      collect_from specialist_id findings (collect_finding specialist_id f merged)

  -- The loop over `specialist_outputs`.
  unfoldable pub collect_specialists : List Specialist → Dict Issue → Dict Issue
  unfolding collect_from
  collect_specialists [] merged = merged
  collect_specialists (s ∷ specialists) merged =
      collect_specialists specialists
        (if s.completed then collect_from s.id s.findings merged else merged)

abbrev pub line_or_zero : Option ℤ → ℤ
line_or_zero none = pos 0
line_or_zero (some n) = n

module _ (ch : Characters) where
  -- `_sort_key(a) <= _sort_key(b)`
  unfoldable pub finding_leb : Finding → Finding → Bool
  unfolding normalise_title
  finding_leb a b =
      if rank a == rank b
      then if str_eq a.file b.file
        then if eq_ℤ (line_or_zero a.line) (line_or_zero b.line)
          then str_leb (normalise_title ch a.title) (normalise_title ch b.title)
          else leb_ℤ (line_or_zero a.line) (line_or_zero b.line)
        else str_leb a.file b.file
      else ltb (rank b) (rank a)

  abbrev pub issue_leb : Issue → Issue → Bool
  issue_leb a b = finding_leb a.finding b.finding
