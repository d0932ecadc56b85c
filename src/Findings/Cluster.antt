-- ===== src/Findings/Cluster.antt =====
-- code_review/handlers.py `_semantic_merge` with `_finding_text` and `_token_jaccard`: near
-- duplicates in one file are found by pairs, gathered by union-find and merged.
use Prim.Native.Char.{code}
use Prim.Native.String.{◌++◌ as ◌<>◌}
use skill_code_review.Base.{
  ℕ, zero, suc, ◌*◌, String, Bool, false, ◌&&◌, ◌||◌, not, Option, none, some, List, [], ◌∷◌, ◌++◌,
  ltb, leb, ◌==◌, str_eq, if◌then◌else◌, ℤ, eq_ℤ, length, map, contains, update, sorted, tally,
}
use skill_code_review.Value.{Float}
use skill_code_review.Characters.{Characters}
use skill_code_review.Findings.Shape.{
  Finding, Issue, rank, text_or, float_lt, float_eq, zero_float, conf_or_zero,
}

-- What `_embed_texts` makes of the texts, by the external command: for two places whether the cosine
-- of their vectors is at least the threshold; none without a command, or if it fails.
abbrev pub Embedder : Type 0
Embedder = List String → Option (ℕ → ℕ → Bool)

-- `[a-z0-9_]`
abbrev pub is_token_char : ℕ → Bool
is_token_char c = (leb b'a' c && leb c b'z') || (leb b'0' c && leb c b'9') || c == b'_'

abbrev pub close : String → List String → List String
close String.[] tokens = tokens
close (String.◌∷◌ c s) tokens = String.◌∷◌ c s ∷ tokens

-- `re.findall(r"[a-z0-9_]+", text)`, with the token begun so far.
unfoldable pub tokens_from : String → String → List String
tokens_from begun String.[] = close begun []
tokens_from begun (String.◌∷◌ c s) =
    let longer = tokens_from (begun <> String.◌∷◌ c String.[]) s in
    let next = tokens_from "" s in if is_token_char (code c) then longer else close begun next

module _ (ch : Characters) where
  -- `set(re.findall(...))`
  unfoldable pub token_set : String → List String
  unfolding tokens_from
  token_set text = update [] (tokens_from "" (ch.lower text))

  -- `_token_jaccard(a, b) >= 0.5`: a quotient is at least a half when twice the dividend is at least
  -- the divisor.
  unfoldable pub jaccard_at_least_half : String → String → Bool
  unfolding token_set
  jaccard_at_least_half a b =
      let ta = token_set a in
      let tb = token_set b in
      let union = length (update ta tb) in
      let common = tally (λ t. contains t tb) ta in not (union == 0) && leb union (2 * common)

-- `_finding_text` without its `strip`: the tokens of a text do not depend on the spaces around it,
-- and the embedder, an argument, may take them away.
unfoldable pub finding_text : Finding → String
finding_text f = text_or f.title <> (". " <> text_or f.description)

-- `list(range(k, k + n))`
unfoldable pub range_from : ℕ → ℕ → List ℕ
range_from k zero = []
range_from k (suc n) = k ∷ range_from (suc k) n

-- `findings[i]`, for an index in range.
unfoldable pub issue_at : Issue → List Issue → ℕ → Issue
issue_at default [] i = default
issue_at default (x ∷ xs) zero = x
issue_at default (x ∷ xs) (suc i) = issue_at default xs i

-- The list `parent`, as a function of the index.
abbrev pub Parents : Type 0
Parents = ℕ → ℕ

-- `parent[x] = v`
abbrev pub point : Parents → ℕ → ℕ → Parents
point parent x v y = if y == x then v else parent y

-- `find`, with the parents that it leaves. On fuel: `find-root` gives the fuel that is enough.
unfoldable pub find : ℕ → Parents → ℕ → ℕ × Parents
find zero parent x = (x, parent)
find (suc fuel) parent x =
    let halved = find fuel (point parent x (parent (parent x))) (parent (parent x)) in
    if parent x == x then (x, parent) else halved

-- `parent[find(i)] = find(j)`: the right side is evaluated first.
unfoldable pub link : ℕ → Parents → ℕ → ℕ → Parents
unfolding find
link fuel parent i j =
    let (rj, after_j) = find fuel parent j in
    let (ri, after_i) = find fuel after_j i in point after_i ri rj

module _ (together : ℕ → ℕ → Bool) (fuel : ℕ) where
  -- The inner loop over `j`.
  unfoldable pub link_row : ℕ → List ℕ → Parents → Parents
  unfolding link
  link_row i [] parent = parent
  link_row i (j ∷ js) parent = link_row i js (if together i j then link fuel parent i j else parent)

  -- The loop over `i`: the later indices are those behind it.
  unfoldable pub link_rows : List ℕ → Parents → Parents
  unfolding link_row
  link_rows [] parent = parent
  link_rows (i ∷ later) parent = link_rows later (link_row i later parent)

-- `groups`, in the order of insertion.
abbrev pub Groups : Type 0
Groups = List (ℕ × List ℕ)

-- `groups.setdefault(root, []).append(i)`
unfoldable pub add_member : ℕ → ℕ → Groups → Groups
add_member root i [] = (root, i ∷ []) ∷ []
add_member root i ((r, members) ∷ groups) =
    if r == root then (r, members ++ i ∷ []) ∷ groups else (r, members) ∷ add_member root i groups

unfoldable pub group : ℕ → List ℕ → Parents → Groups → Groups
unfolding find add_member
group fuel [] parent groups = groups
group fuel (i ∷ is) parent groups =
    let (root, parent') = find fuel parent i in group fuel is parent' (add_member root i groups)

-- Whether `(rank, confidence)` of the second is greater.
unfoldable pub is_better : Issue → Issue → Bool
unfolding float_lt float_eq
is_better a b =
    ltb (rank a.finding) (rank b.finding)
    || (rank a.finding == rank b.finding
        && float_lt (conf_or_zero a.finding.confidence) (conf_or_zero b.finding.confidence))

-- What `max` keeps of two.
unfoldable pub better_of : Issue → Issue → Issue
unfolding is_better
better_of a b = if is_better a b then b else a

-- `max(members, key=...)`: the first of the greatest.
unfoldable pub best : Issue → List Issue → Issue
best a [] = a
best a (b ∷ bs) = best (better_of a b) bs

-- `flagged`
unfoldable pub all_flagged : List String → List Issue → List String
all_flagged flagged [] = flagged
all_flagged flagged (m ∷ members) = all_flagged (update flagged m.flagged_by) members

-- `conf`
unfoldable pub max_confidence : Float → List Issue → Float
unfolding float_lt
max_confidence conf [] = conf
max_confidence conf (m ∷ members) =
    let c = conf_or_zero m.finding.confidence in
    max_confidence (if float_lt conf c then c else conf) members

abbrev pub with_confidence : Float → Finding → Finding
with_confidence conf f = if float_eq conf zero_float then f else record f { confidence = some conf }

-- The issue that stands for the members of a group; one that is alone stays as it is.
unfoldable pub merge_group : Issue → List Issue → Issue
unfolding best all_flagged max_confidence
merge_group m [] = m
merge_group m (n ∷ members) =
    let rep = best m (n ∷ members) in
    record {
      finding = with_confidence (max_confidence zero_float (m ∷ n ∷ members)) rep.finding;
      flagged_by = sorted (all_flagged [] (m ∷ n ∷ members));
      winner = rep.winner;
      count = some (length (m ∷ n ∷ members));
    }

abbrev pub merge_members : List Issue → List Issue
merge_members [] = []
merge_members (m ∷ members) = merge_group m members ∷ []

unfoldable pub merge_groups : (ℕ → Issue) → Groups → List Issue
unfolding merge_group
merge_groups issue [] = []
merge_groups issue ((root, members) ∷ groups) =
    merge_members (map issue members) ++ merge_groups issue groups

-- `li is not None and li == lj`
abbrev pub same_line : Option ℤ → Option ℤ → Bool
same_line (some m) (some n) = eq_ℤ m n
same_line a b = false

-- The rounds that `find` may make: one for each pair, and one.
abbrev pub find_fuel : ℕ → ℕ
find_fuel n = suc (n * n)

module _ (ch : Characters) (embed : Embedder) where
  -- `sim_ok`, for the texts and the vectors that there are.
  abbrev pub similar : Option (ℕ → ℕ → Bool) → (ℕ → Issue) → ℕ → ℕ → Bool
  similar none issue i j =
      jaccard_at_least_half ch (finding_text (issue i).finding) (finding_text (issue j).finding)
  similar (some close_vectors) issue i j = close_vectors i j

  -- Whether a pair of findings is linked.
  unfoldable pub are_together : Option (ℕ → ℕ → Bool) → (ℕ → Issue) → ℕ → ℕ → Bool
  unfolding jaccard_at_least_half finding_text
  are_together vectors issue i j =
      str_eq (issue i).finding.file (issue j).finding.file
      && (same_line (issue i).finding.line (issue j).finding.line || similar vectors issue i j)

  -- The merge of `n` findings.
  unfoldable pub merge_issues : Issue → List Issue → List Issue
  unfolding are_together link_rows group merge_groups range_from issue_at
  merge_issues first others =
      let issues = first ∷ others in
      let n = length issues in
      let indices = range_from 0 n in
      let issue = issue_at first issues in
      let vectors = embed (map (λ i. finding_text i.finding) issues) in
      let parent = link_rows (are_together vectors issue) (find_fuel n) indices (λ x. x) in
      merge_groups issue (group (find_fuel n) indices parent [])

  -- `_semantic_merge`
  unfoldable pub semantic_merge : List Issue → List Issue
  unfolding merge_issues
  semantic_merge [] = []
  semantic_merge (a ∷ []) = a ∷ []
  semantic_merge (a ∷ b ∷ issues) = merge_issues a (b ∷ issues)
