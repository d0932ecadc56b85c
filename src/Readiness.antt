-- ===== src/Readiness.antt =====
-- code_review/handlers.py, handler 5: `handle_synthesize_release_readiness` with
-- `_tags_like_from_leaf` and `_gate_matches`. Eight gates are evaluated over the picked leaves and
-- the blocking findings, and give the verdict.
mod Tags
pub mod Outcome
use Prim.Native.String
use skill_code_review.Base.{
  ℕ, zero, suc, ◌+◌, String, Bool, true, false, ◌&&◌, ◌||◌, not, Option, none, some, List, [], ◌∷◌,
  ◌++◌, ltb, leb, ◌==◌, if◌then◌else◌, length, any, sorted, contains, add, Dict, keys, lookup, keep,
  str_eq, tally,
}
use skill_code_review.Value.{
  Value, null, bool, int, float, str, list, dict, get, ensure_list, ensure_dict, as_dict, as_str,
  truthy, elements, entries, nonempty_str, strings,
}
use skill_code_review.Result.{Result, ok, raise, Exception, type_error, ◌>>=◌, iterate}
use skill_code_review.Glob.{codes}
use skill_code_review.Triage.{has_word, begins}
unfoldable pub use Tags.{tags_like_from_leaf}

pub data GateStatus : Type 0 where
  pass fail na : GateStatus

pub data Verdict : Type 0 where
  go conditional no_go : Verdict

pub record Gate : Type 0 where
  pub number : ℕ
  pub name : String
  pub status : GateStatus
  pub contributing_leaves : List String
  pub blocker_count : ℕ

pub record Readiness : Type 0 where
  pub gates : List Gate
  pub verdict : Verdict

-- `_GATE_NAMES`
abbrev pub gate_names : List String
gate_names =
    "SOLID & Clean Code" ∷ "Error Handling & Resilience" ∷ "Code Quality & Type Safety"
    ∷ "Test Coverage" ∷ "Architecture & Design" ∷ "Security & Safety" ∷ "Documentation"
    ∷ "Domain-specific quality" ∷ []

-- A test that may raise: `none` is the exception.
abbrev pub Test : Type 0
Test = Option Bool

-- `a or b` and `a and b`: the second is evaluated only if the first does not decide.
abbrev pub or_else : Test → Bool → Test
or_else none b = none
or_else (some true) b = some true
or_else (some false) b = some b

abbrev pub and_then : Test → Bool → Test
and_then none b = none
and_then (some true) b = some b
and_then (some false) b = some false

-- `name in dims`, for the value of `leaf.get("dimensions") or []`: membership in a list, a
-- substring of a text, a key of a dict; other values that are true raise.
unfoldable pub has_dimension : String → Value → Test
unfolding truthy
has_dimension name (list vs) = some (contains name (strings (elements vs)))
has_dimension name (str s) = some (has_word (codes name) (codes s))
has_dimension name (dict fs) = some (contains name (keys (entries fs)))
has_dimension name v = if truthy v then none else some false

-- `any(d in {...} for d in dims)` over the elements of a list: a list or a dict among them is not
-- hashable, and raises unless an earlier element is found.
unfoldable pub any_listed : List String → List Value → Test
any_listed names [] = some false
any_listed names (list vs ∷ rest) = none
any_listed names (dict fs ∷ rest) = none
any_listed names (str s ∷ rest) =
    let r = any_listed names rest in if contains s names then some true else r
any_listed names (_ ∷ rest) = any_listed names rest

-- The same over any value of `dims`; the names have more than one character, so that no character
-- of a text is one of them.
unfoldable pub any_dimension : List String → Value → Test
unfolding any_listed truthy
any_dimension names (list vs) = any_listed names (elements vs)
any_dimension names (str s) = some false
any_dimension names (dict fs) = some (any (λ k. contains k names) (keys (entries fs)))
any_dimension names v = if truthy v then none else some false

abbrev pub some_tag : List String → List String → Bool
some_tag names tags_like = any (λ t. contains t names) tags_like

abbrev starts : String → String → Bool
starts prefix s = begins (codes prefix) (codes s)

-- `any(leaf_id.startswith(p) for p in (...))`; an id that is no text has no `startswith`.
unfoldable pub id_begins : Option Value → Test
id_begins none = some false
id_begins (some (str s)) =
    some (starts "domain-" s || starts "obs-" s || starts "cli-" s || starts "api-" s)
id_begins (some _) = none

-- `_gate_matches` for a leaf with the value `dims` of its dimensions, its id as it is found, and
-- its tags; `none` where the source raises.
unfoldable pub gate_matches : ℕ → Value → Option Value → List String → Test
unfolding has_dimension any_dimension id_begins
gate_matches number dims leaf_id tags_like =
    if number == 1
    then or_else (has_dimension "readability" dims) (
        some_tag ("solid" ∷ "dry" ∷ "kiss" ∷ "yagni" ∷ "clean-code" ∷ "naming" ∷ "complexity" ∷ [])
          tags_like)
    else if number == 2
    then and_then (has_dimension "correctness" dims) (
        some_tag
          ("error-handling" ∷ "resilience" ∷ "fault-tolerance" ∷ "retry" ∷ "circuit-breaker"
            ∷ "concurrency" ∷ "async" ∷ [])
          tags_like)
    else if number == 3
    then or_else (has_dimension "correctness" dims) (
        some_tag
          ("type-safety" ∷ "idioms" ∷ "dead-code" ∷ "language-quality" ∷ "initialization"
            ∷ "startup" ∷ "shutdown" ∷ [])
          tags_like)
    else if number == 4
    then has_dimension "tests" dims
    else if number == 5
    then or_else (any_dimension ("architecture" ∷ "performance" ∷ []) dims) (
        some_tag
          ("api-design" ∷ "module-boundaries" ∷ "dependencies" ∷ "layering" ∷ "ddd"
            ∷ "microservices" ∷ [])
          tags_like)
    else if number == 6
    then or_else (has_dimension "security" dims)
        (some_tag ("hooks-safety" ∷ "supply-chain" ∷ "dependencies-security" ∷ []) tags_like)
    else if number == 7
    then has_dimension "documentation" dims
    else if number == 8
    then if some_tag ("cli" ∷ "api" ∷ "observability" ∷ []) tags_like
        || any (λ t. starts "domain-" t) tags_like
      then some true
      else id_begins leaf_id
    else some false

-- The guarded call in the loop over the leaves: an element that is no dict is passed over, and a
-- test that raises counts as no match.
unfoldable pub contributes : ℕ → Value → Bool
unfolding gate_matches tags_like_from_leaf
contributes number (dict fs) =
    let leaf = entries fs in
    elim (gate_matches number (get leaf "dimensions") (lookup "id" leaf)
      (tags_like_from_leaf leaf)) [ some true ↦ true | _ ↦ false ]
contributes number _ = false

-- `severity in {"critical", "important"}`; a list or a dict is not hashable.
unfoldable pub is_blocking : Value → Result Bool
is_blocking (list vs) = raise type_error
is_blocking (dict fs) = raise type_error
is_blocking (str s) = ok (str_eq s "critical" || str_eq s "important")
is_blocking _ = ok false

-- The leaf ids that one finding adds to `blocking_flagged_by`.
unfoldable pub blockers_of : Value → Result (List String)
unfolding is_blocking iterate
blockers_of (dict fs) = do
  blocking ← is_blocking (get (entries fs) "severity")
  if blocking then (do ids ← iterate (get (entries fs) "flagged_by"); ok (strings ids)) else ok []
blockers_of _ = ok []

-- `blocking_flagged_by`, read by `in` only.
unfoldable pub blocking_flagged_by : List Value → Result (List String)
unfolding blockers_of
blocking_flagged_by [] = ok []
blocking_flagged_by (f ∷ findings) = do
  ids ← blockers_of f
  rest ← blocking_flagged_by findings
  ok (ids ++ rest)

-- `leaf.get("id")` of a contributing leaf, where it is a text.
unfoldable pub text_ids : List Value → List String
text_ids [] = []
text_ids (leaf ∷ leaves) = elim (as_str (get (ensure_dict leaf) "id")) [
  | none ↦ text_ids leaves
  | some leaf_id ↦ leaf_id ∷ text_ids leaves
]

-- One gate, from the leaves that contribute to it.
unfoldable pub gate_of : List String → ℕ → String → List Value → Gate
unfolding text_ids
gate_of blocking idx name [] = record {
  number = idx;
  name = name;
  status = na;
  contributing_leaves = [];
  blocker_count = 0;
}
gate_of blocking idx name (leaf ∷ leaves) =
    let ids = text_ids (leaf ∷ leaves) in
    let blocker_count = tally (λ leaf_id. contains leaf_id blocking) ids in
    record {
      number = idx;
      name = name;
      status = if blocker_count == 0 then pass else fail;
      contributing_leaves = sorted ids;
      blocker_count = blocker_count;
    }

-- The loop over `_GATE_NAMES` from the number `idx` on.
unfoldable pub gates_from : List String → List Value → ℕ → List String → List Gate
unfolding gate_of contributes
gates_from blocking picked_leaves idx [] = []
gates_from blocking picked_leaves idx (name ∷ names) =
    gate_of blocking idx name (keep (contributes idx) picked_leaves)
    ∷ gates_from blocking picked_leaves (suc idx) names

abbrev pub is_fail : Gate → Bool
is_fail g = elim (g.status) [ fail ↦ true | _ ↦ false ]

-- `handle_synthesize_release_readiness`
unfoldable pub synthesize_release_readiness : Dict Value → Result Readiness
unfolding blocking_flagged_by gates_from truthy
synthesize_release_readiness env = do
  blocking ← blocking_flagged_by (ensure_list (get env "findings"))
  let gates = gates_from blocking (ensure_list (get env "picked_leaves")) 1 gate_names
  ok (record {
    gates = gates;
    verdict = if any is_fail gates || truthy (get env "coverage_rule_violated") then no_go else go;
  })
