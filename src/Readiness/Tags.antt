-- ===== src/Readiness/Tags.antt =====
-- code_review/handlers.py `_tags_like_from_leaf`: the tags that the id of a leaf stands for, which
-- are the id and every run of one to four of its segments.
use Prim.Native.Char.{code}
use Prim.Native.String.{◌++◌ as ◌<>◌}
use skill_code_review.Base.{
  ℕ, zero, suc, String, Bool, true, false, none, some, List, [], ◌∷◌, ◌++◌, ◌==◌, ltb,
  if◌then◌else◌, length, take, sorted, update, Dict,
}
use skill_code_review.Value.{Value, get, nonempty_str}

-- The segments, with one more character in front.
abbrev pub onto_segment : Bool → String → List String → List String
onto_segment true c parts = "" ∷ parts
onto_segment false c [] = c ∷ []
onto_segment false c (p ∷ parts) = (c <> p) ∷ parts

-- `leaf_id.split("-")`
unfoldable pub split_dashes : String → List String
split_dashes String.[] = "" ∷ []
split_dashes (String.◌∷◌ c s) =
    onto_segment (code c == b'-') (String.◌∷◌ c String.[]) (split_dashes s)

-- `"-".join(parts)`
unfoldable pub join_dashes : List String → String
join_dashes [] = ""
join_dashes (p ∷ []) = p
join_dashes (p ∷ q ∷ parts) = p <> "-" <> join_dashes (q ∷ parts)

-- The runs of `n`, `n + 1`, … segments at the front, until they are longer than what is there.
unfoldable pub runs : ℕ → ℕ → List String → List String
unfolding join_dashes
runs zero n segments = []
runs (suc left) n segments =
    let longer = runs left (suc n) segments in
    if ltb (length segments) n then [] else join_dashes (take n segments) ∷ longer

-- The loop over `i`: the segment itself, then the runs of two, three and four that start there.
unfoldable pub segment_tags : List String → List String
unfolding runs
segment_tags [] = []
segment_tags (s ∷ segments) = s ∷ runs 3 2 (s ∷ segments) ++ segment_tags segments

-- `_tags_like_from_leaf`
unfoldable pub tags_like_from_leaf : Dict Value → List String
unfolding split_dashes segment_tags
tags_like_from_leaf leaf = elim (nonempty_str (get leaf "id")) [
  | none ↦ []
  | some leaf_id ↦ sorted (update (leaf_id ∷ []) (segment_tags (split_dashes leaf_id)))
]
