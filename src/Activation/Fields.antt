-- ===== src/Activation/Fields.antt =====
-- code_review/handlers.py `_is_tool_array`, `_validate_v2_field` and `_project_v2_fields`: the
-- fields of a leaf's frontmatter that are passed on, and the entry of one leaf file as
-- `_enumerate_wiki_leaves` builds it.
use skill_code_review.Base.{
  String, Bool, true, false, ◌&&◌, Option, none, some, List, [], ◌∷◌, str_eq, Dict, lookup, insert,
  if◌then◌else◌, update_dict, contains,
}
use skill_code_review.Value.{
  Value, null, str, list, dict, get, elements, entries, is_string_array, nonempty_str, is_none,
  as_dict,
}

abbrev pub is_text : Option String → Bool
is_text none = false
is_text (some s) = true

abbrev pub is_optional_text : Option Value → Bool
is_optional_text none = true
is_optional_text (some null) = true
is_optional_text (some (str s)) = true
is_optional_text (some _) = false

-- One element of `_is_tool_array`.
unfoldable pub is_tool : Value → Bool
is_tool (dict fs) =
    is_text (nonempty_str (get (entries fs) "name"))
    && is_text (nonempty_str (get (entries fs) "purpose"))
    && is_optional_text (lookup "command" (entries fs))
is_tool _ = false

unfoldable pub all_tools : List Value → Bool
unfolding is_tool
all_tools [] = true
all_tools (v ∷ vs) = is_tool v && all_tools vs

-- `_is_tool_array`
unfoldable pub is_tool_array : Value → Bool
unfolding all_tools
is_tool_array (list vs) = all_tools (elements vs)
is_tool_array _ = false

abbrev pub is_str : Value → Bool
is_str (str s) = true
is_str _ = false

abbrev pub is_nonempty : List Value → Bool
is_nonempty [] = false
is_nonempty (v ∷ vs) = true

-- `languages`: the text `all`, or texts, one at least.
unfoldable pub is_languages : Value → Bool
unfolding is_string_array
is_languages (str s) = str_eq s "all"
is_languages (list vs) = is_string_array (list vs) && is_nonempty (elements vs)
is_languages _ = false

-- Whether `_validate_v2_field` returns the value, and not `None`.
unfoldable pub is_valid_field : String → Value → Bool
unfolding is_tool_array is_languages
is_valid_field field value =
    if contains field ("focus" ∷ "type" ∷ [])
    then is_str value
    else if contains field ("dimensions" ∷ "audit_surface" ∷ "tags" ∷ "covers" ∷ [])
    then is_string_array value
    else if str_eq field "tools"
    then is_tool_array value
    else if str_eq field "languages"
    then is_languages value
    else false

-- `_validate_v2_field`
unfoldable pub validate_v2_field : String → Value → Value
unfolding is_valid_field
validate_v2_field field value = if is_valid_field field value then value else null

-- `_V2_FIELDS`
abbrev pub v2_fields : List String
v2_fields =
    "focus" ∷ "dimensions" ∷ "audit_surface" ∷ "languages" ∷ "tools" ∷ "tags" ∷ "covers" ∷ "type"
    ∷ []

abbrev pub put_unless_none : String → Value → Dict Value → Dict Value
put_unless_none field value out = if is_none value then out else insert field value out

-- The loop over the fields; a value that is `None` is not valid for any of them.
unfoldable pub project_fields : List String → Dict Value → Dict Value → Dict Value
unfolding validate_v2_field
project_fields [] metadata out = out
project_fields (field ∷ fields) metadata out =
    project_fields fields metadata
      (put_unless_none field (validate_v2_field field (get metadata field)) out)

-- `_project_v2_fields`
unfoldable pub project_v2_fields : Dict Value → Dict Value
unfolding project_fields
project_v2_fields metadata = project_fields v2_fields metadata []

abbrev pub globs_of : Option (Dict Value) → Value
globs_of none = null
globs_of (some activation) = get activation "file_globs"

-- The entry of the leaf file at `path` in the wiki, from its metadata; no entry without an id.
unfoldable pub leaf_entry : String → Dict Value → Option (Dict Value)
unfolding is_string_array project_v2_fields
leaf_entry path metadata = elim (nonempty_str (get metadata "id")) [
  | none ↦ none
  | some leaf_id ↦
      let globs = globs_of (as_dict (get metadata "activation")) in
      some (
        update_dict
          (("id", str leaf_id)
            ∷ ("path", str path)
            ∷ ("activation", get metadata "activation")
            ∷ (if is_string_array globs then ("file_globs", globs) ∷ [] else []))
          (project_v2_fields metadata))
]
