-- ===== src/Value.antt =====
-- The values that the handlers exchange: what `json.loads` and the frontmatter loader return, and
-- the guards of code_review/handlers.py (`_ensure_list`, `_ensure_dict`, `_ensure_str`,
-- `_env_from_ctx`, `_is_string_array`). Keys of a `dict` are texts, as in JSON.
use skill_code_review.Base.{
  ℕ, String, Bool, true, false, not, Option, none, some, List, [], ◌∷◌, ℤ, pos, negsuc, ltb, str_eq,
  if◌then◌else◌, Dict, lookup, insert, lookup-insert, ◌≡◌, refl, ap, ◌∙◌, Bool-cases, inl, inr,
}

-- A Python float: every finite one is a fraction `n / (d + 1)`.
pub data Float : Type 0 where
  nan : Float
  infinity : Bool → Float
  ratio : ℤ → ℕ → Float

mutual
  pub data Value : Type 0 where
    null : Value
    bool : Bool → Value
    int : ℤ → Value
    float : Float → Value
    str : String → Value
    list : Items → Value
    dict : Fields → Value

  pub data Items : Type 0 where
    nil : Items
    item : Value → Items → Items

  pub data Fields : Type 0 where
    end : Fields
    field : String → Value → Fields → Fields

abbrev pub elements : Items → List Value
elements nil = []
elements (item v vs) = v ∷ elements vs

abbrev pub entries : Fields → Dict Value
entries end = []
entries (field k v fs) = (k, v) ∷ entries fs

abbrev pub of_elements : List Value → Items
of_elements [] = nil
of_elements (v ∷ vs) = item v (of_elements vs)

abbrev pub of_entries : Dict Value → Fields
of_entries [] = end
of_entries ((k, v) ∷ d) = field k v (of_entries d)

-- A list and a dict display.
abbrev pub array : List Value → Value
array vs = list (of_elements vs)

abbrev pub object : Dict Value → Value
object d = dict (of_entries d)

-- `d.get(k)`
unfoldable pub get : Dict Value → String → Value
get d k = elim (lookup k d) [ none ↦ null | some v ↦ v ]

-- `d.get(k, default)`, by what is under the key.
abbrev pub value_or : Value → Option Value → Value
value_or default none = default
value_or default (some v) = v

pub get-insert :
    (k j : String) (v : Value) (d : Dict Value)
    → get (insert k v d) j ≡ (if str_eq k j then v else get d j)
unfolding get
get-insert k j v d =
    ap (λ o. elim o as (λ _. Value) [ none ↦ null | some w ↦ w ]) (lookup-insert k j v d)
    ∙ elim (Bool-cases (str_eq k j)) [ inl same ↦ rw same refl | inr differ ↦ rw differ refl ]

-- `isinstance(v, str)`, `isinstance(v, list)` and `isinstance(v, dict)`, with the value.
abbrev pub as_str : Value → Option String
as_str (str s) = some s
as_str _ = none

abbrev pub as_list : Value → Option (List Value)
as_list (list vs) = some (elements vs)
as_list _ = none

abbrev pub as_dict : Value → Option (Dict Value)
as_dict (dict fs) = some (entries fs)
as_dict _ = none

-- `isinstance(v, int)`, which holds of a `bool` too.
abbrev pub as_int : Value → Option ℤ
as_int (int n) = some n
as_int (bool true) = some (pos 1)
as_int (bool false) = some (pos 0)
as_int _ = none

abbrev pub is_none : Value → Bool
is_none null = true
is_none _ = false

-- `bool(v)`
unfoldable pub truthy : Value → Bool
truthy null = false
truthy (bool b) = b
truthy (int (pos n)) = ltb 0 n
truthy (int (negsuc n)) = true
truthy (float nan) = true
truthy (float (infinity s)) = true
truthy (float (ratio (pos n) d)) = ltb 0 n
truthy (float (ratio (negsuc n) d)) = true
truthy (str s) = not (str_eq s "")
truthy (list nil) = false
truthy (list (item v vs)) = true
truthy (dict end) = false
truthy (dict (field k v fs)) = true

unfoldable pub ensure_list : Value → List Value
ensure_list (list vs) = elements vs
ensure_list _ = []

unfoldable pub ensure_dict : Value → Dict Value
ensure_dict (dict fs) = entries fs
ensure_dict _ = []

-- What `env.get("args")` yields for the context's args and inputs.
unfoldable pub env_from_ctx : Dict Value → Dict Value → Dict Value
env_from_ctx args inputs = elim (lookup "args" inputs) [
  | none ↦ insert "args" (object args) inputs
  | some v ↦ inputs
]

-- `[p for p in vs if isinstance(p, str)]`
unfoldable pub strings : List Value → List String
strings [] = []
strings (str s ∷ vs) = s ∷ strings vs
strings (_ ∷ vs) = strings vs

-- `isinstance(v, str) and v`
unfoldable pub nonempty_str : Value → Option String
nonempty_str (str s) = if str_eq s "" then none else some s
nonempty_str _ = none

-- `v or []`, iterated as a list of texts where the code tests each element by `isinstance`.
unfoldable pub list_or_empty : Value → List Value
list_or_empty (list vs) = elements vs
list_or_empty _ = []

unfoldable pub all_strings : List Value → Bool
all_strings [] = true
all_strings (str s ∷ vs) = all_strings vs
all_strings (_ ∷ vs) = false

unfoldable pub is_string_array : Value → Bool
unfolding all_strings
is_string_array (list vs) = all_strings (elements vs)
is_string_array _ = false
