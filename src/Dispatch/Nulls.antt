-- ===== src/Dispatch/Nulls.antt =====
-- code_review/dispatch.py `_strip_nulls`.
use skill_code_review.Value.{
  Value, Items, Fields, null, bool, int, float, str, list, dict, nil, item, end, field,
}

-- A key whose value is null goes; a null in a list stays.
unfoldable mutual
  pub strip_nulls : Value → Value
  strip_nulls null = null
  strip_nulls (bool b) = bool b
  strip_nulls (int n) = int n
  strip_nulls (float f) = float f
  strip_nulls (str s) = str s
  strip_nulls (list vs) = list (strip_items vs)
  strip_nulls (dict fs) = dict (strip_fields fs)

  pub strip_items : Items → Items
  strip_items nil = nil
  strip_items (item v vs) = item (strip_nulls v) (strip_items vs)

  pub strip_fields : Fields → Fields
  strip_fields end = end
  strip_fields (field k null fs) = strip_fields fs
  strip_fields (field k (bool b) fs) = field k (bool b) (strip_fields fs)
  strip_fields (field k (int n) fs) = field k (int n) (strip_fields fs)
  strip_fields (field k (float f) fs) = field k (float f) (strip_fields fs)
  strip_fields (field k (str s) fs) = field k (str s) (strip_fields fs)
  strip_fields (field k (list vs) fs) = field k (list (strip_items vs)) (strip_fields fs)
  strip_fields (field k (dict gs) fs) = field k (dict (strip_fields gs)) (strip_fields fs)
