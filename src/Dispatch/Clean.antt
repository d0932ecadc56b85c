-- ===== src/Dispatch/Clean.antt =====
-- code_review/dispatch.py `_strip_nulls`: what is left, and what is left alone.
use skill_code_review.Base.{◌≡◌, refl, ap}
use skill_code_review.Value.{
  Value, Items, Fields, null, bool, int, float, str, list, dict, nil, item, end, field,
}
use skill_code_review.Dispatch.Nulls.{strip_nulls, strip_items, strip_fields}

abbrev pub IsNull : Value → Type 0
IsNull null = Unit
IsNull _ = ⊥

-- No key has the value null, at any depth.
unfoldable mutual
  pub NullFree : Value → Type 0
  NullFree null = Unit
  NullFree (bool b) = Unit
  NullFree (int n) = Unit
  NullFree (float f) = Unit
  NullFree (str s) = Unit
  NullFree (list vs) = NullFreeItems vs
  NullFree (dict fs) = NullFreeFields fs

  pub NullFreeItems : Items → Type 0
  NullFreeItems nil = Unit
  NullFreeItems (item v vs) = NullFree v × NullFreeItems vs

  pub NullFreeFields : Fields → Type 0
  NullFreeFields end = Unit
  NullFreeFields (field k v fs) = (IsNull v → ⊥) × NullFree v × NullFreeFields fs

mutual
  unfolding strip_nulls NullFree

  strip-NullFree : (v : Value) → NullFree (strip_nulls v)
  strip-NullFree null = tt
  strip-NullFree (bool b) = tt
  strip-NullFree (int n) = tt
  strip-NullFree (float f) = tt
  strip-NullFree (str s) = tt
  strip-NullFree (list vs) = strip_items-NullFree vs
  strip-NullFree (dict fs) = strip_fields-NullFree fs

  strip_items-NullFree : (vs : Items) → NullFreeItems (strip_items vs)
  strip_items-NullFree nil = tt
  strip_items-NullFree (item v vs) = (strip-NullFree v, strip_items-NullFree vs)

  strip_fields-NullFree : (fs : Fields) → NullFreeFields (strip_fields fs)
  strip_fields-NullFree end = tt
  strip_fields-NullFree (field k null fs) = strip_fields-NullFree fs
  strip_fields-NullFree (field k (bool b) fs) = ((λ h. h), tt, strip_fields-NullFree fs)
  strip_fields-NullFree (field k (int n) fs) = ((λ h. h), tt, strip_fields-NullFree fs)
  strip_fields-NullFree (field k (float f) fs) = ((λ h. h), tt, strip_fields-NullFree fs)
  strip_fields-NullFree (field k (str s) fs) = ((λ h. h), tt, strip_fields-NullFree fs)
  strip_fields-NullFree (field k (list vs) fs) =
      ((λ h. h), strip_items-NullFree vs, strip_fields-NullFree fs)
  strip_fields-NullFree (field k (dict gs) fs) =
      ((λ h. h), strip_fields-NullFree gs, strip_fields-NullFree fs)

mutual
  unfolding strip_nulls NullFree

  strip-same : (v : Value) → NullFree v → strip_nulls v ≡ v
  strip-same null h = refl
  strip-same (bool b) h = refl
  strip-same (int n) h = refl
  strip-same (float f) h = refl
  strip-same (str s) h = refl
  strip-same (list vs) h = ap (λ r. list r) (strip_items-same vs h)
  strip-same (dict fs) h = ap (λ r. dict r) (strip_fields-same fs h)

  strip_items-same : (vs : Items) → NullFreeItems vs → strip_items vs ≡ vs
  strip_items-same nil h = refl
  strip_items-same (item v vs) h = rw (strip-same v h.0, strip_items-same vs h.1) refl

  strip_fields-same : (fs : Fields) → NullFreeFields fs → strip_fields fs ≡ fs
  strip_fields-same end h = refl
  strip_fields-same (field k null fs) h = absurd (h.0 tt)
  strip_fields-same (field k (bool b) fs) h =
      ap (λ r. field k (bool b) r) (strip_fields-same fs h.2)
  strip_fields-same (field k (int n) fs) h = ap (λ r. field k (int n) r) (strip_fields-same fs h.2)
  strip_fields-same (field k (float f) fs) h =
      ap (λ r. field k (float f) r) (strip_fields-same fs h.2)
  strip_fields-same (field k (str s) fs) h = ap (λ r. field k (str s) r) (strip_fields-same fs h.2)
  strip_fields-same (field k (list vs) fs) h =
      rw (strip_items-same vs h.1, strip_fields-same fs h.2) refl
  strip_fields-same (field k (dict gs) fs) h =
      rw (strip_fields-same gs h.1, strip_fields-same fs h.2) refl

-- The specialist's answer has no key with the value null once it is stripped, at any depth; an answer
-- without such a key is left as it is, and so is one that is stripped already.
pub strip_nulls-NullFree :
    (v : Value)
    → NullFree (strip_nulls v)
      × (NullFree v → strip_nulls v ≡ v)
      × (strip_nulls (strip_nulls v) ≡ strip_nulls v)
strip_nulls-NullFree v =
    (strip-NullFree v, strip-same v, strip-same (strip_nulls v) (strip-NullFree v))
