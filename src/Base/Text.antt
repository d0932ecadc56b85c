-- ===== src/Base/Text.antt =====
-- Texts as Python uses them here: equality, `in` on a list or a set of texts, `set.add`, `sorted`.
-- A set is a list in the order of insertion; its readers sort it, count it or ask `in`.
use Prim.Native.String.{String, compare}
use mathlib.Core.Path.{◌≡◌}
use mathlib.Core.Logic.{◌↔◌}
use mathlib.Core.Bool.{Bool, true, false, ◌||◌}
use mathlib.Core.List.{List, [], ◌∷◌, ◌++◌}
use text.Mathlib.Text
use text.Mathlib.Text.{is_le}
use text.Mathlib.TextEquality.{eq_iff}
use text.Mathlib.TextPositions.{eq_refl}
use skill_code_review.Base.Tests.{if◌then◌else◌}

abbrev pub str_eq : String → String → Bool
str_eq s t = Text.◌==◌ s t

-- The order of `sorted` on texts: by code points, which UTF-8 keeps.
abbrev pub str_leb : String → String → Bool
str_leb s t = is_le (compare s t)

pub str_eq_iff : (s t : String) → (str_eq s t ≡ true) ↔ (s ≡ t)
str_eq_iff s t = eq_iff s t

pub str_eq_refl : (s : String) → str_eq s s ≡ true
str_eq_refl s = eq_refl s

unfoldable pub contains : String → List String → Bool
contains k [] = false
contains k (x ∷ xs) = str_eq x k || contains k xs

-- `s.add(x)`
unfoldable pub add : List String → String → List String
add s x = if contains x s then s else s ++ x ∷ []

-- `s.update(xs)`
unfoldable pub update : List String → List String → List String
update s [] = s
update s (x ∷ xs) = update (add s x) xs

-- `sorted(xs, key=...)` for the order `before` on the keys; equal keys keep their order.
module _ {ℓ} {A : Type ℓ} (before : A → A → Bool) where
  unfoldable pub sort_insert : A → List A → List A
  sort_insert x [] = x ∷ []
  sort_insert x (y ∷ ys) =
      let rest = sort_insert x ys in if before x y then x ∷ y ∷ ys else y ∷ rest

  unfoldable pub sort : List A → List A
  sort [] = []
  sort (x ∷ xs) = sort_insert x (sort xs)

unfoldable pub sorted : List String → List String
sorted = sort str_leb
