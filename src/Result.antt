-- ===== src/Result.antt =====
-- Handlers that may raise: the exceptions that the modelled code of code_review/ raises or lets
-- pass, and Python's conversions `int(v)` and `float(v)`, and iteration over a value.
use skill_code_review.Base.{
  [], ◌∷◌, keys, ℕ, zero, suc, ◌-◌, ◌/◌, ◌^◌, String, true, false, Option, none, some, List, ℤ, pos,
  negsuc, leb, if◌then◌else◌, ◌≡◌, refl,
}
use skill_code_review.Value.{
  Value, Float, nan, infinity, ratio, bool, int, float, str, list, dict, elements, entries, truthy,
}

pub data Exception : Type 0 where
  type_error value_error overflow_error recursion_error : Exception
  missed_file : ℕ → ℤ → Exception
  dispatch_loop_exited_early : List (String × ℤ) → Exception

pub data Result {ℓ} (A : Type ℓ) : Type ℓ where
  ok : A → Result A
  raise : Exception → Result A

pub ok-injective {ℓ} : {A : Type ℓ} {a b : A} → ok a ≡ ok b → a ≡ b
ok-injective h = cc

-- The code behind a call that may raise.
infixl 5 ◌>>=◌
abbrev pub ◌>>=◌ {ℓ κ} : {A : Type ℓ} {B : Type κ} (r : Result A) (rest : A → Result B) → Result B
ok v >>= rest = rest v
raise exc >>= rest = raise exc

-- If both return, the call has returned a value, and the rest returns from that value.
pub >>=-eq-ok {ℓ κ} :
    {A : Type ℓ} {B : Type κ} {out : B} (r : Result A) (rest : A → Result B)
    → (r >>= rest) ≡ ok out
    → (v : A) × (r ≡ ok v) × (rest v ≡ ok out)
>>=-eq-ok (ok v) rest returns = (v, refl, returns)
>>=-eq-ok (raise exc) rest returns = cc

-- The characters of a text, each as a text.
abbrev pub characters : String → List Value
characters String.[] = []
characters (String.◌∷◌ c s) = str (String.◌∷◌ c String.[]) ∷ characters s

abbrev pub key_values : List String → List Value
key_values [] = []
key_values (k ∷ ks) = str k ∷ key_values ks

-- `for x in v or []`
unfoldable pub iterate : Value → Result (List Value)
unfolding truthy
iterate (list vs) = ok (elements vs)
iterate (str s) = ok (characters s)
iterate (dict fs) = ok (key_values (keys (entries fs)))
iterate v = if truthy v then raise type_error else ok []

-- What `int` and `float` make of a text; `none` is a `ValueError`.
pub record Parsers : Type 0 where
  pub parse_int : String → Option ℤ
  pub parse_float : String → Option Float

-- Truncation towards zero of `n / (d + 1)`.
unfoldable pub truncate : ℤ → ℕ → ℤ
truncate (pos n) d = pos (n / suc d)
truncate (negsuc n) d = elim (suc n / suc d) [ zero ↦ pos 0 | suc q ↦ negsuc q ]

-- `int(f)`
unfoldable pub int_of_float : Float → Result ℤ
unfolding truncate
int_of_float nan = raise value_error
int_of_float (infinity s) = raise overflow_error
int_of_float (ratio n d) = ok (truncate n d)

-- The least number that rounds to no finite double.
abbrev pub double_bound : ℕ
double_bound = 2 ^ 1024 - 2 ^ 970

module _ (p : Parsers) where
  -- `int(v)`
  unfoldable pub to_int : Value → Result ℤ
  unfolding int_of_float
  to_int (bool true) = ok (pos 1)
  to_int (bool false) = ok (pos 0)
  to_int (int n) = ok n
  to_int (float f) = int_of_float f
  to_int (str s) = elim (p.parse_int s) [ none ↦ raise value_error | some n ↦ ok n ]
  to_int _ = raise type_error

  -- `float(v)`. A number that is not exact as a double is left exact: the readers compare it with
  -- small bounds only.
  unfoldable pub to_float : Value → Result Float
  to_float (bool true) = ok (ratio (pos 1) 0)
  to_float (bool false) = ok (ratio (pos 0) 0)
  to_float (int (pos n)) = if leb double_bound n then raise overflow_error else ok (ratio (pos n) 0)
  to_float (int (negsuc n)) =
      if leb double_bound (suc n) then raise overflow_error else ok (ratio (negsuc n) 0)
  to_float (float f) = ok f
  to_float (str s) = elim (p.parse_float s) [ none ↦ raise value_error | some f ↦ ok f ]
  to_float _ = raise type_error
