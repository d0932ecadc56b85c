-- ===== src/Pipeline/Encoding.antt =====
-- code_review/runner.py and code_review/handlers.py: what the merger reads of the batches and the
-- payloads that the planner and the loop have written.
use skill_code_review.Base.{
  ℕ, suc, String, Bool, ◌||◌, List, [], ◌∷◌, ◌++◌, ◌≡◌, refl, sym, ap, arith, map, flat_map, any,
  Dict, lookup, map-append,
}
use skill_code_review.Value.{
  Value, str, get, elements, entries, of_elements, of_entries, object, ensure_list, strings,
}
use skill_code_review.Result.{ok, iterate}
use skill_code_review.Planner.{WorkUnit, Batch}
use skill_code_review.Merger.{Key, eq_key, dicts, key_of, batch_units, Outputs}
use skill_code_review.Merger.Reported.{names_key, is_reported}
use skill_code_review.Merger.Drained.{planned_in}
use skill_code_review.Pipeline.{
  unit_fields, batch_fields, unit_key, unit_output, iteration, loop_iters,
}

pub elements-of_elements : (vs : List Value) → elements (of_elements vs) ≡ vs
elements-of_elements [] = refl
elements-of_elements (v ∷ vs) = ap (λ r. v ∷ r) (elements-of_elements vs)

pub entries-of_entries : (d : Dict Value) → entries (of_entries d) ≡ d
entries-of_entries [] = refl
entries-of_entries ((k, v) ∷ d) = ap (λ r. (k, v) ∷ r) (entries-of_entries d)

module _ {ℓ} {A : Type ℓ} (f : A → Dict Value) where
  pub dicts-map : (xs : List A) → dicts (map (λ x. object (f x)) xs) ≡ map f xs
  unfolding dicts
  dicts-map [] = refl
  dicts-map (x ∷ xs) = rw (entries-of_entries (f x), dicts-map xs) refl

pub strings-map : (xs : List String) → strings (map str xs) ≡ xs
unfolding strings
strings-map [] = refl
strings-map (x ∷ xs) = ap (λ r. x ∷ r) (strings-map xs)

-- The units that the merger reads are those of the batches.
pub batch_units-map :
    (batches : List Batch)
    → batch_units (map batch_fields batches)
      ≡ ok (map unit_fields (flat_map (λ b. b.units) batches))
unfolding batch_units batch_fields get lookup iterate
batch_units-map [] = refl
batch_units-map (b ∷ batches) =
    rw
      (
        batch_units-map batches,
        elements-of_elements (map (λ u. object (unit_fields u)) b.units),
        dicts-map unit_fields b.units,
      )
      (ap ok (sym (map-append unit_fields b.units (flat_map (λ c. c.units) batches))))

module _ {ℓ κ} {A : Type ℓ} {B : Type κ} (f : A → B) (p : B → Bool) where
  any-map : (xs : List A) → any p (map f xs) ≡ any (λ x. p (f x)) xs
  any-map [] = refl
  any-map (x ∷ xs) = ap (λ b. p (f x) || b) (any-map xs)

any-append :
    (p : WorkUnit → Bool) (xs ys : List WorkUnit) → any p (xs ++ ys) ≡ (any p xs || any p ys)
any-append p [] ys = refl
any-append p (x ∷ xs) ys = ground (arith, any-append p xs ys)

-- One of the units has the key.
abbrev pub has_unit : Key → List WorkUnit → Bool
has_unit k units = any (λ u. eq_key (unit_key u) k) units

pub planned_in-map :
    (k : Key) (units : List WorkUnit) → planned_in k (map unit_fields units) ≡ has_unit k units
unfolding key_of unit_fields get lookup
planned_in-map k units = any-map unit_fields (names_key k) units

is_reported-iteration :
    (k : Key) (results : Outputs) (total n : ℕ) (units : List WorkUnit)
    → any (names_key k) (dicts (ensure_list (get (iteration results total n units) "iter_outputs")))
      ≡ has_unit k units
unfolding iteration unit_output get lookup ensure_list key_of
is_reported-iteration k results total n units =
    rw
      (
        elements-of_elements (map (λ u. object (unit_output results u)) units),
        dicts-map (unit_output results) units,
      )
      (any-map (unit_output results) (names_key k) units)

-- The iterations of the loop report the units of the batches.
pub is_reported-loop_iters :
    (k : Key) (results : Outputs) (total n : ℕ) (batches : List Batch)
    → is_reported k (loop_iters results total n batches)
      ≡ has_unit k (flat_map (λ b. b.units) batches)
unfolding loop_iters
is_reported-loop_iters k results total n [] = refl
is_reported-loop_iters k results total n (b ∷ batches) =
    rw
      (
        is_reported-iteration k results total n b.units,
        is_reported-loop_iters k results total (suc n) batches,
        any-append (λ u. eq_key (unit_key u) k) b.units (flat_map (λ c. c.units) batches),
      )
      refl
