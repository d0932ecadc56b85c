-- ===== src/Planner/Packing.antt =====
-- code_review/handlers.py `handle_plan_specialist_batches`: the loop that packs the units into
-- batches. No unit is lost, moved or repeated, and no batch is empty or too large.
use skill_code_review.Base.{
  ℕ, zero, suc, ◌+◌, ◌-◌, ◌≤◌, ◌<◌, min, true, List, [], ◌∷◌, ◌≡◌, refl, sym, ap, ◌∙◌, ltb, length,
  drop, slice, flat_map, arith, take-append-drop, drop-drop, drop_all, length-drop, length-take,
  Bool-cases, inl, inr, All,
}
use skill_code_review.Planner.{WorkUnit, Batch, pack}

-- A batch that holds between one unit and `batch_size` units.
abbrev pub IsFull : ℕ → Batch → Type 0
IsFull batch_size b = (0 < length b.units) × (length b.units ≤ batch_size)

module _ (batch_size : ℕ) (units : List WorkUnit) (positive : 0 < batch_size) where
  pub pack-units :
      (fuel i index : ℕ)
      → length units ≤ i + fuel
      → flat_map (λ b. b.units) (pack batch_size units fuel i index) ≡ drop i units
  unfolding pack
  pack-units zero i index h = sym (drop_all i units (omega arith))
  pack-units (suc fuel) i index h = elim (Bool-cases (ltb i (length units))) [
    | inl more ↦
        rw (more, pack-units fuel (i + batch_size) (suc index) (omega arith))
          (rw (i_plus, ← drop-drop i batch_size (i + batch_size) units refl)
            (take-append-drop batch_size (drop i units)))
    | inr over ↦ rw over (sym (drop_all i units (ground arith)))
  ]
    where
      i_plus : i + batch_size - i ≡ batch_size
      i_plus = omega arith

  pub pack-IsFull :
      (fuel i index : ℕ) → All (IsFull batch_size) (pack batch_size units fuel i index)
  unfolding pack
  pack-IsFull zero i index = tt
  pack-IsFull (suc fuel) i index = elim (Bool-cases (ltb i (length units))) [
    | inl more ↦ rw more (
      (omega (arith, size, inside i more), omega (arith, size)),
      pack-IsFull fuel (i + batch_size) (suc index),
    )
    | inr over ↦ rw over tt
  ]
    where
      size : length (slice i (i + batch_size) units) ≡ min (i + batch_size - i) (length units - i)
      size = length-take _ (drop i units) ∙ ap (min _) (length-drop i units)

      inside : (i : ℕ) → ltb i (length units) ≡ true → i < length units
      inside i h = ground arith

-- The batches are numbered from `index` on.
abbrev pub Numbered : ℕ → List Batch → Type 0
Numbered index [] = Unit
Numbered index (b ∷ bs) = (b.batch_index ≡ index) × Numbered (suc index) bs

pub pack-Numbered :
    (batch_size : ℕ) (units : List WorkUnit) (fuel i index : ℕ)
    → Numbered index (pack batch_size units fuel i index)
unfolding pack
pack-Numbered batch_size units zero i index = tt
pack-Numbered batch_size units (suc fuel) i index = elim (Bool-cases (ltb i (length units))) [
  | inl more ↦ rw more (refl, pack-Numbered batch_size units fuel (i + batch_size) (suc index))
  | inr over ↦ rw over tt
]
