-- ===== src/Planner/Coverage.antt =====
-- code_review/handlers.py `handle_plan_specialist_batches`: the plan as a whole. Every file that a
-- picked leaf has to review stands in a unit of a batch.
use skill_code_review.Base.{
  ℕ, ◌<◌, String, none, some, List, [], ◌∷◌, ◌≡◌, refl, length, flat_map, arith, flat_map-append,
  Option-cases, inl, inr, All, Dict,
}
use skill_code_review.Value.{Value, get, ensure_list, ensure_dict, strings, str}
use skill_code_review.Planner.{
  WorkUnit, Plan, plan_specialist_batches, plan_units, leaf_units, leaf_id_of, leaf_file_set,
  positive_or, tier_batch_size, default_max_leaf_tokens,
}
use skill_code_review.Planner.Slices.{file_units-files}
use skill_code_review.Planner.Packing.{pack-units, pack-IsFull, pack-Numbered, IsFull, Numbered}

-- What the planner reads from the run's environment.
abbrev pub picked_leaves : Dict Value → List Value
picked_leaves env = ensure_list (get env "picked_leaves")

abbrev pub changed_paths : Dict Value → List String
changed_paths env = strings (ensure_list (get env "changed_paths"))

abbrev pub batch_size : Dict Value → ℕ
batch_size env =
    positive_or (tier_batch_size (get env "tier")) (get (ensure_dict (get env "args")) "batch_size")

abbrev pub max_leaf_tokens : Dict Value → ℕ
max_leaf_tokens env =
    positive_or default_max_leaf_tokens (get (ensure_dict (get env "args")) "max_leaf_tokens")

-- The files that a picked leaf has to review; none if it has no id.
abbrev pub scope : List String → Value → List String
scope paths leaf = elim (leaf_id_of leaf) [
  | none ↦ []
  | some leaf_id ↦ leaf_file_set (ensure_dict leaf) paths
]

abbrev pub unit_files : List WorkUnit → List String
unit_files units = flat_map (λ u. u.files) units

abbrev pub planned_files : Plan → List String
planned_files p = unit_files (flat_map (λ b. b.units) p.specialist_batches)

positive_or-pos : (d : ℕ) (v : Value) → 0 < d → 0 < positive_or d v
unfolding positive_or
positive_or-pos d v h = ground arith

tier_batch_size-pos : (v : Value) → 0 < tier_batch_size v
unfolding tier_batch_size
tier_batch_size-pos (str t) = ground arith
tier_batch_size-pos _ = omega arith

pub batch_size-pos : (env : Dict Value) → 0 < batch_size env
batch_size-pos env = positive_or-pos _ _ (tier_batch_size-pos (get env "tier"))

pub max_leaf_tokens-pos : (env : Dict Value) → 0 < max_leaf_tokens env
max_leaf_tokens-pos env = positive_or-pos _ _ (omega arith)

leaf_units-files :
    (n : ℕ) (paths : List String) (leaf : Value)
    → 0 < n
    → unit_files (leaf_units n paths leaf) ≡ scope paths leaf
unfolding leaf_units
leaf_units-files n paths leaf h = elim (Option-cases (leaf_id_of leaf)) [
  | inl absent ↦ rw (absent, leaf_units, scope)
  | inr (leaf_id, present) ↦ rw (present, leaf_units, scope) (file_units-files n leaf_id _ h)
]

plan_units-files :
    (n : ℕ) (paths : List String) (leaves : List Value)
    → 0 < n
    → unit_files (plan_units n paths leaves) ≡ flat_map (scope paths) leaves
unfolding plan_units
plan_units-files n paths [] h = refl
plan_units-files n paths (leaf ∷ leaves) h =
    rw (flat_map-append, leaf_units-files n paths leaf h, plan_units-files n paths leaves h)

module _ (env : Dict Value) where
  abbrev pub all_units : List WorkUnit
  all_units = plan_units (max_leaf_tokens env) (changed_paths env) (picked_leaves env)

  pub plan-units :
      flat_map (λ b. b.units) (plan_specialist_batches env).specialist_batches ≡ all_units
  unfolding plan_specialist_batches
  plan-units = pack-units (batch_size env) all_units (batch_size-pos env) _ 0 1 (omega arith)

  -- The batches hold the files of every picked leaf with an id, leaf by leaf and in their order,
  -- each as often as the leaf has it: none is dropped or added.
  pub plan-files :
      planned_files (plan_specialist_batches env)
      ≡ flat_map (scope (changed_paths env)) (picked_leaves env)
  plan-files = rw plan-units (plan_units-files _ _ _ (max_leaf_tokens-pos env))

  -- Every batch holds at least one unit and at most the batch size, the batches are numbered from
  -- 1 on, and their number is `total_batches`.
  pub plan-batches :
      let p = plan_specialist_batches env in
      All (IsFull (batch_size env)) p.specialist_batches
      × Numbered 1 p.specialist_batches
      × (p.total_batches ≡ length p.specialist_batches)
  unfolding plan_specialist_batches
  plan-batches = (
    pack-IsFull (batch_size env) all_units (batch_size-pos env) _ 0 1,
    pack-Numbered (batch_size env) all_units _ 0 1,
    refl,
  )
