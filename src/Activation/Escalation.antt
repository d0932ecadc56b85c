-- ===== src/Activation/Escalation.antt =====
-- code_review/handlers.py `_evaluate_activation`: the two passes against a description of which
-- leaves are activated.
use skill_code_review.Base.{
  ℕ, ◌≤◌, ◌<◌, String, Bool, true, false, ◌||◌, not, List, [], ◌∷◌, ◌≡◌, ◌≢◌, refl, sym, ap, ◌∙◌,
  ◌⊎◌, inl, inr, arith, Bool-cases, or-true, any, All, contains, str_eq, str_eq_iff, str_eq_refl,
  lookup-insert, tally,
}
use skill_code_review.Value.{get, ensure_list, strings}
use skill_code_review.Activation.{
  Node, Activated, is_active, activate, is_triggered, escalate_node, escalation_round,
}

abbrev pub In : Node → List Node → Type 0
In n [] = ⊥
In n (m ∷ ms) = (n ≡ m) ⊎ In n ms

-- The ids that a leaf names in `escalation_from`.
abbrev pub parents : Node → List String
parents n = strings (ensure_list (get n.activation "escalation_from"))

module _ (fired : Node → List String) (nodes : List Node) where
  -- A leaf is activated by a signal of its own, or by an activated leaf that it names.
  pub data Activates : String → Type 0 where
    fires : {k : String} (n : Node) → In n nodes → n.leaf_id ≡ k → fired n ≢ [] → Activates k
    escalates :
        {k p : String} (n : Node)
        → In n nodes
        → n.leaf_id ≡ k
        → contains p (parents n) ≡ true
        → Activates p
        → Activates k

  abbrev pub Sound : Activated → Type 0
  Sound s = (k : String) → is_active s k ≡ true → Activates k

pub is_active-activate :
    (n : Node) (signals : List String) (s : Activated) (k : String)
    → is_active (activate n signals s) k ≡ (str_eq n.leaf_id k || is_active s k)
is_active-activate n signals s k = elim (Bool-cases (str_eq n.leaf_id k)) [
  | inl same ↦ rw (lookup-insert n.leaf_id k n.leaf s.leaves, same) refl
  | inr differ ↦ rw (lookup-insert n.leaf_id k n.leaf s.leaves, differ) refl
]

pub is_active-activate_self :
    (n : Node) (signals : List String) (s : Activated)
    → is_active (activate n signals s) n.leaf_id ≡ true
is_active-activate_self n signals s =
    rw (is_active-activate n signals s n.leaf_id, str_eq_refl n.leaf_id) refl

-- Every leaf that is active in the first is active in the second.
abbrev pub Grows : Activated → Activated → Type 0
Grows s t = (k : String) → is_active s k ≡ true → is_active t k ≡ true

pub activate-Grows :
    (n : Node) (signals : List String) (s : Activated) → Grows s (activate n signals s)
activate-Grows n signals s k h = rw (is_active-activate n signals s k, h) (ground arith)

any-is_active :
    (s : Activated) (ps : List String)
    → any (is_active s) ps ≡ true
    → (p : String) × (contains p ps ≡ true) × (is_active s p ≡ true)
unfolding contains
any-is_active s [] h = cc
any-is_active s (p ∷ ps) h = elim (or-true (is_active s p) _ h) [
  | inl here ↦ (p, rw (str_eq_refl p) refl, here)
  | inr later ↦
      let (q, named, active) = any-is_active s ps later in (q, rw named (ground arith), active)
]

pub any-contains :
    (s : Activated) (p : String) (ps : List String)
    → contains p ps ≡ true
    → is_active s p ≡ true
    → any (is_active s) ps ≡ true
unfolding contains
any-contains s p [] h a = cc
any-contains s p (q ∷ ps) h a = elim (or-true (str_eq q p) _ h) [
  | inl same ↦ let e : q ≡ p = (str_eq_iff q p).0 same in rw (e, a) refl
  | inr later ↦ rw (any-contains s p ps later a) (ground arith)
]

-- What one leaf of the second pass does.
escalate_node-cases {ℓ} :
    (P : Activated × Bool → Type ℓ) (n : Node) (s : Activated) (changed : Bool)
    → (is_active s n.leaf_id ≡ true → P (s, changed))
    → (is_active s n.leaf_id ≡ false
        → is_triggered n s ≡ true
        → P (activate n ("escalation_from" ∷ []) s, true))
    → (is_active s n.leaf_id ≡ false → is_triggered n s ≡ false → P (s, changed))
    → P (escalate_node n (s, changed))
unfolding escalate_node
escalate_node-cases P n s changed old new idle = elim (Bool-cases (is_active s n.leaf_id)) [
  | inl active ↦ rw active (old active)
  | inr inactive ↦ elim (Bool-cases (is_triggered n s)) [
    | inl triggered ↦ rw (inactive, triggered) (new inactive triggered)
    | inr untriggered ↦ rw (inactive, untriggered) (idle inactive untriggered)
  ]
]

escalate_node-Grows :
    (n : Node) (s : Activated) (changed : Bool) → Grows s (escalate_node n (s, changed)).0
escalate_node-Grows n s changed =
    escalate_node-cases (λ r. Grows s r.0) n s changed (λ _ k h. h)
      (λ _ _. activate-Grows n ("escalation_from" ∷ []) s) (λ _ _ k h. h)

pub escalation_round-Grows :
    (ms : List Node) (s : Activated) (changed : Bool) → Grows s (escalation_round ms (s, changed)).0
unfolding escalation_round
escalation_round-Grows [] s changed k h = h
escalation_round-Grows (n ∷ ms) s changed k h =
    let r = escalate_node n (s, changed) in
    escalation_round-Grows ms r.0 r.1 k (escalate_node-Grows n s changed k h)

module _ (fired : Node → List String) (nodes : List Node) where
  escalate_node-Sound :
      (n : Node) (s : Activated) (changed : Bool)
      → In n nodes
      → Sound fired nodes s
      → Sound fired nodes (escalate_node n (s, changed)).0
  unfolding is_triggered
  escalate_node-Sound n s changed i sound =
      escalate_node-cases (λ r. Sound fired nodes r.0) n s changed (λ _. sound)
        (λ _ triggered k h.
          elim (or-true (str_eq n.leaf_id k) _
            (sym (is_active-activate n ("escalation_from" ∷ []) s k) ∙ h)) [
              | inl same ↦
                  let (p, named, active) = any-is_active s (parents n) triggered in
                  escalates n i ((str_eq_iff n.leaf_id k).0 same) named (sound p active)
              | inr old ↦ sound k old
            ])
        (λ _ _. sound)

  pub escalation_round-Sound :
      (ms : List Node) (s : Activated) (changed : Bool)
      → All (λ n. In n nodes) ms
      → Sound fired nodes s
      → Sound fired nodes (escalation_round ms (s, changed)).0
  unfolding escalation_round
  escalation_round-Sound [] s changed i sound = sound
  escalation_round-Sound (n ∷ ms) s changed i sound =
      let r = escalate_node n (s, changed) in
      escalation_round-Sound ms r.0 r.1 i.1 (escalate_node-Sound n s changed i.0 sound)

-- How many leaves are not active.
abbrev pub inactive : Activated → List Node → ℕ
inactive s ms = tally (λ n. not (is_active s n.leaf_id)) ms

pub inactive-Grows : (s t : Activated) (ms : List Node) → Grows s t → inactive t ms ≤ inactive s ms
inactive-Grows s t [] g = omega arith
inactive-Grows s t (n ∷ ms) g = ground (arith, inactive-Grows s t ms g, g n.leaf_id)

inactive-lt :
    (s t : Activated) (n : Node) (ms : List Node)
    → Grows s t
    → In n ms
    → is_active s n.leaf_id ≡ false
    → is_active t n.leaf_id ≡ true
    → inactive t ms < inactive s ms
inactive-lt s t n [] g i a b = absurd i
inactive-lt s t n (m ∷ ms) g (inl e) a b =
    let a' : is_active s m.leaf_id ≡ false = ap (λ o. is_active s o.leaf_id) (sym e) ∙ a in
    let b' : is_active t m.leaf_id ≡ true = ap (λ o. is_active t o.leaf_id) (sym e) ∙ b in
    rw (a', b') (omega (arith, inactive-Grows s t ms g))
inactive-lt s t n (m ∷ ms) g (inr i) a b = ground (arith, inactive-lt s t n ms g i a b, g m.leaf_id)

-- The state within a round that began at `s`: with `changed` a leaf more is active, without it
-- nothing has changed.
abbrev pub Tracks : List Node → Activated → Activated × Bool → Type 0
Tracks nodes s (t, true) = inactive t nodes < inactive s nodes
Tracks nodes s (t, false) = t ≡ s

module _ (nodes : List Node) (s : Activated) where
  escalate_node-Tracks :
      (n : Node) (t : Activated) (changed : Bool)
      → In n nodes
      → Tracks nodes s (t, changed)
      → Tracks nodes s (escalate_node n (t, changed))
  escalate_node-Tracks n t true i h =
      escalate_node-cases (Tracks nodes s) n t true (λ _. h)
        (λ _ _.
          let new : List String = "escalation_from" ∷ [] in
          omega (arith, inactive-Grows t (activate n new t) nodes (activate-Grows n new t)))
        (λ _ _. h)
  escalate_node-Tracks n t false i h =
      escalate_node-cases (Tracks nodes s) n t false (λ _. h)
        (λ idle _.
          let new : List String = "escalation_from" ∷ [] in
          omega (
            arith,
            inactive-lt t (activate n new t) n nodes (activate-Grows n new t) i idle
                (is_active-activate_self n new t),
            ap (λ u. inactive u nodes) h,
          ))
        (λ _ _. h)

  pub escalation_round-Tracks :
      (ms : List Node) (t : Activated) (changed : Bool)
      → All (λ n. In n nodes) ms
      → Tracks nodes s (t, changed)
      → Tracks nodes s (escalation_round ms (t, changed))
  unfolding escalation_round
  escalation_round-Tracks [] t changed i h = h
  escalation_round-Tracks (n ∷ ms) t changed i h =
      let r = escalate_node n (t, changed) in
      escalation_round-Tracks ms r.0 r.1 i.1 (escalate_node-Tracks n t changed i.0 h)

-- No leaf can be activated any more.
abbrev pub Closed : List Node → Activated → Type 0
Closed ms s = All (λ n. is_triggered n s ≡ true → is_active s n.leaf_id ≡ true) ms

escalate_node-changed : (n : Node) (s : Activated) → (escalate_node n (s, true)).1 ≡ true
escalate_node-changed n s =
    escalate_node-cases (λ r. r.1 ≡ true) n s true (λ _. refl) (λ _ _. refl) (λ _ _. refl)

escalation_round-changed :
    (ms : List Node) (r : Activated × Bool) → r.1 ≡ true → (escalation_round ms r).1 ≡ true
unfolding escalation_round
escalation_round-changed [] r h = h
escalation_round-changed (n ∷ ms) (s, true) h =
    escalation_round-changed ms (escalate_node n (s, true)) (escalate_node-changed n s)
escalation_round-changed (n ∷ ms) (s, false) h = cc

pub escalation_round-Closed :
    (ms : List Node) (s : Activated) → (escalation_round ms (s, false)).1 ≡ false → Closed ms s
unfolding escalation_round
escalation_round-Closed [] s h = tt
escalation_round-Closed (n ∷ ms) s h =
    escalate_node-cases (λ r. (escalation_round ms r).1 ≡ false → Closed (n ∷ ms) s) n s false
      (λ active h'. (λ _. active, escalation_round-Closed ms s h'))
      (λ _ _ h'.
        cc (escalation_round-changed ms (activate n ("escalation_from" ∷ []) s, true) refl, h'))
      (λ _ untriggered h'. (λ triggered. cc, escalation_round-Closed ms s h')) h
