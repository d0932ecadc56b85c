-- ===== src/Activation/Closure.antt =====
-- code_review/handlers.py `_evaluate_activation`: the rounds of the second pass are enough, and the
-- activated leaves are the least set that the signals and the escalations give.
use skill_code_review.Base.{
  ℕ, zero, suc, ◌≤◌, ◌<◌, String, Bool, true, false, List, [], ◌∷◌, ◌≡◌, ◌≢◌, refl, ◌↔◌, inl, inr,
  arith, length, All, lookup, Dict, ◌∙◌, sym, none, some, Option, str_eq, str_eq_iff, or-true, ap,
}
use skill_code_review.Value.{Value, get, nonempty_str}
use skill_code_review.Result.{Result, ok, >>=-eq-ok, ok-injective}
use skill_code_review.Characters.{Characters}
use skill_code_review.Activation.{
  Node, Activated, is_active, is_triggered, when_signalled, escalation_round, escalate, nodes_of,
  node_at, first_pass, evaluate_activation, fired_signals, nothing_activated, activation_of,
}
use skill_code_review.Activation.Escalation.{
  In, Activates, fires, escalates, Sound, Grows, Closed, Tracks, inactive, parents, any-contains,
  activate-Grows, is_active-activate, is_active-activate_self, escalation_round-Grows,
  escalation_round-Sound, escalation_round-Tracks, escalation_round-Closed,
}

All-In {κ} : (P : Node → Type κ) (ms : List Node) → All P ms → (n : Node) → In n ms → P n
All-In P [] hs n i = absurd i
All-In P (m ∷ ms) hs n (inl e) = rw e hs.0
All-In P (m ∷ ms) hs n (inr i) = All-In P ms hs.1 n i

All-of_In {κ} : (P : Node → Type κ) (ms : List Node) → ((n : Node) → In n ms → P n) → All P ms
All-of_In P [] h = tt
All-of_In P (m ∷ ms) h = (h m (inl refl), All-of_In P ms (λ n i. h n (inr i)))

module _ (fired : Node → List String) (nodes : List Node)
    (all_in : All (λ n. In n nodes) nodes) where
  -- What holds behind the second pass that began at `s`.
  abbrev Finished : Activated → Activated → Type 0
  Finished s t = Closed nodes t × Grows s t × Sound fired nodes t

  -- The rest of the loop behind a round from `s` that gave `r`.
  after_round :
      (rounds : ℕ) (s : Activated) (r : Activated × Bool)
      → ((t : Activated)
          → inactive t nodes < rounds
          → Sound fired nodes t
          → Finished t (escalate rounds nodes t))
      → inactive s nodes < suc rounds
      → Grows s r.0
      → Sound fired nodes r.0
      → Tracks nodes s r
      → (r.1 ≡ false → Closed nodes s)
      → Finished s (elim r.1 [ true ↦ escalate rounds nodes r.0 | false ↦ r.0 ])
  after_round rounds s (t, true) rest m g sound fell closed =
      let (done, grown, sound') = rest t (omega arith) sound in
      (done, λ k h. grown k (g k h), sound')
  after_round rounds s (t, false) rest m g sound same closed = (rw same (closed refl), g, sound)

  -- One round more than there are inactive leaves is enough.
  escalate-Finished :
      (rounds : ℕ) (s : Activated)
      → inactive s nodes < rounds
      → Sound fired nodes s
      → Finished s (escalate rounds nodes s)
  unfolding escalate
  escalate-Finished zero s m sound = absurd (omega arith)
  escalate-Finished (suc rounds) s m sound =
      after_round rounds s (escalation_round nodes (s, false)) (escalate-Finished rounds) m
        (escalation_round-Grows nodes s false)
        (escalation_round-Sound fired nodes nodes s false all_in sound)
        (escalation_round-Tracks nodes s nodes s false all_in refl)
        (escalation_round-Closed nodes s)

  -- A closed state holds every leaf that has a derivation, if it holds those with a signal.
  Activates-is_active :
      (t : Activated)
      → Closed nodes t
      → ((n : Node) → In n nodes → fired n ≢ [] → is_active t n.leaf_id ≡ true)
      → (k : String) → Activates fired nodes k
      → is_active t k ≡ true
  unfolding is_triggered
  Activates-is_active t closed signalled k (fires n i e f) = rw (sym e) (signalled n i f)
  Activates-is_active t closed signalled k (escalates {p = p} n i e named a) =
      let parent = Activates-is_active t closed signalled p a in
      rw (sym e) (All-In _ nodes closed n i (any-contains t p (parents n) named parent))

module _ (ch : Characters) (changed_paths : List Value) (project_profile : Dict Value)
    (diff_text : String) where
  abbrev pub fired : Node → List String
  fired = fired_signals ch changed_paths project_profile diff_text

  when_signalled-Sound :
      (nodes : List Node) (n : Node) (signals : List String) (s : Activated)
      → fired n ≡ signals
      → In n nodes
      → Sound fired nodes s
      → Sound fired nodes (when_signalled n signals s)
  when_signalled-Sound nodes n [] s e i sound k h = sound k h
  when_signalled-Sound nodes n (f ∷ signals) s e i sound k h =
      elim (or-true (str_eq n.leaf_id k) _ (sym (is_active-activate n (f ∷ signals) s k) ∙ h)) [
        | inl same ↦ fires n i ((str_eq_iff n.leaf_id k).0 same) (λ none_fired. cc)
        | inr old ↦ sound k old
      ]

  when_signalled-Grows :
      (n : Node) (signals : List String) (s : Activated) → Grows s (when_signalled n signals s)
  when_signalled-Grows n [] s k h = h
  when_signalled-Grows n (f ∷ signals) s k h = activate-Grows n (f ∷ signals) s k h

  when_signalled-is_active :
      (n : Node) (signals : List String) (s : Activated)
      → signals ≢ []
      → is_active (when_signalled n signals s) n.leaf_id ≡ true
  when_signalled-is_active n [] s h = absurd (h refl)
  when_signalled-is_active n (f ∷ signals) s h = is_active-activate_self n (f ∷ signals) s

  pass : List Node → Activated → Activated
  pass = first_pass ch changed_paths project_profile diff_text

  first_pass-Sound :
      (nodes ms : List Node) (s : Activated)
      → All (λ n. In n nodes) ms
      → Sound fired nodes s
      → Sound fired nodes (pass ms s)
  unfolding pass first_pass
  first_pass-Sound nodes [] s i sound = sound
  first_pass-Sound nodes (n ∷ ms) s i sound =
      first_pass-Sound nodes ms (when_signalled n (fired n) s) i.1
        (when_signalled-Sound nodes n (fired n) s refl i.0 sound)

  first_pass-Grows : (ms : List Node) (s : Activated) → Grows s (pass ms s)
  unfolding pass first_pass
  first_pass-Grows [] s k h = h
  first_pass-Grows (n ∷ ms) s k h =
      first_pass-Grows ms (when_signalled n (fired n) s) k (when_signalled-Grows n (fired n) s k h)

  first_pass-is_active :
      (ms : List Node) (s : Activated) (n : Node)
      → In n ms
      → fired n ≢ []
      → is_active (pass ms s) n.leaf_id ≡ true
  unfolding pass first_pass
  first_pass-is_active [] s n i h = absurd i
  first_pass-is_active (m ∷ ms) s n (inl e) h =
      first_pass-Grows ms (when_signalled m (fired m) s) n.leaf_id
        (rw e (when_signalled-is_active m (fired m) s (λ none_fired. h (ap fired e ∙ none_fired))))
  first_pass-is_active (m ∷ ms) s n (inr i) h =
      first_pass-is_active ms (when_signalled m (fired m) s) n i h

  inactive-le-length : (s : Activated) (ms : List Node) → inactive s ms ≤ length ms
  inactive-le-length s [] = omega arith
  inactive-le-length s (n ∷ ms) = ground (arith, inactive-le-length s ms)

  -- Both passes over nodes of which there are no more than leaves.
  passes-Finished :
      (bound : ℕ) (nodes : List Node)
      → length nodes ≤ bound
      → let s = escalate (suc bound) nodes (pass nodes nothing_activated) in
        (k : String) → (is_active s k ≡ true) ↔ Activates fired nodes k
  passes-Finished bound nodes small k =
      let all_in = All-of_In (λ n. In n nodes) nodes (λ n i. i) in
      let s = pass nodes nothing_activated in
      let none_active : Sound fired nodes nothing_activated = λ j h. unfold lookup in cc in
      let (closed, grown, sound) =
        escalate-Finished fired nodes all_in (suc bound) s
          (omega (arith, inactive-le-length s nodes))
          (first_pass-Sound nodes nodes nothing_activated all_in none_active) in
      (
        sound k,
        Activates-is_active fired nodes all_in (escalate (suc bound) nodes s) closed
            (λ n i f. grown n.leaf_id (first_pass-is_active nodes nothing_activated n i f)) k,
      )

length-node_at :
    (leaf_id : Option String) (leaf : Dict Value) (rest : Result (List Node)) (bound : ℕ)
    → ((nodes : List Node) → rest ≡ ok nodes → length nodes ≤ bound)
    → (nodes : List Node) → node_at leaf_id leaf rest ≡ ok nodes
    → length nodes ≤ suc bound
unfolding node_at
length-node_at none leaf rest bound h nodes e = omega (arith, h nodes e)
length-node_at (some leaf_id) leaf rest bound h nodes e =
    let (a, _, e') = >>=-eq-ok (activation_of (get leaf "activation")) _ e in
    let (ns, read, e'') = >>=-eq-ok rest _ e' in
    rw (sym (ok-injective e'')) (omega (arith, h ns read))

length-nodes_of :
    (leaves : List (Dict Value)) (nodes : List Node)
    → nodes_of leaves ≡ ok nodes
    → length nodes ≤ length leaves
unfolding nodes_of
length-nodes_of [] nodes h = rw (sym (ok-injective h)) (omega arith)
length-nodes_of (leaf ∷ leaves) nodes h =
    length-node_at (nonempty_str (get leaf "id")) leaf (nodes_of leaves) (length leaves)
      (length-nodes_of leaves) nodes h

-- `_evaluate_activation` returns whenever the activation blocks can be read, and then a leaf is
-- among the activated ones exactly when one of its own signals fires or an activated leaf stands
-- in its `escalation_from`.
pub evaluate-Activates :
    (ch : Characters) (leaves : List (Dict Value)) (changed_paths : List Value)
    (project_profile : Dict Value) (diff_text : String) {nodes : List Node}
    → nodes_of leaves ≡ ok nodes
    → (s : Activated) × (evaluate_activation ch leaves changed_paths project_profile diff_text
        ≡ ok s)
      × ((k : String)
          → (is_active s k ≡ true)
            ↔ Activates (fired_signals ch changed_paths project_profile diff_text) nodes k)
unfolding evaluate_activation
evaluate-Activates ch leaves changed_paths project_profile diff_text {nodes} read = (
  escalate (suc (length leaves)) nodes
      (first_pass ch changed_paths project_profile diff_text nodes nothing_activated),
  rw read refl,
  unfold pass in
      passes-Finished ch changed_paths project_profile diff_text (length leaves) nodes
        (length-nodes_of leaves nodes read),
)
