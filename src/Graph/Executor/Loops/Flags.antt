-- ===== src/Graph/Executor/Loops/Flags.antt =====
-- src/core/graph/AudioExecutor.cpp: the nodes that `detect_and_flag_loops` flags.
use hermes_flow_server.Common.{
  ℕ, zero, suc, ◌+◌, ◌<◌, ◌≤◌, ◌≡◌, refl, sym, ap, ◌∙◌, subst, true, false, Option, none, some,
  List, arith, get_elem?, length, ◌==◌, if◌then◌else◌, Bool-cases, Option-cases, inl, inr, ◌⊎◌,
}
use mathlib.Core.Option.{none-ne-some, some-injective}
use hermes_flow_server.Graph.{Node}
use hermes_flow_server.Graph.Executor.Loops.{
  next, target_of, set_in_loop, flag_cycle, while_not, flag_from, detect_and_flag_loops,
}
use hermes_flow_server.Graph.Executor.Loops.Walk.{
  next_of, steps, IsClosed, Below, Found, find_cycle-Found,
}
use hermes_flow_server.Graph.Executor.Loops.Setting.{set_in_loop-Sets, flagged}

-- From node `i`, all nodes up to the last before `c` are flagged in `nodes'`.
pub record FlagsUpTo (base : List Node) (c i : ℕ) (nodes' : List Node) : Type 0 where
  pub last : ℕ
  pub arrives : steps base (suc last) (some i) ≡ some c
  pub flags : (q j : ℕ) → q ≤ last → steps base q (some i) ≡ some j → flagged nodes' j ≡ true

steps_front :
    (nodes : List Node) (k i : ℕ) → steps nodes (suc k) (some i) ≡ steps nodes k (next nodes i)
unfolding steps
steps_front nodes zero i = refl
steps_front nodes (suc k) i = ap (next_of nodes) (steps_front nodes k i)

steps-none : (nodes : List Node) (k : ℕ) → steps nodes k none ≡ none
unfolding steps
steps-none nodes zero = refl
steps-none nodes (suc k) = ap (next_of nodes) (steps-none nodes k)

-- A node with a next one is there.
has_node :
    (nodes : List Node) (i j : ℕ)
    → next nodes i ≡ some j
    → (n : Node) × (get_elem? nodes i ≡ some n)
has_node nodes i j e = elim (Option-cases (get_elem? nodes i)) [
  | inl h ↦ absurd (none-ne-some j (sym (ap target_of h) ∙ e))
  | inr h ↦ h
]

abbrev Flags : List Node → ℕ → ℕ → List Node → Option (List Node) → Type 0
Flags base c i nodes r =
    (nodes' : List Node) × (r ≡ some nodes')
    × ((j : ℕ) → flagged nodes j ≡ true → flagged nodes' j ≡ true)
    × FlagsUpTo base c i nodes'

-- From a node that is not `c`, it takes a step to get to `c`.
before :
    (k j c : ℕ) (base : List Node)
    → (j == c) ≡ false
    → steps base k (some j) ≡ some c
    → (k' : ℕ) × (k ≡ suc k')
unfolding steps
before zero j c base q e =
    let same : j ≡ c = some-injective j c e in absurd (ground (arith, q, same))
before (suc k) j c base q e = (k, refl)

flag_step :
    (fuel c i j : ℕ) (nodes : List Node)
    → next (set_in_loop i true nodes) i ≡ some j
    → flag_cycle (suc fuel) c (some i) nodes ≡ (
        if j == c
        then some (set_in_loop i true nodes)
        else flag_cycle fuel c (some j) (set_in_loop i true nodes))
unfolding flag_cycle
flag_step fuel c i j nodes e =
    let nodes' = set_in_loop i true nodes in
    ap (λ o. while_not c nodes' (flag_cycle fuel c o nodes') o) e

-- The last node of the cycle.
last-Flags :
    (c i j : ℕ) (n : Node) (base nodes : List Node)
    → next base i ≡ some j
    → j ≡ c
    → get_elem? nodes i ≡ some n
    → Flags base c i nodes (some (set_in_loop i true nodes))
unfolding steps
last-Flags c i j n base nodes e q at =
    let s = set_in_loop-Sets i nodes in
    (
      set_in_loop i true nodes,
      refl,
      s.kept,
      record {
        last = 0;
        arrives = e ∙ ap some q;
        flags = λ q x l h.
            subst (λ y. flagged (set_in_loop i true nodes) y ≡ true)
              (some-injective i x (ap (λ y. steps base y (some i)) (zero_of q l) ∙ h)) (s.set n at);
      },
    )
  where
    zero_of : (q : ℕ) → q ≤ 0 → 0 ≡ q
    zero_of q l = omega arith

-- A node of the cycle before the last.
more-Flags :
    (c i j : ℕ) (n : Node) (base nodes : List Node) (r : Option (List Node))
    → next base i ≡ some j
    → get_elem? nodes i ≡ some n
    → Flags base c j (set_in_loop i true nodes) r
    → Flags base c i nodes r
unfolding steps
more-Flags c i j n base nodes r e at (nodes', same, kept, up) =
    let s = set_in_loop-Sets i nodes in
    (
      nodes',
      same,
      λ x h. kept x (s.kept x h),
      record {
        last = suc up.last;
        arrives = steps_front base (suc up.last) i ∙ ap (steps base (suc up.last)) e ∙ up.arrives;
        flags = flags;
      },
    )
  where
    flags : (q x : ℕ) → q ≤ suc up.last → steps base q (some i) ≡ some x → flagged nodes' x ≡ true
    flags zero x l h =
        let first = set_in_loop-Sets i nodes in
        subst (λ y. flagged nodes' y ≡ true) (some-injective i x h) (kept i (first.set n at))
    flags (suc q) x l h =
        up.flags q x (omega arith) (ap (steps base q) (sym e) ∙ sym (steps_front base q i) ∙ h)

flag_cycle-Flags :
    (fuel k c i : ℕ) (base nodes : List Node)
    → ((j : ℕ) → next nodes j ≡ next base j)
    → steps base (suc k) (some i) ≡ some c
    → k < fuel
    → Flags base c i nodes (flag_cycle fuel c (some i) nodes)
flag_cycle-Flags zero k c i base nodes same leads f = absurd (omega arith)
flag_cycle-Flags (suc fuel) k c i base nodes same leads f = elim (Option-cases (next base i)) [
  | inl e ↦ absurd (
      none-ne-some c
        (sym (steps-none base k) ∙ ap (steps base k) (sym e) ∙ sym (steps_front base k i) ∙ leads))
  | inr (j, e) ↦
      let s = set_in_loop-Sets i nodes in
      let (n, at) = has_node nodes i j (same i ∙ e) in
      let moves = flag_step fuel c i j nodes (s.same i ∙ same i ∙ e) in
      let leads' : steps base k (some j) ≡ some c =
        ap (steps base k) (sym e) ∙ sym (steps_front base k i) ∙ leads in
      subst (Flags base c i nodes) (sym moves) (elim (Bool-cases (j == c)) [
        | inl q ↦ rw (q) (last-Flags c i j n base nodes e (ground arith) at)
        | inr q ↦
            let k' = before k j c base q leads' in
            rw (q) (
              more-Flags c i j n base nodes _ e at (
                flag_cycle-Flags fuel k'.0 c j base (set_in_loop i true nodes)
                  (λ x. s.same x ∙ same x) (subst (λ m. steps base m (some j) ≡ some c) k'.1 leads')
                  (omega (arith, k'.1))))
      ])
]

-- What `detect_and_flag_loops` leaves: the walk from the start ends, and no node changed; or it
-- comes to a cycle, and every node of it is flagged.
abbrev pub Detects : List Node → Option ℕ → List Node → Type 0
Detects nodes start nodes' =
    ((m : ℕ) × (steps nodes m start ≡ none) × (nodes' ≡ nodes))
    ⊎ ((m : ℕ) × (c : ℕ) × (steps nodes m start ≡ some c) × FlagsUpTo nodes c c nodes')

-- Where every next node is one of the list, `detect_and_flag_loops` ends, within two turns more than
-- there are nodes for either loop: either the walk from the start ends and the nodes are as they
-- were, or it comes to a cycle and every node on this cycle is flagged.
pub detect_and_flag_loops-Detects :
    (fuel : ℕ) (nodes : List Node) (start : Option ℕ)
    → IsClosed nodes
    → Below (length nodes) start
    → length nodes + 2 ≤ fuel
    → (nodes' : List Node) × (detect_and_flag_loops fuel start nodes ≡ some nodes')
      × Detects nodes start nodes'
unfolding detect_and_flag_loops
detect_and_flag_loops-Detects fuel nodes start closed below f =
    let (r, found, what) = find_cycle-Found fuel nodes start closed below f in
    let flagged = from r what in
    (flagged.0, ap (λ o. flag_from fuel o nodes) found ∙ flagged.1, flagged.2)
  where
    from :
        (r : Option ℕ)
        → Found nodes start r
        → (nodes' : List Node) × (flag_from fuel (some r) nodes ≡ some nodes')
          × Detects nodes start nodes'
    from none (m, ends) = (nodes, refl, inl (m, ends, refl))
    from (some c) (m, k, short, comes, back) =
        let (nodes', e, kept, up) =
          flag_cycle-Flags fuel k c c nodes nodes (λ j. refl) back (omega arith) in
        (nodes', e, inr (m, c, comes, up))
