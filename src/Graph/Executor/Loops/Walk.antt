-- ===== src/Graph/Executor/Loops/Walk.antt =====
-- src/core/graph/AudioExecutor.cpp: the walk of `detect_and_flag_loops` along the next nodes.
use hermes_flow_server.Common.{
  ℕ, zero, suc, ◌+◌, ◌<◌, ◌≤◌, ◌≡◌, refl, ap, ◌∙◌, subst, true, false, Option, none, some, List, [],
  ◌∷◌, arith, length, All, ◌==◌, Bool-cases, inl, inr,
}
use hermes_flow_server.Sessions.{contains, remove_key}
use hermes_flow_server.Sessions.Maps.{IdsDistinct, remove_key-IdsDistinct}
use hermes_flow_server.Graph.{Node}
use hermes_flow_server.Graph.Executor.Loops.{next, find_cycle}

-- `k` steps along the next nodes.
abbrev pub next_of : List Node → Option ℕ → Option ℕ
next_of nodes none = none
next_of nodes (some i) = next nodes i

unfoldable pub steps : List Node → ℕ → Option ℕ → Option ℕ
steps nodes zero o = o
steps nodes (suc k) o = next_of nodes (steps nodes k o)

-- Every next node is one of the list.
abbrev pub IsClosed : List Node → Type 0
IsClosed nodes = (i j : ℕ) → next nodes i ≡ some j → j < length nodes

unused_below :
    (n : ℕ) (ks : List ℕ) → contains n ks ≡ false → All (λ k. k < suc n) ks → All (λ k. k < n) ks
unused_below n [] c h = tt
unused_below n (k ∷ ks) c h = elim (Bool-cases (k == n)) [
  | inl e ↦ absurd (ground (arith, e, c))
  | inr e ↦ (ground (arith, e, h.0), unused_below n ks (ground (arith, e, c)) h.1)
]

removed_below :
    (n : ℕ) (ks : List ℕ)
    → IdsDistinct ks
    → All (λ k. k < suc n) ks
    → All (λ k. k < n) (remove_key n ks) × (length ks ≤ suc (length (remove_key n ks)))
removed_below n [] d h = (tt, omega arith)
removed_below n (k ∷ ks) d h = elim (Bool-cases (k == n)) [
  | inl e ↦ rw (e) (unused_below n ks (ground (arith, e, d.0)) h.1, omega arith)
  | inr e ↦
      let (below, shorter) = removed_below n ks d.1 h.1 in
      rw (e) ((ground (arith, e, h.0), below), omega (arith, shorter))
]

-- Numbers below `n`, none of them twice, are at most `n`.
distinct_bound : (n : ℕ) (ks : List ℕ) → IdsDistinct ks → All (λ k. k < n) ks → length ks ≤ n
distinct_bound zero [] d h = omega arith
distinct_bound zero (k ∷ ks) d h = absurd (omega (arith, h.0))
distinct_bound (suc n) ks d h =
    let (below, shorter) = removed_below n ks d h in
    omega (arith, shorter, distinct_bound n (remove_key n ks) (remove_key-IdsDistinct n ks d) below)

-- The nodes that were visited, the last one first, each followed by the one after it.
abbrev pub IsChain : List Node → List ℕ → Option ℕ → Type 0
IsChain nodes [] curr = Unit
IsChain nodes (v ∷ vs) curr = (next nodes v ≡ curr) × IsChain nodes vs (some v)

-- From a visited node, the walk leads to where it stands.
chain_leads :
    (nodes : List Node) (vs : List ℕ) (curr : Option ℕ) (c : ℕ)
    → IsChain nodes vs curr
    → contains c vs ≡ true
    → (k : ℕ) × (k < length vs) × (steps nodes (suc k) (some c) ≡ curr)
unfolding steps
chain_leads nodes [] curr c h e = cc
chain_leads nodes (v ∷ vs) curr c h e = elim (Bool-cases (v == c)) [
  | inl q ↦
      let same : v ≡ c = ground arith in (0, omega arith, subst (λ x. next nodes x ≡ curr) same h.0)
  | inr q ↦
      let (k, l, s) = chain_leads nodes vs (some v) c h.1 (ground (arith, q, e)) in
      (suc k, omega arith, ap (next_of nodes) s ∙ h.0)
]

-- What the search for a cycle found, from `start`: the end, or a node of a cycle.
abbrev pub Found : List Node → Option ℕ → Option ℕ → Type 0
Found nodes start none = (m : ℕ) × (steps nodes m start ≡ none)
Found nodes start (some c) =
    (m : ℕ) × (k : ℕ) × (k < length nodes)
    × (steps nodes m start ≡ some c)
    × (steps nodes (suc k) (some c) ≡ some c)

abbrev pub Below : ℕ → Option ℕ → Type 0
Below n none = Unit
Below n (some i) = i < n

next-Below :
    (nodes : List Node) (o : Option ℕ) (i : ℕ)
    → IsClosed nodes
    → next nodes i ≡ o
    → Below (length nodes) o
next-Below nodes none i closed e = tt
next-Below nodes (some j) i closed e = closed i j e

find_cycle_from :
    (fuel : ℕ) (nodes : List Node) (start curr : Option ℕ) (visited : List ℕ)
    → IsClosed nodes
    → IdsDistinct visited
    → All (λ v. v < length nodes) visited
    → Below (length nodes) curr
    → IsChain nodes visited curr
    → steps nodes (length visited) start ≡ curr
    → length nodes + 2 ≤ fuel + length visited
    → (r : Option ℕ) × (find_cycle fuel nodes curr visited ≡ some r) × Found nodes start r
unfolding find_cycle steps
find_cycle_from zero nodes start curr visited cl d b c ch s f =
    absurd (omega (arith, distinct_bound (length nodes) visited d b))
find_cycle_from (suc fuel) nodes start none visited cl d b c ch s f =
    (none, refl, (length visited, s))
find_cycle_from (suc fuel) nodes start (some i) visited cl d b c ch s f =
    elim (Bool-cases (contains i visited)) [
      | inl e ↦
          let (k, l, back) = chain_leads nodes visited (some i) i ch e in
          let short = distinct_bound (length nodes) visited d b in
          (some i, rw (e) refl, (length visited, k, omega arith, s, back))
      | inr e ↦
          let (r, found, what) =
            find_cycle_from fuel nodes start (next nodes i) (i ∷ visited) cl (e, d) (c, b)
              (next-Below nodes (next nodes i) i cl refl) (refl, ch) (ap (next_of nodes) s)
              (omega arith) in
          (r, rw (e) found, what)
    ]

-- With fuel for two turns more than there are nodes, the search ends.
pub find_cycle-Found :
    (fuel : ℕ) (nodes : List Node) (start : Option ℕ)
    → IsClosed nodes
    → Below (length nodes) start
    → length nodes + 2 ≤ fuel
    → (r : Option ℕ) × (find_cycle fuel nodes start [] ≡ some r) × Found nodes start r
unfolding steps
find_cycle-Found fuel nodes start cl b f =
    find_cycle_from fuel nodes start start [] cl tt tt b tt refl (omega arith)
