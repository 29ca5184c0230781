-- ===== src/Graph/Executor/Chain.antt =====
-- src/core/graph/AudioExecutor.cpp, `advance_to_next_node`: how long a chain of delays plays.
use hermes_flow_server.Common.{
  ℕ, zero, suc, ◌+◌, ◌-◌, ◌<◌, ◌≤◌, ◌≡◌, ◌≢◌, refl, ◌∙◌, ap, sym, subst, Bool, true, false, Option,
  none, some, List, [], ◌∷◌, All, arith, get_elem?, if◌then◌else◌,
}
use mathlib.Core.Option
use hermes_flow_server.Types.{NodeErrorCode, success}
use hermes_flow_server.Graph.{Node, delay, modify}
use hermes_flow_server.Graph.Executor.{
  AudioExecutor, count_both, rewind_both, get_next_frame, has_node,
}
use hermes_flow_server.Graph.Executor.Delay.{Plays, delay_continues, delay_ends}

get_elem?-modify_ne :
    (i j : ℕ) (f : Node → Node) (ns : List Node)
    → j ≢ i
    → get_elem? (modify i f ns) j ≡ get_elem? ns j
get_elem?-modify_ne i j f [] h = refl
get_elem?-modify_ne zero zero f (n ∷ ns) h = absurd (h refl)
get_elem?-modify_ne zero (suc j) f (n ∷ ns) h = refl
get_elem?-modify_ne (suc i) zero f (n ∷ ns) h = refl
get_elem?-modify_ne (suc i) (suc j) f (n ∷ ns) h = get_elem?-modify_ne i j f ns (λ e. h (ap suc e))

-- A node and its index.
abbrev pub Place : Type 0
Place = ℕ × Node

-- A delay that has not begun, with a frame to play at least.
pub record IsFresh (nodes : List Node) (q : Place) : Type 0 where
  pub at : get_elem? nodes q.0 ≡ some q.1
  pub kind : q.1.kind ≡ delay
  pub rewound : q.1.processed_frames ≡ 0
  pub positive : 0 < q.1.total_frames

-- From `target` on, the graph goes through the places of the path, and ends after the last one.
abbrev pub Follows : List Node → Option ℕ → List Place → Type 0
Follows nodes target [] = target ≡ none
Follows nodes target (q ∷ path) =
    (target ≡ some q.0) × IsFresh nodes q × Follows nodes q.1.target path

abbrev Avoids : ℕ → List Place → Type 0
Avoids i = All (λ q. q.0 ≢ i)

-- No node stands on the path twice.
abbrev pub AreDistinct : List Place → Type 0
AreDistinct [] = Unit
AreDistinct (q ∷ path) = Avoids q.0 path × AreDistinct path

abbrev pub total_of : List Place → ℕ
total_of [] = 0
total_of (q ∷ path) = q.1.total_frames + total_of path

Follows-modify :
    (i : ℕ) (f : Node → Node) (nodes : List Node) (target : Option ℕ) (path : List Place)
    → Avoids i path
    → Follows nodes target path
    → Follows (modify i f nodes) target path
Follows-modify i f nodes target [] a h = h
Follows-modify i f nodes target (q ∷ path) a (e, v, h) = (
  e,
  record {
    at = get_elem?-modify_ne i q.0 f nodes a.0 ∙ v.at;
    kind = v.kind;
    rewound = v.rewound;
    positive = v.positive;
  },
  Follows-modify i f nodes q.1.target path a.1 h,
)

abbrev pub one_more : ℕ × NodeErrorCode → ℕ × NodeErrorCode
one_more (n, status) = (suc n, status)

module _ (ready closes : ℕ → Bool) where
  -- The loop of a session over the executor, on fuel: how many frames are sent before it stops, and
  -- the status that it stops with.
  unfoldable pub until_stop : ℕ → AudioExecutor → Option (ℕ × NodeErrorCode)
  until_stop zero x = none
  until_stop (suc fuel) x =
      let (wants_continue, status, x') = get_next_frame ready closes x in
      let rest = until_stop fuel x' in
      if wants_continue then Option.map one_more rest else some (0, status)

  pub continues :
      (fuel : ℕ) (x : AudioExecutor)
      → (get_next_frame ready closes x).0 ≡ true
      → until_stop (suc fuel) x
        ≡ Option.map one_more (until_stop fuel (get_next_frame ready closes x).2)
  unfolding until_stop
  continues fuel x h = rw (h) refl

  pub stops :
      (fuel : ℕ) (x : AudioExecutor)
      → (get_next_frame ready closes x).0 ≡ false
      → until_stop (suc fuel) x ≡ some (0, (get_next_frame ready closes x).1)
  unfolding until_stop
  stops fuel x h = rw (h) refl

  -- The node at index `i` has `left` frames to go and one more, and the path follows.
  chain_left :
      (fuel left : ℕ) (x : AudioExecutor) (i : ℕ) (n : Node) (path : List Place)
      → Plays ready closes x i n
      → n.kind ≡ delay
      → n.processed_frames + suc left ≡ n.total_frames
      → Follows x.nodes n.target path
      → Avoids i path
      → AreDistinct path
      → left + total_of path < fuel
      → until_stop fuel x ≡ some (left + total_of path, success)
  chain_left zero left x i n path h k e f a d l = absurd (omega arith)
  chain_left (suc fuel) (suc left) x i n path h k e f a d l =
      let x' = (get_next_frame ready closes x).2 in
      let (goes, h', ns) = delay_continues ready closes x i n h k (ground arith) in
      continues fuel x goes
      ∙ ap (Option.map one_more) (
          chain_left fuel left x' i (count_both n) path h' k (omega arith)
            (subst (λ ns. Follows ns n.target path) (sym ns)
              (Follows-modify i count_both x.nodes n.target path a f))
            a d (omega arith))
      ∙ ap (λ k. some (k, success)) (omega arith)
  chain_left (suc fuel) zero x i n [] h k e f a d l =
      let (ends, ok, _, _) = delay_ends ready closes x i n h k (ground arith) in
      stops fuel x (ends ∙ ap (has_node ready closes) f) ∙ ap (λ status. some (0, status)) ok
  chain_left (suc fuel) zero x i n (q ∷ path) h k e (t, v, f) a d l =
      let x' = (get_next_frame ready closes x).2 in
      let (goes, ok, moved, ns) = delay_ends ready closes x i n h k (ground arith) in
      let kept : Follows x'.nodes (some q.0) (q ∷ path) =
        subst (λ ns. Follows ns (some q.0) (q ∷ path)) (sym ns)
          (Follows-modify i rewind_both (modify i count_both x.nodes) (some q.0) (q ∷ path) a
            (Follows-modify i count_both x.nodes (some q.0) (q ∷ path) a (refl, v, f))) in
      continues fuel x (goes ∙ ap (has_node ready closes) t)
      ∙ ap (Option.map one_more) (
          chain_left fuel (q.1.total_frames - 1) x' q.0 q.1 path
            (record { current = moved ∙ t; at = kept.1.at }) v.kind
            (omega (arith, v.rewound, v.positive)) kept.2 d.0 d.1 (omega (arith, v.positive)))
      ∙ ap (λ k. some (k, success)) (omega (arith, v.positive))

  -- A session that plays a chain of delays that have not begun, each with a positive total and none
  -- twice, stops with success at the end of the chain, and sends one frame fewer than the totals add
  -- up to, with fuel for as many turns as they add up to.
  pub chain_frames_lem :
      (fuel : ℕ) (x : AudioExecutor) (q : Place) (path : List Place)
      → Follows x.nodes x.current_node (q ∷ path)
      → AreDistinct (q ∷ path)
      → total_of (q ∷ path) ≤ fuel
      → until_stop fuel x ≡ some (total_of (q ∷ path) - 1, success)
  chain_frames_lem fuel x q path (t, v, f) (a, d) l =
      chain_left fuel (q.1.total_frames - 1) x q.0 q.1 path (record { current = t; at = v.at })
        v.kind (omega (arith, v.rewound, v.positive)) f a d (omega (arith, v.positive))
      ∙ ap (λ k. some (k, success)) (omega (arith, v.positive))
