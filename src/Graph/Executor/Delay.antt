-- ===== src/Graph/Executor/Delay.antt =====
-- src/core/graph/nodes/BasicNodes.hpp under src/core/graph/AudioExecutor.cpp: how long a delay plays.
use hermes_flow_server.Common.{
  ℕ, zero, suc, ◌+◌, ◌-◌, ◌<◌, ◌≤◌, ◌≡◌, refl, ◌∙◌, ap, Bool, true, false, Option, none, some, List,
  [], ◌∷◌, arith, if◌then◌else◌, get_elem?,
}
use mathlib.Core.Option
use mathlib.Core.Option.{none-ne-some}
use hermes_flow_server.Types.{success}
use hermes_flow_server.Graph.{Node, delay, modify, is_complete}
use hermes_flow_server.Graph.Executor.{
  AudioExecutor, count_both, rewind_both, process_as, close_as, get_next_frame, after_process,
  advance_to_next_node, sent, has_node, move_to, played_at, played, get_current, get_frame_at,
}

pub get_elem?-modify :
    (i : ℕ) (f : Node → Node) (n : Node) (ns : List Node)
    → get_elem? ns i ≡ some n
    → get_elem? (modify i f ns) i ≡ some (f n)
get_elem?-modify i f n [] h = absurd (none-ne-some n h)
get_elem?-modify zero f n (m ∷ ns) h = ap (Option.map f) h
get_elem?-modify (suc i) f n (m ∷ ns) h = get_elem?-modify i f n ns h

module _ (ready closes : ℕ → Bool) where
  -- The loop of a session over the executor, on fuel: the number of frames that are sent before it
  -- stops, as a frame is sent only where the executor wants to continue.
  unfoldable pub frames_until_stop : ℕ → AudioExecutor → Option ℕ
  frames_until_stop zero x = none
  frames_until_stop (suc fuel) x =
      let (wants_continue, status, x') = get_next_frame ready closes x in
      let rest = frames_until_stop fuel x' in if wants_continue then Option.map suc rest else some 0

  -- The executor plays node `n`, at index `i`.
  pub record Plays (x : AudioExecutor) (i : ℕ) (n : Node) : Type 0 where
    pub current : x.current_node ≡ some i
    pub at : get_elem? x.nodes i ≡ some n

  delay_frame :
      (x : AudioExecutor) (i : ℕ) (n : Node)
      → Plays x i n
      → n.kind ≡ delay
      → get_next_frame ready closes x
        ≡ after_process ready closes i
            (count_both n)
            none
            (record x { nodes = modify i count_both x.nodes })
  unfolding get_next_frame process_as
  delay_frame x i n h k =
      ap (λ c. get_current ready closes c x) h.current
      ∙ ap (λ o. get_frame_at ready closes i o x) h.at
      ∙ ap (λ kind. played ready closes i x (process_as ready closes kind i n x.nodes)) k
      ∙ ap (played_at ready closes i none (record x { nodes = modify i count_both x.nodes }))
          (get_elem?-modify i count_both n x.nodes h.at)

  after_continues :
      (x : AudioExecutor) (i : ℕ) (n : Node)
      → is_complete n ≡ false
      → after_process ready closes i n none x ≡ sent ready closes (none, x)
  unfolding after_process
  after_continues x i n c =
      ap
        (λ b.
          if b
          then sent ready closes (advance_to_next_node ready closes i n x)
          else sent ready closes (none, x))
        c

  after_ends :
      (x : AudioExecutor) (i : ℕ) (n : Node)
      → is_complete n ≡ true
      → n.kind ≡ delay
      → after_process ready closes i n none x
        ≡ sent ready closes (move_to ready closes n.target x (none, modify i rewind_both x.nodes))
  unfolding after_process advance_to_next_node close_as
  after_ends x i n c k =
      ap
        (λ b.
          if b
          then sent ready closes (advance_to_next_node ready closes i n x)
          else sent ready closes (none, x))
        c
      ∙ ap
          (λ kind.
            sent ready closes
              (move_to ready closes n.target x (close_as ready closes kind i n x.nodes)))
          k

  -- Before the last frame, the delay goes on playing.
  pub delay_continues :
      (x : AudioExecutor) (i : ℕ) (n : Node)
      → Plays x i n
      → n.kind ≡ delay
      → is_complete (count_both n) ≡ false
      → let (wants_continue, status, x') = get_next_frame ready closes x in
        (wants_continue ≡ true)
        × Plays x' i (count_both n)
        × (x'.nodes ≡ modify i count_both x.nodes)
  delay_continues x i n h k c =
      let x' : AudioExecutor = record x { nodes = modify i count_both x.nodes } in
      let e = delay_frame x i n h k ∙ after_continues x' i (count_both n) c in
      rw (e) (
        ap (has_node ready closes) h.current,
        record { current = h.current; at = get_elem?-modify i count_both n x.nodes h.at },
        refl,
      )

  pub delay_ends :
      (x : AudioExecutor) (i : ℕ) (n : Node)
      → Plays x i n
      → n.kind ≡ delay
      → is_complete (count_both n) ≡ true
      → let (wants_continue, status, x') = get_next_frame ready closes x in
        (wants_continue ≡ has_node ready closes n.target)
        × (status ≡ success)
        × (x'.current_node ≡ n.target)
        × (x'.nodes ≡ modify i rewind_both (modify i count_both x.nodes))
  delay_ends x i n h k c =
      let x' : AudioExecutor = record x { nodes = modify i count_both x.nodes } in
      let e = delay_frame x i n h k ∙ after_ends x' i (count_both n) c k in
      rw (e) (refl, refl, refl, refl)

  frames_continue :
      (fuel : ℕ) (x : AudioExecutor)
      → (get_next_frame ready closes x).0 ≡ true
      → frames_until_stop (suc fuel) x
        ≡ Option.map suc (frames_until_stop fuel (get_next_frame ready closes x).2)
  unfolding frames_until_stop
  frames_continue fuel x h = rw (h) refl

  frames_stop :
      (fuel : ℕ) (x : AudioExecutor)
      → (get_next_frame ready closes x).0 ≡ false
      → frames_until_stop (suc fuel) x ≡ some 0
  unfolding frames_until_stop
  frames_stop fuel x h = rw (h) refl

  -- A delay at the end of the graph with `left` frames to go, one of which the session does not send.
  delay_left :
      (left fuel : ℕ) (x : AudioExecutor) (i : ℕ) (n : Node)
      → Plays x i n
      → n.kind ≡ delay
      → n.target ≡ none
      → n.processed_frames + suc left ≡ n.total_frames
      → left < fuel
      → frames_until_stop fuel x ≡ some left
  delay_left left zero x i n h k t e f = absurd (omega arith)
  delay_left zero (suc fuel) x i n h k t e f =
      let (stops, _, _, _) = delay_ends x i n h k (ground arith) in
      frames_stop fuel x (stops ∙ ap (has_node ready closes) t)
  delay_left (suc left) (suc fuel) x i n h k t e f =
      let (goes, h', _) = delay_continues x i n h k (ground arith) in
      frames_continue fuel x goes
      ∙ ap (Option.map suc) (
          delay_left left fuel (get_next_frame ready closes x).2 i (count_both n) h' k t
            (omega arith) (omega arith))

  -- A session that plays a delay with a positive total and nothing after it stops, and sends one
  -- frame fewer than the total.
  pub delay_frames_lem :
      (fuel : ℕ) (x : AudioExecutor) (i : ℕ) (n : Node)
      → Plays x i n
      → n.kind ≡ delay
      → n.target ≡ none
      → n.processed_frames ≡ 0
      → 0 < n.total_frames
      → n.total_frames ≤ fuel
      → frames_until_stop fuel x ≡ some (n.total_frames - 1)
  delay_frames_lem fuel x i n h k t p l f =
      delay_left (n.total_frames - 1) fuel x i n h k t (omega arith) (omega arith)

  -- A session that plays a delay with a total of 0 frames never stops, whatever follows the
  -- delay.
  pub delay_endless :
      (fuel : ℕ) (x : AudioExecutor) (i : ℕ) (n : Node)
      → Plays x i n
      → n.kind ≡ delay
      → n.total_frames ≡ 0
      → frames_until_stop fuel x ≡ none
  unfolding frames_until_stop
  delay_endless zero x i n h k t = refl
  delay_endless (suc fuel) x i n h k t =
      let (goes, h', _) = delay_continues x i n h k (ground arith) in
      frames_continue fuel x goes
      ∙ ap (Option.map suc)
          (delay_endless fuel (get_next_frame ready closes x).2 i (count_both n) h' k t)
